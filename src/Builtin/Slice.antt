-- ===== src/Builtin/Slice.antt =====
-- Indices from the end, and slices.
use ydsh.Prelude.{
  List, Option, [], ap, arith, drop, false, if◌then◌else◌, inl, inr, leb, length, length-drop,
  lt_or_le, ltb, none, refl, some, sym, take, true, ℕ, ◌-◌, ◌∙◌, ◌∷◌, ◌≡◌, ◌≤◌,
}
use ydsh.Prelude.Int.{negsuc, pos, ℤ}
use ydsh.Builtin.{from_end, in_bounds, slice_impl, slice, slice_from, slice_to}

-- The cut that an index means, in an array of some size, 0 to the size.
abbrev pub cut_at : ℤ → ℕ → Option ℕ
cut_at (pos n) size = if leb n size then some n else none
cut_at (negsuc n) size = if ltb n size then some (size - 1 - n) else none

-- The part of a list before such a cut and the part behind it, or an error.
abbrev pub before_cut : {A : Type 0} → List A → Option ℕ → Option (List A)
before_cut xs none = none
before_cut xs (some k) = some (take k xs)

abbrev pub after_cut : {A : Type 0} → List A → Option ℕ → Option (List A)
after_cut xs none = none
after_cut xs (some k) = some (drop k xs)

take_all {ℓ} : {A : Type ℓ} (xs : List A) → take (length xs) xs ≡ xs
take_all [] = refl
take_all (x ∷ xs) = ap (λ t. x ∷ t) (take_all xs)

module _ {A : Type 0} (xs : List A) where
  bounds_to : (k : ℕ) → k ≤ length xs → in_bounds (pos 0) (pos k) (length xs) ≡ some (0, k)
  bounds_to k h = ground arith

  bounds_from :
      (k : ℕ)
      → k ≤ length xs
      → in_bounds (pos k) (pos (length xs)) (length xs) ≡ some (k, length xs)
  bounds_from k h = ground arith

  rest_of : (k : ℕ) → take (length xs - k) (drop k xs) ≡ drop k xs
  rest_of k = ap (λ n. take n (drop k xs)) (sym (length-drop k xs)) ∙ take_all (drop k xs)

  cut_pos :
      (k : ℕ)
      → k ≤ length xs
      → (slice_impl xs (in_bounds (pos 0) (pos k) (length xs)) ≡ some (take k xs))
        × (slice_impl xs (in_bounds (pos k) (pos (length xs)) (length xs)) ≡ some (drop k xs))
  cut_pos k h =
      let whole : k - 0 ≡ k = omega arith in
      (rw (bounds_to k h, whole) refl, rw (bounds_from k h, rest_of k) refl)

  cut_none :
      (k : ℤ)
      → in_bounds (pos 0) k (length xs) ≡ none
      → in_bounds k (pos (length xs)) (length xs) ≡ none
      → (slice_impl xs (in_bounds (pos 0) k (length xs)) ≡ none)
        × (slice_impl xs (in_bounds k (pos (length xs)) (length xs)) ≡ none)
  cut_none k h g = (rw h refl, rw g refl)

-- `to` and `from` at the same index, also one from the end, give the two parts of the array or the
-- string at the place that the index means, or each of the two is an error when it means none.
pub slice_to-slice_from :
    {A : Type 0} (xs : List A) (i : ℤ)
    → (slice_to xs i ≡ before_cut xs (cut_at i (length xs)))
      × (slice_from xs i ≡ after_cut xs (cut_at i (length xs)))
unfolding slice_to slice_from slice from_end
slice_to-slice_from xs (pos n) = elim (lt_or_le (length xs) n) [
  | inl far ↦
      let t : leb n (length xs) ≡ false = ground arith in
      rw t (cut_none xs (pos n) (ground arith) (ground arith))
  | inr near ↦ (let t : leb n (length xs) ≡ true = ground arith in rw t (cut_pos xs n near))
]
slice_to-slice_from xs (negsuc n) = elim (lt_or_le n (length xs)) [
  | inl near ↦
      let t : ltb n (length xs) ≡ true = ground arith in
      rw t (cut_pos xs (length xs - 1 - n) (omega arith))
  | inr far ↦
      let t : ltb n (length xs) ≡ false = ground arith in
      rw t (cut_none xs (negsuc (n - length xs)) refl refl)
]
