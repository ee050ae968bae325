-- ===== src/Builtin/Arrays.antt =====
-- Methods of arrays that insert and remove.
use ydsh.Prelude.{
  Bool-cases, List, [], ap, append-nil, append_assoc, arith, drop, false, get_elem?, inl, inr, leb,
  length, ltb, refl, some, suc, sym, take, take-append-drop, true, zero, ℕ, ◌++◌, ◌+◌, ◌-◌, ◌<◌,
  ◌==◌, ◌∙◌, ◌∷◌, ◌≡◌, ◌≤◌, length-append, ◌⊎◌,
}
use ydsh.Prelude.Int.{pos, negsuc, ℤ}
use ydsh.Builtin.{
  resolve_index, insert_index, insert_at, erase, max_size, array_insert_impl, array_insert,
  array_remove, extend_loop, array_extend,
}

-- The place that an index means in an array of some size: counted from the front, up to the size, or
-- from the end, where -1 means the last one.
abbrev pub Means : ℤ → ℕ → ℕ → Type 0
Means i size k = ((i ≡ pos k) × (k ≤ size)) ⊎ ((m : ℕ) × (i ≡ negsuc m) × (k + (m + 1) ≡ size))

insert_index-pos : (k size : ℕ) → k ≤ size → insert_index (pos k) size ≡ some k
unfolding resolve_index
insert_index-pos k size h = ground arith

insert_index-negsuc : (m k size : ℕ) → k + (m + 1) ≡ size → insert_index (negsuc m) size ≡ some k
unfolding resolve_index
insert_index-negsuc m k size h =
    let t : ltb m size ≡ true = ground arith in
    let e : size - 1 - m ≡ k = omega arith in rw (t, e) refl

insert_index-place : (i : ℤ) (size k : ℕ) → Means i size k → insert_index i size ≡ some k
insert_index-place i size k (inl (e, h)) = rw e (insert_index-pos k size h)
insert_index-place i size k (inr (m, e, h)) = rw e (insert_index-negsuc m k size h)

place-bound : (i : ℤ) (size k : ℕ) → Means i size k → k ≤ size
place-bound i size k (inl (e, h)) = h
place-bound i size k (inr (m, e, h)) = omega arith

module _ {A : Type 0} where
  get_elem?-insert_at :
      (k : ℕ) (v : A) (xs : List A) → k ≤ length xs → get_elem? (insert_at k v xs) k ≡ some v
  get_elem?-insert_at zero v xs h = refl
  get_elem?-insert_at (suc k) v [] h = absurd (omega arith)
  get_elem?-insert_at (suc k) v (x ∷ xs) h = get_elem?-insert_at k v xs (omega arith)

  erase-insert_at : (k : ℕ) (v : A) (xs : List A) → k ≤ length xs → erase k (insert_at k v xs) ≡ xs
  erase-insert_at zero v xs h = refl
  erase-insert_at (suc k) v [] h = absurd (omega arith)
  erase-insert_at (suc k) v (x ∷ xs) h = ap (λ t. x ∷ t) (erase-insert_at k v xs (omega arith))

  length-insert_at :
      (k : ℕ) (v : A) (xs : List A) → k ≤ length xs → length (insert_at k v xs) ≡ suc (length xs)
  length-insert_at k v xs h = omega (
    arith,
    length-append (take k xs) (v ∷ drop k xs),
    ap (length {A = A}) (take-append-drop k xs),
    length-append (take k xs) (drop k xs),
  )

  -- Inserting a value at an index, which means a place counted from the front, up to the size, or from
  -- the end, into an array below the size limit, puts it before the values from that place on, and
  -- removing at that place returns the value and the array from before.
  pub array_insert-remove :
      (xs : List A) (i : ℤ) (v : A) (k : ℕ)
      → Means i (length xs) k
      → length xs < max_size
      → (ys : List A) × (ys ≡ take k xs ++ v ∷ drop k xs)
        × (array_insert xs i v ≡ some ys)
        × (array_remove ys (pos k) ≡ some (v, xs))
  unfolding array_insert array_insert_impl array_remove resolve_index
  array_insert-remove xs i v k at room =
      let le = place-bound i (length xs) k at in
      let place = insert_index-place i (length xs) k at in
      let full : (length xs == max_size) ≡ false = ground arith in
      let size = length-insert_at k v xs le in
      let inside : ltb k (length (insert_at k v xs)) ≡ true = ground arith in
      (
        insert_at k v xs,
        refl,
        rw (full, place) refl,
        rw (inside, get_elem?-insert_at k v xs le, erase-insert_at k v xs le) refl,
      )

  take-nil : (n : ℕ) → take {A = A} n [] ≡ []
  take-nil zero = refl
  take-nil (suc n) = refl

  -- Extending an array that is at most as long as the size limit by another one appends as many of its
  -- values as the limit leaves room for, in their order, and says whether these are all.
  pub array_extend_lem :
      (xs vs : List A)
      → length xs ≤ max_size
      → array_extend false xs vs
        ≡ (xs ++ take (max_size - length xs) vs, leb (length xs + length vs) max_size)
  unfolding array_extend extend_loop
  array_extend_lem xs [] h =
      let t : leb (length xs + 0) max_size ≡ true = ground arith in
      rw t (
        ap (λ t. (t, true))
          (sym (append-nil xs) ∙ ap (λ t. xs ++ t) (sym (take-nil (max_size - length xs)))))
  array_extend_lem xs (v ∷ vs) h = elim (Bool-cases (length xs == max_size)) [
    | inl e ↦
        let none_left : max_size - length xs ≡ 0 = ground arith in
        let over : leb (length xs + suc (length vs)) max_size ≡ false = ground arith in
        rw (e, over, none_left) (ap (λ t. (t, false)) (sym (append-nil xs)))
    | inr e ↦
        let grown = length-append xs (v ∷ []) in
        let left : max_size - length xs ≡ suc (max_size - length (xs ++ v ∷ [])) = ground arith in
        let total : length (xs ++ v ∷ []) + length vs ≡ length xs + suc (length vs) = omega arith in
        rw e (
          array_extend_lem (xs ++ v ∷ []) vs (ground arith)
          ∙ rw (left, total)
              (ap (λ t. (t, leb (length xs + suc (length vs)) max_size))
                (append_assoc xs (v ∷ []) (take (max_size - length (xs ++ v ∷ [])) vs))))
  ]
