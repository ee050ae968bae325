-- ===== src/Builtin/Find.antt =====
-- `find`: the first occurrence.
use ydsh.Prelude.{
  Bool-cases, Option, [], arith, drop, false, inl, inr, length, none, refl, some, some_inj, suc,
  sym, take, true, zero, ℕ, ◌++◌, ◌+◌, ◌==◌, ◌∙◌, ◌∷◌, ◌≡◌, ◌≢◌, ◌≤◌, ap, length-append,
}
use ydsh.Builtin.{Byte, Text, starts_with, plus, memmem}
use mathlib.Core.Path.{subst}

pub starts_with-split : (xs ds : Text) → starts_with xs ds ≡ true → xs ≡ ds ++ drop (length ds) xs
unfolding starts_with
starts_with-split xs [] h = refl
starts_with-split [] (d ∷ ds) h = absurd (cc)
starts_with-split (x ∷ xs) (d ∷ ds) h =
    let same : x ≡ d = ground arith in
    ap (λ t. x ∷ t) (starts_with-split xs ds (ground arith))
    ∙ ap (λ t. t ∷ (ds ++ drop (length ds) xs)) same

starts_with-take :
    (n : ℕ) (xs ds : Text) → starts_with xs ds ≡ false → starts_with (take n xs) ds ≡ false
unfolding starts_with
starts_with-take n xs [] h = absurd (cc)
starts_with-take zero xs (d ∷ ds) h = refl
starts_with-take (suc n) [] (d ∷ ds) h = refl
starts_with-take (suc n) (x ∷ xs) (d ∷ ds) h = elim (Bool-cases (x == d)) [
  | inl e ↦ rw e (starts_with-take n xs ds (ground arith))
  | inr e ↦ rw e refl
]

memmem-here :
    (x : Byte) (xs ds : Text) → starts_with (x ∷ xs) ds ≡ true → memmem (x ∷ xs) ds ≡ some 0
unfolding memmem
memmem-here x xs ds h = rw h refl

pub memmem-later :
    (x : Byte) (xs ds : Text)
    → starts_with (x ∷ xs) ds ≡ false
    → memmem (x ∷ xs) ds ≡ plus 1 (memmem xs ds)
unfolding memmem
memmem-later x xs ds h = rw h refl

abbrev pub NotFound : Text → Text → Type 0
NotFound ds xs = memmem xs ds ≡ none

-- A text up to an occurrence of `ds`, which is the first, and the text behind it.
pub record Occurs (xs ds : Text) (k : ℕ) : Type 0 where
  pub splits : xs ≡ take k xs ++ (ds ++ drop (k + length ds) xs)
  pub first : NotFound ds (take k xs)
  pub within : k + length ds ≤ length xs

plus-some : (o : Option ℕ) (k : ℕ) → plus 1 o ≡ some k → (j : ℕ) × (o ≡ some j) × (k ≡ suc j)
plus-some none k h = absurd (cc)
plus-some (some j) k h = (j, refl, (let e : 1 + j ≡ k = some_inj h in omega arith))

memmem-nil : (d : Byte) (ds : Text) → memmem [] (d ∷ ds) ≡ none
unfolding memmem starts_with
memmem-nil d ds = refl

none-some : (k : ℕ) → none ≢ some k
none-some k e = cc

suc_plus : (j n : ℕ) → suc (j + suc n) ≡ suc j + suc n
suc_plus j n = omega arith

at_start :
    (x : Byte) (xs : Text) (d : Byte) (ds : Text)
    → starts_with (x ∷ xs) (d ∷ ds) ≡ true
    → x ∷ xs ≡ (d ∷ ds) ++ drop (0 + length (d ∷ ds)) (x ∷ xs)
at_start x xs d ds h =
    let e : length (d ∷ ds) ≡ 0 + length (d ∷ ds) = omega arith in
    starts_with-split (x ∷ xs) (d ∷ ds) h ∙ ap (λ i. (d ∷ ds) ++ drop i (x ∷ xs)) e

starts_length :
    (x : Byte) (xs : Text) (d : Byte) (ds : Text)
    → starts_with (x ∷ xs) (d ∷ ds) ≡ true
    → 0 + length (d ∷ ds) ≤ length (x ∷ xs)
starts_length x xs d ds h =
    let e = starts_with-split (x ∷ xs) (d ∷ ds) h in
    omega
      (arith, ap (length {A = Byte}) e, length-append (d ∷ ds) (drop (length (d ∷ ds)) (x ∷ xs)))

pub memmem-Occurs :
    (xs : Text) (d : Byte) (ds : Text) (k : ℕ) → memmem xs (d ∷ ds) ≡ some k → Occurs xs (d ∷ ds) k
memmem-Occurs [] d ds k h = absurd (none-some k (sym (memmem-nil d ds) ∙ h))
memmem-Occurs (x ∷ xs) d ds k h = elim (Bool-cases (starts_with (x ∷ xs) (d ∷ ds))) [
  | inl e ↦
      let zero_at : 0 ≡ k = some_inj (sym (memmem-here x xs (d ∷ ds) e) ∙ h) in
      subst (Occurs (x ∷ xs) (d ∷ ds)) zero_at (record {
        splits = at_start x xs d ds e;
        first = memmem-nil d ds;
        within = starts_length x xs d ds e;
      })
  | inr e ↦
      let (j, found, same) =
        plus-some (memmem xs (d ∷ ds)) k (sym (memmem-later x xs (d ∷ ds) e) ∙ h) in
      let o = memmem-Occurs xs d ds j found in
      subst (Occurs (x ∷ xs) (d ∷ ds)) (sym same) (record {
        splits =
            ap (λ t. x ∷ t) o.splits
            ∙ ap (λ i. x ∷ (take j xs ++ ((d ∷ ds) ++ drop i (x ∷ xs)))) (suc_plus j (length ds));
        first =
            memmem-later x (take j xs) (d ∷ ds) (starts_with-take (suc j) (x ∷ xs) (d ∷ ds) e)
            ∙ ap (plus 1) o.first;
        within = omega (arith, o.within);
      })
]
