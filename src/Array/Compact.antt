-- ===== src/Array/Compact.antt =====
-- The compaction loop keeps what passes its test, in order, and moves the rest behind it.
use mathlib.Core.List.{Perm, perm_middle}
use mathlib.Core.List.Perm
use mathlib.Core.Path.{◌≡⟨◌⟩◌, ◌∎}
use ydsh.Prelude.{
  Bool, Bool-cases, List, [], ap, append-nil, append_assoc, arith, drop, drop-append, get_elem?,
  inl, length, length-append, not, refl, some, suc, sym, take, take-append, true, zero, ℕ, ◌++◌,
  ◌+◌, ◌-◌, ◌<◌, ◌||◌, ◌∙◌, ◌∷◌, ◌≡◌, ◌⊎◌, inr, set,
}
use ydsh.Array.{any, swap, filter, test_at, first_removed, compact_loop, compact}

module _ {ℓ} {A : Type ℓ} where
  get_elem?-middle :
      (xs : List A) (x : A) (ys : List A) (i : ℕ)
      → i ≡ length xs
      → get_elem? (xs ++ x ∷ ys) i ≡ some x
  get_elem?-middle [] x ys i e = rw e
  get_elem?-middle (w ∷ xs) x ys i e = rw e (get_elem?-middle xs x ys (length xs) refl)

  set-middle :
      (xs : List A) (x y : A) (ys : List A) (i : ℕ)
      → i ≡ length xs
      → set (xs ++ x ∷ ys) i y ≡ xs ++ y ∷ ys
  set-middle [] x y ys i e = rw e
  set-middle (w ∷ xs) x y ys i e = rw e (ap (λ t. w ∷ t) (set-middle xs x y ys (length xs) refl))

  swap-values :
      (i j : ℕ) (xs : List A) (a b : A)
      → get_elem? xs i ≡ some a
      → get_elem? xs j ≡ some b
      → swap i j xs ≡ set (set xs i b) j a
  swap-values i j xs a b p q = rw (p, q)

  swap-middle :
      (pre : List A) (d : A) (mid : List A) (y : A) (rest : List A) (i r : ℕ)
      → i ≡ length (pre ++ d ∷ mid)
      → r ≡ length pre
      → swap i r (pre ++ d ∷ mid ++ y ∷ rest) ≡ pre ++ y ∷ mid ++ d ∷ rest
  swap-middle pre d mid y rest i r ei er =
      swap i r (pre ++ d ∷ mid ++ y ∷ rest)
      ≡⟨ swap-values i r _ y d (get_elem?-middle (pre ++ d ∷ mid) y rest i ei) (
          rw (append_assoc pre (d ∷ mid) (y ∷ rest))
            (get_elem?-middle pre d (mid ++ y ∷ rest) r er)) ⟩
        set (set (pre ++ d ∷ mid ++ y ∷ rest) i d) r y
      ≡⟨ ap (λ t. set t r y) (set-middle (pre ++ d ∷ mid) y d rest i ei) ⟩
        set (pre ++ d ∷ mid ++ d ∷ rest) r y
      ≡⟨ ap (λ t. set t r y) (append_assoc pre (d ∷ mid) (d ∷ rest)) ⟩
        set (pre ++ d ∷ (mid ++ d ∷ rest)) r y
      ≡⟨ set-middle pre d y (mid ++ d ∷ rest) r er ⟩ pre ++ y ∷ (mid ++ d ∷ rest)
      ≡⟨ sym (append_assoc pre (y ∷ mid) (d ∷ rest)) ⟩ pre ++ y ∷ mid ++ d ∷ rest ∎

module _ {ℓ} {A : Type ℓ} (p : A → Bool) where
  any-append : (xs ys : List A) → any p (xs ++ ys) ≡ (any p xs || any p ys)
  any-append [] ys = refl
  any-append (x ∷ xs) ys = ground (arith, any-append xs ys)

  any-rotate : (g : A) (mid out : List A) → any p (mid ++ g ∷ [] ++ out) ≡ any p (g ∷ mid ++ out)
  any-rotate g mid out =
      ground (arith, any-append (mid ++ g ∷ []) out, any-append mid (g ∷ []), any-append mid out)

-- What the loops leave: `kept`, then a tail that is a permutation of `gone`.
pub record IsCompacted {ℓ} {A : Type ℓ} (kept gone : List A) (out : List A × ℕ) : Type ℓ where
  pub tail : List A
  pub array : out.0 ≡ kept ++ tail
  pub count : out.1 ≡ length kept
  pub moved : Perm tail gone
  pub holds : (p : A → Bool) → any p tail ≡ any p gone

module _ {ℓ} {A : Type ℓ} (keep : A → Bool) where
  abbrev pub gone : A → Bool
  gone x = not (keep x)

  test_at-middle :
      (pre : List A) (x : A) (rest : List A) (i : ℕ)
      → i ≡ length pre
      → test_at keep (pre ++ x ∷ rest) i ≡ keep x
  test_at-middle pre x rest i e = rw (get_elem?-middle pre x rest i e)

  reshape :
      (pre : List A) (y : A) (mid : List A) (g : A) (rest : List A)
      → pre ++ y ∷ mid ++ g ∷ rest ≡ (pre ++ y ∷ []) ++ (mid ++ g ∷ []) ++ rest
  reshape pre y mid g rest = simp append_assoc

  regroup : (xs : List A) (y : A) (rest : List A) → xs ++ y ∷ rest ≡ xs ++ y ∷ [] ++ rest
  regroup xs y rest = sym (append_assoc xs (y ∷ []) rest)

  IsCompacted-rotate :
      (pre : List A) (y : A) (mid : List A) (g : A) (kept out_of : List A) (out : List A × ℕ)
      → IsCompacted ((pre ++ y ∷ []) ++ kept) (mid ++ g ∷ [] ++ out_of) out
      → IsCompacted (pre ++ y ∷ kept) (g ∷ mid ++ out_of) out
  IsCompacted-rotate pre y mid g kept out_of out c =
      let e : (pre ++ y ∷ []) ++ kept ≡ pre ++ y ∷ kept = append_assoc pre (y ∷ []) kept in
      record {
        tail = c.tail;
        array = rw (← e) c.array;
        count = rw (← e) c.count;
        moved =
            Perm.trans c.moved
              (Perm.append_right out_of (rw append-nil at (perm_middle {a = g} mid [])));
        holds = λ p. c.holds p ∙ any-rotate p g mid out_of;
      }

  -- `gap` holds the elements that go and were passed.
  loop-IsCompacted :
      (rest pre gap : List A) (n i r : ℕ)
      → 0 < length gap
      → n ≡ length rest
      → i ≡ length (pre ++ gap)
      → r ≡ length pre
      → IsCompacted
          (pre ++ filter keep rest)
          (gap ++ filter gone rest)
          (compact_loop keep n i r (pre ++ gap ++ rest))
  unfolding compact_loop
  loop-IsCompacted [] pre gap zero i r h en ei er = record {
    tail = gap;
    array = simp append-nil;
    count = rw append-nil er;
    moved = rw append-nil (Perm.refl gap);
    holds = λ p. rw append-nil;
  }
  loop-IsCompacted [] pre gap (suc n) i r h en ei er = absurd (omega arith)
  loop-IsCompacted (y ∷ rest) pre gap zero i r h en ei er = absurd (omega arith)
  loop-IsCompacted (y ∷ rest) pre [] (suc n) i r h en ei er = absurd (omega arith)
  loop-IsCompacted (y ∷ rest) pre (g ∷ mid) (suc n) i r h en ei er =
      rw (test_at-middle (pre ++ g ∷ mid) y rest i ei) (elim (Bool-cases (keep y)) [
        | inl stays ↦ rw stays (
            IsCompacted-rotate pre y mid g _ _ _ (
              rw (swap-middle pre g mid y rest i r ei er, reshape pre y mid g rest)
                (loop-IsCompacted rest (pre ++ y ∷ []) (mid ++ g ∷ []) n (i + 1) (r + 1)
                  (grind (arith, length-append)) (omega arith) (grind (arith, length-append))
                  (grind (arith, length-append)))))
        | inr goes ↦
            rw
              (
                goes,
                regroup (g ∷ mid) y (filter gone rest),
                regroup (pre ++ g ∷ mid) y rest,
                append_assoc pre (g ∷ mid) (y ∷ []),
              )
              (loop-IsCompacted rest pre (g ∷ mid ++ y ∷ []) n (i + 1) r
                (grind (arith, length-append)) (omega arith) (grind (arith, length-append)) er)
      ])

  abbrev AllStay : List A → Type ℓ
  AllStay xs = (first_removed keep xs ≡ length xs) × (filter keep xs ≡ xs) × (filter gone xs ≡ [])

  abbrev SomeGoes : List A → Type ℓ
  SomeGoes xs =
      (pre : List A) × (g : A) × (rest : List A) × (xs ≡ pre ++ g ∷ rest)
      × (first_removed keep xs ≡ length pre)
      × (filter keep xs ≡ pre ++ filter keep rest)
      × (filter gone xs ≡ g ∷ filter gone rest)

  first_split-cons :
      (x : A) (xs : List A)
      → keep x ≡ true
      → AllStay xs ⊎ SomeGoes xs
      → AllStay (x ∷ xs) ⊎ SomeGoes (x ∷ xs)
  unfolding first_removed
  first_split-cons x xs k (inl (a, b, c)) = inl (rw k (ap suc a), rw k (ap (λ t. x ∷ t) b), rw k c)
  first_split-cons x xs k (inr (pre, g, rest, a, b, c, d)) =
      inr (x ∷ pre, g, rest, ap (λ t. x ∷ t) a, rw k (ap suc b), rw k (ap (λ t. x ∷ t) c), rw k d)

  first_split : (xs : List A) → AllStay xs ⊎ SomeGoes xs
  unfolding first_removed
  first_split [] = inl (refl, refl, refl)
  first_split (x ∷ xs) = elim (Bool-cases (keep x)) [
    | inl stays ↦ first_split-cons x xs stays (first_split xs)
    | inr goes ↦ inr ([], x, xs, refl, rw goes, rw goes, rw goes)
  ]

  compact-split :
      (xs : List A)
      → AllStay xs ⊎ SomeGoes xs
      → IsCompacted (filter keep xs) (filter gone xs) (compact keep xs)
  unfolding compact
  compact-split xs (inl (a, b, c)) =
      let none_left : length xs - (length xs + 1) ≡ 0 = omega arith in
      rw (a, b, c, none_left)
        (record {
          tail = [];
          array = rw append-nil;
          count = refl;
          moved = Perm.refl [];
          holds = λ p. refl;
        })
  compact-split xs (inr (pre, g, rest, a, b, c, d)) =
      rw (b, c, d)
        (rw a (
          rw (regroup pre g rest) (
            loop-IsCompacted rest pre (g ∷ []) (length (pre ++ g ∷ [] ++ rest) - (length pre + 1))
              (length pre + 1) (length pre) (omega arith)
              (omega
                (arith, length-append {ℓ} (pre ++ g ∷ []) rest, length-append {ℓ} pre (g ∷ [])))
              (omega (arith, length-append {ℓ} pre (g ∷ []))) refl)))

  -- Both loops together.
  pub compact-IsCompacted :
      (xs : List A) → IsCompacted (filter keep xs) (filter gone xs) (compact keep xs)
  compact-IsCompacted xs = compact-split xs (first_split xs)

  -- Cutting the array where the loop ended leaves the elements that stay, in order.
  pub take-compact : (xs : List A) → take (compact keep xs).1 (compact keep xs).0 ≡ filter keep xs
  take-compact xs =
      let c = compact-IsCompacted xs in rw (c.array, c.count) (take-append (filter keep xs) c.tail)

  drop-compact :
      (xs : List A) → drop (compact keep xs).1 (compact keep xs).0 ≡ (compact-IsCompacted xs).tail
  drop-compact xs =
      let c = compact-IsCompacted xs in rw (c.array, c.count) (drop-append (filter keep xs) c.tail)

  -- What is cut off holds the elements that go.
  pub any-drop-compact :
      (xs : List A) (p : A → Bool)
      → any p (drop (compact keep xs).1 (compact keep xs).0) ≡ any p (filter gone xs)
  any-drop-compact xs p = ap (any p) (drop-compact xs) ∙ (compact-IsCompacted xs).holds p
