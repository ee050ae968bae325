-- ===== src/Glob/Loop.antt =====
-- The loops of the matcher end, with the answer that the meaning of the pattern gives.
use ydsh.Prelude.{
  All, Bool, Bool-cases, List, Option, [], append_assoc, arith, drop, drop-drop, false, inl, inr,
  length, length-append, refl, some, suc, sym, true, zero, ℕ, ◌++◌, ◌+◌, ◌||◌, ◌∙◌, ◌∷◌, ◌≡◌, ◌≤◌,
  ap, length-drop,
}
use ydsh.Glob.{
  Char, Element, literal, any_char, zero_or_more, Pattern, is_zero_or_more, rest, is_end_or_sep,
  eats, finish, retry_loop, Outcome,
}
use ydsh.Glob.Wild.{
  wild, star, Plain, NotNull, wild-end, wild-eats, wild-ne, wild-star, star_all, finish-wild,
}
use ydsh.Glob.Commit.{Trying, Answers, Settles, left_to_try, commit, no_later}
use mathlib.Core.Path.{subst}

settle_at :
    (b : Bool) (loop loop' : ℕ → Option Outcome)
    → ((fuel : ℕ) → loop (suc fuel) ≡ loop' fuel)
    → (bound : ℕ) → ((fuel : ℕ) → bound ≤ fuel → Answers b (loop' fuel))
    → (fuel : ℕ) → suc bound ≤ fuel
    → Answers b (loop fuel)
settle_at b loop loop' step bound h zero le = absurd (omega arith)
settle_at b loop loop' step bound h (suc fuel) le =
    subst (Answers b) (sym (step fuel)) (h fuel (omega arith))

now_at :
    (b : Bool) (loop : ℕ → Option Outcome) (r : Outcome)
    → ((fuel : ℕ) → loop (suc fuel) ≡ some r)
    → r.0 ≡ b
    → (r.0 ≡ true → is_end_or_sep r.1 ≡ true)
    → (fuel : ℕ) → 1 ≤ fuel
    → Answers b (loop fuel)
now_at b loop r step e h zero le = absurd (omega arith)
now_at b loop r step e h (suc fuel) le = (r, step fuel, e, h)

or_left : (a b : Bool) → b ≡ false → a ≡ (a || b)
or_left true b h = refl
or_left false b h = sym h

or_right : (a b : Bool) → a ≡ false → b ≡ (a || b)
or_right true b h = absurd (cc)
or_right false b h = refl

or_known : (a b : Bool) → (b ≡ true → a ≡ true) → a ≡ (a || b)
or_known true b h = refl
or_known false true h = h refl
or_known false false h = refl

All-snoc :
    (P : Element → Type 0) (xs : Pattern) (e : Element) → All P xs → P e → All P (xs ++ e ∷ [])
All-snoc P [] e h he = (he, tt)
All-snoc P (x ∷ xs) e h he = (h.0, All-snoc P xs e h.1 he)

within_next :
    (lit : Pattern) (e : Element) (n : Char) (name : List Char) (x : Char) (cp : List Char)
    → n ∷ name ≡ drop (length lit) (x ∷ cp)
    → length (lit ++ e ∷ []) ≤ suc (length cp)
within_next lit e n name x cp h =
    omega (
      arith,
      length-append lit (e ∷ []),
      ap (length {A = Char}) h,
      length-drop (length lit) (x ∷ cp),
    )

pub settle_next :
    (b : Bool) (loop loop' : ℕ → Option Outcome)
    → ((fuel : ℕ) → loop (suc fuel) ≡ loop' fuel)
    → Settles b loop'
    → Settles b loop
settle_next b loop loop' step (bound, h) =
    (suc bound, λ fuel le. settle_at b loop loop' step bound h fuel le)

pub settle_eq : (b c : Bool) (loop : ℕ → Option Outcome) → b ≡ c → Settles b loop → Settles c loop
settle_eq b c loop e h = subst (λ x. Settles x loop) e h

-- Where the loop stops at once.
pub settle_now :
    (b : Bool) (loop : ℕ → Option Outcome) (r : Outcome)
    → ((fuel : ℕ) → loop (suc fuel) ≡ some r)
    → r.0 ≡ b
    → (r.0 ≡ true → is_end_or_sep r.1 ≡ true)
    → Settles b loop
settle_now b loop r step e h = (1, λ fuel le. now_at b loop r step e h fuel le)

pub finish-end : (p : Pattern) → (finish p).0 ≡ true → is_end_or_sep (finish p).1 ≡ true
unfolding finish
finish-end p h = h

eats-Plain :
    (p : Pattern) (n : Char)
    → is_end_or_sep p ≡ false
    → NotNull n
    → eats p n ≡ true
    → (e : Element) × (p ≡ e ∷ rest p) × Plain e
unfolding is_end_or_sep
eats-Plain [] n h nn e = absurd (cc)
eats-Plain (literal c ∷ p) n h nn e = (literal c, refl, ground arith)
eats-Plain (any_char ∷ p) n h nn e = (any_char, refl, refl)
eats-Plain (zero_or_more ∷ p) n h nn e = absurd (ground arith)

pub star-eats : (p : Pattern) (n : Char) → NotNull n → is_zero_or_more p ≡ true → eats p n ≡ false
star-eats [] n nn h = absurd (cc)
star-eats (literal c ∷ p) n nn h = absurd (cc)
star-eats (any_char ∷ p) n nn h = absurd (cc)
star-eats (zero_or_more ∷ p) n nn h = ground arith

pub star-end : (p : Pattern) → is_zero_or_more p ≡ true → is_end_or_sep p ≡ false
unfolding is_end_or_sep
star-end [] h = absurd (cc)
star-end (literal c ∷ p) h = absurd (cc)
star-end (any_char ∷ p) h = absurd (cc)
star-end (zero_or_more ∷ p) h = refl

module _ (fuel : ℕ) (n : Char) (name : List Char) (p : Pattern) (cp : List Char)
    (old : Pattern) where
  retry-at_end :
      is_end_or_sep p ≡ true
      → retry_loop (suc fuel) (n ∷ name) p cp old ≡ retry_loop fuel cp old (drop 1 cp) old
  unfolding retry_loop
  retry-at_end h = rw h refl

  retry-at_eats :
      is_end_or_sep p ≡ false
      → eats p n ≡ true
      → retry_loop (suc fuel) (n ∷ name) p cp old ≡ retry_loop fuel name (rest p) cp old
  unfolding retry_loop
  retry-at_eats h e = rw (h, e) refl

  pub retry-at_star :
      is_end_or_sep p ≡ false
      → eats p n ≡ false
      → is_zero_or_more p ≡ true
      → is_end_or_sep (rest p) ≡ false
      → retry_loop (suc fuel) (n ∷ name) p cp old
        ≡ retry_loop fuel (n ∷ name) (rest p) name (rest p)
  unfolding retry_loop
  retry-at_star h e s m = rw (h, e, s, m) refl

  pub retry-at_last :
      is_end_or_sep p ≡ false
      → eats p n ≡ false
      → is_zero_or_more p ≡ true
      → is_end_or_sep (rest p) ≡ true
      → retry_loop (suc fuel) (n ∷ name) p cp old ≡ some (true, rest p)
  unfolding retry_loop
  retry-at_last h e s m = rw (h, e, s, m) refl

  retry-at_ne :
      is_end_or_sep p ≡ false
      → eats p n ≡ false
      → is_zero_or_more p ≡ false
      → retry_loop (suc fuel) (n ∷ name) p cp old ≡ retry_loop fuel cp old (drop 1 cp) old
  unfolding retry_loop
  retry-at_ne h e s = rw (h, e, s) refl

abbrev pub Tries : List Char → Pattern → List Char → Pattern → Type 0
Tries name p cp old = Settles (left_to_try name p cp old) (λ fuel. retry_loop fuel name p cp old)

pub first_attempt : (n : Char) (name : List Char) (p : Pattern) → Trying (n ∷ name) p name p
first_attempt n name p = record {
  lit = [];
  start = n;
  plain = tt;
  pattern_at = refl;
  name_at = refl;
  within = omega arith;
}

next_attempt :
    (n : Char) (name : List Char) (p : Pattern) (cp : List Char) (old : Pattern)
    → Trying (n ∷ name) p cp old
    → (e : Element) → p ≡ e ∷ rest p
    → Plain e
    → Trying name (rest p) cp old
next_attempt n name p cp old t e same pl =
    let one_more : length (t.lit ++ e ∷ []) ≡ length t.lit + 1 = length-append t.lit (e ∷ []) in
    record {
      lit = t.lit ++ e ∷ [];
      start = t.start;
      plain = All-snoc Plain t.lit e t.plain pl;
      pattern_at =
          t.pattern_at ∙ ap (λ q. t.lit ++ q) same ∙ sym (append_assoc t.lit (e ∷ []) (rest p));
      name_at =
          ap (drop 1) t.name_at
          ∙ drop-drop (length t.lit) 1 (t.start ∷ cp)
          ∙ ap (λ k. drop k (t.start ∷ cp)) (sym one_more);
      within = within_next t.lit e n name t.start cp t.name_at;
    }

-- A try again, one character further on.
again :
    (cp : List Char) (old : Pattern)
    → All NotNull cp
    → ((c : Char) (cs : List Char) → cp ≡ c ∷ cs → All NotNull (c ∷ cs) → Tries (c ∷ cs) old cs old)
    → Settles (star (λ u. wild old u) cp) (λ fuel. retry_loop fuel cp old (drop 1 cp) old)
again [] old nn ih =
    settle_now (wild old []) (λ fuel. retry_loop fuel [] old [] old) (finish old)
      (λ fuel. unfold retry_loop in refl) (finish-wild old) (finish-end old)
again (c ∷ cs) old nn ih = ih c cs refl nn

length-rest : (p : Pattern) → is_end_or_sep p ≡ false → length p ≡ suc (length (rest p))
unfolding is_end_or_sep
length-rest [] h = absurd (cc)
length-rest (e ∷ p) h = refl

abbrev pub Inner : ℕ → ℕ → Type 0
Inner k j =
    (name : List Char) (p : Pattern) (cp : List Char) (old : Pattern)
    → length cp ≤ k
    → length name + length p ≤ j
    → All NotNull name
    → All NotNull cp
    → Trying name p cp old
    → Tries name p cp old

module _ (k j : ℕ) (n : Char) (name : List Char) (p : Pattern) (cp : List Char) (old : Pattern)
    (lk : length cp ≤ k) (lj : suc (length name) + length p ≤ suc j)
    (nn : NotNull n × All NotNull name) (nc : All NotNull cp) (t : Trying (n ∷ name) p cp old)
    (retry : Settles (star (λ u. wild old u) cp) (λ fuel. retry_loop fuel cp old (drop 1 cp) old))
    (inner : Inner k j) where
  retries :
      wild p (n ∷ name) ≡ false
      → ((fuel : ℕ)
          → retry_loop (suc fuel) (n ∷ name) p cp old ≡ retry_loop fuel cp old (drop 1 cp) old)
      → Tries (n ∷ name) p cp old
  retries e step =
      settle_next (left_to_try (n ∷ name) p cp old) (λ fuel. retry_loop fuel (n ∷ name) p cp old)
        (λ fuel. retry_loop fuel cp old (drop 1 cp) old) step
        (settle_eq (star (λ u. wild old u) cp) (left_to_try (n ∷ name) p cp old) _
          (or_right (wild p (n ∷ name)) (star (λ u. wild old u) cp) e) retry)

  eaten : is_end_or_sep p ≡ false → eats p n ≡ true → Tries (n ∷ name) p cp old
  eaten inside e =
      let (first, same, pl) = eats-Plain p n inside nn.0 e in
      settle_next (left_to_try (n ∷ name) p cp old) (λ fuel. retry_loop fuel (n ∷ name) p cp old)
        (λ fuel. retry_loop fuel name (rest p) cp old)
        (λ fuel. retry-at_eats fuel n name p cp old inside e)
        (settle_eq (left_to_try name (rest p) cp old) (left_to_try (n ∷ name) p cp old) _
          (ap (λ b. b || star (λ u. wild old u) cp) (sym (wild-eats p n name inside nn.0 e)))
          (inner name (rest p) cp old lk (omega (arith, length-rest p inside)) nn.1 nc
            (next_attempt n name p cp old t first same pl)))

  shorter : length name ≤ length cp
  shorter =
      omega (arith, ap (length {A = Char}) t.name_at, length-drop (length t.lit) (t.start ∷ cp))

  committed : is_zero_or_more p ≡ true → wild p (n ∷ name) ≡ left_to_try (n ∷ name) p cp old
  committed s =
      or_known (wild p (n ∷ name)) (star (λ u. wild old u) cp) (commit (n ∷ name) p cp old t s)

  starred : is_zero_or_more p ≡ true → Tries (n ∷ name) p cp old
  starred s =
      let inside = star-end p s in
      let e = star-eats p n nn.0 s in
      elim (Bool-cases (is_end_or_sep (rest p))) [
        | inl last ↦
            settle_now (left_to_try (n ∷ name) p cp old)
              (λ fuel. retry_loop fuel (n ∷ name) p cp old) (true, rest p)
              (λ fuel. retry-at_last fuel n name p cp old inside e s last)
              (sym (
                  wild-star p (n ∷ name) s
                  ∙ star_all (λ u. wild (rest p) u) (n ∷ name) (wild-end (rest p) [] last))
                ∙ committed s)
              (λ h. last)
        | inr more ↦
            settle_next (left_to_try (n ∷ name) p cp old)
              (λ fuel. retry_loop fuel (n ∷ name) p cp old)
              (λ fuel. retry_loop fuel (n ∷ name) (rest p) name (rest p))
              (λ fuel. retry-at_star fuel n name p cp old inside e s more)
              (settle_eq (left_to_try (n ∷ name) (rest p) name (rest p))
                (left_to_try (n ∷ name) p cp old) _ (sym (wild-star p (n ∷ name) s) ∙ committed s)
                (inner (n ∷ name) (rest p) name (rest p) (omega (arith, shorter))
                  (omega (arith, length-rest p inside)) nn nn.1 (first_attempt n name (rest p))))
      ]

  round : Tries (n ∷ name) p cp old
  round = elim (Bool-cases (is_end_or_sep p)) [
    | inl at_end ↦
        retries (wild-end p (n ∷ name) at_end) (λ fuel. retry-at_end fuel n name p cp old at_end)
    | inr inside ↦ elim (Bool-cases (eats p n)) [
      | inl e ↦ eaten inside e
      | inr e ↦ elim (Bool-cases (is_zero_or_more p)) [
        | inl s ↦ starred s
        | inr s ↦
            retries (wild-ne p n name s e) (λ fuel. retry-at_ne fuel n name p cp old inside e s)
      ]
    ]
  ]

at_end_of_name :
    (p : Pattern) (cp : List Char) (old : Pattern) → Trying [] p cp old → Tries [] p cp old
at_end_of_name p cp old t =
    settle_now (left_to_try [] p cp old) (λ fuel. retry_loop fuel [] p cp old) (finish p)
      (λ fuel. unfold retry_loop in refl)
      (finish-wild p
        ∙ or_left (wild p []) (star (λ u. wild old u) cp) (no_later [] p cp old t refl))
      (finish-end p)

pub tries : (k j : ℕ) → Inner k j
tries k j [] p cp old lk lj nn nc t = at_end_of_name p cp old t
tries k zero (n ∷ name) p cp old lk lj nn nc t = absurd (omega arith)
tries zero (suc j) (n ∷ name) p cp old lk lj nn nc t =
    round zero j n name p cp old lk lj nn nc t
      (again cp old nc (λ c cs e nn'. absurd (omega (arith, ap (length {A = Char}) e))))
      (tries zero j)
tries (suc k) (suc j) (n ∷ name) p cp old lk lj nn nc t =
    round (suc k) j n name p cp old lk lj nn nc t
      (again cp old nc (λ c cs e nn'.
        tries k (suc (length cs) + length old) (c ∷ cs) old cs old
          (omega (arith, ap (length {A = Char}) e)) (omega arith) nn' nn'.1
          (first_attempt c cs old)))
      (tries (suc k) j)
