-- ===== src/Emit/Append.antt =====
-- `append`: the number of bytes that it takes, and reading them back.
use ydsh.Prelude.{
  List, ap, arith, false, get_or, get_or-append, if◌then◌else◌, inl, inr, leb, length,
  length-append, length-replicate, lt_or_le, ltb, refl, replicate, true, ℕ, ◌%◌, ◌*◌, ◌++◌, ◌+◌,
  ◌<◌, ◌^◌, ◌∙◌, ◌≡◌,
}
use ydsh.Emit.{
  Byte, Emitter, with_code, write_n, read_n, append, append8, append16, append32, append64,
}
use ydsh.Emit.Words.{length-write_n, get_or-write_n, read_n-write_n}
use native.Mathlib.Nat.{mod-eq_of_lt}
use mathlib.Core.Path.{subst}

-- The fewest of 1, 2, 4 and 8 bytes that hold b.
abbrev pub append_size : ℕ → ℕ
append_size b =
    if ltb b 256 then 1 else if ltb b 65536 then 2 else if ltb b 4294967296 then 4 else 8

-- What an append of n bytes promises.
abbrev pub Appended : ℕ → ℕ → Emitter → Emitter → Type 0
Appended n b e e' =
    (length e'.code ≡ length e.code + n)
    × (read_n n e'.code (length e.code) ≡ b)
    × ((j : ℕ) → j < length e.code → get_or e'.code j 0 ≡ get_or e.code j 0)
    × (e'.label_map ≡ e.label_map)

appended :
    (n b : ℕ) (e : Emitter)
    → b < 2 ^ (n * 8)
    → Appended n b e (with_code (write_n n b (length e.code) (e.code ++ replicate n 0)) e)
appended n b e lt =
    let code : List Byte = e.code ++ replicate n 0 in
    let size : length code ≡ length e.code + n =
      length-append e.code (replicate n 0) ∙ ap (λ t. length e.code + t) (length-replicate n 0) in
    (
      length-write_n n b (length e.code) code ∙ size,
      read_n-write_n n b (length e.code) code (omega (arith, size)) ∙ mod-eq_of_lt lt,
      λ j below.
          get_or-write_n n b (length e.code) j code (inl below)
          ∙ get_or-append e.code (replicate n 0) j 0 below,
      refl,
    )

append_cut :
    (n m b : ℕ) (e : Emitter)
    → m ≡ 2 ^ (n * 8)
    → b < m
    → Appended n b e (with_code (write_n n (b % m) (length e.code) (e.code ++ replicate n 0)) e)
append_cut n m b e eq lt = rw (mod-eq_of_lt lt) (appended n b e (subst (λ t. b < t) eq lt))

-- A number is appended in the fewest bytes that hold it and read back; the bytes before stay.
pub append_lem : (b : ℕ) (e : Emitter) → b < 2 ^ 64 → Appended (append_size b) b e (append b e)
unfolding append append8 append16 append32 append64
append_lem b e lt = elim (lt_or_le b 256) [
  | inl a ↦
      let t : leb b 255 ≡ true = ground arith in
      let s : append_size b ≡ 1 = ground arith in rw (t, s) (append_cut 1 (2 ^ 8) b e refl a)
  | inr a ↦ elim (lt_or_le b 65536) [
    | inl c ↦
        let t : leb b 255 ≡ false = ground arith in
        let t' : leb b 65535 ≡ true = ground arith in
        let s : append_size b ≡ 2 = ground arith in rw (t, t', s) (append_cut 2 (2 ^ 16) b e refl c)
    | inr c ↦ elim (lt_or_le b 4294967296) [
      | inl d ↦
          let t : leb b 255 ≡ false = ground arith in
          let t' : leb b 65535 ≡ false = ground arith in
          let t'' : leb b 4294967295 ≡ true = ground arith in
          let s : append_size b ≡ 4 = ground arith in
          rw (t, t', t'', s) (append_cut 4 (2 ^ 32) b e refl d)
      | inr d ↦
          let t : leb b 255 ≡ false = ground arith in
          let t' : leb b 65535 ≡ false = ground arith in
          let t'' : leb b 4294967295 ≡ false = ground arith in
          let s : append_size b ≡ 8 = ground arith in
          rw (t, t', t'', s) (append_cut 8 (2 ^ 64) b e refl lt)
    ]
  ]
]
