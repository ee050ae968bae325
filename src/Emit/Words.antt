-- ===== src/Emit/Words.antt =====
-- Words of n bytes in a code buffer: what is written is read, and nothing else changes.
use ydsh.Prelude.{
  List, arith, get_or, get_or-set_ne, get_or-set_self, inl, length, length-set, refl, set, suc, sym,
  zero, ℕ, ◌%◌, ◌*◌, ◌+◌, ◌/◌, ◌<◌, ◌^◌, ◌∙◌, ◌≡◌, ◌≢◌, ◌≤◌, ◌⊎◌, ap,
}
use native.Mathlib.Nat.{mul_comm, div-div-eq-div-mul, mod-add-div, mod-add-div', one-le-pow}
use native.Mathlib.Numerals.{towards_suc}
use ydsh.Emit.{Byte, byte_at, read_loop, read_n, write_n}

-- The digits of b in base m, the lowest 256 * m of it.
split_mod : (b m : ℕ) → 0 < m → b % (256 * m) ≡ b / m % 256 * m + b % m
split_mod b m h =
    let q : ℕ = b / m in
    let top : b / (256 * m) ≡ q / 256 =
      ap (λ t. b / t) (mul_comm 256 m) ∙ sym (div-div-eq-div-mul b m 256) in
    let whole : b % (256 * m) + 256 * m * (q / 256) ≡ b =
      ap (λ t. b % (256 * m) + 256 * m * t) (sym top) ∙ mod-add-div b (256 * m) in
    let part : b % m + q * m ≡ b = mod-add-div' b m in
    let high : (q % 256 + q / 256 * 256) * m ≡ q * m = ap (λ t. t * m) (mod-add-div' q 256) in
    grind arith

pow_step : (n : ℕ) → 2 ^ (suc n * 8) ≡ 256 * 2 ^ (n * 8)
pow_step n = let e : suc n * 8 ≡ n * 8 + 8 = omega arith in rw e (simp towards_suc (omega arith))

word_step : (n b v : ℕ) → v + byte_at n b * 2 ^ (n * 8) + b % 2 ^ (n * 8) ≡ v + b % 2 ^ (suc n * 8)
word_step n b v =
    let split = split_mod b (2 ^ (n * 8)) (one-le-pow (n * 8) 2 (omega arith)) in
    rw (pow_step n) (omega (arith, split))

pub write_n-suc :
    (i b index : ℕ) (code : List Byte)
    → write_n (suc i) b index code ≡ write_n i b (suc index) (set code index (byte_at i b))
unfolding write_n
write_n-suc i b index code = refl

read_loop-suc :
    (i : ℕ) (code : List Byte) (index v : ℕ)
    → read_loop (suc i) code index v
      ≡ read_loop i code (suc index) (v + get_or code index 0 * 2 ^ (i * 8))
unfolding read_loop
read_loop-suc i code index v = refl

pub length-write_n :
    (n b index : ℕ) (code : List Byte) → length (write_n n b index code) ≡ length code
unfolding write_n
length-write_n zero b index code = refl
length-write_n (suc n) b index code =
    length-write_n n b (suc index) (set code index (byte_at n b))
    ∙ length-set code index (byte_at n b)

-- Outside the word.
abbrev pub Beside : ℕ → ℕ → ℕ → Type 0
Beside n index j = (j < index) ⊎ (index + n ≤ j)

pub get_or-write_n :
    (n b index j : ℕ) (code : List Byte)
    → Beside n index j
    → get_or (write_n n b index code) j 0 ≡ get_or code j 0
unfolding write_n
get_or-write_n zero b index j code h = refl
get_or-write_n (suc n) b index j code h =
    let next : Beside n (suc index) j = omega arith in
    let ne : j ≢ index = omega arith in
    get_or-write_n n b (suc index) j (set code index (byte_at n b)) next
    ∙ get_or-set_ne code index j (byte_at n b) 0 ne

read_loop-write_n :
    (n b index v : ℕ) (code : List Byte)
    → index + n ≤ length code
    → read_loop n (write_n n b index code) index v ≡ v + b % 2 ^ (n * 8)
read_loop-write_n zero b index v code h = unfold read_loop in omega arith
read_loop-write_n (suc n) b index v code h =
    let code' : List Byte = set code index (byte_at n b) in
    let room : suc index + n ≤ length code' =
      rw (length-set code index (byte_at n b)) (omega arith) in
    let at_index : get_or (write_n n b (suc index) code') index 0 ≡ byte_at n b =
      get_or-write_n n b (suc index) index code' (inl (omega arith))
      ∙ get_or-set_self code index (byte_at n b) 0 (omega arith) in
    rw (write_n-suc n b index code) (
      read_loop-suc n (write_n n b (suc index) code') index v
      ∙ rw at_index (
          read_loop-write_n n b (suc index) (v + byte_at n b * 2 ^ (n * 8)) code' room
          ∙ word_step n b v))

-- A word of n bytes that lies in the buffer is read as the low bytes of what was written.
pub read_n-write_n :
    (n b index : ℕ) (code : List Byte)
    → index + n ≤ length code
    → read_n n (write_n n b index code) index ≡ b % 2 ^ (n * 8)
unfolding read_n
read_n-write_n n b index code h = read_loop-write_n n b index 0 code h ∙ omega arith

-- Two words that do not overlap are read each for itself.
read_loop-same :
    (n index v : ℕ) (c d : List Byte)
    → ((j : ℕ) → index ≤ j → j < index + n → get_or c j 0 ≡ get_or d j 0)
    → read_loop n c index v ≡ read_loop n d index v
unfolding read_loop
read_loop-same zero index v c d h = refl
read_loop-same (suc n) index v c d h =
    ap (λ x. read_loop n c (suc index) (v + x * 2 ^ (n * 8))) (h index (omega arith) (omega arith))
    ∙ read_loop-same n (suc index) (v + get_or d index 0 * 2 ^ (n * 8)) c d
        (λ j le lt. h j (omega arith) (omega arith))

pub read_n-same :
    (n index : ℕ) (c d : List Byte)
    → ((j : ℕ) → index ≤ j → j < index + n → get_or c j 0 ≡ get_or d j 0)
    → read_n n c index ≡ read_n n d index
unfolding read_n
read_n-same n index c d h = read_loop-same n index 0 c d h

pub read_n-write_n_apart :
    (n m b index j : ℕ) (code : List Byte)
    → (index + n ≤ j) ⊎ (j + m ≤ index)
    → read_n m (write_n n b index code) j ≡ read_n m code j
read_n-write_n_apart n m b index j code h =
    read_n-same m j (write_n n b index code) code
      (λ i le lt. get_or-write_n n b index i code (omega arith))
