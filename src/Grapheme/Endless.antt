-- ===== src/Grapheme/Endless.antt =====
-- Where the scanner goes wrong: a text that ends within a character, and a cluster of many code
-- points.
use ydsh.Prelude.{
  Bool, List, [], arith, drop, false, get_or, length, length-append, ltb, none, refl, suc, true,
  zero, ℕ, ◌*◌, ◌++◌, ◌+◌, ◌<◌, ◌==◌, ◌∙◌, ◌∷◌, ◌≡◌, ap, leb,
}
use ydsh.Prelude.Int.{pos, ℤ}
use ydsh.Unicode.{Byte, utf8_next_pos, utf8_byte_size, utf8_to_code_point, utf8_validate_char}
use ydsh.Grapheme.{
  BreakProperty, sot, any, extend, Interval, Scanner, ClusterResult, keep_code_point, begin_with,
  Step, scan_boundary, scan_property, to_code_point, next_loop, next, new_scanner, no_cluster,
  count_round, count_loop, string_count, get_break_property,
}
use ydsh.Grapheme.Next.{next_loop-in, next-Overruns}

-- The scanner is behind the end, with a cluster that it does not give.
abbrev pub Stuck : List Byte → Scanner → Type 0
Stuck ref s = (s.prev_pos < length ref) × (length ref < s.cur_pos)

next-Stuck :
    (table : List Interval) (ref : List Byte) (s : Scanner) (r : ClusterResult)
    → Stuck ref s
    → next table ref s r ≡ (s, begin_with r (to_code_point ref s.prev_pos ∷ []), true)
unfolding next next_loop
next-Stuck table ref s r h =
    let out : ltb s.cur_pos (length ref) ≡ false = ground arith in
    let other : (s.cur_pos == length ref) ≡ false = ground arith in
    let begun : (s.prev_pos == s.cur_pos) ≡ false = ground arith in rw (out, other, begun) refl

count_loop-Stuck :
    (table : List Interval) (ref : List Byte) (fuel n : ℕ) (s : Scanner) (r : ClusterResult)
    → Stuck ref s
    → count_loop table ref fuel n s r ≡ none
unfolding count_loop
count_loop-Stuck table ref zero n s r h = refl
count_loop-Stuck table ref (suc fuel) n s r h =
    ap (λ x. count_round n x (λ m s' r'. count_loop table ref fuel m s' r'))
      (next-Stuck table ref s r h)
    ∙ count_loop-Stuck table ref fuel (n + 1) s _ h

abbrev behind : List Interval → Byte → Scanner
behind table b = record {
  prev_pos = 0;
  cur_pos = utf8_next_pos 0 b;
  boundary = (scan_boundary table sot (to_code_point (b ∷ []) 0)).0;
}

next-broken :
    (table : List Interval) (b : Byte) (r : ClusterResult)
    → 1 < utf8_next_pos 0 b
    → next table (b ∷ []) new_scanner r
      ≡ (behind table b, keep_code_point (begin_with r []) (to_code_point (b ∷ []) 0), true)
unfolding next next_loop scan_boundary scan_property
next-broken table b r h =
    let out : ltb (utf8_next_pos 0 b) 1 ≡ false = ground arith in
    let other : (utf8_next_pos 0 b == 1) ≡ false = ground arith in rw (out, other) refl

-- On the first byte of a longer character, alone, counting the characters does not end.
pub string_count-none :
    (table : List Interval) (b : Byte) (fuel : ℕ)
    → 1 < utf8_byte_size b
    → string_count table fuel (b ∷ []) ≡ none
unfolding string_count count_loop
string_count-none table b zero h = refl
string_count-none table b (suc fuel) h =
    let far : 1 < utf8_next_pos 0 b = unfold utf8_next_pos in ground arith in
    ap (λ x. count_round 0 x (λ m s' r'. count_loop table (b ∷ []) fuel m s' r'))
      (next-broken table b no_cluster far)
    ∙ count_loop-Stuck table (b ∷ []) fuel 1 (behind table b) _ (omega arith)

-- U+0300, a mark that extends the character before it, n times.
abbrev pub marks : ℕ → List Byte
marks zero = []
marks (suc n) = 204 ∷ 128 ∷ marks n

-- The letter a with marks.
abbrev pub marked : ℕ → List Byte
marked n = 97 ∷ marks n

length-marks : (n : ℕ) → length (marks n) ≡ 2 * n
length-marks zero = refl
length-marks (suc n) = omega (arith, length-marks n)

drop-marks : (k n m : ℕ) → k + n ≡ m → drop (2 * k) (marks m) ≡ marks n
drop-marks zero n m e = let same : m ≡ n = omega arith in ap marks same
drop-marks (suc k) n zero e = absurd (omega arith)
drop-marks (suc k) n (suc m) e =
    let two_more : 2 * suc k ≡ suc (suc (2 * k)) = omega arith in
    ap (λ j. drop j (marks (suc m))) two_more ∙ drop-marks k n m (omega arith)

get_or-drop : (xs : List Byte) (i : ℕ) → get_or xs i 0 ≡ get_or (drop i xs) 0 0
get_or-drop [] zero = refl
get_or-drop [] (suc i) = refl
get_or-drop (x ∷ xs) zero = refl
get_or-drop (x ∷ xs) (suc i) = get_or-drop xs i

-- What stands at the place of a mark.
byte_at_mark : (k n m : ℕ) → k + suc n ≡ m → get_or (marked m) (suc (2 * k)) 0 ≡ 204
byte_at_mark k n m e =
    get_or-drop (marks m) (2 * k) ∙ ap (λ xs. get_or xs 0 0) (drop-marks k (suc n) m e)

code_point_at_mark : (k n m : ℕ) → k + suc n ≡ m → to_code_point (marked m) (suc (2 * k)) ≡ pos 768
unfolding to_code_point utf8_to_code_point utf8_validate_char
code_point_at_mark k n m e = let rest = drop-marks k (suc n) m e in rw rest refl

one_more : (cs : List ℤ) (n : ℕ) → length (cs ++ pos 768 ∷ []) + n ≡ length cs + suc n
one_more cs n = omega (arith, length-append cs (pos 768 ∷ []))

module _ (table : List Interval) (mark : get_break_property table (pos 768) ≡ extend) where
  scan_mark :
      (state : BreakProperty)
      → scan_property state extend ≡ (extend, false)
      → scan_boundary table state (pos 768) ≡ (extend, false)
  unfolding scan_boundary
  scan_mark state h = ap (scan_property state) mark ∙ h

  mark_round :
      (fuel k n m : ℕ) (s : Scanner) (r : ClusterResult)
      → k + suc n ≡ m
      → s.cur_pos ≡ suc (2 * k)
      → scan_property s.boundary extend ≡ (extend, false)
      → next_loop table (marked m) (suc fuel) s r
        ≡ next_loop table
            (marked m)
            fuel
            (record s { cur_pos = suc (2 * suc k); boundary = extend })
            (keep_code_point r (pos 768))
  mark_round fuel k n m s r e at_mark h =
      let inside : s.cur_pos < length (marked m) = omega (arith, length-marks m) in
      let byte : get_or (marked m) s.cur_pos 0 ≡ 204 =
        ap (λ i. get_or (marked m) i 0) at_mark ∙ byte_at_mark k n m e in
      let point : to_code_point (marked m) s.cur_pos ≡ pos 768 =
        ap (to_code_point (marked m)) at_mark ∙ code_point_at_mark k n m e in
      let next_pos : utf8_next_pos s.cur_pos 204 ≡ suc (2 * suc k) =
        unfold utf8_next_pos utf8_byte_size in ground arith in
      next_loop-in table (marked m) fuel s r inside
      ∙ rw (byte, next_pos, point, scan_mark s.boundary h)
          (ap
            (λ c.
              next_loop table (marked m) fuel
                (record s { cur_pos = suc (2 * suc k); boundary = extend }) (keep_code_point r c))
            point)

  marks_loop :
      (fuel k n m : ℕ) (s : Scanner) (r : ClusterResult)
      → n < fuel
      → k + n ≡ m
      → s.cur_pos ≡ suc (2 * k)
      → scan_property s.boundary extend ≡ (extend, false)
      → length (next_loop table (marked m) fuel s r).1.code_points ≡ length r.code_points + n
  marks_loop zero k n m s r lt e at_mark h = absurd (omega arith)
  marks_loop (suc fuel) k zero m s r lt e at_mark h =
      let out : ltb s.cur_pos (length (marked m)) ≡ false =
        let size = length-marks m in ground arith in
      let last : (s.cur_pos == length (marked m)) ≡ true =
        let size = length-marks m in ground arith in
      unfold next_loop in rw (out, last) (omega arith)
  marks_loop (suc fuel) k (suc n) m s r lt e at_mark h =
      ap (λ (x : Step). length x.1.code_points) (mark_round fuel k n m s r e at_mark h)
      ∙ marks_loop fuel (suc k) n m (record s { cur_pos = suc (2 * suc k); boundary = extend })
          (keep_code_point r (pos 768)) (omega arith) (omega arith) refl
          (unfold scan_property in refl)
      ∙ one_more r.code_points n

letter_round :
    (table : List Interval) (n : ℕ)
    → get_break_property table (pos 97) ≡ any
    → next_loop table (marked n) (suc (length (marked n))) new_scanner (no_cluster)
      ≡ next_loop table
          (marked n)
          (length (marked n))
          (record { prev_pos = 0; cur_pos = 1; boundary = any })
          (keep_code_point no_cluster (pos 97))
unfolding next_loop scan_boundary scan_property to_code_point utf8_to_code_point utf8_validate_char
letter_round table n letter =
    let inside : ltb 0 (length (marked n)) ≡ true = ground arith in
    let next_pos : utf8_next_pos 0 97 ≡ 1 = unfold utf8_next_pos utf8_byte_size in refl in
    rw (inside, next_pos, letter) refl

count-marked :
    (table : List Interval) (n : ℕ)
    → get_break_property table (pos 97) ≡ any
    → get_break_property table (pos 768) ≡ extend
    → length (next table (marked n) new_scanner no_cluster).1.code_points ≡ suc n
unfolding next
count-marked table n letter mark =
    let first : BreakProperty × Bool = scan_boundary table sot (pos 97) in
    ap (λ (x : Step). length x.1.code_points) (letter_round table n letter)
    ∙ marks_loop table mark (length (marked n)) 0 n n
        (record { prev_pos = 0; cur_pos = 1; boundary = any }) (keep_code_point no_cluster (pos 97))
        (omega (arith, length-marks n)) (omega arith) refl (unfold scan_property in refl)
    ∙ omega arith

-- A letter with n marks is one cluster of n + 1 code points, and the array of the result is overrun
-- if n is 32 or more.
pub next-marked :
    (table : List Interval) (n : ℕ)
    → get_break_property table (pos 97) ≡ any
    → get_break_property table (pos 768) ≡ extend
    → (length (next table (marked n) new_scanner no_cluster).1.code_points ≡ suc n)
      × ((next table (marked n) new_scanner no_cluster).1.overrun ≡ leb 32 n)
next-marked table n letter mark =
    let count = count-marked table n letter mark in
    let over = next-Overruns table (marked n) new_scanner no_cluster in (count, ground arith)
