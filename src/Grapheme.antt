-- ===== src/Grapheme.antt =====
-- Grapheme clusters: src/misc/grapheme.hpp. The generated table of properties is a parameter. Code
-- points are integers, since a broken byte stands for itself as a signed `char`.
use ydsh.Prelude.{
  Bool, Option, [], drop, false, get_or, if◌then◌else◌, leb, length, ltb, none, not, some, suc,
  take, true, zero, ℕ, ◌&&◌, ◌++◌, ◌+◌, ◌-◌, ◌==◌, ◌||◌, ◌∷◌, List,
}
use ydsh.Prelude.Int.{eqb_ℤ, ltb_ℤ, negsuc, pos, ℤ}
use ydsh.Unicode.{Byte, utf8_next_pos, utf8_to_code_point}
mod Rules
mod Table
mod Next
mod Chars
mod Endless
mod Tests

pub data BreakProperty : Type 0 where
  sot : BreakProperty
  any : BreakProperty
  cr : BreakProperty
  lf : BreakProperty
  control : BreakProperty
  extend : BreakProperty
  zwj : BreakProperty
  regional_indicator : BreakProperty
  prepend : BreakProperty
  spacing_mark : BreakProperty
  hangul_l : BreakProperty
  hangul_v : BreakProperty
  hangul_t : BreakProperty
  hangul_lv : BreakProperty
  hangul_lvt : BreakProperty
  pictographic : BreakProperty
  pictographic_zwj : BreakProperty

-- The value of the enumeration.
abbrev pub number : BreakProperty → ℕ
number sot = 0
number any = 1
number cr = 2
number lf = 3
number control = 4
number extend = 5
number zwj = 6
number regional_indicator = 7
number prepend = 8
number spacing_mark = 9
number hangul_l = 10
number hangul_v = 11
number hangul_t = 12
number hangul_lv = 13
number hangul_lvt = 14
number pictographic = 15
number pictographic_zwj = 16

infix 50 ◌is◌
abbrev pub ◌is◌ : BreakProperty → BreakProperty → Bool
a is b = number a == number b

abbrev pub is_control : BreakProperty → Bool
is_control a = a is control || a is cr || a is lf

-- A state that follows and whether there is a boundary. Each switch of `scanBoundary` answers, or
-- leaves the question to the next one.
abbrev pub Answer : Type 0
Answer = Option (BreakProperty × Bool)

abbrev pub or_else : Answer → BreakProperty × Bool → BreakProperty × Bool
or_else none next = next
or_else (some r) next = r

abbrev pub when : Bool → BreakProperty × Bool → Answer
when true r = some r
when false r = none

-- The start of the text, and the switch for GB3 to GB5.
pub control_rules : BreakProperty → BreakProperty → Answer
control_rules sot after = some (after, false)
control_rules cr after = some (after, not (after is lf))
control_rules lf after = some (after, true)
control_rules control after = some (after, true)
control_rules _ after = when (is_control after) (after, true)

-- GB6 to GB8.
pub hangul_rules : BreakProperty → BreakProperty → Answer
hangul_rules hangul_l after =
    when (after is hangul_l || after is hangul_v || after is hangul_lv || after is hangul_lvt)
      (after, false)
hangul_rules hangul_lv after = when (after is hangul_v || after is hangul_t) (after, false)
hangul_rules hangul_v after = when (after is hangul_v || after is hangul_t) (after, false)
hangul_rules hangul_lvt after = when (after is hangul_t) (after, false)
hangul_rules hangul_t after = when (after is hangul_t) (after, false)
hangul_rules _ after = none

-- GB9 and GB9a.
pub extend_rules : BreakProperty → BreakProperty → Answer
extend_rules before extend = when (not (before is pictographic)) (extend, false)
extend_rules before zwj = when (not (before is pictographic)) (zwj, false)
extend_rules before spacing_mark = some (spacing_mark, false)
extend_rules before _ = none

abbrev pub after_pictographic : BreakProperty → Answer
after_pictographic extend = some (pictographic, false)
after_pictographic zwj = some (pictographic_zwj, false)
after_pictographic _ = none

-- GB9b and GB11 to GB13.
pub before_rules : BreakProperty → BreakProperty → Answer
before_rules prepend after = some (after, false)
before_rules regional_indicator after = when (after is regional_indicator) (any, false)
before_rules pictographic after = after_pictographic after
before_rules pictographic_zwj after = when (after is pictographic) (after, false)
before_rules _ after = none

pub scan_property : BreakProperty → BreakProperty → BreakProperty × Bool
unfolding control_rules hangul_rules extend_rules before_rules
scan_property before after = or_else (control_rules before after) (
    or_else (hangul_rules before after)
      (or_else (extend_rules before after) (or_else (before_rules before after) (after, true))))

pub record Interval : Type 0 where
  pub first : ℤ
  pub last : ℤ
  pub property : BreakProperty

-- `std::first_interval` by `Comp`, on intervals in order: the rest of the table from the first interval
-- that does not end before the code point.
pub first_interval : ℤ → List Interval → List Interval
first_interval c [] = []
first_interval c (t ∷ ts) =
    let rest = first_interval c ts in if ltb_ℤ t.last c then rest else t ∷ ts

abbrev pub property_at : ℤ → List Interval → BreakProperty
property_at c [] = any
property_at c (t ∷ ts) = if not (ltb_ℤ c t.first) && not (ltb_ℤ t.last c) then t.property else any

pub get_break_property : List Interval → ℤ → BreakProperty
unfolding first_interval
get_break_property table c = property_at c (first_interval c table)

pub scan_boundary : List Interval → BreakProperty → ℤ → BreakProperty × Bool
unfolding get_break_property scan_property
scan_boundary table state c = scan_property state (get_break_property table c)

pub record Scanner : Type 0 where
  pub prev_pos : ℕ
  pub cur_pos : ℕ
  pub boundary : BreakProperty

abbrev pub new_scanner : Scanner
new_scanner = record { prev_pos = 0; cur_pos = 0; boundary = sot }

pub has_next : List Byte → Scanner → Bool
has_next ref s = leb s.prev_pos s.cur_pos && ltb s.prev_pos (length ref)

-- `MAX_GRAPHEME_CODE_POINTS`, the size of the array of code points.
abbrev pub max_grapheme_code_points : ℕ
max_grapheme_code_points = 32

-- The code points of a result are counted by their list, and `overrun` says whether one of them was
-- written behind the end of the array. What such a write does is not defined, so that a result says
-- something of the program only while `overrun` is false.
pub record ClusterResult : Type 0 where
  pub text : List Byte
  pub code_points : List ℤ
  pub overrun : Bool

-- `result.codePoints[result.codePointCount++] = codePoint`. The assertion on the count is left out, as
-- a release build does.
abbrev pub keep_code_point : ClusterResult → ℤ → ClusterResult
keep_code_point r c = record r {
  code_points = r.code_points ++ c ∷ [];
  overrun = r.overrun || leb max_grapheme_code_points (length r.code_points);
}

-- The result that `next` begins with: no code point, or the one that was read by the last call.
abbrev pub begin_with : ClusterResult → List ℤ → ClusterResult
begin_with r cs = record r { code_points = cs; overrun = false }

-- A byte as a signed `char`.
abbrev pub signed_char : Byte → ℤ
signed_char b = if ltb b 128 then pos b else negsuc (255 - b)

abbrev pub or_broken : ℤ → Byte → ℤ
or_broken (pos c) b = pos c
or_broken (negsuc c) b = signed_char b

pub to_code_point : List Byte → ℕ → ℤ
to_code_point ref i = or_broken (utf8_to_code_point (drop i ref)).1 (get_or ref i 0)

-- `StringRef::substr`.
abbrev pub substr : ℕ → ℕ → List Byte → List Byte
substr i n ref = take n (drop i ref)

-- The end of `next` behind its loop.
abbrev pub at_end : List Byte → Scanner → ClusterResult → Scanner × ClusterResult × Bool
at_end ref s r =
    let some_read : Bool = ltb 0 (length r.code_points) in
    if s.cur_pos == length ref
    then (
      record s { prev_pos = s.cur_pos },
      record r { text = substr s.prev_pos (s.cur_pos - s.prev_pos) ref },
      some_read,
    )
    else (s, r, some_read)

-- A round of the loop that reads the character at `cur_pos`, after `scanBoundary` answered.
abbrev pub after_scan :
    List Byte
    → ℕ
    → Scanner
    → ClusterResult
    → BreakProperty × Bool
    → (Scanner → ClusterResult → Scanner × ClusterResult × Bool)
    → Scanner × ClusterResult × Bool
after_scan ref next_pos s r (state, true) next = (
  record s { prev_pos = s.cur_pos; cur_pos = next_pos; boundary = state },
  record r { text = substr s.prev_pos (s.cur_pos - s.prev_pos) ref },
  true,
)
after_scan ref next_pos s r (state, false) next =
    next (record s { cur_pos = next_pos; boundary = state })
      (keep_code_point r (to_code_point ref s.cur_pos))

-- The loop of `next`; `startPos` is `prevPos`, which it does not change before it returns.
pub next_loop :
    List Interval → List Byte → ℕ → Scanner → ClusterResult → Scanner × ClusterResult × Bool
unfolding to_code_point scan_boundary
next_loop table ref zero s r = at_end ref s r
next_loop table ref (suc fuel) s r =
    let again =
      after_scan ref (utf8_next_pos s.cur_pos (get_or ref s.cur_pos 0)) s r
        (scan_boundary table s.boundary (to_code_point ref s.cur_pos)) (next_loop table ref fuel) in
    if ltb s.cur_pos (length ref) then again else at_end ref s r

-- `next`: the scanner, the result and whether there is one. The result's text stays as it was when
-- no branch sets it.
pub next : List Interval → List Byte → Scanner → ClusterResult → Scanner × ClusterResult × Bool
unfolding next_loop to_code_point
next table ref s r =
    next_loop table ref (suc (length ref)) s
      (begin_with r (if s.prev_pos == s.cur_pos then [] else to_code_point ref s.prev_pos ∷ []))

-- The loops of src/builtin.h over `next`, on fuel: `none` is a loop that did not end.
abbrev pub Step : Type 0
Step = Scanner × ClusterResult × Bool

-- `string_count`.
abbrev pub count_round : ℕ → Step → (ℕ → Scanner → ClusterResult → Option ℕ) → Option ℕ
count_round count (s, r, true) again = again (count + 1) s r
count_round count (s, r, false) again = some count

pub count_loop : List Interval → List Byte → ℕ → ℕ → Scanner → ClusterResult → Option ℕ
unfolding next
count_loop table ref zero count s r = none
count_loop table ref (suc fuel) count s r =
    count_round count (next table ref s r) (λ n s' r'. count_loop table ref fuel n s' r')

abbrev pub no_cluster : ClusterResult
no_cluster = record { text = []; code_points = []; overrun = false }

pub string_count : List Interval → ℕ → List Byte → Option ℕ
unfolding count_loop
string_count table fuel ref = count_loop table ref fuel 0 new_scanner no_cluster

-- `string_chars`.
abbrev pub chars_round :
    List (List Byte)
    → Step
    → (List (List Byte) → Scanner → ClusterResult → Option (List (List Byte)))
    → Option (List (List Byte))
chars_round acc (s, r, true) again = again (acc ++ r.text ∷ []) s r
chars_round acc (s, r, false) again = some acc

pub chars_loop :
    List Interval
    → List Byte
    → ℕ
    → List (List Byte)
    → Scanner
    → ClusterResult
    → Option (List (List Byte))
unfolding next
chars_loop table ref zero acc s r = none
chars_loop table ref (suc fuel) acc s r =
    chars_round acc (next table ref s r) (λ cs s' r'. chars_loop table ref fuel cs s' r')

pub string_chars : List Interval → ℕ → List Byte → Option (List (List Byte))
unfolding chars_loop
string_chars table fuel ref = chars_loop table ref fuel [] new_scanner no_cluster

-- `string_charAt`: the character, or the count of an out of range error.
pub data CharAt : Type 0 where
  found : List Byte → CharAt
  out_of_range : ℕ → CharAt

abbrev pub char_at_round :
    ℤ → ℕ → Step → (ℕ → Scanner → ClusterResult → Option CharAt) → Option CharAt
char_at_round i count (s, r, true) again =
    if eqb_ℤ (pos count) i then some (found r.text) else again (count + 1) s r
char_at_round i count (s, r, false) again = some (out_of_range count)

pub char_at_loop : List Interval → List Byte → ℤ → ℕ → ℕ → Scanner → ClusterResult → Option CharAt
unfolding next
char_at_loop table ref i zero count s r = none
char_at_loop table ref i (suc fuel) count s r =
    char_at_round i count (next table ref s r) (λ n s' r'. char_at_loop table ref i fuel n s' r')

pub string_char_at : List Interval → ℕ → List Byte → ℤ → Option CharAt
unfolding char_at_loop
string_char_at table fuel ref i = char_at_loop table ref i fuel 0 new_scanner no_cluster
