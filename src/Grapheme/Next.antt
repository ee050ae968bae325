-- ===== src/Grapheme/Next.antt =====
-- What `next` answers on a text whose last character is whole.
use ydsh.Prelude.{
  Bool, Bool-cases, List, [], ap, arith, false, get_or, if◌then◌else◌, inl, inr, length,
  length-append, lt_or_le, ltb, lt→ltb, refl, suc, sym, true, zero, ℕ, ◌++◌, ◌+◌, ◌-◌, ◌<◌, ◌==◌,
  ◌∙◌, ◌∷◌, ◌≡◌, ◌≢◌, ◌≤◌, ◌⊎◌,
}
use ydsh.Prelude.Int.{ℤ}
use ydsh.Unicode.{Byte, utf8_next_pos}
use ydsh.Grapheme.{
  BreakProperty, sot, Interval, Scanner, ClusterResult, max_grapheme_code_points, keep_code_point,
  begin_with, Step, scan_boundary, scan_property, substr, at_end, after_scan, to_code_point,
  next_loop, next,
}
use mathlib.Core.Path.{subst}

-- The characters from the index on end where the text ends.
pub data WholeFrom (ref : List Byte) : ℕ → Type 0 where
  finished : {i : ℕ} → i ≡ length ref → WholeFrom ref i
  character :
      {i : ℕ} → i < length ref → WholeFrom ref (utf8_next_pos i (get_or ref i 0)) → WholeFrom ref i

pub utf8_next_pos-lt : (i : ℕ) (b : Byte) → i < utf8_next_pos i b
unfolding utf8_next_pos
utf8_next_pos-lt i b = ground arith

pub WholeFrom-le : (ref : List Byte) (i : ℕ) → WholeFrom ref i → i ≤ length ref
WholeFrom-le ref i (finished e) = omega arith
WholeFrom-le ref i (character lt w) = omega arith

-- A scanner between two calls: a cluster is begun, or none is and the text starts or ends here.
pub record Ready (ref : List Byte) (s : Scanner) : Type 0 where
  pub whole : WholeFrom ref s.cur_pos
  pub ordered : s.prev_pos ≤ s.cur_pos
  pub fresh : s.prev_pos ≡ s.cur_pos → (s.boundary ≡ sot) ⊎ (s.cur_pos ≡ length ref)

-- `next` gives the text from `prev_pos` to the new one, which is further, or there is none left.
abbrev pub Post : List Byte → Scanner → Step → Type 0
Post ref s (s', r', true) =
    (s.prev_pos < s'.prev_pos)
    × (r'.text ≡ substr s.prev_pos (s'.prev_pos - s.prev_pos) ref)
    × Ready ref s'
Post ref s (s', r', false) = s.prev_pos ≡ length ref

-- A code point is kept exactly when a cluster is begun.
abbrev Counted : Scanner → ClusterResult → Type 0
Counted s r = ltb 0 (length r.code_points) ≡ ltb s.prev_pos s.cur_pos

scan_boundary-sot : (table : List Interval) (c : ℤ) → (scan_boundary table sot c).1 ≡ false
unfolding scan_boundary scan_property
scan_boundary-sot table c = refl

at_end-Post :
    (ref : List Byte) (s : Scanner) (r : ClusterResult)
    → s.cur_pos ≡ length ref
    → Ready ref s
    → Counted s r
    → Post ref s (at_end ref s r)
at_end-Post ref s r e h c =
    let t : (s.cur_pos == length ref) ≡ true = ground arith in
    elim (Bool-cases (ltb s.prev_pos s.cur_pos)) [
      | inl begun ↦
          rw (t, c, begun)
            (
              ground arith,
              refl,
              record { whole = finished e; ordered = omega arith; fresh = λ same. inr e },
            )
      | inr none_left ↦ rw (t, c, none_left) (ground (arith, h.ordered))
    ]

counted : (i j : ℕ) (cs : List ℤ) (c : ℤ) → i < j → ltb 0 (length (cs ++ c ∷ [])) ≡ ltb i j
counted i j cs c lt = let n = length-append cs (c ∷ []) in ground arith

first_counted :
    (i j : ℕ) (c : ℤ) → i ≤ j → ltb 0 (length {A = ℤ} (if i == j then [] else c ∷ [])) ≡ ltb i j
first_counted i j c le = ground arith

boolean_clash : false ≢ true
boolean_clash e = cc

moved :
    (ref : List Byte) (s s' : Scanner) (answer : Step)
    → s'.prev_pos ≡ s.prev_pos
    → Post ref s' answer
    → Post ref s answer
moved ref s s' (t, r, true) same h =
    (omega (arith, h.0), h.1 ∙ ap (λ i. substr i (t.prev_pos - i) ref) same, h.2)
moved ref s s' (t, r, false) same h = sym same ∙ h

module _ (table : List Interval) (ref : List Byte) where
  after_scan-Post :
      (s : Scanner) (r : ClusterResult) (next_pos : ℕ) (answer : BreakProperty × Bool)
      (again : Scanner → ClusterResult → Step)
      → s.cur_pos < next_pos
      → WholeFrom ref next_pos
      → s.prev_pos ≤ s.cur_pos
      → (answer.1 ≡ true → s.prev_pos < s.cur_pos)
      → ((s' : Scanner) (r' : ClusterResult)
          → s'.cur_pos ≡ next_pos
          → s'.prev_pos ≡ s.prev_pos
          → Ready ref s'
          → Counted s' r'
          → Post ref s (again s' r'))
      → Post ref s (after_scan ref next_pos s r answer again)
  after_scan-Post s r next_pos (state, true) again lt w le begun ih = (
    begun refl,
    refl,
    record { whole = w; ordered = omega arith; fresh = λ same. absurd (omega arith) },
  )
  after_scan-Post s r next_pos (state, false) again lt w le begun ih =
      let s' : Scanner = record s { cur_pos = next_pos; boundary = state } in
      let r' : ClusterResult = keep_code_point r (to_code_point ref s.cur_pos) in
      ih s' r' refl refl
        (record { whole = w; ordered = omega arith; fresh = λ same. absurd (omega arith) })
        (counted s.prev_pos next_pos r.code_points (to_code_point ref s.cur_pos) (omega arith))

  pub next_loop-in :
      (fuel : ℕ) (s : Scanner) (r : ClusterResult)
      → s.cur_pos < length ref
      → next_loop table ref (suc fuel) s r
        ≡ after_scan ref
            (utf8_next_pos s.cur_pos (get_or ref s.cur_pos 0))
            s
            r
            (scan_boundary table s.boundary (to_code_point ref s.cur_pos))
            (next_loop table ref fuel)
  unfolding next_loop
  next_loop-in fuel s r lt = rw (lt→ltb s.cur_pos (length ref) lt) refl

  next_loop-out :
      (fuel : ℕ) (s : Scanner) (r : ClusterResult)
      → length ref ≤ s.cur_pos
      → next_loop table ref fuel s r ≡ at_end ref s r
  unfolding next_loop
  next_loop-out zero s r le = refl
  next_loop-out (suc fuel) s r le =
      let t : ltb s.cur_pos (length ref) ≡ false = ground arith in rw t refl

  begun-lt :
      (s : Scanner) (c : ℤ)
      → Ready ref s
      → s.cur_pos < length ref
      → (scan_boundary table s.boundary c).1 ≡ true
      → s.prev_pos < s.cur_pos
  begun-lt s c h lt answer = elim (lt_or_le s.prev_pos s.cur_pos) [
    | inl less ↦ less
    | inr le ↦ elim (h.fresh (omega (arith, h.ordered))) [
      | inl start ↦ absurd (
          boolean_clash (
            sym (
              subst (λ b. (scan_boundary table b c).1 ≡ false) (sym start)
                (scan_boundary-sot table c))
            ∙ answer))
      | inr done ↦ absurd (omega arith)
    ]
  ]

  next_loop-Post :
      (fuel : ℕ) (s : Scanner) (r : ClusterResult)
      → WholeFrom ref s.cur_pos
      → length ref < s.cur_pos + fuel
      → Ready ref s
      → Counted s r
      → Post ref s (next_loop table ref fuel s r)
  next_loop-Post fuel s r (finished e) lt h c =
      subst (Post ref s) (sym (next_loop-out fuel s r (omega arith))) (at_end-Post ref s r e h c)
  next_loop-Post zero s r (character inside w) lt h c = absurd (omega arith)
  next_loop-Post (suc fuel) s r (character inside w) lt h c =
      let next_pos : ℕ = utf8_next_pos s.cur_pos (get_or ref s.cur_pos 0) in
      let further : s.cur_pos < next_pos = utf8_next_pos-lt s.cur_pos (get_or ref s.cur_pos 0) in
      subst (Post ref s) (sym (next_loop-in fuel s r inside)) (
        after_scan-Post s r next_pos (scan_boundary table s.boundary (to_code_point ref s.cur_pos))
          (next_loop table ref fuel) further w h.ordered
          (begun-lt s (to_code_point ref s.cur_pos) h inside)
          (λ s' r' at_next same h' c'.
            moved ref s s' (next_loop table ref fuel s' r') same
              (next_loop-Post fuel s' r' h'.whole (omega arith) h' c')))

  -- From a scanner between two calls, `next` ends; it gives the text up to a further place, or
  -- there is no text left.
  pub next-Post : (s : Scanner) (r : ClusterResult) → Ready ref s → Post ref s (next table ref s r)
  unfolding next
  next-Post s r h =
      next_loop-Post (suc (length ref)) s
        (begin_with r (if s.prev_pos == s.cur_pos then [] else to_code_point ref s.prev_pos ∷ []))
        h.whole (omega arith) h
        (first_counted s.prev_pos s.cur_pos (to_code_point ref s.prev_pos) h.ordered)

-- A result is written behind the array exactly when it has more code points than the array.
abbrev pub Overruns : ClusterResult → Type 0
Overruns r = r.overrun ≡ ltb max_grapheme_code_points (length r.code_points)

keep-Overruns : (r : ClusterResult) (c : ℤ) → Overruns r → Overruns (keep_code_point r c)
keep-Overruns r c h = let size = length-append r.code_points (c ∷ []) in ground arith

at_end-Overruns :
    (ref : List Byte) (s : Scanner) (r : ClusterResult) → Overruns r → Overruns (at_end ref s r).1
at_end-Overruns ref s r h = elim (Bool-cases (s.cur_pos == length ref)) [
  | inl e ↦ rw e h
  | inr e ↦ rw e h
]

after_scan-Overruns :
    (ref : List Byte) (next_pos : ℕ) (s : Scanner) (r : ClusterResult)
    (answer : BreakProperty × Bool) (again : Scanner → ClusterResult → Step)
    → Overruns r
    → ((s' : Scanner) (r' : ClusterResult) → Overruns r' → Overruns (again s' r').1)
    → Overruns (after_scan ref next_pos s r answer again).1
after_scan-Overruns ref next_pos s r (state, true) again h k = h
after_scan-Overruns ref next_pos s r (state, false) again h k =
    k _ _ (keep-Overruns r (to_code_point ref s.cur_pos) h)

next_loop-Overruns :
    (table : List Interval) (ref : List Byte) (fuel : ℕ) (s : Scanner) (r : ClusterResult)
    → Overruns r
    → Overruns (next_loop table ref fuel s r).1
unfolding next_loop
next_loop-Overruns table ref zero s r h = at_end-Overruns ref s r h
next_loop-Overruns table ref (suc fuel) s r h = elim (Bool-cases (ltb s.cur_pos (length ref))) [
  | inl inside ↦ rw inside (
      after_scan-Overruns ref _ s r _ (next_loop table ref fuel) h
        (λ s' r' h'. next_loop-Overruns table ref fuel s' r' h'))
  | inr out ↦ rw out (at_end-Overruns ref s r h)
]

pub next-Overruns :
    (table : List Interval) (ref : List Byte) (s : Scanner) (r : ClusterResult)
    → Overruns (next table ref s r).1
unfolding next
next-Overruns table ref s r =
    next_loop-Overruns table ref (suc (length ref)) s
      (begin_with r (if s.prev_pos == s.cur_pos then [] else to_code_point ref s.prev_pos ∷ []))
      (elim (Bool-cases (s.prev_pos == s.cur_pos)) [ inl e ↦ rw e refl | inr e ↦ rw e refl ])
