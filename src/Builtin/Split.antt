-- ===== src/Builtin/Split.antt =====
-- `split` and `replace` against joining.
use ydsh.Prelude.{
  All, List, Option, Option-cases, [], ap, append-nil, append_assoc, arith, drop, drop-drop, false,
  inl, inr, length, length-drop, ltb, none, refl, some, some_inj, suc, sym, take, zero, ℕ, ◌++◌,
  ◌+◌, ◌-◌, ◌<◌, ◌==◌, ◌∙◌, ◌∷◌, ◌≡◌, ◌≤◌, length-append,
}
use ydsh.Builtin.{
  Byte, Text, plus, memmem, find, slice_until, split_round, split_loop, string_split, Replaced,
  text, append_as_str, replace_round, replace_loop, string_replace, max_size,
}
use ydsh.Builtin.Find.{Occurs, NotFound, memmem-Occurs}
use mathlib.Core.Path.{subst}

-- Texts with another between them.
abbrev pub join_more : Text → List Text → Text
join_more ds [] = []
join_more ds (x ∷ xs) = ds ++ (x ++ join_more ds xs)

abbrev pub join : Text → List Text → Text
join ds [] = []
join ds (x ∷ xs) = x ++ join_more ds xs

-- Parts of a text that is cut at each occurrence of `ds`.
pub record Cut (ds xs : Text) (first : Text) (parts : List Text) : Type 0 where
  pub joined : xs ≡ first ++ join_more ds parts
  pub clean : NotFound ds first × All (NotFound ds) parts

find-inside :
    (xs : Text) (d : Byte) (ds : Text) (i : ℕ)
    → i ≤ length xs
    → find xs (d ∷ ds) i ≡ plus i (memmem (drop i xs) (d ∷ ds))
unfolding find
find-inside xs d ds i h =
    let t : ltb (length xs) i ≡ false = ground arith in
    let z : (length {A = Byte} (d ∷ ds) == 0) ≡ false = ground arith in rw (t, z) refl

take-plus : (i k : ℕ) (xs : Text) → take (i + k - i) (drop i xs) ≡ take k (drop i xs)
take-plus i k xs = let e : i + k - i ≡ k = omega arith in ap (λ n. take n (drop i xs)) e

split_loop-step :
    (fuel : ℕ) (xs ds : Text) (i : ℕ) (acc : List Text) (o : Option ℕ)
    → find xs ds i ≡ o
    → split_loop (suc fuel) xs ds i acc
      ≡ split_round
          (acc ++ slice_until xs i o ∷ [])
          o
          (length ds)
          (λ k. split_loop fuel xs ds k (acc ++ slice_until xs i o ∷ []))
unfolding split_loop
split_loop-step fuel xs ds i acc o e =
    ap
      (λ r.
        split_round (acc ++ slice_until xs i r ∷ []) r (length ds)
          (λ k. split_loop fuel xs ds k (acc ++ slice_until xs i r ∷ [])))
      e

replace_loop-step :
    (fuel : ℕ) (xs ds rep : Text) (i : ℕ) (buf : Text) (o : Option ℕ)
    → find xs ds i ≡ o
    → replace_loop (suc fuel) xs ds rep i buf
      ≡ append_as_str buf
          (slice_until xs i o)
          (λ b. replace_round rep b o (length ds) (λ k b'. replace_loop fuel xs ds rep k b'))
unfolding replace_loop
replace_loop-step fuel xs ds rep i buf o e =
    ap
      (λ r.
        append_as_str buf (slice_until xs i r)
          (λ b. replace_round rep b r (length ds) (λ k b'. replace_loop fuel xs ds rep k b')))
      e

append-fits :
    (buf value : Text) (next : Text → Option Replaced)
    → length buf + length value ≤ max_size
    → append_as_str buf value next ≡ next (buf ++ value)
append-fits buf value next h =
    let t : ltb max_size (length buf + length value) ≡ false = ground arith in rw t refl

-- One round of `replace` whose parts fit.
replace-round :
    (xs ds rep : Text) (fuel i j : ℕ) (here buf rest : Text)
    → find xs ds i ≡ some j
    → slice_until xs i (some j) ≡ here
    → length (buf ++ (here ++ (rep ++ rest))) ≤ max_size
    → replace_loop (suc fuel) xs ds rep i buf
      ≡ replace_loop fuel xs ds rep (j + length ds) ((buf ++ here) ++ rep)
replace-round xs ds rep fuel i j here buf rest e here_at fits =
    let outer = length-append buf (here ++ (rep ++ rest)) in
    let inner = length-append here (rep ++ rest) in
    let last = length-append rep rest in
    let next = λ (b : Text).
      replace_round rep b (some j) (length ds) (λ k b'. replace_loop fuel xs ds rep k b') in
    replace_loop-step fuel xs ds rep i buf (some j) e
    ∙ ap (λ t. append_as_str buf t next) here_at
    ∙ append-fits buf here next (omega (arith, fits, outer, inner, last))
    ∙ append-fits (buf ++ here) rep (λ b. replace_loop fuel xs ds rep (j + length ds) b)
        (omega (arith, fits, outer, inner, last, length-append buf here))

regroup : (a b c d : Text) → ((a ++ b) ++ c) ++ d ≡ a ++ (b ++ (c ++ d))
regroup a b c d = append_assoc (a ++ b) c d ∙ append_assoc a b (c ++ d)

-- What both loops do from a position on.
abbrev Loops : Text → Text → ℕ → ℕ → Type 0
Loops xs ds fuel i =
    (first : Text) × (parts : List Text) × Cut ds (drop i xs) first parts
    × ((acc : List Text) → split_loop fuel xs ds i acc ≡ some (acc ++ first ∷ parts))
    × ((rep buf : Text)
        → length (buf ++ (first ++ join_more rep parts)) ≤ max_size
        → replace_loop fuel xs ds rep i buf ≡ some (text (buf ++ (first ++ join_more rep parts))))

last_part :
    (xs : Text) (d : Byte) (ds : Text) (fuel i : ℕ)
    → find xs (d ∷ ds) i ≡ none
    → memmem (drop i xs) (d ∷ ds) ≡ none
    → Loops xs (d ∷ ds) (suc fuel) i
last_part xs d ds fuel i e h = (
  drop i xs,
  [],
  record { joined = sym (append-nil (drop i xs)); clean = (h, tt) },
  λ acc. split_loop-step fuel xs (d ∷ ds) i acc none e,
  λ rep buf fits.
      replace_loop-step fuel xs (d ∷ ds) rep i buf none e
      ∙ append-fits buf (drop i xs) (λ b. some (text b))
          (omega (arith, length-append buf (drop i xs ++ []), length-append (drop i xs) ([])))
      ∙ ap (λ t. some (text (buf ++ t))) (sym (append-nil (drop i xs))),
)

sum_assoc : (i k n : ℕ) → i + (k + n) ≡ i + k + n
sum_assoc i k n = omega arith

next_part :
    (xs : Text) (d : Byte) (ds : Text) (fuel i k : ℕ)
    → find xs (d ∷ ds) i ≡ some (i + k)
    → Occurs (drop i xs) (d ∷ ds) k
    → Loops xs (d ∷ ds) fuel (i + k + length (d ∷ ds))
    → Loops xs (d ∷ ds) (suc fuel) i
next_part xs d ds fuel i k e o (first, parts, cut, splits, replaces) =
    let here : Text = take k (drop i xs) in
    let here_at : slice_until xs i (some (i + k)) ≡ here = take-plus i k xs in
    (
      here,
      first ∷ parts,
      record {
        joined =
            o.splits
            ∙ ap (λ t. here ++ ((d ∷ ds) ++ t))
                (drop-drop i (k + length (d ∷ ds)) xs
                  ∙ ap (λ n. drop n xs) (sum_assoc i k (length (d ∷ ds)))
                  ∙ cut.joined);
        clean = (o.first, cut.clean);
      },
      λ acc.
          split_loop-step fuel xs (d ∷ ds) i acc (some (i + k)) e
          ∙ ap (λ t. split_loop fuel xs (d ∷ ds) (i + k + length (d ∷ ds)) (acc ++ t ∷ [])) here_at
          ∙ splits (acc ++ here ∷ [])
          ∙ ap some (append_assoc acc (here ∷ []) (first ∷ parts)),
      λ rep buf fits.
          let same = regroup buf here rep (first ++ join_more rep parts) in
          replace-round xs (d ∷ ds) rep fuel i (i + k) here buf (first ++ join_more rep parts) e
            here_at fits
          ∙ replaces rep ((buf ++ here) ++ rep) (subst (λ t. length t ≤ max_size) (sym same) fits)
          ∙ ap (λ t. some (text t)) same,
    )

loops :
    (xs : Text) (d : Byte) (ds : Text) (fuel i : ℕ)
    → i ≤ length xs
    → length xs < i + fuel
    → Loops xs (d ∷ ds) fuel i
loops xs d ds zero i le lt = absurd (omega arith)
loops xs d ds (suc fuel) i le lt = elim (Option-cases (memmem (drop i xs) (d ∷ ds))) [
  | inl e ↦ last_part xs d ds fuel i (find-inside xs d ds i le ∙ ap (plus i) e) e
  | inr (k, e) ↦
      let o = memmem-Occurs (drop i xs) d ds k e in
      next_part xs d ds fuel i k (find-inside xs d ds i le ∙ ap (plus i) e) o (
        loops xs d ds fuel (i + k + length (d ∷ ds)) (omega (arith, o.within, length-drop i xs))
          (omega arith))
]

from_start :
    (xs : Text) (d : Byte) (ds : Text) (fuel : ℕ) → length xs < fuel → Loops xs (d ∷ ds) fuel 0
from_start xs d ds fuel h = loops xs d ds fuel 0 (omega arith) (omega arith)

split-nonempty :
    (fuel : ℕ) (xs : Text) (d : Byte) (ds : Text)
    → string_split fuel xs (d ∷ ds) ≡ split_loop fuel xs (d ∷ ds) 0 []
unfolding string_split
split-nonempty fuel xs d ds =
    let z : (length {A = Byte} (d ∷ ds) == 0) ≡ false = ground arith in rw z refl

replace-nonempty :
    (fuel : ℕ) (xs : Text) (d : Byte) (ds rep : Text)
    → string_replace fuel xs (d ∷ ds) rep ≡ replace_loop fuel xs (d ∷ ds) rep 0 []
unfolding string_replace
replace-nonempty fuel xs d ds rep =
    let z : (length {A = Byte} (d ∷ ds) == 0) ≡ false = ground arith in rw z refl

-- `split` by a delimiter that is not empty ends, as the fuel is more than the length of the text. The
-- parts that it returns are at least one, joined with the delimiter they give the text again, and the
-- delimiter occurs in none of them.
pub string_split-join :
    (xs : Text) (d : Byte) (ds : Text) (fuel : ℕ)
    → length xs < fuel
    → (first : Text) × (parts : List Text) × (string_split fuel xs (d ∷ ds) ≡ some (first ∷ parts))
      × (xs ≡ join (d ∷ ds) (first ∷ parts))
      × NotFound (d ∷ ds) first
      × All (NotFound (d ∷ ds)) parts
string_split-join xs d ds fuel h =
    let (first, parts, cut, splits, replaces) = from_start xs d ds fuel h in
    let (here, later) = cut.clean in
    (first, parts, split-nonempty fuel xs d ds ∙ splits [], cut.joined, here, later)

-- `replace` returns the parts that `split` returns, joined with the replacement, when the fuel is more
-- than the length of the text and the joined text is at most the size limit of strings.
pub string_replace-split :
    (xs : Text) (d : Byte) (ds rep : Text) (fuel : ℕ) (parts : List Text)
    → length xs < fuel
    → string_split fuel xs (d ∷ ds) ≡ some parts
    → length (join rep parts) ≤ max_size
    → string_replace fuel xs (d ∷ ds) rep ≡ some (text (join rep parts))
string_replace-split xs d ds rep fuel parts h e fits =
    let (first, rest, cut, splits, replaces) = from_start xs d ds fuel h in
    let same : first ∷ rest ≡ parts =
      some_inj (sym (splits []) ∙ sym (split-nonempty fuel xs d ds) ∙ e) in
    replace-nonempty fuel xs d ds rep
    ∙ replaces rep [] (subst (λ ps. length (join rep ps) ≤ max_size) (sym same) fits)
    ∙ ap (λ ps. some (text (join rep ps))) same
