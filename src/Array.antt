-- ===== src/Array.antt =====
-- The array algorithms that src/job.cpp writes out as loops over a `FlexBuffer` or a `std::vector`:
-- the compaction loop of `batchedRemove` and `removeTerminatedJobs`, and the halving search.
pub mod Compact
pub mod Halving
use ydsh.Prelude.{
  Bool, List, Option, [], false, get_elem?, if◌then◌else◌, length, ltb, none, set, some, suc, zero,
  ℕ, ◌+◌, ◌-◌, ◌/◌, ◌||◌, ◌∷◌,
}

module _ {ℓ} {A : Type ℓ} where
  -- std::swap(xs[i], xs[j])
  abbrev pub swap_values : Option A → Option A → ℕ → ℕ → List A → List A
  swap_values (some a) (some b) i j xs = set (set xs i b) j a
  swap_values none b i j xs = xs
  swap_values (some a) none i j xs = xs

  abbrev pub swap : ℕ → ℕ → List A → List A
  swap i j xs = swap_values (get_elem? xs i) (get_elem? xs j) i j xs

  -- Which elements stay, in order, and which go.
  abbrev pub filter : (A → Bool) → List A → List A
  filter keep [] = []
  filter keep (x ∷ xs) = if keep x then x ∷ filter keep xs else filter keep xs

  abbrev pub any : (A → Bool) → List A → Bool
  any p [] = false
  any p (x ∷ xs) = p x || any p xs

  -- A test of the element at an index; out of range it fails.
  abbrev pub test_value : (A → Bool) → Option A → Bool
  test_value keep none = false
  test_value keep (some x) = keep x

  abbrev pub test_at : (A → Bool) → List A → ℕ → Bool
  test_at keep xs i = test_value keep (get_elem? xs i)

  -- The first loop: the index of the first element that goes, or the size.
  unfoldable pub first_removed : (A → Bool) → List A → ℕ
  first_removed keep [] = 0
  first_removed keep (x ∷ xs) = if keep x then suc (first_removed keep xs) else 0

  -- The second loop, with `n` rounds left: an element that stays is swapped with the first of those
  -- that go.
  unfoldable pub compact_loop : (A → Bool) → ℕ → ℕ → ℕ → List A → List A × ℕ
  compact_loop keep zero i removed xs = (xs, removed)
  compact_loop keep (suc n) i removed xs =
      let stays = test_at keep xs i in
      compact_loop keep n (i + 1) (if stays then removed + 1 else removed)
        (if stays then swap i removed xs else xs)

  -- Both loops: the array as they leave it, and the number of elements that stay.
  unfoldable pub compact : (A → Bool) → List A → List A × ℕ
  unfolding first_removed compact_loop
  compact keep xs =
      let removed = first_removed keep xs in
      compact_loop keep (length xs - (removed + 1)) (removed + 1) removed xs

-- The halving loop of `findEmptyEntry`, which is also that of `std::lower_bound`: `below i` tells
-- that the answer lies behind the index `i`. `fuel` bounds the rounds.
unfoldable pub halve : ℕ → (ℕ → Bool) → ℕ → ℕ → ℕ
halve zero below first dist = first
halve (suc fuel) below first dist =
    let half = dist / 2 in
    let mid = half + first in
    let onward =
      (if below mid
        then halve fuel below (mid + 1) (dist - half - 1)
        else halve fuel below first half) in
    if ltb 0 dist then onward else first
