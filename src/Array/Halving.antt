-- ===== src/Array/Halving.antt =====
-- The halving loop finds the first index at which its test fails, if the test is monotone: it holds
-- up to some index and fails from there on.
use ydsh.Prelude.{ℕ, zero, suc, ◌+◌, ◌-◌, ◌/◌, ◌≤◌, ◌<◌, ◌≡◌, Bool, true, false, arith}
use ydsh.Array.{halve}

module _ (below : ℕ → Bool) (answer : ℕ) (before : (i : ℕ) → i < answer → below i ≡ true)
    (from : (i : ℕ) → answer ≤ i → below i ≡ false) where
  -- While the answer lies in the range, a round of the loop keeps it there.
  pub halve-eq-answer :
      (fuel first dist : ℕ)
      → dist < fuel
      → first ≤ answer
      → answer ≤ first + dist
      → halve fuel below first dist ≡ answer
  unfolding halve
  halve-eq-answer zero first dist h a b = absurd (omega arith)
  halve-eq-answer (suc fuel) first dist h a b = ground (
    arith,
    before (dist / 2 + first),
    from (dist / 2 + first),
    halve-eq-answer fuel (dist / 2 + first + 1) (dist - dist / 2 - 1),
    halve-eq-answer fuel first (dist / 2),
  )
