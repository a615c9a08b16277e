-- ===== src/Session/Random.antt =====
-- The random numbers that a round is drawn with: a generator of the `rand` library, of which the
-- code uses `random_range` alone.
use Prim.Native.Nat.{ℕ, ◌<◌}

-- A generator's states, and its draw of a number below a bound.
pub record Rng : Type 1 where
  pub State : Type 0
  pub below : ℕ → State → ℕ × State
  pub below-lt : (n : ℕ) (s : State) → 0 < n → (below n s).0 < n
