-- ===== src/Game/Repetition/Counts.antt =====
-- A `HashMap<Key, u32>` of counts as an association list: `entry(key).or_insert(0)` with a
-- saturating addition, and a missing key read as zero.
use mathlib.Core.Logic.{ite}
use tabia_shogi_server.Common.{ℕ, ◌+◌, ◌-◌, ◌^◌, min, List, [], ◌∷◌, ◌≡◌, arith}

abbrev pub CountMap : Type 0 → Type 0
CountMap K = List (K × ℕ)

abbrev pub u32_max : ℕ
u32_max = 2 ^ 32 - 1

module _ {K : Type 0} (dec : Discrete K) where
  unfoldable pub count_of : K → CountMap K → ℕ
  count_of key [] = 0
  count_of key ((j, n) ∷ rest) = ite (dec j key) n (count_of key rest)

  unfoldable pub bump : K → CountMap K → CountMap K
  bump key [] = (key, 1) ∷ []
  bump key ((j, n) ∷ rest) =
      let later = bump key rest in
      ite (dec j key) ((j, min u32_max (n + 1)) ∷ rest) ((j, n) ∷ later)

  -- How often a key stands in a history.
  unfoldable pub occurrences : K → List K → ℕ
  occurrences key [] = 0
  occurrences key (j ∷ rest) = let n = occurrences key rest in ite (dec j key) (n + 1) n

  pub count_of-bump :
      (key j : K) (m : CountMap K)
      → count_of j (bump key m) ≡ ite (dec key j) (min u32_max (count_of key m + 1)) (count_of j m)
  unfolding count_of bump
  count_of-bump key j [] = ground arith
  count_of-bump key j ((i, n) ∷ m) = ground (arith, count_of-bump key j m)
