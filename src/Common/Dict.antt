-- ===== src/Common/Dict.antt =====
-- Maps from numbers, as association lists: a key is set in place of its old entry.
use Prim.Native.Nat.{ℕ}
use mathlib.Core.Path.{◌≡◌}
use mathlib.Core.Option.{Option, none, some}
use mathlib.Core.List.{List, [], ◌∷◌}
use native.Mathlib.Omega.{arith}
use tabia_shogi_server.Common.Tests.{◌==◌, if◌then◌else◌}

-- `HashMap<usize, V>`
abbrev pub Dict : Type 0 → Type 0
Dict V = List (ℕ × V)

module _ {V : Type 0} where
  -- `get`
  unfoldable pub lookup : Dict V → ℕ → Option V
  lookup [] key = none
  lookup ((k, v) ∷ rest) key = let later = lookup rest key in if k == key then some v else later

  -- `remove`, but for the value removed
  unfoldable pub remove : ℕ → Dict V → Dict V
  remove key [] = []
  remove key ((k, v) ∷ rest) =
      let later = remove key rest in if k == key then later else (k, v) ∷ later

  -- `insert`
  unfoldable pub put : ℕ → V → Dict V → Dict V
  unfolding remove
  put key value d = (key, value) ∷ remove key d

  pub lookup-remove :
      (k j : ℕ) (d : Dict V) → lookup (remove k d) j ≡ (if k == j then none else lookup d j)
  unfolding lookup remove
  lookup-remove k j [] = ground arith
  lookup-remove k j ((i, v) ∷ rest) = ground (arith, lookup-remove k j rest)

  pub lookup-put :
      (k j : ℕ) (v : V) (d : Dict V)
      → lookup (put k v d) j ≡ (if k == j then some v else lookup d j)
  unfolding lookup put
  lookup-put k j v d = ground (arith, lookup-remove k j d)
