-- ===== src/Game/StartSpec.antt =====
-- src/game/start_spec.rs: how a game starts, and the replay of a setup sequence.
pub mod Replay
use tabia_shogi_server.Common.{ℕ, zero, suc, ◌+◌, List, [], ◌∷◌, Result, ok, err, ◌>>=◌}
use tabia_shogi_server.Game.Position.Pieces.{Move}
use tabia_shogi_server.Game.Position.Board.{Position, hirate}
use tabia_shogi_server.Game.Legality.Apply.{Illegal, apply_move}

pub data StartSpec : Type 0 where
  buoy : List Move → StartSpec
  board : Position → StartSpec

pub record IllegalSetup : Type 0 where
  pub index : ℕ
  pub reason : Illegal

-- `map_err(|reason| IllegalSetup { index, reason })`
abbrev pub at_index : ℕ → Result Illegal Position → Result IllegalSetup Position
at_index i (ok p) = ok p
at_index i (err reason) = err (record { index = i; reason = reason })

-- The loop of `traversal`: the positions pushed after the last one, and the first refusal ends it.
unfoldable pub replay : Position → ℕ → List Move → Result IllegalSetup (List Position)
replay position i [] = ok []
replay position i (mv ∷ rest) = do
  next ← at_index i (apply_move position mv)
  later ← replay next (i + 1) rest
  ok (next ∷ later)

-- The traversal, which is never empty: its first position and the ones after it.
abbrev pub Traversal : Type 0
Traversal = Position × List Position

unfoldable pub traversal : StartSpec → Result IllegalSetup Traversal
unfolding replay
traversal (StartSpec.buoy setup) = do later ← replay hirate 0 setup; ok (hirate, later)
traversal (StartSpec.board position) = ok (position, [])

-- `traversal.pop()`, the last position.
unfoldable pub last_of : Position → List Position → Position
last_of p [] = p
last_of p (q ∷ rest) = last_of q rest

unfoldable pub decode : StartSpec → Result IllegalSetup Position
unfolding traversal
decode spec = do (first, later) ← traversal spec; ok (last_of first later)
