-- ===== src/Game/Termination.antt =====
-- src/game/termination.rs: how a game ended.
use tabia_shogi_server.Common.{Bool}
use tabia_shogi_server.Game.Position.Pieces.{Color}

pub data Outcome : Type 0 where
  resignation : Color → Outcome
  declaration : Color → Bool → Outcome
  illegal_move : Color → Outcome
  timeout : Color → Outcome
  repetition : Outcome
  perpetual_check : Color → Outcome
  max_moves : Outcome
  disconnected : Color → Outcome
  aborted : Outcome
