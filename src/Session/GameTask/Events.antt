-- ===== src/Session/GameTask/Events.antt =====
-- src/session/game_task.rs: the commands of a game as steps on its state.
use tabia_shogi_server.Common.{ℕ, ◌≤◌, none, some, List, [], ◌∷◌, ◌≡◌, ◌≢◌, ◌↔◌, refl, arith}
use tabia_shogi_server.Game.Position.Pieces.{Color, Move}
use tabia_shogi_server.Game.Termination.{Outcome}
use tabia_shogi_server.Session.Clock.{Duration, charged_units, flag_after, u32_max, turn_allowance}
use tabia_shogi_server.Session.Clock.Charge.{flag_after_iff}
use tabia_shogi_server.Session.GameTask.{
  Game, side_to_move, allowance, flagged, ended, apply, resign, abort, declared, declare, suspend,
  expired,
}

-- A command of a player, of the timer or of the server.
pub data Event : Type 0 where
  move : Color → Move → ℕ → Event
  resignation : Color → ℕ → Event
  abort_all : Event
  declaration : Color → ℕ → Event
  suspension : Color → ℕ → Event
  deadline : ℕ → Event

unfoldable pub handle : Game → Event → Game
handle g (Event.move side mv t) = (apply g side mv t).0
handle g (Event.resignation side t) = (resign g side t).0
handle g Event.abort_all = (abort g).0
handle g (Event.declaration side t) = (declare g side t).0
handle g (Event.suspension side t) = (suspend g side t).0
handle g (Event.deadline t) = (expired g t).0

unfoldable pub handle_all : Game → List Event → Game
handle_all g [] = g
handle_all g (e ∷ es) = handle_all (handle g e) es

handle-finished : (g : Game) (o : Outcome) (e : Event) → g.outcome ≡ some o → handle g e ≡ g
unfolding handle apply resign abort declare suspend expired
handle-finished g o (Event.move side mv t) h = ground arith
handle-finished g o (Event.resignation side t) h = ground arith
handle-finished g o Event.abort_all h = ground arith
handle-finished g o (Event.declaration side t) h = ground arith
handle-finished g o (Event.suspension side t) h = ground arith
handle-finished g o (Event.deadline t) h = ground arith

-- Once a game has an outcome, no sequence of commands changes anything of it.
pub handle_all-finished :
    (es : List Event) (g : Game) (o : Outcome) → g.outcome ≡ some o → handle_all g es ≡ g
unfolding handle_all
handle_all-finished [] g o h = refl
handle_all-finished (e ∷ es) g o h = rw (handle-finished g o e h) (handle_all-finished es g o h)

-- In a game that is on, a charge that reaches the allowance of the side to move ends the game by
-- timeout in the move, the resignation, the declaration and the suspension of that side alike, and
-- in the timer's own question, with everything but the outcome as it was.
pub timeout-alike :
    (g : Game) (mv : Move) (charged a : ℕ)
    → g.outcome ≡ none
    → allowance g (side_to_move g) ≡ some a
    → a ≤ charged
    → let late = ended g (Outcome.timeout (side_to_move g)) in
      (handle g (Event.move (side_to_move g) mv charged) ≡ late)
      × (handle g (Event.resignation (side_to_move g) charged) ≡ late)
      × (handle g (Event.declaration (side_to_move g) charged) ≡ late)
      × (handle g (Event.suspension (side_to_move g) charged) ≡ late)
      × (handle g (Event.deadline charged) ≡ late)
unfolding handle apply resign declare suspend expired flagged side_to_move declared
timeout-alike g mv charged a h e k =
    (ground arith, ground arith, ground arith, ground arith, ground arith)

allowance-le : (g : Game) (side : Color) (a : ℕ) → allowance g side ≡ some a → a ≤ u32_max
unfolding allowance turn_allowance
allowance-le g side a h = ground arith

-- The timer's question about a game that is on, asked of a measured time, ends it exactly if that
-- time has reached the deadline that the allowance of the side to move was turned into.
pub expired-deadline :
    (g : Game) (elapsed : Duration) (a : ℕ)
    → g.outcome ≡ none
    → allowance g (side_to_move g) ≡ some a
    → ((expired g (charged_units elapsed g.time)).0.outcome ≢ none)
      ↔ (flag_after a g.time ≤ elapsed)
unfolding expired flagged side_to_move
expired-deadline g elapsed a h e =
    ground (arith, flag_after_iff a elapsed g.time (allowance-le g g.position.side_to_move a e))
