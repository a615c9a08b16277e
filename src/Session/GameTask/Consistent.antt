-- ===== src/Session/GameTask/Consistent.antt =====
-- src/session/game_task.rs: the position, the moves and the repetition state of a game agree.
use tabia_shogi_server.Common.{
  ℕ, ◌+◌, min, List, [], ◌∷◌, ◌≡◌, refl, ap, subst, ◌∙◌, ◌⊎◌, inl, inr, arith, ok, snoc, length,
  Bool-cases, Option-cases, Result-cases,
}
use tabia_shogi_server.Game.Position.Pieces.{Color, color_eq, Move}
use tabia_shogi_server.Game.Position.Board.{Position, hirate}
use tabia_shogi_server.Game.Legality.Apply.{apply_move}
use tabia_shogi_server.Game.Repetition.{record_move}
use tabia_shogi_server.Game.Repetition.History.{state_of}
use tabia_shogi_server.Game.StartSpec.{StartSpec}
use tabia_shogi_server.Session.Clock.{u32_max}
use tabia_shogi_server.Session.GameTask.{
  Game, PlayedMove, next_ply, flagged, side_to_move, settle, limit_moves, accept, apply_judged,
  apply, resign, abort, declare, suspend, expired,
}
use tabia_shogi_server.Session.GameTask.Events.{Event, handle, handle_all}

-- The newest position of a history that goes on from a first one.
unfoldable pub newest : Position → List Position → Position
newest first [] = first
newest first (p ∷ h) = p

-- A game's record: each move is legal in the position that the moves before it lead to, and is
-- numbered by its place. The positions passed through stand newest first.
pub data Recorded (first : Position) : List PlayedMove → List Position → Type 0 where
  begun : Recorded first [] []
  one_more :
      {moves : List PlayedMove} {h : List Position} {q : Position} (m : PlayedMove)
      → Recorded first moves h
      → apply_move (newest first h) m.mv ≡ ok q
      → m.ply ≡ min u32_max (length moves + 1)
      → Recorded first (snoc moves m) (q ∷ h)

unfoldable pub first_of : StartSpec → Position
first_of (StartSpec.buoy setup) = hirate
first_of (StartSpec.board p) = p

-- The game's moves are a record from its start, the position is the one that they lead to, and the
-- repetition state is the one that the positions on the way make.
pub record IsConsistent (g : Game) : Type 0 where
  pub history : List Position
  pub recorded : Recorded (first_of g.start) g.moves history
  pub current : g.position ≡ newest (first_of g.start) history
  pub counted : g.repetition ≡ state_of (first_of g.start) history

-- What a command does to the record: nothing, or it adds a legal move.
pub record IsUntouched (g g' : Game) : Type 0 where
  pub start : g'.start ≡ g.start
  pub position : g'.position ≡ g.position
  pub moves : g'.moves ≡ g.moves
  pub repetition : g'.repetition ≡ g.repetition

pub record IsExtended (g g' : Game) : Type 0 where
  pub played : PlayedMove
  pub legal : apply_move g.position played.mv ≡ ok g'.position
  pub numbered : played.ply ≡ min u32_max (length g.moves + 1)
  pub start : g'.start ≡ g.start
  pub moves : g'.moves ≡ snoc g.moves played
  pub repetition : g'.repetition ≡ (record_move g.repetition g'.position).0

accept-IsExtended :
    (g : Game) (side : Color) (mv : Move) (t : ℕ) (q : Position)
    → apply_move g.position mv ≡ ok q
    → IsExtended g (limit_moves (accept g side mv t q).0)
unfolding accept limit_moves settle next_ply
accept-IsExtended g side mv t q h = record {
  played = (accept g side mv t q).1;
  legal = ground (arith, h);
  numbered = ground arith;
  start = ground arith;
  moves = ground arith;
  repetition = ground arith;
}

apply_judged-cases :
    (g : Game) (side : Color) (mv : Move) (t : ℕ)
    → IsUntouched g (apply_judged g side mv t (apply_move g.position mv)).0
      ⊎ IsExtended g (apply_judged g side mv t (apply_move g.position mv)).0
unfolding apply_judged settle
apply_judged-cases g side mv t = elim (Result-cases (apply_move g.position mv)) [
  | inl (q, e) ↦ inr (rw e (accept-IsExtended g side mv t q e))
  | inr (reason, e) ↦
      inl (rw e record { start = refl; position = refl; moves = refl; repetition = refl })
]

IsUntouched-cases :
    (g g' : Game)
    → (g'.start ≡ g.start)
      × (g'.position ≡ g.position)
      × (g'.moves ≡ g.moves)
      × (g'.repetition ≡ g.repetition)
    → IsUntouched g g' ⊎ IsExtended g g'
IsUntouched-cases g g' (s, p, m, r) =
    inl (record { start = s; position = p; moves = m; repetition = r })

apply-cases :
    (g : Game) (side : Color) (mv : Move) (t : ℕ)
    → ((apply g side mv t).0 ≡ (apply_judged g side mv t (apply_move g.position mv)).0)
      ⊎ ((apply g side mv t).0.start ≡ g.start)
        × ((apply g side mv t).0.position ≡ g.position)
        × ((apply g side mv t).0.moves ≡ g.moves)
        × ((apply g side mv t).0.repetition ≡ g.repetition)
unfolding apply
apply-cases g side mv t = ground (
  arith,
  Option-cases g.outcome,
  Option-cases (flagged g side t),
  Bool-cases (color_eq side (side_to_move g)),
)

handle-cases : (g : Game) (e : Event) → IsUntouched g (handle g e) ⊎ IsExtended g (handle g e)
unfolding handle resign abort declare suspend expired settle
handle-cases g (Event.move side mv t) = elim (apply-cases g side mv t) [
  | inl e ↦ rw e (apply_judged-cases g side mv t)
  | inr same ↦ IsUntouched-cases g (apply g side mv t).0 same
]
handle-cases g (Event.resignation side t) = IsUntouched-cases g (resign g side t).0 (ground arith)
handle-cases g Event.abort_all = IsUntouched-cases g (abort g).0 (ground arith)
handle-cases g (Event.declaration side t) = IsUntouched-cases g (declare g side t).0 (ground arith)
handle-cases g (Event.suspension side t) = IsUntouched-cases g (suspend g side t).0 (ground arith)
handle-cases g (Event.deadline t) = IsUntouched-cases g (expired g t).0 (ground arith)

-- Every command keeps the record: the position and the repetition state stay those that the moves
-- make, each move legal where it was played and numbered by its place.
pub handle-IsConsistent : (g : Game) (e : Event) → IsConsistent g → IsConsistent (handle g e)
unfolding newest state_of
handle-IsConsistent g e c = elim (handle-cases g e) [
  | inl u ↦ record {
    history = c.history;
    recorded = rw (u.start, u.moves) c.recorded;
    current = rw (u.start, u.position) c.current;
    counted = rw (u.start, u.repetition) c.counted;
  }
  | inr x ↦ record {
    history = (handle g e).position ∷ c.history;
    recorded =
        rw (x.start, x.moves)
          (one_more x.played c.recorded
            (subst (λ p. apply_move p x.played.mv ≡ ok (handle g e).position) c.current x.legal)
            x.numbered);
    current = refl;
    counted =
        x.repetition ∙ rw x.start (ap (λ st. (record_move st (handle g e).position).0) c.counted);
  }
]

pub handle_all-IsConsistent :
    (es : List Event) (g : Game) → IsConsistent g → IsConsistent (handle_all g es)
unfolding handle_all
handle_all-IsConsistent [] g c = c
handle_all-IsConsistent (e ∷ es) g c =
    handle_all-IsConsistent es (handle g e) (handle-IsConsistent g e c)
