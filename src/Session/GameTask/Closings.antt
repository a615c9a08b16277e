-- ===== src/Session/GameTask/Closings.antt =====
-- src/session/game_task.rs and src/csa/response.rs: what the two players of a game are told by the
-- command that ends it.
use tabia_shogi_server.Common.{
  ℕ, ◌+◌, Bool, true, false, ◌&&◌, Option, none, some, ltb, leb, length, length-snoc, if◌then◌else◌,
  ◌≡◌, ◌↔◌, arith, inl, inr, Option-cases, Result-cases, Result, ok, err,
}
use tabia_shogi_server.Game.Position.Pieces.{Color, Move, opponent}
use tabia_shogi_server.Game.Position.Board.{Position}
use tabia_shogi_server.Game.Legality.Apply.{apply_move}
use tabia_shogi_server.Game.Repetition.{record_move}
use tabia_shogi_server.Game.Declaration.{holds}
use tabia_shogi_server.Game.Repetition
use tabia_shogi_server.Session.Verdict.{
  Closing, GameResult, Verdict, termination_of, result_for, closing,
}
use tabia_shogi_server.Session.GameTask.{
  Game, side_to_move, allowance, flagged, declared, accept, settle, limit_moves, reached_max_moves,
  outcome_of, apply, apply_judged, resign, abort, declare, suspend, expired,
}

-- The closing line that a command's verdict is for a side, where it answers with one.
abbrev pub told : {E : Type 0} → Result E Verdict → Color → Option Closing
told (ok v) c = some (closing v c)
told (err e) c = none

abbrev pub told_if : Option Verdict → Color → Option Closing
told_if none c = none
told_if (some v) c = some (closing v c)

-- The closing line of a game's outcome, where it has one.
abbrev pub told_after : Game → Color → Option Closing
told_after g c = elim g.outcome [ none ↦ none | some o ↦ some (closing (termination_of o) c) ]

-- `#LOSE` for a side, and `#WIN` for the other.
unfoldable pub loss_of : Color → Color → Closing
loss_of Color.black Color.black = Closing.result GameResult.lose
loss_of Color.black Color.white = Closing.result GameResult.win
loss_of Color.white Color.black = Closing.result GameResult.win
loss_of Color.white Color.white = Closing.result GameResult.lose

-- A charge below the allowance of the side to move, where there is one.
unfoldable pub on_time : Game → ℕ → Bool
on_time g charged = elim (allowance g (side_to_move g)) [ none ↦ true | some a ↦ ltb charged a ]

-- The line for a side after a legal move, by the verdict on the repetition and then by the limit.
abbrev pub told_legal : Bool → Repetition.Verdict → Color → Option Closing
told_legal full Repetition.Verdict.none c = if full then some Closing.censored else none
told_legal full Repetition.Verdict.draw c = some (Closing.result GameResult.draw)
told_legal full (Repetition.Verdict.perpetual_check loser) c = some (loss_of loser c)

flagged-on_time :
    (g : Game) (charged : ℕ)
    → (flagged g (side_to_move g) charged ≡ none) ↔ (on_time g charged ≡ true)
unfolding flagged on_time side_to_move
flagged-on_time g charged = ground arith

told-resign :
    (g : Game) (by c : Color) (charged : ℕ)
    → g.outcome ≡ none
    → told (resign g by charged).1 c ≡ some (loss_of by c)
unfolding resign closing termination_of result_for loss_of
told-resign g by c charged on = elim (Option-cases (flagged g by charged)) [
  | inl fits ↦ ground (arith, on, fits)
  | inr (a, late) ↦ ground (arith, on, late)
]

told-suspend :
    (g : Game) (c : Color) (charged : ℕ)
    → g.outcome ≡ none
    → told (suspend g (side_to_move g) charged).1 c ≡ some (loss_of (side_to_move g) c)
unfolding suspend closing termination_of result_for loss_of
told-suspend g c charged on = elim (Option-cases (flagged g (side_to_move g) charged)) [
  | inl fits ↦ ground (arith, on, fits)
  | inr (a, late) ↦ ground (arith, on, late)
]

told-declare :
    (g : Game) (c : Color) (charged : ℕ)
    → g.outcome ≡ none
    → told (declare g (side_to_move g) charged).1 c
      ≡ some (
          loss_of
            (if on_time g charged && holds g.position (side_to_move g)
              then opponent (side_to_move g)
              else side_to_move g)
            c)
unfolding declare declared closing termination_of result_for loss_of opponent
told-declare g c charged on = elim (Option-cases (flagged g (side_to_move g) charged)) [
  | inl fits ↦ ground (arith, on, fits, flagged-on_time g charged)
  | inr (a, late) ↦ ground (arith, on, late, flagged-on_time g charged)
]

told-abort : (g : Game) (c : Color) → g.outcome ≡ none → told (abort g).1 c ≡ some Closing.censored
unfolding abort closing termination_of result_for
told-abort g c on = ground (arith, on)

told-expired :
    (g : Game) (c : Color) (charged : ℕ)
    → g.outcome ≡ none
    → told_if (expired g charged).1 c
      ≡ (if on_time g charged then none else some (loss_of (side_to_move g) c))
unfolding expired closing termination_of result_for loss_of
told-expired g c charged on = elim (Option-cases (flagged g (side_to_move g) charged)) [
  | inl fits ↦ ground (arith, on, fits, flagged-on_time g charged)
  | inr (a, late) ↦ ground (arith, on, late, flagged-on_time g charged)
]

-- After a move of the side to move: late or illegal, it loses.
abbrev pub told_move : Game → Move → ℕ → Color → Option Closing
told_move g mv charged c =
    if on_time g charged
    then elim (apply_move g.position mv) [
      | err reason ↦ some (loss_of (side_to_move g) c)
      | ok q ↦
          told_legal (elim g.max_moves [ none ↦ false | some m ↦ leb m (length g.moves + 1) ])
            (record_move g.repetition q).1 c
    ]
    else some (loss_of (side_to_move g) c)

told-accept :
    (g : Game) (side c : Color) (mv : Move) (charged : ℕ) (q : Position)
    → told_after (limit_moves (accept g side mv charged q).0) c
      ≡ told_legal
          (elim g.max_moves [ none ↦ false | some m ↦ leb m (length g.moves + 1) ])
          (record_move g.repetition q).1
          c
unfolding limit_moves accept settle reached_max_moves outcome_of closing termination_of result_for
    loss_of
told-accept g side c mv charged q =
    ground (arith, length-snoc g.moves (accept g side mv charged q).1)

told-apply :
    (g : Game) (mv : Move) (c : Color) (charged : ℕ)
    → g.outcome ≡ none
    → told_after (apply g (side_to_move g) mv charged).0 c ≡ told_move g mv charged c
unfolding apply apply_judged settle closing termination_of result_for loss_of
told-apply g mv c charged on = elim (Option-cases (flagged g (side_to_move g) charged)) [
  | inr (a, late) ↦ ground (arith, on, late, flagged-on_time g charged)
  | inl fits ↦ elim (Result-cases (apply_move g.position mv)) [
    | inr (reason, e) ↦ ground (arith, on, fits, flagged-on_time g charged, e)
    | inl (q, e) ↦ ground (
      arith,
      on,
      fits,
      flagged-on_time g charged,
      e,
      told-accept g (side_to_move g) c mv charged q,
    )
  ]
]

-- In a game that is on, the closing lines of the two players are what each command makes them. Who
-- resigns is told `#LOSE` and the other `#WIN`. The side to move loses so by suspending, and by a
-- declaration that comes late or does not hold; one that holds in time wins the same way. An abort
-- tells both `#CENSORED`. The timer's question makes the side to move lose if the charge has reached
-- its allowance, and else answers with no verdict. After a move of the side to move, the outcome is
-- its loss if the move is late or illegal; else it follows the verdict on the repetition, `#DRAW` to
-- both or the loss of the checker, and without one it is `#CENSORED` to both at the move limit, or
-- there is no outcome.
pub told-loss_of :
    (g : Game) (mv : Move) (by c : Color) (charged : ℕ)
    → g.outcome ≡ none
    → (told (resign g by charged).1 c ≡ some (loss_of by c))
      × (told (suspend g (side_to_move g) charged).1 c ≡ some (loss_of (side_to_move g) c))
      × (told (declare g (side_to_move g) charged).1 c
          ≡ some (
              loss_of
                (if on_time g charged && holds g.position (side_to_move g)
                  then opponent (side_to_move g)
                  else side_to_move g)
                c))
      × (told (abort g).1 c ≡ some Closing.censored)
      × (told_if (expired g charged).1 c
          ≡ (if on_time g charged then none else some (loss_of (side_to_move g) c)))
      × (told_after (apply g (side_to_move g) mv charged).0 c ≡ told_move g mv charged c)
told-loss_of g mv by c charged on = (
  told-resign g by c charged on,
  told-suspend g c charged on,
  told-declare g c charged on,
  told-abort g c on,
  told-expired g c charged on,
  told-apply g mv c charged on,
)
