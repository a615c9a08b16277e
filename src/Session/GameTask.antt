-- ===== src/Session/GameTask.antt =====
-- src/session/game_task.rs: `Game`, one game's whole state, and its commands.
pub mod Events
pub mod Consistent
pub mod Begin
pub mod Settlement
pub mod Moves
pub mod Closings
pub mod Reduction
use tabia_shogi_server.Common.{
  ℕ, zero, suc, ◌+◌, ◌-◌, ◌%◌, min, Bool, true, false, not, Option, none, some, List, [], ◌∷◌, leb,
  ◌==◌, if◌then◌else◌, length, snoc, Result, ok, err,
}
use tabia_shogi_server.Game.Position.Pieces.{Color, color_eq, PerColor, slot, set_slot, Move}
use tabia_shogi_server.Game.Position.Board.{Position}
use tabia_shogi_server.Game.Legality.Apply.{Illegal, Applied, apply_move}
use tabia_shogi_server.Game.Repetition.{RepetitionState, repetition_new, count_start, record_move}
use tabia_shogi_server.Game.Declaration.{holds}
use tabia_shogi_server.Game.StartSpec.{StartSpec, IllegalSetup, traversal, last_of}
use tabia_shogi_server.Game.Termination.{Outcome}
use tabia_shogi_server.Session.Clock.{
  TimeConfig, u32_max, saturating_add, total_units, increment_units, turn_allowance, setup_t_values,
  effective_setup,
}
use tabia_shogi_server.Session.Verdict.{Verdict, termination_of}
use tabia_shogi_server.Game.Repetition

pub record PlayedMove : Type 0 where
  pub ply : ℕ
  pub mv : Move
  pub t : ℕ
  pub is_setup : Bool

-- The id's text is its characters' codes.
pub record Game : Type 0 where
  pub id : List ℕ
  pub start : StartSpec
  pub initial : Position
  pub position : Position
  pub moves : List PlayedMove
  pub time : TimeConfig
  pub remaining : PerColor ℕ
  pub repetition : RepetitionState
  pub max_moves : Option ℕ
  pub outcome : Option Outcome

pub data Rejected : Type 0 where
  finished : Outcome → Rejected
  not_to_move : Color → Color → Rejected
  timeout : Color → ℕ → ℕ → Rejected
  illegal : Illegal → Rejected

-- `NotDeclarable` and `NotSuspendable`, which have the same two variants.
pub data NotAllowed : Type 0 where
  finished : Outcome → NotAllowed
  not_to_move : Color → Color → NotAllowed

unfoldable pub settled : ℕ → ℕ → ℕ → ℕ
settled remaining increment charged = saturating_add remaining increment - charged

unfoldable pub next_ply : List PlayedMove → ℕ
next_ply moves = saturating_add (min u32_max (length moves)) 1

unfoldable pub setup_mover : ℕ → Color
setup_mover index = if index % 2 == 0 then Color.black else Color.white

-- The loop over the setup moves and their T-values, `index` the counter of `enumerate`.
unfoldable pub settle_setup :
    ℕ → ℕ → List PlayedMove → PerColor ℕ → List Move → List ℕ → List PlayedMove × PerColor ℕ
unfolding settled setup_mover next_ply
settle_setup index increment moves remaining (mv ∷ setup) (t ∷ values) =
    let side = setup_mover index in
    settle_setup (index + 1) increment
      (snoc moves (record { ply = next_ply moves; mv = mv; t = t; is_setup = true }))
      (set_slot remaining side (settled (slot remaining side) increment t)) setup values
settle_setup index increment moves remaining _ _ = (moves, remaining)

-- The positions of the setup sequence counted, the verdicts dropped.
unfoldable pub record_all : RepetitionState → List Position → RepetitionState
record_all st [] = st
record_all st (p ∷ rest) = record_all (record_move st p).0 rest

-- The spec that is kept: a buoy carries the sequence transmitted.
abbrev pub transmitted : StartSpec → TimeConfig → StartSpec
transmitted (StartSpec.buoy setup) cfg = StartSpec.buoy (effective_setup (StartSpec.buoy setup) cfg)
transmitted (StartSpec.board position) cfg = StartSpec.board position

-- A game is created or its setup sequence refused; `panicked` is the panic of `setup_t_values`.
pub data NewError : Type 0 where
  illegal_setup : IllegalSetup → NewError
  panicked : NewError

-- The game of a traversal and its T-values.
unfoldable pub new_of :
    List ℕ
    → StartSpec
    → TimeConfig
    → Option ℕ
    → List Move
    → Position
    → List Position
    → List ℕ
    → Game
unfolding settle_setup record_all
new_of id start cfg max_moves setup first later values =
    let initial = last_of first later in
    let (moves, remaining) =
      settle_setup 0 (increment_units cfg) []
        (record { black_slot = total_units cfg; white_slot = total_units cfg }) setup values in
    record {
      id = id;
      start = start;
      initial = initial;
      position = initial;
      moves = moves;
      time = cfg;
      remaining = remaining;
      repetition = record_all (count_start repetition_new first) later;
      max_moves = max_moves;
      outcome = none;
    }

unfoldable pub new : List ℕ → StartSpec → TimeConfig → Option ℕ → Result NewError Game
unfolding new_of
new id spec cfg max_moves =
    let setup = effective_setup spec cfg in
    let start = transmitted spec cfg in
    elim (traversal start) [
      | err e ↦ err (NewError.illegal_setup e)
      | ok (first, later) ↦ elim (setup_t_values (length setup) cfg) [
        | none ↦ err NewError.panicked
        | some values ↦ ok (new_of id start cfg max_moves setup first later values)
      ]
    ]

unfoldable pub side_to_move : Game → Color
side_to_move g = g.position.side_to_move

unfoldable pub allowance : Game → Color → Option ℕ
allowance g side = turn_allowance (slot g.remaining side) g.time

unfoldable pub flagged : Game → Color → ℕ → Option ℕ
unfolding allowance
flagged g side charged =
    if color_eq side g.position.side_to_move
    then elim (allowance g side) [ none ↦ none | some a ↦ if leb a charged then some a else none ]
    else none

unfoldable pub reached_max_moves : Game → Bool
reached_max_moves g = elim g.max_moves [ none ↦ false | some m ↦ leb m (length g.moves) ]

unfoldable pub settle : Game → Color → ℕ → Game
unfolding settled
settle g side charged = record g {
  remaining =
      set_slot g.remaining side (settled (slot g.remaining side) (increment_units g.time) charged);
}

abbrev pub ended : Game → Outcome → Game
ended g outcome = record g { outcome = some outcome }

unfoldable pub outcome_of : Repetition.Verdict → Option Outcome
outcome_of Repetition.Verdict.none = none
outcome_of Repetition.Verdict.draw = some Outcome.repetition
outcome_of (Repetition.Verdict.perpetual_check loser) = some (Outcome.perpetual_check loser)

-- The move limit, asked about where nothing has ended the game yet.
unfoldable pub limit_moves : Game → Game
unfolding reached_max_moves
limit_moves g = elim g.outcome [
  | some o ↦ g
  | none ↦ if reached_max_moves g then ended g Outcome.max_moves else g
]

-- The arm of `apply` for a legal move, up to the question of the move limit.
unfoldable pub accept : Game → Color → Move → ℕ → Position → Game × PlayedMove
unfolding next_ply settle outcome_of
accept g side mv charged position =
    let moved = settle (record g { position = position }) side charged in
    let played : PlayedMove = record {
      ply = next_ply moved.moves;
      mv = mv;
      t = charged;
      is_setup = false;
    } in
    let (repetition, verdict) = record_move moved.repetition position in
    (
      record moved {
        moves = snoc moved.moves played;
        repetition = repetition;
        outcome = outcome_of verdict;
      },
      played,
    )

unfoldable pub apply_judged : Game → Color → Move → ℕ → Applied → Game × Result Rejected PlayedMove
unfolding accept limit_moves
apply_judged g side mv charged (ok position) =
    let (moved, played) = accept g side mv charged position in (limit_moves moved, ok played)
apply_judged g side mv charged (err reason) =
    (settle (ended g (Outcome.illegal_move side)) side charged, err (Rejected.illegal reason))

unfoldable pub apply : Game → Color → Move → ℕ → Game × Result Rejected PlayedMove
unfolding apply_judged flagged side_to_move
apply g side mv charged = elim g.outcome [
  | some o ↦ (g, err (Rejected.finished o))
  | none ↦
      if color_eq side (side_to_move g)
      then elim (flagged g side charged) [
        | some a ↦ (ended g (Outcome.timeout side), err (Rejected.timeout side charged a))
        | none ↦ apply_judged g side mv charged (apply_move g.position mv)
      ]
      else (g, err (Rejected.not_to_move side (side_to_move g)))
]

unfoldable pub resign : Game → Color → ℕ → Game × Result Outcome Verdict
unfolding flagged settle
resign g side charged = elim g.outcome [
  | some o ↦ (g, err o)
  | none ↦ elim (flagged g side charged) [
    | some _ ↦ (ended g (Outcome.timeout side), ok (termination_of (Outcome.timeout side)))
    | none ↦ (
      ended (settle g side charged) (Outcome.resignation side),
      ok (termination_of (Outcome.resignation side)),
    )
  ]
]

unfoldable pub abort : Game → Game × Result Outcome Verdict
abort g = elim g.outcome [
  | some o ↦ (g, err o)
  | none ↦ (ended g Outcome.aborted, ok (termination_of Outcome.aborted))
]

-- The outcome of a declaration by the side to move.
unfoldable pub declared : Game → Color → ℕ → Outcome
unfolding flagged
declared g side charged = elim (flagged g side charged) [
  | some _ ↦ Outcome.timeout side
  | none ↦ Outcome.declaration side (holds g.position side)
]

unfoldable pub declare : Game → Color → ℕ → Game × Result NotAllowed Verdict
unfolding declared side_to_move
declare g side charged = elim g.outcome [
  | some o ↦ (g, err (NotAllowed.finished o))
  | none ↦
      if color_eq side (side_to_move g)
      then (ended g (declared g side charged), ok (termination_of (declared g side charged)))
      else (g, err (NotAllowed.not_to_move side (side_to_move g)))
]

unfoldable pub suspend : Game → Color → ℕ → Game × Result NotAllowed Verdict
unfolding flagged settle side_to_move
suspend g side charged = elim g.outcome [
  | some o ↦ (g, err (NotAllowed.finished o))
  | none ↦
      if color_eq side (side_to_move g)
      then elim (flagged g side charged) [
        | some _ ↦ (ended g (Outcome.timeout side), ok (termination_of (Outcome.timeout side)))
        | none ↦ (
          ended (settle g side charged) (Outcome.illegal_move side),
          ok (termination_of (Outcome.illegal_move side)),
        )
      ]
      else (g, err (NotAllowed.not_to_move side (side_to_move g)))
]

unfoldable pub expired : Game → ℕ → Game × Option Verdict
unfolding flagged side_to_move
expired g charged = elim g.outcome [
  | some o ↦ (g, none)
  | none ↦ elim (flagged g (side_to_move g) charged) [
    | none ↦ (g, none)
    | some _ ↦ (
      ended g (Outcome.timeout (side_to_move g)),
      some (termination_of (Outcome.timeout (side_to_move g))),
    )
  ]
]
