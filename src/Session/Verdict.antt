-- ===== src/Session/Verdict.antt =====
-- src/session/game_task.rs: what the end of a game means to its players and to its record.
use tabia_shogi_server.Common.{
  Bool, true, false, Option, none, some, ◌≡◌, ◌↔◌, ◌⊎◌, arith, if◌then◌else◌,
}
use tabia_shogi_server.Game.Position.Pieces.{Color, opponent, color_eq}
use tabia_shogi_server.Game.Termination.{Outcome}

-- `Reason` (src/csa/response.rs).
pub data Reason : Type 0 where
  sennichite oute_sennichite illegal_move time_up resign jishogi max_moves censored chudan : Reason
  illegal_action : Reason

-- `GameResult` (src/csa/response.rs).
pub data GameResult : Type 0 where
  win lose draw : GameResult

-- `Closing` (src/csa/response.rs).
pub data Closing : Type 0 where
  result : GameResult → Closing
  censored : Closing

-- `Ending` (src/csa/record.rs).
pub data Ending : Type 0 where
  toryo kachi illegal_kachi illegal_move time_up sennichite oute_sennichite max_moves : Ending
  chudan abnormal : Ending

-- `unechoed` is `Echoing::None`; the line of a `Fabricated` echo is always `%TORYO`.
pub data Echoing : Type 0 where
  unechoed timed bare fabricated_toryo : Echoing

pub data Scoring : Type 0 where
  loser : Color → Scoring
  draw nobody : Scoring

pub record Verdict : Type 0 where
  pub reason : Reason
  pub scoring : Scoring
  pub echo : Echoing

abbrev verdict : Reason → Scoring → Echoing → Verdict
verdict r s e = record { reason = r; scoring = s; echo = e }

unfoldable pub termination_of : Outcome → Verdict
termination_of (Outcome.resignation by) = verdict Reason.resign (Scoring.loser by) Echoing.timed
termination_of (Outcome.declaration by true) =
    verdict Reason.jishogi (Scoring.loser (opponent by)) Echoing.bare
termination_of (Outcome.declaration by false) =
    verdict Reason.illegal_move (Scoring.loser by) Echoing.bare
termination_of (Outcome.illegal_move by) =
    verdict Reason.illegal_move (Scoring.loser by) Echoing.timed
termination_of (Outcome.timeout by) = verdict Reason.time_up (Scoring.loser by) Echoing.unechoed
termination_of Outcome.repetition = verdict Reason.sennichite Scoring.draw Echoing.timed
termination_of (Outcome.perpetual_check by) =
    verdict Reason.oute_sennichite (Scoring.loser by) Echoing.timed
termination_of Outcome.max_moves = verdict Reason.max_moves Scoring.draw Echoing.timed
termination_of (Outcome.disconnected by) =
    verdict Reason.resign (Scoring.loser by) Echoing.fabricated_toryo
termination_of Outcome.aborted = verdict Reason.chudan Scoring.nobody Echoing.unechoed

unfoldable pub is_echoed : Verdict → Bool
is_echoed v = elim v.echo [
  | unechoed ↦ false
  | timed ↦ true
  | bare ↦ true
  | fabricated_toryo ↦ true
]

-- `Verdict::result`
unfoldable pub result_for : Verdict → Color → Option GameResult
result_for v side = elim v.scoring [
  | loser l ↦ if color_eq side l then some GameResult.lose else some GameResult.win
  | draw ↦ some GameResult.draw
  | nobody ↦ none
]

unfoldable pub results : Verdict → Option (GameResult × GameResult)
results v = elim (result_for v Color.black) [
  | none ↦ none
  | some b ↦ elim (result_for v Color.white) [ none ↦ none | some w ↦ some (b, w) ]
]

abbrev closing_of : Option GameResult → Closing
closing_of none = Closing.censored
closing_of (some r) = Closing.result r

unfoldable pub closing : Verdict → Color → Closing
closing v side = elim v.reason [
  | max_moves ↦ Closing.censored
  | sennichite ↦ closing_of (result_for v side)
  | oute_sennichite ↦ closing_of (result_for v side)
  | illegal_move ↦ closing_of (result_for v side)
  | time_up ↦ closing_of (result_for v side)
  | resign ↦ closing_of (result_for v side)
  | jishogi ↦ closing_of (result_for v side)
  | censored ↦ closing_of (result_for v side)
  | chudan ↦ closing_of (result_for v side)
  | illegal_action ↦ closing_of (result_for v side)
]

unfoldable pub record_ending : Outcome → Ending
record_ending (Outcome.resignation by) = Ending.toryo
record_ending (Outcome.declaration by true) = Ending.kachi
record_ending (Outcome.declaration by false) = Ending.illegal_kachi
record_ending (Outcome.illegal_move by) = Ending.illegal_move
record_ending (Outcome.timeout by) = Ending.time_up
record_ending Outcome.repetition = Ending.sennichite
record_ending (Outcome.perpetual_check by) = Ending.oute_sennichite
record_ending Outcome.max_moves = Ending.max_moves
record_ending (Outcome.disconnected by) = Ending.abnormal
record_ending Outcome.aborted = Ending.chudan

-- A side that loses by an outcome.
unfoldable pub loser_of : Outcome → Option Color
loser_of (Outcome.resignation by) = some by
loser_of (Outcome.declaration by true) = some (opponent by)
loser_of (Outcome.declaration by false) = some by
loser_of (Outcome.illegal_move by) = some by
loser_of (Outcome.timeout by) = some by
loser_of Outcome.repetition = none
loser_of (Outcome.perpetual_check by) = some by
loser_of Outcome.max_moves = none
loser_of (Outcome.disconnected by) = some by
loser_of Outcome.aborted = none

-- A side is sent `#LOSE` as the closing line exactly if the outcome names it as the loser, and
-- `#CENSORED` exactly if the game reached its move limit or was aborted.
pub closing_iff :
    (o : Outcome) (side : Color)
    → ((closing (termination_of o) side ≡ Closing.result GameResult.lose)
        ↔ (loser_of o ≡ some side))
      × ((closing (termination_of o) side ≡ Closing.censored)
          ↔ ((o ≡ Outcome.max_moves) ⊎ (o ≡ Outcome.aborted)))
unfolding closing termination_of result_for loser_of opponent
closing_iff o side = ground arith

-- A game has results for both sides exactly if it was not aborted.
pub results_iff : (o : Outcome) → (results (termination_of o) ≡ none) ↔ (o ≡ Outcome.aborted)
unfolding results result_for termination_of
results_iff o = ground arith
