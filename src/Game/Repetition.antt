-- ===== src/Game/Repetition.antt =====
-- src/game/repetition.rs: how often a position has occurred, and perpetual check.
pub mod Counts
pub mod History
use native.Mathlib.Decide.{ℕ_discrete}
use tabia_shogi_server.Common.{ℕ, Bool, true, false, List, [], ◌∷◌, ltb, leb, if◌then◌else◌}
use tabia_shogi_server.Game.Position.Pieces.{
  Color, opponent, PerColor, slot, set_slot, PieceKind, Piece,
}
use tabia_shogi_server.Game.Position.Hands.{Hand}
use tabia_shogi_server.Game.Position.Board.{Position}
use tabia_shogi_server.Game.Legality.Movement.{in_check}
use Counts.{CountMap, bump, count_of}

abbrev pub occurrences_limit : ℕ
occurrences_limit = 4

abbrev pub checker_threshold : ℕ
checker_threshold = 4

abbrev pub escaper_threshold : ℕ
escaper_threshold = 3

-- The derived equality of positions, on which the keys are compared.
pub Position-discrete : Discrete Position
Position-discrete = hlevel ℕ_discrete

pub data Verdict : Type 0 where
  none : Verdict
  draw : Verdict
  perpetual_check : Color → Verdict

pub data Streak : Type 0 where
  broken : Streak
  checking : CountMap Position → Streak

unfoldable pub begin : Streak → Streak
begin Streak.broken = Streak.checking []
begin (Streak.checking counts) = Streak.checking counts

-- `clear`
abbrev pub cleared : Streak
cleared = Streak.broken

unfoldable pub count : Streak → Position → Streak
count Streak.broken key = Streak.broken
count (Streak.checking counts) key = Streak.checking (bump Position-discrete key counts)

unfoldable pub streak_count_of : Streak → Position → ℕ
streak_count_of Streak.broken key = 0
streak_count_of (Streak.checking counts) key = count_of Position-discrete key counts

pub record RepetitionState : Type 0 where
  pub global : CountMap Position
  pub streaks : PerColor Streak

unfoldable pub repetition_new : RepetitionState
repetition_new = record {
  global = [];
  streaks = record { black_slot = Streak.broken; white_slot = Streak.broken };
}

-- `RepetitionState::count`, which also answers how many occurrences there now are.
unfoldable pub count_global : RepetitionState → Position → RepetitionState × ℕ
count_global st key =
    let global' = bump Position-discrete key st.global in
    (record st { global = global' }, count_of Position-discrete key global')

unfoldable pub count_start : RepetitionState → Position → RepetitionState
unfolding count_global
count_start st position = (count_global st position).0

-- The mover's streak is made alive or cleared, on whether the move gave check.
unfoldable pub update_mover : PerColor Streak → Position → PerColor Streak
unfolding begin
update_mover streaks position =
    let mover = opponent position.side_to_move in
    set_slot streaks mover
      (if in_check position position.side_to_move then begin (slot streaks mover) else cleared)

-- The loop over both sides, Black first.
unfoldable pub count_both : PerColor Streak → Position → PerColor Streak
unfolding count
count_both streaks key =
    let first = set_slot streaks Color.black (count (slot streaks Color.black) key) in
    set_slot first Color.white (count (slot first Color.white) key)

-- The verdict, read from the number of occurrences and the two streaks.
unfoldable pub read_verdict : ℕ → PerColor Streak → Color → Position → Verdict
unfolding streak_count_of
read_verdict occurrences streaks mover key =
    if ltb occurrences occurrences_limit
    then Verdict.none
    else if leb checker_threshold (streak_count_of (slot streaks mover) key)
    then Verdict.perpetual_check mover
    else if leb escaper_threshold (streak_count_of (slot streaks (opponent mover)) key)
    then Verdict.perpetual_check (opponent mover)
    else Verdict.draw

-- `RepetitionState::record`
unfoldable pub record_move : RepetitionState → Position → RepetitionState × Verdict
unfolding count_global update_mover count_both read_verdict
record_move st position =
    let mover = opponent position.side_to_move in
    let (counted, occurrences) = count_global st position in
    let streaks = count_both (update_mover counted.streaks position) position in
    (record counted { streaks = streaks }, read_verdict occurrences streaks mover position)
