-- ===== src/Session/Clock.antt =====
-- src/session/clock.rs: charged units, deadlines, setup T-values and the king shuttle.
pub mod Charge
pub mod Setup
use tabia_shogi_server.Common.{
  ℕ, ◌+◌, ◌-◌, ◌*◌, ◌/◌, ◌%◌, ◌^◌, min, max, Bool, true, false, not, ◌&&◌, Option, none, some, List,
  [], ◌∷◌, leb, ◌==◌, if◌then◌else◌, length, set, replicate,
}
use tabia_shogi_server.Game.Position.Pieces.{Color, Square, Move}
use tabia_shogi_server.Game.StartSpec.{StartSpec}

-- `TimeUnit` (src/config/model.rs).
pub data TimeUnit : Type 0 where
  second minute millisecond : TimeUnit

unfoldable pub nanos_per_unit : TimeUnit → ℕ
nanos_per_unit TimeUnit.second = 1000000000
nanos_per_unit TimeUnit.minute = 60 * 1000000000
nanos_per_unit TimeUnit.millisecond = 1000000

-- A `Duration`, as its nanoseconds.
abbrev pub Duration : Type 0
Duration = ℕ

-- `Duration::MAX`: the largest count of seconds, and one nanosecond less than another.
abbrev pub duration_max : Duration
duration_max = 2 ^ 64 * 1000000000 - 1

abbrev pub u32_max : ℕ
u32_max = 2 ^ 32 - 1

pub record Reduction : Type 0 where
  pub side : Color
  pub amount : Duration

-- `TimeConfig` (src/config/model.rs).
pub record TimeConfig : Type 0 where
  pub unit : TimeUnit
  pub total : Duration
  pub byoyomi : Option Duration
  pub increment : Option Duration
  pub least_time_per_move : Duration
  pub roundup : Bool
  pub reduction : Option Reduction

-- `u32::saturating_add`
abbrev pub saturating_add : ℕ → ℕ → ℕ
saturating_add a b = min u32_max (a + b)

-- `TimeUnit::duration` (src/config/model.rs).
unfoldable pub duration : TimeUnit → ℕ → Duration
duration TimeUnit.second count = count * 1000000000
duration TimeUnit.minute count = (count * 60) * 1000000000
duration TimeUnit.millisecond count = count * 1000000

-- A duration as a count of units, cut off at the largest `u32`.
unfoldable pub units_of : Duration → TimeUnit → Bool → ℕ
unfolding nanos_per_unit
units_of nanos unit roundup =
    let per_unit = nanos_per_unit unit in
    let whole = nanos / per_unit in
    let units = if roundup && not (nanos % per_unit == 0) then whole + 1 else whole in
    min u32_max units

-- A count of nanoseconds as a duration: `Duration::MAX` where its seconds overflow a `u64`.
unfoldable pub duration_of : ℕ → Duration
duration_of nanos =
    let seconds = nanos / 1000000000 in
    if leb (2 ^ 64) seconds then duration_max else seconds * 1000000000 + nanos % 1000000000

unfoldable pub charged_units : Duration → TimeConfig → ℕ
charged_units elapsed cfg =
    let floor = units_of cfg.least_time_per_move cfg.unit cfg.roundup in
    max (units_of elapsed cfg.unit cfg.roundup) floor

unfoldable pub total_units : TimeConfig → ℕ
total_units cfg = units_of cfg.total cfg.unit cfg.roundup

-- `map_or(0, …)` on an optional duration.
abbrev units_or_zero : Option Duration → TimeConfig → ℕ
units_or_zero none cfg = 0
units_or_zero (some d) cfg = units_of d cfg.unit cfg.roundup

unfoldable pub increment_units : TimeConfig → ℕ
increment_units cfg = units_or_zero cfg.increment cfg

unfoldable pub byoyomi_units : TimeConfig → ℕ
byoyomi_units cfg = units_or_zero cfg.byoyomi cfg

unfoldable pub turn_allowance : ℕ → TimeConfig → Option ℕ
turn_allowance remaining cfg =
    let byoyomi = byoyomi_units cfg in
    let increment = increment_units cfg in
    if total_units cfg == 0 && (byoyomi == 0 && increment == 0)
    then none
    else some (saturating_add (saturating_add remaining byoyomi) increment)

unfoldable pub flag_after : ℕ → TimeConfig → Duration
unfolding duration_of nanos_per_unit
flag_after allowance cfg =
    if leb allowance (units_of cfg.least_time_per_move cfg.unit cfg.roundup)
    then 0
    else let per_unit = nanos_per_unit cfg.unit in
      duration_of (if cfg.roundup then (allowance - 1) * per_unit + 1 else allowance * per_unit)

unfoldable pub first_move_index : Color → ℕ
first_move_index Color.black = 0
first_move_index Color.white = 1

-- The sequences of T-values; `none` is the panic on a sequence too short for the reduced side.
unfoldable pub setup_t_values : ℕ → TimeConfig → Option (List ℕ)
unfolding first_move_index
setup_t_values setup_len cfg =
    let increment = increment_units cfg in
    let values = replicate setup_len increment in
    elim cfg.reduction [
      | none ↦ some values
      | some reduction ↦
          let i = first_move_index reduction.side in
          let value = saturating_add increment (units_of reduction.amount cfg.unit cfg.roundup) in
          if leb setup_len i then none else some (set values i value)
    ]

abbrev square : ℕ → ℕ → Square
square file rank = record { file = file; rank = rank }

-- `step`, one quiet board move.
abbrev pub quiet : ℕ → ℕ → ℕ → ℕ → Move
quiet from_file from_rank to_file to_rank =
    Move.board (square from_file from_rank) (square to_file to_rank) false

abbrev pub king_shuttle : List Move
king_shuttle = quiet 5 9 5 8 ∷ quiet 5 1 5 2 ∷ quiet 5 8 5 9 ∷ quiet 5 2 5 1 ∷ []

abbrev pub is_reduced : TimeConfig → Bool
is_reduced cfg = elim cfg.reduction [ none ↦ false | some _ ↦ true ]

unfoldable pub effective_setup : StartSpec → TimeConfig → List Move
effective_setup (StartSpec.buoy []) cfg = if is_reduced cfg then king_shuttle else []
effective_setup (StartSpec.buoy (mv ∷ setup)) cfg = mv ∷ setup
effective_setup (StartSpec.board position) cfg = []
