-- ===== src/Session/Clock/Charge.antt =====
-- src/session/clock.rs: what a move is charged, and when its flag falls.
use tabia_shogi_server.Common.{
  ℕ, ◌+◌, ◌-◌, ◌*◌, ◌≤◌, Bool, true, false, ◌==◌, if◌then◌else◌, ◌≡◌, ◌↔◌, arith,
}
use tabia_shogi_server.Session.Clock.{
  TimeUnit, nanos_per_unit, Duration, duration_max, u32_max, TimeConfig, duration, units_of,
  duration_of, charged_units, flag_after,
}

-- The first duration that counts as a number of units: that many whole ones where a remainder is
-- dropped, and anything above one unit less where it is rounded up.
abbrev pub reaching : ℕ → TimeUnit → Bool → Duration
reaching a unit true = if a == 0 then 0 else (a - 1) * nanos_per_unit unit + 1
reaching a unit false = a * nanos_per_unit unit

units_of-reaching :
    (d a : ℕ) (unit : TimeUnit) (roundup : Bool)
    → a ≤ u32_max
    → (a ≤ units_of d unit roundup) ↔ (reaching a unit roundup ≤ d)
unfolding units_of nanos_per_unit
units_of-reaching d a TimeUnit.second true h = ground arith
units_of-reaching d a TimeUnit.second false h = ground arith
units_of-reaching d a TimeUnit.minute true h = ground arith
units_of-reaching d a TimeUnit.minute false h = ground arith
units_of-reaching d a TimeUnit.millisecond true h = ground arith
units_of-reaching d a TimeUnit.millisecond false h = ground arith

-- Below the largest duration no nanosecond is lost.
pub duration_of-exact : (nanos : ℕ) → nanos ≤ duration_max → duration_of nanos ≡ nanos
unfolding duration_of
duration_of-exact nanos h = ground arith

reaching-le :
    (a : ℕ) (unit : TimeUnit) (roundup : Bool)
    → a ≤ u32_max
    → reaching a unit roundup ≤ duration_max
unfolding nanos_per_unit
reaching-le a TimeUnit.second true h = ground arith
reaching-le a TimeUnit.second false h = ground arith
reaching-le a TimeUnit.minute true h = ground arith
reaching-le a TimeUnit.minute false h = ground arith
reaching-le a TimeUnit.millisecond true h = ground arith
reaching-le a TimeUnit.millisecond false h = ground arith

-- The deadline inverts the charge at its boundary: for an allowance that fits a `u32`, an elapsed
-- time reaches `flag_after` exactly if its charge reaches the allowance.
pub flag_after_iff :
    (allowance : ℕ) (elapsed : Duration) (cfg : TimeConfig)
    → allowance ≤ u32_max
    → (flag_after allowance cfg ≤ elapsed) ↔ (allowance ≤ charged_units elapsed cfg)
unfolding flag_after charged_units
flag_after_iff allowance elapsed cfg h =
    let first : Duration = reaching allowance cfg.unit cfg.roundup in
    ground (
      arith,
      units_of-reaching elapsed allowance cfg.unit cfg.roundup h,
      duration_of-exact first (reaching-le allowance cfg.unit cfg.roundup h),
    )

-- A count of a unit that fits a `u32`, made a duration as the configuration does it, counts as
-- itself again, whether remainders are rounded up or not.
pub units_of-duration :
    (count : ℕ) (unit : TimeUnit) (roundup : Bool)
    → count ≤ u32_max
    → units_of (duration unit count) unit roundup ≡ count
unfolding units_of duration nanos_per_unit
units_of-duration count TimeUnit.second roundup h = ground arith
units_of-duration count TimeUnit.minute roundup h = ground arith
units_of-duration count TimeUnit.millisecond roundup h = ground arith

-- A charge fits a `u32`, and it is never below the floor on a move.
pub charged_units-le :
    (elapsed : Duration) (cfg : TimeConfig)
    → (charged_units elapsed cfg ≤ u32_max)
      × (units_of cfg.least_time_per_move cfg.unit cfg.roundup ≤ charged_units elapsed cfg)
unfolding charged_units units_of
charged_units-le elapsed cfg = ground arith
