-- ===== src/Stamp/Calendar.antt =====
-- src/stamp.rs: the calendar's fields are those of a date that exists.
use tabia_shogi_server.Common.{ℕ, ◌+◌, ◌-◌, ◌*◌, ◌/◌, ◌%◌, ◌≤◌, ◌≡◌, arith}
use tabia_shogi_server.Stamp.{year_of_era_in}

-- The days of an era before one of its years.
abbrev pub year_start : ℕ → ℕ
year_start y = 365 * y + y / 4 - y / 100

-- The year of a day of an era starts at that day or before it, and less than 366 days before.
pub year_of_era-bounds :
    (d : ℕ)
    → d ≤ 146096
    → let y = year_of_era_in d in (y ≤ 399) × (year_start y ≤ d) × (d ≤ year_start y + 365)
unfolding year_of_era_in
year_of_era-bounds d h = omega arith

-- A year of an era that has a 366th day ends in February of a leap year.
pub year_of_era-leap :
    (d : ℕ)
    → d ≤ 146096
    → let y = year_of_era_in d in
      d ≡ year_start y + 365 → ((y + 1) % 4 ≡ 0) × (((y + 1) % 100 ≡ 0) → y ≡ 399)
unfolding year_of_era_in
year_of_era-leap d h e = (omega (arith, e, h), λ f. omega (arith, e, f, h))
