-- ===== src/Stamp.antt =====
-- src/stamp.rs: the calendar, and the moments written by it. A moment is its nanoseconds from
-- the epoch, negative before it, and each writer drops its fraction of a second.
-- Days and fields are natural numbers: no subtraction of the calendar's goes below zero, on the days
-- that follow the epoch, which are all that it is called on.
pub mod Calendar
pub mod Digits
use tabia_shogi_server.Common.Int.{ℤ, pos_part}
use tabia_shogi_server.Common.Text.{Text}
use tabia_shogi_server.Common.{
  ℕ, zero, suc, ◌+◌, ◌-◌, ◌*◌, ◌/◌, ◌%◌, List, [], ◌∷◌, ◌++◌, leb, ltb, if◌then◌else◌, length,
  replicate,
}

abbrev pub day_seconds : ℕ
day_seconds = 86400

-- The nanoseconds of a second.
abbrev pub second_nanos : ℕ
second_nanos = 1000000000

pub record Date : Type 0 where
  pub year : ℕ
  pub month : ℕ
  pub day : ℕ

unfoldable pub year_of_era_in : ℕ → ℕ
year_of_era_in day_of_era =
    (day_of_era - day_of_era / 1460 + day_of_era / 36524 - day_of_era / 146096) / 365

unfoldable pub civil_from_days : ℕ → Date
unfolding year_of_era_in
civil_from_days days =
    let shifted = days + 719468 in
    let era = shifted / 146097 in
    let day_of_era = shifted - era * 146097 in
    let year_of_era = year_of_era_in day_of_era in
    let day_of_year = day_of_era - (365 * year_of_era + year_of_era / 4 - year_of_era / 100) in
    let shifted_month = (5 * day_of_year + 2) / 153 in
    let month = if ltb shifted_month 10 then shifted_month + 3 else shifted_month - 9 in
    record {
      year = year_of_era + era * 400 + (if leb month 2 then 1 else 0);
      month = month;
      day = day_of_year - (153 * shifted_month + 2) / 5 + 1;
    }

pub record Civil : Type 0 where
  pub date : Date
  pub hour : ℕ
  pub minute : ℕ
  pub second : ℕ

-- `duration_since` fails before the epoch, which is then written; `as_secs` drops the fraction.
unfoldable pub civil : ℤ → Civil
civil at_moment =
    let seconds = pos_part at_moment / second_nanos in
    let within = seconds % day_seconds in
    record {
      date = civil_from_days (seconds / day_seconds);
      hour = within / 3600;
      minute = within / 60 % 60;
      second = within % 60;
    }

-- The digits of a number before some others; a `u64` has at most twenty.
unfoldable pub digits : ℕ → ℕ → Text → Text
digits zero n after = after
digits (suc fuel) n after =
    let rest = digits fuel (n / 10) ((48 + n % 10) ∷ after) in
    if ltb n 10 then (48 + n) ∷ after else rest

-- `{n:0w}`
unfoldable pub padded : ℕ → ℕ → Text
unfolding digits
padded width n = let d = digits 20 n [] in replicate (width - length d) 48 ++ d

-- The separators are those of the format strings: `/`, ` `, `:`, `-`, `T` and `Z`.
unfoldable pub stamp : ℤ → Text
stamp at_moment =
    let c = civil at_moment in
    padded 4 c.date.year
    ++ 47 ∷ padded 2 c.date.month
    ++ 47 ∷ padded 2 c.date.day
    ++ 32 ∷ padded 2 c.hour
    ++ 58 ∷ padded 2 c.minute
    ++ 58 ∷ padded 2 c.second

unfoldable pub rfc3339 : ℤ → Text
rfc3339 at_moment =
    let c = civil at_moment in
    padded 4 c.date.year
    ++ 45 ∷ padded 2 c.date.month
    ++ 45 ∷ padded 2 c.date.day
    ++ 84 ∷ padded 2 c.hour
    ++ 58 ∷ padded 2 c.minute
    ++ 58 ∷ padded 2 c.second
    ++ 90 ∷ []

unfoldable pub compact : ℤ → Text
compact at_moment =
    let c = civil at_moment in
    padded 4 c.date.year
    ++ padded 2 c.date.month
    ++ padded 2 c.date.day
    ++ 84 ∷ padded 2 c.hour
    ++ padded 2 c.minute
    ++ padded 2 c.second
    ++ 90 ∷ []

-- The clock's reading is passed in.
unfoldable pub utc_date : ℤ → Text
utc_date now =
    let c = civil now in padded 4 c.date.year ++ padded 2 c.date.month ++ padded 2 c.date.day
