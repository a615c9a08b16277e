-- ===== src/Config/Timestamp.antt =====
-- src/config/timestamp.rs: reading a timestamp of RFC 3339. A text is its code points, which are its
-- bytes once it is known to be ASCII; a moment is its nanoseconds from the epoch.
pub mod Days
pub mod RoundTrip
use tabia_shogi_server.Common.Int.{ℤ, pos, negsuc, pos_part, neg_part, ◌+ℤ◌, neg}
use tabia_shogi_server.Common.Signed.{◌-ℤ◌}
use tabia_shogi_server.Common.Text.{Text}
use tabia_shogi_server.Stamp.{second_nanos}
use tabia_shogi_server.Common.{
  ℕ, zero, suc, ◌+◌, ◌-◌, ◌*◌, ◌/◌, ◌%◌, Bool, true, false, not, ◌&&◌, ◌||◌, Option, none, some,
  List, [], ◌∷◌, leb, ltb, ◌==◌, if◌then◌else◌, length, get_or, all, Result, ok, err, ◌>>=◌, ◌>>◌,
  guard, ok_or,
}

pub data Field : Type 0 where
  month_field day_field hour_field minute_field second_field offset_hour offset_minute : Field

pub data TimestampError : Type 0 where
  shape missing_offset unrepresentable : TimestampError
  out_of_range : Field → ℕ → TimestampError

abbrev pub is_digit : ℕ → Bool
is_digit c = leb 48 c && leb c 57

-- `text[from..from + count]`
unfoldable pub slice : ℕ → ℕ → Text → Text
slice zero zero t = []
slice zero (suc count) [] = []
slice zero (suc count) (c ∷ t) = c ∷ slice zero count t
slice (suc first) count [] = []
slice (suc first) count (c ∷ t) = slice first count t

-- `text[from..]`
unfoldable pub after : ℕ → Text → Text
after zero t = t
after (suc first) [] = []
after (suc first) (c ∷ t) = after first t

unfoldable pub number_from : ℕ → Text → ℕ
number_from value [] = value
number_from value (c ∷ t) = number_from (value * 10 + (c - 48)) t

-- The digits are two or four, so the number fits.
unfoldable pub number : Text → Result TimestampError ℕ
unfolding all number_from
number t = if all is_digit t then ok (number_from 0 t) else err TimestampError.shape

unfoldable pub checked : Field → ℕ → ℕ → ℕ → Result TimestampError (Unit {0})
checked field value low high =
    guard (leb low value && leb value high) (TimestampError.out_of_range field value)

unfoldable pub is_leap : ℕ → Bool
is_leap year = year % 4 == 0 && (not (year % 100 == 0) || year % 400 == 0)

unfoldable pub days_in_month : ℕ → ℕ → ℕ
unfolding is_leap
days_in_month year month =
    if month == 1
      || month == 3
      || month == 5
      || month == 7
      || month == 8
      || month == 10
      || month == 12
    then 31
    else if month == 4 || month == 6 || month == 9 || month == 11
    then 30
    else if month == 2
    then (if is_leap year then 29 else 28)
    else 0

-- Of the calendar, the parts that are never negative are natural numbers.
abbrev pub scaled : ℤ → ℕ → ℤ
scaled (pos n) k = pos (n * k)
scaled (negsuc n) k = neg (pos ((n + 1) * k))

-- `i64` division, toward zero
abbrev quotient : ℤ → ℕ → ℤ
quotient (pos n) d = pos (n / d)
quotient (negsuc n) d = neg (pos ((n + 1) / d))

abbrev back_400 : ℤ → ℤ
back_400 (pos n) = pos n
back_400 (negsuc n) = negsuc n -ℤ pos 399

-- From the year and the month counted from March on. The day, from 1 on, keeps the day of the year
-- from going below zero.
unfoldable pub days_from_shifted : ℤ → ℕ → ℕ → ℤ
unfolding ◌-ℤ◌ ◌+ℤ◌ neg
days_from_shifted year shifted_month day =
    let era = quotient (back_400 year) 400 in
    let year_of_era = pos_part (year -ℤ scaled era 400) in
    let day_of_year = (153 * shifted_month + 2) / 5 + day - 1 in
    let day_of_era = year_of_era * 365 + year_of_era / 4 - year_of_era / 100 + day_of_year in
    scaled era 146097 +ℤ pos day_of_era -ℤ pos 719468

unfoldable pub days_from_civil : ℤ → ℕ → ℕ → ℤ
days_from_civil given month day =
    days_from_shifted (if leb month 2 then given -ℤ pos 1 else given)
      (if ltb 2 month then month - 3 else month + 9) day

-- How many digits a text begins with.
unfoldable pub digits_in : Text → ℕ
digits_in [] = 0
digits_in (c ∷ t) = let more = digits_in t in if is_digit c then more + 1 else 0

-- The optional fraction, dropped.
unfoldable pub without_fraction : Text → Result TimestampError Text
unfolding digits_in after
without_fraction [] = ok []
without_fraction (c ∷ fraction) =
    if c == 46
    then (if digits_in fraction == 0
        then err TimestampError.shape
        else ok (after (digits_in fraction) fraction))
    else ok (c ∷ fraction)

abbrev is_z : Text → Bool
is_z [] = false
is_z (c ∷ []) = c == 90 || c == 122
is_z (c ∷ d ∷ t) = false

-- 1 or -1, as whether the number is negative
unfoldable pub sign_of : ℕ → Result TimestampError Bool
sign_of c =
    if c == 43 then ok false else if c == 45 then ok true else err TimestampError.missing_offset

unfoldable pub offset_of : Text → Result TimestampError ℤ
unfolding slice number checked sign_of neg
offset_of t =
    if is_z t
    then ok (pos 0)
    else if not (length t == 6) || not (get_or t 3 0 == 58)
    then err TimestampError.missing_offset
    else do
      negative ← sign_of (get_or t 0 0)
      hours ← number (slice 1 2 t)
      minutes ← number (slice 4 2 t)
      _ ← checked Field.offset_hour hours 0 23
      _ ← checked Field.offset_minute minutes 0 59
      let seconds : ℤ = pos (hours * 3600 + minutes * 60) in
          ok (if negative then neg seconds else seconds)

unfoldable pub offset : Text → Result TimestampError ℤ
unfolding without_fraction offset_of
offset t = without_fraction t >>= offset_of

-- The fixed part of the shape, up to the seconds.
abbrev pub is_shaped : Text → Bool
is_shaped t =
    leb 19 (length t)
    && get_or t 4 0 == 45
    && get_or t 7 0 == 45
    && (get_or t 10 0 == 84 || get_or t 10 0 == 116)
    && get_or t 13 0 == 58
    && get_or t 16 0 == 58

-- Which moments the platform's clock holds is the standard library's to say.
module _ (is_representable : ℤ → Bool) where
  unfoldable pub epoch : ℤ → Option ℤ
  epoch seconds =
      let moment = scaled seconds second_nanos in
      if is_representable moment then some moment else none

  unfoldable pub parse : Text → Result TimestampError ℤ
  parse t =
      if not (all (λ c. ltb c 128) t) || not (is_shaped t) then err TimestampError.shape else do
        year ← number (slice 0 4 t)
        month ← number (slice 5 2 t)
        day ← number (slice 8 2 t)
        hour ← number (slice 11 2 t)
        minute ← number (slice 14 2 t)
        second ← number (slice 17 2 t)
        east ← offset (after 19 t)
        _ ← checked Field.month_field month 1 12
        _ ← checked Field.day_field day 1 (days_in_month year month)
        _ ← checked Field.hour_field hour 0 23
        _ ← checked Field.minute_field minute 0 59
        _ ← checked Field.second_field second 0 60
        ok_or
            (epoch (
              scaled (days_from_civil (pos year) month day) 86400
              +ℤ pos (hour * 3600 + minute * 60 + second)
              -ℤ east))
            TimestampError.unrepresentable
