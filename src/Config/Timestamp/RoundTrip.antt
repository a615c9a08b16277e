-- ===== src/Config/Timestamp/RoundTrip.antt =====
-- src/stamp.rs and src/config/timestamp.rs: the moment written is the moment read.
use tabia_shogi_server.Common.Int.{ℤ, pos, pos_part, ◌+ℤ◌}
use tabia_shogi_server.Common.Signed.{◌-ℤ◌}
use tabia_shogi_server.Common.Text.{Text}
use tabia_shogi_server.Common.{
  ℕ, ◌+◌, ◌-◌, ◌*◌, ◌/◌, ◌%◌, ◌≤◌, ◌<◌, Bool, true, [], ◌∷◌, ◌++◌, leb, ltb, if◌then◌else◌, all, ok,
  ok_or, ◌≡◌, refl, ap, ◌∙◌, arith, inl, inr, Bool-cases,
}
use tabia_shogi_server.Stamp.{
  Date, year_of_era_in, civil_from_days, civil, padded, rfc3339, day_seconds, second_nanos,
}
use tabia_shogi_server.Stamp.Calendar.{year_start, year_of_era-bounds}
use tabia_shogi_server.Stamp.Digits.{padded-two, padded-four}
use tabia_shogi_server.Config.Timestamp.{
  TimestampError, Field, slice, after, number, number_from, checked, offset, offset_of,
  without_fraction, scaled, days_from_civil, days_in_month, epoch, parse,
}
use tabia_shogi_server.Config.Timestamp.Days.{days_from_civil-civil, civil_from_days-exists}

number-two : (n : ℕ) → n < 100 → number ((48 + n / 10) ∷ (48 + n % 10) ∷ []) ≡ ok n
unfolding number all number_from
number-two n h = ground (arith, h)

number-four :
    (n : ℕ)
    → n < 10000
    → number (
        (48 + n / 10 / 10 / 10) ∷ (48 + n / 10 / 10 % 10) ∷ (48 + n / 10 % 10) ∷ (48 + n % 10) ∷ [])
      ≡ ok n
unfolding number all number_from
number-four n h = ground (arith, h)

-- The texts that the twenty characters of a written moment are, of their digits.
written : ℕ → ℕ → ℕ → ℕ → ℕ → ℕ → Text
written year month day hour minute second =
    (48 + year / 10 / 10 / 10)
    ∷ (48 + year / 10 / 10 % 10)
    ∷ (48 + year / 10 % 10)
    ∷ (48 + year % 10)
    ∷ 45
    ∷ (48 + month / 10)
    ∷ (48 + month % 10)
    ∷ 45
    ∷ (48 + day / 10)
    ∷ (48 + day % 10)
    ∷ 84
    ∷ (48 + hour / 10)
    ∷ (48 + hour % 10)
    ∷ 58
    ∷ (48 + minute / 10)
    ∷ (48 + minute % 10)
    ∷ 58
    ∷ (48 + second / 10)
    ∷ (48 + second % 10)
    ∷ 90
    ∷ []

ascii_two :
    (n : ℕ) (t : Text)
    → n < 100
    → all (λ c. ltb c 128) t ≡ true
    → all (λ c. ltb c 128) ((48 + n / 10) ∷ (48 + n % 10) ∷ t) ≡ true
unfolding all
ascii_two n t h e =
    let tens : ltb (48 + n / 10) 128 ≡ true = ground (arith, h) in
    let units : ltb (48 + n % 10) 128 ≡ true = ground (arith, h) in rw (tens, units) e

written_ascii :
    (year month day hour minute second : ℕ)
    → year < 10000
    → month < 100
    → day < 100
    → hour < 100
    → minute < 100
    → second < 100
    → all (λ c. ltb c 128) (written year month day hour minute second) ≡ true
unfolding all written
written_ascii y mo d h mi s a b c e f g =
    let d₁ : ltb (48 + y / 10 / 10 / 10) 128 ≡ true = ground (arith, a) in
    let d₂ : ltb (48 + y / 10 / 10 % 10) 128 ≡ true = ground arith in
    let r₀ = ascii_two s (90 ∷ []) g refl in
    let r₁ = ascii_two mi (58 ∷ (48 + s / 10) ∷ (48 + s % 10) ∷ 90 ∷ []) f r₀ in
    let t₁ : Text =
      (48 + mi / 10) ∷ (48 + mi % 10) ∷ 58 ∷ (48 + s / 10) ∷ (48 + s % 10) ∷ 90 ∷ [] in
    let r₂ = ascii_two h (58 ∷ t₁) e r₁ in
    let t₂ : Text = 84 ∷ (48 + h / 10) ∷ (48 + h % 10) ∷ 58 ∷ t₁ in
    let r₃ = ascii_two d t₂ c r₂ in
    let t₃ : Text = 45 ∷ (48 + d / 10) ∷ (48 + d % 10) ∷ t₂ in
    let r₄ = ascii_two mo t₃ b r₃ in
    let u₁ : ltb (48 + y / 10 % 10) 128 ≡ true = ground arith in
    let u₂ : ltb (48 + y % 10) 128 ≡ true = ground arith in rw (d₁, d₂, u₁, u₂) r₄

checked-ok : (f : Field) (v low high : ℕ) → low ≤ v → v ≤ high → checked f v low high ≡ ok tt
unfolding checked
checked-ok f v low high h k = ground (arith, h, k)

offset-z : offset (90 ∷ []) ≡ ok (pos 0)
unfolding offset offset_of without_fraction
offset-z = refl

moment : ℕ → ℕ → ℕ → ℕ → ℕ → ℕ → ℤ
moment year month day hour minute second =
    scaled (days_from_civil (pos year) month day) 86400
    +ℤ pos (hour * 3600 + minute * 60 + second)
    -ℤ pos 0

parse-written :
    (is_representable : ℤ → Bool) (year month day hour minute second : ℕ)
    → year < 10000
    → 1 ≤ month
    → month ≤ 12
    → 1 ≤ day
    → day ≤ days_in_month year month
    → day < 100
    → hour < 24
    → minute < 60
    → second < 60
    → parse is_representable (written year month day hour minute second)
      ≡ ok_or
          (epoch is_representable (moment year month day hour minute second))
          TimestampError.unrepresentable
unfolding parse written slice after moment
parse-written is_representable y mo d h mi s a b c e f g i j k =
    rw
      (
        written_ascii y mo d h mi s a (omega (arith, c)) g (omega (arith, i)) (omega (arith, j))
            (omega (arith, k)),
        number-four y a,
        number-two mo (omega (arith, c)),
        number-two d g,
        number-two h (omega (arith, i)),
        number-two mi (omega (arith, j)),
        number-two s (omega (arith, k)),
        offset-z,
        checked-ok Field.month_field mo 1 12 b c,
        checked-ok Field.day_field d 1 (days_in_month y mo) e f,
        checked-ok Field.hour_field h 0 23 (omega arith) (omega (arith, i)),
        checked-ok Field.minute_field mi 0 59 (omega arith) (omega (arith, j)),
        checked-ok Field.second_field s 0 60 (omega arith) (omega (arith, k)),
      )
      refl

-- Up to the last day of the year 9999.
year-bounds :
    (n : ℕ) → n ≤ 2932896 → let d = civil_from_days n in (1000 ≤ d.year) × (d.year < 10000)
unfolding civil_from_days
year-bounds n h =
    let shifted : ℕ = n + 719468 in
    let era : ℕ = shifted / 146097 in
    let of_era : ℕ = shifted - era * 146097 in
    let y : ℕ = year_of_era_in of_era in
    let (most, start, room) = year_of_era-bounds of_era (omega arith) in
    small n era of_era y h (omega arith) (omega arith) most start
  where
    small :
        (n era of_era y : ℕ)
        → n ≤ 2932896
        → n + 719468 ≡ era * 146097 + of_era
        → of_era ≤ 146096
        → y ≤ 399
        → year_start y ≤ of_era
        → let sm = (5 * (of_era - year_start y) + 2) / 153 in
          let month = if ltb sm 10 then sm + 3 else sm - 9 in
          let year = y + era * 400 + (if leb month 2 then 1 else 0) in
          (1000 ≤ year) × (year < 10000)
    small n era of_era y h e b most start =
        let sm : ℕ = (5 * (of_era - year_start y) + 2) / 153 in
        elim (Bool-cases (ltb sm 10)) [
          | inl early ↦ ground (arith, h, e, b, most, start, early)
          | inr late ↦ ground (arith, h, e, b, most, start, late)
        ]

moment-pos :
    (n within : ℕ)
    → let d = civil_from_days n in
      moment d.year d.month d.day (within / 3600) (within / 60 % 60) (within % 60)
      ≡ pos (n * 86400 + within)
unfolding moment ◌+ℤ◌ ◌-ℤ◌
moment-pos n within = rw (days_from_civil-civil n) (ground arith)

format-written :
    (year month day hour minute second : ℕ)
    → 1000 ≤ year
    → year < 10000
    → month < 100
    → day < 100
    → hour < 100
    → minute < 100
    → second < 100
    → padded 4 year
        ++ 45 ∷ padded 2 month
        ++ 45 ∷ padded 2 day
        ++ 84 ∷ padded 2 hour
        ++ 58 ∷ padded 2 minute
        ++ 58 ∷ padded 2 second
        ++ 90 ∷ []
      ≡ written year month day hour minute second
unfolding written
format-written y mo d h mi s a b c e f g i =
    rw
      (
        padded-four y a b,
        padded-two mo c,
        padded-two d e,
        padded-two h f,
        padded-two mi g,
        padded-two s i,
      )
      refl

days_in_month-bounds : (year month : ℕ) → days_in_month year month ≤ 31
unfolding days_in_month
days_in_month-bounds year month = ground arith

written_moment :
    (is_representable : ℤ → Bool) (moment_written : ℤ) (seconds : ℕ)
    → pos_part moment_written / second_nanos ≡ seconds
    → seconds < 253402300800
    → is_representable (pos (seconds * second_nanos)) ≡ true
    → parse is_representable (rfc3339 moment_written) ≡ ok (pos (seconds * second_nanos))
unfolding rfc3339 civil epoch
written_moment is_representable at_moment t whole_seconds h r =
    let n : ℕ = t / day_seconds in
    let within : ℕ = t % day_seconds in
    let d : Date = civil_from_days n in
    let (first, last, begun, enough) = civil_from_days-exists n in
    let (thousand, small) = year-bounds n (omega (arith, h)) in
    let short = days_in_month-bounds d.year d.month in
    let whole : n * 86400 + within ≡ t = omega arith in
    let text =
      format-written d.year d.month d.day (within / 3600) (within / 60 % 60) (within % 60) thousand
        small (omega (arith, last)) (omega (arith, enough, short)) (omega arith) (omega arith)
        (omega arith) in
    let read =
      parse-written is_representable d.year d.month d.day (within / 3600) (within / 60 % 60)
        (within % 60) small first last begun enough (omega (arith, enough, short)) (omega arith)
        (omega arith) (omega arith) in
    rw whole_seconds (
      ap (parse is_representable) text
      ∙ read
      ∙ ap (λ m. ok_or (epoch is_representable m) TimestampError.unrepresentable)
          (moment-pos n within ∙ ap pos whole)
      ∙ rw (epoch, r) refl)

-- A moment before the end of the year 9999, of any fraction of a second, is read back from the text
-- of RFC 3339 that it is written as with the fraction dropped, if the platform's clock holds that
-- second; and the epoch is read back for a moment before it.
pub parse-rfc3339 :
    (is_representable : ℤ → Bool) (at_moment : ℤ)
    → pos_part at_moment < 253402300800 * second_nanos
    → is_representable (pos (pos_part at_moment / second_nanos * second_nanos)) ≡ true
    → parse is_representable (rfc3339 at_moment)
      ≡ ok (pos (pos_part at_moment / second_nanos * second_nanos))
parse-rfc3339 is_representable at_moment h r =
    written_moment is_representable at_moment (pos_part at_moment / second_nanos) refl
      (omega (arith, h)) r
