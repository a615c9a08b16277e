-- ===== src/Config/Timestamp/Days.antt =====
-- src/config/timestamp.rs: its calendar inverts that of src/stamp.rs.
use tabia_shogi_server.Common.Int.{pos, ◌+ℤ◌, sub_ℕ}
use tabia_shogi_server.Common.Signed.{◌-ℤ◌}
use tabia_shogi_server.Common.{
  ℕ, zero, suc, ◌+◌, ◌-◌, ◌*◌, ◌/◌, ◌%◌, ◌≤◌, true, false, leb, ltb, ◌==◌, if◌then◌else◌, ◌≡◌, refl,
  ap, ◌∙◌, arith, inl, inr, Bool-cases,
}
use tabia_shogi_server.Stamp.{year_of_era_in, civil_from_days}
use tabia_shogi_server.Stamp.Calendar.{year_start, year_of_era-bounds, year_of_era-leap}
use tabia_shogi_server.Config.Timestamp.{days_from_civil, days_from_shifted, days_in_month, is_leap}

-- Of a year from the epoch's era on, the days are those of its eras, its year and its month.
days_from_shifted-pos :
    (era y sm day : ℕ)
    → y ≤ 399
    → days_from_shifted (pos (y + era * 400)) sm day
      ≡ sub_ℕ (era * 146097 + (y * 365 + y / 4 - y / 100 + ((153 * sm + 2) / 5 + day - 1))) 719468
unfolding days_from_shifted ◌-ℤ◌ ◌+ℤ◌
days_from_shifted-pos era y sm day hy =
    let e₁ : (y + era * 400) / 400 ≡ era = omega (arith, hy) in rw e₁ (ground (arith, hy))

-- The year and month from March on, and those of the calendar.
days_from_civil-shifted :
    (y sm month day : ℕ)
    → sm ≤ 11
    → month ≡ (if ltb sm 10 then sm + 3 else sm - 9)
    → days_from_civil (pos (y + (if leb month 2 then 1 else 0))) month day
      ≡ days_from_shifted (pos y) sm day
unfolding days_from_civil ◌-ℤ◌
days_from_civil-shifted y sm month day hs e = elim (Bool-cases (leb month 2)) [
  | inl early ↦
      let e₁ : month + 9 ≡ sm = ground (arith, e, early, hs) in
      let e₂ : ltb 2 month ≡ false = ground (arith, early) in
      let e₃ : (pos (y + 1) -ℤ pos 1) ≡ pos y = ground arith in rw (early, e₂, e₁, e₃) refl
  | inr late ↦
      let e₁ : month - 3 ≡ sm = ground (arith, e, late, hs) in
      let e₂ : ltb 2 month ≡ true = ground (arith, late) in
      let e₃ : y + 0 ≡ y = omega arith in rw (late, e₂, e₁, e₃) refl
]

sub-add : (n k : ℕ) → sub_ℕ (n + k) k ≡ pos n
sub-add n k = ground arith

-- The day of the year is the sum that the month and the day split it into.
recovered :
    (n era of_era y : ℕ)
    → year_start y ≤ of_era
    → n + 719468 ≡ era * 146097 + of_era
    → let doy = of_era - year_start y in
      let sm = (5 * doy + 2) / 153 in
      sub_ℕ
        (era * 146097
          + (y * 365 + y / 4 - y / 100 + ((153 * sm + 2) / 5 + (doy - (153 * sm + 2) / 5 + 1) - 1)))
        719468
      ≡ pos n
recovered n era of_era y start h =
    let doy : ℕ = of_era - year_start y in
    let sm : ℕ = (5 * doy + 2) / 153 in
    let e : era * 146097
          + (y * 365 + y / 4 - y / 100 + ((153 * sm + 2) / 5 + (doy - (153 * sm + 2) / 5 + 1) - 1))
        ≡ n + 719468 =
      omega (arith, start, h) in
    ap (λ m. sub_ℕ m 719468) e ∙ sub-add n 719468

-- The day that a date stands for is the one that it was made of.
pub days_from_civil-civil :
    (n : ℕ) → let d = civil_from_days n in days_from_civil (pos d.year) d.month d.day ≡ pos n
unfolding civil_from_days
days_from_civil-civil n =
    let shifted : ℕ = n + 719468 in
    let era : ℕ = shifted / 146097 in
    let of_era : ℕ = shifted - era * 146097 in
    let y : ℕ = year_of_era_in of_era in
    let (most, start, room) = year_of_era-bounds of_era (omega arith) in
    let doy : ℕ = of_era - year_start y in
    let sm : ℕ = (5 * doy + 2) / 153 in
    days_from_civil-shifted (y + era * 400) sm (if ltb sm 10 then sm + 3 else sm - 9)
      (doy - (153 * sm + 2) / 5 + 1) (omega (arith, room)) refl
    ∙ days_from_shifted-pos era y sm (doy - (153 * sm + 2) / 5 + 1) most
    ∙ recovered n era of_era y start (omega arith)

-- The days of a month counted from March on, but for February's.
month_days :
    (year sm doy : ℕ)
    → sm ≡ (5 * doy + 2) / 153
    → doy ≤ 365
    → (doy ≡ 365 → is_leap year ≡ true)
    → let month = if ltb sm 10 then sm + 3 else sm - 9 in
      (1 ≤ month) × (month ≤ 12) × (doy - (153 * sm + 2) / 5 + 1 ≤ days_in_month year month)
unfolding days_in_month
month_days year zero doy e h leap = ground (arith, e, h)
month_days year (suc zero) doy e h leap = ground (arith, e, h)
month_days year (suc (suc zero)) doy e h leap = ground (arith, e, h)
month_days year (suc (suc (suc zero))) doy e h leap = ground (arith, e, h)
month_days year (suc (suc (suc (suc zero)))) doy e h leap = ground (arith, e, h)
month_days year (suc (suc (suc (suc (suc zero))))) doy e h leap = ground (arith, e, h)
month_days year (suc (suc (suc (suc (suc (suc zero)))))) doy e h leap = ground (arith, e, h)
month_days year (suc (suc (suc (suc (suc (suc (suc zero))))))) doy e h leap = ground (arith, e, h)
month_days year (suc (suc (suc (suc (suc (suc (suc (suc zero)))))))) doy e h leap =
    ground (arith, e, h)
month_days year (suc (suc (suc (suc (suc (suc (suc (suc (suc zero))))))))) doy e h leap =
    ground (arith, e, h)
month_days year (suc (suc (suc (suc (suc (suc (suc (suc (suc (suc zero)))))))))) doy e h leap =
    ground (arith, e, h)
month_days year (suc (suc (suc (suc (suc (suc (suc (suc (suc (suc (suc zero))))))))))) doy e h
      leap =
    elim (Bool-cases (doy == 365)) [
      | inl last ↦ ground (arith, e, h, leap (ground (arith, last)))
      | inr earlier ↦ ground (arith, e, h, earlier)
    ]
month_days year (suc (suc (suc (suc (suc (suc (suc (suc (suc (suc (suc (suc n)))))))))))) doy e h
      leap =
    absurd (omega (arith, e, h))

leap_of_era :
    (d era : ℕ)
    → d ≤ 146096
    → let y = year_of_era_in d in d - year_start y ≡ 365 → is_leap (y + era * 400 + 1) ≡ true
unfolding is_leap
leap_of_era d era h e =
    let (most, start, room) = year_of_era-bounds d h in
    let (fourth, century) = year_of_era-leap d h (omega (arith, e, start)) in
    let f₁ : (year_of_era_in d + era * 400 + 1) % 4 ≡ 0 = omega (arith, fourth) in
    let f₂ : (year_of_era_in d + era * 400 + 1) % 100 ≡ 0
        → (year_of_era_in d + era * 400 + 1) % 400 ≡ 0 =
      λ f. omega (arith, century (omega (arith, f))) in
    elim (Bool-cases ((year_of_era_in d + era * 400 + 1) % 100 == 0)) [
      | inl hundred ↦ ground (arith, f₁, hundred, f₂ (ground (arith, hundred)))
      | inr other ↦ ground (arith, f₁, other)
    ]

-- A date that the calendar gives exists.
pub civil_from_days-exists :
    (n : ℕ)
    → let d = civil_from_days n in
      (1 ≤ d.month) × (d.month ≤ 12) × (1 ≤ d.day) × (d.day ≤ days_in_month d.year d.month)
unfolding civil_from_days
civil_from_days-exists n =
    let shifted : ℕ = n + 719468 in
    let era : ℕ = shifted / 146097 in
    let of_era : ℕ = shifted - era * 146097 in
    let y : ℕ = year_of_era_in of_era in
    let doy : ℕ = of_era - year_start y in
    let sm : ℕ = (5 * doy + 2) / 153 in
    let month : ℕ = if ltb sm 10 then sm + 3 else sm - 9 in
    let year : ℕ = y + era * 400 + (if leb month 2 then 1 else 0) in
    let below : of_era ≤ 146096 = omega arith in
    let (most, start, room) = year_of_era-bounds of_era below in
    let (first, last, enough) = month_days year sm doy refl (omega (arith, room)) (λ e.
      leap_year year month sm (y + era * 400) doy e refl refl refl
        (leap_of_era of_era era below e)) in
    (first, last, omega arith, enough)
  where
    leap_year :
        (year month sm base doy : ℕ)
        → doy ≡ 365
        → sm ≡ (5 * doy + 2) / 153
        → month ≡ (if ltb sm 10 then sm + 3 else sm - 9)
        → year ≡ base + (if leb month 2 then 1 else 0)
        → is_leap (base + 1) ≡ true
        → is_leap year ≡ true
    leap_year year month sm base doy e f g i leap =
        let at_11 : sm ≡ 11 = omega (arith, e, f) in
        let at_2 : month ≡ 2 = ground (arith, g, at_11) in
        let next : year ≡ base + 1 = ground (arith, i, at_2) in rw next leap
