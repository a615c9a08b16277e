-- ===== src/Config/Tests.antt =====
-- The configuration at concrete inputs, and the witnesses of the theorems about it.
use tabia_shogi_server.Common.Int.{ℤ, pos}
use tabia_shogi_server.Common.Text.{Text, same_text}
use tabia_shogi_server.Common.{ℕ, Bool, true, some, [], ◌∷◌, ok, err, ◌≡◌, ◌↔◌, refl, arith}
use tabia_shogi_server.Config.PresetEngines.{
  PresetEngine, Fault, deserialize, before, get, designates,
}
use tabia_shogi_server.Config.PresetEngines.Example.{house, guest, residents, residents_load}
use tabia_shogi_server.Config.PresetEngines.Entries.{IsEntry}
use tabia_shogi_server.Config.PresetEngines.Loading.{deserialize_iff, designates_iff}
use tabia_shogi_server.Config.Timestamp.{
  parse, slice, after, number, offset, checked, days_in_month, days_from_civil, days_from_shifted,
  epoch,
}
use tabia_shogi_server.Config.Timestamp.RoundTrip.{parse-rfc3339}
use tabia_shogi_server.Stamp.{rfc3339}

repeated_token : deserialize (house ∷ house ∷ []) ≡ err (2, Fault.repeats 1)
unfolding deserialize same_text
repeated_token = refl

deserialize_iff_example :
    (deserialize residents ≡ ok residents)
    ↔ ((k : ℕ) (p : PresetEngine) → get residents k ≡ some p → IsEntry (before k residents) p)
deserialize_iff_example = deserialize_iff residents

designates_iff_example :
    (designates residents guest.token ≡ some 1)
    ↔ ((p : PresetEngine) × (get residents 1 ≡ some p) × (p.token ≡ guest.token))
designates_iff_example = designates_iff residents residents guest.token 1 residents_load

abbrev any_moment : ℤ → Bool
any_moment _ = true

-- 2026-11-14T09:00:00+09:00
abbrev november : Text
november =
    50 ∷ 48 ∷ 50 ∷ 54 ∷ 45 ∷ 49 ∷ 49 ∷ 45 ∷ 49 ∷ 52 ∷ 84 ∷ 48 ∷ 57 ∷ 58 ∷ 48 ∷ 48 ∷ 58 ∷ 48 ∷ 48
    ∷ 43 ∷ 48 ∷ 57 ∷ 58 ∷ 48 ∷ 48 ∷ []

november_read : parse any_moment november ≡ ok (pos 1794614400000000000)
unfolding parse slice after number offset checked days_in_month days_from_civil days_from_shifted
    epoch
november_read = refl

-- Half a second after a whole one.
parse-rfc3339_example :
    parse any_moment (rfc3339 (pos 1787142896500000000)) ≡ ok (pos 1787142896000000000)
parse-rfc3339_example = parse-rfc3339 any_moment (pos 1787142896500000000) (ground arith) refl
