-- ===== src/Session/GameIds.antt =====
-- src/session/matchmaker.rs: the identifiers of games. A text is its code points; `parse` is that of the
-- standard library's unsigned integers, which takes one `+` in front of the digits.
pub mod Minting
use tabia_shogi_server.Common.Text.{Text}
use tabia_shogi_server.Common.{
  ℕ, ◌-◌, ◌^◌, Bool, true, false, not, ◌&&◌, Option, none, some, List, [], ◌∷◌, ◌++◌, leb, ltb,
  ◌==◌, if◌then◌else◌, all,
}
use tabia_shogi_server.Stamp.{digits}
use tabia_shogi_server.Config.Timestamp.{is_digit, number_from}

-- `{n}` of a `u64`, which has at most twenty digits.
unfoldable pub decimal : ℕ → Text
decimal n = digits 20 n []

-- `-tabia-`
abbrev pub tabia : Text
tabia = 45 ∷ 116 ∷ 97 ∷ 98 ∷ 105 ∷ 97 ∷ 45 ∷ []

unfoldable pub game_id_prefix : Text → Text
game_id_prefix date = date ++ tabia

unfoldable pub mint_game_id : Text → ℕ → ℕ → Text
mint_game_id date round seq = game_id_prefix date ++ (decimal round ++ 45 ∷ decimal seq)

-- `strip_prefix`
unfoldable pub strip_prefix : Text → Text → Option Text
strip_prefix [] t = some t
strip_prefix (c ∷ p) [] = none
strip_prefix (c ∷ p) (d ∷ t) = let rest = strip_prefix p t in if c == d then rest else none

-- `split_once('-')`, the two halves
abbrev pub with_first : ℕ → Option (Text × Text) → Option (Text × Text)
with_first c none = none
with_first c (some (first, second)) = some (c ∷ first, second)

unfoldable pub split_once : Text → Option (Text × Text)
split_once [] = none
split_once (c ∷ t) = let rest = split_once t in if c == 45 then some ([], t) else with_first c rest

-- The digits as a number, if there are some and it fits 64 bits.
unfoldable pub parse_digits : Text → Option ℕ
parse_digits [] = none
parse_digits (c ∷ t) =
    if all is_digit (c ∷ t) && ltb (number_from 0 (c ∷ t)) (2 ^ 64)
    then some (number_from 0 (c ∷ t))
    else none

unfoldable pub parse_u64 : Text → Option ℕ
parse_u64 [] = none
parse_u64 (c ∷ t) = if c == 43 then parse_digits t else parse_digits (c ∷ t)

-- The two fields read, of which the first is the answer.
abbrev pub round_from : Option (Text × Text) → Option ℕ
round_from none = none
round_from (some (round, seq)) = elim (parse_u64 seq) [ none ↦ none | some _ ↦ parse_u64 round ]

abbrev pub split_rest : Option Text → Option (Text × Text)
split_rest none = none
split_rest (some rest) = split_once rest

unfoldable pub round_of : Text → Text → Option ℕ
round_of game_id date = round_from (split_rest (strip_prefix (game_id_prefix date) game_id))
