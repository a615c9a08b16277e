-- ===== src/Csa/CommandTests.antt =====
-- Client lines and their framing, and the witnesses of the theorems about them.
use tabia_shogi_server.Common.Text.{Text, same_text}
use tabia_shogi_server.Common.{
  ℕ, arith, List, Bool, false, ◌++◌, ◌==◌, true, none, some, [], ◌∷◌, all, any, ok, err, ◌≡◌, ◌↔◌,
  refl,
}
use tabia_shogi_server.Config.PresetEngines.{unusable}
use tabia_shogi_server.Csa.Command.{
  Command, Unparsed, LoginRejection, parse, recognized, is_blank, starts_with, keyword_of,
  argument_of, by_keyword, parse_login, fields_of, login_from, is_engine_name, is_token,
  with_game_id, split_comment,
}
use tabia_shogi_server.Csa.Codec.{
  read_line, write_line, line_in, checked_line, strip_suffix, without_return,
}
use tabia_shogi_server.Csa.Codec.Held.{held, held_until}
use tabia_shogi_server.Csa.Codec.Framing.{read_line-write_line}
use tabia_shogi_server.Csa.Command.Login.{login_line, parse-login_iff, usable-presented}

abbrev engine : Text
engine = 101 ∷ 49 ∷ []

abbrev secret : Text
secret = 115 ∷ 33 ∷ []

-- AGREE with an identifier, and LOGIN without a token.
agreed_id : parse (65 ∷ 71 ∷ 82 ∷ 69 ∷ 69 ∷ 32 ∷ 55 ∷ []) ≡ ok (Command.agree (some (55 ∷ [])))
unfolding parse recognized same_text is_blank all any starts_with keyword_of argument_of by_keyword
    with_game_id
agreed_id = refl

short_login :
    parse (76 ∷ 79 ∷ 71 ∷ 73 ∷ 78 ∷ 32 ∷ 55 ∷ [])
    ≡ err (Unparsed.login_rejected LoginRejection.arity)
unfolding parse recognized same_text is_blank all starts_with keyword_of argument_of by_keyword
    parse_login fields_of login_from
short_login = refl

-- A move with a comment and its comma.
commented : (split_comment (43 ∷ 55 ∷ 44 ∷ 39 ∷ 42 ∷ [])).command ≡ 43 ∷ 55 ∷ []
unfolding split_comment
commented = refl

parse-login_iff_example : (parse (login_line engine secret) ≡ ok (Command.login engine secret)) ↔ (
    (login_line engine secret ≡ login_line engine secret)
    × (is_engine_name engine ≡ true)
    × (is_token secret ≡ true))
parse-login_iff_example = parse-login_iff (login_line engine secret) engine secret

engine_named : is_engine_name engine ≡ true
unfolding is_engine_name
engine_named = refl

secret_usable : unusable secret ≡ none
unfolding unusable
secret_usable = refl

usable-presented_example :
    parse (split_comment (login_line engine secret)).command ≡ ok (Command.login engine secret)
usable-presented_example = usable-presented engine secret secret_usable engine_named

abbrev any_bytes : List ℕ → Bool
any_bytes _ = true

-- A line that ends in both terminators, and the next one.
both_ended : read_line held any_bytes (55 ∷ 13 ∷ 10 ∷ 56 ∷ []) ≡ (ok (some (55 ∷ [])), 56 ∷ [])
unfolding read_line held_until line_in checked_line strip_suffix without_return
both_ended = refl

engine_plain : any (λ b. b == 10) engine ≡ false
unfolding any
engine_plain = refl

engine_unended : strip_suffix 13 engine ≡ none
unfolding strip_suffix
engine_unended = refl

read_line-write_line_example :
    read_line held any_bytes (write_line [] engine ++ secret) ≡ (ok (some engine), secret)
read_line-write_line_example =
    read_line-write_line held any_bytes engine secret (ground arith) engine_plain engine_unended
      refl
