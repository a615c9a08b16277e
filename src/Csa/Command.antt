-- ===== src/Csa/Command.antt =====
-- src/csa/command.rs: client lines as commands. A line is its characters; the lengths that the source
-- counts in bytes are those of texts that must be ASCII.
pub mod Fields
pub mod Login
use tabia_shogi_server.Common.Text.{Text, same_text}
use tabia_shogi_server.Common.{
  ℕ, Bool, true, false, not, ◌&&◌, ◌||◌, Option, none, some, List, [], ◌∷◌, leb, ◌==◌,
  if◌then◌else◌, length, any, all, Result, ok, err,
}

abbrev pub max_engine_name_len : ℕ
max_engine_name_len = 1024

abbrev pub max_token_len : ℕ
max_token_len = 64

pub record Commented : Type 0 where
  pub command : Text
  pub comment : Option Text

-- What stands before the first `'`, and what from it on.
unfoldable pub before_comment : Text → Text
before_comment [] = []
before_comment (c ∷ t) = let rest = before_comment t in if c == 39 then [] else c ∷ rest

unfoldable pub comment_of : Text → Option Text
comment_of [] = none
comment_of (c ∷ t) = let rest = comment_of t in if c == 39 then some (c ∷ t) else rest

-- `strip_suffix(',')`, where there is one
unfoldable pub without_comma : Text → Text
without_comma [] = []
without_comma (c ∷ []) = if c == 44 then [] else c ∷ []
without_comma (c ∷ d ∷ t) = c ∷ without_comma (d ∷ t)

unfoldable pub split_comment : Text → Commented
unfolding before_comment comment_of without_comma
split_comment line = elim (comment_of line) [
  | none ↦ record { command = line; comment = none }
  | some comment ↦ record { command = without_comma (before_comment line); comment = some comment }
]

pub data Command : Type 0 where
  login : (name token : Text) → Command
  logout : Command
  agree reject : Option Text → Command
  move extension : Text → Command
  resign declare_win suspend whitespace : Command
  keep_alive : Bool → Command

pub data LoginRejection : Type 0 where
  arity bad_name : LoginRejection
  bad_token : Text → LoginRejection

pub data Unparsed : Type 0 where
  login_rejected : LoginRejection → Unparsed
  unknown : Text → Unparsed

abbrev is_space : ℕ → Bool
is_space c = c == 32 || c == 9 || c == 13 || c == 10 || c == 11 || c == 12

unfoldable pub is_blank : Text → Bool
unfolding all
is_blank line = all is_space line

-- `starts_with`, the prefix first
unfoldable pub starts_with : Text → Text → Bool
starts_with [] t = true
starts_with (c ∷ p) [] = false
starts_with (c ∷ p) (d ∷ t) = let rest = starts_with p t in c == d && rest

-- `split_once(' ')`: the keyword, and the argument if there is a space.
unfoldable pub keyword_of : Text → Text
keyword_of [] = []
keyword_of (c ∷ t) = let rest = keyword_of t in if c == 32 then [] else c ∷ rest

unfoldable pub argument_of : Text → Option Text
argument_of [] = none
argument_of (c ∷ t) = let rest = argument_of t in if c == 32 then some t else rest

-- `split(' ')`
abbrev pub onto_first : ℕ → List Text → List Text
onto_first c [] = (c ∷ []) ∷ []
onto_first c (f ∷ fs) = (c ∷ f) ∷ fs

unfoldable pub fields_of : Text → List Text
fields_of [] = [] ∷ []
fields_of (c ∷ t) = let rest = fields_of t in if c == 32 then [] ∷ rest else onto_first c rest

abbrev pub is_name_char : ℕ → Bool
is_name_char c =
    leb 48 c && leb c 57
    || leb 65 c && leb c 90
    || leb 97 c && leb c 122
    || c == 95
    || c == 64
    || c == 45
    || c == 46

abbrev is_empty : Text → Bool
is_empty [] = true
is_empty (c ∷ t) = false

unfoldable pub is_engine_name : Text → Bool
unfolding all
is_engine_name field =
    not (is_empty field) && leb (length field) max_engine_name_len && all is_name_char field

abbrev pub is_token_char : ℕ → Bool
is_token_char c = leb 33 c && leb c 126

unfoldable pub is_token : Text → Bool
unfolding all
is_token field = not (is_empty field) && leb (length field) max_token_len && all is_token_char field

-- The words of the protocol.
abbrev pub login_word : Text
login_word = 76 ∷ 79 ∷ 71 ∷ 73 ∷ 78 ∷ []

abbrev pub agree_word : Text
agree_word = 65 ∷ 71 ∷ 82 ∷ 69 ∷ 69 ∷ []

abbrev pub reject_word : Text
reject_word = 82 ∷ 69 ∷ 74 ∷ 69 ∷ 67 ∷ 84 ∷ []

abbrev pub logout_word : Text
logout_word = 76 ∷ 79 ∷ 71 ∷ 79 ∷ 85 ∷ 84 ∷ []

abbrev pub toryo_word : Text
toryo_word = 37 ∷ 84 ∷ 79 ∷ 82 ∷ 89 ∷ 79 ∷ []

abbrev pub kachi_word : Text
kachi_word = 37 ∷ 75 ∷ 65 ∷ 67 ∷ 72 ∷ 73 ∷ []

abbrev pub chudan_word : Text
chudan_word = 37 ∷ 67 ∷ 72 ∷ 85 ∷ 68 ∷ 65 ∷ 78 ∷ []

-- The checks of a name and a token in three fields.
unfoldable pub login_with : Text → Text → Result Unparsed Command
login_with name token =
    if not (is_engine_name name)
    then err (Unparsed.login_rejected LoginRejection.bad_name)
    else if not (is_token token)
    then err (Unparsed.login_rejected (LoginRejection.bad_token name))
    else ok (Command.login name token)

unfoldable pub login_from : List Text → Result Unparsed Command
login_from (word ∷ name ∷ token ∷ []) =
    if same_text word login_word
    then login_with name token
    else err (Unparsed.login_rejected LoginRejection.arity)
login_from _ = err (Unparsed.login_rejected LoginRejection.arity)

unfoldable pub parse_login : Text → Result Unparsed Command
parse_login line = login_from (fields_of line)

-- AGREE and REJECT, as whether it is the first.
unfoldable pub with_game_id : Bool → Text → Option Text → Result Unparsed Command
unfolding any
with_game_id agreed line none = ok (if agreed then Command.agree none else Command.reject none)
with_game_id agreed line (some id) =
    if is_empty id || any (λ c. c == 32) id
    then err (Unparsed.unknown line)
    else ok (if agreed then Command.agree (some id) else Command.reject (some id))

unfoldable pub by_keyword : Text → Text → Option Text → Result Unparsed Command
by_keyword line keyword argument =
    if same_text keyword login_word
    then parse_login line
    else if same_text keyword agree_word
    then with_game_id true line argument
    else if same_text keyword reject_word
    then with_game_id false line argument
    else err (Unparsed.unknown line)

-- The lines that are told before their first word is.
unfoldable pub recognized : Text → Option Command
recognized line =
    if is_empty line
    then some (Command.keep_alive true)
    else if same_text line (32 ∷ [])
    then some (Command.keep_alive false)
    else if is_blank line
    then some Command.whitespace
    else if starts_with (43 ∷ []) line || starts_with (45 ∷ []) line
    then some (Command.move line)
    else if starts_with (37 ∷ 37 ∷ []) line
    then some (Command.extension line)
    else if same_text line toryo_word
    then some Command.resign
    else if same_text line kachi_word
    then some Command.declare_win
    else if same_text line chudan_word
    then some Command.suspend
    else if same_text line logout_word
    then some Command.logout
    else none

unfoldable pub parse : Text → Result Unparsed Command
parse line = elim (recognized line) [
  | some command ↦ ok command
  | none ↦ by_keyword line (keyword_of line) (argument_of line)
]
