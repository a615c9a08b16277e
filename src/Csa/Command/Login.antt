-- ===== src/Csa/Command/Login.antt =====
-- src/csa/command.rs: which lines are logins, and which tokens can be presented.
use tabia_shogi_server.Common.Text.{Text, same_text, same_text_elim}
use tabia_shogi_server.Common.{
  ℕ, Bool, true, false, Option, none, some, List, [], ◌∷◌, ◌++◌, ◌==◌, any, all, ok, ◌≡◌, ◌≢◌, ◌↔◌,
  refl, sym, ap, ◌∙◌, arith, inl, inr, Bool-cases, Option-cases,
}
use tabia_shogi_server.Csa.Command.{
  Command, is_blank, starts_with, keyword_of, argument_of, fields_of, is_engine_name, is_name_char,
  is_token, is_token_char, login_word, login_with, login_from, recognized, parse_login,
  with_game_id, by_keyword, parse, split_comment, comment_of,
}
use tabia_shogi_server.Csa.Command.Fields.{joined, joined-fields_of, fields_of-one, fields_of-cons}
use tabia_shogi_server.Config.PresetEngines.{unusable}

-- The line of a login.
unfoldable pub login_line : Text → Text → Text
login_line name token = login_word ++ 32 ∷ name ++ 32 ∷ token

all_excludes :
    (f g : ℕ → Bool) (t : Text)
    → ((c : ℕ) → f c ≡ true → g c ≡ false)
    → all f t ≡ true
    → any g t ≡ false
unfolding all any
all_excludes f g [] h e = refl
all_excludes f g (c ∷ t) h e =
    let rest : any g t ≡ false = all_excludes f g t h (ground (arith, e)) in
    ground (arith, h c (ground (arith, e)), rest)

name_spaceless : (name : Text) → is_engine_name name ≡ true → any (λ c. c == 32) name ≡ false
unfolding is_engine_name
name_spaceless name h =
    all_excludes is_name_char (λ c. c == 32) name (λ c k. ground (arith, k)) (ground (arith, h))

token_spaceless : (token : Text) → is_token token ≡ true → any (λ c. c == 32) token ≡ false
unfolding is_token
token_spaceless token h =
    all_excludes is_token_char (λ c. c == 32) token (λ c k. ground (arith, k)) (ground (arith, h))

login_with_iff :
    (n m name token : Text)
    → (login_with n m ≡ ok (Command.login name token))
    → (n ≡ name) × (m ≡ token) × (is_engine_name name ≡ true) × (is_token token ≡ true)
unfolding login_with
login_with_iff n m name token h = ground (arith, h)

login_from-eq :
    (fs : List Text) (name token : Text)
    → login_from fs ≡ ok (Command.login name token)
    → (fs ≡ login_word ∷ name ∷ token ∷ []) × (is_engine_name name ≡ true) × (is_token token ≡ true)
unfolding login_from
login_from-eq [] name token h = ground (arith, h)
login_from-eq (a ∷ []) name token h = ground (arith, h)
login_from-eq (a ∷ b ∷ []) name token h = ground (arith, h)
login_from-eq (a ∷ b ∷ c ∷ []) name token h = elim (Bool-cases (same_text a login_word)) [
  | inl word ↦
      let (e, f, g, i) = login_with_iff b c name token (ground (arith, h, word)) in
      let w : a ≡ login_word = same_text_elim a login_word word in (rw (w, e, f) refl, g, i)
  | inr other ↦ ground (arith, h, other)
]
login_from-eq (a ∷ b ∷ c ∷ d ∷ fs) name token h = ground (arith, h)

with_game_id-agree :
    (b : Bool) (line : Text) (o : Option Text) (name token : Text)
    → with_game_id b line o ≢ ok (Command.login name token)
unfolding with_game_id
with_game_id-agree b line none name token h = ground (arith, h)
with_game_id-agree b line (some id) name token h = ground (arith, h)

recognized_none : (line name token : Text) → recognized line ≢ some (Command.login name token)
unfolding recognized
recognized_none line name token h = ground (arith, h)

by_keyword-login :
    (line keyword name token : Text) (argument : Option Text)
    → by_keyword line keyword argument ≡ ok (Command.login name token)
    → parse_login line ≡ ok (Command.login name token)
unfolding by_keyword
by_keyword-login line keyword name token argument h = ground (
  arith,
  h,
  with_game_id-agree true line argument name token,
  with_game_id-agree false line argument name token,
)

parse_login_of :
    (line name token : Text)
    → parse line ≡ ok (Command.login name token)
    → parse_login line ≡ ok (Command.login name token)
unfolding parse
parse_login_of line name token h = elim (Option-cases (recognized line)) [
  | inl other ↦
      by_keyword-login line (keyword_of line) name token (argument_of line) (rw (parse, other) at h)
  | inr (c, e) ↦
      let c_login : c ≡ Command.login name token = ground (arith, rw (parse, e) at h) in
      absurd (recognized_none line name token (e ∙ ap some c_login))
]

parse-login_line :
    (name token : Text)
    → is_engine_name name ≡ true
    → is_token token ≡ true
    → parse (login_line name token) ≡ ok (Command.login name token)
unfolding login_line parse recognized same_text starts_with is_blank all keyword_of by_keyword
    parse_login login_from login_with
parse-login_line name token h k =
    let spaceless : any (λ c. c == 32) login_word ≡ false = unfold any in refl in
    let fields : fields_of (login_word ++ 32 ∷ name ++ 32 ∷ token)
        ≡ login_word ∷ name ∷ token ∷ [] =
      fields_of-cons login_word (name ++ 32 ∷ token) spaceless
      ∙ ap (λ fs. login_word ∷ fs)
          (fields_of-cons name token (name_spaceless name h)
            ∙ ap (λ fs. name ∷ fs) (fields_of-one token (token_spaceless token k))) in
    rw (parse_login, fields, login_with, h, k) refl

-- A line is read as a login exactly if it is the word LOGIN, an engine name and a token with single
-- spaces between, of which the name has 1 to 1024 characters of the name's set and the token 1 to 64
-- printable ASCII characters other than the space; and then with that name and token.
pub parse-login_iff :
    (line name token : Text)
    → (parse line ≡ ok (Command.login name token))
      ↔ ((line ≡ login_line name token) × (is_engine_name name ≡ true) × (is_token token ≡ true))
unfolding login_line
parse-login_iff line name token = (
  λ h.
      let (fields, named, good) =
        login_from-eq (fields_of line) name token
          (unfold parse_login in parse_login_of line name token h) in
      (sym (joined-fields_of line) ∙ ap joined fields ∙ unfold joined in refl, named, good),
  λ (e, named, good). rw e (parse-login_line name token named good),
)

comment_of-none : (t : Text) → any (λ c. c == 39) t ≡ false → comment_of t ≡ none
unfolding comment_of any
comment_of-none [] h = refl
comment_of-none (c ∷ t) h = ground (arith, h, comment_of-none t (ground (arith, h)))

any_append :
    (f : ℕ → Bool) (xs ys : Text) → any f xs ≡ false → any f ys ≡ false → any f (xs ++ ys) ≡ false
unfolding any
any_append f [] ys h k = k
any_append f (x ∷ xs) ys h k = ground (arith, h, any_append f xs ys (ground (arith, h)) k)

usable_token :
    (token : Text)
    → unusable token ≡ none
    → (is_token token ≡ true) × (any (λ c. c == 39) token ≡ false)
unfolding unusable is_token
usable_token [] h = ground (arith, h)
usable_token (c ∷ t) h = ground (arith, h)

-- A token that the configuration admits for a preset engine can be presented: a login line with it and
-- an engine name is read, once its comment is split off, as the login with that name and token.
pub usable-presented :
    (name token : Text)
    → unusable token ≡ none
    → is_engine_name name ≡ true
    → parse (split_comment (login_line name token)).command ≡ ok (Command.login name token)
unfolding split_comment login_line
usable-presented name token h named =
    let (good, plain) = usable_token token h in
    let name_plain : any (λ c. c == 39) name ≡ false =
      all_excludes is_name_char (λ c. c == 39) name (λ c k. ground (arith, k))
        (unfold is_engine_name in ground (arith, named)) in
    let line_plain : any (λ c. c == 39) (login_line name token) ≡ false =
      any_append (λ c. c == 39) login_word (32 ∷ name ++ 32 ∷ token) (unfold any in refl)
        (any_append (λ c. c == 39) (32 ∷ name) (32 ∷ token)
          (unfold any in ground (arith, name_plain)) (unfold any in ground (arith, plain))) in
    rw (split_comment, comment_of-none (login_line name token) line_plain)
      (parse-login_line name token named good)
