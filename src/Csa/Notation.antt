-- ===== src/Csa/Notation.antt =====
-- src/csa/notation.rs: moves as the protocol writes them. A character is its code point.
pub mod RoundTrip
use tabia_shogi_server.Common.{
  ℕ, ◌+◌, ◌-◌, Bool, true, false, ◌&&◌, Option, none, some, List, [], ◌∷◌, ltb, leb, ◌==◌,
  if◌then◌else◌, length, get_or, Result, ok, err, ◌>>=◌, ◌>>◌, guard, ok_or,
}
use tabia_shogi_server.Game.Position.Pieces.{
  Color, color_eq, Square, square_new, PieceKind, kind_eq, promoted, from_piece_kind, to_piece_kind,
  HandKind, Piece, Move,
}
use tabia_shogi_server.Game.Position.Board.{Position, piece_at}

abbrev pub move_len : ℕ
move_len = 7

pub record WrittenMove : Type 0 where
  pub color : Color
  pub from : Option Square
  pub to : Square
  pub kind : PieceKind

pub data Endpoint : Type 0 where
  from to : Endpoint

pub data ParseError : Type 0 where
  bad_length : ℕ → ParseError
  trailing : ParseError
  bad_sign : ℕ → ParseError
  coordinate : Endpoint → ℕ × ℕ → ParseError
  drop_destination : ParseError
  bad_piece : ℕ × ℕ → ParseError

pub data ResolveError : Type 0 where
  not_side_to_move : Color → Color → ResolveError
  empty_square : Square → ResolveError
  kind_mismatch : Square → PieceKind → PieceKind → ResolveError
  undroppable_kind : PieceKind → ResolveError

pub data RenderError : Type 0 where
  empty_square : Square → RenderError
  not_promotable : Square → PieceKind → RenderError

unfoldable pub sign_of : Color → ℕ
sign_of Color.black = 43
sign_of Color.white = 45

unfoldable pub letters_of : PieceKind → ℕ × ℕ
letters_of PieceKind.pawn = (70, 85)
letters_of PieceKind.lance = (75, 89)
letters_of PieceKind.knight = (75, 69)
letters_of PieceKind.silver = (71, 73)
letters_of PieceKind.gold = (75, 73)
letters_of PieceKind.bishop = (75, 65)
letters_of PieceKind.rook = (72, 73)
letters_of PieceKind.king = (79, 85)
letters_of PieceKind.promoted_pawn = (84, 79)
letters_of PieceKind.promoted_lance = (78, 89)
letters_of PieceKind.promoted_knight = (78, 75)
letters_of PieceKind.promoted_silver = (78, 71)
letters_of PieceKind.promoted_bishop = (85, 77)
letters_of PieceKind.promoted_rook = (82, 89)

abbrev same : ℕ × ℕ → ℕ → ℕ → Bool
same l a b = l.0 == a && l.1 == b

unfoldable pub kind_of : ℕ × ℕ → Option PieceKind
kind_of l =
    if same l 70 85
    then some PieceKind.pawn
    else if same l 75 89
    then some PieceKind.lance
    else if same l 75 69
    then some PieceKind.knight
    else if same l 71 73
    then some PieceKind.silver
    else if same l 75 73
    then some PieceKind.gold
    else if same l 75 65
    then some PieceKind.bishop
    else if same l 72 73
    then some PieceKind.rook
    else if same l 79 85
    then some PieceKind.king
    else if same l 84 79
    then some PieceKind.promoted_pawn
    else if same l 78 89
    then some PieceKind.promoted_lance
    else if same l 78 75
    then some PieceKind.promoted_knight
    else if same l 78 71
    then some PieceKind.promoted_silver
    else if same l 85 77
    then some PieceKind.promoted_bishop
    else if same l 82 89
    then some PieceKind.promoted_rook
    else none

-- `char::to_digit(10)`: the ASCII digits alone.
unfoldable pub digit : ℕ → Option ℕ
digit c = if leb 48 c && leb c 57 then some (c - 48) else none

-- `zip`, then `Square::new`.
abbrev square_of : Option ℕ → Option ℕ → Option Square
square_of none r = none
square_of (some f) none = none
square_of (some f) (some r) = square_new f r

unfoldable pub parse_square : Endpoint → ℕ × ℕ → Result ParseError Square
unfolding digit square_new
parse_square endpoint digits =
    ok_or (square_of (digit digits.0) (digit digits.1)) (ParseError.coordinate endpoint digits)

unfoldable pub parse_color : ℕ → Result ParseError Color
parse_color sign =
    if sign == 43
    then ok Color.black
    else if sign == 45
    then ok Color.white
    else err (ParseError.bad_sign sign)

abbrev is_hand : ℕ × ℕ → Bool
is_hand digits = same digits 48 48

abbrev some_square : Result ParseError Square → Result ParseError (Option Square)
some_square (ok s) = ok (some s)
some_square (err e) = err e

unfoldable pub parse_from : ℕ × ℕ → Result ParseError (Option Square)
parse_from digits =
    if is_hand digits then ok none else some_square (parse_square Endpoint.from digits)

unfoldable pub parse_to : ℕ × ℕ → Result ParseError Square
parse_to digits =
    if is_hand digits then err ParseError.drop_destination else parse_square Endpoint.to digits

-- The six characters after the sign.
unfoldable pub parse_rest : Color → ℕ → ℕ → ℕ → ℕ → ℕ → ℕ → Result ParseError WrittenMove
parse_rest color a b c d e f = do
  source ← parse_from (a, b)
  target ← parse_to (c, d)
  piece ← ok_or (kind_of (e, f)) (ParseError.bad_piece (e, f))
  ok (record { color = color; from = source; to = target; kind = piece })

unfoldable pub parse : List ℕ → Result ParseError WrittenMove
parse [] = err (ParseError.bad_length 0)
parse (sign ∷ rest) = do
  color ← parse_color sign
  guard (leb (length rest) (move_len - 1)) ParseError.trailing
  guard (leb (move_len - 1) (length rest)) (ParseError.bad_length (length rest + 1))
  parse_rest color (get_or rest 0 0) (get_or rest 1 0) (get_or rest 2 0) (get_or rest 3 0)
      (get_or rest 4 0) (get_or rest 5 0)

-- The digits of a square's file and rank, which are at most nine.
unfoldable pub display : WrittenMove → List ℕ
display w =
    let file : ℕ = elim w.from [ none ↦ 0 | some s ↦ s.file ] in
    let rank : ℕ = elim w.from [ none ↦ 0 | some s ↦ s.rank ] in
    let letters = letters_of w.kind in
    sign_of w.color
    ∷ (48 + file)
    ∷ (48 + rank)
    ∷ (48 + w.to.file)
    ∷ (48 + w.to.rank)
    ∷ letters.0
    ∷ letters.1
    ∷ []

unfoldable pub of : Color → Move → Position → Result RenderError WrittenMove
of color (Move.drop piece target) position =
    ok (record { color = color; from = none; to = target; kind = to_piece_kind piece })
of color (Move.board source target promote) position = do
  piece ← ok_or (piece_at position source) (RenderError.empty_square source)
  written ←
      if promote
      then ok_or (promoted piece.kind) (RenderError.not_promotable source piece.kind)
      else ok piece.kind
  ok (record { color = color; from = some source; to = target; kind = written })

abbrev promotes_to : Option PieceKind → PieceKind → Bool
promotes_to none written = false
promotes_to (some k) written = kind_eq k written

-- Whether the kind written is the one found, or its promotion.
unfoldable pub read_promotion : Square → PieceKind → PieceKind → Result ResolveError Bool
read_promotion square written found =
    if kind_eq written found
    then ok false
    else if promotes_to (promoted found) written
    then ok true
    else err (ResolveError.kind_mismatch square written found)

unfoldable pub resolve : WrittenMove → Position → Result ResolveError Move
unfolding read_promotion
resolve w position = do
  guard (color_eq w.color position.side_to_move)
      (ResolveError.not_side_to_move w.color position.side_to_move)
  elim w.from [
    | none ↦ do
      piece ← ok_or (from_piece_kind w.kind) (ResolveError.undroppable_kind w.kind)
      ok (Move.drop piece w.to)
    | some square ↦ do
      found ← ok_or (piece_at position square) (ResolveError.empty_square square)
      promote ← read_promotion square w.kind found.kind
      ok (Move.board square w.to promote)
  ]
