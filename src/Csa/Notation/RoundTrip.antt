-- ===== src/Csa/Notation/RoundTrip.antt =====
-- src/csa/notation.rs: what is written is read back, and what is read is written back.
use tabia_shogi_server.Common.{
  ℕ, ◌+◌, true, false, ◌&&◌, Option, none, some, List, [], ◌∷◌, ◌==◌, if◌then◌else◌, ok, ok_or, ◌≡◌,
  refl, ap, ◌∙◌, arith, inl, inr, subst, Bool-cases, Option-cases, >>=-eq-ok,
}
use tabia_shogi_server.Game.Position.Pieces.{
  Color, color_eq_iff, Square, OnBoard, square_new, PieceKind, kind_eq_refl, promoted,
  from_piece_kind, to_piece_kind, HandKind, Move,
}
use tabia_shogi_server.Game.Position.Board.{Position, piece_at}
use tabia_shogi_server.Csa.Notation.{
  WrittenMove, Endpoint, ParseError, sign_of, letters_of, kind_of, digit, parse_square, parse_color,
  parse_from, parse_to, parse_rest, parse, display, of, read_promotion, resolve,
}

-- The squares that a written move names are on the board, as every `Square` is.
pub record IsOnBoard (w : WrittenMove) : Type 0 where
  pub source : (s : Square) → w.from ≡ some s → OnBoard s
  pub target : OnBoard w.to

kind_of-letters_of : (k : PieceKind) → kind_of (letters_of k) ≡ some k
unfolding kind_of letters_of
kind_of-letters_of PieceKind.king = refl
kind_of-letters_of _ = refl

parse_square-digits :
    (e : Endpoint) (s : Square) → OnBoard s → parse_square e (48 + s.file, 48 + s.rank) ≡ ok s
unfolding parse_square digit square_new
parse_square-digits e s on = ground (arith, on.file_low, on.file_high, on.rank_low, on.rank_high)

parse_to-digits : (s : Square) → OnBoard s → parse_to (48 + s.file, 48 + s.rank) ≡ ok s
unfolding parse_to
parse_to-digits s on = ground (arith, parse_square-digits Endpoint.to s on, on.file_low)

parse_from-digits : (s : Square) → OnBoard s → parse_from (48 + s.file, 48 + s.rank) ≡ ok (some s)
unfolding parse_from
parse_from-digits s on = ground (arith, parse_square-digits Endpoint.from s on, on.file_low)

parse_color-sign_of : (c : Color) → parse_color (sign_of c) ≡ ok c
unfolding parse_color sign_of
parse_color-sign_of Color.black = refl
parse_color-sign_of Color.white = refl

-- A written move on the board is read back from its text.
pub parse-display : (w : WrittenMove) → IsOnBoard w → parse (display w) ≡ ok w
unfolding parse display parse_rest
parse-display w on = elim (Option-cases w.from) [
  | inl e ↦ ground (
    arith,
    e,
    parse_color-sign_of w.color,
    parse_to-digits w.to on.target,
    kind_of-letters_of w.kind,
    none_read,
  )
  | inr (s, e) ↦ ground (
    arith,
    e,
    parse_color-sign_of w.color,
    parse_from-digits s (on.source s e),
    parse_to-digits w.to on.target,
    kind_of-letters_of w.kind,
  )
]
  where
    none_read : parse_from (48, 48) ≡ ok none
    none_read = unfold parse_from in refl

sign_of-parse_color : (s : ℕ) (c : Color) → parse_color s ≡ ok c → sign_of c ≡ s
unfolding parse_color sign_of
sign_of-parse_color s c h = ground arith

one_reading :
    (a b : ℕ) (k read : PieceKind) (rest : Option PieceKind)
    → (rest ≡ some k → letters_of k ≡ (a, b))
    → (if a == (letters_of read).0 && b == (letters_of read).1 then some read else rest) ≡ some k
    → letters_of k ≡ (a, b)
one_reading a b k read rest later h =
    elim (Bool-cases (a == (letters_of read).0 && b == (letters_of read).1)) [
      | inr other ↦ later (ground (arith, other))
      | inl here ↦
          let found : read ≡ k = ground (arith, here) in
          let letters : letters_of read ≡ (a, b) = ground (arith, here) in
          subst (λ x. letters_of x ≡ (a, b)) found letters
    ]

letters_of-kind_of : (a b : ℕ) (k : PieceKind) → kind_of (a, b) ≡ some k → letters_of k ≡ (a, b)
unfolding kind_of letters_of
letters_of-kind_of a b k h =
    one_reading a b k PieceKind.pawn _
      (one_reading a b k PieceKind.lance _ (
        one_reading a b k PieceKind.knight _ (
          one_reading a b k PieceKind.silver _ (
            one_reading a b k PieceKind.gold _ (
              one_reading a b k PieceKind.bishop _ (
                one_reading a b k PieceKind.rook _ (
                  one_reading a b k PieceKind.king _ (
                    one_reading a b k PieceKind.promoted_pawn _ (
                      one_reading a b k PieceKind.promoted_lance _ (
                        one_reading a b k PieceKind.promoted_knight _ (
                          one_reading a b k PieceKind.promoted_silver _ (
                            one_reading a b k PieceKind.promoted_bishop _ (
                              one_reading a b k PieceKind.promoted_rook _
                                (λ none_left. absurd (ground arith)))))))))))))))
      h

digits-parse_square :
    (e : Endpoint) (a b : ℕ) (s : Square)
    → parse_square e (a, b) ≡ ok s
    → (48 + s.file ≡ a) × (48 + s.rank ≡ b)
unfolding parse_square digit square_new
digits-parse_square e a b s h = ground arith

-- The file and the rank that are written for where a move comes from.
abbrev file_of : Option Square → ℕ
file_of o = elim o [ none ↦ 0 | some s ↦ s.file ]

abbrev rank_of : Option Square → ℕ
rank_of o = elim o [ none ↦ 0 | some s ↦ s.rank ]

digits-parse_to :
    (a b : ℕ) (s : Square) → parse_to (a, b) ≡ ok s → (48 + s.file ≡ a) × (48 + s.rank ≡ b)
unfolding parse_to
digits-parse_to a b s h = digits-parse_square Endpoint.to a b s (ground arith)

digits-parse_from :
    (a b : ℕ) (o : Option Square)
    → parse_from (a, b) ≡ ok o
    → (48 + file_of o ≡ a) × (48 + rank_of o ≡ b)
unfolding parse_from
digits-parse_from a b none h = ground arith
digits-parse_from a b (some s) h = digits-parse_square Endpoint.from a b s (ground arith)

rest-display :
    (color : Color) (a b c d e f : ℕ) (w : WrittenMove)
    → parse_rest color a b c d e f ≡ ok w
    → display w ≡ sign_of color ∷ a ∷ b ∷ c ∷ d ∷ e ∷ f ∷ []
unfolding parse_rest display
rest-display color a b c d e f w h =
    let (source, s, h₁) = >>=-eq-ok (parse_from (a, b)) _ h in
    let (target, t, h₂) = >>=-eq-ok (parse_to (c, d)) _ h₁ in
    let (read, k, h₃) = >>=-eq-ok (ok_or (kind_of (e, f)) (ParseError.bad_piece (e, f))) _ h₂ in
    let letters = letters_of-kind_of e f read (ground arith) in
    ground (arith, digits-parse_from a b source s, digits-parse_to c d target t, letters)

display-parse_six :
    (sign : ℕ) (rest : List ℕ) (w : WrittenMove)
    → parse (sign ∷ rest) ≡ ok w
    → display w ≡ sign ∷ rest
unfolding parse
display-parse_six sign (a ∷ b ∷ c ∷ d ∷ e ∷ f ∷ []) w h =
    let (color, s, h₁) = >>=-eq-ok (parse_color sign) _ h in
    rest-display color a b c d e f w h₁
    ∙ ap (λ x. x ∷ a ∷ b ∷ c ∷ d ∷ e ∷ f ∷ []) (sign_of-parse_color sign color s)
display-parse_six sign [] w h = ground arith
display-parse_six sign (a ∷ []) w h = ground arith
display-parse_six sign (a ∷ b ∷ []) w h = ground arith
display-parse_six sign (a ∷ b ∷ c ∷ []) w h = ground arith
display-parse_six sign (a ∷ b ∷ c ∷ d ∷ []) w h = ground arith
display-parse_six sign (a ∷ b ∷ c ∷ d ∷ e ∷ []) w h = ground arith
display-parse_six sign (a ∷ b ∷ c ∷ d ∷ e ∷ f ∷ g ∷ more) w h = ground arith

-- A text that is read as a move is the one that the move is written as: no move has two spellings.
pub display-parse : (line : List ℕ) (w : WrittenMove) → parse line ≡ ok w → display w ≡ line
unfolding parse
display-parse [] w h = ground arith
display-parse (sign ∷ rest) w h = display-parse_six sign rest w h

from_piece_kind-to_piece_kind : (k : HandKind) → from_piece_kind (to_piece_kind k) ≡ some k
unfolding from_piece_kind to_piece_kind
from_piece_kind-to_piece_kind HandKind.rook = refl
from_piece_kind-to_piece_kind _ = refl

to_piece_kind-from_piece_kind :
    (k : PieceKind) (j : HandKind) → from_piece_kind k ≡ some j → to_piece_kind j ≡ k
unfolding from_piece_kind to_piece_kind
to_piece_kind-from_piece_kind k j h = ground arith

read_unpromoted : (s : Square) (k : PieceKind) → read_promotion s k k ≡ ok false
unfolding read_promotion
read_unpromoted s k = rw (kind_eq_refl k) refl

read_promoted :
    (s : Square) (k found : PieceKind)
    → promoted found ≡ some k
    → read_promotion s k found ≡ ok true
unfolding read_promotion promoted
read_promoted s k found h = ground arith

-- A move written out by the side to move is resolved to itself in the same position.
pub resolve-of :
    (position : Position) (mv : Move) (w : WrittenMove)
    → of position.side_to_move mv position ≡ ok w
    → resolve w position ≡ ok mv
unfolding of resolve
resolve-of position (Move.drop piece target) w h = ground (
  arith,
  from_piece_kind-to_piece_kind piece,
  (color_eq_iff position.side_to_move position.side_to_move).1 refl,
)
resolve-of position (Move.board source target promote) w h =
    elim (Option-cases (piece_at position source)) [
      | inl e ↦ absurd (ground (arith, e))
      | inr (piece, e) ↦ ground (
        arith,
        e,
        read_unpromoted source piece.kind,
        read_promoted source w.kind piece.kind,
        (color_eq_iff position.side_to_move position.side_to_move).1 refl,
      )
    ]
