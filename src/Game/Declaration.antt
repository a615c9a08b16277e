-- ===== src/Game/Declaration.antt =====
-- src/game/declaration.rs: the jishogi declaration under the 27-point rule.
pub mod Rule
pub mod Points
use tabia_shogi_server.Common.{
  ℕ, ◌+◌, ◌*◌, Bool, true, false, ◌&&◌, Option, none, some, List, [], ◌∷◌, ltb, leb, ◌==◌,
  if◌then◌else◌, any,
}
use tabia_shogi_server.Game.Position.Pieces.{
  Color, color_eq, Square, PieceKind, kind_eq, Piece, HandKind, hand_kinds, to_piece_kind,
}
use tabia_shogi_server.Game.Position.Hands.{Hand, count}
use tabia_shogi_server.Game.Position.Board.{Position, piece_at, hand}
use tabia_shogi_server.Game.Legality.Movement.{squares, in_check, in_promotion_zone}

abbrev pub required_pieces : ℕ
required_pieces = 10

abbrev pub major_points : ℕ
major_points = 5

abbrev pub minor_points : ℕ
minor_points = 1

unfoldable pub required_points : Color → ℕ
required_points Color.black = 28
required_points Color.white = 27

unfoldable pub points : PieceKind → ℕ
points PieceKind.king = 0
points PieceKind.rook = major_points
points PieceKind.promoted_rook = major_points
points PieceKind.bishop = major_points
points PieceKind.promoted_bishop = major_points
points PieceKind.gold = minor_points
points PieceKind.silver = minor_points
points PieceKind.knight = minor_points
points PieceKind.lance = minor_points
points PieceKind.pawn = minor_points
points PieceKind.promoted_silver = minor_points
points PieceKind.promoted_knight = minor_points
points PieceKind.promoted_lance = minor_points
points PieceKind.promoted_pawn = minor_points

pub record Census : Type 0 where
  pub pieces : ℕ
  pub points_sum : ℕ

-- The body of the loop of `camp_census` for one square of the camp; each `continue` keeps the census.
unfoldable pub count_square : Position → Color → Census → Square → Census
unfolding points
count_square position declarer census square = elim (piece_at position square) [
  | none ↦ census
  | some piece ↦
      if color_eq piece.color declarer
      then (if points piece.kind == 0 then census else record {
        pieces = census.pieces + 1;
        points_sum = census.points_sum + points piece.kind;
      })
      else census
]

-- The loop, over the squares that the filter on the promotion zone lets through.
unfoldable pub census_loop : Position → Color → Census → List Square → Census
census_loop position declarer census [] = census
census_loop position declarer census (square ∷ rest) =
    census_loop position declarer
      (if in_promotion_zone declarer square
        then count_square position declarer census square
        else census)
      rest

unfoldable pub camp_census : Position → Color → Census
unfolding census_loop
camp_census position declarer =
    census_loop position declarer (record { pieces = 0; points_sum = 0 }) squares

-- What `hand_points` sums.
unfoldable pub sum_hand : Hand → List HandKind → ℕ
sum_hand h [] = 0
sum_hand h (kind ∷ rest) = count h kind * points (to_piece_kind kind) + sum_hand h rest

unfoldable pub hand_points : Position → Color → ℕ
unfolding sum_hand
hand_points position declarer = sum_hand (hand position declarer) hand_kinds

unfoldable pub is_entered_king : Position → Color → Square → Bool
is_entered_king position declarer square = elim (piece_at position square) [
  | none ↦ false
  | some piece ↦
      color_eq piece.color declarer
      && (kind_eq piece.kind PieceKind.king && in_promotion_zone declarer square)
]

unfoldable pub king_entered : Position → Color → Bool
king_entered position declarer = any (is_entered_king position declarer) squares

unfoldable pub holds : Position → Color → Bool
holds position declarer =
    if in_check position declarer
    then false
    else if king_entered position declarer
    then (let camp = camp_census position declarer in
        if ltb camp.pieces required_pieces
        then false
        else leb (required_points declarer) (camp.points_sum + hand_points position declarer))
    else false
