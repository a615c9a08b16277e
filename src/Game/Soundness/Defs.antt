-- ===== src/Game/Soundness/Defs.antt =====
-- The properties of a position that every legal move keeps.
use tabia_shogi_server.Common.{false, some, ◌≡◌, ok}
use tabia_shogi_server.Game.Position.Pieces.{
  Color, opponent, Square, OnBoard, PieceKind, Piece, Move,
}
use tabia_shogi_server.Game.Position.Board.{Position, IsPosition, piece_at}
use tabia_shogi_server.Game.Legality.Movement.{must_promote, in_check}
use tabia_shogi_server.Game.Legality.Apply.{apply_move}
use tabia_shogi_server.Game.Legality.Effects.{OnBoardMove}
use tabia_shogi_server.Game.Legality.Geometry.{king_of}

abbrev pub pawn_of : Color → Piece
pawn_of c = record { kind = PieceKind.pawn; color = c }

-- No file holds two unpromoted pawns of one side.
abbrev pub HasNoNifu : Position → Type 0
HasNoNifu p =
    (c : Color) (s t : Square)
    → OnBoard s
    → OnBoard t
    → s.file ≡ t.file
    → piece_at p s ≡ some (pawn_of c)
    → piece_at p t ≡ some (pawn_of c)
    → s ≡ t

-- No piece stands where it could never move again.
abbrev pub HasNoDeadPiece : Position → Type 0
HasNoDeadPiece p =
    (s : Square) (piece : Piece)
    → OnBoard s
    → piece_at p s ≡ some piece
    → must_promote piece.kind piece.color s ≡ false

-- One king of a color, and its square.
pub record HasOneKing (p : Position) (c : Color) : Type 0 where
  pub king : Square
  pub on : OnBoard king
  pub standing : piece_at p king ≡ some (king_of c)
  pub only : (t : Square) → OnBoard t → piece_at p t ≡ some (king_of c) → t ≡ king

pub record IsSound (p : Position) : Type 0 where
  pub well_formed : IsPosition p
  pub no_nifu : HasNoNifu p
  pub no_dead_piece : HasNoDeadPiece p
  pub one_king : (c : Color) → HasOneKing p c
  pub opponent_safe : in_check p (opponent p.side_to_move) ≡ false

-- The positions that legal moves lead to from a start.
pub data Reachable (start : Position) : Position → Type 0 where
  here : Reachable start start
  played :
      {p q : Position} (mv : Move)
      → Reachable start p
      → OnBoardMove mv
      → apply_move p mv ≡ ok q
      → Reachable start q
