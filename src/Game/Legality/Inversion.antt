-- ===== src/Game/Legality/Inversion.antt =====
-- What an accepted move satisfied: every guard of `apply_move`, read back from its result.
use tabia_shogi_server.Common.{Bool, false, not, ◌&&◌, none, some, ◌≡◌, ◌≢◌, ok, arith}
use tabia_shogi_server.Game.Position.Pieces.{
  Color, opponent, Square, PieceKind, Piece, HandKind, Move,
}
use tabia_shogi_server.Game.Position.Hands.{Hand, count, remove}
use tabia_shogi_server.Game.Position.Board.{Position, piece_at, hand}
use tabia_shogi_server.Game.Legality.Movement.{
  Reach, reach, in_check, is_dead_drop, has_unpromoted_pawn_on_file,
}
use tabia_shogi_server.Game.Legality.Apply.{
  occupied_by, arriving_kind, move_piece, apply_board_move, is_pawn, drop_piece, apply_drop,
  make_move, is_ruled_pawn_drop, DropPawnMateRule, has_legal_move, apply_move,
}

pub record Accepted (p : Position) (mv : Move) (q : Position) : Type 0 where
  pub made : make_move p mv ≡ ok q
  pub king_safe : in_check q p.side_to_move ≡ false
  pub no_drop_mate :
      is_ruled_pawn_drop DropPawnMateRule.enforced mv
        && (in_check q (opponent p.side_to_move) && not (has_legal_move q))
      ≡ false

pub apply_move-eq-ok :
    (p : Position) (mv : Move) (q : Position) → apply_move p mv ≡ ok q → Accepted p mv q
unfolding apply_move
apply_move-eq-ok p mv q h = ground arith

pub record BoardMoved (p : Position) (c : Color) (from to : Square) (promote : Bool) (q : Position)
    : Type 0 where
  pub piece : Piece
  pub standing : piece_at p from ≡ some piece
  pub own : piece.color ≡ c
  pub not_own_target : occupied_by (piece_at p to) c ≡ false
  pub reached : reach p from piece to ≡ Reach.reaches
  pub arriving : PieceKind
  pub arrives : arriving_kind piece.kind c from to promote ≡ ok arriving
  pub result : q ≡ move_piece p c from to arriving

pub apply_board_move-eq-ok :
    (p : Position) (c : Color) (from to : Square) (promote : Bool) (q : Position)
    → apply_board_move p c from to promote ≡ ok q
    → BoardMoved p c from to promote q
unfolding apply_board_move
apply_board_move-eq-ok p c from to promote q h = ground arith

pub record Dropped (p : Position) (c : Color) (piece : HandKind) (to : Square) (q : Position)
    : Type 0 where
  pub held : count (hand p c) piece ≢ 0
  pub vacant : piece_at p to ≡ none
  pub alive : is_dead_drop piece c to ≡ false
  pub no_nifu : is_pawn piece && has_unpromoted_pawn_on_file p c to.file ≡ false
  pub left : Hand
  pub removed : remove (hand p c) piece ≡ ok left
  pub result : q ≡ drop_piece p c piece to left

pub apply_drop-eq-ok :
    (p : Position) (c : Color) (piece : HandKind) (to : Square) (q : Position)
    → apply_drop p c piece to ≡ ok q
    → Dropped p c piece to q
unfolding apply_drop
apply_drop-eq-ok p c piece to q h = ground arith
