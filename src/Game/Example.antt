-- ===== src/Game/Example.antt =====
-- The first move of a game, for the tests and witnesses.
use tabia_shogi_server.Common.{ℕ, false, ◌≡◌, refl, ok, any, find}
use tabia_shogi_server.Game.Position.Pieces.{Color, Square, PieceKind, Move, opponent}
use tabia_shogi_server.Game.Position.Hands.{hand_new}
use tabia_shogi_server.Game.Position.Board.{Position, hirate, piece_at, set_piece_at}
use tabia_shogi_server.Game.Legality.Movement.{
  steps, slides, step, ray_loop, ray, reach_slides, reach, squares, attacks_from, is_attacked_by,
  king_square, in_check, must_promote,
}
use tabia_shogi_server.Game.Legality.Apply.{
  apply_move, validate, validate_with, make_move, apply_board_move, arriving_kind, take_captured,
  move_piece,
}

-- The square of a file and a rank.
abbrev pub sq : ℕ → ℕ → Square
sq f r = record { file = f; rank = r }

abbrev pub pawn_push : Move
pawn_push = Move.board (sq 7 7) (sq 7 6) false

abbrev pub pushed : Position
pushed = move_piece hirate Color.black (sq 7 7) (sq 7 6) PieceKind.pawn

pub pawn_push_ok : apply_move hirate pawn_push ≡ ok pushed
unfolding apply_move validate validate_with hirate make_move apply_board_move arriving_kind
    move_piece take_captured reach reach_slides ray ray_loop step steps slides in_check king_square
    is_attacked_by attacks_from squares piece_at set_piece_at any find must_promote hand_new
    opponent
pawn_push_ok = refl
