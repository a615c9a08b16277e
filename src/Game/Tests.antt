-- ===== src/Game/Tests.antt =====
-- Runs of the rules at concrete positions, and the witnesses of the theorems about them.
use tabia_shogi_server.Common.{
  ℕ, true, false, [], ◌∷◌, ◌≡◌, ◌↔◌, refl, ok, err, any, find, filter_map, numbers, arith, ◌≤◌,
  ◌&&◌,
}
use tabia_shogi_server.Game.Position.Pieces.{
  Color, OnBoard, PieceKind, HandKind, Piece, Move, opponent, promoted, base, from_piece_kind,
  to_piece_kind,
}
use tabia_shogi_server.Game.Position.Hands.{add, remove, count, hand_new}
use tabia_shogi_server.Game.Position.Board.{
  Position, hirate, empty_position, place, piece_at, set_piece_at, hand, set_hand,
}
use tabia_shogi_server.Game.Legality.Movement.{
  Reach, steps, slides, step, ray_loop, ray, reach_slides, reach, squares, attacks_from,
  is_attacked_by, king_square, in_check, in_promotion_zone, must_promote, is_dead_drop,
  has_unpromoted_pawn_on_file,
}
use tabia_shogi_server.Game.Legality.Apply.{
  Illegal, apply_move, validate, validate_with, validate_suspended, make_move, apply_board_move,
  apply_drop, arriving_kind, take_captured, move_piece, drop_piece, has_legal_move,
  has_board_move_from, has_drop_of,
}
use tabia_shogi_server.Game.Legality.Reaching.{CanReach, reach_iff}
use tabia_shogi_server.Game.Legality.Replies.{HasReply, has_legal_move_iff}
use tabia_shogi_server.Game.Legality.Mate.{
  IsLegal, apply_move_iff, IsDropPawnMate, drop_pawn_mate_iff,
}
use tabia_shogi_server.Game.Soundness.Defs.{IsSound, Reachable, here, played}
use tabia_shogi_server.Game.Soundness.Reached.{apply_move-IsSound, hirate-IsSound}
use tabia_shogi_server.Game.Soundness.Material.{material, material-Reachable}
use tabia_shogi_server.Game.Declaration.{holds}
use tabia_shogi_server.Game.Declaration.Rule.{MayDeclare, holds_iff}
use tabia_shogi_server.Game.Declaration.Points.{holds-one_side}
use tabia_shogi_server.Game.StartSpec.{StartSpec, traversal, replay, decode, last_of}
use tabia_shogi_server.Game.StartSpec.Replay.{
  none_left, one_more, Line, traversal_iff, decode-Reachable, IsRefused, decode-IsRefused,
}
use tabia_shogi_server.Game.Example.{sq, pawn_push, pushed, pawn_push_ok}

on_board : (f r : ℕ) → (1 ≤ f) × (f ≤ 9) × (1 ≤ r) × (r ≤ 9) → OnBoard (sq f r)
on_board f r (a, b, c, d) = record { file_low = a; file_high = b; rank_low = c; rank_high = d }

rook_blocked :
    apply_move hirate (Move.board (sq 2 8) (sq 2 5) false)
    ≡ err (Illegal.path_blocked (sq 2 8) (sq 2 5))
unfolding apply_move validate validate_with hirate make_move apply_board_move arriving_kind
    move_piece take_captured reach reach_slides ray ray_loop step steps slides in_check king_square
    is_attacked_by attacks_from squares piece_at set_piece_at any find must_promote hand_new
    opponent
rook_blocked = refl

push_on_board : OnBoard (sq 7 7) × OnBoard (sq 7 6)
push_on_board = (on_board 7 7 (ground arith), on_board 7 6 (ground arith))

-- White's king in the corner, with two of Black's golds before it and a pawn in Black's hand.
abbrev cornered : Position
cornered =
    let p₁ = place empty_position 1 1 Color.white PieceKind.king in
    let p₂ = place p₁ 1 3 Color.black PieceKind.gold in
    let p₃ = place p₂ 3 2 Color.black PieceKind.gold in
    let p₄ = place p₃ 5 9 Color.black PieceKind.king in
    set_hand p₄ Color.black (add hand_new HandKind.pawn)

abbrev mating_drop : Move
mating_drop = Move.drop HandKind.pawn (sq 1 2)

mating_drop_refused : apply_move cornered mating_drop ≡ err (Illegal.drop_pawn_mate (sq 1 2))
unfolding apply_move validate validate_with validate_suspended has_legal_move has_board_move_from
    has_drop_of place set_hand hand add remove count make_move apply_board_move apply_drop
    drop_piece to_piece_kind is_dead_drop has_unpromoted_pawn_on_file filter_map numbers
    arriving_kind promoted base from_piece_kind in_promotion_zone move_piece take_captured reach
    reach_slides ray ray_loop step steps slides in_check king_square is_attacked_by attacks_from
    squares piece_at set_piece_at any find must_promote hand_new opponent
mating_drop_refused = refl

apply_move_example : IsLegal hirate pawn_push pushed
apply_move_example = (apply_move_iff hirate pawn_push pushed).0 pawn_push_ok

drop_pawn_mate_example : IsDropPawnMate cornered mating_drop (sq 1 2)
drop_pawn_mate_example = (drop_pawn_mate_iff cornered mating_drop (sq 1 2)).0 mating_drop_refused

has_legal_move_example : (has_legal_move pushed ≡ true) ↔ HasReply pushed
has_legal_move_example = has_legal_move_iff pushed

abbrev pawn : Piece
pawn = record { kind = PieceKind.pawn; color = Color.black }

reach_example :
    (reach hirate (sq 7 7) pawn (sq 7 6) ≡ Reach.reaches) ↔ CanReach hirate (sq 7 7) pawn (sq 7 6)
reach_example = reach_iff hirate (sq 7 7) pawn (sq 7 6) (on_board 7 7 (ground arith))

apply_move-IsSound_example : IsSound pushed
apply_move-IsSound_example =
    apply_move-IsSound hirate pawn_push pushed hirate-IsSound push_on_board pawn_push_ok

pushed-Reachable : Reachable hirate pushed
pushed-Reachable = played pawn_push here push_on_board pawn_push_ok

material-Reachable_example : material HandKind.pawn pushed ≡ 18
material-Reachable_example = material-Reachable HandKind.pawn pushed-Reachable

hirate_pawns : material HandKind.pawn hirate ≤ 255
hirate_pawns = rw (material-Reachable HandKind.pawn here) (omega arith)

holds_example : (holds pushed Color.black ≡ true) ↔ MayDeclare pushed Color.black
holds_example = holds_iff pushed Color.black

holds-one_side_example : holds pushed Color.black && holds pushed Color.white ≡ false
holds-one_side_example = holds-one_side pushed pushed-Reachable

traversal_example :
    (traversal (StartSpec.buoy (pawn_push ∷ [])) ≡ ok (hirate, pushed ∷ []))
    ↔ ((hirate ≡ hirate) × Line hirate (pawn_push ∷ []) (pushed ∷ []))
traversal_example = traversal_iff (pawn_push ∷ []) hirate (pushed ∷ [])

decode_push : decode (StartSpec.buoy (pawn_push ∷ [])) ≡ ok pushed
unfolding decode traversal replay last_of
decode_push = rw pawn_push_ok refl

decode-Reachable_example : Reachable hirate pushed × IsSound pushed
decode-Reachable_example =
    decode-Reachable (pawn_push ∷ []) pushed (one_more push_on_board none_left) decode_push

decode_refused :
    decode (StartSpec.buoy (pawn_push ∷ pawn_push ∷ []))
    ≡ err (record { index = 1; reason = Illegal.empty_square (sq 7 7) })
unfolding decode traversal replay apply_move validate validate_with hirate make_move
    apply_board_move arriving_kind move_piece take_captured reach reach_slides ray ray_loop step
    steps slides in_check king_square is_attacked_by attacks_from squares piece_at set_piece_at any
    find must_promote hand_new opponent
decode_refused = refl

decode-IsRefused_example :
    IsRefused hirate (pawn_push ∷ pawn_push ∷ []) 1 (Illegal.empty_square (sq 7 7))
decode-IsRefused_example =
    decode-IsRefused (pawn_push ∷ pawn_push ∷ [])
      (record { index = 1; reason = Illegal.empty_square (sq 7 7) }) decode_refused
