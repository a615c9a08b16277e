-- ===== src/Game/Legality/Apply.antt =====
-- src/game/legality.rs: `apply_move` and what it refuses.
use tabia_shogi_server.Common.{
  ℕ, Bool, true, false, not, ◌&&◌, ◌||◌, Option, none, some, [], ◌∷◌, ◌==◌, if◌then◌else◌, Result,
  ok, err, ◌>>=◌, ◌>>◌, guard, ok_or, is_ok, any,
}
use tabia_shogi_server.Game.Position.Pieces.{
  Color, opponent, color_eq, Square, PieceKind, promoted, base, Piece, HandKind, hand_kinds,
  hand_kind_eq, from_piece_kind, to_piece_kind, Move,
}
use tabia_shogi_server.Game.Position.Hands.{Hand, NotInHand, count, add, remove}
use tabia_shogi_server.Game.Position.Board.{
  Position, piece_at, set_piece_at, hand, set_hand, set_side_to_move,
}
use tabia_shogi_server.Game.Legality.Movement.{
  Reach, reach, in_check, in_promotion_zone, must_promote, is_dead_drop,
  has_unpromoted_pawn_on_file, squares,
}

pub data Illegal : Type 0 where
  empty_square : Square → Illegal
  not_own_piece : Square → Illegal
  own_piece_on_destination : Square → Illegal
  unreachable : Square → Square → Illegal
  path_blocked : Square → Square → Illegal
  promotion_not_permitted : Square → Square → Illegal
  promotion_required : Square → Square → Illegal
  king_left_in_check : Illegal
  not_in_hand : NotInHand → Illegal
  occupied_square : Square → Illegal
  dead_drop : HandKind → Square → Illegal
  nifu : ℕ → Illegal
  drop_pawn_mate : Square → Illegal

abbrev pub Applied : Type 0
Applied = Result Illegal Position

-- A square that holds a piece of this color.
abbrev pub occupied_by : Option Piece → Color → Bool
occupied_by none color = false
occupied_by (some occupant) color = color_eq occupant.color color

abbrev pub check_reach : Reach → Square → Square → Result Illegal (Unit {0})
check_reach Reach.reaches from to = ok tt
check_reach Reach.blocked from to = err (Illegal.path_blocked from to)
check_reach Reach.unreachable from to = err (Illegal.unreachable from to)

-- The kind that arrives: the piece's promotion where the move asks for it.
unfoldable pub arriving_kind : PieceKind → Color → Square → Square → Bool → Result Illegal PieceKind
arriving_kind kind mover from to true = do
  promoted_kind ← ok_or (promoted kind) (Illegal.promotion_not_permitted from to)
  guard (in_promotion_zone mover from || in_promotion_zone mover to)
      (Illegal.promotion_not_permitted from to)
  ok promoted_kind
arriving_kind kind mover from to false = do
  guard (not (must_promote kind mover to)) (Illegal.promotion_required from to)
  ok kind

-- `captured.kind.base().unwrap_or(captured.kind)`
abbrev pub reverted : PieceKind → PieceKind
reverted kind = elim (base kind) [ none ↦ kind | some b ↦ b ]

-- The capture joins the mover's hand as its base kind; a King enters no hand.
unfoldable pub take_captured : Position → Color → Option Piece → Position
take_captured next mover none = next
take_captured next mover (some captured) = elim (from_piece_kind (reverted captured.kind)) [
  | none ↦ next
  | some held ↦ set_hand next mover (add (hand next mover) held)
]

unfoldable pub move_piece : Position → Color → Square → Square → PieceKind → Position
unfolding set_side_to_move
move_piece position mover from to arriving =
    let lifted = set_piece_at position from none in
    let taken = take_captured lifted mover (piece_at position to) in
    let placed = set_piece_at taken to (some (record { kind = arriving; color = mover })) in
    set_side_to_move placed (opponent mover)

unfoldable pub apply_board_move : Position → Color → Square → Square → Bool → Applied
apply_board_move position mover from to promote = do
  piece ← ok_or (piece_at position from) (Illegal.empty_square from)
  guard (color_eq piece.color mover) (Illegal.not_own_piece from)
  guard (not (occupied_by (piece_at position to) mover)) (Illegal.own_piece_on_destination to)
  check_reach (reach position from piece to) from to
  arriving ← arriving_kind piece.kind mover from to promote
  ok (move_piece position mover from to arriving)

abbrev pub is_pawn : HandKind → Bool
is_pawn piece = hand_kind_eq piece HandKind.pawn

-- `map_err(Illegal::NotInHand)`
abbrev pub or_not_in_hand : Result NotInHand Hand → Result Illegal Hand
or_not_in_hand (ok h) = ok h
or_not_in_hand (err e) = err (Illegal.not_in_hand e)

unfoldable pub drop_piece : Position → Color → HandKind → Square → Hand → Position
unfolding set_side_to_move
drop_piece position mover piece to h =
    let placed =
      set_piece_at (set_hand position mover h) to
        (some (record { kind = to_piece_kind piece; color = mover })) in
    set_side_to_move placed (opponent mover)

unfoldable pub apply_drop : Position → Color → HandKind → Square → Applied
apply_drop position mover piece to = do
  guard (not (count (hand position mover) piece == 0))
      (Illegal.not_in_hand (record { kind = piece }))
  guard (elim (piece_at position to) [ none ↦ true | some _ ↦ false ]) (Illegal.occupied_square to)
  guard (not (is_dead_drop piece mover to)) (Illegal.dead_drop piece to)
  guard (not (is_pawn piece && has_unpromoted_pawn_on_file position mover to.file))
      (Illegal.nifu to.file)
  h ← or_not_in_hand (remove (hand position mover) piece)
  ok (drop_piece position mover piece to h)

-- The move made, before the mover's king is asked about.
unfoldable pub make_move : Position → Move → Applied
make_move position (Move.board from to promote) =
    apply_board_move position position.side_to_move from to promote
make_move position (Move.drop piece to) = apply_drop position position.side_to_move piece to

pub data DropPawnMateRule : Type 0 where
  enforced suspended : DropPawnMateRule

abbrev pub is_ruled_pawn_drop : DropPawnMateRule → Move → Bool
is_ruled_pawn_drop DropPawnMateRule.enforced (Move.drop piece to) = is_pawn piece
is_ruled_pawn_drop _ _ = false

abbrev pub destination : Move → Square
destination (Move.board from to promote) = to
destination (Move.drop piece to) = to

-- The body of `validate`, with the search for a reply that it calls as an argument. The search
-- validates under the suspended rule, where the body makes no such call: see `validate`.
unfoldable pub validate_with : (Position → Bool) → Position → Move → DropPawnMateRule → Applied
validate_with has_reply position mv rule =
    let mover = position.side_to_move in
    do
      next ← make_move position mv
      guard (not (in_check next mover)) Illegal.king_left_in_check
      guard
          (not (
            is_ruled_pawn_drop rule mv && (in_check next (opponent mover) && not (has_reply next))))
          (Illegal.drop_pawn_mate (destination mv))
      ok next

unfoldable pub validate_suspended : Position → Move → Applied
unfolding validate_with
validate_suspended position mv = validate_with (λ _. true) position mv DropPawnMateRule.suspended

-- The search over board moves, from one square.
unfoldable pub has_board_move_from : Position → Square → Bool
has_board_move_from position from = elim (piece_at position from) [
  | none ↦ false
  | some piece ↦
      if color_eq piece.color position.side_to_move
      then any
          (λ to.
            any (λ promote. is_ok (validate_suspended position (Move.board from to promote)))
              (false ∷ true ∷ []))
          squares
      else false
]

-- The search over drops, of one kind.
unfoldable pub has_drop_of : Position → HandKind → Bool
has_drop_of position kind =
    if count (hand position position.side_to_move) kind == 0
    then false
    else any (λ to. is_ok (validate_suspended position (Move.drop kind to))) squares

unfoldable pub has_legal_move : Position → Bool
has_legal_move position =
    any (has_board_move_from position) squares || any (has_drop_of position) hand_kinds

unfoldable pub validate : Position → Move → DropPawnMateRule → Applied
unfolding validate_with
validate = validate_with has_legal_move

unfoldable pub apply_move : Position → Move → Applied
unfolding validate
apply_move position mv = validate position mv DropPawnMateRule.enforced
