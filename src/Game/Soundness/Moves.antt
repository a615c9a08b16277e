-- ===== src/Game/Soundness/Moves.antt =====
-- The squares of a position after a legal move, from the guards that it passed.
use tabia_shogi_server.Common.{◌-◌, ◌<◌, Bool, none, some, if◌then◌else◌, ◌≡◌, ◌∙◌, ap, ok, arith}
use tabia_shogi_server.Game.Position.Pieces.{
  Color, opponent, Square, OnBoard, square_eq, HandKind, hand_kind_eq, to_piece_kind, Move,
}
use tabia_shogi_server.Game.Position.Hands.{IsHand, count, remove-held}
use tabia_shogi_server.Game.Position.Board.{Position, IsPosition, piece_at, hand}
use tabia_shogi_server.Game.Legality.Apply.{move_piece, drop_piece, make_move}
use tabia_shogi_server.Game.Legality.Inversion.{
  BoardMoved, apply_board_move-eq-ok, Dropped, apply_drop-eq-ok,
}
use tabia_shogi_server.Game.Legality.Effects.{
  OnBoardMove, piece_at-move_piece, move_piece-IsPosition, piece_at-drop_piece,
  drop_piece-IsPosition,
}

-- A made move, in the two forms it has.
pub data Made (p q : Position) : Move → Type 0 where
  moved :
      {from to : Square} {promote : Bool}
      → BoardMoved p p.side_to_move from to promote q
      → Made p q (Move.board from to promote)
  dropped :
      {piece : HandKind} {to : Square}
      → Dropped p p.side_to_move piece to q
      → Made p q (Move.drop piece to)

pub make_move-Made : (p q : Position) (mv : Move) → make_move p mv ≡ ok q → Made p q mv
unfolding make_move
make_move-Made p q (Move.board from to promote) h =
    moved (apply_board_move-eq-ok p p.side_to_move from to promote q h)
make_move-Made p q (Move.drop piece to) h = dropped (apply_drop-eq-ok p p.side_to_move piece to q h)

pub side_to_move-Made :
    {p q : Position} {mv : Move} → Made p q mv → q.side_to_move ≡ opponent p.side_to_move
unfolding move_piece drop_piece
side_to_move-Made (moved m) = ap (λ (x : Position). x.side_to_move) m.result
side_to_move-Made (dropped d) = ap (λ (x : Position). x.side_to_move) d.result

module _ {p q : Position} {c : Color} {from to : Square} {promote : Bool} (valid : IsPosition p)
    (m : BoardMoved p c from to promote q) (on_from : OnBoard from) (on_to : OnBoard to) where
  pub piece_at-BoardMoved :
      (t : Square)
      → OnBoard t
      → piece_at q t ≡ (
          if square_eq to t
          then some (record { kind = m.arriving; color = c })
          else if square_eq from t
          then none
          else piece_at p t)
  piece_at-BoardMoved t on =
      ap (λ (x : Position). piece_at x t) m.result
      ∙ piece_at-move_piece p c from to m.arriving valid on_from on_to t on

  pub BoardMoved-IsPosition : IsPosition q
  BoardMoved-IsPosition =
      rw m.result (move_piece-IsPosition p c from to m.arriving valid on_from on_to)

module _ {p q : Position} {c : Color} {piece : HandKind} {to : Square} (valid : IsPosition p)
    (d : Dropped p c piece to q) (on_to : OnBoard to) where
  pub left-held :
      IsHand d.left
      × (0 < count (hand p c) piece)
      × ((j : HandKind)
          → count d.left j
            ≡ (if hand_kind_eq piece j then count (hand p c) piece - 1 else count (hand p c) j))
  left-held =
      let some_held : 0 < count (hand p c) piece = omega (arith, d.held) in
      let (h, e, good, counts) = remove-held (hand p c) piece (valid.held c) some_held in
      let same : h ≡ d.left = ground (arith, e, d.removed) in
      (rw (← same) good, some_held, λ j. rw (← same) (counts j))

  pub piece_at-Dropped :
      (t : Square)
      → OnBoard t
      → piece_at q t ≡ (
          if square_eq to t
          then some (record { kind = to_piece_kind piece; color = c })
          else piece_at p t)
  piece_at-Dropped t on =
      ap (λ (x : Position). piece_at x t) d.result
      ∙ piece_at-drop_piece p c piece to d.left valid left-held.0 on_to t on

  pub Dropped-IsPosition : IsPosition q
  Dropped-IsPosition =
      rw d.result (drop_piece-IsPosition p c piece to d.left valid left-held.0 on_to)

pub Made-IsPosition :
    {p q : Position} {mv : Move} → Made p q mv → OnBoardMove mv → IsPosition p → IsPosition q
Made-IsPosition (moved m) on valid = BoardMoved-IsPosition valid m on.0 on.1
Made-IsPosition (dropped d) on valid = Dropped-IsPosition valid d on
