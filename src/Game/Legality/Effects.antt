-- ===== src/Game/Legality/Effects.antt =====
-- What a move that is made does to the board and the hands, square by square.
use tabia_shogi_server.Common.{
  ℕ, ◌+◌, Option, none, some, if◌then◌else◌, ◌≡◌, refl, arith, inl, inr, Option-cases, min,
}
use tabia_shogi_server.Game.Position.Pieces.{
  Color, opponent, color_eq, color_eq_iff, Square, OnBoard, square_eq, PieceKind, Piece, HandKind,
  hand_kind_eq, from_piece_kind, to_piece_kind, Move,
}
use tabia_shogi_server.Game.Position.Hands.{Hand, IsHand, count, add, count-add, add-IsHand}
use tabia_shogi_server.Game.Position.Board.{
  Position, IsPosition, piece_at, set_piece_at, hand, set_hand, set_side_to_move,
  piece_at-set_piece_at, set_piece_at-IsPosition, hand-set_hand, set_hand-IsPosition,
}
use tabia_shogi_server.Game.Legality.Apply.{reverted, take_captured, move_piece, drop_piece}

-- The squares that a move names are on the board, as every `Square` is.
abbrev pub OnBoardMove : Move → Type 0
OnBoardMove (Move.board from to promote) = OnBoard from × OnBoard to
OnBoardMove (Move.drop piece to) = OnBoard to

-- What the hands of the capturing side gain.
abbrev pub gained : Option Piece → HandKind → ℕ → ℕ
gained none k n = n
gained (some captured) k n = elim (from_piece_kind (reverted captured.kind)) [
  | none ↦ n
  | some held ↦ if hand_kind_eq held k then min 255 (n + 1) else n
]

module _ (p : Position) (c : Color) where
  pub piece_at-set_hand : (h : Hand) (t : Square) → piece_at (set_hand p c h) t ≡ piece_at p t
  unfolding piece_at set_hand
  piece_at-set_hand h t = refl

  pub piece_at-set_side_to_move : (t : Square) → piece_at (set_side_to_move p c) t ≡ piece_at p t
  unfolding piece_at set_side_to_move
  piece_at-set_side_to_move t = refl

  pub set_side_to_move-IsPosition : IsPosition p → IsPosition (set_side_to_move p c)
  unfolding set_side_to_move hand
  set_side_to_move-IsPosition valid = record {
    nine_ranks = valid.nine_ranks;
    nine_files = valid.nine_files;
    held = valid.held;
  }

  pub piece_at-take_captured :
      (o : Option Piece) (t : Square) → piece_at (take_captured p c o) t ≡ piece_at p t
  unfolding take_captured
  piece_at-take_captured none t = refl
  piece_at-take_captured (some x) t = elim (Option-cases (from_piece_kind (reverted x.kind))) [
    | inl e ↦ rw (e, take_captured)
    | inr (k, e) ↦ rw (e, take_captured) (piece_at-set_hand (add (hand p c) k) t)
  ]

  pub take_captured-IsPosition :
      (o : Option Piece) → IsPosition p → IsPosition (take_captured p c o)
  unfolding take_captured
  take_captured-IsPosition none valid = valid
  take_captured-IsPosition (some x) valid =
      elim (Option-cases (from_piece_kind (reverted x.kind))) [
        | inl e ↦ rw (e, take_captured) valid
        | inr (k, e) ↦
            rw (e, take_captured)
              (set_hand-IsPosition p c _ valid (add-IsHand (hand p c) k (valid.held c)))
      ]

  pub count-take_captured :
      (o : Option Piece) (d : Color) (k : HandKind)
      → IsPosition p
      → count (hand (take_captured p c o) d) k
        ≡ (if color_eq c d then gained o k (count (hand p d) k) else count (hand p d) k)
  unfolding take_captured
  count-take_captured none d k valid = ground arith
  count-take_captured (some x) d k valid = elim (Option-cases (from_piece_kind (reverted x.kind))) [
    | inl e ↦ ground arith
    | inr (j, e) ↦ ground (
      arith,
      hand-set_hand p c (add (hand p c) j) d,
      count-add (hand p c) j (valid.held c) k,
      color_eq_iff c d,
    )
  ]

module _ (p : Position) (c : Color) (from to : Square) (arriving : PieceKind) (valid : IsPosition p)
    (on_from : OnBoard from) (on_to : OnBoard to) where
  lifted : Position
  lifted = set_piece_at p from none

  taken : Position
  unfolding lifted
  taken = take_captured lifted c (piece_at p to)

  lifted-IsPosition : IsPosition lifted
  unfolding lifted
  lifted-IsPosition = set_piece_at-IsPosition p from none valid on_from

  taken-IsPosition : IsPosition taken
  unfolding taken
  taken-IsPosition = take_captured-IsPosition lifted c (piece_at p to) lifted-IsPosition

  pub piece_at-move_piece :
      (t : Square)
      → OnBoard t
      → piece_at (move_piece p c from to arriving) t ≡ (
          if square_eq to t
          then some (record { kind = arriving; color = c })
          else if square_eq from t
          then none
          else piece_at p t)
  unfolding move_piece taken
  piece_at-move_piece t on =
      let v : Option Piece = some (record { kind = arriving; color = c }) in
      ground (
        arith,
        piece_at-set_side_to_move (set_piece_at taken to v) (opponent c) t,
        piece_at-set_piece_at taken to v taken-IsPosition on_to t on,
        piece_at-take_captured lifted c (piece_at p to) t,
        piece_at-set_piece_at p from none valid on_from t on,
      )

  pub move_piece-IsPosition : IsPosition (move_piece p c from to arriving)
  unfolding move_piece taken
  move_piece-IsPosition =
      set_side_to_move-IsPosition _ (opponent c)
        (set_piece_at-IsPosition taken to _ taken-IsPosition on_to)

  pub count-move_piece :
      (d : Color) (k : HandKind)
      → count (hand (move_piece p c from to arriving) d) k ≡ (
          if color_eq c d
          then gained (piece_at p to) k (count (hand p d) k)
          else count (hand p d) k)
  unfolding move_piece taken hand set_piece_at
  count-move_piece d k = count-take_captured lifted c (piece_at p to) d k lifted-IsPosition

module _ (p : Position) (c : Color) (k : HandKind) (to : Square) (h : Hand) (valid : IsPosition p)
    (good : IsHand h) (on_to : OnBoard to) where
  valid' : IsPosition (set_hand p c h)
  valid' = set_hand-IsPosition p c h valid good

  pub piece_at-drop_piece :
      (t : Square)
      → OnBoard t
      → piece_at (drop_piece p c k to h) t ≡ (
          if square_eq to t
          then some (record { kind = to_piece_kind k; color = c })
          else piece_at p t)
  unfolding drop_piece
  piece_at-drop_piece t on = ground (
    arith,
    piece_at-set_side_to_move
        (set_piece_at (set_hand p c h) to (some (record { kind = to_piece_kind k; color = c })))
        (opponent c) t,
    piece_at-set_piece_at (set_hand p c h) to (some (record { kind = to_piece_kind k; color = c }))
        valid' on_to t on,
    piece_at-set_hand p c h t,
  )

  pub drop_piece-IsPosition : IsPosition (drop_piece p c k to h)
  unfolding drop_piece
  drop_piece-IsPosition =
      set_side_to_move-IsPosition _ (opponent c)
        (set_piece_at-IsPosition (set_hand p c h) to _ valid' on_to)

  pub hand-drop_piece :
      (d : Color) → hand (drop_piece p c k to h) d ≡ (if color_eq c d then h else hand p d)
  unfolding drop_piece hand set_hand set_piece_at
  hand-drop_piece d = ground arith
