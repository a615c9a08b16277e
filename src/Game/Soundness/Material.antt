-- ===== src/Game/Soundness/Material.antt =====
-- No piece appears or vanishes: of each kind, the board and the two hands keep as many.
use tabia_shogi_server.Common.{
  ℕ, ◌+◌, ◌≤◌, Bool, false, Option, none, some, if◌then◌else◌, ◌≡◌, refl, sym, ◌∙◌, ap, ok, arith,
  Bool-cases, inl, inr,
}
use tabia_shogi_server.Game.Position.Pieces.{
  Color, color_eq, color_eq_iff, Square, OnBoard, square_eq, square_eq_iff, PieceKind, promoted,
  base, Piece, HandKind, hand_kind_eq, hand_kind_eq_sound, from_piece_kind, to_piece_kind, Move,
}
use tabia_shogi_server.Game.Position.Hands.{count, hand_new}
use tabia_shogi_server.Game.Position.Board.{Position, IsPosition, hirate, piece_at, hand}
use tabia_shogi_server.Game.Legality.Movement.{squares}
use tabia_shogi_server.Game.Legality.Apply.{reverted, arriving_kind, apply_move}
use tabia_shogi_server.Game.Legality.Inversion.{apply_move-eq-ok, BoardMoved, Dropped}
use tabia_shogi_server.Game.Legality.Effects.{
  OnBoardMove, gained, count-move_piece, hand-drop_piece,
}
use tabia_shogi_server.Game.Soundness.Defs.{Reachable, here, played}
use tabia_shogi_server.Game.Soundness.Moves.{
  Made, moved, dropped, make_move-Made, piece_at-BoardMoved, piece_at-Dropped, left-held,
}
use tabia_shogi_server.Game.Soundness.Reached.{Reachable-IsSound, hirate-IsSound}
use tabia_shogi_server.Game.Soundness.Totals.{total, total_change}

-- 1 for a piece of the kind, promoted or not, and 0 for any other and for an empty square.
unfoldable pub worth : HandKind → Option Piece → ℕ
worth k none = 0
worth k (some x) = elim (from_piece_kind (reverted x.kind)) [
  | none ↦ 0
  | some j ↦ if hand_kind_eq j k then 1 else 0
]

unfoldable pub on_board : HandKind → Position → ℕ
on_board k p = total (λ s. worth k (piece_at p s)) squares

unfoldable pub material : HandKind → Position → ℕ
unfolding on_board
material k p = on_board k p + (count (hand p Color.black) k + count (hand p Color.white) k)

-- Promotion does not change what a piece counts as.
worth-arriving :
    (k : HandKind) (x : PieceKind) (c d : Color) (from to : Square) (promote : Bool) (a : PieceKind)
    → arriving_kind x c from to promote ≡ ok a
    → worth k (some (record { kind = a; color = c }))
      ≡ worth k (some (record { kind = x; color = d }))
unfolding worth arriving_kind promoted base from_piece_kind
worth-arriving k x c d from to promote a h = ground arith

gained-worth :
    (o : Option Piece) (k : HandKind) (n : ℕ) → n + worth k o ≤ 255 → gained o k n ≡ n + worth k o
unfolding worth
gained-worth none k n h = ground arith
gained-worth (some x) k n h = ground arith

worth-none : (k : HandKind) → worth k none ≡ 0
unfolding worth
worth-none k = refl

worth-to_piece_kind :
    (j k : HandKind) (c : Color)
    → worth k (some (record { kind = to_piece_kind j; color = c }))
      ≡ (if hand_kind_eq j k then 1 else 0)
unfolding worth to_piece_kind base from_piece_kind
worth-to_piece_kind j k c = ground arith

module _ {p q : Position} {c : Color} {from to : Square} {promote : Bool} (valid : IsPosition p)
    (m : BoardMoved p c from to promote q) (on_from : OnBoard from) (on_to : OnBoard to)
    (k : HandKind) where
  apart : square_eq from to ≡ false
  apart = elim (Bool-cases (square_eq from to)) [
    | inl same ↦ ground (
      arith,
      m.standing,
      m.own,
      m.not_own_target,
      ap (piece_at p) ((square_eq_iff from to).0 same),
      color_eq_iff m.piece.color c,
    )
    | inr other ↦ other
  ]

  on_board-BoardMoved : on_board k q + worth k (piece_at p to) ≡ on_board k p
  unfolding on_board
  on_board-BoardMoved =
      let f : Square → ℕ = λ s. worth k (piece_at p s) in
      let g₁ : Square → ℕ = λ s. if square_eq from s then 0 else f s in
      let g : Square → ℕ = λ s. worth k (piece_at q s) in
      let a : ℕ = worth k (some (record { kind = m.arriving; color = c })) in
      let first : total g₁ squares + f from ≡ total f squares + 0 =
        total_change f g₁ from 0 on_from (λ t on. refl) in
      let second : total g squares + g₁ to ≡ total g₁ squares + a =
        total_change g₁ g to a on_to
          (λ t on. ground (arith, piece_at-BoardMoved valid m on_from on_to t on, worth-none k)) in
      let moved_worth : a ≡ f from =
        worth-arriving k m.piece.kind c m.piece.color from to promote m.arriving m.arrives
        ∙ ap (worth k) (sym m.standing) in
      let kept : g₁ to ≡ f to = rw apart in omega (arith, first, second, moved_worth, kept)

  material-BoardMoved : material k p ≤ 255 → material k q ≡ material k p
  unfolding material
  material-BoardMoved fits =
      let counts : (d : Color)
          → count (hand q d) k ≡ (
              if color_eq c d
              then gained (piece_at p to) k (count (hand p d) k)
              else count (hand p d) k) =
        λ d.
          ap (λ (x : Position). count (hand x d) k) m.result
          ∙ count-move_piece p c from to m.arriving valid on_from on_to d k in
      ground (
        arith,
        on_board-BoardMoved,
        counts Color.black,
        counts Color.white,
        gained-worth (piece_at p to) k (count (hand p Color.black) k),
        gained-worth (piece_at p to) k (count (hand p Color.white) k),
      )

module _ {p q : Position} {c : Color} {piece : HandKind} {to : Square} (valid : IsPosition p)
    (d : Dropped p c piece to q) (on_to : OnBoard to) (k : HandKind) where
  on_board-Dropped : on_board k q ≡ on_board k p + (if hand_kind_eq piece k then 1 else 0)
  unfolding on_board
  on_board-Dropped =
      let f : Square → ℕ = λ s. worth k (piece_at p s) in
      let g : Square → ℕ = λ s. worth k (piece_at q s) in
      let a : ℕ = worth k (some (record { kind = to_piece_kind piece; color = c })) in
      let change : total g squares + f to ≡ total f squares + a =
        total_change f g to a on_to (λ t on. ground (arith, piece_at-Dropped valid d on_to t on)) in
      omega (arith, change, ap (worth k) d.vacant, worth-none k, worth-to_piece_kind piece k c)

  material-Dropped : material k q ≡ material k p
  unfolding material
  material-Dropped =
      let (_, held, counts) = left-held valid d on_to in
      let after : (e : Color)
          → count (hand q e) k ≡ (if color_eq c e then count d.left k else count (hand p e) k) =
        λ e.
          ap (λ (x : Position). count (hand x e) k) d.result
          ∙ rw (hand-drop_piece p c piece to d.left valid (left-held valid d on_to).0 on_to e)
              (ground arith) in
      ground (
        arith,
        on_board-Dropped,
        after Color.black,
        after Color.white,
        counts k,
        held,
        hand_kind_eq_sound piece k,
      )

Made-material :
    {p q : Position} {mv : Move} (k : HandKind)
    → Made p q mv
    → OnBoardMove mv
    → IsPosition p
    → material k p ≤ 255
    → material k q ≡ material k p
Made-material k (moved m) on valid fits = material-BoardMoved valid m on.0 on.1 k fits
Made-material k (dropped d) on valid fits = material-Dropped valid d on k

-- A legal move on the board keeps the number of pieces of every kind but the king, counted over
-- the board, promoted or not, and both hands, in a well-formed position of at most 255 of them,
-- the most a hand's byte can count.
pub material-apply_move :
    (k : HandKind) (p : Position) (mv : Move) (q : Position)
    → IsPosition p
    → OnBoardMove mv
    → material k p ≤ 255
    → apply_move p mv ≡ ok q
    → material k q ≡ material k p
material-apply_move k p mv q valid on fits h =
    Made-material k (make_move-Made p q mv (apply_move-eq-ok p mv q h).made) on valid fits

-- How many of each kind a shogi set has.
abbrev pub set_count : HandKind → ℕ
set_count HandKind.rook = 2
set_count HandKind.bishop = 2
set_count HandKind.gold = 4
set_count HandKind.silver = 4
set_count HandKind.knight = 4
set_count HandKind.lance = 4
set_count HandKind.pawn = 18

material-hirate : (k : HandKind) → material k hirate ≡ set_count k
unfolding material total worth squares piece_at hirate hand hand_new count base from_piece_kind
material-hirate HandKind.rook = refl
material-hirate _ = refl

set_count-le : (k : HandKind) → set_count k ≤ 18
set_count-le k = ground arith

-- Every position that legal moves lead to from the even start has, of each kind but the king, as
-- many pieces as a shogi set, counted over the board, promoted or not, and both hands.
pub material-Reachable :
    (k : HandKind) {p : Position} → Reachable hirate p → material k p ≡ set_count k
material-Reachable k here = material-hirate k
material-Reachable k (played {p = p} {q = q} mv r on h) =
    let before : material k p ≡ set_count k = material-Reachable k r in
    material-apply_move k p mv q (Reachable-IsSound hirate-IsSound r).well_formed on
      (omega (arith, before, set_count-le k)) h
    ∙ before
