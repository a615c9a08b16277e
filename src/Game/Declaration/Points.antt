-- ===== src/Game/Declaration/Points.antt =====
-- src/game/declaration.rs: the points that the pieces of a game are worth.
use tabia_shogi_server.Common.{
  ℕ, ◌+◌, ◌*◌, ◌≤◌, false, List, [], ◌∷◌, ◌≡◌, arith, ap, ◌&&◌, &&_split, Bool-cases, inl, inr,
}
use tabia_shogi_server.Game.Position.Pieces.{
  Color, Square, HandKind, from_piece_kind, to_piece_kind, base,
}
use tabia_shogi_server.Game.Position.Hands.{count}
use tabia_shogi_server.Game.Position.Board.{Position, piece_at, hand, hirate}
use tabia_shogi_server.Game.Legality.Movement.{squares}
use tabia_shogi_server.Game.Soundness.Defs.{Reachable}
use tabia_shogi_server.Game.Soundness.Totals.{total}
use tabia_shogi_server.Game.Soundness.Material.{worth, on_board, material, material-Reachable}
use tabia_shogi_server.Game.Declaration.{
  points, sum_hand, hand_points, required_points, holds, camp_census, Census,
}
use tabia_shogi_server.Game.Declaration.Rule.{camp_points, holds_iff, camp_census-total}

-- What the kinds of a hand sum to, at their points.
abbrev weighted : (HandKind → ℕ) → ℕ
weighted f =
    f HandKind.rook * 5
    + f HandKind.bishop * 5
    + f HandKind.gold
    + f HandKind.silver
    + f HandKind.knight
    + f HandKind.lance
    + f HandKind.pawn

camp_points-worth :
    (p : Position) (s : Square)
    → camp_points p Color.black s + camp_points p Color.white s
      ≤ weighted (λ k. worth k (piece_at p s))
unfolding camp_points worth points base from_piece_kind
camp_points-worth p s = ground arith

total-worth :
    (p : Position) (ss : List Square)
    → total (camp_points p Color.black) ss + total (camp_points p Color.white) ss
      ≤ weighted (λ k. total (λ s. worth k (piece_at p s)) ss)
unfolding total
total-worth p [] = omega arith
total-worth p (s ∷ ss) = omega (arith, camp_points-worth p s, total-worth p ss)

hand_points-weighted : (p : Position) (c : Color) → hand_points p c ≡ weighted (count (hand p c))
unfolding hand_points sum_hand points to_piece_kind
hand_points-weighted p c = omega arith

-- In a position that legal moves lead to from the even start, what the two sides could count
-- towards a declaration is at most the 54 points of the set.
pub points-Reachable :
    (p : Position)
    → Reachable hirate p
    → (camp_census p Color.black).points_sum
        + hand_points p Color.black
        + ((camp_census p Color.white).points_sum + hand_points p Color.white)
      ≤ 54
unfolding material on_board
points-Reachable p r =
    rw (camp_census-total p Color.black, camp_census-total p Color.white) omega
      (
        arith,
        total-worth p squares,
        hand_points-weighted p Color.black,
        hand_points-weighted p Color.white,
        material-Reachable HandKind.rook r,
        material-Reachable HandKind.bishop r,
        material-Reachable HandKind.gold r,
        material-Reachable HandKind.silver r,
        material-Reachable HandKind.knight r,
        material-Reachable HandKind.lance r,
        material-Reachable HandKind.pawn r,
      )

abbrev points_of : Census → ℕ
points_of census = census.points_sum

-- In a position that legal moves lead to from the even start, a declaration does not hold for both
-- sides.
pub holds-one_side :
    (p : Position) → Reachable hirate p → holds p Color.black && holds p Color.white ≡ false
unfolding required_points
holds-one_side p r = elim (Bool-cases (holds p Color.black && holds p Color.white)) [
  | inr other ↦ other
  | inl both ↦
      let (b, w) = &&_split (holds p Color.black) (holds p Color.white) both in
      absurd (
        omega (
          arith,
          points-Reachable p r,
          ap points_of (camp_census-total p Color.black),
          ap points_of (camp_census-total p Color.white),
          ((holds_iff p Color.black).0 b).enough,
          ((holds_iff p Color.white).0 w).enough,
        ))
]
