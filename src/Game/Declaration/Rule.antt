-- ===== src/Game/Declaration/Rule.antt =====
-- src/game/declaration.rs: the four conditions of a declaration, read off the board.
use tabia_shogi_server.Common.{
  ℕ, ◌+◌, ◌≤◌, true, false, ◌&&◌, none, some, List, [], ◌∷◌, ◌==◌, if◌then◌else◌, ◌≡◌, ◌↔◌, arith,
  any_intro, any_elim, Option-cases, inl, inr,
}
use tabia_shogi_server.Game.Position.Pieces.{
  Color, color_eq, color_eq_iff, Square, OnBoard, PieceKind, kind_eq_sound,
}
use tabia_shogi_server.Game.Position.Board.{Position, piece_at}
use tabia_shogi_server.Game.Legality.Movement.{squares, in_check, in_promotion_zone}
use tabia_shogi_server.Game.Legality.Geometry.{king_of, mem-squares, squares-OnBoard}
use tabia_shogi_server.Game.Soundness.Totals.{total}
use tabia_shogi_server.Game.Declaration.{
  points, Census, count_square, census_loop, camp_census, hand_points, is_entered_king,
  king_entered, holds, required_points,
}

-- What one square adds to a side's points and to its number of pieces: nothing outside the enemy
-- camp, nothing for an empty square, the other side's piece or a king.
unfoldable pub camp_points : Position → Color → Square → ℕ
camp_points p c s = elim (piece_at p s) [
  | none ↦ 0
  | some piece ↦ if in_promotion_zone c s && color_eq piece.color c then points piece.kind else 0
]

unfoldable pub camp_pieces : Position → Color → Square → ℕ
unfolding camp_points
camp_pieces p c s = if camp_points p c s == 0 then 0 else 1

count_square-camp :
    (p : Position) (c : Color) (census : Census) (s : Square)
    → (if in_promotion_zone c s then count_square p c census s else census) ≡ record {
      pieces = census.pieces + camp_pieces p c s;
      points_sum = census.points_sum + camp_points p c s;
    }
unfolding count_square camp_pieces camp_points
count_square-camp p c census s = ground arith

census_loop-total :
    (p : Position) (c : Color) (census : Census) (ss : List Square)
    → census_loop p c census ss ≡ record {
      pieces = census.pieces + total (camp_pieces p c) ss;
      points_sum = census.points_sum + total (camp_points p c) ss;
    }
unfolding census_loop total
census_loop-total p c census [] = ground arith
census_loop-total p c census (s ∷ ss) = ground (
  arith,
  count_square-camp p c census s,
  census_loop-total p c (if in_promotion_zone c s then count_square p c census s else census) ss,
)

pub camp_census-total :
    (p : Position) (c : Color)
    → camp_census p c ≡ record {
      pieces = total (camp_pieces p c) squares;
      points_sum = total (camp_points p c) squares;
    }
unfolding camp_census
camp_census-total p c =
    ground (arith, census_loop-total p c (record { pieces = 0; points_sum = 0 }) squares)

-- A king of the side in the enemy camp.
pub record HasEntered (p : Position) (c : Color) : Type 0 where
  pub king : Square
  pub on : OnBoard king
  pub standing : piece_at p king ≡ some (king_of c)
  pub camp : in_promotion_zone c king ≡ true

is_entered_king_iff :
    (p : Position) (c : Color) (s : Square)
    → (is_entered_king p c s ≡ true)
      ↔ ((piece_at p s ≡ some (king_of c)) × (in_promotion_zone c s ≡ true))
unfolding is_entered_king
is_entered_king_iff p c s = elim (Option-cases (piece_at p s)) [
  | inl e ↦ rw e ground arith
  | inr (x, e) ↦ rw e ground (arith, color_eq_iff x.color c, kind_eq_sound x.kind PieceKind.king)
]

pub king_entered_iff : (p : Position) (c : Color) → (king_entered p c ≡ true) ↔ HasEntered p c
unfolding king_entered
king_entered_iff p c = (
  λ h.
      let (s, m, e) = any_elim (is_entered_king p c) squares h in
      let (standing, camp) = (is_entered_king_iff p c s).0 e in
      record { king = s; on = squares-OnBoard m; standing = standing; camp = camp },
  λ k.
      any_intro (is_entered_king p c) (mem-squares k.king k.on)
        ((is_entered_king_iff p c k.king).1 (k.standing, k.camp)),
)

-- The four conditions of a declaration.
pub record MayDeclare (p : Position) (c : Color) : Type 0 where
  pub safe : in_check p c ≡ false
  pub entered : HasEntered p c
  pub ten_pieces : 10 ≤ total (camp_pieces p c) squares
  pub enough : required_points c ≤ total (camp_points p c) squares + hand_points p c

-- A declaration holds exactly if the declarer is not in check, has a king in the enemy camp, has
-- ten pieces there besides, and reaches 28 points as Black or 27 as White with them and the hand.
pub holds_iff : (p : Position) (c : Color) → (holds p c ≡ true) ↔ MayDeclare p c
unfolding holds
holds_iff p c = (
  λ h.
      let census = camp_census-total p c in
      record {
        safe = ground arith;
        entered = (king_entered_iff p c).0 (ground arith);
        ten_pieces = ground (arith, census);
        enough = ground (arith, census);
      },
  λ d. ground (
    arith,
    camp_census-total p c,
    d.safe,
    (king_entered_iff p c).1 d.entered,
    d.ten_pieces,
    d.enough,
  ),
)
