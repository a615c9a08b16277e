-- ===== src/Game/Soundness/Reached.antt =====
-- Every position that legal moves lead to from the even start is sound.
use tabia_shogi_server.Common.{
  ℕ, Bool, true, false, not, ◌||◌, Option, none, some, ◌==◌, ◌≡◌, refl, ◌∙◌, ap, ok, arith, any,
  all, all_elim, find,
}
use tabia_shogi_server.Game.Position.Pieces.{
  Color, opponent, opponent-opponent, Square, OnBoard, square_eq, square_eq_iff, Piece, Move,
  holds_piece,
}
use tabia_shogi_server.Game.Position.Board.{Position, hirate, hirate-IsPosition, piece_at}
use tabia_shogi_server.Game.Legality.Movement.{
  must_promote, in_check, squares, king_square, is_attacked_by, attacks_from, reach, reach_slides,
  ray, ray_loop, step, steps, slides,
}
use tabia_shogi_server.Game.Legality.Apply.{apply_move}
use tabia_shogi_server.Game.Legality.Inversion.{Accepted, apply_move-eq-ok}
use tabia_shogi_server.Game.Legality.Effects.{OnBoardMove}
use tabia_shogi_server.Game.Legality.Geometry.{king_of, mem-squares, holds_piece_complete}
use tabia_shogi_server.Game.Soundness.Defs.{
  pawn_of, HasNoNifu, HasNoDeadPiece, HasOneKing, IsSound, Reachable, here, played,
}
use tabia_shogi_server.Game.Soundness.Moves.{
  Made, moved, dropped, make_move-Made, side_to_move-Made, Made-IsPosition,
}
use tabia_shogi_server.Game.Soundness.Pawns.{
  HasNoNifu-BoardMoved, HasNoNifu-Dropped, HasNoDeadPiece-BoardMoved, HasNoDeadPiece-Dropped,
}
use tabia_shogi_server.Game.Soundness.Kings.{HasOneKing-BoardMoved, HasOneKing-Dropped}

Made-HasNoNifu :
    {p q : Position} {mv : Move} → IsSound p → Made p q mv → OnBoardMove mv → HasNoNifu q
Made-HasNoNifu s (moved m) on = HasNoNifu-BoardMoved s.well_formed m on.0 on.1 s.no_nifu
Made-HasNoNifu s (dropped d) on = HasNoNifu-Dropped s.well_formed d on s.no_nifu

Made-HasNoDeadPiece :
    {p q : Position} {mv : Move} → IsSound p → Made p q mv → OnBoardMove mv → HasNoDeadPiece q
Made-HasNoDeadPiece s (moved m) on =
    HasNoDeadPiece-BoardMoved s.well_formed m on.0 on.1 s.no_dead_piece
Made-HasNoDeadPiece s (dropped d) on = HasNoDeadPiece-Dropped s.well_formed d on s.no_dead_piece

Made-HasOneKing :
    {p q : Position} {mv : Move}
    → IsSound p
    → Made p q mv
    → OnBoardMove mv
    → (c : Color) → HasOneKing q c
Made-HasOneKing s (moved m) on =
    HasOneKing-BoardMoved s.well_formed m on.0 on.1 s.opponent_safe s.one_king
Made-HasOneKing s (dropped d) on = HasOneKing-Dropped s.well_formed d on s.one_king

-- A legal move on the board leads from a sound position to a sound one: nine ranks of nine files,
-- no two unpromoted pawns of one side on a file, no piece that could never move again, one king of
-- each side, and the side that moved not in check.
pub apply_move-IsSound :
    (p : Position) (mv : Move) (q : Position)
    → IsSound p
    → OnBoardMove mv
    → apply_move p mv ≡ ok q
    → IsSound q
apply_move-IsSound p mv q s on h =
    let a : Accepted p mv q = apply_move-eq-ok p mv q h in
    let made : Made p q mv = make_move-Made p q mv a.made in
    record {
      well_formed = Made-IsPosition made on s.well_formed;
      no_nifu = Made-HasNoNifu s made on;
      no_dead_piece = Made-HasNoDeadPiece s made on;
      one_king = Made-HasOneKing s made on;
      opponent_safe =
          ap (in_check q) (ap opponent (side_to_move-Made made) ∙ opponent-opponent p.side_to_move)
          ∙ a.king_safe;
    }

pub Reachable-IsSound : {start p : Position} → IsSound start → Reachable start p → IsSound p
Reachable-IsSound s here = s
Reachable-IsSound s (played {p = p} {q = q} mv r on h) =
    apply_move-IsSound p mv q (Reachable-IsSound s r) on h

-- A test of every square, read at one.
module _ (f : Square → Bool) (table : all f squares ≡ true) where
  pub on_every_square : (s : Square) → OnBoard s → f s ≡ true
  on_every_square s on = all_elim f (mem-squares s on) table

implies : Bool → Bool → Bool
implies a b = not a || b

home_rank : Color → ℕ
home_rank Color.black = 7
home_rank Color.white = 3

hirate_pawns :
    (c : Color)
    → all
        (λ s. implies (holds_piece (piece_at hirate s) (pawn_of c)) (s.rank == home_rank c))
        squares
      ≡ true
unfolding all squares piece_at hirate implies home_rank
hirate_pawns Color.black = refl
hirate_pawns Color.white = refl

king_home : Color → Square
king_home Color.black = record { file = 5; rank = 9 }
king_home Color.white = record { file = 5; rank = 1 }

hirate_kings :
    (c : Color)
    → all
        (λ s. implies (holds_piece (piece_at hirate s) (king_of c)) (square_eq s (king_home c)))
        squares
      ≡ true
unfolding all squares piece_at hirate implies king_home
hirate_kings Color.black = refl
hirate_kings Color.white = refl

moves_on : Option Piece → Square → Bool
moves_on none s = true
moves_on (some piece) s = not (must_promote piece.kind piece.color s)

hirate_alive : all (λ s. moves_on (piece_at hirate s) s) squares ≡ true
unfolding all squares piece_at hirate moves_on must_promote
hirate_alive = refl

on_king_home : (c : Color) → OnBoard (king_home c)
unfolding king_home
on_king_home Color.black = omega arith
on_king_home Color.white = omega arith

at_king_home : (c : Color) → piece_at hirate (king_home c) ≡ some (king_of c)
unfolding king_home piece_at hirate
at_king_home Color.black = refl
at_king_home Color.white = refl

hirate_king : (c : Color) → HasOneKing hirate c
unfolding implies
hirate_king c = record {
  king = king_home c;
  on = on_king_home c;
  standing = at_king_home c;
  only = λ t on h. ground (
    arith,
    on_every_square _ (hirate_kings c) t on,
    holds_piece_complete (piece_at hirate t) (king_of c) h,
    square_eq_iff t (king_home c),
  );
}

pawn_home :
    (c : Color) (s : Square)
    → OnBoard s
    → piece_at hirate s ≡ some (pawn_of c)
    → s.rank ≡ home_rank c
unfolding implies
pawn_home c s on h = ground (
  arith,
  on_every_square _ (hirate_pawns c) s on,
  holds_piece_complete (piece_at hirate s) (pawn_of c) h,
)

hirate-HasNoNifu : HasNoNifu hirate
hirate-HasNoNifu c s t on_s on_t same at_s at_t =
    (square_eq_iff s t).0 (ground (arith, pawn_home c s on_s at_s, pawn_home c t on_t at_t, same))

hirate-HasNoDeadPiece : HasNoDeadPiece hirate
unfolding moves_on
hirate-HasNoDeadPiece s x on h = ground (arith, on_every_square _ hirate_alive s on)

hirate_safe : in_check hirate (opponent hirate.side_to_move) ≡ false
unfolding in_check king_square find squares piece_at hirate is_attacked_by any attacks_from reach
    reach_slides ray ray_loop step steps slides opponent
hirate_safe = refl

pub hirate-IsSound : IsSound hirate
hirate-IsSound = record {
  well_formed = hirate-IsPosition;
  no_nifu = hirate-HasNoNifu;
  no_dead_piece = hirate-HasNoDeadPiece;
  one_king = hirate_king;
  opponent_safe = hirate_safe;
}
