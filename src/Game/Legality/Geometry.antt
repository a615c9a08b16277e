-- ===== src/Game/Legality/Geometry.antt =====
-- The squares of the board as a list, and one step from a square in coordinates.
use mathlib.Core.List.{Memᴰ}
use tabia_shogi_server.Common.Int.{ℤ, pos, negsuc, ◌+ℤ◌}
use tabia_shogi_server.Common.{
  ℕ, true, Option, none, some, ◌≡◌, ◌≢◌, ap, arith, any_intro, any_elim, find-some, find-none,
  numbers, mem-numbers, filter_map, mem-flat_map, flat_map-mem, mem-filter_map, filter_map-mem,
}
use tabia_shogi_server.Game.Position.Pieces.{
  Color, color_eq_iff, Square, OnBoard, square_new, PieceKind, Piece, piece_eq_sound, holds_piece,
  kind_eq_refl,
}
use tabia_shogi_server.Game.Position.Board.{Position, piece_at}
use tabia_shogi_server.Game.Legality.Movement.{
  Delta, oriented, to_u8, ◌>>=◌, step, squares, Reach, reach, attacks_from, is_attacked_by,
  king_square,
}

square_new-eq-some :
    (f r : ℕ) (s : Square) → square_new f r ≡ some s → OnBoard s × (s.file ≡ f) × (s.rank ≡ r)
unfolding square_new
square_new-eq-some f r s h = ground arith

pub square_new_of_OnBoard : (s : Square) → OnBoard s → square_new s.file s.rank ≡ some s
unfolding square_new
square_new_of_OnBoard s on = ground arith

-- The list of squares holds exactly the squares of the board.
pub mem-squares : (s : Square) → OnBoard s → Memᴰ s squares
unfolding squares
mem-squares s on =
    mem-flat_map (λ file. filter_map (λ rank. square_new file rank) (numbers 1 9))
      (mem-numbers 1 9 s.file (omega arith) (omega arith))
      (mem-filter_map (λ rank. square_new s.file rank)
        (mem-numbers 1 9 s.rank (omega arith) (omega arith)) (square_new_of_OnBoard s on))

pub squares-OnBoard : {s : Square} → Memᴰ s squares → OnBoard s
unfolding squares
squares-OnBoard {s} m =
    let (f, _, mf) =
      flat_map-mem (λ file. filter_map (λ rank. square_new file rank) (numbers 1 9)) (numbers 1 9)
        m in
    let (r, _, e) = filter_map-mem (λ rank. square_new f rank) (numbers 1 9) mf in
    (square_new-eq-some f r s e).0

-- `t` lies one delta from `s`, in coordinates.
abbrev pub Shift : Delta → Square → Square → Type 0
Shift δ s t = OnBoard t × (pos t.file ≡ pos s.file +ℤ δ.0) × (pos t.rank ≡ pos s.rank +ℤ δ.1)

read_square :
    (a b : ℤ) (t : Square)
    → (do file ← to_u8 a; rank ← to_u8 b; square_new file rank) ≡ some t
    → OnBoard t × (pos t.file ≡ a) × (pos t.rank ≡ b)
unfolding square_new
read_square (pos f) (pos r) t h = ground arith
read_square (pos f) (negsuc r) t h = ground arith
read_square (negsuc f) b t h = ground arith

write_square :
    (t : Square)
    → OnBoard t
    → (do file ← to_u8 (pos t.file); rank ← to_u8 (pos t.rank); square_new file rank) ≡ some t
unfolding square_new
write_square t on = ground arith

-- A step succeeds exactly onto the square of the board that lies one delta away.
pub step_sound :
    (s : Square) (δ : Delta) (c : Color) (t : Square)
    → step s δ c ≡ some t
    → Shift (oriented δ c) s t
unfolding step
step_sound s δ c t h =
    read_square (pos s.file +ℤ (oriented δ c).0) (pos s.rank +ℤ (oriented δ c).1) t h

pub step_complete :
    (s : Square) (δ : Delta) (c : Color) (t : Square)
    → Shift (oriented δ c) s t
    → step s δ c ≡ some t
unfolding step
step_complete s δ c t (on, ef, er) = rw (← ef, ← er) (write_square t on)

-- What `is_attacked_by` looks for: a piece of the attacker that reaches the target.
pub record Attack (p : Position) (target : Square) (attacker : Color) : Type 0 where
  pub from : Square
  pub on : OnBoard from
  pub piece : Piece
  pub standing : piece_at p from ≡ some piece
  pub owner : piece.color ≡ attacker
  pub reached : reach p from piece target ≡ Reach.reaches

attacks_from_sound :
    (p : Position) (target : Square) (attacker : Color) (from : Square)
    → attacks_from p target attacker from ≡ true
    → (piece : Piece) × (piece_at p from ≡ some piece)
      × (piece.color ≡ attacker)
      × (reach p from piece target ≡ Reach.reaches)
unfolding attacks_from
attacks_from_sound p target attacker from h = ground arith

attacks_from_complete :
    (p : Position) (target : Square) (attacker : Color) (from : Square) (piece : Piece)
    → piece_at p from ≡ some piece
    → piece.color ≡ attacker
    → reach p from piece target ≡ Reach.reaches
    → attacks_from p target attacker from ≡ true
unfolding attacks_from
attacks_from_complete p target attacker from piece standing owner reached = ground arith

pub is_attacked_by_sound :
    (p : Position) (target : Square) (attacker : Color)
    → is_attacked_by p target attacker ≡ true
    → Attack p target attacker
unfolding is_attacked_by
is_attacked_by_sound p target attacker h =
    let (from, m, fires) = any_elim (attacks_from p target attacker) squares h in
    let (piece, standing, owner, reached) = attacks_from_sound p target attacker from fires in
    record {
      from = from;
      on = squares-OnBoard m;
      piece = piece;
      standing = standing;
      owner = owner;
      reached = reached;
    }

pub is_attacked_by_complete :
    (p : Position) (target : Square) (attacker : Color)
    → Attack p target attacker
    → is_attacked_by p target attacker ≡ true
unfolding is_attacked_by
is_attacked_by_complete p target attacker a =
    any_intro (attacks_from p target attacker) (mem-squares a.from a.on)
      (attacks_from_complete p target attacker a.from a.piece a.standing a.owner a.reached)

abbrev pub king_of : Color → Piece
king_of c = record { kind = PieceKind.king; color = c }

pub holds_piece_sound : (o : Option Piece) (b : Piece) → holds_piece o b ≡ true → o ≡ some b
holds_piece_sound none b h = ground arith
holds_piece_sound (some a) b h = ap some (piece_eq_sound a b h)

pub holds_piece_complete : (o : Option Piece) (b : Piece) → o ≡ some b → holds_piece o b ≡ true
holds_piece_complete o b e =
    rw e (ground (arith, kind_eq_refl b.kind, color_eq_iff b.color b.color))

pub king_square-some :
    (p : Position) (c : Color) (s : Square)
    → king_square p c ≡ some s
    → OnBoard s × (piece_at p s ≡ some (king_of c))
unfolding king_square
king_square-some p c s h =
    let (m, holds) = find-some (λ square. holds_piece (piece_at p square) (king_of c)) squares h in
    (squares-OnBoard m, holds_piece_sound (piece_at p s) (king_of c) holds)

pub king_square-none :
    (p : Position) (c : Color) (s : Square)
    → king_square p c ≡ none
    → OnBoard s
    → piece_at p s ≢ some (king_of c)
unfolding king_square
king_square-none p c s h on e = cc (
  find-none (λ square. holds_piece (piece_at p square) (king_of c)) (mem-squares s on) h,
  holds_piece_complete (piece_at p s) (king_of c) e,
)
