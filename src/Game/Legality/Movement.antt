-- ===== src/Game/Legality/Movement.antt =====
-- src/game/legality.rs: movement patterns, rays, attacks and the zones of the board.
use tabia_shogi_server.Common.Int.{ℤ, pos, negsuc, ◌+ℤ◌, neg}
use tabia_shogi_server.Common.{
  ℕ, zero, suc, ◌-◌, Bool, true, false, ◌||◌, Option, none, some, List, [], ◌∷◌, leb, ltb, ◌==◌,
  if◌then◌else◌, any, find, numbers, flat_map, filter_map,
}
use tabia_shogi_server.Game.Position.Pieces.{
  Color, opponent, color_eq, Square, square_new, square_eq, PieceKind, Piece, holds_piece, HandKind,
  to_piece_kind,
}
use tabia_shogi_server.Game.Position.Board.{Position, piece_at}

-- How far a movement pattern gets toward a destination.
pub data Reach : Type 0 where
  reaches blocked unreachable : Reach

-- A file and a rank delta, from Black's side: rank -1 is one square forward.
abbrev pub Delta : Type 0
Delta = ℤ × ℤ

abbrev pub king_steps : List Delta
king_steps =
    (pos 0, negsuc 0)
    ∷ (pos 1, negsuc 0)
    ∷ (negsuc 0, negsuc 0)
    ∷ (pos 1, pos 0)
    ∷ (negsuc 0, pos 0)
    ∷ (pos 0, pos 1)
    ∷ (pos 1, pos 1)
    ∷ (negsuc 0, pos 1)
    ∷ []

abbrev pub gold_steps : List Delta
gold_steps =
    (pos 0, negsuc 0)
    ∷ (pos 1, negsuc 0)
    ∷ (negsuc 0, negsuc 0)
    ∷ (pos 1, pos 0)
    ∷ (negsuc 0, pos 0)
    ∷ (pos 0, pos 1)
    ∷ []

abbrev pub silver_steps : List Delta
silver_steps =
    (pos 0, negsuc 0)
    ∷ (pos 1, negsuc 0)
    ∷ (negsuc 0, negsuc 0)
    ∷ (pos 1, pos 1)
    ∷ (negsuc 0, pos 1)
    ∷ []

abbrev pub knight_steps : List Delta
knight_steps = (pos 1, negsuc 1) ∷ (negsuc 0, negsuc 1) ∷ []

abbrev pub pawn_steps : List Delta
pawn_steps = (pos 0, negsuc 0) ∷ []

abbrev pub orthogonal : List Delta
orthogonal = (pos 0, negsuc 0) ∷ (pos 0, pos 1) ∷ (pos 1, pos 0) ∷ (negsuc 0, pos 0) ∷ []

abbrev pub diagonal : List Delta
diagonal = (pos 1, negsuc 0) ∷ (negsuc 0, negsuc 0) ∷ (pos 1, pos 1) ∷ (negsuc 0, pos 1) ∷ []

abbrev pub forward : List Delta
forward = (pos 0, negsuc 0) ∷ []

unfoldable pub steps : PieceKind → List Delta
steps PieceKind.king = king_steps
steps PieceKind.gold = gold_steps
steps PieceKind.promoted_silver = gold_steps
steps PieceKind.promoted_knight = gold_steps
steps PieceKind.promoted_lance = gold_steps
steps PieceKind.promoted_pawn = gold_steps
steps PieceKind.silver = silver_steps
steps PieceKind.knight = knight_steps
steps PieceKind.pawn = pawn_steps
steps PieceKind.promoted_rook = diagonal
steps PieceKind.promoted_bishop = orthogonal
steps PieceKind.rook = []
steps PieceKind.bishop = []
steps PieceKind.lance = []

unfoldable pub slides : PieceKind → List Delta
slides PieceKind.rook = orthogonal
slides PieceKind.promoted_rook = orthogonal
slides PieceKind.bishop = diagonal
slides PieceKind.promoted_bishop = diagonal
slides PieceKind.lance = forward
slides _ = []

-- The delta as the color's side sees it: White's board is Black's turned around.
abbrev pub oriented : Delta → Color → Delta
oriented δ Color.black = δ
oriented δ Color.white = (neg δ.0, neg δ.1)

-- `u8::try_from` on an `i16`, which the sum of a coordinate and a delta never overflows.
abbrev pub to_u8 : ℤ → Option ℕ
to_u8 (pos n) = if leb n 255 then some n else none
to_u8 (negsuc n) = none

infixl 5 ◌>>=◌
abbrev pub ◌>>=◌ : {A B : Type 0} → Option A → (A → Option B) → Option B
none >>= f = none
some a >>= f = f a

unfoldable pub step : Square → Delta → Color → Option Square
unfolding square_new ◌+ℤ◌ neg
step square δ color = do
  let (file_delta, rank_delta) = oriented δ color
  file ← to_u8 (pos square.file +ℤ file_delta)
  rank ← to_u8 (pos square.rank +ℤ rank_delta)
  square_new file rank

abbrev pub is_some : {A : Type 0} → Option A → Bool
is_some none = false
is_some (some _) = true

-- The `while let` loop of `ray`, with fuel for its rounds.
unfoldable pub ray_loop : ℕ → Position → Square → Delta → Color → Square → Bool → Reach
ray_loop zero position square δ color to is_blocked = Reach.unreachable
ray_loop (suc fuel) position square δ color to is_blocked = elim (step square δ color) [
  | none ↦ Reach.unreachable
  | some next ↦ elim (square_eq next to) [
    | true ↦ if is_blocked then Reach.blocked else Reach.reaches
    | false ↦
        ray_loop fuel position next δ color to (is_some (piece_at position next) || is_blocked)
  ]
]

-- Each round moves one square on, so 17 rounds leave any board of nine by nine.
abbrev pub ray_fuel : ℕ
ray_fuel = 17

unfoldable pub ray : Position → Square → Delta → Color → Square → Reach
ray position from δ color to = ray_loop ray_fuel position from δ color to false

-- The loop over the sliding directions, which returns at the first that reaches.
unfoldable pub reach_slides : Position → Square → Color → Square → Bool → List Delta → Reach
reach_slides position from color to is_blocked [] =
    if is_blocked then Reach.blocked else Reach.unreachable
reach_slides position from color to is_blocked (δ ∷ rest) = elim (ray position from δ color to) [
  | reaches ↦ Reach.reaches
  | blocked ↦ reach_slides position from color to true rest
  | unreachable ↦ reach_slides position from color to is_blocked rest
]

-- `step(…) == Some(to)`.
abbrev pub lands_on : Option Square → Square → Bool
lands_on none to = false
lands_on (some s) to = square_eq s to

unfoldable pub reach : Position → Square → Piece → Square → Reach
reach position from piece to =
    if any (λ δ. lands_on (step from δ piece.color) to) (steps piece.kind)
    then Reach.reaches
    else reach_slides position from piece.color to false (slides piece.kind)

abbrev pub is_reaches : Reach → Bool
is_reaches Reach.reaches = true
is_reaches _ = false

-- Every square, file-major.
unfoldable pub squares : List Square
unfolding flat_map filter_map numbers square_new
squares = flat_map (λ file. filter_map (λ rank. square_new file rank) (numbers 1 9)) (numbers 1 9)

-- What `is_attacked_by` asks of one square.
unfoldable pub attacks_from : Position → Square → Color → Square → Bool
attacks_from position target attacker from = elim (piece_at position from) [
  | none ↦ false
  | some piece ↦
      if color_eq piece.color attacker then is_reaches (reach position from piece target) else false
]

unfoldable pub is_attacked_by : Position → Square → Color → Bool
is_attacked_by position target attacker = any (attacks_from position target attacker) squares

unfoldable pub king_square : Position → Color → Option Square
king_square position color =
    find
      (λ square.
        holds_piece (piece_at position square) (record { kind = PieceKind.king; color = color }))
      squares

unfoldable pub in_check : Position → Color → Bool
in_check position color = elim (king_square position color) [
  | none ↦ false
  | some king ↦ is_attacked_by position king (opponent color)
]

-- On the board neither subtraction goes below zero.
unfoldable pub ranks_from_last : Color → Square → ℕ
ranks_from_last Color.black square = square.rank - 1
ranks_from_last Color.white square = 9 - square.rank

unfoldable pub in_promotion_zone : Color → Square → Bool
unfolding ranks_from_last
in_promotion_zone color square = ltb (ranks_from_last color square) 3

unfoldable pub must_promote : PieceKind → Color → Square → Bool
unfolding ranks_from_last
must_promote PieceKind.pawn color to = ranks_from_last color to == 0
must_promote PieceKind.lance color to = ranks_from_last color to == 0
must_promote PieceKind.knight color to = leb (ranks_from_last color to) 1
must_promote _ color to = false

unfoldable pub is_dead_drop : HandKind → Color → Square → Bool
unfolding must_promote to_piece_kind
is_dead_drop kind color to = must_promote (to_piece_kind kind) color to

unfoldable pub has_unpromoted_pawn_on_file : Position → Color → ℕ → Bool
has_unpromoted_pawn_on_file position color file =
    any
      (λ square.
        holds_piece (piece_at position square) (record { kind = PieceKind.pawn; color = color }))
      (filter_map (λ rank. square_new file rank) (numbers 1 9))
