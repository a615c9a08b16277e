-- ===== src/Game/Position/Board.antt =====
-- src/game/position.rs: `Position`, the board with both hands and the side to move.
use tabia_shogi_server.Common.{
  ℕ, zero, suc, ◌+◌, ◌-◌, ◌<◌, Option, none, some, List, [], ◌∷◌, if◌then◌else◌, ◌≡◌, refl, ◌∙◌,
  inl, inr, Bool-cases, length, get_or, set, replicate, numbers, get_or-set, length-set, arith,
}
use tabia_shogi_server.Game.Position.Pieces.{
  Color, PerColor, slot, set_slot, Square, OnBoard, color_eq, square_eq, PieceKind, Piece,
}
use tabia_shogi_server.Game.Position.Hands.{Hand, hand_new, IsHand, hand_new-IsHand}

pub record Position : Type 0 where
  pub board : List (List (Option Piece))
  pub hands : PerColor Hand
  pub side_to_move : Color

unfoldable pub rank_index : Square → ℕ
rank_index square = square.rank - 1

unfoldable pub file_index : Square → ℕ
file_index square = square.file - 1

unfoldable pub piece_at : Position → Square → Option Piece
unfolding rank_index file_index
piece_at p square = get_or (get_or p.board (rank_index square) []) (file_index square) none

-- An assignment `board[r][f] = piece`.
abbrev write : List (List (Option Piece)) → ℕ → ℕ → Option Piece → List (List (Option Piece))
write rows r f piece = set rows r (set (get_or rows r []) f piece)

unfoldable pub set_piece_at : Position → Square → Option Piece → Position
unfolding rank_index file_index
set_piece_at p square piece = record p {
  board = write p.board (rank_index square) (file_index square) piece;
}

unfoldable pub hand : Position → Color → Hand
hand p color = slot p.hands color

-- What the caller of `hand_mut` writes through the reference.
unfoldable pub set_hand : Position → Color → Hand → Position
set_hand p color h = record p { hands = set_slot p.hands color h }

unfoldable pub set_side_to_move : Position → Color → Position
set_side_to_move p color = record p { side_to_move = color }

unfoldable pub place : Position → ℕ → ℕ → Color → PieceKind → Position
place p file rank color kind = record p {
  board = write p.board (rank - 1) (file - 1) (some (record { kind = kind; color = color }));
}

abbrev back_rank : List PieceKind
back_rank =
    PieceKind.lance ∷ PieceKind.knight ∷ PieceKind.silver ∷ PieceKind.gold ∷ PieceKind.king
    ∷ PieceKind.gold ∷ PieceKind.silver ∷ PieceKind.knight ∷ PieceKind.lance ∷ []

-- The loop over the back rank; `offset` is the counter of `enumerate`.
place_back_rank : Position → ℕ → List PieceKind → Position
place_back_rank p offset [] = p
place_back_rank p offset (kind ∷ kinds) =
    let file = offset + 1 in
    place_back_rank (place (place p file 9 Color.black kind) file 1 Color.white kind) (offset + 1)
      kinds

place_pawns : Position → List ℕ → Position
place_pawns p [] = p
place_pawns p (file ∷ files) =
    place_pawns
      (place (place p file 7 Color.black PieceKind.pawn) file 3 Color.white PieceKind.pawn) files

abbrev pub empty_position : Position
empty_position = record {
  board = replicate 9 (replicate 9 none);
  hands = record { black_slot = hand_new; white_slot = hand_new };
  side_to_move = Color.black;
}

unfoldable pub hirate : Position
unfolding place place_back_rank place_pawns numbers
hirate =
    let set_up = place_pawns (place_back_rank empty_position 0 back_rank) (numbers 1 9) in
    let p₁ = place set_up 2 8 Color.black PieceKind.rook in
    let p₂ = place p₁ 8 8 Color.black PieceKind.bishop in
    let p₃ = place p₂ 8 2 Color.white PieceKind.rook in place p₃ 2 2 Color.white PieceKind.bishop

-- What the types of the source say of a position: nine rows of nine squares, and two hands.
pub record IsPosition (p : Position) : Type 0 where
  pub nine_ranks : length p.board ≡ 9
  pub nine_files : (r : ℕ) → r < 9 → length (get_or p.board r []) ≡ 9
  pub held : (c : Color) → IsHand (hand p c)

hirate_files : (r : ℕ) → r < 9 → length (get_or hirate.board r []) ≡ 9
unfolding hirate
hirate_files zero h = refl
hirate_files (suc zero) h = refl
hirate_files (suc (suc zero)) h = refl
hirate_files (suc (suc (suc zero))) h = refl
hirate_files (suc (suc (suc (suc zero)))) h = refl
hirate_files (suc (suc (suc (suc (suc zero))))) h = refl
hirate_files (suc (suc (suc (suc (suc (suc zero)))))) h = refl
hirate_files (suc (suc (suc (suc (suc (suc (suc zero))))))) h = refl
hirate_files (suc (suc (suc (suc (suc (suc (suc (suc zero)))))))) h = refl
hirate_files (suc (suc (suc (suc (suc (suc (suc (suc (suc r))))))))) h = absurd (omega arith)

hirate_hands : (c : Color) → hand hirate c ≡ hand_new
unfolding hirate hand
hirate_hands Color.black = refl
hirate_hands Color.white = refl

pub hirate-IsPosition : IsPosition hirate
hirate-IsPosition = record {
  nine_ranks = unfold hirate in refl;
  nine_files = hirate_files;
  held = λ c. rw (hirate_hands c) hand_new-IsHand;
}

module _ (p : Position) (s : Square) (v : Option Piece) (valid : IsPosition p)
    (on : OnBoard s) where
  row_fits : s.file - 1 < length (get_or p.board (s.rank - 1) [])
  row_fits = omega (arith, valid.nine_files (s.rank - 1) (omega arith), on.file_high, on.file_low)

  -- A write changes the square it names and no other.
  pub piece_at-set_piece_at :
      (t : Square)
      → OnBoard t
      → piece_at (set_piece_at p s v) t ≡ (if square_eq s t then v else piece_at p t)
  unfolding piece_at set_piece_at
  piece_at-set_piece_at t there =
      let row : List (Option Piece) = get_or p.board (s.rank - 1) [] in
      ground (
        arith,
        get_or-set p.board (s.rank - 1) (t.rank - 1) (set row (s.file - 1) v) []
            (omega (arith, valid.nine_ranks)),
        get_or-set row (s.file - 1) (t.file - 1) v none row_fits,
        on.file_low,
        on.rank_low,
        there.file_low,
        there.rank_low,
      )

  pub set_piece_at-IsPosition : IsPosition (set_piece_at p s v)
  unfolding set_piece_at hand
  set_piece_at-IsPosition = record {
    nine_ranks = length-set p.board _ _ ∙ valid.nine_ranks;
    nine_files = λ r h.
        let row : List (Option Piece) = get_or p.board (s.rank - 1) [] in
        ground (
          arith,
          get_or-set p.board (s.rank - 1) r (set row (s.file - 1) v) []
              (omega (arith, valid.nine_ranks)),
          length-set row (s.file - 1) v,
          valid.nine_files r h,
          valid.nine_files (s.rank - 1) (omega arith),
        );
    held = valid.held;
  }

module _ (p : Position) (c : Color) (h : Hand) where
  pub hand-set_hand : (d : Color) → hand (set_hand p c h) d ≡ (if color_eq c d then h else hand p d)
  unfolding set_hand hand
  hand-set_hand d = ground arith

  pub set_hand-IsPosition : IsPosition p → IsHand h → IsPosition (set_hand p c h)
  set_hand-IsPosition valid good = record {
    nine_ranks = unfold set_hand in valid.nine_ranks;
    nine_files = unfold set_hand in valid.nine_files;
    held = λ d. elim (Bool-cases (color_eq c d)) [
      | inl same ↦ rw (hand-set_hand d, same) good
      | inr other ↦ rw (hand-set_hand d, other) (valid.held d)
    ];
  }
