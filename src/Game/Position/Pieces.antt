-- ===== src/Game/Position/Pieces.antt =====
-- src/game/position.rs: colors, squares, piece kinds, pieces and moves.
use tabia_shogi_server.Common.{
  ℕ, ◌≤◌, Bool, true, false, ◌&&◌, Option, none, some, List, [], ◌∷◌, leb, ◌==◌, if◌then◌else◌, ◌≡◌,
  ◌↔◌, ◌≢◌, refl, sym, ap, ◌∙◌, ==_iff, arith,
}

pub data Color : Type 0 where
  black white : Color

unfoldable pub opponent : Color → Color
opponent Color.black = Color.white
opponent Color.white = Color.black

-- The derived `==` on colors.
abbrev pub color_eq : Color → Color → Bool
color_eq Color.black Color.black = true
color_eq Color.white Color.white = true
color_eq _ _ = false

-- A fixed array `[T; 2]` that the source indexes by a color's `index` or `slot`.
pub record PerColor {ℓ} (A : Type ℓ) : Type ℓ where
  pub black_slot : A
  pub white_slot : A

abbrev pub slot {ℓ} : {A : Type ℓ} → PerColor A → Color → A
slot a Color.black = a.black_slot
slot a Color.white = a.white_slot

abbrev pub set_slot {ℓ} : {A : Type ℓ} → PerColor A → Color → A → PerColor A
set_slot a Color.black v = record a { black_slot = v }
set_slot a Color.white v = record a { white_slot = v }

pub record Square : Type 0 where
  pub file : ℕ
  pub rank : ℕ

-- What `Square::new` guarantees of every square that the program holds.
pub record OnBoard (s : Square) : Type 0 where
  pub file_low : 1 ≤ s.file
  pub file_high : s.file ≤ 9
  pub rank_low : 1 ≤ s.rank
  pub rank_high : s.rank ≤ 9

unfoldable pub square_new : ℕ → ℕ → Option Square
square_new file rank =
    if (leb 1 file && leb file 9) && (leb 1 rank && leb rank 9)
    then some (record { file = file; rank = rank })
    else none

-- The derived `==` on squares.
abbrev pub square_eq : Square → Square → Bool
square_eq s t = s.file == t.file && s.rank == t.rank

pub data PieceKind : Type 0 where
  king rook bishop gold silver knight lance pawn : PieceKind
  promoted_rook promoted_bishop promoted_silver promoted_knight : PieceKind
  promoted_lance promoted_pawn : PieceKind

-- The discriminant, which the derived `==` on kinds compares.
abbrev pub kind_code : PieceKind → ℕ
kind_code PieceKind.king = 0
kind_code PieceKind.rook = 1
kind_code PieceKind.bishop = 2
kind_code PieceKind.gold = 3
kind_code PieceKind.silver = 4
kind_code PieceKind.knight = 5
kind_code PieceKind.lance = 6
kind_code PieceKind.pawn = 7
kind_code PieceKind.promoted_rook = 8
kind_code PieceKind.promoted_bishop = 9
kind_code PieceKind.promoted_silver = 10
kind_code PieceKind.promoted_knight = 11
kind_code PieceKind.promoted_lance = 12
kind_code PieceKind.promoted_pawn = 13

abbrev pub kind_eq : PieceKind → PieceKind → Bool
kind_eq a b = kind_code a == kind_code b

unfoldable pub promoted : PieceKind → Option PieceKind
promoted PieceKind.rook = some PieceKind.promoted_rook
promoted PieceKind.bishop = some PieceKind.promoted_bishop
promoted PieceKind.silver = some PieceKind.promoted_silver
promoted PieceKind.knight = some PieceKind.promoted_knight
promoted PieceKind.lance = some PieceKind.promoted_lance
promoted PieceKind.pawn = some PieceKind.promoted_pawn
promoted _ = none

unfoldable pub base : PieceKind → Option PieceKind
base PieceKind.promoted_rook = some PieceKind.rook
base PieceKind.promoted_bishop = some PieceKind.bishop
base PieceKind.promoted_silver = some PieceKind.silver
base PieceKind.promoted_knight = some PieceKind.knight
base PieceKind.promoted_lance = some PieceKind.lance
base PieceKind.promoted_pawn = some PieceKind.pawn
base _ = none

unfoldable pub is_promoted : PieceKind → Bool
unfolding base
is_promoted kind = elim (base kind) [ none ↦ false | some _ ↦ true ]

pub record Piece : Type 0 where
  pub kind : PieceKind
  pub color : Color

-- The derived `==` on pieces, and on what a square holds.
abbrev pub piece_eq : Piece → Piece → Bool
piece_eq a b = kind_eq a.kind b.kind && color_eq a.color b.color

abbrev pub holds_piece : Option Piece → Piece → Bool
holds_piece none b = false
holds_piece (some a) b = piece_eq a b

pub data HandKind : Type 0 where
  rook bishop gold silver knight lance pawn : HandKind

abbrev pub hand_kinds : List HandKind
hand_kinds =
    HandKind.rook ∷ HandKind.bishop ∷ HandKind.gold ∷ HandKind.silver ∷ HandKind.knight
    ∷ HandKind.lance ∷ HandKind.pawn ∷ []

unfoldable pub from_piece_kind : PieceKind → Option HandKind
from_piece_kind PieceKind.rook = some HandKind.rook
from_piece_kind PieceKind.bishop = some HandKind.bishop
from_piece_kind PieceKind.gold = some HandKind.gold
from_piece_kind PieceKind.silver = some HandKind.silver
from_piece_kind PieceKind.knight = some HandKind.knight
from_piece_kind PieceKind.lance = some HandKind.lance
from_piece_kind PieceKind.pawn = some HandKind.pawn
from_piece_kind _ = none

unfoldable pub to_piece_kind : HandKind → PieceKind
to_piece_kind HandKind.rook = PieceKind.rook
to_piece_kind HandKind.bishop = PieceKind.bishop
to_piece_kind HandKind.gold = PieceKind.gold
to_piece_kind HandKind.silver = PieceKind.silver
to_piece_kind HandKind.knight = PieceKind.knight
to_piece_kind HandKind.lance = PieceKind.lance
to_piece_kind HandKind.pawn = PieceKind.pawn

-- `HandKind::index`, the place of a kind in a hand's counts.
abbrev pub index : HandKind → ℕ
index HandKind.rook = 0
index HandKind.bishop = 1
index HandKind.gold = 2
index HandKind.silver = 3
index HandKind.knight = 4
index HandKind.lance = 5
index HandKind.pawn = 6

abbrev pub hand_kind_eq : HandKind → HandKind → Bool
hand_kind_eq a b = index a == index b

pub data Move : Type 0 where
  board : Square → Square → Bool → Move
  drop : HandKind → Square → Move

-- The tests are equality.
pub color_eq_iff : (a b : Color) → (color_eq a b ≡ true) ↔ (a ≡ b)
color_eq_iff a b = ground arith

pub square_eq_iff : (s t : Square) → (square_eq s t ≡ true) ↔ (s ≡ t)
square_eq_iff s t = ground arith

-- The kind with a discriminant.
abbrev kind_of_code : ℕ → PieceKind
kind_of_code n =
    if n == 0
    then PieceKind.king
    else if n == 1
    then PieceKind.rook
    else if n == 2
    then PieceKind.bishop
    else if n == 3
    then PieceKind.gold
    else if n == 4
    then PieceKind.silver
    else if n == 5
    then PieceKind.knight
    else if n == 6
    then PieceKind.lance
    else if n == 7
    then PieceKind.pawn
    else if n == 8
    then PieceKind.promoted_rook
    else if n == 9
    then PieceKind.promoted_bishop
    else if n == 10
    then PieceKind.promoted_silver
    else if n == 11
    then PieceKind.promoted_knight
    else if n == 12
    then PieceKind.promoted_lance
    else PieceKind.promoted_pawn

kind_of_code-kind_code : (k : PieceKind) → kind_of_code (kind_code k) ≡ k
kind_of_code-kind_code PieceKind.king = refl
kind_of_code-kind_code _ = refl

pub kind_eq_sound : (a b : PieceKind) → kind_eq a b ≡ true → a ≡ b
kind_eq_sound a b h =
    sym (kind_of_code-kind_code a)
    ∙ ap kind_of_code ((==_iff (kind_code a) (kind_code b)).0 h)
    ∙ kind_of_code-kind_code b

pub hand_kind_eq_sound : (a b : HandKind) → hand_kind_eq a b ≡ true → a ≡ b
hand_kind_eq_sound a b h = ground arith

pub kind_eq_refl : (a : PieceKind) → kind_eq a a ≡ true
kind_eq_refl PieceKind.king = refl
kind_eq_refl _ = refl

pub piece_eq_sound : (a b : Piece) → piece_eq a b ≡ true → a ≡ b
piece_eq_sound a b h = ground (arith, kind_eq_sound a.kind b.kind, color_eq_iff a.color b.color)

pub opponent-opponent : (c : Color) → opponent (opponent c) ≡ c
unfolding opponent
opponent-opponent Color.black = refl
opponent-opponent Color.white = refl

pub opponent-ne : (c : Color) → opponent c ≢ c
unfolding opponent
opponent-ne c = ground arith
