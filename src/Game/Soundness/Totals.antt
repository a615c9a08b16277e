-- ===== src/Game/Soundness/Totals.antt =====
-- Sums over the squares of the board, and how a change of one square changes them.
use mathlib.Core.List.{Memᴰ}
use tabia_shogi_server.Common.{
  ℕ, ◌+◌, Bool, true, false, not, ◌&&◌, List, [], ◌∷◌, if◌then◌else◌, ◌≡◌, refl, sym, ap, arith,
  all,
}
use tabia_shogi_server.Game.Position.Pieces.{Square, OnBoard, square_eq, square_eq_iff}
use tabia_shogi_server.Game.Legality.Movement.{squares}
use tabia_shogi_server.Game.Legality.Geometry.{squares-OnBoard}
use tabia_shogi_server.Game.Soundness.Reached.{on_every_square}

unfoldable pub total : (Square → ℕ) → List Square → ℕ
total f [] = 0
total f (s ∷ ss) = f s + total f ss

absent : Square → List Square → Bool
absent s [] = true
absent s (t ∷ ts) = let rest = absent s ts in not (square_eq s t) && rest

once : Square → List Square → Bool
once s [] = false
once s (t ∷ ts) = let rest = once s ts in if square_eq s t then absent s ts else rest

-- What a function has at one square, and 0 elsewhere.
abbrev only_at : Square → (Square → ℕ) → Square → ℕ
only_at s h t = if square_eq s t then h t else 0

total-absent :
    (s : Square) (h : Square → ℕ) (ts : List Square)
    → absent s ts ≡ true
    → total (only_at s h) ts ≡ 0
unfolding total absent
total-absent s h [] e = refl
total-absent s h (t ∷ ts) e = ground (arith, total-absent s h ts)

same_value : (h : Square → ℕ) (s t : Square) → square_eq s t ≡ true → h t ≡ h s
same_value h s t e = sym (ap h ((square_eq_iff s t).0 e))

total-once :
    (s : Square) (h : Square → ℕ) (ts : List Square)
    → once s ts ≡ true
    → total (only_at s h) ts ≡ h s
unfolding total once
total-once s h [] e = ground arith
total-once s h (t ∷ ts) e = ground (arith, total-absent s h ts, total-once s h ts, same_value h s t)

once_on_board : all (λ s. once s squares) squares ≡ true
unfolding all squares once absent
once_on_board = refl

pub total-only_at : (s : Square) (h : Square → ℕ) → OnBoard s → total (only_at s h) squares ≡ h s
total-only_at s h on =
    total-once s h squares (on_every_square (λ s. once s squares) once_on_board s on)

-- `g` is `f` but at one square, on the squares of a list.
total-changed :
    (f g : Square → ℕ) (s : Square) (v : ℕ) (ts : List Square)
    → ((t : Square) → Memᴰ t ts → g t ≡ (if square_eq s t then v else f t))
    → total g ts + total (only_at s f) ts ≡ total f ts + total (only_at s (λ _. v)) ts
unfolding total
total-changed f g s v [] h = refl
total-changed f g s v (t ∷ ts) h =
    ground (arith, h t (Memᴰ.head refl), total-changed f g s v ts (λ u m. h u (Memᴰ.tail m)))

pub total_change :
    (f g : Square → ℕ) (s : Square) (v : ℕ)
    → OnBoard s
    → ((t : Square) → OnBoard t → g t ≡ (if square_eq s t then v else f t))
    → total g squares + f s ≡ total f squares + v
total_change f g s v on h = omega (
  arith,
  total-changed f g s v squares (λ t m. h t (squares-OnBoard m)),
  total-only_at s f on,
  total-only_at s (λ _. v) on,
)
