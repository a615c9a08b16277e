-- ===== src/Common/Text.antt =====
-- Texts as lists of code points, compared and cut as the source does it.
use Prim.Native.Nat.{ℕ}
use mathlib.Core.Path.{◌≡◌, refl}
use mathlib.Core.Bool.{Bool, true, false, ◌&&◌}
use mathlib.Core.List.{List, [], ◌∷◌}
use native.Mathlib.Omega.{arith}
use tabia_shogi_server.Common.Tests.{◌==◌}

abbrev pub Text : Type 0
Text = List ℕ

-- `==` of two texts
unfoldable pub same_text : Text → Text → Bool
same_text [] [] = true
same_text [] (b ∷ ys) = false
same_text (a ∷ xs) [] = false
same_text (a ∷ xs) (b ∷ ys) = let rest = same_text xs ys in (a == b) && rest

pub same_text_refl : (a : Text) → same_text a a ≡ true
unfolding same_text
same_text_refl [] = refl
same_text_refl (a ∷ xs) = ground (arith, same_text_refl xs)

pub same_text_elim : (a b : Text) → same_text a b ≡ true → a ≡ b
unfolding same_text
same_text_elim [] [] h = refl
same_text_elim [] (b ∷ ys) h = ground arith
same_text_elim (a ∷ xs) [] h = ground arith
same_text_elim (a ∷ xs) (b ∷ ys) h =
    let tails : xs ≡ ys = same_text_elim xs ys (ground arith) in
    let heads : a ≡ b = ground arith in rw (heads, tails) refl

pub same_text_intro : (xs ys : Text) → xs ≡ ys → same_text xs ys ≡ true
same_text_intro xs ys e = rw e (same_text_refl ys)
