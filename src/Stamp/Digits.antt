-- ===== src/Stamp/Digits.antt =====
-- src/stamp.rs: numbers written with a width of two and of four.
use tabia_shogi_server.Common.Text.{Text}
use tabia_shogi_server.Common.{
  ℕ, suc, ◌+◌, ◌/◌, ◌%◌, ◌≤◌, ◌<◌, [], ◌∷◌, ltb, ◌≡◌, refl, ◌∙◌, arith, inl, inr, Bool-cases,
}
use tabia_shogi_server.Stamp.{digits, padded}

digits-last : (fuel n : ℕ) (after : Text) → n < 10 → digits (suc fuel) n after ≡ (48 + n) ∷ after
unfolding digits
digits-last fuel n after h = ground (arith, h)

digits-more :
    (fuel n : ℕ) (after : Text)
    → 10 ≤ n
    → digits (suc fuel) n after ≡ digits fuel (n / 10) ((48 + n % 10) ∷ after)
unfolding digits
digits-more fuel n after h = ground (arith, h)

pub padded-two : (n : ℕ) → n < 100 → padded 2 n ≡ (48 + n / 10) ∷ (48 + n % 10) ∷ []
unfolding padded
padded-two n h = elim (Bool-cases (ltb n 10)) [
  | inl small ↦
      let one : digits 20 n [] ≡ (48 + n) ∷ [] = digits-last 19 n [] (ground (arith, small)) in
      rw (padded, one) (ground (arith, small))
  | inr large ↦
      let two : digits 20 n [] ≡ (48 + n / 10) ∷ (48 + n % 10) ∷ [] =
        digits-more 19 n [] (ground (arith, large))
        ∙ digits-last 18 (n / 10) ((48 + n % 10) ∷ []) (omega (arith, h)) in
      rw (padded, two) refl
]

pub padded-four :
    (n : ℕ)
    → 1000 ≤ n
    → n < 10000
    → padded 4 n
      ≡ (48 + n / 10 / 10 / 10) ∷ (48 + n / 10 / 10 % 10) ∷ (48 + n / 10 % 10) ∷ (48 + n % 10) ∷ []
unfolding padded
padded-four n h k =
    let d₀ : Text = (48 + n % 10) ∷ [] in
    let d₁ : Text = (48 + n / 10 % 10) ∷ d₀ in
    let d₂ : Text = (48 + n / 10 / 10 % 10) ∷ d₁ in
    let four : digits 20 n [] ≡ (48 + n / 10 / 10 / 10) ∷ d₂ =
      digits-more 19 n [] (omega (arith, h))
      ∙ digits-more 18 (n / 10) d₀ (omega (arith, h))
      ∙ digits-more 17 (n / 10 / 10) d₁ (omega (arith, h))
      ∙ digits-last 16 (n / 10 / 10 / 10) d₂ (omega (arith, k)) in
    rw (padded, four) refl
