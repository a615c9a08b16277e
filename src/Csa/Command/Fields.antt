-- ===== src/Csa/Command/Fields.antt =====
-- src/csa/command.rs: the fields of a line, and the line that they make.
use tabia_shogi_server.Common.Text.{Text}
use tabia_shogi_server.Common.{
  ℕ, false, List, [], ◌∷◌, ◌++◌, ◌==◌, any, ◌≡◌, ◌≢◌, refl, sym, ap, ◌∙◌, arith, inl, inr,
  Bool-cases,
}
use tabia_shogi_server.Csa.Command.{onto_first, fields_of}

-- Fields, and the line of them with single spaces between.
unfoldable pub joined : List Text → Text
joined [] = []
joined (f ∷ []) = f
joined (f ∷ g ∷ fs) = f ++ 32 ∷ joined (g ∷ fs)

joined-onto_first : (c : ℕ) (fs : List Text) → joined (onto_first c fs) ≡ c ∷ joined fs
unfolding joined
joined-onto_first c [] = refl
joined-onto_first c (f ∷ []) = refl
joined-onto_first c (f ∷ g ∷ fs) = refl

fields_nonempty : (t : Text) → fields_of t ≢ []
unfolding fields_of
fields_nonempty [] e = ground (arith, e)
fields_nonempty (c ∷ t) e = elim (Bool-cases (c == 32)) [
  | inl space ↦ ground (arith, e, space)
  | inr other ↦ onto_nonempty c (fields_of t) (ground (arith, e, other))
]
  where
    onto_nonempty : (c : ℕ) (fs : List Text) → onto_first c fs ≢ []
    onto_nonempty c [] h = ground (arith, h)
    onto_nonempty c (f ∷ fs) h = ground (arith, h)

joined-space : (fs : List Text) → fs ≢ [] → joined ([] ∷ fs) ≡ 32 ∷ joined fs
unfolding joined
joined-space [] h = absurd (h refl)
joined-space (f ∷ fs) h = refl

-- The fields of a line make the line.
pub joined-fields_of : (t : Text) → joined (fields_of t) ≡ t
unfolding fields_of
joined-fields_of [] = unfold joined in refl
joined-fields_of (c ∷ t) = elim (Bool-cases (c == 32)) [
  | inl space ↦
      let e : c ≡ 32 = ground (arith, space) in
      rw (fields_of, space)
        (joined-space (fields_of t) (fields_nonempty t)
          ∙ ap (λ r. 32 ∷ r) (joined-fields_of t)
          ∙ ap (λ d. d ∷ t) (sym e))
  | inr other ↦
      rw (fields_of, other)
        (joined-onto_first c (fields_of t) ∙ ap (λ r. c ∷ r) (joined-fields_of t))
]

-- A text without a space is one field.
pub fields_of-one : (f : Text) → any (λ c. c == 32) f ≡ false → fields_of f ≡ f ∷ []
unfolding fields_of any
fields_of-one [] h = refl
fields_of-one (c ∷ f) h =
    let other : (c == 32) ≡ false = ground (arith, h) in
    let rest : fields_of f ≡ f ∷ [] = fields_of-one f (ground (arith, h)) in
    rw (fields_of, other, rest) refl

-- A field without a space and the ones after it.
pub fields_of-cons :
    (f t : Text) → any (λ c. c == 32) f ≡ false → fields_of (f ++ 32 ∷ t) ≡ f ∷ fields_of t
unfolding fields_of any
fields_of-cons [] t h = refl
fields_of-cons (c ∷ f) t h =
    let other : (c == 32) ≡ false = ground (arith, h) in
    let rest : fields_of (f ++ 32 ∷ t) ≡ f ∷ fields_of t = fields_of-cons f t (ground (arith, h)) in
    rw (fields_of, other, rest) refl
