-- ===== src/Session/GameTask/Reduction.antt =====
-- src/session/clock.rs and src/session/game_task.rs: the T-values of a setup sequence, by the movers
-- that the loop of `Game::new` charges them to.
use tabia_shogi_server.Common.Times.{one_if}
use tabia_shogi_server.Common.{
  ℕ, zero, suc, ◌+◌, ◌/◌, ◌<◌, min, Bool, true, ◌&&◌, none, some, List, [], ◌∷◌, ltb, ◌==◌,
  if◌then◌else◌, ◌≡◌, ◌↔◌, refl, sym, ◌∙◌, ap, arith, length, get_or, inl, inr, Option-cases,
}
use tabia_shogi_server.Game.Position.Pieces.{Color, color_eq}
use tabia_shogi_server.Session.Clock.{
  TimeConfig, u32_max, units_of, increment_units, first_move_index, setup_t_values,
}
use tabia_shogi_server.Session.Clock.Setup.{setup_t_values-expected, expected_t}
use tabia_shogi_server.Session.GameTask.{setup_mover}

-- How many of the first setup moves a side makes.
unfoldable pub moves_of : Color → ℕ → ℕ
moves_of c zero = 0
moves_of c (suc n) = one_if (color_eq (setup_mover n) c) + moves_of c n

-- What a setup move is to be charged: the increment, and with it the whole reduction if the mover is
-- the reduced side and has not moved before.
unfoldable pub t_value : TimeConfig → ℕ → ℕ
t_value cfg i = elim cfg.reduction [
  | none ↦ increment_units cfg
  | some r ↦
      if color_eq (setup_mover i) r.side && moves_of r.side i == 0
      then min u32_max (increment_units cfg + units_of r.amount cfg.unit cfg.roundup)
      else increment_units cfg
]

-- The reduced side, if there is one, makes a move of the sequence.
unfoldable pub has_reduced_move : ℕ → TimeConfig → Bool
has_reduced_move setup_len cfg = elim cfg.reduction [
  | none ↦ true
  | some r ↦ ltb 0 (moves_of r.side setup_len)
]

moves_of-halves :
    (n : ℕ) → (moves_of Color.black n ≡ (n + 1) / 2) × (moves_of Color.white n ≡ n / 2)
unfolding moves_of setup_mover
moves_of-halves zero = (refl, refl)
moves_of-halves (suc n) = ground (arith, moves_of-halves n)

t_value-expected : (cfg : TimeConfig) (i : ℕ) → expected_t cfg i ≡ t_value cfg i
unfolding t_value first_move_index setup_mover
t_value-expected cfg i = ground (arith, moves_of-halves i)

setup_t_values-has_reduced_move :
    (setup_len : ℕ) (cfg : TimeConfig) (values : List ℕ)
    → setup_t_values setup_len cfg ≡ some values
    → has_reduced_move setup_len cfg ≡ true
unfolding setup_t_values has_reduced_move first_move_index
setup_t_values-has_reduced_move setup_len cfg values h = ground (arith, moves_of-halves setup_len)

has_reduced_move-setup_t_values :
    (setup_len : ℕ) (cfg : TimeConfig)
    → has_reduced_move setup_len cfg ≡ true
    → (values : List ℕ) × (setup_t_values setup_len cfg ≡ some values)
unfolding setup_t_values has_reduced_move first_move_index
has_reduced_move-setup_t_values setup_len cfg h =
    elim (Option-cases (setup_t_values setup_len cfg)) [
      | inl out ↦ absurd (ground (arith, moves_of-halves setup_len, out))
      | inr found ↦ found
    ]

list_ext :
    (xs ys : List ℕ)
    → length xs ≡ length ys
    → ((i : ℕ) → i < length xs → get_or xs i 0 ≡ get_or ys i 0)
    → xs ≡ ys
list_ext [] [] e h = refl
list_ext [] (y ∷ ys) e h = absurd (omega (arith, e))
list_ext (x ∷ xs) [] e h = absurd (omega (arith, e))
list_ext (x ∷ xs) (y ∷ ys) e h = rw (h 0 (omega arith)) (
    ap (λ l. y ∷ l)
      (list_ext xs ys (omega (arith, e)) (λ i inside. h (suc i) (omega (arith, inside)))))

-- The T-values of a setup sequence are made exactly if the reduced side, where there is one, makes a
-- move of it; and then they are one for each move, the increment everywhere but at the first move
-- that the reduced side makes, where the whole reduction comes on top, up to the largest `u32`. The
-- movers are those that the loop of `Game::new` charges.
pub setup_t_values_iff :
    (setup_len : ℕ) (cfg : TimeConfig) (values : List ℕ)
    → (setup_t_values setup_len cfg ≡ some values) ↔ (
        (has_reduced_move setup_len cfg ≡ true)
        × (length values ≡ setup_len)
        × ((i : ℕ) → i < setup_len → get_or values i 0 ≡ t_value cfg i))
setup_t_values_iff setup_len cfg values = (
  λ h.
      let (counted, each) = setup_t_values-expected setup_len cfg values h in
      (
        setup_t_values-has_reduced_move setup_len cfg values h,
        counted,
        λ i inside. each i inside ∙ t_value-expected cfg i,
      ),
  λ (moved, counted, each).
      let (made, h) = has_reduced_move-setup_t_values setup_len cfg moved in
      let (counted', each') = setup_t_values-expected setup_len cfg made h in
      let same : made ≡ values = list_ext made values (counted' ∙ sym counted) (λ i inside.
        let low : i < setup_len = omega (arith, counted', inside) in
        each' i low ∙ t_value-expected cfg i ∙ sym (each i low)) in
      h ∙ ap some same,
)
