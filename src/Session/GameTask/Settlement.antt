-- ===== src/Session/GameTask/Settlement.antt =====
-- src/session/game_task.rs: the clocks that a setup sequence leaves, and how a move ends a game.
use tabia_shogi_server.Common.{
  ℕ, suc, ◌+◌, ◌-◌, ◌≤◌, ◌<◌, false, ◌&&◌, Option, none, some, List, [], ◌∷◌, ltb, if◌then◌else◌,
  ◌≡◌, refl, sym, ap, ◌∙◌, inl, inr, arith, ok, length, get_or, Option-cases,
}
use tabia_shogi_server.Game.Position.Pieces.{Color, color_eq, Move, PerColor, slot, set_slot}
use tabia_shogi_server.Session.Clock.{
  TimeConfig, Reduction, u32_max, units_of, first_move_index, setup_t_values, effective_setup,
  increment_units, total_units,
}
use tabia_shogi_server.Session.Clock.Setup.{setup_t_values-expected, expected_t}
use tabia_shogi_server.Session.GameTask.{
  Game, PlayedMove, settled, setup_mover, settle_setup, new, new_of,
}
use tabia_shogi_server.Game.StartSpec.{StartSpec}
use tabia_shogi_server.Session.GameTask.Begin.{IsCreated, new-IsCreated}

-- What of the reduction a side has paid when `i` setup moves are made.
unfoldable pub paid : TimeConfig → ℕ → Color → ℕ
paid cfg i c = elim cfg.reduction [
  | none ↦ 0
  | some r ↦
      if color_eq r.side c && ltb (first_move_index c) i
      then units_of r.amount cfg.unit cfg.roundup
      else 0
]

-- The configured counts add up without overflow.
pub record FitsClock (cfg : TimeConfig) : Type 0 where
  pub total_fits : total_units cfg + increment_units cfg ≤ u32_max
  pub reduction_fits :
      (r : Reduction)
      → cfg.reduction ≡ some r
      → increment_units cfg + units_of r.amount cfg.unit cfg.roundup ≤ u32_max

settled-paid :
    (cfg : TimeConfig) (i : ℕ)
    → FitsClock cfg
    → settled
        (total_units cfg - paid cfg i (setup_mover i))
        (increment_units cfg)
        (expected_t cfg i)
      ≡ total_units cfg - paid cfg (i + 1) (setup_mover i)
unfolding settled paid first_move_index setup_mover
settled-paid cfg i fits = elim (Option-cases cfg.reduction) [
  | inl e ↦ ground (arith, e, fits.total_fits)
  | inr (r, e) ↦ ground (arith, e, fits.total_fits, fits.reduction_fits r e)
]

other-paid :
    (cfg : TimeConfig) (i : ℕ) (c : Color)
    → color_eq (setup_mover i) c ≡ false
    → paid cfg (i + 1) c ≡ paid cfg i c
unfolding paid first_move_index setup_mover
other-paid cfg i c other = ground arith

slot-set_slot :
    (a : PerColor ℕ) (c d : Color) (v : ℕ)
    → slot (set_slot a c v) d ≡ (if color_eq c d then v else slot a d)
slot-set_slot a c d v = ground arith

settle_setup-paid :
    (cfg : TimeConfig) (i : ℕ) (moves : List PlayedMove) (remaining : PerColor ℕ)
    (setup : List Move) (values : List ℕ)
    → FitsClock cfg
    → length values ≡ length setup
    → ((j : ℕ) → j < length setup → get_or values j 0 ≡ expected_t cfg (i + j))
    → ((c : Color) → slot remaining c ≡ total_units cfg - paid cfg i c)
    → (c : Color)
    → slot (settle_setup i (increment_units cfg) moves remaining setup values).1 c
      ≡ total_units cfg - paid cfg (i + length setup) c
unfolding settle_setup
settle_setup-paid cfg i moves remaining [] values fits e expected held c =
    held c ∙ ap (λ n. total_units cfg - paid cfg n c) (omega arith)
settle_setup-paid cfg i moves remaining (mv ∷ setup) [] fits e expected held c =
    absurd (ground arith)
settle_setup-paid cfg i moves remaining (mv ∷ setup) (t ∷ values) fits e expected held c =
    let side : Color = setup_mover i in
    let now : ℕ = settled (slot remaining side) (increment_units cfg) t in
    let here : t ≡ expected_t cfg i =
      expected 0 (omega arith) ∙ ap (expected_t cfg) (omega arith) in
    let paid_now : now ≡ total_units cfg - paid cfg (i + 1) side =
      rw (here, held side) (settled-paid cfg i fits) in
    settle_setup-paid cfg (i + 1) _ (set_slot remaining side now) setup values fits
      (omega (arith, e))
      (λ j inside. expected (suc j) (omega (arith, inside)) ∙ ap (expected_t cfg) (omega arith))
      (λ d.
        slot-set_slot remaining side d now ∙ both side d now paid_now (held d) (other-paid cfg i d))
      c
    ∙ ap (λ n. total_units cfg - paid cfg n c) (omega arith)
  where
    both :
        (side d : Color) (now : ℕ)
        → now ≡ total_units cfg - paid cfg (i + 1) side
        → slot remaining d ≡ total_units cfg - paid cfg i d
        → (color_eq side d ≡ false → paid cfg (i + 1) d ≡ paid cfg i d)
        → (if color_eq side d then now else slot remaining d) ≡ total_units cfg - paid cfg (i + 1) d
    both Color.black Color.black now a b o = a
    both Color.white Color.white now a b o = a
    both Color.black Color.white now a b o = b ∙ ap (λ n. total_units cfg - n) (sym (o refl))
    both Color.white Color.black now a b o = b ∙ ap (λ n. total_units cfg - n) (sym (o refl))

full :
    (cfg : TimeConfig) (d : Color)
    → slot (record { black_slot = total_units cfg; white_slot = total_units cfg }) d
      ≡ total_units cfg - paid cfg 0 d
unfolding paid
full cfg d = ground arith

-- The reduction of a side, in units.
unfoldable pub reduction_of : TimeConfig → Color → ℕ
reduction_of cfg c = elim cfg.reduction [
  | none ↦ 0
  | some r ↦ if color_eq r.side c then units_of r.amount cfg.unit cfg.roundup else 0
]

all-paid :
    (cfg : TimeConfig) (setup_len : ℕ) (values : List ℕ) (c : Color)
    → setup_t_values setup_len cfg ≡ some values
    → paid cfg setup_len c ≡ reduction_of cfg c
unfolding paid reduction_of setup_t_values
all-paid cfg setup_len values c h = elim (Option-cases cfg.reduction) [
  | inl e ↦ ground (arith, e)
  | inr (r, e) ↦ ground (arith, e)
]

-- Play begins with the clocks as configured: where the configured counts add up without overflow,
-- each side of a game just created has the total time less its own reduction, whatever the length
-- of the setup sequence.
pub new-clocks :
    (id : List ℕ) (spec : StartSpec) (cfg : TimeConfig) (limit : Option ℕ) (g : Game) (c : Color)
    → new id spec cfg limit ≡ ok g
    → FitsClock cfg
    → slot g.remaining c ≡ total_units cfg - reduction_of cfg c
unfolding new_of
new-clocks id spec cfg limit g c h fits =
    let made : IsCreated id spec cfg limit g = new-IsCreated id spec cfg limit g h in
    let n : ℕ = length (effective_setup spec cfg) in
    let (counted, expected) = setup_t_values-expected n cfg made.values made.valued in
    ap (λ (x : Game). slot x.remaining c) made.made
    ∙ settle_setup-paid cfg 0 []
        (record { black_slot = total_units cfg; white_slot = total_units cfg })
        (effective_setup spec cfg) made.values fits counted
        (λ j inside. expected j inside ∙ ap (expected_t cfg) (omega arith)) (full cfg) c
    ∙ ap (λ m. total_units cfg - m)
        (ap (λ k. paid cfg k c) (omega arith) ∙ all-paid cfg n made.values c made.valued)
