-- ===== src/Session/Clock/Setup.antt =====
-- src/session/clock.rs: the setup sequence that is transmitted, and its T-values.
use tabia_shogi_server.Common.{
  ℕ, zero, suc, inl, inr, Bool-cases, Option-cases, ◌<◌, none, some, List, [], ◌∷◌, ok, ◌==◌,
  if◌then◌else◌, ◌≡◌, refl, sym, ◌∙◌, arith, length, get_or, replicate, length-set, get_or-set, any,
  find,
}
use tabia_shogi_server.Game.Position.Pieces.{Move, opponent}
use tabia_shogi_server.Game.Position.Hands.{hand_new}
use tabia_shogi_server.Game.Position.Board.{hirate, piece_at, set_piece_at, set_side_to_move}
use tabia_shogi_server.Game.Legality.Movement.{
  steps, slides, step, ray_loop, ray, reach_slides, reach, squares, attacks_from, is_attacked_by,
  king_square, in_check, must_promote,
}
use tabia_shogi_server.Game.Legality.Apply.{
  apply_move, make_move, apply_board_move, arriving_kind, move_piece, take_captured,
}
use tabia_shogi_server.Game.StartSpec.{StartSpec, decode, traversal, replay, last_of}
use tabia_shogi_server.Session.Clock.{
  TimeConfig, units_of, increment_units, saturating_add, first_move_index, is_reduced,
  setup_t_values, king_shuttle, effective_setup,
}

shuttle_returns : decode (StartSpec.buoy king_shuttle) ≡ ok hirate
unfolding decode traversal replay last_of apply_move make_move apply_board_move arriving_kind
    move_piece take_captured reach reach_slides ray ray_loop step steps slides in_check king_square
    is_attacked_by attacks_from squares piece_at set_piece_at set_side_to_move any find must_promote
    hand_new opponent hirate
shuttle_returns = refl

empty_setup : decode (StartSpec.buoy []) ≡ ok hirate
unfolding decode traversal replay last_of
empty_setup = refl

-- The sequence transmitted starts play from the position that the authored one does, the king
-- shuttle that stands in for an empty one included.
pub decode-effective_setup :
    (setup : List Move) (cfg : TimeConfig)
    → decode (StartSpec.buoy (effective_setup (StartSpec.buoy setup) cfg))
      ≡ decode (StartSpec.buoy setup)
unfolding effective_setup
decode-effective_setup (mv ∷ setup) cfg = refl
decode-effective_setup [] cfg = elim (Bool-cases (is_reduced cfg)) [
  | inl reduced ↦ rw reduced (shuttle_returns ∙ sym empty_setup)
  | inr plain ↦ rw plain refl
]

length-replicate : (n v : ℕ) → length (replicate n v) ≡ n
length-replicate zero v = refl
length-replicate (suc n) v = omega (arith, length-replicate n v)

get_or-replicate : (n v i d : ℕ) → i < n → get_or (replicate n v) i d ≡ v
get_or-replicate zero v i d h = absurd (omega arith)
get_or-replicate (suc n) v zero d h = refl
get_or-replicate (suc n) v (suc i) d h = get_or-replicate n v i d (omega arith)

-- The T-value at an index, as the code finds the index.
abbrev pub expected_t : TimeConfig → ℕ → ℕ
expected_t cfg i = elim cfg.reduction [
  | none ↦ increment_units cfg
  | some r ↦
      if first_move_index r.side == i
      then saturating_add (increment_units cfg) (units_of r.amount cfg.unit cfg.roundup)
      else increment_units cfg
]

-- The T-values of a setup sequence, where they are made, are one for each move, each the increment
-- but for the reduced side's first move, which carries the whole reduction too.
pub setup_t_values-expected :
    (setup_len : ℕ) (cfg : TimeConfig) (values : List ℕ)
    → setup_t_values setup_len cfg ≡ some values
    → (length values ≡ setup_len) × ((i : ℕ) → i < setup_len → get_or values i 0 ≡ expected_t cfg i)
unfolding setup_t_values
setup_t_values-expected setup_len cfg values h =
    let plain : List ℕ = replicate setup_len (increment_units cfg) in
    elim (Option-cases cfg.reduction) [
      | inl e ↦ (
        ground (arith, e, length-replicate setup_len (increment_units cfg)),
        λ i inside. ground (arith, e, get_or-replicate setup_len (increment_units cfg) i 0 inside),
      )
      | inr (r, e) ↦
          let at : ℕ = first_move_index r.side in
          let value : ℕ =
            saturating_add (increment_units cfg) (units_of r.amount cfg.unit cfg.roundup) in
          (
            ground (
              arith,
              e,
              length-set plain at value,
              length-replicate setup_len (increment_units cfg),
            ),
            λ i inside. ground (
              arith,
              e,
              length-replicate setup_len (increment_units cfg),
              get_or-set plain at i value 0,
              get_or-replicate setup_len (increment_units cfg) i 0 inside,
            ),
          )
    ]
