-- ===== src/Session/Presets/Slots.antt =====
-- src/session/presets.rs: the cap on the presets engaged, and the breaking off of a game.
use tabia_shogi_server.Common.Int.{ℤ}
use tabia_shogi_server.Common.Times.{one_if, times, times-append}
use tabia_shogi_server.Common.{
  ℕ, ◌-◌, ◌%◌, ◌≤◌, ◌<◌, max, Bool, true, false, not, ◌&&◌, Option, none, some, List, [], ◌∷◌, leb,
  ◌==◌, if◌then◌else◌, length, get_or, any, ◌≡◌, ◌≢◌, refl, sym, arith, inl, inr, ◌⊎◌, Bool-cases,
}
use tabia_shogi_server.Session.Presets.{
  max_playing, is_playing, is_stopped, Standing, occupies_a_slot, is_startable, Plan, indices_where,
  contains, unregistered, state_at, is_available, sort_by_key, calibration_pair, first_two, closest,
  head_of, or_else, is_idle, is_connecting, is_calibrating, joins_the_leftover, pushed, wanted_more,
  in_games, wanted, held, starts, plan,
}
use tabia_shogi_server.Session.Presets.Indices.{
  contains-indices_where, chosen_passes, count_where, length-indices_where, head_of-mem,
  closest-admits, covered-length,
}
use tabia_shogi_server.Session.Presets.Rounds.{
  carried, held-carried, held-none_started, Keeps-wanted,
}

-- A round wants no more than the slots free, or one preset that it need not start.
unfoldable pub IsRoomy : List Standing → ℕ → List ℕ → Type 0
IsRoomy presets free extra =
    (length extra ≤ free)
    ⊎ ((j : ℕ) × (extra ≡ j ∷ []) × (is_startable (get_or presets j unregistered) ≡ false))

joined-IsRoomy :
    (presets : List Standing) (free : ℕ) (waiting coming started : Option ℕ)
    → ((j : ℕ) → waiting ≡ some j → is_idle (get_or presets j unregistered) ≡ true)
    → ((j : ℕ) → coming ≡ some j → is_connecting (get_or presets j unregistered) ≡ true)
    → IsRoomy presets free
        (pushed (or_else waiting (or_else coming (if free == 0 then none else started))))
unfolding is_startable IsRoomy
joined-IsRoomy presets free (some j) coming started is_waiting is_coming =
    inr (j, refl, ground (arith, is_waiting j refl))
joined-IsRoomy presets free none (some j) started is_waiting is_coming =
    inr (j, refl, ground (arith, is_coming j refl))
joined-IsRoomy presets free none none none is_waiting is_coming = inl (ground arith)
joined-IsRoomy presets free none none (some j) is_waiting is_coming = inl (ground arith)

length-first_two : (l : List ℕ) → length (first_two l) ≤ 2
length-first_two [] = omega arith
length-first_two (a ∷ []) = omega arith
length-first_two (a ∷ b ∷ rest) = omega arith

pair-IsRoomy :
    (presets : List Standing) (free : ℕ) (b : Bool) (l : List ℕ)
    → IsRoomy presets free (if b && leb 2 free then first_two l else [])
unfolding IsRoomy
pair-IsRoomy presets free b l = inl (ground (arith, length-first_two l))

pub wanted_more-IsRoomy :
    (externals : List ℤ) (presets : List Standing) (free : ℕ)
    → IsRoomy presets free (wanted_more externals presets free)
unfolding wanted_more joins_the_leftover calibration_pair
wanted_more-IsRoomy externals presets free = elim (Bool-cases (length externals == 0)) [
  | inl empty ↦ rw empty (
      pair-IsRoomy presets free (not (any is_calibrating presets)) (
        sort_by_key (λ index. one_if (is_stopped (state_at presets index)))
          (indices_where (λ _ p. is_available p) 0 presets)))
  | inr waiting ↦ elim (Bool-cases (length externals % 2 == 0)) [
    | inl even ↦ rw (waiting, even) (unfold IsRoomy in inl (omega arith))
    | inr odd ↦
        rw (waiting, odd)
          (joined-IsRoomy presets free (closest externals presets is_idle)
            (head_of (indices_where (λ _ p. is_connecting p) 0 presets))
            (closest externals presets is_startable)
            (λ j e. (closest-admits externals presets is_idle j e).1)
            (λ j e.
              (chosen_passes (λ _ p. is_connecting p) j presets
                (head_of-mem (indices_where (λ _ p. is_connecting p) 0 presets) j e)).1))
  ]
]

count-held : (ps : List Standing) → count_where (λ p. is_playing p.state) ps ≤ held ps
unfolding count_where held occupies_a_slot is_playing
count-held [] = omega arith
count-held (p ∷ ps) = ground (arith, count-held ps)

-- If a round wants one preset that it need not start, it starts none.
pub starts_none :
    (externals : List ℤ) (presets : List Standing) (j k : ℕ)
    → wanted_more externals presets (max_playing - length (in_games presets)) ≡ j ∷ []
    → is_startable (get_or presets j unregistered) ≡ false
    → k < length presets
    → contains (plan externals presets).start k ≡ false
unfolding plan wanted is_startable is_playing times
starts_none externals presets j k e idle inside =
    let extra : List ℕ = wanted_more externals presets (max_playing - length (in_games presets)) in
    let unlisted : k ≢ j → times k extra ≡ 0 = λ other. rw e (ground (arith, other)) in
    elim (Bool-cases (k == j)) [
      | inl here ↦
          let same : k ≡ j = ground (arith, here) in
          ground (
            arith,
            rw (sym same) at idle,
            contains-indices_where (starts (wanted externals presets)) k presets inside,
          )
      | inr there ↦ ground (
        arith,
        unlisted (ground (arith, there)),
        contains-indices_where (λ _ p. is_playing p.state) k presets inside,
        contains-indices_where (starts (wanted externals presets)) k presets inside,
        times-append k (in_games presets) extra,
      )
    ]

-- Carrying out a plan leaves at most two slots held, or no more than were held before.
pub held-plan :
    (externals : List ℤ) (presets : List Standing)
    → held (carried (plan externals presets) 0 presets) ≤ max max_playing (held presets)
unfolding IsRoomy
held-plan externals presets =
    let free : ℕ = max_playing - length (in_games presets) in
    let extra : List ℕ = wanted_more externals presets free in
    let made : Plan = plan externals presets in
    elim (wanted_more-IsRoomy externals presets free) [
      | inl room ↦ omega (
        arith,
        room,
        held-carried made extra 0 presets (λ i k e inside.
            let same : i ≡ k = omega (arith, e) in
            rw same (Keeps-wanted externals presets k inside)),
        covered-length extra 0 presets,
        length-indices_where (λ p. is_playing p.state) 0 presets,
        count-held presets,
      )
      | inr (j, single, idle) ↦ omega (
        arith,
        held-none_started made 0 presets (λ i k e inside.
            let same : i ≡ k = omega (arith, e) in
            rw same (starts_none externals presets j k single idle inside)),
      )
    ]
