-- ===== src/Session/Presets/Rounds.antt =====
-- src/session/presets.rs: what a plan starts, stops and breaks off, and the cap that it keeps.
use tabia_shogi_server.Common.Int.{ℤ}
use tabia_shogi_server.Common.Times.{one_if, times, times-append}
use tabia_shogi_server.Common.{
  ℕ, suc, ◌+◌, ◌-◌, ◌≤◌, ◌<◌, Bool, true, false, List, [], ◌∷◌, if◌then◌else◌, length, get_or, ◌≡◌,
  arith, ◌⊎◌,
}
use tabia_shogi_server.Session.Presets.{
  max_playing, State, Kind, is_playing, Standing, occupies_a_slot, is_startable, Plan, contains,
  unregistered, state_at, wanted_more, in_games, wanted, held, starts, stops, plan,
}
use tabia_shogi_server.Session.Presets.Indices.{
  times-indices_where, contains-indices_where, chosen_passes, count_where, covered,
}

-- What a plan may touch: a preset at an index that it starts or stops.
pub record IsOwn (externals : List ℤ) (presets : List Standing) (k : ℕ) : Type 0 where
  pub starts_stopped :
      0 < times k (plan externals presets).start
      → (k < length presets)
        × ((get_or presets k unregistered).kind ≡ Kind.on_demand)
        × (state_at presets k ≡ State.stopped)
  pub stops_waiting :
      0 < times k (plan externals presets).stop
      → (k < length presets)
        × ((get_or presets k unregistered).kind ≡ Kind.on_demand)
        × ((state_at presets k ≡ State.connecting) ⊎ (state_at presets k ≡ State.idle))
  pub apart : times k (plan externals presets).start + times k (plan externals presets).stop ≤ 1

startable_stopped :
    (p : Standing) → is_startable p ≡ true → (p.kind ≡ Kind.on_demand) × (p.state ≡ State.stopped)
unfolding is_startable
startable_stopped p h = ground arith

waiting_state :
    (p : Standing) (w : List ℕ) (k : ℕ)
    → stops w k p ≡ true
    → (p.kind ≡ Kind.on_demand) × ((p.state ≡ State.connecting) ⊎ (p.state ≡ State.idle))
unfolding occupies_a_slot is_playing
waiting_state p w k h = ground arith

-- A plan starts only on-demand presets that are stopped, stops only on-demand presets that connect
-- or wait, so none in a game, and does neither twice or both to one preset.
pub plan-IsOwn : (externals : List ℤ) (presets : List Standing) (k : ℕ) → IsOwn externals presets k
unfolding plan
plan-IsOwn externals presets k =
    let w : List ℕ = wanted externals presets in
    record {
      starts_stopped = λ h.
          let (inside, passes) = chosen_passes (starts w) k presets h in
          let (demand, state) =
            startable_stopped (get_or presets k unregistered) (ground (arith, passes)) in
          (inside, demand, state);
      stops_waiting = λ h.
          let (inside, passes) = chosen_passes (stops w) k presets h in
          let (demand, state) = waiting_state (get_or presets k unregistered) w k passes in
          (inside, demand, state);
      apart = ground (
        arith,
        times-indices_where (starts w) 0 k presets,
        times-indices_where (stops w) 0 k presets,
      );
    }

-- The presets once a plan is carried out: started ones connect, and stopped ones are gone.
unfoldable pub carried : Plan → ℕ → List Standing → List Standing
carried made first [] = []
carried made first (p ∷ rest) =
    let later = carried made (first + 1) rest in
    if contains made.start first
    then record p { state = State.connecting } ∷ later
    else if contains made.stop first
    then record p { state = State.stopped } ∷ later
    else p ∷ later

-- What a plan may do to one preset, where only members of a list stay: `a` and `b` say if it is
-- started and stopped, and `c` if it is a member.
abbrev pub Keeps : Bool → Bool → Bool → Standing → Type 0
Keeps a b c p =
    (a ≡ true → (is_startable p ≡ true) × (c ≡ true))
    × (b ≡ false → occupies_a_slot p ≡ true → is_playing p.state ≡ false → c ≡ true)

carried_one : Bool → Bool → Standing → Standing
carried_one a b p =
    if a
    then record p { state = State.connecting }
    else if b
    then record p { state = State.stopped }
    else p

held-one :
    (a b c : Bool) (p : Standing)
    → Keeps a b c p
    → one_if (occupies_a_slot (carried_one a b p)) ≤ one_if (is_playing p.state) + one_if c
unfolding carried_one occupies_a_slot is_playing is_startable
held-one a b c p h = ground (arith, h)

-- If only members stay, no more slots are held than there are presets in games and members.
pub held-carried :
    (made : Plan) (extra : List ℕ) (first : ℕ) (ps : List Standing)
    → ((i k : ℕ)
        → i ≡ first + k
        → k < length ps
        → Keeps
            (contains made.start i)
            (contains made.stop i)
            (contains extra i)
            (get_or ps k unregistered))
    → held (carried made first ps)
      ≤ count_where (λ p. is_playing p.state) ps + covered extra first ps
unfolding held carried count_where covered carried_one
held-carried made extra first [] h = omega arith
held-carried made extra first (p ∷ ps) h = ground (
  arith,
  held-one (contains made.start first) (contains made.stop first) (contains extra first) p
      (h first 0 (omega arith) (omega arith)),
  held-carried made extra (first + 1) ps
      (λ i k e inside. h i (suc k) (omega (arith, e)) (omega (arith, inside))),
)

held-one_stopped :
    (b : Bool) (p : Standing)
    → one_if (occupies_a_slot (carried_one false b p)) ≤ one_if (occupies_a_slot p)
unfolding carried_one occupies_a_slot is_playing
held-one_stopped b p = ground arith

-- If no preset is started, no more slots are held than before.
pub held-none_started :
    (made : Plan) (first : ℕ) (ps : List Standing)
    → ((i k : ℕ) → i ≡ first + k → k < length ps → contains made.start i ≡ false)
    → held (carried made first ps) ≤ held ps
unfolding held carried carried_one
held-none_started made first [] h = omega arith
held-none_started made first (p ∷ ps) h = ground (
  arith,
  held-one_stopped (contains made.stop first) p,
  h first 0 (omega arith) (omega arith),
  held-none_started made (first + 1) ps
      (λ i k e inside. h i (suc k) (omega (arith, e)) (omega (arith, inside))),
)

-- Of a round, only what is wanted beyond the presets in games stays.
pub Keeps-wanted :
    (externals : List ℤ) (presets : List Standing) (k : ℕ)
    → k < length presets
    → Keeps
        (contains (plan externals presets).start k)
        (contains (plan externals presets).stop k)
        (contains (wanted_more externals presets (max_playing - length (in_games presets))) k)
        (get_or presets k unregistered)
unfolding plan wanted is_startable occupies_a_slot is_playing
Keeps-wanted externals presets k inside =
    let w : List ℕ = wanted externals presets in
    let extra : List ℕ = wanted_more externals presets (max_playing - length (in_games presets)) in
    ground (
      arith,
      contains-indices_where (λ _ p. is_playing p.state) k presets inside,
      contains-indices_where (starts w) k presets inside,
      contains-indices_where (stops w) k presets inside,
      times-append k (in_games presets) extra,
    )
