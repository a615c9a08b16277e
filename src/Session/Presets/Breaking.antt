-- ===== src/Session/Presets/Breaking.antt =====
-- src/session/presets.rs: a round that breaks a game off does nothing else.
use tabia_shogi_server.Common.Int.{ℤ}
use tabia_shogi_server.Common.Times.{times, times-append}
use tabia_shogi_server.Common.{
  ℕ, zero, suc, ◌-◌, ◌%◌, ◌≤◌, ◌<◌, Bool, true, false, not, ◌&&◌, List, [], ◌∷◌, length, get_or,
  any, ◌≡◌, refl, ap, arith, inl, inr,
}
use tabia_shogi_server.Session.Presets.{
  max_playing, is_playing, Standing, occupies_a_slot, is_startable, contains, unregistered,
  wanted_more, in_games, wanted, held, aborts, starts, stops, plan,
}
use tabia_shogi_server.Session.Presets.Indices.{
  contains-indices_where, count_where, length-indices_where,
}
use tabia_shogi_server.Session.Presets.Slots.{IsRoomy, starts_none, wanted_more-IsRoomy}

abbrev is_ready : Standing → Bool
is_ready p = occupies_a_slot p && not (is_playing p.state)

any-false :
    (f : Standing → Bool) (ps : List Standing) (k : ℕ)
    → any f ps ≡ false
    → k < length ps
    → f (get_or ps k unregistered) ≡ false
unfolding any
any-false f [] k h inside = elim inside [ ]
any-false f (p ∷ ps) zero h inside = ground (arith, h)
any-false f (p ∷ ps) (suc k) h inside = any-false f ps k (ground (arith, h)) (omega (arith, inside))

-- Where no preset is ready, the slots are held by games.
held-games :
    (ps : List Standing)
    → any is_ready ps ≡ false
    → held ps ≡ count_where (λ p. is_playing p.state) ps
unfolding any held count_where occupies_a_slot is_playing
held-games [] h = refl
held-games (p ∷ ps) h = ground (arith, held-games ps (ground (arith, h)))

-- A preset in a game is not startable.
starts_none_extra :
    (externals : List ℤ) (presets : List Standing) (k : ℕ)
    → wanted_more externals presets (max_playing - length (in_games presets)) ≡ []
    → k < length presets
    → contains (plan externals presets).start k ≡ false
unfolding plan wanted is_startable is_playing times
starts_none_extra externals presets k e inside = ground (
  arith,
  contains-indices_where (λ _ p. is_playing p.state) k presets inside,
  contains-indices_where (starts (wanted externals presets)) k presets inside,
  times-append k (in_games presets)
      (wanted_more externals presets (max_playing - length (in_games presets))),
  ap (times k) e,
)

no_length : (l : List ℕ) → length l ≤ 0 → l ≡ []
no_length [] h = refl
no_length (x ∷ xs) h = ground arith

abort-starts_none :
    (externals : List ℤ) (presets : List Standing) (k : ℕ)
    → max_playing ≤ length (in_games presets)
    → k < length presets
    → contains (plan externals presets).start k ≡ false
unfolding IsRoomy
abort-starts_none externals presets k full inside =
    elim (wanted_more-IsRoomy externals presets (max_playing - length (in_games presets))) [
      | inl room ↦
          starts_none_extra externals presets k
            (no_length (wanted_more externals presets (max_playing - length (in_games presets)))
              (omega (arith, room, full)))
            inside
      | inr (j, single, idle) ↦ starts_none externals presets j k single idle inside
    ]

-- A plan that breaks a game off is for an odd number of externals, with at least two presets in games,
-- and neither starts nor stops a preset.
pub plan-abort :
    (externals : List ℤ) (presets : List Standing)
    → (plan externals presets).abort ≡ true
    → (length externals % 2 ≡ 1)
      × (max_playing ≤ length (in_games presets))
      × ((k : ℕ)
          → k < length presets
          → (contains (plan externals presets).start k ≡ false)
            × (contains (plan externals presets).stop k ≡ false))
unfolding plan aborts
plan-abort externals presets h =
    let unready : any is_ready presets ≡ false = ground (arith, h) in
    let full : max_playing ≤ length (in_games presets) = ground (
      arith,
      h,
      held-games presets unready,
      length-indices_where (λ p. is_playing p.state) 0 presets,
    ) in
    (
      ground (arith, h),
      full,
      λ k inside. (
        abort-starts_none externals presets k full inside,
        ground (
          arith,
          any-false is_ready presets k unready inside,
          contains-indices_where (stops (wanted externals presets)) k presets inside,
        ),
      ),
    )
