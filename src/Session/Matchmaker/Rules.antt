-- ===== src/Session/Matchmaker/Rules.antt =====
-- src/session/matchmaker.rs: the presets among the players of a round's pairings.
use tabia_shogi_server.Common.Int.{ℤ}
use tabia_shogi_server.Common.Times.{one_if, times}
use tabia_shogi_server.Common.{
  ℕ, ◌+◌, ◌-◌, ◌≤◌, ◌<◌, false, Option, none, some, List, [], ◌∷◌, ◌++◌, ltb, ◌==◌, ◌≡◌, refl,
  arith, inl, inr, Bool-cases, length, get_or,
}
use tabia_shogi_server.Session.Random.{Rng}
use tabia_shogi_server.Session.Pool.{Pairing, Pool, at}
use tabia_shogi_server.Session.Matchmaker.{
  closest, join_choice, join_if, join_leftover, members, pair_pool, sided, slots_of,
  withdraw_over_the_cap,
}
use tabia_shogi_server.Session.Matchmaker.Partition.{players_of, times-pair_pool}

-- How many of a list of engines are presets.
unfoldable pub presets_in : Pool → List ℕ → ℕ
presets_in pool [] = 0
presets_in pool (i ∷ rest) = one_if (at pool i).preset_engine + presets_in pool rest

-- A list of which no member is a preset has none.
presets_in-none :
    (pool : Pool) (l : List ℕ)
    → ((a : ℕ) → 0 < times a l → (at pool a).preset_engine ≡ false)
    → presets_in pool l ≡ 0
unfolding presets_in times
presets_in-none pool [] h = refl
presets_in-none pool (i ∷ rest) h =
    ground (arith, h i, presets_in-none pool rest (λ a k. h a (omega (arith, k))))

members_normal :
    (a : ℕ) (pool : Pool) (l : List ℕ)
    → 0 < times a (members pool false l)
    → (at pool a).preset_engine ≡ false
unfolding times members
members_normal a pool [] h = absurd (omega (arith, h))
members_normal a pool (i ∷ rest) h = elim (Bool-cases (at pool i).preset_engine) [
  | inl preset ↦ members_normal a pool rest (ground (arith, preset))
  | inr normal ↦ elim (Bool-cases (i == a)) [
    | inl here ↦ let e : i ≡ a = ground (arith, here) in rw e at normal
    | inr there ↦ members_normal a pool rest (ground (arith, normal, there))
  ]
]

presets_in-players_of_append :
    (pool : Pool) (ps qs : List Pairing)
    → presets_in pool (players_of (ps ++ qs))
      ≡ presets_in pool (players_of ps) + presets_in pool (players_of qs)
unfolding presets_in players_of
presets_in-players_of_append pool [] qs = omega arith
presets_in-players_of_append pool (p ∷ ps) qs =
    omega (arith, presets_in-players_of_append pool ps qs)

pub withdraw-presets :
    (pool : Pool) (left : ℕ) (ps : List Pairing) (waiting : List ℕ)
    → presets_in pool (players_of (withdraw_over_the_cap pool left ps waiting).0)
      ≤ presets_in pool (players_of ps)
unfolding withdraw_over_the_cap presets_in players_of
withdraw-presets pool left [] waiting = omega arith
withdraw-presets pool left (p ∷ ps) waiting = elim (Bool-cases (ltb left (slots_of pool p))) [
  | inl over ↦
      rw over (omega (arith, withdraw-presets pool left ps (waiting ++ p.black ∷ p.white ∷ [])))
  | inr fits ↦ rw fits (omega (arith, withdraw-presets pool (left - slots_of pool p) ps waiting))
]

module _ (rng : Rng) (pool : Pool) (unrated : ℤ) where
  open rng use {State}

  presets_in-join :
      (ps : List Pairing) (alone : ℕ) (preset : List ℕ) (chosen : Option ℕ) (s : State)
      → (at pool alone).preset_engine ≡ false
      → presets_in pool (players_of (join_choice rng ps alone preset chosen s).0)
        ≤ presets_in pool (players_of ps) + 1
  unfolding join_choice presets_in players_of sided
  presets_in-join ps alone preset none s h = omega arith
  presets_in-join ps alone preset (some position) s h = ground (
    arith,
    h,
    presets_in-players_of_append pool ps ((sided rng alone (get_or preset position 0) s).0 ∷ []),
  )

  half-normal :
      (all : List ℕ) (s : State) (a : ℕ)
      → let r = pair_pool rng pool (members pool false all) unrated s in
        0 < times a (players_of r.0) + times a r.1 → (at pool a).preset_engine ≡ false
  half-normal all s a h =
      members_normal a pool all
        (omega (arith, h, times-pair_pool rng a pool (members pool false all) unrated s))

  joined_normals :
      (ps : List Pairing) (waiting preset : List ℕ) (s : State)
      → ((a : ℕ)
          → 0 < times a (players_of ps) + times a waiting
          → (at pool a).preset_engine ≡ false)
      → presets_in pool (players_of (join_if rng pool unrated ps waiting preset s).0)
        ≤ length waiting
  unfolding join_leftover times
  joined_normals ps [] preset s normal =
      omega (arith, presets_in-none pool (players_of ps) (λ a h. normal a (omega (arith, h))))
  joined_normals ps (alone ∷ more) preset s normal = omega (
    arith,
    presets_in-none pool (players_of ps) (λ a h. normal a (omega (arith, h))),
    presets_in-join ps alone preset (closest rng pool alone preset unrated s).0
        (closest rng pool alone preset unrated s).1 (normal alone (ground arith)),
  )

  pub normals-presets_in :
      (all preset : List ℕ) (s : State)
      → let r = pair_pool rng pool (members pool false all) unrated s in
        (presets_in pool (players_of r.0) ≡ 0)
        × (presets_in pool (players_of (join_if rng pool unrated r.0 r.1 preset r.2).0)
            ≤ length r.1)
  normals-presets_in all preset s =
      let r = pair_pool rng pool (members pool false all) unrated s in
      (
        presets_in-none pool (players_of r.0) (λ a h. half-normal all s a (omega (arith, h))),
        joined_normals r.0 r.1 preset r.2 (λ a h. half-normal all s a h),
      )
