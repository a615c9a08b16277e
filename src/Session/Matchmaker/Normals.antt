-- ===== src/Session/Matchmaker/Normals.antt =====
-- src/session/matchmaker.rs: normal engines are paired with each other first.
use tabia_shogi_server.Common.Int.{ℤ}
use tabia_shogi_server.Common.Times.{one_if, length-remove_at}
use tabia_shogi_server.Common.{
  ℕ, zero, suc, ◌+◌, ◌-◌, ◌/◌, ◌%◌, ◌≤◌, ◌<◌, Bool, true, false, not, ◌&&◌, Option, none, some,
  List, [], ◌∷◌, ◌++◌, ltb, ◌==◌, ◌≡◌, refl, ◌∙◌, ap, arith, inl, inr, Bool-cases, length, get_or,
  numbers,
}
use tabia_shogi_server.Session.Random.{Rng}
use tabia_shogi_server.Session.Pool.{Pairing, Pool, at, chunks, takes_a_slot}
use tabia_shogi_server.Session.Matchmaker.{
  best_ordering, closest, join_choice, join_if, join_leftover, listed, make_even, members,
  pair_kinds, pair_pool, pair_round, side_all, sided, slots_of, withdraw_over_the_cap,
}
use tabia_shogi_server.Session.Matchmaker.Choice.{closest-IsClosest}
use tabia_shogi_server.Session.Matchmaker.Orders.{best_ordering-IsReordering}
use tabia_shogi_server.Session.Matchmaker.Partition.{players_of}
use tabia_shogi_server.Session.Matchmaker.Rules.{presets_in, withdraw-presets, normals-presets_in}

-- How many engines of a pool are not presets.
unfoldable pub normals_of : Pool → ℕ
normals_of [] = 0
normals_of (w ∷ pool) = one_if (not w.preset_engine) + normals_of pool

abbrev is_normal : Pool → Pairing → Bool
is_normal pool p = not (at pool p.black).preset_engine && not (at pool p.white).preset_engine

-- How many pairings are of two engines that are not presets.
unfoldable pub normal_pairs : Pool → List Pairing → ℕ
normal_pairs pool [] = 0
normal_pairs pool (p ∷ ps) = one_if (is_normal pool p) + normal_pairs pool ps

normal_pairs-append :
    (pool : Pool) (ps qs : List Pairing)
    → normal_pairs pool (ps ++ qs) ≡ normal_pairs pool ps + normal_pairs pool qs
unfolding normal_pairs
normal_pairs-append pool [] qs = omega arith
normal_pairs-append pool (p ∷ ps) qs = omega (arith, normal_pairs-append pool ps qs)

normal_pairs-all :
    (pool : Pool) (ps : List Pairing)
    → presets_in pool (players_of ps) ≡ 0
    → normal_pairs pool ps ≡ length ps
unfolding normal_pairs presets_in players_of
normal_pairs-all pool [] h = refl
normal_pairs-all pool (p ∷ ps) h = ground (arith, h, normal_pairs-all pool ps (omega (arith, h)))

-- The cap withdraws none of them.
normal_pairs-withdraw :
    (pool : Pool) (left : ℕ) (ps : List Pairing) (waiting : List ℕ)
    → normal_pairs pool (withdraw_over_the_cap pool left ps waiting).0 ≡ normal_pairs pool ps
unfolding normal_pairs withdraw_over_the_cap slots_of takes_a_slot
normal_pairs-withdraw pool left [] waiting = refl
normal_pairs-withdraw pool left (p ∷ ps) waiting = elim (Bool-cases (ltb left (slots_of pool p))) [
  | inl over ↦
      let mixed : is_normal pool p ≡ false = ground (arith, over) in
      rw (over, mixed)
        (omega (arith, normal_pairs-withdraw pool left ps (waiting ++ p.black ∷ p.white ∷ [])))
  | inr fits ↦ rw fits (
      ap (λ n. one_if (is_normal pool p) + n)
        (normal_pairs-withdraw pool (left - slots_of pool p) ps waiting))
]

length-members :
    (whole pool : Pool) (first : ℕ)
    → ((i : ℕ) → i < length pool → at whole (first + i) ≡ at pool i)
    → length (members whole false (numbers first (length pool))) ≡ normals_of pool
unfolding normals_of members at numbers
length-members whole [] first h = refl
length-members whole (w ∷ pool) first h = ground (
  arith,
  h 0 (omega arith),
  length-members whole pool (first + 1)
      (λ i inside. ap (at whole) (omega arith) ∙ h (suc i) (omega (arith, inside))),
)

members-preset :
    (pool : Pool) (l : List ℕ) (k : ℕ)
    → k < length (members pool true l)
    → (at pool (get_or (members pool true l) k 0)).preset_engine ≡ true
unfolding members
members-preset pool [] k h = absurd (omega (arith, h))
members-preset pool (i ∷ rest) k h = elim (Bool-cases (at pool i).preset_engine) [
  | inr normal ↦ rw normal (members-preset pool rest k (ground (arith, normal)))
  | inl preset ↦ rw preset (here k (rw preset at h) preset (members-preset pool rest))
]
  where
    here :
        (k : ℕ)
        → k < length (i ∷ members pool true rest)
        → (at pool i).preset_engine ≡ true
        → ((j : ℕ)
            → j < length (members pool true rest)
            → (at pool (get_or (members pool true rest) j 0)).preset_engine ≡ true)
        → (at pool (get_or (i ∷ members pool true rest) k 0)).preset_engine ≡ true
    here zero h e later = e
    here (suc k) h e later = later k (omega (arith, h))

length-chunks : (xs : List ℕ) → length xs % 2 ≡ 0 → length (chunks xs) ≡ length xs / 2
unfolding chunks
length-chunks [] h = refl
length-chunks (a ∷ []) h = absurd (omega (arith, h))
length-chunks (a ∷ b ∷ rest) h = omega (arith, length-chunks rest (omega (arith, h)))

module _ (rng : Rng) where
  open rng use {State, below, below-lt}

  length-side_all : (ps : List (ℕ × ℕ)) (s : State) → length (side_all rng ps s).0 ≡ length ps
  unfolding side_all
  length-side_all [] s = refl
  length-side_all ((a, b) ∷ ps) s = ap suc (length-side_all ps (sided rng a b s).1)

  length-make_even :
      (l : List ℕ) (s : State)
      → (length (make_even rng l s).1 ≡ length l - length l % 2)
        × (length (listed rng (make_even rng l s).0) ≡ length l % 2)
  unfolding make_even
  length-make_even l s = elim (Bool-cases (length l % 2 == 1)) [
    | inl odd ↦
        let e : length l % 2 ≡ 1 = ground (arith, odd) in
        rw odd (
          omega (
            arith,
            e,
            length-remove_at (below (length l) s).0 l (below-lt (length l) s (omega (arith, e))),
          ),
          omega (arith, e),
        )
    | inr even ↦ rw even (ground (arith, even), ground (arith, even))
  ]

  length-pair_pool :
      (pool : Pool) (half : List ℕ) (unrated : ℤ) (s : State)
      → (length (pair_pool rng pool half unrated s).0 ≡ length half / 2)
        × (length (pair_pool rng pool half unrated s).1 ≡ length half % 2)
  unfolding pair_pool
  length-pair_pool pool half unrated s =
      let even_half : List ℕ = (make_even rng half s).1 in
      let s₁ : State = (make_even rng half s).2 in
      let order : List ℕ = (best_ordering rng pool even_half unrated s₁).0 in
      let (evened, left) = length-make_even half s in
      let same : length order ≡ length even_half =
        (best_ordering-IsReordering rng pool even_half unrated s₁).same_length in
      (
        length-side_all (chunks order) (best_ordering rng pool even_half unrated s₁).1
            ∙ length-chunks order (omega (arith, same, evened))
            ∙ omega (arith, same, evened),
        left,
      )

  -- The pairing of the leftover with a preset is none of two normals.
  normal_pairs-join_choice :
      (pool : Pool) (ps : List Pairing) (alone : ℕ) (all : List ℕ) (chosen : Option ℕ) (s : State)
      → ((position : ℕ) → chosen ≡ some position → position < length (members pool true all))
      → normal_pairs pool (join_choice rng ps alone (members pool true all) chosen s).0
        ≡ normal_pairs pool ps
  unfolding join_choice sided normal_pairs
  normal_pairs-join_choice pool ps alone all none s inside = refl
  normal_pairs-join_choice pool ps alone all (some position) s inside =
      let partner : ℕ = get_or (members pool true all) position 0 in
      ground (
        arith,
        normal_pairs-append pool ps ((sided rng alone partner s).0 ∷ []),
        members-preset pool all position (inside position refl),
      )

  normal_pairs-join_if :
      (pool : Pool) (unrated : ℤ) (ps : List Pairing) (waiting all : List ℕ) (s : State)
      → normal_pairs pool (join_if rng pool unrated ps waiting (members pool true all) s).0
        ≡ normal_pairs pool ps
  unfolding join_leftover
  normal_pairs-join_if pool unrated ps [] all s = refl
  normal_pairs-join_if pool unrated ps (alone ∷ more) all s =
      let preset : List ℕ = members pool true all in
      normal_pairs-join_choice pool ps alone all (closest rng pool alone preset unrated s).0
        (closest rng pool alone preset unrated s).1
        (λ position e. ((closest-IsClosest rng pool alone preset unrated s).0 position e).inside)

  -- Of a list of which some are normal, the pairings before the cap.
  pair_kinds-normals :
      (pool : Pool) (unrated : ℤ) (all normal : List ℕ) (s : State)
      → members pool false all ≡ normal
      → 0 < length normal
      → let r = pair_kinds rng pool unrated (members pool true all) normal s in
        (normal_pairs pool r.0 ≡ length normal / 2)
        × (presets_in pool (players_of r.0) ≤ length normal % 2)
  unfolding pair_kinds
  pair_kinds-normals pool unrated all [] s e some_normal = absurd (omega (arith, some_normal))
  pair_kinds-normals pool unrated all (i ∷ rest) s e some_normal =
      let half : List ℕ = i ∷ rest in
      let r : List Pairing × List ℕ × State = pair_pool rng pool half unrated s in
      let (counted, left) = length-pair_pool pool half unrated s in
      let (none_in, joined) =
        rw e at (normals-presets_in rng pool unrated all (members pool true all) s) in
      (
        normal_pairs-join_if pool unrated r.0 r.1 all r.2
            ∙ normal_pairs-all pool r.0 none_in
            ∙ counted,
        omega (arith, joined, left),
      )

  -- In a round of a pool in which some engine is not a preset, whatever is drawn and however few
  -- slots are spare, the engines that are not presets are paired with each other but for one of an
  -- odd number: half of their number, rounded down, are the pairings of two of them; and at most one
  -- preset plays, and none where their number is even.
  pub pair_round-normals_first :
      (pool : Pool) (unrated : ℤ) (spare : ℕ) (s : State)
      → 0 < normals_of pool
      → (normal_pairs pool (pair_round rng pool unrated spare s).0 ≡ normals_of pool / 2)
        × (presets_in pool (players_of (pair_round rng pool unrated spare s).0)
            ≤ normals_of pool % 2)
  unfolding pair_round
  pair_round-normals_first pool unrated spare s some_normal =
      let all : List ℕ = numbers 0 (length pool) in
      let normal : List ℕ = members pool false all in
      let r : List Pairing × List ℕ × State =
        pair_kinds rng pool unrated (members pool true all) normal s in
      let counted : length normal ≡ normals_of pool =
        length-members pool pool 0 (λ i inside. ap (at pool) (omega arith)) in
      let (paired, met) =
        pair_kinds-normals pool unrated all normal s refl (omega (arith, counted, some_normal)) in
      (
        normal_pairs-withdraw pool spare r.0 r.1 ∙ paired ∙ ap (λ n. n / 2) counted,
        omega (arith, withdraw-presets pool spare r.0 r.1, met, counted),
      )
