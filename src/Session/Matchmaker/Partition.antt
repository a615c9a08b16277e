-- ===== src/Session/Matchmaker/Partition.antt =====
-- src/session/matchmaker.rs: a round neither drops an engine nor uses one twice.
use tabia_shogi_server.Common.Int.{ℤ}
use tabia_shogi_server.Common.Times.{
  one_if, times, times-append, times-remove_at, length-remove_at, times-sort, times-numbers,
  IsSorted, sort-IsSorted,
}
use tabia_shogi_server.Common.{
  ℕ, ◌+◌, ◌-◌, ◌%◌, ◌≤◌, ◌<◌, true, false, Option, none, some, List, [], ◌∷◌, ◌++◌, ltb, ◌==◌,
  length, get_or, numbers, ◌≡◌, refl, ◌∙◌, arith, ap, inl, inr, Bool-cases,
}
use tabia_shogi_server.Session.Random.{Rng}
use tabia_shogi_server.Session.Pool.{Pairing, Pool, chunks}
use tabia_shogi_server.Session.Matchmaker.{
  best_ordering, closest, join_choice, join_if, join_leftover, listed, make_even, members,
  pair_kinds, pair_pool, pair_round, side_all, sided, slots_of, withdraw_over_the_cap,
}
use tabia_shogi_server.Session.Matchmaker.Orders.{best_ordering-IsReordering}
use tabia_shogi_server.Session.Matchmaker.Choice.{closest-IsClosest}

-- Everyone in a list of pairings.
unfoldable pub players_of : List Pairing → List ℕ
players_of [] = []
players_of (p ∷ ps) = p.black ∷ p.white ∷ players_of ps

times-players_of_append :
    (a : ℕ) (ps qs : List Pairing)
    → times a (players_of (ps ++ qs)) ≡ times a (players_of ps) + times a (players_of qs)
unfolding times players_of
times-players_of_append a [] qs = omega arith
times-players_of_append a (p ∷ ps) qs = omega (arith, times-players_of_append a ps qs)

flattened : List (ℕ × ℕ) → List ℕ
flattened [] = []
flattened ((a, b) ∷ rest) = a ∷ b ∷ flattened rest

flattened-chunks : (xs : List ℕ) → length xs % 2 ≡ 0 → flattened (chunks xs) ≡ xs
unfolding flattened chunks
flattened-chunks [] h = refl
flattened-chunks (a ∷ []) h = absurd (omega (arith, h))
flattened-chunks (a ∷ b ∷ rest) h = ap (λ l. a ∷ b ∷ l) (flattened-chunks rest (omega (arith, h)))

-- The members of the two kinds are the whole.
times-members :
    (a : ℕ) (pool : Pool) (l : List ℕ)
    → times a (members pool true l) + times a (members pool false l) ≡ times a l
unfolding times members
times-members a pool [] = refl
times-members a pool (i ∷ rest) = ground (arith, times-members a pool rest)

times-withdraw :
    (a : ℕ) (pool : Pool) (left : ℕ) (ps : List Pairing) (waiting : List ℕ)
    → times a (players_of (withdraw_over_the_cap pool left ps waiting).0)
        + times a (withdraw_over_the_cap pool left ps waiting).1
      ≡ times a (players_of ps) + times a waiting
unfolding withdraw_over_the_cap players_of times
times-withdraw a pool left [] waiting = refl
times-withdraw a pool left (p ∷ ps) waiting = elim (Bool-cases (ltb left (slots_of pool p))) [
  | inl over ↦ rw over (
      omega (
        arith,
        times-withdraw a pool left ps (waiting ++ p.black ∷ p.white ∷ []),
        times-append a waiting (p.black ∷ p.white ∷ []),
      ))
  | inr fits ↦ rw fits (omega (arith, times-withdraw a pool (left - slots_of pool p) ps waiting))
]

module _ (rng : Rng) where
  open rng use {State, below, below-lt}

  times-sided :
      (a b c : ℕ) (s : State)
      → one_if ((sided rng b c s).0.black == a) + one_if ((sided rng b c s).0.white == a)
        ≡ one_if (b == a) + one_if (c == a)
  unfolding sided
  times-sided a b c s = ground arith

  times-side_all :
      (a : ℕ) (ps : List (ℕ × ℕ)) (s : State)
      → times a (players_of (side_all rng ps s).0) ≡ times a (flattened ps)
  unfolding side_all times players_of flattened
  times-side_all a [] s = refl
  times-side_all a ((b, c) ∷ ps) s =
      omega (arith, times-sided a b c s, times-side_all a ps (sided rng b c s).1)

  -- The leftover and the rest are the half, and the rest is even.
  make_even-even : (l : List ℕ) (s : State) → length (make_even rng l s).1 % 2 ≡ 0
  unfolding make_even
  make_even-even l s = elim (Bool-cases (length l % 2 == 1)) [
    | inl odd ↦
        let e : length l % 2 ≡ 1 = ground (arith, odd) in
        rw odd (
          omega (
            arith,
            e,
            length-remove_at (below (length l) s).0 l (below-lt (length l) s (omega (arith, e))),
          ))
    | inr even ↦ rw even (ground (arith, even))
  ]

  times-make_even :
      (a : ℕ) (l : List ℕ) (s : State)
      → times a (listed rng (make_even rng l s).0) + times a (make_even rng l s).1 ≡ times a l
  unfolding make_even
  times-make_even a l s = elim (Bool-cases (length l % 2 == 1)) [
    | inl odd ↦
        let e : length l % 2 ≡ 1 = ground (arith, odd) in
        rw odd (
          unfold times in
          omega (
            arith,
            times-remove_at a (below (length l) s).0 0 l (below-lt (length l) s (omega (arith, e))),
          ))
    | inr even ↦ rw even (unfold times in omega arith)
  ]

  pub times-pair_pool :
      (a : ℕ) (pool : Pool) (half : List ℕ) (unrated : ℤ) (s : State)
      → times a (players_of (pair_pool rng pool half unrated s).0)
          + times a (pair_pool rng pool half unrated s).1
        ≡ times a half
  unfolding pair_pool
  times-pair_pool a pool half unrated s =
      let even_half : List ℕ = (make_even rng half s).1 in
      let s₁ : State = (make_even rng half s).2 in
      let r = best_ordering-IsReordering rng pool even_half unrated s₁ in
      let order : List ℕ = (best_ordering rng pool even_half unrated s₁).0 in
      omega (
        arith,
        times-make_even a half s,
        times-side_all a (chunks order) (best_ordering rng pool even_half unrated s₁).1,
        ap (times a)
            (flattened-chunks order (ap (λ n. n % 2) r.same_length ∙ make_even-even half s)),
        r.same_times a,
      )

  times-join_choice :
      (a : ℕ) (ps : List Pairing) (alone : ℕ) (preset : List ℕ) (chosen : Option ℕ) (s : State)
      → ((position : ℕ) → chosen ≡ some position → position < length preset)
      → times a (players_of (join_choice rng ps alone preset chosen s).0)
          + times a (join_choice rng ps alone preset chosen s).1
        ≡ times a (players_of ps) + one_if (alone == a) + times a preset
  unfolding join_choice times players_of
  times-join_choice a ps alone preset none s inside =
      omega (arith, times-append a preset (alone ∷ []))
  times-join_choice a ps alone preset (some position) s inside =
      let partner : ℕ = get_or preset position 0 in
      omega (
        arith,
        times-players_of_append a ps ((sided rng alone partner s).0 ∷ []),
        times-sided a alone partner s,
        times-remove_at a position 0 preset (inside position refl),
      )

  times-join_leftover :
      (a : ℕ) (pool : Pool) (unrated : ℤ) (ps : List Pairing) (alone : ℕ) (preset : List ℕ)
      (s : State)
      → times a (players_of (join_leftover rng pool unrated ps alone preset s).0)
          + times a (join_leftover rng pool unrated ps alone preset s).1
        ≡ times a (players_of ps) + one_if (alone == a) + times a preset
  unfolding join_leftover
  times-join_leftover a pool unrated ps alone preset s =
      times-join_choice a ps alone preset (closest rng pool alone preset unrated s).0
        (closest rng pool alone preset unrated s).1
        (λ position e. ((closest-IsClosest rng pool alone preset unrated s).0 position e).inside)

  -- A half leaves one engine at most.
  waiting_alone :
      (pool : Pool) (half : List ℕ) (unrated : ℤ) (s : State)
      → length (pair_pool rng pool half unrated s).1 ≤ 1
  unfolding pair_pool make_even
  waiting_alone pool half unrated s = ground arith

  times-join_if :
      (a : ℕ) (pool : Pool) (unrated : ℤ) (ps : List Pairing) (waiting preset : List ℕ) (s : State)
      → length waiting ≤ 1
      → times a (players_of (join_if rng pool unrated ps waiting preset s).0)
          + times a (join_if rng pool unrated ps waiting preset s).1
        ≡ times a (players_of ps) + times a waiting + times a preset
  times-join_if a pool unrated ps [] preset s h = unfold times in omega arith
  times-join_if a pool unrated ps (alone ∷ []) preset s h =
      unfold times in omega (arith, times-join_leftover a pool unrated ps alone preset s)
  times-join_if a pool unrated ps (alone ∷ other ∷ more) preset s h = absurd (omega (arith, h))

  times-pair_kinds :
      (a : ℕ) (pool : Pool) (unrated : ℤ) (preset normal : List ℕ) (s : State)
      → times a (players_of (pair_kinds rng pool unrated preset normal s).0)
          + times a (pair_kinds rng pool unrated preset normal s).1
        ≡ times a preset + times a normal
  unfolding pair_kinds
  times-pair_kinds a pool unrated preset [] s =
      unfold times in omega (arith, times-pair_pool a pool preset unrated s)
  times-pair_kinds a pool unrated preset (i ∷ rest) s =
      let half : List ℕ = i ∷ rest in
      let r : List Pairing × List ℕ × State = pair_pool rng pool half unrated s in
      omega (
        arith,
        times-join_if a pool unrated r.0 r.1 preset r.2 (waiting_alone pool half unrated s),
        times-pair_pool a pool half unrated s,
      )

  -- In a round, whatever is drawn, every index of the pool stands exactly once among the players of
  -- the pairings and those who keep waiting, and no other does; those who wait are in order.
  pub pair_round-partition :
      (pool : Pool) (unrated : ℤ) (spare : ℕ) (s : State)
      → ((a : ℕ)
          → times a (players_of (pair_round rng pool unrated spare s).0)
              + times a (pair_round rng pool unrated spare s).1
            ≡ one_if (ltb a (length pool)))
        × IsSorted (pair_round rng pool unrated spare s).1
  unfolding pair_round
  pair_round-partition pool unrated spare s =
      let all : List ℕ = numbers 0 (length pool) in
      let r : List Pairing × List ℕ × State =
        pair_kinds rng pool unrated (members pool true all) (members pool false all) s in
      (
        λ a. omega (
          arith,
          times-sort a (withdraw_over_the_cap pool spare r.0 r.1).1,
          times-withdraw a pool spare r.0 r.1,
          times-pair_kinds a pool unrated (members pool true all) (members pool false all) s,
          times-members a pool all,
          counted a,
        ),
        sort-IsSorted (withdraw_over_the_cap pool spare r.0 r.1).1,
      )
    where
      counted : (a : ℕ) → times a (numbers 0 (length pool)) ≡ one_if (ltb a (length pool))
      counted a = ground (arith, times-numbers a 0 (length pool))
