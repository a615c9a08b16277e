-- ===== src/Session/Matchmaker/Orders.antt =====
-- src/session/matchmaker.rs: the orderings that the searches try are orderings of the pool.
use tabia_shogi_server.Common.Int.{ℤ}
use tabia_shogi_server.Common.Times.{times, swap, times-swap, length-swap}
use tabia_shogi_server.Common.{
  ℕ, zero, suc, ◌+◌, ◌-◌, ◌%◌, ◌≤◌, ◌<◌, Option, none, some, List, leb, ltb, ◌==◌, length, get_or,
  ◌≡◌, refl, ◌∙◌, arith, subst, inl, inr, Bool-cases, Option-cases,
}
use tabia_shogi_server.Session.Random.{Rng}
use tabia_shogi_server.Session.Pool.{Pool, exhaustive_pool, score}
use tabia_shogi_server.Session.Ordering.{
  Search, compared, exhaustive, search_fuel, search_loop, search_start, search_step, swapped,
  trials,
}
use tabia_shogi_server.Session.Matchmaker.{
  best_ordering, better, sample_loop, sampled, sampled_order, shuffle, shuffle_from,
}

-- The same numbers, as often, in whatever order.
pub record IsReordering (xs ys : List ℕ) : Type 0 where
  pub same_times : (a : ℕ) → times a xs ≡ times a ys
  pub same_length : length xs ≡ length ys

pub IsReordering-refl : (xs : List ℕ) → IsReordering xs xs
IsReordering-refl xs = record { same_times = λ a. refl; same_length = refl }

IsReordering-trans :
    {xs ys zs : List ℕ} → IsReordering xs ys → IsReordering ys zs → IsReordering xs zs
IsReordering-trans p q = record {
  same_times = λ a. p.same_times a ∙ q.same_times a;
  same_length = p.same_length ∙ q.same_length;
}

swap-IsReordering :
    (i j : ℕ) (xs : List ℕ) → i < length xs → j < length xs → IsReordering (swap 0 i j xs) xs
swap-IsReordering i j xs hi hj = record {
  same_times = λ a. times-swap a i j 0 xs hi hj;
  same_length = length-swap 0 i j xs;
}

-- Both orders of a search state are orderings of the indices, and the best is scored as it says.
pub record IsSearching (pool : Pool) (unrated : ℤ) (indices : List ℕ) (s : Search) : Type 0 where
  pub order_of : IsReordering s.order indices
  pub best_of : IsReordering s.best indices
  pub scored : s.best_score ≡ score pool s.best unrated
  pub at_most : s.best_score ≤ score pool indices unrated

module _ (pool : Pool) (unrated : ℤ) (indices : List ℕ) where
  swapped-IsReordering :
      (s : Search)
      → s.level < length s.order
      → get_or s.counters s.level 0 < s.level
      → IsReordering (swapped s) s.order
  unfolding swapped
  swapped-IsReordering s inside below = elim (Bool-cases (s.level % 2 == 0)) [
    | inl even ↦ rw even (swap-IsReordering 0 s.level s.order (omega arith) inside)
    | inr odd ↦
        rw odd
          (swap-IsReordering (get_or s.counters s.level 0) s.level s.order (omega arith) inside)
  ]

  compared-IsSearching :
      (s : Search) (order : List ℕ)
      → IsSearching pool unrated indices s
      → IsReordering order indices
      → IsSearching pool unrated indices (compared pool unrated s order)
  unfolding compared
  compared-IsSearching s order k r =
      elim (Bool-cases (ltb (score pool order unrated) s.best_score)) [
        | inl better ↦ rw better (record {
          order_of = r;
          best_of = r;
          scored = refl;
          at_most = ground (arith, better, k.at_most);
        })
        | inr worse ↦
            rw worse
              (record { order_of = r; best_of = k.best_of; scored = k.scored; at_most = k.at_most })
      ]

  search_step-IsSearching :
      (s : Search)
      → s.level < length s.order
      → IsSearching pool unrated indices s
      → IsSearching pool unrated indices (search_step pool unrated s)
  unfolding search_step
  search_step-IsSearching s inside k =
      elim (Bool-cases (ltb (get_or s.counters s.level 0) s.level)) [
        | inl more ↦ rw more (
            compared-IsSearching s (swapped s) k (
              IsReordering-trans (swapped-IsReordering s inside (ground (arith, more))) k.order_of))
        | inr spent ↦ rw spent (record {
          order_of = k.order_of;
          best_of = k.best_of;
          scored = k.scored;
          at_most = k.at_most;
        })
      ]

  pub search_loop-IsSearching :
      (fuel : ℕ) (s t : Search)
      → IsSearching pool unrated indices s
      → search_loop fuel pool unrated s ≡ some t
      → IsSearching pool unrated indices t
  unfolding search_loop
  search_loop-IsSearching zero s t k h = ground arith
  search_loop-IsSearching (suc fuel) s t k h = elim (Bool-cases (ltb s.level (length s.order))) [
    | inr done ↦ subst (λ x. IsSearching pool unrated indices x) (ground (arith, done)) k
    | inl more ↦
        search_loop-IsSearching fuel (search_step pool unrated s) t
          (search_step-IsSearching s (ground (arith, more)) k) (ground (arith, more))
  ]

  pub search_start-IsSearching :
      IsSearching pool unrated indices (search_start pool indices unrated)
  unfolding search_start
  search_start-IsSearching = record {
    order_of = IsReordering-refl indices;
    best_of = IsReordering-refl indices;
    scored = refl;
    at_most = omega arith;
  }

  pub exhaustive-IsReordering : IsReordering (exhaustive pool indices unrated) indices
  unfolding exhaustive
  exhaustive-IsReordering =
      elim (Option-cases
        (search_loop search_fuel pool unrated (search_start pool indices unrated))) [
          | inl out ↦ rw out (IsReordering-refl indices)
          | inr (t, e) ↦
              rw e
                (search_loop-IsSearching search_fuel (search_start pool indices unrated) t
                  search_start-IsSearching e).best_of
        ]

module _ (rng : Rng) where
  open rng use {State, below, below-lt}

  shuffle_from-IsReordering :
      (last : ℕ) (order : List ℕ) (s : State)
      → last ≤ length order - 1
      → IsReordering (shuffle_from rng last order s).0 order
  unfolding shuffle_from
  shuffle_from-IsReordering zero order s h = IsReordering-refl order
  shuffle_from-IsReordering (suc last) order s h =
      let drawn : ℕ = (below (last + 2) s).0 in
      let low : drawn < last + 2 = below-lt (last + 2) s (omega arith) in
      let once : IsReordering (swap 0 (last + 1) drawn order) order =
        swap-IsReordering (last + 1) drawn order (omega (arith, h)) (omega (arith, h, low)) in
      IsReordering-trans
        (shuffle_from-IsReordering last (swap 0 (last + 1) drawn order) (below (last + 2) s).1
          (omega (arith, h, once.same_length)))
        once

  shuffle-IsReordering : (order : List ℕ) (s : State) → IsReordering (shuffle rng order s).0 order
  unfolding shuffle
  shuffle-IsReordering order s = shuffle_from-IsReordering (length order - 1) order s (omega arith)

  -- What a sampling keeps is an ordering of the indices.
  abbrev Kept : List ℕ → Option (ℕ × List ℕ) → Type 0
  Kept indices none = Unit
  Kept indices (some (lowest, order)) = IsReordering order indices

  better-Kept :
      (indices : List ℕ) (best : Option (ℕ × List ℕ)) (candidate : ℕ) (order : List ℕ)
      → Kept indices best
      → IsReordering order indices
      → Kept indices (better rng best candidate order)
  better-Kept indices none candidate order k r = r
  better-Kept indices (some (lowest, kept)) candidate order k r =
      elim (Bool-cases (ltb candidate lowest)) [ inl lower ↦ rw lower r | inr higher ↦ rw higher k ]

  sample_loop-Kept :
      (rounds : ℕ) (pool : Pool) (unrated : ℤ) (indices order : List ℕ) (best : Option (ℕ × List ℕ))
      (s : State)
      → IsReordering order indices
      → Kept indices best
      → Kept indices (sample_loop rng rounds pool unrated order best s).0
  unfolding sample_loop
  sample_loop-Kept zero pool unrated indices order best s r k = k
  sample_loop-Kept (suc rounds) pool unrated indices order best s r k =
      let next : List ℕ = (shuffle rng order s).0 in
      let again : IsReordering next indices = IsReordering-trans (shuffle-IsReordering order s) r in
      sample_loop-Kept rounds pool unrated indices next
        (better rng best (score pool next unrated) next) (shuffle rng order s).1 again
        (better-Kept indices best (score pool next unrated) next k again)

  sampled-IsReordering :
      (pool : Pool) (indices : List ℕ) (unrated : ℤ) (s : State)
      → IsReordering (sampled rng pool indices unrated s).0 indices
  unfolding sampled
  sampled-IsReordering pool indices unrated s =
      go (sample_loop rng (trials (length indices)) pool unrated indices none s).0 (
        sample_loop-Kept (trials (length indices)) pool unrated indices indices none s
          (IsReordering-refl indices) tt)
    where
      go :
          (best : Option (ℕ × List ℕ))
          → Kept indices best
          → IsReordering (sampled_order rng best indices) indices
      go none k = IsReordering-refl indices
      go (some (lowest, order)) k = k

  -- The ordering that the search answers with has the same engines as it was given.
  pub best_ordering-IsReordering :
      (pool : Pool) (indices : List ℕ) (unrated : ℤ) (s : State)
      → IsReordering (best_ordering rng pool indices unrated s).0 indices
  unfolding best_ordering
  best_ordering-IsReordering pool indices unrated s =
      elim (Bool-cases (leb (length indices) exhaustive_pool)) [
        | inl small ↦ rw small (exhaustive-IsReordering pool unrated indices)
        | inr large ↦ rw large (sampled-IsReordering pool indices unrated s)
      ]
