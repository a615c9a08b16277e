-- ===== src/Session/Matchmaker/Exhausting.antt =====
-- src/session/matchmaker.rs: the exhaustive search ends, within its fuel.
use tabia_shogi_server.Common.Int.{ℤ}
use tabia_shogi_server.Common.Times.{length-swap}
use tabia_shogi_server.Common.{
  ℕ, zero, suc, ◌+◌, ◌%◌, ◌≤◌, Bool, true, false, some, List, ltb, ◌==◌, if◌then◌else◌, length,
  get_or, set, replicate, ◌≡◌, refl, sym, arith, inl, inr, Bool-cases,
}
use tabia_shogi_server.Session.Matchmaker.Orders.{
  IsReordering, search_loop-IsSearching, search_start-IsSearching,
}
use tabia_shogi_server.Session.Pool.{Pool, exhaustive_pool, score}
use tabia_shogi_server.Session.Ordering.{
  Search, compared, search_fuel, search_loop, search_start, search_step, swapped,
}

-- The counters and the level alone, which decide when the loop ends.
unfoldable counters_after : List ℕ → ℕ → List ℕ × ℕ
counters_after counters level =
    if ltb (get_or counters level 0) level
    then (set counters level (get_or counters level 0 + 1), 0)
    else (set counters level 0, level + 1)

unfoldable ends_within : ℕ → ℕ → List ℕ × ℕ → Bool
unfolding counters_after
ends_within zero size (counters, level) = false
ends_within (suc fuel) size (counters, level) = elim (ltb level size) [
  | false ↦ true
  | true ↦ ends_within fuel size (counters_after counters level)
]

abbrev control : Search → List ℕ × ℕ
control s = (s.counters, s.level)

length-swapped : (s : Search) → length (swapped s) ≡ length s.order
unfolding swapped
length-swapped s = elim (Bool-cases (s.level % 2 == 0)) [
  | inl even ↦ rw even (length-swap 0 0 s.level s.order)
  | inr odd ↦ rw odd (length-swap 0 (get_or s.counters s.level 0) s.level s.order)
]

-- A round changes the counters and the level as they alone say, and the order in place.
search_step-counters :
    (pool : Pool) (unrated : ℤ) (s : Search)
    → let n = search_step pool unrated s in
      (control n ≡ counters_after s.counters s.level) × (length n.order ≡ length s.order)
unfolding search_step compared counters_after
search_step-counters pool unrated s =
    elim (Bool-cases (ltb (get_or s.counters s.level 0) s.level)) [
      | inr spent ↦ rw spent (refl, refl)
      | inl more ↦ rw more (after_swap (ltb (score pool (swapped s) unrated) s.best_score) refl)
    ]
  where
    after_swap :
        (b : Bool)
        → ltb (score pool (swapped s) unrated) s.best_score ≡ b
        → let n = compared pool unrated s (swapped s) in
          let c : List ℕ × ℕ = (set s.counters s.level (get_or s.counters s.level 0 + 1), 0) in
          (control n ≡ c) × (length n.order ≡ length s.order)
    after_swap true e = rw e (refl, length-swapped s)
    after_swap false e = rw e (refl, length-swapped s)

-- The loop ends where its counters do, whatever the order and the costs.
search_loop-some :
    (fuel : ℕ) (pool : Pool) (unrated : ℤ) (s : Search)
    → ends_within fuel (length s.order) (s.counters, s.level) ≡ true
    → (t : Search) × (search_loop fuel pool unrated s ≡ some t)
unfolding ends_within search_loop
search_loop-some zero pool unrated s h = ground arith
search_loop-some (suc fuel) pool unrated s h = elim (Bool-cases (ltb s.level (length s.order))) [
  | inr done ↦ (s, rw (search_loop, done) refl)
  | inl more ↦
      let (same, sized) = search_step-counters pool unrated s in
      let later : ends_within fuel (length s.order) (counters_after s.counters s.level) ≡ true =
        rw (ends_within, more) at h in
      let (t, e) =
        search_loop-some fuel pool unrated (search_step pool unrated s) (rw (sized, same) later) in
      (t, rw (search_loop, more) e)
]

-- The counters of each size end.
ends_up_to_seven :
    (n : ℕ) → n ≤ exhaustive_pool → ends_within search_fuel n (replicate n 0, 0) ≡ true
unfolding ends_within
ends_up_to_seven zero h = refl
ends_up_to_seven (suc zero) h = refl
ends_up_to_seven (suc (suc zero)) h = refl
ends_up_to_seven (suc (suc (suc zero))) h = refl
ends_up_to_seven (suc (suc (suc (suc zero)))) h = refl
ends_up_to_seven (suc (suc (suc (suc (suc zero))))) h = refl
ends_up_to_seven (suc (suc (suc (suc (suc (suc zero)))))) h = refl
ends_up_to_seven (suc (suc (suc (suc (suc (suc (suc zero))))))) h = refl
ends_up_to_seven (suc (suc (suc (suc (suc (suc (suc (suc n)))))))) h = absurd (omega (arith, h))

-- The search through the orders of at most seven engines ends, with an order of the same engines that
-- costs no more than the one it began with.
pub exhaustive-ends :
    (pool : Pool) (indices : List ℕ) (unrated : ℤ)
    → length indices ≤ exhaustive_pool
    → (t : Search) × (search_loop search_fuel pool unrated (search_start pool indices unrated)
        ≡ some t)
      × IsReordering t.best indices
      × (score pool t.best unrated ≤ score pool indices unrated)
unfolding search_start
exhaustive-ends pool indices unrated h =
    let (t, e) =
      search_loop-some search_fuel pool unrated (search_start pool indices unrated)
        (ends_up_to_seven (length indices) h) in
    let k =
      search_loop-IsSearching pool unrated indices search_fuel (search_start pool indices unrated) t
        (search_start-IsSearching pool unrated indices) e in
    (t, e, k.best_of, rw (sym k.scored) k.at_most)
