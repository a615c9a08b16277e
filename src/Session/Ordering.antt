-- ===== src/Session/Ordering.antt =====
-- src/session/matchmaker.rs: the search for the cheapest order of a few engines, and the number of
-- trials for many.
use tabia_shogi_server.Common.Int.{ℤ}
use tabia_shogi_server.Common.Times.{swap}
use tabia_shogi_server.Common.{
  ℕ, zero, suc, ◌+◌, ◌-◌, ◌*◌, ◌/◌, ◌%◌, ◌^◌, min, max, true, false, Option, none, some, List, ltb,
  ◌==◌, if◌then◌else◌, length, get_or, set, replicate,
}
use tabia_shogi_server.Session.Pool.{Pool, max_trials, min_trials, score}

-- The variables of the loop of `exhaustive`.
pub record Search : Type 0 where
  pub order : List ℕ
  pub best : List ℕ
  pub best_score : ℕ
  pub counters : List ℕ
  pub level : ℕ

-- The swap of a round at a level that has swaps left.
unfoldable pub swapped : Search → List ℕ
unfolding swap
swapped s =
    if s.level % 2 == 0
    then swap 0 0 s.level s.order
    else swap 0 (get_or s.counters s.level 0) s.level s.order

-- The order reached, kept if it is the best so far.
unfoldable pub compared : Pool → ℤ → Search → List ℕ → Search
compared pool unrated s order =
    let candidate = score pool order unrated in
    let counters = set s.counters s.level (get_or s.counters s.level 0 + 1) in
    if ltb candidate s.best_score
    then record {
      order = order;
      best = order;
      best_score = candidate;
      counters = counters;
      level = 0;
    }
    else record s { order = order; counters = counters; level = 0 }

-- One round of the loop.
unfoldable pub search_step : Pool → ℤ → Search → Search
unfolding swapped compared
search_step pool unrated s =
    if ltb (get_or s.counters s.level 0) s.level
    then compared pool unrated s (swapped s)
    else record s { counters = set s.counters s.level 0; level = s.level + 1 }

-- The loop, with fuel for its rounds.
unfoldable pub search_loop : ℕ → Pool → ℤ → Search → Option Search
search_loop zero pool unrated s = none
search_loop (suc fuel) pool unrated s = elim (ltb s.level (length s.order)) [
  | false ↦ some s
  | true ↦ search_loop fuel pool unrated (search_step pool unrated s)
]

-- More than the rounds that seven engines take.
abbrev pub search_fuel : ℕ
search_fuel = 13700

unfoldable pub search_start : Pool → List ℕ → ℤ → Search
search_start pool indices unrated = record {
  order = indices;
  best = indices;
  best_score = score pool indices unrated;
  counters = replicate (length indices) 0;
  level = 0;
}

abbrev found : Option Search → List ℕ → List ℕ
found none indices = indices
found (some s) indices = s.best

unfoldable pub exhaustive : Pool → List ℕ → ℤ → List ℕ
exhaustive pool indices unrated =
    found (search_loop search_fuel pool unrated (search_start pool indices unrated)) indices

-- `u64::saturating_mul`
abbrev saturating_mul : ℕ → ℕ → ℕ
saturating_mul a b = min (2 ^ 64 - 1) (a * b)

-- The loop of `perfect_matchings`: two numbers less remain after each round.
unfoldable pub matchings_loop : ℕ → ℕ → ℕ
matchings_loop zero total = total
matchings_loop (suc zero) total = total
matchings_loop (suc (suc remaining)) total =
    matchings_loop remaining (saturating_mul total (remaining + 1))

unfoldable pub perfect_matchings : ℕ → ℕ
perfect_matchings size = matchings_loop size 1

unfoldable pub trials : ℕ → ℕ
trials size = min max_trials (max min_trials (perfect_matchings size / 3))
