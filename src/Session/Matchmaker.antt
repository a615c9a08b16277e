-- ===== src/Session/Matchmaker.antt =====
-- src/session/matchmaker.rs: one matchmaking round.
pub mod Orders
pub mod Partition
pub mod Cap
pub mod Choice
pub mod Rules
pub mod Normals
pub mod Exhausting
use tabia_shogi_server.Common.Int.{ℤ, pos, negsuc, pos_part, neg_part, ◌+ℤ◌}
use tabia_shogi_server.Common.Signed.{◌-ℤ◌, magnitude, abs_diff, saturate_i32}
use tabia_shogi_server.Common.Times.{remove_at, swap, sort}
use tabia_shogi_server.Common.{
  ℕ, zero, suc, ◌+◌, ◌-◌, ◌*◌, ◌/◌, ◌%◌, ◌^◌, min, max, Bool, true, false, not, ◌&&◌, ◌||◌, Option,
  none, some, List, [], ◌∷◌, ◌++◌, leb, ltb, ◌==◌, if◌then◌else◌, length, get_or, set, replicate,
  numbers,
}
use tabia_shogi_server.Session.Random.{Rng}
use tabia_shogi_server.Session.Pool.{
  Pairing, PastResult, Pool, PreviousGame, Waiting, at, chunks, cost, estimate_margin,
  estimate_rate, exhaustive_pool, is_rematch, max_trials, min_trials, rematch_penalty,
  same_account_penalty, score, sum_costs, takes_a_slot, unrated_rematch_penalty,
}
use tabia_shogi_server.Session.Ordering.{
  Search, compared, exhaustive, matchings_loop, perfect_matchings, search_fuel, search_loop,
  search_start, search_step, swapped, trials,
}

-- Which engines are presets, and which are not.
unfoldable pub members : Pool → Bool → List ℕ → List ℕ
members pool wanted [] = []
members pool wanted (i ∷ rest) =
    let later = members pool wanted rest in
    if (at pool i).preset_engine
    then (if wanted then i ∷ later else later)
    else if wanted
    then later
    else i ∷ later

unfoldable pub slots_of : Pool → Pairing → ℕ
unfolding takes_a_slot
slots_of pool p =
    (if takes_a_slot (at pool p.black) then 1 else 0)
    + (if takes_a_slot (at pool p.white) then 1 else 0)

-- The closure of `retain`, from the slots left on; the pairings kept, and those who wait.
unfoldable pub withdraw_over_the_cap : Pool → ℕ → List Pairing → List ℕ → List Pairing × List ℕ
withdraw_over_the_cap pool left [] waiting = ([], waiting)
withdraw_over_the_cap pool left (p ∷ rest) waiting =
    let cost = slots_of pool p in
    let withdrawn = withdraw_over_the_cap pool left rest (waiting ++ p.black ∷ p.white ∷ []) in
    let kept = withdraw_over_the_cap pool (left - cost) rest waiting in
    if ltb left cost then withdrawn else (p ∷ kept.0, kept.1)

-- `min` over an iterator of numbers.
unfoldable pub least : List ℕ → Option ℕ
least [] = none
least (x ∷ xs) = elim (least xs) [ none ↦ some x | some m ↦ some (min x m) ]

unfoldable pub gap_to : Pool → ℤ → ℕ → ℕ → ℕ
unfolding estimate_rate abs_diff
gap_to pool unrated alone index =
    abs_diff (estimate_rate (at pool index) unrated) (estimate_rate (at pool alone) unrated)

unfoldable pub gaps : Pool → ℤ → ℕ → List ℕ → List ℕ
gaps pool unrated alone [] = []
gaps pool unrated alone (i ∷ rest) = gap_to pool unrated alone i ∷ gaps pool unrated alone rest

-- The positions, from a first one on, at which a number stands.
unfoldable pub positions_of : ℕ → ℕ → List ℕ → List ℕ
positions_of first wanted [] = []
positions_of first wanted (g ∷ rest) =
    let later = positions_of (first + 1) wanted rest in if g == wanted then first ∷ later else later

module _ (rng : Rng) where
  open rng use {State, below}

  unfoldable pub sided : ℕ → ℕ → State → Pairing × State
  sided a b s =
      let (coin, s') = below 2 s in
      (if coin == 1 then record { black = b; white = a } else record { black = a; white = b }, s')

  -- `last` counts down from the end of the list to its second place.
  unfoldable pub shuffle_from : ℕ → List ℕ → State → List ℕ × State
  shuffle_from zero order s = (order, s)
  shuffle_from (suc last) order s =
      let (at_random, s') = below (last + 2) s in
      shuffle_from last (swap 0 (last + 1) at_random order) s'

  unfoldable pub shuffle : List ℕ → State → List ℕ × State
  unfolding shuffle_from
  shuffle order s = shuffle_from (length order - 1) order s

  -- The better of the best so far and a candidate.
  abbrev pub better : Option (ℕ × List ℕ) → ℕ → List ℕ → Option (ℕ × List ℕ)
  better none candidate order = some (candidate, order)
  better (some (lowest, kept)) candidate order =
      if ltb candidate lowest then some (candidate, order) else some (lowest, kept)

  unfoldable pub sample_loop :
      ℕ → Pool → ℤ → List ℕ → Option (ℕ × List ℕ) → State → Option (ℕ × List ℕ) × State
  sample_loop zero pool unrated order best s = (best, s)
  sample_loop (suc rounds) pool unrated order best s =
      let (order', s') = shuffle order s in
      sample_loop rounds pool unrated order' (better best (score pool order' unrated) order') s'

  abbrev pub sampled_order : Option (ℕ × List ℕ) → List ℕ → List ℕ
  sampled_order none indices = indices
  sampled_order (some (lowest, order)) indices = order

  unfoldable pub sampled : Pool → List ℕ → ℤ → State → List ℕ × State
  sampled pool indices unrated s =
      let (best, s') = sample_loop (trials (length indices)) pool unrated indices none s in
      (sampled_order best indices, s')

  unfoldable pub best_ordering : Pool → List ℕ → ℤ → State → List ℕ × State
  best_ordering pool indices unrated s =
      if leb (length indices) exhaustive_pool
      then (exhaustive pool indices unrated, s)
      else sampled pool indices unrated s

  unfoldable pub side_all : List (ℕ × ℕ) → State → List Pairing × State
  side_all [] s = ([], s)
  side_all ((a, b) ∷ rest) s =
      let (p, s₁) = sided a b s in let (ps, s₂) = side_all rest s₁ in (p ∷ ps, s₂)

  -- The leftover of an odd half, drawn at random, and the half without it.
  unfoldable pub make_even : List ℕ → State → Option ℕ × List ℕ × State
  make_even indices s =
      if length indices % 2 == 1
      then (let (dropped, s') = below (length indices) s in
          (some (get_or indices dropped 0), remove_at dropped indices, s'))
      else (none, indices, s)

  abbrev pub listed : Option ℕ → List ℕ
  listed none = []
  listed (some i) = i ∷ []

  unfoldable pub pair_pool : Pool → List ℕ → ℤ → State → List Pairing × List ℕ × State
  unfolding make_even
  pair_pool pool half unrated s =
      let (leftover, even_half, s₁) = make_even half s in
      let (order, s₂) = best_ordering pool even_half unrated s₁ in
      let (pairings, s₃) = side_all (chunks order) s₂ in (pairings, listed leftover, s₃)

  unfoldable pub closest : Pool → ℕ → List ℕ → ℤ → State → Option ℕ × State
  unfolding gaps least positions_of
  closest pool alone preset unrated s = elim (least (gaps pool unrated alone preset)) [
    | none ↦ (none, s)
    | some nearest ↦
        let tied = positions_of 0 nearest (gaps pool unrated alone preset) in
        let (drawn, s') = below (length tied) s in (some (get_or tied drawn 0), s')
  ]

  -- The leftover of the normal half meets the preset chosen, or waits with the presets.
  unfoldable pub join_choice :
      List Pairing → ℕ → List ℕ → Option ℕ → State → List Pairing × List ℕ × State
  join_choice pairings alone preset (some position) s =
      let (p, s') = sided alone (get_or preset position 0) s in
      (pairings ++ p ∷ [], remove_at position preset, s')
  join_choice pairings alone preset none s = (pairings, preset ++ alone ∷ [], s)

  unfoldable pub join_leftover :
      Pool → ℤ → List Pairing → ℕ → List ℕ → State → List Pairing × List ℕ × State
  unfolding join_choice
  join_leftover pool unrated pairings alone preset s =
      let (chosen, s') = closest pool alone preset unrated s in
      join_choice pairings alone preset chosen s'

  -- `waiting.pop()` of the normal half's leftover, which is one engine at most.
  abbrev pub join_if :
      Pool → ℤ → List Pairing → List ℕ → List ℕ → State → List Pairing × List ℕ × State
  join_if pool unrated pairings [] preset s = (pairings, preset, s)
  join_if pool unrated pairings (alone ∷ _) preset s =
      join_leftover pool unrated pairings alone preset s

  -- The round, before the cap.
  unfoldable pub pair_kinds : Pool → ℤ → List ℕ → List ℕ → State → List Pairing × List ℕ × State
  pair_kinds pool unrated preset [] s = pair_pool pool preset unrated s
  pair_kinds pool unrated preset (i ∷ rest) s =
      let (pairings, waiting, s') = pair_pool pool (i ∷ rest) unrated s in
      join_if pool unrated pairings waiting preset s'

  unfoldable pub pair_round : Pool → ℤ → ℕ → State → List Pairing × List ℕ × State
  unfolding pair_kinds
  pair_round pool unrated spare s =
      let all = numbers 0 (length pool) in
      let (pairings, waiting, s') =
        pair_kinds pool unrated (members pool true all) (members pool false all) s in
      let (kept, kept_waiting) = withdraw_over_the_cap pool spare pairings waiting in
      (kept, sort kept_waiting, s')
