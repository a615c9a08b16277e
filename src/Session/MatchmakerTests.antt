-- ===== src/Session/MatchmakerTests.antt =====
-- Rounds of the matchmaker, and the witnesses of the theorems about it.
use tabia_shogi_server.Common.Int.{ℤ, pos}
use tabia_shogi_server.Common.Times.{one_if, times, IsSorted}
use tabia_shogi_server.Common.{
  ℕ, ◌+◌, ◌/◌, ◌%◌, ◌≤◌, ◌<◌, true, false, none, some, List, [], ◌∷◌, ltb, ◌≡◌, refl, arith,
}
use tabia_shogi_server.Session.Random.{Rng}
use tabia_shogi_server.Session.GameIds.{mint_game_id, round_of}
use tabia_shogi_server.Session.GameIds.Minting.{round_of-mint_game_id}
use tabia_shogi_server.Session.Pool.{PastResult, Pool, Waiting, at, cost, score}
use tabia_shogi_server.Session.Ordering.{
  Search, matchings_loop, perfect_matchings, search_fuel, search_loop, search_start, trials,
}
use tabia_shogi_server.Session.Matchmaker.{closest, pair_round}
use tabia_shogi_server.Session.Matchmaker.Orders.{IsReordering}
use tabia_shogi_server.Session.Matchmaker.Partition.{players_of, pair_round-partition}
use tabia_shogi_server.Session.Matchmaker.Cap.{slots_taken, pair_round-slots}
use tabia_shogi_server.Session.Matchmaker.Choice.{IsClosest, closest-IsClosest}
use tabia_shogi_server.Session.Matchmaker.Rules.{presets_in}
use tabia_shogi_server.Session.Matchmaker.Normals.{
  normals_of, normal_pairs, pair_round-normals_first,
}
use tabia_shogi_server.Session.Matchmaker.Exhausting.{exhaustive-ends}

-- A generator that counts up.
abbrev counting : Rng
counting = record { State = ℕ; below = λ n s. (s % n, s + 1); below-lt = λ n s h. omega (arith, h) }

abbrev waiting : ℕ → ℤ → Waiting
waiting engine rate = record {
  engine = engine;
  account = engine;
  rate = some rate;
  provisional = none;
  previous = none;
  preset_engine = false;
  pays_on_pairing = false;
}

-- Three engines that are not presets, and two presets.
abbrev five : Pool
five =
    waiting 1 (pos 1500)
    ∷ waiting 2 (pos 2000)
    ∷ waiting 3 (pos 1600)
    ∷ record (waiting 4 (pos 1900)) { preset_engine = true; pays_on_pairing = true }
    ∷ record (waiting 5 (pos 1000)) { preset_engine = true; pays_on_pairing = true }
    ∷ []

-- The two that are rated 400 apart, and those 400 apart who have just met.
abbrev met : Waiting
met = record (waiting 6 (pos 1900)) {
  previous = some (record { opponent = 1; opponent_rate = none; outcome = PastResult.won });
}

cost_apart : cost (at five 0) (at five 3) (pos 1000) ≡ 400
unfolding cost at
cost_apart = refl

cost_rematch : cost (at five 0) met (pos 1000) ≡ 800
unfolding cost at
cost_rematch = refl

trials_eight : trials 8 ≡ 35
unfolding trials perfect_matchings matchings_loop
trials_eight = refl

pair_round-partition_example :
    ((a : ℕ)
      → times a (players_of (pair_round counting five (pos 1000) 2 0).0)
          + times a (pair_round counting five (pos 1000) 2 0).1
        ≡ one_if (ltb a 5))
    × IsSorted (pair_round counting five (pos 1000) 2 0).1
pair_round-partition_example = pair_round-partition counting five (pos 1000) 2 0

pair_round-slots_example : slots_taken five (pair_round counting five (pos 1000) 0 0).0 ≤ 0
pair_round-slots_example = pair_round-slots counting five (pos 1000) 0 0

abbrev presets_waiting : List ℕ
presets_waiting = 3 ∷ 4 ∷ []

closest-IsClosest_example :
    ((position : ℕ)
      → (closest counting five 1 presets_waiting (pos 1000) 0).0 ≡ some position
      → IsClosest five (pos 1000) 1 presets_waiting position)
    × ((closest counting five 1 presets_waiting (pos 1000) 0).0 ≡ none → presets_waiting ≡ [])
closest-IsClosest_example = closest-IsClosest counting five 1 presets_waiting (pos 1000) 0

some_normal : 0 < normals_of five
unfolding normals_of
some_normal = ground arith

pair_round-normals_first_example :
    (normal_pairs five (pair_round counting five (pos 1000) 2 0).0 ≡ normals_of five / 2)
    × (presets_in five (players_of (pair_round counting five (pos 1000) 2 0).0)
        ≤ normals_of five % 2)
pair_round-normals_first_example = pair_round-normals_first counting five (pos 1000) 2 0 some_normal

exhaustive-ends_example :
    (t : Search) × (search_loop search_fuel five
        (pos 1000)
        (search_start five (0 ∷ 1 ∷ 2 ∷ 3 ∷ []) (pos 1000))
      ≡ some t)
    × IsReordering t.best (0 ∷ 1 ∷ 2 ∷ 3 ∷ [])
    × (score five t.best (pos 1000) ≤ score five (0 ∷ 1 ∷ 2 ∷ 3 ∷ []) (pos 1000))
exhaustive-ends_example = exhaustive-ends five (0 ∷ 1 ∷ 2 ∷ 3 ∷ []) (pos 1000) (ground arith)

abbrev today : List ℕ
today = 50 ∷ 48 ∷ 50 ∷ 54 ∷ []

round_of-mint_game_id_example : round_of (mint_game_id today 7 2) today ≡ some 7
round_of-mint_game_id_example = round_of-mint_game_id today 7 2 (ground arith) (ground arith)
