-- ===== src/Session/Matchmaker/Cap.antt =====
-- src/session/matchmaker.rs: the cap on the preset engines in games, and the rules that pair them.
use tabia_shogi_server.Common.Int.{ℤ}
use tabia_shogi_server.Common.{
  ℕ, ◌+◌, ◌-◌, ◌≤◌, true, false, List, [], ◌∷◌, ◌++◌, ltb, arith, inl, inr, Bool-cases, length,
  numbers,
}
use tabia_shogi_server.Session.Random.{Rng}
use tabia_shogi_server.Session.Pool.{Pairing, Pool}
use tabia_shogi_server.Session.Matchmaker.{
  members, pair_kinds, pair_round, slots_of, withdraw_over_the_cap,
}

-- The slots that pairings take together.
unfoldable pub slots_taken : Pool → List Pairing → ℕ
slots_taken pool [] = 0
slots_taken pool (p ∷ ps) = slots_of pool p + slots_taken pool ps

withdraw-slots :
    (pool : Pool) (left : ℕ) (ps : List Pairing) (waiting : List ℕ)
    → slots_taken pool (withdraw_over_the_cap pool left ps waiting).0 ≤ left
unfolding withdraw_over_the_cap slots_taken
withdraw-slots pool left [] waiting = omega arith
withdraw-slots pool left (p ∷ ps) waiting = elim (Bool-cases (ltb left (slots_of pool p))) [
  | inl over ↦ rw over (withdraw-slots pool left ps (waiting ++ p.black ∷ p.white ∷ []))
  | inr fits ↦
      let room : slots_of pool p ≤ left = ground (arith, fits) in
      rw fits (omega (arith, room, withdraw-slots pool (left - slots_of pool p) ps waiting))
]

-- The pairings of a round take no more slots for preset engines than are spare.
pub pair_round-slots :
    (rng : Rng) (pool : Pool) (unrated : ℤ) (spare : ℕ) (s : rng.State)
    → slots_taken pool (pair_round rng pool unrated spare s).0 ≤ spare
unfolding pair_round
pair_round-slots rng pool unrated spare s =
    let all : List ℕ = numbers 0 (length pool) in
    let r : List Pairing × List ℕ × rng.State =
      pair_kinds rng pool unrated (members pool true all) (members pool false all) s in
    withdraw-slots pool spare r.0 r.1
