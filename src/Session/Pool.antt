-- ===== src/Session/Pool.antt =====
-- src/session/matchmaker.rs: the engines that wait, and the cost of pairing two of them. A read of the
-- pool out of range, where the source panics and which it never makes, gives `nobody`.
use tabia_shogi_server.Common.Int.{ℤ, pos, ◌+ℤ◌}
use tabia_shogi_server.Common.Signed.{◌-ℤ◌, abs_diff, saturate_i32}
use tabia_shogi_server.Common.{
  ℕ, ◌+◌, Bool, true, false, ◌&&◌, ◌||◌, Option, none, some, List, [], ◌∷◌, ◌==◌, if◌then◌else◌,
  get_or,
}

-- `rematch_penalty` and the others of the source's constants.
abbrev pub estimate_margin : ℕ
estimate_margin = 200

abbrev pub rematch_penalty : ℕ
rematch_penalty = 400

abbrev pub unrated_rematch_penalty : ℕ
unrated_rematch_penalty = 4000

abbrev pub same_account_penalty : ℕ
same_account_penalty = 800

abbrev pub exhaustive_pool : ℕ
exhaustive_pool = 7

abbrev pub min_trials : ℕ
min_trials = 10

abbrev pub max_trials : ℕ
max_trials = 300

pub data PastResult : Type 0 where
  won lost : PastResult

pub record PreviousGame : Type 0 where
  pub opponent : ℕ
  pub opponent_rate : Option ℤ
  pub outcome : PastResult

-- `EngineId` and `AccountId` are their numbers.
pub record Waiting : Type 0 where
  pub engine : ℕ
  pub account : ℕ
  pub rate : Option ℤ
  pub provisional : Option ℤ
  pub previous : Option PreviousGame
  pub preset_engine : Bool
  pub pays_on_pairing : Bool

abbrev pub Pool : Type 0
Pool = List Waiting

abbrev nobody : Waiting
nobody = record {
  engine = 0;
  account = 0;
  rate = none;
  provisional = none;
  previous = none;
  preset_engine = false;
  pays_on_pairing = false;
}

-- `pool[index]`
unfoldable pub at : Pool → ℕ → Waiting
at pool index = get_or pool index nobody

unfoldable pub takes_a_slot : Waiting → Bool
takes_a_slot w = w.preset_engine && w.pays_on_pairing

pub record Pairing : Type 0 where
  pub black : ℕ
  pub white : ℕ

-- The opponent's rate, a margin up or down.
abbrev shifted : PastResult → ℤ → ℤ
shifted PastResult.won r = saturate_i32 (r +ℤ pos estimate_margin)
shifted PastResult.lost r = saturate_i32 (r -ℤ pos estimate_margin)

abbrev from_previous : Option PreviousGame → ℤ → ℤ
from_previous none unrated = unrated
from_previous (some g) unrated = elim g.opponent_rate [
  | none ↦ unrated
  | some r ↦ shifted g.outcome r
]

unfoldable pub estimate_rate : Waiting → ℤ → ℤ
unfolding saturate_i32 ◌+ℤ◌ ◌-ℤ◌
estimate_rate w unrated = elim w.rate [
  | some rate ↦ rate
  | none ↦ elim w.provisional [
    | some provisional ↦ provisional
    | none ↦ from_previous w.previous unrated
  ]
]

-- The closure `played` of `is_rematch`.
abbrev played : Waiting → Waiting → Bool
played w against = elim w.previous [ none ↦ false | some g ↦ g.opponent == against.engine ]

unfoldable pub is_rematch : Waiting → Waiting → Bool
is_rematch one other = played one other || played other one

abbrev is_unrated : Waiting → Bool
is_unrated w = elim w.rate [ none ↦ true | some _ ↦ false ]

-- The costs are never negative, and far below what an `i64` holds.
unfoldable pub cost : Waiting → Waiting → ℤ → ℕ
unfolding estimate_rate is_rematch abs_diff
cost one other unrated =
    let gap = abs_diff (estimate_rate one unrated) (estimate_rate other unrated) in
    let rematch =
      if is_rematch one other
      then rematch_penalty
        + (if is_unrated one || is_unrated other then unrated_rematch_penalty else 0)
      else 0 in
    gap + rematch + (if one.account == other.account then same_account_penalty else 0)

-- `as_chunks::<2>().0`: consecutive pairs, a last one without a partner left off.
unfoldable pub chunks : List ℕ → List (ℕ × ℕ)
chunks [] = []
chunks (a ∷ []) = []
chunks (a ∷ b ∷ rest) = (a, b) ∷ chunks rest

unfoldable pub sum_costs : Pool → ℤ → List (ℕ × ℕ) → ℕ
sum_costs pool unrated [] = 0
sum_costs pool unrated ((a, b) ∷ rest) =
    cost (at pool a) (at pool b) unrated + sum_costs pool unrated rest

unfoldable pub score : Pool → List ℕ → ℤ → ℕ
unfolding chunks sum_costs
score pool order unrated = sum_costs pool unrated (chunks order)
