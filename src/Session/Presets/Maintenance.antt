-- ===== src/Session/Presets/Maintenance.antt =====
-- src/session/presets.rs: what a maintenance does for each preset.
use tabia_shogi_server.Common.Dict.{Dict, lookup, lookup-remove, lookup-put}
use tabia_shogi_server.Common.Times.{times}
use tabia_shogi_server.Common.{
  ℕ, ◌<◌, true, false, ◌==◌, Option, none, some, List, [], ◌∷◌, ltb, if◌then◌else◌, ◌≡◌, refl, ap,
  ◌∙◌, arith, ◌⊎◌, inl, inr, Bool-cases,
}
use tabia_shogi_server.Session.Presets.Supervisor.{
  Bridged, Restart, Presets, ended_in, failed, drop_bridge, drop_found, drop_all,
}

-- A bridge that runs.
unfoldable pub IsAlive : Presets → ℕ → Type 0
IsAlive p k = (b : Bridged) × (lookup p.running k ≡ some b) × (b.is_finished ≡ false)

-- No bridge, and a wait that has not run out.
unfoldable pub IsWaiting : Presets → ℕ → ℕ → Type 0
IsWaiting p now k =
    (lookup p.running k ≡ none)
    × ((r : Restart) × (lookup p.restarts k ≡ some r) × (now < r.not_before))

-- It runs, or waits for its turn.
unfoldable pub IsUp : ℕ → Presets → ℕ → Type 0
IsUp now p k = IsAlive p k ⊎ IsWaiting p now k

unfoldable pub IsClean : Presets → ℕ → Type 0
IsClean p k = (b : Bridged) → lookup p.running k ≡ some b → b.is_finished ≡ false

registered-drop_found :
    (p : Presets) (now i : ℕ) (o : Option Bridged)
    → (drop_found p now i o).registered ≡ p.registered
unfolding drop_bridge
registered-drop_found p now i none = refl
registered-drop_found p now i (some b) = ground arith

pub registered-drop_all :
    (p : Presets) (now : ℕ) (l : List ℕ) → (drop_all p now l).registered ≡ p.registered
unfolding drop_all
registered-drop_all p now [] = refl
registered-drop_all p now (i ∷ rest) =
    registered-drop_all (drop_found p now i (lookup p.running i)) now rest
    ∙ registered-drop_found p now i (lookup p.running i)

running-drop_found :
    (p : Presets) (now i k : ℕ) (o : Option Bridged)
    → lookup p.running i ≡ o
    → lookup (drop_found p now i o).running k ≡ (if i == k then none else lookup p.running k)
unfolding drop_bridge
running-drop_found p now i k none h = elim (Bool-cases (i == k)) [
  | inl here ↦ let same : i ≡ k = ground (arith, here) in rw here (rw same at h)
  | inr there ↦ rw there refl
]
running-drop_found p now i k (some b) h = ground (arith, lookup-remove i k p.running)

-- Of the bridges, a maintenance drops first those in the list.
pub running-drop_all :
    (p : Presets) (now k : ℕ) (l : List ℕ)
    → lookup (drop_all p now l).running k ≡ (if ltb 0 (times k l) then none else lookup p.running k)
unfolding drop_all times
running-drop_all p now k [] = ground arith
running-drop_all p now k (i ∷ rest) = ground (
  arith,
  running-drop_all (drop_found p now i (lookup p.running i)) now k rest,
  running-drop_found p now i k (lookup p.running i) refl,
)

-- A preset without a bridge keeps its restart.
restarts-drop_found :
    (p : Presets) (now i k : ℕ) (o : Option Bridged)
    → lookup p.running i ≡ o
    → lookup p.running k ≡ none
    → lookup (drop_found p now i o).restarts k ≡ lookup p.restarts k
unfolding drop_bridge
restarts-drop_found p now i k none h absent = refl
restarts-drop_found p now i k (some b) h absent = elim (Bool-cases (i == k)) [
  | inl here ↦ let same : i ≡ k = ground (arith, here) in ground (arith, rw same at h, absent)
  | inr there ↦
      ground (arith, lookup-put i k (failed (lookup p.restarts i) now b.started) p.restarts)
]

pub restarts-drop_all :
    (p : Presets) (now k : ℕ) (l : List ℕ)
    → lookup p.running k ≡ none
    → lookup (drop_all p now l).restarts k ≡ lookup p.restarts k
unfolding drop_all
restarts-drop_all p now k [] absent = refl
restarts-drop_all p now k (i ∷ rest) absent =
    let dropped : Presets = drop_found p now i (lookup p.running i) in
    restarts-drop_all dropped now k rest
      (ground (arith, absent, running-drop_found p now i k (lookup p.running i) refl))
    ∙ restarts-drop_found p now i k (lookup p.running i) refl absent

ended_in-mem :
    (d : Dict Bridged) (k : ℕ) (b : Bridged)
    → lookup d k ≡ some b
    → b.is_finished ≡ true
    → 0 < times k (ended_in d)
unfolding lookup ended_in times
ended_in-mem [] k b h f = ground arith
ended_in-mem ((i, c) ∷ rest) k b h f = elim (Bool-cases (i == k)) [
  | inl here ↦
      let same : c ≡ b = ground (arith, h, here) in
      ground (arith, here, ap (λ d. d.is_finished) same, f)
  | inr there ↦ ground (arith, ended_in-mem rest k b (ground (arith, h, there)) f)
]

-- After the drops, no bridge is one that has ended.
pub drop_all-IsClean : (p : Presets) (now k : ℕ) → IsClean (drop_all p now (ended_in p.running)) k
unfolding IsClean
drop_all-IsClean p now k b h = elim (Bool-cases b.is_finished) [
  | inl ended ↦ elim (Bool-cases (ltb 0 (times k (ended_in p.running)))) [
    | inl listed ↦ ground (arith, h, running-drop_all p now k (ended_in p.running), listed)
    | inr unlisted ↦
        let kept : lookup p.running k ≡ some b =
          ground (arith, h, running-drop_all p now k (ended_in p.running), unlisted) in
        ground (arith, ended_in-mem p.running k b kept ended, unlisted)
  ]
  | inr alive ↦ alive
]
