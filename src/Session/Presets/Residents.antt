-- ===== src/Session/Presets/Residents.antt =====
-- src/session/presets.rs: the supervisor of a configuration that has loaded, over any run of it.
use tabia_shogi_server.Common.Times.{times-numbers}
use tabia_shogi_server.Common.Text.{Text}
use tabia_shogi_server.Common.{
  ℕ, zero, suc, ◌<◌, true, false, Option, none, some, List, [], ◌∷◌, length, numbers, ok, ◌≡◌, ◌≢◌,
  refl, ap, arith, ◌⊎◌, inl, inr, Option-cases,
}
use tabia_shogi_server.Config.PresetEngines.{
  Lifecycle, Protocol, PresetEngine, PresetEngines, get, is_nil, lifecycle_at, is_externally_run,
  deserialize, before,
}
use tabia_shogi_server.Config.PresetEngines.Entries.{IsPlaced, IsEntry}
use tabia_shogi_server.Config.PresetEngines.Loading.{deserialize_iff}
use tabia_shogi_server.Session.Presets.{Kind}
use tabia_shogi_server.Session.Presets.Supervisor.{
  Presets, kind_of, is_resident, is_spawnable, ended_in, drop_all, maintain,
}
use tabia_shogi_server.Session.Presets.Maintenance.{IsUp, registered-drop_all, drop_all-IsClean}
use tabia_shogi_server.Session.Presets.Upkeep.{kind_same, restart_all-IsUp}

Protocol-cases : (x : Protocol) → (x ≡ Protocol.csa) ⊎ (x ≡ Protocol.usi)
Protocol-cases Protocol.csa = inl refl
Protocol-cases Protocol.usi = inr refl

nonempty : (l : List Text) → l ≢ [] → is_nil l ≡ false
nonempty [] h = absurd (h refl)
nonempty (x ∷ xs) h = refl

placed_spawnable :
    (e : PresetEngine)
    → IsPlaced e
    → e.lifecycle ≡ some Lifecycle.resident
    → is_spawnable (some e) ≡ true
unfolding IsPlaced is_externally_run
placed_spawnable e h resident = elim (Protocol-cases e.protocol) [
  | inl csa ↦ let keys = rw (IsPlaced, csa) at h in ground (arith, keys.1, resident)
  | inr usi ↦ let keys = rw (IsPlaced, usi) at h in ground (arith, usi, nonempty e.command keys.0)
]

resident_lives :
    (o : Option Lifecycle)
    → is_resident (elim o [
      | none ↦ Kind.externally_run
      | some Lifecycle.resident ↦ Kind.resident
      | some Lifecycle.on_demand ↦ Kind.on_demand
    ])
      ≡ true
    → o ≡ some Lifecycle.resident
resident_lives none h = ground arith
resident_lives (some Lifecycle.resident) h = refl
resident_lives (some Lifecycle.on_demand) h = ground arith

resident_get :
    (p : Presets) (k : ℕ)
    → is_resident (kind_of p k) ≡ true
    → (e : PresetEngine) × (get p.registered k ≡ some e) × (e.lifecycle ≡ some Lifecycle.resident)
unfolding kind_of lifecycle_at
resident_get p k h = elim (Option-cases (get p.registered k)) [
  | inl absent ↦ ground (arith, h, absent)
  | inr (e, found) ↦ (e, found, resident_lives e.lifecycle (rw (kind_of, found) at h))
]

-- A resident engine of a configuration that has loaded has a command to start.
resident_spawnable :
    (p : Presets) (k : ℕ)
    → deserialize p.registered ≡ ok p.registered
    → is_resident (kind_of p k) ≡ true
    → is_spawnable (get p.registered k) ≡ true
unfolding IsEntry
resident_spawnable p k loaded resident =
    let (e, found, lives) = resident_get p k resident in
    let entry : IsEntry (before k p.registered) e =
      (deserialize_iff p.registered).0 loaded k e found in
    rw found (placed_spawnable e entry.2 lives)

get-length : (l : PresetEngines) (k : ℕ) (e : PresetEngine) → get l k ≡ some e → k < length l
unfolding get
get-length [] k e h = ground arith
get-length (q ∷ rest) zero e h = omega arith
get-length (q ∷ rest) (suc k) e h = omega (arith, get-length rest k e h)

-- After a maintenance, in a configuration that has loaded, every resident engine has a bridge that
-- has not ended, or has none and waits for a moment that has not come.
pub maintain-IsUp :
    (p : Presets) (now : ℕ) (readings : ℕ → ℕ) (k : ℕ)
    → deserialize p.registered ≡ ok p.registered
    → kind_of p k ≡ Kind.resident
    → IsUp now (maintain p now readings) k
unfolding maintain
maintain-IsUp p now readings k loaded e =
    let dropped : Presets = drop_all p now (ended_in p.running) in
    let same : dropped.registered ≡ p.registered = registered-drop_all p now (ended_in p.running) in
    let resident : is_resident (kind_of p k) ≡ true = rw e refl in
    let (q, found, lives) = resident_get p k resident in
    restart_all-IsUp now readings dropped (numbers 0 (length dropped.registered)) k
      (ground (
        arith,
        times-numbers k 0 (length dropped.registered),
        get-length p.registered k q found,
        ap (λ l. length l) same,
      ))
      (drop_all-IsClean p now k) (ground (arith, kind_same dropped p k same, resident))
      (rw same (resident_spawnable p k loaded resident))
