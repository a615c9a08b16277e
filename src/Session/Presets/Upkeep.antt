-- ===== src/Session/Presets/Upkeep.antt =====
-- src/session/presets.rs: after a maintenance, every resident engine runs or waits for its turn.
use tabia_shogi_server.Common.Dict.{lookup, lookup-put}
use tabia_shogi_server.Common.Times.{times}
use tabia_shogi_server.Common.{
  ℕ, ◌<◌, Bool, true, false, not, ◌&&◌, ◌==◌, some, List, [], ◌∷◌, leb, if◌then◌else◌, ◌≡◌, refl,
  ap, ◌∙◌, arith, inl, inr, Bool-cases, Option-cases,
}
use tabia_shogi_server.Config.PresetEngines.{get}
use tabia_shogi_server.Session.Presets.Supervisor.{
  Presets, kind_of, is_resident, is_running, is_spawnable, start, is_due, restart_one, restart_all,
}
use tabia_shogi_server.Session.Presets.Maintenance.{IsAlive, IsWaiting, IsUp, IsClean}

pub registered-start : (p : Presets) (i reading : ℕ) → (start p i reading).registered ≡ p.registered
unfolding start
registered-start p i reading = ground arith

pub restarts-start : (p : Presets) (i reading : ℕ) → (start p i reading).restarts ≡ p.restarts
unfolding start
restarts-start p i reading = ground arith

pub running-start :
    (p : Presets) (i reading k : ℕ)
    → lookup (start p i reading).running k ≡ (
        if not (is_running p i) && is_spawnable (get p.registered i) && i == k
        then some (record { is_finished = false; started = reading })
        else lookup p.running k)
unfolding start
running-start p i reading k =
    ground (arith, lookup-put i k (record { is_finished = false; started = reading }) p.running)

pub kind_same : (p q : Presets) (k : ℕ) → p.registered ≡ q.registered → kind_of p k ≡ kind_of q k
unfolding kind_of
kind_same p q k h = rw h refl

module _ (now : ℕ) (readings : ℕ → ℕ) where
  pub registered-restart_one :
      (p : Presets) (i : ℕ) → (restart_one p now readings i).registered ≡ p.registered
  unfolding restart_one
  registered-restart_one p i = ground (arith, registered-start p i (readings i))

  pub registered-restart_all :
      (p : Presets) (l : List ℕ) → (restart_all p now readings l).registered ≡ p.registered
  unfolding restart_all
  registered-restart_all p [] = refl
  registered-restart_all p (i ∷ rest) =
      registered-restart_all (restart_one p now readings i) rest ∙ registered-restart_one p i

  restarts-restart_one :
      (p : Presets) (i : ℕ) → (restart_one p now readings i).restarts ≡ p.restarts
  unfolding restart_one
  restarts-restart_one p i = ground (arith, restarts-start p i (readings i))

  pub restarts-restart_all :
      (p : Presets) (l : List ℕ) → (restart_all p now readings l).restarts ≡ p.restarts
  unfolding restart_all
  restarts-restart_all p [] = refl
  restarts-restart_all p (i ∷ rest) =
      restarts-restart_all (restart_one p now readings i) rest ∙ restarts-restart_one p i

  -- Whether the preset is started.
  unfoldable pub begins : Presets → ℕ → Bool
  begins p i =
      is_resident (kind_of p i)
      && is_due (lookup p.restarts i) now
      && is_spawnable (get p.registered i)
      && not (is_running p i)

  pub running-restart_one :
      (p : Presets) (i k : ℕ)
      → lookup (restart_one p now readings i).running k ≡ (
          if begins p i && i == k
          then some (record { is_finished = false; started = readings i })
          else lookup p.running k)
  unfolding restart_one begins
  running-restart_one p i k = ground (arith, running-start p i (readings i) k)

  restart_one-IsUp :
      (p : Presets) (k : ℕ)
      → IsClean p k
      → is_resident (kind_of p k) ≡ true
      → is_spawnable (get p.registered k) ≡ true
      → IsUp now (restart_one p now readings k) k
  unfolding IsUp IsClean IsAlive IsWaiting is_running begins
  restart_one-IsUp p k clean resident spawnable = elim (Option-cases (lookup p.running k)) [
    | inl absent ↦ elim (Option-cases (lookup p.restarts k)) [
      | inl fresh ↦ inl (
        record { is_finished = false; started = readings k },
        ground (arith, running-restart_one p k k, absent, fresh, resident, spawnable),
        refl,
      )
      | inr (r, kept) ↦ elim (Bool-cases (leb r.not_before now)) [
        | inl due ↦ inl (
          record { is_finished = false; started = readings k },
          ground (arith, running-restart_one p k k, absent, kept, due, resident, spawnable),
          refl,
        )
        | inr early ↦ inr (
          ground (arith, running-restart_one p k k, absent, kept, early),
          (
            r,
            ground (arith, ap (λ d. lookup d k) (restarts-restart_one p k), kept),
            ground (arith, early),
          ),
        )
      ]
    ]
    | inr (b, found) ↦ inl (b, ground (arith, running-restart_one p k k, found), clean b found)
  ]

  restart_one-keeps_IsClean :
      (p : Presets) (i k : ℕ) → IsClean p k → IsClean (restart_one p now readings i) k
  unfolding IsClean
  restart_one-keeps_IsClean p i k clean b h = elim (Bool-cases (begins p i && i == k)) [
    | inl begun ↦ ground (arith, running-restart_one p i k, begun, h)
    | inr idle ↦ clean b (ground (arith, running-restart_one p i k, idle, h))
  ]

  restart_one-keeps_IsUp :
      (p : Presets) (i k : ℕ) → IsUp now p k → IsUp now (restart_one p now readings i) k
  unfolding IsUp IsAlive IsWaiting is_running begins
  restart_one-keeps_IsUp p i k (inl (b, found, alive)) =
      inl (b, ground (arith, running-restart_one p i k, found), alive)
  restart_one-keeps_IsUp p i k (inr (absent, (r, kept, early))) = inr (
    ground (arith, running-restart_one p i k, absent, kept, early),
    (r, ground (arith, ap (λ d. lookup d k) (restarts-restart_one p i), kept), early),
  )

  restart_all-keeps_IsUp :
      (p : Presets) (l : List ℕ) (k : ℕ) → IsUp now p k → IsUp now (restart_all p now readings l) k
  unfolding restart_all
  restart_all-keeps_IsUp p [] k h = h
  restart_all-keeps_IsUp p (i ∷ rest) k h =
      restart_all-keeps_IsUp (restart_one p now readings i) rest k (restart_one-keeps_IsUp p i k h)

  pub restart_all-IsUp :
      (p : Presets) (l : List ℕ) (k : ℕ)
      → 0 < times k l
      → IsClean p k
      → is_resident (kind_of p k) ≡ true
      → is_spawnable (get p.registered k) ≡ true
      → IsUp now (restart_all p now readings l) k
  unfolding restart_all times
  restart_all-IsUp p [] k h clean resident spawnable = absurd (omega (arith, h))
  restart_all-IsUp p (i ∷ rest) k h clean resident spawnable =
      let next : Presets = restart_one p now readings i in
      let same : next.registered ≡ p.registered = registered-restart_one p i in
      elim (Bool-cases (i == k)) [
        | inl here ↦
            let e : i ≡ k = ground (arith, here) in
            rw e (
              restart_all-keeps_IsUp (restart_one p now readings k) rest k
                (restart_one-IsUp p k clean resident spawnable))
        | inr there ↦
            restart_all-IsUp next rest k (ground (arith, h, there))
              (restart_one-keeps_IsClean p i k clean)
              (ground (arith, kind_same next p k same, resident)) (rw same spawnable)
      ]
