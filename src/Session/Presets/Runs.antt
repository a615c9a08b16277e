-- ===== src/Session/Presets/Runs.antt =====
-- src/session/presets.rs: the supervisor over any run of its operations.
use tabia_shogi_server.Common.Dict.{Dict, lookup, put, lookup-put}
use tabia_shogi_server.Common.{
  ℕ, ◌+◌, ◌≤◌, false, ◌==◌, Option, none, some, List, [], ◌∷◌, length, numbers, ok, ◌≡◌, refl, sym,
  ap, ◌∙◌, arith, inl, inr, Bool-cases,
}
use tabia_shogi_server.Config.PresetEngines.{PresetEngines, deserialize}
use tabia_shogi_server.Session.Presets.{Kind}
use tabia_shogi_server.Session.Presets.Supervisor.{
  longest_backoff, backoff, Bridged, Restart, Presets, new, kind_of, is_resident, is_running, start,
  stop, stop_all, stop_each, keys_of, finish, ended_in, failed, drop_bridge, drop_found, drop_all,
  maintain,
}
use tabia_shogi_server.Session.Presets.Maintenance.{
  IsAlive, IsWaiting, IsUp, registered-drop_all, restarts-drop_all,
}
use tabia_shogi_server.Session.Presets.Upkeep.{
  registered-start, restarts-start, registered-restart_all, restarts-restart_all,
}
use tabia_shogi_server.Session.Presets.Residents.{maintain-IsUp}

-- A supervisor of a list of presets, and the time of its latest maintenance, after any operations.
pub data Reached (registered : PresetEngines) : ℕ → Presets → Type 0 where
  begun : Reached registered 0 (new registered)
  maintained :
      {t : ℕ} {p : Presets} (now : ℕ) (readings : ℕ → ℕ)
      → Reached registered t p
      → t ≤ now
      → Reached registered now (maintain p now readings)
  started_one :
      {t : ℕ} {p : Presets} (index reading : ℕ)
      → Reached registered t p
      → Reached registered t (start p index reading)
  stopped_one :
      {t : ℕ} {p : Presets} (index : ℕ)
      → Reached registered t p
      → Reached registered t (stop p index)
  stopped_all : {t : ℕ} {p : Presets} → Reached registered t p → Reached registered t (stop_all p)
  finished :
      {t : ℕ} {p : Presets} (index : ℕ)
      → Reached registered t p
      → Reached registered t (record p { running = finish index p.running })

-- No engine waits beyond the longest wait from a moment.
unfoldable pub IsTimely : ℕ → Dict Restart → Type 0
IsTimely t d = (k : ℕ) (r : Restart) → lookup d k ≡ some r → r.not_before ≤ t + longest_backoff

backoff-bounds : (attempts : ℕ) → backoff attempts ≤ longest_backoff
unfolding backoff
backoff-bounds attempts = omega arith

failed-timely :
    (o : Option Restart) (now started : ℕ)
    → (failed o now started).not_before ≤ now + longest_backoff
unfolding failed
failed-timely o now started = omega (arith, backoff-bounds (failed o now started).attempts)

put-IsTimely :
    (t i : ℕ) (v : Restart) (d : Dict Restart)
    → v.not_before ≤ t + longest_backoff
    → IsTimely t d
    → IsTimely t (put i v d)
unfolding IsTimely
put-IsTimely t i v d h timely k r e = elim (Bool-cases (i == k)) [
  | inl here ↦ let same : v ≡ r = ground (arith, e, here, lookup-put i k v d) in rw same at h
  | inr there ↦ timely k r (ground (arith, e, there, lookup-put i k v d))
]

drop_found-IsTimely :
    (p : Presets) (now i : ℕ) (o : Option Bridged)
    → IsTimely now p.restarts
    → IsTimely now (drop_found p now i o).restarts
unfolding drop_bridge
drop_found-IsTimely p now i none h = h
drop_found-IsTimely p now i (some b) h = elim (Bool-cases (is_resident (kind_of p i))) [
  | inl resident ↦
      rw (drop_bridge, resident)
        (put-IsTimely now i (failed (lookup p.restarts i) now b.started) p.restarts
          (failed-timely (lookup p.restarts i) now b.started) h)
  | inr other ↦ rw (drop_bridge, other) h
]

drop_all-IsTimely :
    (p : Presets) (now : ℕ) (l : List ℕ)
    → IsTimely now p.restarts
    → IsTimely now (drop_all p now l).restarts
unfolding drop_all
drop_all-IsTimely p now [] h = h
drop_all-IsTimely p now (i ∷ rest) h =
    drop_all-IsTimely (drop_found p now i (lookup p.running i)) now rest
      (drop_found-IsTimely p now i (lookup p.running i) h)

later-IsTimely : (s t : ℕ) (d : Dict Restart) → s ≤ t → IsTimely s d → IsTimely t d
unfolding IsTimely
later-IsTimely s t d h timely k r e = omega (arith, timely k r e, h)

stop_each-same :
    (p : Presets) (l : List ℕ)
    → ((stop_each p l).restarts ≡ p.restarts) × ((stop_each p l).registered ≡ p.registered)
unfolding stop_each stop
stop_each-same p [] = (refl, refl)
stop_each-same p (i ∷ rest) = stop_each-same (stop p i) rest

module _ {registered : PresetEngines} where
  -- No engine waits beyond the longest wait from the latest maintenance.
  Reached-IsTimely : {t : ℕ} {p : Presets} → Reached registered t p → IsTimely t p.restarts
  unfolding new maintain stop stop_all
  Reached-IsTimely Reached.begun = unfold IsTimely lookup in λ k r e. ground (arith, e)
  Reached-IsTimely (Reached.maintained {t} {p} now readings from_before h) =
      rw
        (restarts-restart_all now readings (drop_all p now (ended_in p.running))
          (numbers 0 (length (drop_all p now (ended_in p.running)).registered)))
        (drop_all-IsTimely p now (ended_in p.running)
          (later-IsTimely t now p.restarts h (Reached-IsTimely from_before)))
  Reached-IsTimely (Reached.started_one {p = p} index reading from_before) =
      rw (restarts-start p index reading) (Reached-IsTimely from_before)
  Reached-IsTimely (Reached.stopped_one index from_before) = Reached-IsTimely from_before
  Reached-IsTimely (Reached.stopped_all {p = p} from_before) =
      rw (stop_each-same p (keys_of p.running)).0 (Reached-IsTimely from_before)
  Reached-IsTimely (Reached.finished index from_before) = Reached-IsTimely from_before

  Reached-registered : {t : ℕ} {p : Presets} → Reached registered t p → p.registered ≡ registered
  unfolding new maintain stop stop_all
  Reached-registered Reached.begun = refl
  Reached-registered (Reached.maintained {p = p} now readings from_before h) =
      registered-restart_all now readings (drop_all p now (ended_in p.running))
        (numbers 0 (length (drop_all p now (ended_in p.running)).registered))
      ∙ registered-drop_all p now (ended_in p.running)
      ∙ Reached-registered from_before
  Reached-registered (Reached.started_one {p = p} index reading from_before) =
      registered-start p index reading ∙ Reached-registered from_before
  Reached-registered (Reached.stopped_one index from_before) = Reached-registered from_before
  Reached-registered (Reached.stopped_all {p = p} from_before) =
      (stop_each-same p (keys_of p.running)).1 ∙ Reached-registered from_before
  Reached-registered (Reached.finished index from_before) = Reached-registered from_before

  -- In any run of a configuration that has loaded, a resident engine without a bridge has a bridge
  -- that has not ended after any maintenance that is at least a minute after the latest.
  pub maintain-restarts :
      {t : ℕ} {p : Presets} (now : ℕ) (readings : ℕ → ℕ) (k : ℕ)
      → deserialize registered ≡ ok registered
      → Reached registered t p
      → kind_of p k ≡ Kind.resident
      → is_running p k ≡ false
      → t + longest_backoff ≤ now
      → IsAlive (maintain p now readings) k
  unfolding IsUp IsWaiting IsTimely maintain is_running
  maintain-restarts {t} {p} now readings k loaded reached resident idle late =
      elim (maintain-IsUp p now readings k (rw (Reached-registered reached) loaded) resident) [
        | inl alive ↦ alive
        | inr (absent, (r, kept, early)) ↦
            let unchanged : lookup p.restarts k ≡ some r =
              sym (restarts-drop_all p now k (ended_in p.running) (idle_none idle))
              ∙ ap (λ d. lookup d k)
                  (sym (
                    restarts-restart_all now readings (drop_all p now (ended_in p.running))
                      (numbers 0 (length (drop_all p now (ended_in p.running)).registered))))
              ∙ kept in
            absurd (omega (arith, early, late, Reached-IsTimely reached k r unchanged))
      ]
    where
      idle_none : is_running p k ≡ false → lookup p.running k ≡ none
      idle_none h = ground (arith, h)
