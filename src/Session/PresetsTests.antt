-- ===== src/Session/PresetsTests.antt =====
-- Rounds and maintenances of preset engines, and the witnesses of the theorems about them.
use tabia_shogi_server.Common.Int.{pos}
use tabia_shogi_server.Common.Dict.{lookup}
use tabia_shogi_server.Common.Times.{times}
use tabia_shogi_server.Common.{
  ℕ, ◌%◌, ◌≤◌, ◌<◌, max, true, false, List, [], ◌∷◌, length, ◌≡◌, refl, arith,
}
use tabia_shogi_server.Config.PresetEngines.Example.{residents, residents_load}
use tabia_shogi_server.Session.Presets.{
  max_playing, State, Kind, Standing, contains, in_games, held, plan,
}
use tabia_shogi_server.Session.Presets.Rounds.{carried}
use tabia_shogi_server.Session.Presets.Slots.{held-plan}
use tabia_shogi_server.Session.Presets.Breaking.{plan-abort}
use tabia_shogi_server.Session.Presets.Supervisor.{
  Presets, new, kind_of, is_running, maintain, finish,
}
use tabia_shogi_server.Session.Presets.Maintenance.{IsAlive}
use tabia_shogi_server.Session.Presets.Runs.{Reached, maintain-restarts}

abbrev standing : State → Standing
standing state = record { state = state; kind = Kind.on_demand; estimate = pos 1500 }

-- Two presets play each other, and a third is stopped.
abbrev calibrating : List Standing
calibrating =
    standing State.playing_preset ∷ standing State.playing_preset ∷ standing State.stopped ∷ []

-- None of three runs.
abbrev all_stopped : List Standing
all_stopped = standing State.stopped ∷ standing State.stopped ∷ standing State.stopped ∷ []

plan_pair : (plan [] all_stopped).start ≡ 0 ∷ 1 ∷ []
unfolding plan times
plan_pair = refl

plan_one : (plan (pos 1000 ∷ []) all_stopped).start ≡ 0 ∷ []
unfolding plan times
plan_one = refl

aborts_calibration : (plan (pos 1000 ∷ []) calibrating).abort ≡ true
unfolding plan
aborts_calibration = refl

held-plan_example :
    held (carried (plan [] all_stopped) 0 all_stopped) ≤ max max_playing (held all_stopped)
held-plan_example = held-plan [] all_stopped

plan-abort_example :
    (1 % 2 ≡ 1)
    × (max_playing ≤ length (in_games calibrating))
    × ((k : ℕ)
        → k < 3
        → (contains (plan (pos 1000 ∷ []) calibrating).start k ≡ false)
          × (contains (plan (pos 1000 ∷ []) calibrating).stop k ≡ false))
plan-abort_example = plan-abort (pos 1000 ∷ []) calibrating aborts_calibration

abbrev still : ℕ → ℕ
still index = 5

-- The process of the resident engine is started, ends at once, and is not started again in the same
-- maintenance.
abbrev failed_once : Presets
failed_once =
    let begun = maintain (new residents) 5 still in
    maintain (record begun { running = finish 0 begun.running }) 6 still

resident_kind : kind_of failed_once 0 ≡ Kind.resident
unfolding kind_of maintain new lookup finish
resident_kind = refl

failed_idle : is_running failed_once 0 ≡ false
unfolding is_running maintain new lookup finish
failed_idle = refl

maintain-restarts_example : IsAlive (maintain failed_once 60000000006 still) 0
maintain-restarts_example =
    maintain-restarts 60000000006 still 0 residents_load
      (Reached.maintained 6 still
        (Reached.finished 0 (Reached.maintained 5 still Reached.begun (ground arith)))
        (ground arith))
      resident_kind failed_idle (ground arith)
