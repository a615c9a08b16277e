-- ===== src/Session/Presets/Supervisor.antt =====
-- src/session/presets.rs: the supervisor of the processes. An `Instant` is its nanoseconds from some
-- start. Of a bridge's task it is known if it has finished; that is the environment's to say
-- (`finish`), as is the reading of the clock that a start takes.
use tabia_shogi_server.Common.Dict.{Dict, lookup, remove, put}
use tabia_shogi_server.Common.{
  ℕ, ◌+◌, ◌-◌, ◌*◌, ◌^◌, min, Bool, true, false, not, ◌&&◌, ◌||◌, ◌==◌, Option, none, some, List,
  [], ◌∷◌, leb, if◌then◌else◌, length, numbers,
}
use tabia_shogi_server.Config.PresetEngines.{
  Lifecycle, PresetEngine, PresetEngines, get, lifecycle_at, is_externally_run, is_nil, is_none,
}
use tabia_shogi_server.Session.Presets.{Kind}

abbrev pub first_backoff : ℕ
first_backoff = 1000000000

abbrev pub longest_backoff : ℕ
longest_backoff = 60000000000

abbrev pub steady : ℕ
steady = longest_backoff

-- The shift is at most 31, so the product is far below the longest `Duration`.
unfoldable pub backoff : ℕ → ℕ
backoff attempts = min (first_backoff * 2 ^ min (attempts - 1) 31) longest_backoff

pub record Bridged : Type 0 where
  pub is_finished : Bool
  pub started : ℕ

pub record Restart : Type 0 where
  pub attempts : ℕ
  pub not_before : ℕ

pub record Presets : Type 0 where
  pub registered : PresetEngines
  pub running : Dict Bridged
  pub restarts : Dict Restart

unfoldable pub new : PresetEngines → Presets
new registered = record { registered = registered; running = []; restarts = [] }

unfoldable pub kind_of : Presets → ℕ → Kind
unfolding lifecycle_at get
kind_of p index = elim (lifecycle_at p.registered index) [
  | none ↦ Kind.externally_run
  | some Lifecycle.resident ↦ Kind.resident
  | some Lifecycle.on_demand ↦ Kind.on_demand
]

abbrev pub is_resident : Kind → Bool
is_resident Kind.resident = true
is_resident _ = false

unfoldable pub is_running : Presets → ℕ → Bool
unfolding lookup
is_running p index = not (is_none (lookup p.running index))

-- Whether a registered preset has a process that the server may start.
abbrev pub is_spawnable : Option PresetEngine → Bool
is_spawnable none = false
is_spawnable (some preset) = not (is_externally_run preset) && not (is_nil preset.command)

-- The bridge's own start, with the clock's reading then.
unfoldable pub start : Presets → ℕ → ℕ → Presets
unfolding is_running is_externally_run put get
start p index reading =
    if is_running p index
    then p
    else if is_spawnable (get p.registered index)
    then record p {
      running = put index (record { is_finished = false; started = reading }) p.running;
    }
    else p

unfoldable pub stop : Presets → ℕ → Presets
unfolding remove
stop p index = record p { running = remove index p.running }

-- The bridges that have ended, by their indices.
unfoldable pub ended_in : Dict Bridged → List ℕ
ended_in [] = []
ended_in ((index, bridged) ∷ rest) =
    let later = ended_in rest in if bridged.is_finished then index ∷ later else later

-- The failures before one, where the bridge was started at a moment.
unfoldable pub previous : Option Restart → ℕ → ℕ → ℕ
previous none now started = 0
previous (some r) now started = if leb steady (now - started) then 0 else r.attempts

-- The next attempt after a failure.
unfoldable pub failed : Option Restart → ℕ → ℕ → Restart
unfolding previous backoff
failed restart now started =
    let attempts = min (2 ^ 32 - 1) (previous restart now started + 1) in
    record { attempts = attempts; not_before = now + backoff attempts }

-- One ended bridge dropped, which was started at a moment.
unfoldable pub drop_bridge : Presets → ℕ → ℕ → ℕ → Presets
unfolding kind_of remove put failed lookup
drop_bridge p now index started =
    if is_resident (kind_of p index)
    then record p {
      running = remove index p.running;
      restarts = put index (failed (lookup p.restarts index) now started) p.restarts;
    }
    else record p { running = remove index p.running }

abbrev pub drop_found : Presets → ℕ → ℕ → Option Bridged → Presets
drop_found p now index none = p
drop_found p now index (some bridged) = drop_bridge p now index bridged.started

unfoldable pub drop_all : Presets → ℕ → List ℕ → Presets
unfolding drop_bridge lookup
drop_all p now [] = p
drop_all p now (index ∷ rest) = drop_all (drop_found p now index (lookup p.running index)) now rest

-- Whether the wait of a preset has run out.
abbrev pub is_due : Option Restart → ℕ → Bool
is_due none now = true
is_due (some r) now = leb r.not_before now

unfoldable pub restart_one : Presets → ℕ → (ℕ → ℕ) → ℕ → Presets
unfolding kind_of is_running lookup start
restart_one p now readings index =
    if not (is_resident (kind_of p index)) || is_running p index
    then p
    else if is_due (lookup p.restarts index) now
    then start p index (readings index)
    else p

unfoldable pub restart_all : Presets → ℕ → (ℕ → ℕ) → List ℕ → Presets
unfolding restart_one
restart_all p now readings [] = p
restart_all p now readings (index ∷ rest) =
    restart_all (restart_one p now readings index) now readings rest

unfoldable pub maintain : Presets → ℕ → (ℕ → ℕ) → Presets
unfolding drop_all ended_in restart_all numbers
maintain p now readings =
    let dropped = drop_all p now (ended_in p.running) in
    restart_all dropped now readings (numbers 0 (length dropped.registered))

-- The environment's part: the task of a bridge ends.
unfoldable pub finish : ℕ → Dict Bridged → Dict Bridged
finish index [] = []
finish index ((i, b) ∷ rest) =
    let later = finish index rest in
    if i == index then (i, record b { is_finished = true }) ∷ later else (i, b) ∷ later

-- `stop_all`, over the keys of the running bridges.
unfoldable pub keys_of : Dict Bridged → List ℕ
keys_of [] = []
keys_of ((index, _) ∷ rest) = index ∷ keys_of rest

unfoldable pub stop_each : Presets → List ℕ → Presets
unfolding stop
stop_each p [] = p
stop_each p (index ∷ rest) = stop_each (stop p index) rest

unfoldable pub stop_all : Presets → Presets
unfolding stop_each keys_of
stop_all p = stop_each p (keys_of p.running)
