-- ===== src/Session/Presets.antt =====
-- src/session/presets.rs: what a round does about the preset engines. An `i32` is an integer in its
pub mod Indices
pub mod Rounds
pub mod Slots
pub mod Breaking
pub mod Supervisor
pub mod Maintenance
pub mod Upkeep
pub mod Residents
pub mod Runs
-- range, and the list of rates is shorter than an `i64` total can overflow on.
use tabia_shogi_server.Common.Int.{ℤ, pos, negsuc, pos_part, neg_part, ◌+ℤ◌, neg}
use tabia_shogi_server.Common.Signed.{abs_diff}
use tabia_shogi_server.Common.Times.{one_if, times}
use tabia_shogi_server.Common.{
  ℕ, zero, suc, ◌+◌, ◌-◌, ◌/◌, ◌%◌, Bool, true, false, not, ◌&&◌, ◌||◌, Option, none, some, List,
  [], ◌∷◌, ◌++◌, leb, ltb, ◌==◌, if◌then◌else◌, length, get_or, any, snoc,
}

abbrev pub max_playing : ℕ
max_playing = 2

pub data State : Type 0 where
  stopped connecting idle playing_external playing_preset : State

unfoldable pub is_playing : State → Bool
is_playing State.playing_external = true
is_playing State.playing_preset = true
is_playing _ = false

abbrev pub is_stopped : State → Bool
is_stopped State.stopped = true
is_stopped _ = false

pub data Kind : Type 0 where
  externally_run resident on_demand : Kind

abbrev pub is_on_demand : Kind → Bool
is_on_demand Kind.on_demand = true
is_on_demand _ = false

unfoldable pub pays_on_pairing : Kind → Bool
pays_on_pairing k = not (is_on_demand k)

pub record Standing : Type 0 where
  pub state : State
  pub kind : Kind
  pub estimate : ℤ

unfoldable pub occupies_a_slot : Standing → Bool
unfolding is_playing
occupies_a_slot p = if is_on_demand p.kind then not (is_stopped p.state) else is_playing p.state

unfoldable pub is_startable : Standing → Bool
is_startable p = is_on_demand p.kind && is_stopped p.state

unfoldable pub is_available : Standing → Bool
unfolding is_playing is_startable
is_available p = not (is_playing p.state) && (is_startable p || not (is_stopped p.state))

pub record Plan : Type 0 where
  pub start : List ℕ
  pub stop : List ℕ
  pub abort : Bool

-- The indices, from a first one on, of the presets that pass a test on both.
unfoldable pub indices_where : (ℕ → Standing → Bool) → ℕ → List Standing → List ℕ
indices_where test first [] = []
indices_where test first (p ∷ rest) =
    let later = indices_where test (first + 1) rest in if test first p then first ∷ later else later

-- `contains`
abbrev pub contains : List ℕ → ℕ → Bool
contains l i = ltb 0 (times i l)

-- A read of `presets` out of range, which the source never makes, gives `unregistered`.
abbrev pub unregistered : Standing
unregistered = record { state = State.stopped; kind = Kind.externally_run; estimate = pos 0 }

abbrev pub state_at : List Standing → ℕ → State
state_at presets index = (get_or presets index unregistered).state

-- `sort_by_key`, which is stable.
unfoldable pub insert_by_key : (ℕ → ℕ) → ℕ → List ℕ → List ℕ
insert_by_key key a [] = a ∷ []
insert_by_key key a (x ∷ xs) =
    let later = insert_by_key key a xs in if leb (key a) (key x) then a ∷ x ∷ xs else x ∷ later

unfoldable pub sort_by_key : (ℕ → ℕ) → List ℕ → List ℕ
unfolding insert_by_key
sort_by_key key [] = []
sort_by_key key (x ∷ xs) = insert_by_key key x (sort_by_key key xs)

-- `truncate(2)`, and nothing where fewer are left.
abbrev pub first_two : List ℕ → List ℕ
first_two [] = []
first_two (a ∷ []) = []
first_two (a ∷ b ∷ rest) = a ∷ b ∷ []

unfoldable pub calibration_pair : List Standing → List ℕ
unfolding indices_where is_available sort_by_key
calibration_pair presets = first_two (
    sort_by_key (λ index. one_if (is_stopped (state_at presets index)))
      (indices_where (λ _ p. is_available p) 0 presets))

-- `i64` division, toward zero.
abbrev quotient : ℤ → ℕ → ℤ
quotient (pos n) d = pos (n / d)
quotient (negsuc n) d = neg (pos ((n + 1) / d))

unfoldable pub sum_rates : List ℤ → ℤ
unfolding ◌+ℤ◌
sum_rates [] = pos 0
sum_rates (r ∷ rest) = r +ℤ sum_rates rest

-- `i32::try_from`
abbrev in_i32 : ℤ → Option ℤ
in_i32 r = if leb (pos_part r) 2147483647 && leb (neg_part r) 2147483648 then some r else none

unfoldable pub mean : List ℤ → Option ℤ
unfolding sum_rates neg
mean [] = none
mean (r ∷ rest) = in_i32 (quotient (sum_rates (r ∷ rest)) (length (r ∷ rest)))

-- `min_by_key`: the first of the indices with the least key.
unfoldable pub min_by_key : (ℕ → ℕ) → List ℕ → Option ℕ
min_by_key key [] = none
min_by_key key (x ∷ xs) = elim (min_by_key key xs) [
  | none ↦ some x
  | some y ↦ some (if leb (key x) (key y) then x else y)
]

unfoldable pub closest : List ℤ → List Standing → (Standing → Bool) → Option ℕ
unfolding mean indices_where min_by_key abs_diff
closest externals presets admits = elim (mean externals) [
  | none ↦ none
  | some target ↦
      min_by_key (λ index. abs_diff (get_or presets index unregistered).estimate target)
        (indices_where (λ _ p. admits p) 0 presets)
]

abbrev pub is_idle : Standing → Bool
is_idle p = elim p.state [ State.idle ↦ true | _ ↦ false ]

abbrev pub is_connecting : Standing → Bool
is_connecting p = elim p.state [ State.connecting ↦ true | _ ↦ false ]

abbrev pub is_calibrating : Standing → Bool
is_calibrating p = elim p.state [ State.playing_preset ↦ true | _ ↦ false ]

-- The first of a list.
abbrev pub head_of : List ℕ → Option ℕ
head_of [] = none
head_of (x ∷ _) = some x

-- `Option::or_else`
abbrev pub or_else : Option ℕ → Option ℕ → Option ℕ
or_else (some a) b = some a
or_else none b = b

unfoldable pub joins_the_leftover : List ℤ → List Standing → ℕ → Option ℕ
unfolding closest
joins_the_leftover externals presets free = or_else (closest externals presets is_idle) (
    or_else (head_of (indices_where (λ _ p. is_connecting p) 0 presets))
      (if free == 0 then none else closest externals presets is_startable))

abbrev pub pushed : Option ℕ → List ℕ
pushed none = []
pushed (some i) = i ∷ []

-- What `wanted` adds to the presets in a game.
unfoldable pub wanted_more : List ℤ → List Standing → ℕ → List ℕ
unfolding calibration_pair joins_the_leftover any
wanted_more externals presets free =
    if length externals == 0
    then (if not (any is_calibrating presets) && leb 2 free then calibration_pair presets else [])
    else if length externals % 2 == 0
    then []
    else pushed (joins_the_leftover externals presets free)

abbrev pub in_games : List Standing → List ℕ
in_games presets = indices_where (λ _ p. is_playing p.state) 0 presets

unfoldable pub wanted : List ℤ → List Standing → List ℕ
unfolding wanted_more indices_where is_playing
wanted externals presets =
    in_games presets ++ wanted_more externals presets (max_playing - length (in_games presets))

unfoldable pub held : List Standing → ℕ
unfolding occupies_a_slot
held [] = 0
held (p ∷ rest) = one_if (occupies_a_slot p) + held rest

unfoldable pub aborts : List ℤ → List Standing → Bool
unfolding held any
aborts externals presets =
    if length externals == 0 || length externals % 2 == 0
    then false
    else not (any (λ p. occupies_a_slot p && not (is_playing p.state)) presets)
      && leb max_playing (held presets)
      && any is_calibrating presets

abbrev pub starts : List ℕ → ℕ → Standing → Bool
starts w index p = contains w index && is_startable p

abbrev pub stops : List ℕ → ℕ → Standing → Bool
stops w index p =
    not (contains w index) && is_on_demand p.kind && occupies_a_slot p && not (is_playing p.state)

unfoldable pub plan : List ℤ → List Standing → Plan
unfolding wanted aborts
plan externals presets =
    let w = wanted externals presets in
    record {
      start = indices_where (starts w) 0 presets;
      stop = indices_where (stops w) 0 presets;
      abort = aborts externals presets;
    }
