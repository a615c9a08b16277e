-- ===== src/Config/PresetEngines.antt =====
-- src/config/model.rs: the registered preset engines, and what a list of them is refused for. A list
-- comes decoded by the file format's library; a text is its characters.
pub mod Entries
pub mod Loading
pub mod Example
use tabia_shogi_server.Common.Int.{ℤ}
use tabia_shogi_server.Common.Text.{Text, same_text}
use tabia_shogi_server.Common.{
  ℕ, zero, suc, ◌+◌, ◌-◌, Bool, true, false, not, ◌&&◌, Option, none, some, List, [], ◌∷◌, leb, ltb,
  ◌==◌, if◌then◌else◌, length, any, all, Result, ok, err,
}

abbrev pub max_preset_engine_token_len : ℕ
max_preset_engine_token_len = 64

pub data Protocol : Type 0 where
  csa usi : Protocol

pub data Lifecycle : Type 0 where
  resident on_demand : Lifecycle

pub data UsiOptionValue : Type 0 where
  boolean : Bool → UsiOptionValue
  integer : ℤ → UsiOptionValue
  text : Text → UsiOptionValue

pub record PresetEngine : Type 0 where
  pub token : Text
  pub protocol : Protocol
  pub command : List Text
  pub lifecycle : Option Lifecycle
  pub usi_options : List (Text × UsiOptionValue)
  pub name : Option Text
  pub rating : Option ℤ

abbrev pub PresetEngines : Type 0
PresetEngines = List PresetEngine

unfoldable pub is_externally_run : PresetEngine → Bool
is_externally_run preset = elim preset.protocol [ Protocol.csa ↦ true | Protocol.usi ↦ false ]

-- `get`
unfoldable pub get : PresetEngines → ℕ → Option PresetEngine
get [] index = none
get (preset ∷ rest) zero = some preset
get (preset ∷ rest) (suc index) = get rest index

unfoldable pub designated_rating : PresetEngines → ℕ → Option ℤ
unfolding get
designated_rating presets index = elim (get presets index) [
  | none ↦ none
  | some preset ↦ preset.rating
]

unfoldable pub lifecycle_at : PresetEngines → ℕ → Option Lifecycle
unfolding get
lifecycle_at presets index = elim (get presets index) [
  | none ↦ none
  | some preset ↦ preset.lifecycle
]

-- `position` of the token presented, from an index on.
unfoldable pub designates_from : ℕ → PresetEngines → Text → Option ℕ
designates_from index [] presented = none
designates_from index (preset ∷ rest) presented =
    let later = designates_from (index + 1) rest presented in
    if same_text preset.token presented then some index else later

unfoldable pub designates : PresetEngines → Text → Option ℕ
unfolding designates_from
designates presets presented = designates_from 0 presets presented

-- The reasons of `unusable`, in its order.
pub data TokenFault : Type 0 where
  empty_token not_printable apostrophe too_long : TokenFault

abbrev pub is_nil {ℓ} : {A : Type ℓ} → List A → Bool
is_nil [] = true
is_nil (x ∷ xs) = false

abbrev pub is_none {ℓ} : {A : Type ℓ} → Option A → Bool
is_none none = true
is_none (some a) = false

-- '!'..='~'
abbrev pub is_printable : ℕ → Bool
is_printable c = leb 33 c && leb c 126

-- `token.len()` counts bytes, which are the characters once all are ASCII.
unfoldable pub unusable : Text → Option TokenFault
unfolding all any
unusable token =
    if is_nil token
    then some TokenFault.empty_token
    else if not (all is_printable token)
    then some TokenFault.not_printable
    else if any (λ c. c == 39) token
    then some TokenFault.apostrophe
    else if ltb max_preset_engine_token_len (length token)
    then some TokenFault.too_long
    else none

-- The keys that `misplaced` names.
pub data Key : Type 0 where
  command_key lifecycle_key usi_options_key name_key : Key

-- `find_map`: the first key whose condition holds.
unfoldable pub first_key : List (Bool × Key) → Option Key
first_key [] = none
first_key ((faulty, key) ∷ rest) = let later = first_key rest in if faulty then some key else later

unfoldable pub misplaced : PresetEngine → Option Key
unfolding first_key
misplaced preset = elim preset.protocol [
  | Protocol.csa ↦ first_key (
      (not (is_nil preset.command), Key.command_key)
      ∷ (not (is_none preset.lifecycle), Key.lifecycle_key)
      ∷ (not (is_nil preset.usi_options), Key.usi_options_key)
      ∷ (not (is_none preset.name), Key.name_key)
      ∷ [])
  | Protocol.usi ↦ first_key (
      (is_nil preset.command, Key.command_key) ∷ (is_none preset.lifecycle, Key.lifecycle_key) ∷ [])
]

-- What an entry is refused for; the repeated token names the earlier entry by its number from 1.
pub data Fault : Type 0 where
  token_unusable : TokenFault → Fault
  empty_word : Fault
  key_misplaced : Key → Fault
  repeats : ℕ → Fault

abbrev repeated : Option ℕ → Option Fault
repeated none = none
repeated (some earlier) = some (Fault.repeats (earlier + 1))

abbrev placed : Option Key → Option Fault → Option Fault
placed none later = later
placed (some key) later = some (Fault.key_misplaced key)

abbrev used : Option TokenFault → Option Fault → Option Fault
used none later = later
used (some fault) later = some (Fault.token_unusable fault)

-- The checks of one entry, after the ones before it.
unfoldable pub fault_of : PresetEngines → PresetEngine → Option Fault
unfolding unusable misplaced designates any
fault_of earlier preset = used (unusable preset.token) (
    if any is_nil preset.command
    then some Fault.empty_word
    else placed (misplaced preset) (repeated (designates earlier preset.token)))

-- `written[..position]`
abbrev pub before : ℕ → PresetEngines → PresetEngines
before zero l = []
before (suc k) [] = []
before (suc k) (p ∷ rest) = p ∷ before k rest

-- The loop over the entries written, of which a rest is left; a refusal counts from 1.
unfoldable pub check_from : PresetEngines → ℕ → PresetEngines → Result (ℕ × Fault) (Unit {0})
unfolding fault_of
check_from written position [] = ok tt
check_from written position (preset ∷ rest) =
    let later = check_from written (position + 1) rest in
    elim (fault_of (before position written) preset) [
      | some fault ↦ err (position + 1, fault)
      | none ↦ later
    ]

unfoldable pub deserialize : PresetEngines → Result (ℕ × Fault) PresetEngines
unfolding check_from
deserialize written = elim (check_from written 0 written) [
  | ok _ ↦ ok written
  | err reason ↦ err reason
]
