-- ===== src/Config/PresetEngines/Entries.antt =====
-- src/config/model.rs: which entries of a list of preset engines pass.
use mathlib.Core.List.{Memᴰ}
use tabia_shogi_server.Common.Text.{Text, same_text, same_text_intro, same_text_elim}
use tabia_shogi_server.Common.{
  ℕ, zero, suc, ◌+◌, ◌≤◌, Bool, true, false, Option, none, some, List, [], ◌∷◌, ◌==◌, if◌then◌else◌,
  length, any, all, any_intro, all_elim, ◌≡◌, ◌≢◌, ◌↔◌, refl, ap, ◌∙◌, arith, inl, inr, Bool-cases,
}
use tabia_shogi_server.Config.PresetEngines.{
  max_preset_engine_token_len, Protocol, PresetEngine, PresetEngines, get, designates_from,
  designates, TokenFault, Key, is_nil, is_printable, unusable, first_key, misplaced, Fault,
  repeated, placed, used, fault_of,
}

-- A token that a client can present on one line.
unfoldable pub IsUsable : Text → Type 0
IsUsable token =
    (token ≢ [])
    × ((c : ℕ) → Memᴰ c token → (33 ≤ c) × (c ≤ 126) × (c ≢ 39))
    × (length token ≤ max_preset_engine_token_len)

-- The keys that go with the entry's protocol.
unfoldable pub IsPlaced : PresetEngine → Type 0
IsPlaced p = elim p.protocol [
  | Protocol.csa ↦ (p.command ≡ []) × (p.lifecycle ≡ none) × (p.usi_options ≡ []) × (p.name ≡ none)
  | Protocol.usi ↦ (p.command ≢ []) × (p.lifecycle ≢ none)
]

-- One entry, and the entries before it.
unfoldable pub IsEntry : PresetEngines → PresetEngine → Type 0
IsEntry earlier p =
    IsUsable p.token
    × ((word : Text) → Memᴰ word p.command → word ≢ [])
    × IsPlaced p
    × ((i : ℕ) (other : PresetEngine) → get earlier i ≡ some other → other.token ≢ p.token)

any_none_elim :
    {A : Type 0} (f : A → Bool) {x : A} {xs : List A} → Memᴰ x xs → any f xs ≡ false → f x ≡ false
any_none_elim f {x} {xs} m h = elim (Bool-cases (f x)) [
  | inl holds ↦ ground (arith, any_intro f m holds, h)
  | inr fails ↦ fails
]

nonempty : {A : Type 0} (xs : List A) → xs ≢ [] → is_nil xs ≡ false
nonempty [] h = absurd (h refl)
nonempty (x ∷ xs) h = refl

all_intro :
    {A : Type 0} (f : A → Bool) (xs : List A) → ((a : A) → Memᴰ a xs → f a ≡ true) → all f xs ≡ true
unfolding all
all_intro f [] h = refl
all_intro f (x ∷ xs) h =
    ground (arith, h x (Memᴰ.head refl), all_intro f xs (λ a m. h a (Memᴰ.tail m)))

any_none :
    {A : Type 0} (f : A → Bool) (xs : List A)
    → ((a : A) → Memᴰ a xs → f a ≡ false)
    → any f xs ≡ false
unfolding any
any_none f [] h = refl
any_none f (x ∷ xs) h =
    ground (arith, h x (Memᴰ.head refl), any_none f xs (λ a m. h a (Memᴰ.tail m)))

Passes : Text → Type 0
Passes token =
    (is_nil token ≡ false)
    × (all is_printable token ≡ true)
    × (any (λ c. c == 39) token ≡ false)
    × (length token ≤ max_preset_engine_token_len)

unusable-Passes : (token : Text) → (unusable token ≡ none) ↔ Passes token
unfolding unusable Passes
unusable-Passes token = (λ h. ground (arith, h), λ h. ground (arith, h))

char_fits : (c : ℕ) → is_printable c ≡ true → (c == 39) ≡ false → (33 ≤ c) × (c ≤ 126) × (c ≢ 39)
char_fits c h k = ground (arith, h, k)

unusable_iff : (token : Text) → (unusable token ≡ none) ↔ IsUsable token
unfolding IsUsable Passes
unusable_iff token = (
  λ h.
      let (filled, printable, plain, short) = (unusable-Passes token).0 h in
      (
        λ e. ground (arith, ap is_nil e, filled),
        λ c m.
            char_fits c (all_elim is_printable m printable) (any_none_elim (λ c. c == 39) m plain),
        short,
      ),
  λ (filled, fits, short). (unusable-Passes token).1 (
    nonempty token filled,
    all_intro is_printable token (λ c m. ground (arith, fits c m)),
    any_none (λ c. c == 39) token (λ c m. ground (arith, fits c m)),
    short,
  ),
)

misplaced_iff : (p : PresetEngine) → (misplaced p ≡ none) ↔ IsPlaced p
unfolding misplaced IsPlaced first_key
misplaced_iff p = ground arith

designates-none_elim :
    (index : ℕ) (l : PresetEngines) (t : Text)
    → designates_from index l t ≡ none
    → (i : ℕ) (other : PresetEngine) → get l i ≡ some other
    → other.token ≢ t
unfolding designates_from get
designates-none_elim index [] t h i other e same = ground arith
designates-none_elim index (p ∷ rest) t h zero other e same =
    let here : p ≡ other = ground (arith, e) in
    ground (arith, h, same_text_intro p.token t (ap (λ q. q.token) here ∙ same))
designates-none_elim index (p ∷ rest) t h (suc i) other e same =
    designates-none_elim (index + 1) rest t (ground (arith, h)) i other e same

designates-none_intro :
    (index : ℕ) (l : PresetEngines) (t : Text)
    → ((i : ℕ) (other : PresetEngine) → get l i ≡ some other → other.token ≢ t)
    → designates_from index l t ≡ none
unfolding designates_from get
designates-none_intro index [] t h = refl
designates-none_intro index (p ∷ rest) t h = elim (Bool-cases (same_text p.token t)) [
  | inl same ↦ absurd (h 0 p refl (same_text_elim p.token t same))
  | inr other ↦ rw other (designates-none_intro (index + 1) rest t (λ i q e. h (suc i) q e))
]

chain :
    (u : Option TokenFault) (b : Bool) (m : Option Key) (d : Option ℕ)
    → (used u (if b then some Fault.empty_word else placed m (repeated d)) ≡ none)
      ↔ ((u ≡ none) × (b ≡ false) × (m ≡ none) × (d ≡ none))
chain none false none none = ground arith
chain none false none (some i) = ground arith
chain none false (some k) d = ground arith
chain none true m d = ground arith
chain (some f) b m d = ground arith

-- An entry passes exactly if it is well formed and no earlier one has its token.
pub fault_of-IsEntry :
    (earlier : PresetEngines) (p : PresetEngine) → (fault_of earlier p ≡ none) ↔ IsEntry earlier p
unfolding fault_of IsEntry designates
fault_of-IsEntry earlier p =
    let (out, back) =
      chain (unusable p.token) (any is_nil p.command) (misplaced p)
        (designates_from 0 earlier p.token) in
    (
      λ h.
          let (usable, words, keys, fresh) = out h in
          (
            (unusable_iff p.token).0 usable,
            λ word m e. ground (arith, any_none_elim is_nil m words, ap is_nil e),
            (misplaced_iff p).0 keys,
            designates-none_elim 0 earlier p.token fresh,
          ),
      λ (usable, words, keys, fresh). back (
        (unusable_iff p.token).1 usable,
        any_none is_nil p.command (λ word m. nonempty word (words word m)),
        (misplaced_iff p).1 keys,
        designates-none_intro 0 earlier p.token fresh,
      ),
    )
