-- ===== src/Config/PresetEngines/Loading.antt =====
-- src/config/model.rs: which lists of preset engines load, and whom a token designates then.
use tabia_shogi_server.Common.Text.{Text, same_text, same_text_intro, same_text_elim}
use tabia_shogi_server.Common.{
  ℕ, zero, suc, ◌+◌, ◌<◌, none, some, [], ◌∷◌, ok, Result-cases, ◌≡◌, ◌≢◌, ◌↔◌, refl, sym, ap, ◌∙◌,
  arith, inl, inr, Bool-cases, Option-cases,
}
use tabia_shogi_server.Config.PresetEngines.{
  PresetEngine, PresetEngines, get, designates_from, designates, fault_of, before, check_from,
  deserialize,
}
use tabia_shogi_server.Config.PresetEngines.Entries.{IsEntry, fault_of-IsEntry}

-- The entries of the rest of a list, from a position on.
AreEntries : PresetEngines → ℕ → PresetEngines → Type 0
AreEntries written position l =
    (i k : ℕ) (p : PresetEngine)
    → i ≡ position + k
    → get l k ≡ some p
    → IsEntry (before i written) p

check_from-fault :
    (written : PresetEngines) (position : ℕ) (p : PresetEngine) (rest : PresetEngines)
    → (check_from written position (p ∷ rest) ≡ ok tt) ↔ (
        (fault_of (before position written) p ≡ none)
        × (check_from written (position + 1) rest ≡ ok tt))
unfolding check_from
check_from-fault written position p rest =
    elim (Option-cases (fault_of (before position written) p)) [
      | inl fine ↦ (λ h. (fine, rw (check_from, fine) at h), λ h. rw (check_from, fine) (h.1))
      | inr (f, e) ↦ (λ h. ground (arith, rw (check_from, e) at h), λ h. ground (arith, h.0, e))
    ]

check_from_iff :
    (written : PresetEngines) (position : ℕ) (l : PresetEngines)
    → (check_from written position l ≡ ok tt) ↔ AreEntries written position l
unfolding AreEntries get
check_from_iff written position [] =
    (λ h i k p e f. ground (arith, f), λ h. unfold check_from in refl)
check_from_iff written position (q ∷ rest) =
    let later = check_from_iff written (position + 1) rest in
    let here = fault_of-IsEntry (before position written) q in
    let one = check_from-fault written position q rest in
    (
      λ h i k p e f. step i k p e f (here.0 (one.0 h).0) (later.0 (one.0 h).1),
      λ h. one.1 (
        here.1 (h position 0 q (omega arith) refl),
        later.1 (λ i k p e f. h i (suc k) p (omega (arith, e)) f),
      ),
    )
  where
    step :
        (i k : ℕ) (p : PresetEngine)
        → i ≡ position + k
        → get (q ∷ rest) k ≡ some p
        → IsEntry (before position written) q
        → AreEntries written (position + 1) rest
        → IsEntry (before i written) p
    step i zero p e f first others =
        let same : q ≡ p = ground (arith, f) in
        let there : i ≡ position = omega (arith, e) in rw (there, sym same) first
    step i (suc k) p e f first others = others i k p (omega (arith, e)) f

passed :
    (written l : PresetEngines) → deserialize written ≡ ok l → check_from written 0 written ≡ ok tt
unfolding deserialize
passed written l h = elim (Result-cases (check_from written 0 written)) [
  | inl (done, e) ↦ e
  | inr (reason, e) ↦ ground (arith, rw (deserialize, e) at h)
]

pub deserialize-same : (written l : PresetEngines) → deserialize written ≡ ok l → l ≡ written
unfolding deserialize
deserialize-same written l h = elim (Result-cases (check_from written 0 written)) [
  | inl (done, e) ↦ ground (arith, rw (deserialize, e) at h)
  | inr (reason, e) ↦ ground (arith, rw (deserialize, e) at h)
]

-- A list of entries loads, as itself, exactly if each of them, at any index, has a token that a client
-- can write on one line, no empty word in its command, the keys that its protocol wants and allows,
-- and a token that no entry before it has.
pub deserialize_iff :
    (written : PresetEngines)
    → (deserialize written ≡ ok written)
      ↔ ((k : ℕ) (p : PresetEngine) → get written k ≡ some p → IsEntry (before k written) p)
unfolding deserialize AreEntries
deserialize_iff written =
    let all_entries = check_from_iff written 0 written in
    (
      λ h k p f. all_entries.0 (passed written written h) k k p (omega arith) f,
      λ h.
          let fine : check_from written 0 written ≡ ok tt =
            all_entries.1 (λ i k p e f. let same : i ≡ k = omega (arith, e) in rw same (h k p f)) in
          rw (deserialize, fine) refl,
    )

get-before : (k i : ℕ) (l : PresetEngines) → i < k → get (before k l) i ≡ get l i
unfolding get
get-before zero i l h = absurd (omega (arith, h))
get-before (suc k) i [] h = refl
get-before (suc k) zero (p ∷ rest) h = refl
get-before (suc k) (suc i) (p ∷ rest) h = get-before k i rest (omega (arith, h))

-- The first entry with a token is the one designated.
designates_from_first :
    (index : ℕ) (l : PresetEngines) (k : ℕ) (p : PresetEngine)
    → get l k ≡ some p
    → ((i : ℕ) (other : PresetEngine) → i < k → get l i ≡ some other → other.token ≢ p.token)
    → designates_from index l p.token ≡ some (index + k)
unfolding designates_from get
designates_from_first index [] k p e h = ground (arith, e)
designates_from_first index (q ∷ rest) zero p e h =
    let same : q ≡ p = ground (arith, e) in
    ground (arith, same_text_intro q.token p.token (ap (λ r. r.token) same))
designates_from_first index (q ∷ rest) (suc k) p e h =
    elim (Bool-cases (same_text q.token p.token)) [
      | inl same ↦ absurd (h 0 q (omega arith) refl (same_text_elim q.token p.token same))
      | inr other ↦ ground (
        arith,
        other,
        designates_from_first (index + 1) rest k p e
            (λ i o inside f. h (suc i) o (omega (arith, inside)) f),
      )
    ]

designates_from-some :
    (index : ℕ) (l : PresetEngines) (t : Text) (n : ℕ)
    → designates_from index l t ≡ some n
    → (k : ℕ) × (p : PresetEngine) × (n ≡ index + k) × (get l k ≡ some p) × (p.token ≡ t)
unfolding designates_from get
designates_from-some index [] t n h = ground (arith, h)
designates_from-some index (q ∷ rest) t n h = elim (Bool-cases (same_text q.token t)) [
  | inl same ↦ (0, q, ground (arith, h, same), refl, same_text_elim q.token t same)
  | inr other ↦
      let (k, p, e, f, g) = designates_from-some (index + 1) rest t n (ground (arith, h, other)) in
      (suc k, p, omega (arith, e), f, g)
]

-- In a list that has loaded, a token designates an index exactly if the entry there has that token.
pub designates_iff :
    (written presets : PresetEngines) (presented : Text) (index : ℕ)
    → deserialize written ≡ ok presets
    → (designates presets presented ≡ some index)
      ↔ ((p : PresetEngine) × (get presets index ≡ some p) × (p.token ≡ presented))
unfolding designates AreEntries IsEntry
designates_iff written presets presented index h =
    let same : presets ≡ written = deserialize-same written presets h in
    let entries = (check_from_iff written 0 written).0 (passed written presets h) in
    rw same (
      λ d.
          let (k, p, e, f, g) = designates_from-some 0 written presented index d in
          let at_k : index ≡ k = omega (arith, e) in rw at_k (p, f, g),
      λ (p, f, g).
          let zero_plus : 0 + index ≡ index = omega arith in
          rw (sym g) (
            rw zero_plus at (
              designates_from_first 0 written index p f (λ i other inside e.
                (entries index index p (omega arith) f).3 i other
                  (get-before index i written inside ∙ e)))),
    )
