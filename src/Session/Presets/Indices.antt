-- ===== src/Session/Presets/Indices.antt =====
-- src/session/presets.rs: the indices that a round's choices are among.
use tabia_shogi_server.Common.Int.{ℤ}
use tabia_shogi_server.Common.Signed.{abs_diff}
use tabia_shogi_server.Common.Times.{one_if, times}
use tabia_shogi_server.Common.{
  ℕ, zero, suc, ◌+◌, ◌≤◌, ◌<◌, Bool, true, some, List, [], ◌∷◌, leb, ltb, if◌then◌else◌, length,
  get_or, ◌≡◌, refl, arith, inl, inr, Option-cases,
}
use tabia_shogi_server.Session.Presets.{
  Standing, indices_where, contains, unregistered, mean, min_by_key, closest, head_of,
}

times-indices_below :
    (test : ℕ → Standing → Bool) (first a : ℕ) (ps : List Standing)
    → a < first
    → times a (indices_where test first ps) ≡ 0
unfolding indices_where times
times-indices_below test first a [] h = refl
times-indices_below test first a (p ∷ ps) h =
    ground (arith, times-indices_below test (first + 1) a ps (omega (arith, h)))

-- An index is chosen once if its preset passes the test, and else not at all.
pub times-indices_where :
    (test : ℕ → Standing → Bool) (first k : ℕ) (ps : List Standing)
    → times (first + k) (indices_where test first ps)
      ≡ (if ltb k (length ps) then one_if (test (first + k) (get_or ps k unregistered)) else 0)
unfolding indices_where times
times-indices_where test first k [] = ground arith
times-indices_where test first zero (p ∷ ps) =
    ground (arith, times-indices_below test (first + 1) first ps (omega arith))
times-indices_where test first (suc k) (p ∷ ps) =
    ground (arith, times-indices_where test (first + 1) k ps)

pub contains-indices_where :
    (test : ℕ → Standing → Bool) (k : ℕ) (ps : List Standing)
    → k < length ps
    → contains (indices_where test 0 ps) k ≡ test k (get_or ps k unregistered)
contains-indices_where test k ps h = ground (arith, times-indices_where test 0 k ps)

pub chosen_passes :
    (test : ℕ → Standing → Bool) (k : ℕ) (ps : List Standing)
    → 0 < times k (indices_where test 0 ps)
    → (k < length ps) × (test k (get_or ps k unregistered) ≡ true)
chosen_passes test k ps h = ground (arith, times-indices_where test 0 k ps)

-- How many presets pass a test.
unfoldable pub count_where : (Standing → Bool) → List Standing → ℕ
count_where test [] = 0
count_where test (p ∷ ps) = one_if (test p) + count_where test ps

pub length-indices_where :
    (test : Standing → Bool) (first : ℕ) (ps : List Standing)
    → length (indices_where (λ _ p. test p) first ps) ≡ count_where test ps
unfolding indices_where count_where
length-indices_where test first [] = refl
length-indices_where test first (p ∷ ps) = ground (arith, length-indices_where test (first + 1) ps)

pub min_by_key-mem :
    (key : ℕ → ℕ) (xs : List ℕ) (j : ℕ) → min_by_key key xs ≡ some j → 0 < times j xs
unfolding min_by_key times
min_by_key-mem key [] j h = ground arith
min_by_key-mem key (x ∷ xs) j h = elim (Option-cases (min_by_key key xs)) [
  | inl empty ↦ ground (arith, rw empty at h)
  | inr (y, found) ↦ ground (arith, rw found at h, min_by_key-mem key xs y found)
]

pub head_of-mem : (xs : List ℕ) (j : ℕ) → head_of xs ≡ some j → 0 < times j xs
unfolding times
head_of-mem [] j h = ground arith
head_of-mem (x ∷ xs) j h = ground arith

pub closest-admits :
    (externals : List ℤ) (ps : List Standing) (admits : Standing → Bool) (j : ℕ)
    → closest externals ps admits ≡ some j
    → (j < length ps) × (admits (get_or ps j unregistered) ≡ true)
unfolding closest
closest-admits externals ps admits j h = elim (Option-cases (mean externals)) [
  | inl unknown ↦ ground (arith, rw (closest, unknown) at h)
  | inr (target, e) ↦
      let key : ℕ → ℕ = λ i. abs_diff (get_or ps i unregistered).estimate target in
      chosen_passes (λ _ p. admits p) j ps
        (min_by_key-mem key (indices_where (λ _ p. admits p) 0 ps) j (rw (closest, e) at h))
]

-- How many of the indices, from a first one on, a list has.
unfoldable pub covered : List ℕ → ℕ → List Standing → ℕ
covered l first [] = 0
covered l first (p ∷ ps) = one_if (contains l first) + covered l (first + 1) ps

covered-empty : (first : ℕ) (ps : List Standing) → covered [] first ps ≡ 0
unfolding covered times
covered-empty first [] = refl
covered-empty first (p ∷ ps) = ground (arith, covered-empty (first + 1) ps)

-- Beyond a list's first number, there is one index fewer.
covered-cons :
    (x : ℕ) (xs : List ℕ) (first : ℕ) (ps : List Standing)
    → covered (x ∷ xs) first ps ≤ (if leb first x then 1 else 0) + covered xs first ps
unfolding covered times
covered-cons x xs first [] = ground arith
covered-cons x xs first (p ∷ ps) = ground (arith, covered-cons x xs (first + 1) ps)

pub covered-length : (l : List ℕ) (first : ℕ) (ps : List Standing) → covered l first ps ≤ length l
covered-length [] first ps = omega (arith, covered-empty first ps)
covered-length (x ∷ xs) first ps =
    ground (arith, covered-cons x xs first ps, covered-length xs first ps)
