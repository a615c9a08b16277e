-- ===== src/Session/Matchmaker/Choice.antt =====
-- src/session/matchmaker.rs: the preset engine that meets the leftover is among the closest-rated.
use tabia_shogi_server.Common.Int.{ℤ}
use tabia_shogi_server.Common.{
  ℕ, zero, suc, ◌+◌, ◌≤◌, ◌<◌, Bool, true, false, none, some, List, [], ◌∷◌, ◌==◌, if◌then◌else◌,
  length, get_or, ◌≡◌, refl, arith, ap, subst, inl, inr, Bool-cases, Option-cases,
}
use tabia_shogi_server.Session.Random.{Rng}
use tabia_shogi_server.Session.Pool.{Pool}
use tabia_shogi_server.Session.Matchmaker.{closest, gap_to, gaps, least, positions_of}

length-gaps :
    (pool : Pool) (unrated : ℤ) (alone : ℕ) (preset : List ℕ)
    → length (gaps pool unrated alone preset) ≡ length preset
unfolding gaps
length-gaps pool unrated alone [] = refl
length-gaps pool unrated alone (i ∷ rest) = ap suc (length-gaps pool unrated alone rest)

get_or-gaps :
    (pool : Pool) (unrated : ℤ) (alone : ℕ) (preset : List ℕ) (k : ℕ)
    → k < length preset
    → get_or (gaps pool unrated alone preset) k 0 ≡ gap_to pool unrated alone (get_or preset k 0)
unfolding gaps
get_or-gaps pool unrated alone [] k h = elim h [ ]
get_or-gaps pool unrated alone (i ∷ rest) zero h = refl
get_or-gaps pool unrated alone (i ∷ rest) (suc k) h =
    get_or-gaps pool unrated alone rest k (omega arith)

least-le : (gs : List ℕ) (m k : ℕ) → least gs ≡ some m → k < length gs → m ≤ get_or gs k 0
unfolding least
least-le [] m k e h = elim h [ ]
least-le (g ∷ gs) m zero e h = ground arith
least-le (g ∷ gs) m (suc k) e h = elim (Option-cases (least gs)) [
  | inl none_left ↦ absurd (least-some gs k none_left (omega arith))
  | inr (m', e') ↦ ground (arith, e', least-le gs m' k e')
]
  where
    least-some : (xs : List ℕ) (j : ℕ) → least xs ≡ none → j < length xs → ⊥
    least-some [] j n i = elim i [ ]
    least-some (x ∷ xs) j n i = ground arith

-- The positions of the least number: there is one, and each holds it.
positions_of-some :
    (first m : ℕ) (gs : List ℕ) → least gs ≡ some m → 0 < length (positions_of first m gs)
unfolding least positions_of
positions_of-some first m [] e = ground arith
positions_of-some first m (g ∷ gs) e = elim (Option-cases (least gs)) [
  | inl none_left ↦ ground (arith, none_left)
  | inr (m', e') ↦ elim (Bool-cases (g == m)) [
    | inl here ↦ rw here (omega arith)
    | inr there ↦
        let later : least gs ≡ some m = ground (arith, e', there) in
        rw there (positions_of-some (first + 1) m gs later)
  ]
]

-- A position found is one of the list, and the number sought stands there.
record IsFoundAt (first wanted : ℕ) (gs : List ℕ) (p : ℕ) : Type 0 where
  offset : ℕ
  from_first : p ≡ first + offset
  inside : offset < length gs
  holds : get_or gs offset 0 ≡ wanted

positions_of-IsFoundAt :
    (first wanted : ℕ) (gs : List ℕ) (k : ℕ)
    → k < length (positions_of first wanted gs)
    → IsFoundAt first wanted gs (get_or (positions_of first wanted gs) k 0)
unfolding positions_of
positions_of-IsFoundAt first wanted [] k h = elim h [ ]
positions_of-IsFoundAt first wanted (g ∷ gs) k h =
    go (g == wanted) refl k (positions_of-IsFoundAt (first + 1) wanted gs) h
  where
    later : (p : ℕ) → IsFoundAt (first + 1) wanted gs p → IsFoundAt first wanted (g ∷ gs) p
    later p q = record {
      offset = suc q.offset;
      from_first = omega (arith, q.from_first);
      inside = omega (arith, q.inside);
      holds = q.holds;
    }

    go :
        (b : Bool)
        → (g == wanted) ≡ b
        → (k : ℕ)
        → ((j : ℕ)
            → j < length (positions_of (first + 1) wanted gs)
            → IsFoundAt (first + 1) wanted gs (get_or (positions_of (first + 1) wanted gs) j 0))
        → k
          < length (
              if b
              then first ∷ positions_of (first + 1) wanted gs
              else positions_of (first + 1) wanted gs)
        → IsFoundAt first wanted (g ∷ gs) (
            get_or
              (if b
                then first ∷ positions_of (first + 1) wanted gs
                else positions_of (first + 1) wanted gs)
              k
              0)
    go true e zero rec i = record {
      offset = 0;
      from_first = omega arith;
      inside = omega arith;
      holds = ground (arith, e);
    }
    go true e (suc j) rec i = later _ (rec j (omega (arith, i)))
    go false e j rec i = later _ (rec j i)

-- The preset engine chosen: one of those waiting, no other nearer to the leftover's rate.
pub record IsClosest (pool : Pool) (unrated : ℤ) (alone : ℕ) (preset : List ℕ) (position : ℕ)
    : Type 0 where
  pub inside : position < length preset
  pub nearest :
      (k : ℕ)
      → k < length preset
      → gap_to pool unrated alone (get_or preset position 0)
        ≤ gap_to pool unrated alone (get_or preset k 0)

module _ (rng : Rng) where
  open rng use {State, below, below-lt}

  closest-found :
      (pool : Pool) (alone : ℕ) (preset : List ℕ) (unrated : ℤ) (s : State) (position m : ℕ)
      → least (gaps pool unrated alone preset) ≡ some m
      → (closest rng pool alone preset unrated s).0 ≡ some position
      → IsFoundAt 0 m (gaps pool unrated alone preset) position
  unfolding closest
  closest-found pool alone preset unrated s position m e h =
      let gs : List ℕ = gaps pool unrated alone preset in
      let tied : List ℕ = positions_of 0 m gs in
      let drawn : ℕ = (below (length tied) s).0 in
      let low : drawn < length tied = below-lt (length tied) s (positions_of-some 0 m gs e) in
      let same : get_or tied drawn 0 ≡ position = ground (arith, e) in
      subst (λ p. IsFoundAt 0 m gs p) same (positions_of-IsFoundAt 0 m gs drawn low)

  closest-none :
      (pool : Pool) (alone : ℕ) (preset : List ℕ) (unrated : ℤ) (s : State)
      → (closest rng pool alone preset unrated s).0 ≡ none
      → preset ≡ []
  unfolding closest gaps least
  closest-none pool alone [] unrated s h = refl
  closest-none pool alone (i ∷ rest) unrated s h =
      ground (arith, Option-cases (least (gaps pool unrated alone rest)))

  -- The choice for the leftover engine is a preset engine that waits and than which none is nearer
  -- to it by the estimated rates, and there is one whenever any waits.
  pub closest-IsClosest :
      (pool : Pool) (alone : ℕ) (preset : List ℕ) (unrated : ℤ) (s : State)
      → ((position : ℕ)
          → (closest rng pool alone preset unrated s).0 ≡ some position
          → IsClosest pool unrated alone preset position)
        × ((closest rng pool alone preset unrated s).0 ≡ none → preset ≡ [])
  closest-IsClosest pool alone preset unrated s = (chosen, closest-none pool alone preset unrated s)
    where
      near :
          (position m : ℕ)
          → least (gaps pool unrated alone preset) ≡ some m
          → IsFoundAt 0 m (gaps pool unrated alone preset) position
          → IsClosest pool unrated alone preset position
      near position m e f = record {
        inside = omega (arith, f.from_first, f.inside, length-gaps pool unrated alone preset);
        nearest = λ k h.
            let here : f.offset ≡ position = omega (arith, f.from_first) in
            let holds_m : get_or (gaps pool unrated alone preset) position 0 ≡ m =
              subst (λ p. get_or (gaps pool unrated alone preset) p 0 ≡ m) here f.holds in
            omega (
              arith,
              holds_m,
              get_or-gaps pool unrated alone preset position
                  (omega (arith, f.from_first, f.inside, length-gaps pool unrated alone preset)),
              get_or-gaps pool unrated alone preset k h,
              least-le (gaps pool unrated alone preset) m k e
                  (omega (arith, h, length-gaps pool unrated alone preset)),
            );
      }

      chosen :
          (position : ℕ)
          → (closest rng pool alone preset unrated s).0 ≡ some position
          → IsClosest pool unrated alone preset position
      chosen position h = elim (Option-cases (least (gaps pool unrated alone preset))) [
        | inl e ↦ absurd (unfold closest in ground (arith, e, h))
        | inr (m, e) ↦ near position m e (closest-found pool alone preset unrated s position m e h)
      ]
