-- ===== src/Game/Legality/Reaching.antt =====
-- An independent description of how pieces move, and that `reach` decides it.
use mathlib.Core.List.{Memᴰ}
use tabia_shogi_server.Common.Int.{ℤ, pos, negsuc, pos_part, neg_part, ◌+ℤ◌, neg}
use tabia_shogi_server.Common.{
  ℕ, zero, suc, ◌+◌, ◌-◌, ◌≤◌, ◌<◌, Bool, true, false, Option, none, some, List, [], ◌∷◌, ◌≡◌, ◌↔◌,
  inl, inr, refl, ap, subst, sym, ◌∙◌, ◌||◌, arith, ltb, if◌then◌else◌, any, all, all_elim,
  any_intro, any_elim, Bool-cases, Option-cases,
}
use tabia_shogi_server.Game.Position.Pieces.{
  Color, Square, OnBoard, square_eq, square_eq_iff, PieceKind, Piece,
}
use tabia_shogi_server.Game.Position.Board.{Position, piece_at}
use tabia_shogi_server.Game.Legality.Movement.{
  Delta, oriented, is_some, steps, slides, step, Reach, ray_loop, ray_fuel, ray, reach_slides,
  lands_on, reach,
}
use tabia_shogi_server.Game.Legality.Geometry.{Shift, step_sound, step_complete}

-- A line of one direction from a square to another, with nothing standing between the two.
pub data Clear (p : Position) (d : Delta) : Square → Square → Type 0 where
  arrive : {s t : Square} → Shift d s t → Clear p d s t
  advance : {s m t : Square} → Shift d s m → piece_at p m ≡ none → Clear p d m t → Clear p d s t

-- A piece reaches a square by one step of its pattern, or along a clear line of its slides.
pub data CanReach (p : Position) (from : Square) (piece : Piece) (to : Square) : Type 0 where
  by_step :
      (δ : Delta)
      → Memᴰ δ (steps piece.kind)
      → Shift (oriented δ piece.color) from to
      → CanReach p from piece to
  by_slide :
      (δ : Delta)
      → Memᴰ δ (slides piece.kind)
      → Clear p (oriented δ piece.color) from to
      → CanReach p from piece to

-- How many squares are left in a direction, at most.
abbrev towards : ℤ → ℕ → ℕ
towards (pos zero) x = 0
towards (pos (suc n)) x = 9 - x
towards (negsuc n) x = x - 1

abbrev remaining : Delta → Square → ℕ
remaining d s = towards d.0 s.file + towards d.1 s.rank

abbrev is_direction : Delta → Bool
is_direction d = ltb 0 (pos_part d.0 + neg_part d.0 + (pos_part d.1 + neg_part d.1))

closer :
    (a : ℤ) (x y : ℕ)
    → 1 ≤ x
    → x ≤ 9
    → 1 ≤ y
    → y ≤ 9
    → pos y ≡ pos x +ℤ a
    → towards a y ≤ towards a x
unfolding ◌+ℤ◌
closer (pos zero) x y x₁ x₉ y₁ y₉ e = omega arith
closer (pos (suc n)) x y x₁ x₉ y₁ y₉ e = ground arith
closer (negsuc n) x y x₁ x₉ y₁ y₉ e = ground arith

strictly_closer :
    (a : ℤ) (x y : ℕ)
    → 1 ≤ x
    → x ≤ 9
    → 1 ≤ y
    → y ≤ 9
    → pos y ≡ pos x +ℤ a
    → 0 < pos_part a + neg_part a
    → towards a y < towards a x
unfolding ◌+ℤ◌
strictly_closer (pos zero) x y x₁ x₉ y₁ y₉ e h = absurd (omega arith)
strictly_closer (pos (suc n)) x y x₁ x₉ y₁ y₉ e h = ground arith
strictly_closer (negsuc n) x y x₁ x₉ y₁ y₉ e h = ground arith

remaining-lt :
    (d : Delta) (s t : Square)
    → OnBoard s
    → Shift d s t
    → is_direction d ≡ true
    → remaining d t < remaining d s
remaining-lt (a, b) s t on (there, ef, er) h = ground (
  arith,
  closer a s.file t.file,
  closer b s.rank t.rank,
  strictly_closer a s.file t.file,
  strictly_closer b s.rank t.rank,
)

towards-le : (a : ℤ) (x : ℕ) → 1 ≤ x → x ≤ 9 → towards a x ≤ 8
towards-le (pos zero) x h k = omega arith
towards-le (pos (suc n)) x h k = omega arith
towards-le (negsuc n) x h k = omega arith

remaining-le : (d : Delta) (s : Square) → OnBoard s → remaining d s ≤ 16
remaining-le (a, b) s on = omega (arith, towards-le a s.file, towards-le b s.rank)

slides_directions :
    (k : PieceKind) (c : Color) → all (λ δ. is_direction (oriented δ c)) (slides k) ≡ true
unfolding all slides neg
slides_directions PieceKind.king Color.black = refl
slides_directions _ Color.black = refl
slides_directions PieceKind.king Color.white = refl
slides_directions _ Color.white = refl

is_direction-slides :
    (k : PieceKind) (c : Color) (δ : Delta) → Memᴰ δ (slides k) → is_direction (oriented δ c) ≡ true
is_direction-slides k c δ m = all_elim (λ δ. is_direction (oriented δ c)) m (slides_directions k c)

-- One round of the loop, by what the step gives.
ray_loop-off :
    (n : ℕ) (p : Position) (s : Square) (δ : Delta) (c : Color) (t : Square) (b : Bool)
    → step s δ c ≡ none
    → ray_loop (suc n) p s δ c t b ≡ Reach.unreachable
unfolding ray_loop
ray_loop-off n p s δ c t b e = rw (e, ray_loop)

ray_loop-at :
    (n : ℕ) (p : Position) (s : Square) (δ : Delta) (c : Color) (t : Square) (b : Bool) (m : Square)
    → step s δ c ≡ some m
    → square_eq m t ≡ true
    → ray_loop (suc n) p s δ c t b ≡ (if b then Reach.blocked else Reach.reaches)
unfolding ray_loop
ray_loop-at n p s δ c t b m e here = rw (e, here, ray_loop)

ray_loop-past :
    (n : ℕ) (p : Position) (s : Square) (δ : Delta) (c : Color) (t : Square) (b : Bool) (m : Square)
    → step s δ c ≡ some m
    → square_eq m t ≡ false
    → ray_loop (suc n) p s δ c t b ≡ ray_loop n p m δ c t (is_some (piece_at p m) || b)
unfolding ray_loop
ray_loop-past n p s δ c t b m e past = rw (e, past, ray_loop)

ray_loop_sound :
    (n : ℕ) (p : Position) (s : Square) (δ : Delta) (c : Color) (t : Square) (b : Bool)
    → ray_loop n p s δ c t b ≡ Reach.reaches
    → (b ≡ false) × Clear p (oriented δ c) s t
ray_loop_sound zero p s δ c t b h = absurd (unfold ray_loop in cc h)
ray_loop_sound (suc n) p s δ c t b h = elim (Option-cases (step s δ c)) [
  | inl e ↦ absurd (cc (h, ray_loop-off n p s δ c t b e))
  | inr (m, e) ↦ elim (Bool-cases (square_eq m t)) [
    | inl here ↦ (
      ground (arith, h, ray_loop-at n p s δ c t b m e here),
      arrive (
          subst (λ x. Shift (oriented δ c) s x) ((square_eq_iff m t).0 here)
            (step_sound s δ c m e)),
    )
    | inr past ↦
        let (clear, line) =
          ray_loop_sound n p m δ c t (is_some (piece_at p m) || b)
            (sym (ray_loop-past n p s δ c t b m e past) ∙ h) in
        (ground (arith, clear), advance (step_sound s δ c m e) (ground (arith, clear)) line)
  ]
]

ray_loop_complete :
    (n : ℕ) (p : Position) (δ : Delta) (c : Color) {s t : Square}
    → Clear p (oriented δ c) s t
    → OnBoard s
    → is_direction (oriented δ c) ≡ true
    → remaining (oriented δ c) s < n
    → ray_loop n p s δ c t false ≡ Reach.reaches
ray_loop_complete zero p δ c line on way h = absurd (omega arith)
ray_loop_complete (suc n) p δ c {s} {t} (arrive shift) on way h =
    ray_loop-at n p s δ c t false t (step_complete s δ c t shift) ((square_eq_iff t t).1 refl)
ray_loop_complete (suc n) p δ c {s} {t} (advance {m = m} shift empty line) on way h =
    elim (Bool-cases (square_eq m t)) [
      | inl here ↦ ray_loop-at n p s δ c t false m (step_complete s δ c m shift) here
      | inr past ↦
          ray_loop-past n p s δ c t false m (step_complete s δ c m shift) past
          ∙ rw empty (
              ray_loop_complete n p δ c line shift.0 way
                (omega (arith, remaining-lt (oriented δ c) s m on shift way)))
    ]

reach_slides_sound :
    (p : Position) (from : Square) (c : Color) (to : Square) (b : Bool) (δs : List Delta)
    → reach_slides p from c to b δs ≡ Reach.reaches
    → (δ : Delta) × Memᴰ δ δs × (ray p from δ c to ≡ Reach.reaches)
unfolding reach_slides
reach_slides_sound p from c to b [] h = absurd (ground arith)
reach_slides_sound p from c to b (δ ∷ δs) h =
    go (ray p from δ c to) refl (λ (b' : Bool). reach_slides_sound p from c to b' δs)
  where
    go :
        (r : Reach)
        → ray p from δ c to ≡ r
        → ((b' : Bool)
            → reach_slides p from c to b' δs ≡ Reach.reaches
            → (ε : Delta) × Memᴰ ε δs × (ray p from ε c to ≡ Reach.reaches))
        → (ε : Delta) × Memᴰ ε (δ ∷ δs) × (ray p from ε c to ≡ Reach.reaches)
    go Reach.reaches e later = (δ, Memᴰ.head refl, e)
    go Reach.blocked e later =
        let (ε, m, line) = later true (ground arith) in (ε, Memᴰ.tail m, line)
    go Reach.unreachable e later =
        let (ε, m, line) = later b (ground arith) in (ε, Memᴰ.tail m, line)

reach_slides_complete :
    (p : Position) (from : Square) (c : Color) (to : Square) {δ : Delta} (b : Bool)
    {δs : List Delta}
    → Memᴰ δ δs
    → ray p from δ c to ≡ Reach.reaches
    → reach_slides p from c to b δs ≡ Reach.reaches
unfolding reach_slides
reach_slides_complete p from c to b (Memᴰ.head {x = ε} e) h =
    ground (arith, ap (λ (x : Delta). ray p from x c to) e)
reach_slides_complete p from c to b (Memᴰ.tail m) h =
    ground
      (arith, reach_slides_complete p from c to true m h, reach_slides_complete p from c to b m h)

lands_on-eq-true : (o : Option Square) (t : Square) → lands_on o t ≡ true → o ≡ some t
lands_on-eq-true none t h = ground arith
lands_on-eq-true (some s) t h = ap some ((square_eq_iff s t).0 h)

abbrev steps_on : Square → Piece → Square → Delta → Bool
steps_on from piece to δ = lands_on (step from δ piece.color) to

reach_by_slide :
    (p : Position) (from : Square) (piece : Piece) (to : Square)
    → reach_slides p from piece.color to false (slides piece.kind) ≡ Reach.reaches
    → CanReach p from piece to
reach_by_slide p from piece to h =
    let (δ, m, e) = reach_slides_sound p from piece.color to false (slides piece.kind) h in
    by_slide δ m (ray_loop_sound ray_fuel p from δ piece.color to false (unfold ray in e)).1

reach_by_step :
    (p : Position) (from : Square) (piece : Piece) (to : Square)
    → any (steps_on from piece to) (steps piece.kind) ≡ true
    → CanReach p from piece to
reach_by_step p from piece to h =
    let (δ, m, e) = any_elim (steps_on from piece to) (steps piece.kind) h in
    by_step δ m (step_sound from δ piece.color to (lands_on-eq-true (step from δ piece.color) to e))

reach_sound :
    (p : Position) (from : Square) (piece : Piece) (to : Square)
    → reach p from piece to ≡ Reach.reaches
    → CanReach p from piece to
unfolding reach
reach_sound p from piece to h =
    elim (Bool-cases (any (steps_on from piece to) (steps piece.kind))) [
      | inl one ↦ reach_by_step p from piece to one
      | inr no_step ↦ reach_by_slide p from piece to (ground arith)
    ]

reach_complete :
    (p : Position) (from : Square) (piece : Piece) (to : Square)
    → OnBoard from
    → CanReach p from piece to
    → reach p from piece to ≡ Reach.reaches
unfolding reach
reach_complete p from piece to on (by_step δ m shift) =
    let here : lands_on (step from δ piece.color) to ≡ true =
      rw (step_complete from δ piece.color to shift) ((square_eq_iff to to).1 refl) in
    rw (any_intro (steps_on from piece to) m here)
reach_complete p from piece to on (by_slide δ m line) =
    let way : is_direction (oriented δ piece.color) ≡ true =
      is_direction-slides piece.kind piece.color δ m in
    let e : ray p from δ piece.color to ≡ Reach.reaches =
      unfold ray in ray_loop_complete ray_fuel p δ piece.color line on way (far δ) in
    ground (arith, reach_slides_complete p from piece.color to false m e)
  where
    far : (δ : Delta) → remaining (oriented δ piece.color) from < ray_fuel
    far δ = omega (arith, remaining-le (oriented δ piece.color) from on)

-- `reach` answers that the destination is reached exactly when the piece's pattern takes it there:
-- by one step, or along a line on which nothing stands in between.
pub reach_iff :
    (p : Position) (from : Square) (piece : Piece) (to : Square)
    → OnBoard from
    → (reach p from piece to ≡ Reach.reaches) ↔ CanReach p from piece to
reach_iff p from piece to on = (reach_sound p from piece to, reach_complete p from piece to on)
