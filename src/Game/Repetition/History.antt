-- ===== src/Game/Repetition/History.antt =====
-- The repetition state against the history that it summarises.
use mathlib.Core.List.{Memᴰ}
use tabia_shogi_server.Common.{
  ℕ, ◌≤◌, min, Bool, true, false, List, [], ◌∷◌, ◌++◌, ◌≡◌, ◌≢◌, refl, sym, ap, subst, ◌∙◌, arith,
  Option, none, some, if◌then◌else◌, ltb, leb, snoc,
}
use tabia_shogi_server.Game.Position.Pieces.{
  Color, opponent, color_eq, color_eq_iff, PerColor, slot,
}
use tabia_shogi_server.Game.Position.Board.{Position}
use tabia_shogi_server.Game.Legality.Movement.{in_check}
use tabia_shogi_server.Game.Repetition.{
  Position-discrete, Verdict, Streak, begin, count, streak_count_of, RepetitionState,
  repetition_new, count_start, update_mover, count_both, read_verdict, record_move,
}
use tabia_shogi_server.Game.Repetition.Counts.{u32_max, count_of, occurrences, count_of-bump}

-- The side that moved into a position, and whether that move gave check.
unfoldable pub mover : Position → Color
mover p = opponent p.side_to_move

unfoldable pub gave_check : Position → Bool
gave_check p = in_check p p.side_to_move

-- A game's positions after its start, newest first, and the state that the recorder holds of them.
unfoldable pub state_of : Position → List Position → RepetitionState
state_of start [] = count_start repetition_new start
state_of start (p ∷ rest) = (record_move (state_of start rest) p).0

-- The verdict on the newest position of a history.
unfoldable pub verdict_of : Position → Position → List Position → Verdict
verdict_of start p rest = (record_move (state_of start rest) p).1

abbrev pub prefixed : Position → Option (List Position) → Option (List Position)
prefixed p none = none
prefixed p (some l) = some (p ∷ l)

abbrev pub started : Option (List Position) → List Position
started none = []
started (some l) = l

-- The run of checks by one side that is in progress: the newest positions of the history, back to
-- the side's first check after its last move that gave none; none where its last move gave none.
unfoldable pub run : Color → List Position → Option (List Position)
run s [] = none
run s (p ∷ rest) =
    let before = run s rest in
    if color_eq (mover p) s
    then (if gave_check p then some (p ∷ started before) else none)
    else prefixed p before

-- How often a position stands in the run in progress.
unfoldable pub run_occurrences : Color → Position → List Position → ℕ
run_occurrences s key h = occurrences Position-discrete key (started (run s h))

-- A streak holds the counts of a run.
abbrev Summarises : Streak → Option (List Position) → Type 0
Summarises Streak.broken none = Unit {0}
Summarises (Streak.checking m) (some l) =
    (k : Position)
    → count_of Position-discrete k m ≡ min u32_max (occurrences Position-discrete k l)
Summarises _ _ = ⊥

-- One side's streak after a move, from its streak before.
next_streak : Streak → Color → Position → Streak
unfolding begin mover gave_check
next_streak old s p =
    count
      (if color_eq (mover p) s then (if gave_check p then begin old else Streak.broken) else old) p

slot-update :
    (streaks : PerColor Streak) (p : Position) (s : Color)
    → slot (count_both (update_mover streaks p) p) s ≡ next_streak (slot streaks s) s p
unfolding next_streak count_both update_mover opponent
slot-update streaks p s = ground arith

count-Summarises :
    (st : Streak) (l : Option (List Position)) (p : Position)
    → Summarises st l
    → Summarises (count st p) (prefixed p l)
unfolding count occurrences
count-Summarises Streak.broken none p h = h
count-Summarises Streak.broken (some l) p h = elim h [ ]
count-Summarises (Streak.checking m) none p h = elim h [ ]
count-Summarises (Streak.checking m) (some l) p h =
    λ k. ground (arith, count_of-bump Position-discrete p k m, h k, h p)

begin-Summarises :
    (st : Streak) (l : Option (List Position))
    → Summarises st l
    → Summarises (begin st) (some (started l))
unfolding begin count_of occurrences
begin-Summarises Streak.broken none h = λ k. refl
begin-Summarises Streak.broken (some l) h = elim h [ ]
begin-Summarises (Streak.checking m) none h = elim h [ ]
begin-Summarises (Streak.checking m) (some l) h = h

step-Summarises :
    (own check : Bool) (old : Streak) (l : Option (List Position)) (p : Position)
    → Summarises old l
    → Summarises
        (count (if own then (if check then begin old else Streak.broken) else old) p)
        (if own then (if check then some (p ∷ started l) else none) else prefixed p l)
step-Summarises true true old l p h =
    count-Summarises (begin old) (some (started l)) p (begin-Summarises old l h)
step-Summarises true false old l p h = unfold count in tt
step-Summarises false check old l p h = count-Summarises old l p h

-- The global count of a position is how often it stands in the game's history, its start included,
-- up to the largest `u32`.
pub state_of-global :
    (start : Position) (h : List Position) (k : Position)
    → count_of Position-discrete k (state_of start h).global
      ≡ min u32_max (occurrences Position-discrete k (snoc h start))
unfolding state_of record_move count_start repetition_new occurrences count_of
state_of-global start [] k = ground (arith, count_of-bump Position-discrete start k [])
state_of-global start (p ∷ rest) k = ground (
  arith,
  count_of-bump Position-discrete p k (state_of start rest).global,
  state_of-global start rest k,
  state_of-global start rest p,
)

state_of-streak :
    (start : Position) (h : List Position) (s : Color)
    → Summarises (slot (state_of start h).streaks s) (run s h)
unfolding state_of record_move count_start repetition_new run next_streak
state_of-streak start [] Color.black = tt
state_of-streak start [] Color.white = tt
state_of-streak start (p ∷ rest) s =
    subst (λ x. Summarises x (run s (p ∷ rest)))
      (sym (slot-update (state_of start rest).streaks p s))
      (step-Summarises (color_eq (mover p) s) (gave_check p) (slot (state_of start rest).streaks s)
        (run s rest) p (state_of-streak start rest s))

streak_count-run :
    (st : Streak) (l : Option (List Position)) (k : Position)
    → Summarises st l
    → streak_count_of st k ≡ min u32_max (occurrences Position-discrete k (started l))
unfolding streak_count_of occurrences
streak_count-run Streak.broken none k h = refl
streak_count-run Streak.broken (some l) k h = elim h [ ]
streak_count-run (Streak.checking m) none k h = elim h [ ]
streak_count-run (Streak.checking m) (some l) k h = h k

-- The verdict on a move, from the history alone: nothing before the fourth occurrence of the
-- position; at it, a loss of the mover whose run of checks holds the position four times, else of
-- the opponent whose run holds it three times, else a draw.
abbrev pub judged : Position → Position → List Position → Verdict
judged start p rest =
    if ltb (occurrences Position-discrete p (snoc (p ∷ rest) start)) 4
    then Verdict.none
    else if leb 4 (run_occurrences (mover p) p (p ∷ rest))
    then Verdict.perpetual_check (mover p)
    else if leb 3 (run_occurrences (opponent (mover p)) p (p ∷ rest))
    then Verdict.perpetual_check (opponent (mover p))
    else Verdict.draw

read_capped :
    (n : ℕ) (streaks : PerColor Streak) (m : Color) (key : Position) (a b : ℕ)
    → streak_count_of (slot streaks m) key ≡ min u32_max a
    → streak_count_of (slot streaks (opponent m)) key ≡ min u32_max b
    → read_verdict (min u32_max n) streaks m key ≡ (
        if ltb n 4
        then Verdict.none
        else if leb 4 a
        then Verdict.perpetual_check m
        else if leb 3 b
        then Verdict.perpetual_check (opponent m)
        else Verdict.draw)
unfolding read_verdict
read_capped n streaks m key a b ea eb = ground arith

-- The recorder's verdict on the newest move is the one that the history of the game calls for.
pub verdict_of-judged :
    (start p : Position) (rest : List Position) → verdict_of start p rest ≡ judged start p rest
unfolding verdict_of record_move state_of mover run_occurrences
verdict_of-judged start p rest =
    let after : RepetitionState = state_of start (p ∷ rest) in
    let m : Color = opponent p.side_to_move in
    ap (λ n. read_verdict n after.streaks m p) (state_of-global start (p ∷ rest) p)
    ∙ read_capped (occurrences Position-discrete p (snoc (p ∷ rest) start)) after.streaks m p
        (run_occurrences m p (p ∷ rest)) (run_occurrences (opponent m) p (p ∷ rest))
        (streak_count-run (slot after.streaks m) (run m (p ∷ rest)) p
          (state_of-streak start (p ∷ rest) m))
        (streak_count-run (slot after.streaks (opponent m)) (run (opponent m) (p ∷ rest)) p
          (state_of-streak start (p ∷ rest) (opponent m)))

-- The newest positions of a history, in which every move by one side gave check.
pub record IsCheckedThroughout (s : Color) (h l : List Position) : Type 0 where
  pub earlier : List Position
  pub newest : l ++ earlier ≡ h
  pub checks : (p : Position) → Memᴰ p l → mover p ≡ s → gave_check p ≡ true

nothing_run : (s : Color) (h : List Position) → IsCheckedThroughout s h []
nothing_run s h = record { earlier = h; newest = refl; checks = λ q m. elim m [ ] }

cons-IsCheckedThroughout :
    (s : Color) (p : Position) (h l : List Position)
    → (mover p ≡ s → gave_check p ≡ true)
    → IsCheckedThroughout s h l
    → IsCheckedThroughout s (p ∷ h) (p ∷ l)
cons-IsCheckedThroughout s p h l own t = record {
  earlier = t.earlier;
  newest = ap (◌∷◌ p) t.newest;
  checks = λ q m. checks_here q m;
}
  where
    checks_here : (q : Position) → Memᴰ q (p ∷ l) → mover q ≡ s → gave_check q ≡ true
    checks_here q (Memᴰ.head e) o = ap gave_check e ∙ own (sym (ap mover e) ∙ o)
    checks_here q (Memᴰ.tail m) o = t.checks q m o

other_mover : (s : Color) (p : Position) → color_eq (mover p) s ≡ false → mover p ≢ s
other_mover s p e o = ground (arith, e, (color_eq_iff (mover p) s).1 o)

pub run-IsCheckedThroughout :
    (s : Color) (h : List Position) → IsCheckedThroughout s h (started (run s h))
unfolding run
run-IsCheckedThroughout s [] = nothing_run s []
run-IsCheckedThroughout s (p ∷ rest) =
    extend (color_eq (mover p) s) refl (gave_check p) refl (run s rest)
      (run-IsCheckedThroughout s rest)
  where
    extend :
        (own : Bool)
        → color_eq (mover p) s ≡ own
        → (check : Bool) → gave_check p ≡ check
        → (before : Option (List Position)) → IsCheckedThroughout s rest (started before)
        → IsCheckedThroughout s (p ∷ rest) (
            started (
              if own
              then (if check then some (p ∷ started before) else none)
              else prefixed p before))
    extend true eo true ec before t = cons-IsCheckedThroughout s p rest (started before) (λ o. ec) t
    extend true eo false ec before t = nothing_run s (p ∷ rest)
    extend false eo check ec none t = nothing_run s (p ∷ rest)
    extend false eo check ec (some l) t =
        cons-IsCheckedThroughout s p rest l (λ o. absurd (other_mover s p eo o)) t

-- A loss by perpetual check, as the history shows it: the position stands there four times, and
-- three times among the newest positions, in which every move of the loser gave check.
pub record IsPerpetualCheck (start p : Position) (rest : List Position) (loser : Color)
    : Type 0 where
  pub repeated : 4 ≤ occurrences Position-discrete p (snoc (p ∷ rest) start)
  pub checked : List Position
  pub in_checked : 3 ≤ occurrences Position-discrete p checked
  pub throughout : IsCheckedThroughout loser (p ∷ rest) checked

judged-perpetual :
    (start p : Position) (rest : List Position) (loser : Color)
    → judged start p rest ≡ Verdict.perpetual_check loser
    → (4 ≤ occurrences Position-discrete p (snoc (p ∷ rest) start))
      × (3 ≤ run_occurrences loser p (p ∷ rest))
judged-perpetual start p rest loser h = ground arith

-- When the recorder answers that a side loses by perpetual check, the newest position has occurred
-- four times, and at least three times in a newest part of the history in which each of that side's
-- moves gave check.
pub verdict_of-perpetual :
    (start p : Position) (rest : List Position) (loser : Color)
    → verdict_of start p rest ≡ Verdict.perpetual_check loser
    → IsPerpetualCheck start p rest loser
unfolding run_occurrences
verdict_of-perpetual start p rest loser h =
    let (repeated, often) =
      judged-perpetual start p rest loser (sym (verdict_of-judged start p rest) ∙ h) in
    record {
      repeated = repeated;
      checked = started (run loser (p ∷ rest));
      in_checked = often;
      throughout = run-IsCheckedThroughout loser (p ∷ rest);
    }
