-- ===== src/Game/StartSpec/Replay.antt =====
-- src/game/start_spec.rs: what a replay of a setup sequence passes through, and where it stops.
use tabia_shogi_server.Common.{
  ℕ, ◌+◌, List, [], ◌∷◌, ◌++◌, Result, ok, err, ◌≡◌, ◌↔◌, refl, ap, subst, arith, length, >>=-eq-ok,
}
use tabia_shogi_server.Game.Position.Pieces.{Move}
use tabia_shogi_server.Game.Position.Board.{Position, hirate}
use tabia_shogi_server.Game.Legality.Apply.{Illegal, apply_move}
use tabia_shogi_server.Game.Legality.Effects.{OnBoardMove}
use tabia_shogi_server.Game.Soundness.Defs.{IsSound, Reachable, here, played}
use tabia_shogi_server.Game.Soundness.Reached.{Reachable-IsSound, hirate-IsSound}
use tabia_shogi_server.Game.StartSpec.{
  StartSpec, IllegalSetup, at_index, replay, traversal, last_of, decode,
}

-- A line of play: each position follows from the one before by the move of the same place.
pub data Line : Position → List Move → List Position → Type 0 where
  done : {p : Position} → Line p [] []
  then_move :
      {p q : Position} {mv : Move} {mvs : List Move} {ps : List Position}
      → apply_move p mv ≡ ok q
      → Line q mvs ps
      → Line p (mv ∷ mvs) (q ∷ ps)

-- The moves of a sequence are on the board.
pub data AreOnBoard : List Move → Type 0 where
  none_left : AreOnBoard []
  one_more : {mv : Move} {mvs : List Move} → OnBoardMove mv → AreOnBoard mvs → AreOnBoard (mv ∷ mvs)

at_index-eq-ok :
    (i : ℕ) (r : Result Illegal Position) {q : Position} → at_index i r ≡ ok q → r ≡ ok q
at_index-eq-ok i (ok p) h = ground arith
at_index-eq-ok i (err e) h = ground arith

pub replay-Line :
    (p : Position) (i : ℕ) (mvs : List Move) (ps : List Position)
    → replay p i mvs ≡ ok ps
    → Line p mvs ps
unfolding replay
replay-Line p i [] ps h = subst (λ l. Line p [] l) (ground arith) done
replay-Line p i (mv ∷ mvs) ps h =
    let (q, made, rest) = >>=-eq-ok (at_index i (apply_move p mv)) _ h in
    let (later, played_on, e) = >>=-eq-ok (replay q (i + 1) mvs) _ rest in
    subst (λ l. Line p (mv ∷ mvs) l) (ground arith)
      (then_move (at_index-eq-ok i (apply_move p mv) made)
        (replay-Line q (i + 1) mvs later played_on))

pub Line-replay :
    {p : Position} {mvs : List Move} {ps : List Position} (i : ℕ)
    → Line p mvs ps
    → replay p i mvs ≡ ok ps
unfolding replay
Line-replay i done = refl
Line-replay i (then_move {q = q} {mvs = mvs} e l) = rw (e, Line-replay (i + 1) l) refl

Line-Reachable :
    {start p : Position} {mvs : List Move} {ps : List Position}
    → Reachable start p
    → AreOnBoard mvs
    → Line p mvs ps
    → Reachable start (last_of p ps)
unfolding last_of
Line-Reachable r on done = r
Line-Reachable r (one_more o on) (then_move {mv = mv} e l) = Line-Reachable (played mv r o e) on l

-- Where a replay is refused: the moves before the refused one are a line of play, and the position
-- that they lead to refuses that move for the reason given.
pub record IsRefused (p : Position) (mvs : List Move) (index : ℕ) (reason : Illegal) : Type 0 where
  pub before : List Move
  pub refused : Move
  pub after : List Move
  pub all_moves : before ++ refused ∷ after ≡ mvs
  pub passed : List Position
  pub line : Line p before passed
  pub counted : length before ≡ index
  pub illegal : apply_move (last_of p passed) refused ≡ err reason

later-IsRefused :
    {p q : Position} {mv : Move} {mvs : List Move} {index : ℕ} {reason : Illegal}
    → apply_move p mv ≡ ok q
    → IsRefused q mvs index reason
    → IsRefused p (mv ∷ mvs) (index + 1) reason
unfolding last_of
later-IsRefused {q = q} {mv = mv} e r = record {
  before = mv ∷ r.before;
  refused = r.refused;
  after = r.after;
  all_moves = ap (◌∷◌ mv) r.all_moves;
  passed = q ∷ r.passed;
  line = then_move e r.line;
  counted = omega (arith, r.counted);
  illegal = r.illegal;
}

pub replay-IsRefused :
    (p : Position) (i : ℕ) (mvs : List Move) (e : IllegalSetup)
    → replay p i mvs ≡ err e
    → (n : ℕ) × (i + n ≡ e.index) × IsRefused p mvs n e.reason
unfolding replay last_of
replay-IsRefused p i [] e h = ground arith
replay-IsRefused p i (mv ∷ mvs) e h =
    go (apply_move p mv) refl (λ q. replay-IsRefused q (i + 1) mvs e)
  where
    go :
        (r : Result Illegal Position)
        → apply_move p mv ≡ r
        → ((q : Position)
            → replay q (i + 1) mvs ≡ err e
            → (n : ℕ) × (i + 1 + n ≡ e.index) × IsRefused q mvs n e.reason)
        → (n : ℕ) × (i + n ≡ e.index) × IsRefused p (mv ∷ mvs) n e.reason
    go (ok q) made later =
        let (n, counted, refused) = later q (ground arith) in
        (n + 1, omega (arith, counted), later-IsRefused made refused)
    go (err reason) made later = (
      0,
      ground arith,
      record {
        before = [];
        refused = mv;
        after = mvs;
        all_moves = refl;
        passed = [];
        line = done;
        counted = refl;
        illegal = ground arith;
      },
    )

-- A traversal of a setup sequence is made exactly if the sequence is a line of legal play from the
-- even start, and then its positions are the ones that the play passes through.
pub traversal_iff :
    (setup : List Move) (first : Position) (later : List Position)
    → (traversal (StartSpec.buoy setup) ≡ ok (first, later))
      ↔ ((first ≡ hirate) × Line hirate setup later)
unfolding traversal
traversal_iff setup first later = (
  λ h.
      let (ps, e, k) = >>=-eq-ok (replay hirate 0 setup) _ h in
      (
        ground arith,
        subst (λ l. Line hirate setup l) (ground arith) (replay-Line hirate 0 setup ps e),
      ),
  λ (at, l). ground (arith, Line-replay 0 l),
)

-- A setup sequence of moves on the board that decodes leads to a position that legal moves lead to
-- from the even start, and that is sound.
pub decode-Reachable :
    (setup : List Move) (p : Position)
    → AreOnBoard setup
    → decode (StartSpec.buoy setup) ≡ ok p
    → Reachable hirate p × IsSound p
unfolding decode
decode-Reachable setup p on h =
    let ((first, later), e, k) = >>=-eq-ok (traversal (StartSpec.buoy setup)) _ h in
    let (at, l) = (traversal_iff setup first later).0 e in
    let r : Reachable hirate (last_of hirate later) = Line-Reachable here on l in
    let same : last_of hirate later ≡ p = ground arith in
    let reached : Reachable hirate p = subst (λ q. Reachable hirate q) same r in
    (reached, Reachable-IsSound hirate-IsSound reached)

-- A setup sequence that does not decode is refused at the index named: the moves before it are a
-- line of legal play from the even start, and the position reached refuses the next move for the
-- reason named.
pub decode-IsRefused :
    (setup : List Move) (e : IllegalSetup)
    → decode (StartSpec.buoy setup) ≡ err e
    → IsRefused hirate setup e.index e.reason
unfolding decode traversal
decode-IsRefused setup e h =
    let (n, counted, refused) = replay-IsRefused hirate 0 setup e (ground arith) in
    subst (λ i. IsRefused hirate setup i e.reason) (omega (arith, counted)) refused
