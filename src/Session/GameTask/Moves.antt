-- ===== src/Session/GameTask/Moves.antt =====
-- src/session/game_task.rs: which moves are accepted, and what they do to the game.
use tabia_shogi_server.Common.{
  ℕ, ◌+◌, ◌<◌, min, false, Option, none, some, leb, if◌then◌else◌, ◌≡◌, ◌↔◌, refl, sym, ap, subst,
  ◌∙◌, inl, inr, arith, Result, ok, length, snoc, length-snoc, Option-cases, Result-cases,
}
use tabia_shogi_server.Game.Position.Pieces.{Color, color_eq_iff, Move, slot, opponent}
use tabia_shogi_server.Game.Position.Board.{Position}
use tabia_shogi_server.Game.Legality.Apply.{apply_move}
use tabia_shogi_server.Game.Repetition.{record_move}
use tabia_shogi_server.Game.Repetition.History.{verdict_of, verdict_of-judged, judged}
use tabia_shogi_server.Game.Termination.{Outcome}
use tabia_shogi_server.Session.Clock.{increment_units, u32_max}
use tabia_shogi_server.Game.Repetition
use tabia_shogi_server.Session.GameTask.{
  Game, PlayedMove, Rejected, side_to_move, allowance, flagged, settled, settle, outcome_of,
  limit_moves, reached_max_moves, next_ply, accept, apply_judged, apply,
}
use tabia_shogi_server.Session.GameTask.Consistent.{first_of, IsConsistent}

-- A move that the game takes: the game is on, it is the side's turn, its charge is below the
-- allowance where there is one, and the rules accept it with this position.
pub record IsTaken (g : Game) (side : Color) (mv : Move) (charged : ℕ) (q : Position) : Type 0 where
  pub on : g.outcome ≡ none
  pub turn : side ≡ side_to_move g
  pub in_time : (a : ℕ) → allowance g (side_to_move g) ≡ some a → charged < a
  pub legal : apply_move g.position mv ≡ ok q

flagged_iff :
    (g : Game) (charged : ℕ)
    → (flagged g (side_to_move g) charged ≡ none)
      ↔ ((a : ℕ) → allowance g (side_to_move g) ≡ some a → charged < a)
unfolding flagged side_to_move
flagged_iff g charged = (
  λ h a e. ground (arith, e),
  λ below. elim (Option-cases (allowance g g.position.side_to_move)) [
    | inl e ↦ ground (arith, e)
    | inr (a, e) ↦ ground (arith, e, below a e)
  ],
)

IsTaken-apply :
    (g : Game) (side : Color) (mv : Move) (charged : ℕ) (q : Position)
    → IsTaken g side mv charged q
    → apply g side mv charged
      ≡ (limit_moves (accept g side mv charged q).0, ok (accept g side mv charged q).1)
unfolding apply apply_judged
IsTaken-apply g side mv charged q k =
    let unflagged : flagged g side charged ≡ none =
      rw k.turn ((flagged_iff g charged).1 k.in_time) in
    ground (arith, k.on, unflagged, k.legal, (color_eq_iff side (side_to_move g)).1 k.turn)

apply-IsTaken :
    (g : Game) (side : Color) (mv : Move) (charged : ℕ) (m : PlayedMove)
    → (apply g side mv charged).1 ≡ ok m
    → (q : Position) × IsTaken g side mv charged q
unfolding apply apply_judged
apply-IsTaken g side mv charged m h = elim (Result-cases (apply_move g.position mv)) [
  | inr (e, k) ↦ absurd (ground (arith, k))
  | inl (q, k) ↦
      let turn : side ≡ side_to_move g =
        (color_eq_iff side (side_to_move g)).0 (ground (arith, k)) in
      let unflagged : flagged g side charged ≡ none = ground (arith, k) in
      (
        q,
        record {
          on = ground (arith, k);
          turn = turn;
          in_time =
              (flagged_iff g charged).0 (subst (λ s. flagged g s charged ≡ none) turn unflagged);
          legal = k;
        },
      )
]

-- The answer to a move: the move as it was sent, its charge and its ply, at the end of the record.
pub record IsRecorded (g : Game) (mv : Move) (charged : ℕ) (m : PlayedMove) (after : Game)
    : Type 0 where
  pub sent : m.mv ≡ mv
  pub charge : m.t ≡ charged
  pub played : m.is_setup ≡ false
  pub numbered : m.ply ≡ min u32_max (length g.moves + 1)
  pub appended : after.moves ≡ snoc g.moves m

moves-limit_moves : (g : Game) → (limit_moves g).moves ≡ g.moves
unfolding limit_moves
moves-limit_moves g = ground arith

accept-IsRecorded :
    (g : Game) (side : Color) (mv : Move) (charged : ℕ) (q : Position)
    → IsRecorded g mv charged
        (accept g side mv charged q).1
        (limit_moves (accept g side mv charged q).0)
unfolding accept settle next_ply
accept-IsRecorded g side mv charged q = record {
  sent = refl;
  charge = refl;
  played = refl;
  numbered = omega arith;
  appended = moves-limit_moves (accept g side mv charged q).0;
}

apply-IsRecorded :
    (g : Game) (side : Color) (mv : Move) (charged : ℕ) (m : PlayedMove)
    → (apply g side mv charged).1 ≡ ok m
    → IsRecorded g mv charged m (apply g side mv charged).0
apply-IsRecorded g side mv charged m h =
    let (q, k) = apply-IsTaken g side mv charged m h in
    let e = IsTaken-apply g side mv charged q k in
    let answered : (accept g side mv charged q).1 ≡ m = ground (arith, e, h) in
    subst (λ n. IsRecorded g mv charged n (apply g side mv charged).0) answered
      (subst (λ r. IsRecorded g mv charged (accept g side mv charged q).1 r.0) (sym e)
        (accept-IsRecorded g side mv charged q))

-- A move is accepted, with a position for the game, exactly if the game is on, it is the mover's
-- turn, its charge is below the allowance where there is one, and the rules accept the move with
-- that position; and a move accepted is answered with itself, under its charge and the next ply, not
-- as a setup move, and the answer is what the record has gained at its end.
pub apply_iff :
    (g : Game) (side : Color) (mv : Move) (charged : ℕ)
    → ((q : Position)
        → (((m : PlayedMove) × ((apply g side mv charged).1 ≡ ok m))
            × ((apply g side mv charged).0.position ≡ q))
          ↔ IsTaken g side mv charged q)
      × ((m : PlayedMove)
          → (apply g side mv charged).1 ≡ ok m
          → IsRecorded g mv charged m (apply g side mv charged).0)
unfolding limit_moves accept settle
apply_iff g side mv charged = (
  λ q. (
    λ ((m, h), at).
        let (q', k) = apply-IsTaken g side mv charged m h in
        let same : q' ≡ q =
          sym (
            ap (λ (r : Game × Result Rejected PlayedMove). r.0.position)
              (IsTaken-apply g side mv charged q' k)
            ∙ ground arith)
          ∙ at in
        subst (λ p. IsTaken g side mv charged p) same k,
    λ k.
        let e = IsTaken-apply g side mv charged q k in
        (
          ((accept g side mv charged q).1, ap (λ (r : Game × Result Rejected PlayedMove). r.1) e),
          ap (λ (r : Game × Result Rejected PlayedMove). r.0.position) e ∙ ground arith,
        ),
  ),
  λ m h. apply-IsRecorded g side mv charged m h,
)

-- How a move that is taken ends the game: by the repetition verdict, or else at the move limit.
abbrev pub ending_of : Game → Repetition.Verdict → Option Outcome
ending_of g verdict = elim (outcome_of verdict) [
  | some o ↦ some o
  | none ↦ elim g.max_moves [
    | none ↦ none
    | some m ↦ if leb m (length g.moves + 1) then some Outcome.max_moves else none
  ]
]

accept-outcome :
    (g : Game) (side : Color) (mv : Move) (charged : ℕ) (q : Position)
    → (limit_moves (accept g side mv charged q).0).outcome
      ≡ ending_of g (record_move g.repetition q).1
unfolding limit_moves accept settle reached_max_moves
accept-outcome g side mv charged q =
    ground (arith, length-snoc g.moves (accept g side mv charged q).1)

-- A move that is taken in a game with a consistent record ends it exactly as the history calls for:
-- by the verdict on the repetition of the position, else at the move limit, else not at all; and of
-- the clocks it changes the mover's alone.
pub apply-outcome :
    (g : Game) (side : Color) (mv : Move) (charged : ℕ) (q : Position) (c : IsConsistent g)
    → IsTaken g side mv charged q
    → ((apply g side mv charged).0.outcome ≡ ending_of g (judged (first_of g.start) q c.history))
      × (slot (apply g side mv charged).0.remaining side
          ≡ settled (slot g.remaining side) (increment_units g.time) charged)
      × (slot (apply g side mv charged).0.remaining (opponent side)
          ≡ slot g.remaining (opponent side))
unfolding verdict_of accept limit_moves settle opponent
apply-outcome g side mv charged q c k =
    let e = IsTaken-apply g side mv charged q k in
    let verdict : (record_move g.repetition q).1 ≡ judged (first_of g.start) q c.history =
      ap (λ st. (record_move st q).1) c.counted
      ∙ verdict_of-judged (first_of g.start) q c.history in
    (
      ap (λ (r : Game × Result Rejected PlayedMove). r.0.outcome) e
          ∙ accept-outcome g side mv charged q
          ∙ ap (ending_of g) verdict,
      ground (arith, e),
      ground (arith, e),
    )
