-- ===== src/Session/GameTask/Begin.antt =====
-- src/session/game_task.rs: the record that a game begins with.
use tabia_shogi_server.Common.{
  ℕ, ◌+◌, true, Option, some, List, [], ◌∷◌, ◌≡◌, refl, sym, ap, subst, ◌∙◌, inl, inr, arith, ok,
  length, Option-cases, Result-cases,
}
use tabia_shogi_server.Game.Position.Pieces.{Move, PerColor}
use tabia_shogi_server.Game.Position.Board.{Position}
use tabia_shogi_server.Game.Repetition.History.{state_of}
use tabia_shogi_server.Game.StartSpec.{StartSpec, traversal, last_of}
use tabia_shogi_server.Game.StartSpec.Replay.{Line, done, then_move, traversal_iff}
use tabia_shogi_server.Session.Clock.{TimeConfig, setup_t_values, effective_setup, increment_units}
use tabia_shogi_server.Session.Clock.Setup.{setup_t_values-expected}
use tabia_shogi_server.Session.GameTask.{
  Game, PlayedMove, next_ply, settle_setup, record_all, transmitted, new_of, new,
}
use tabia_shogi_server.Session.GameTask.Events.{Event, handle_all}
use tabia_shogi_server.Session.GameTask.Consistent.{
  newest, Recorded, begun, one_more, first_of, IsConsistent, handle_all-IsConsistent,
}

-- Positions put on a history in turn.
onto : List Position → List Position → List Position
onto [] h = h
onto (p ∷ ps) h = onto ps (p ∷ h)

settle_setup-Recorded :
    {first : Position} (i increment : ℕ) (moves : List PlayedMove) (remaining : PerColor ℕ)
    (setup : List Move) (values : List ℕ) (h later : List Position)
    → Recorded first moves h
    → Line (newest first h) setup later
    → length values ≡ length setup
    → Recorded first (settle_setup i increment moves remaining setup values).0 (onto later h)
unfolding settle_setup onto newest next_ply
settle_setup-Recorded i increment moves remaining [] values h later r done e = r
settle_setup-Recorded i increment moves remaining (mv ∷ setup) [] h later r l e =
    absurd (ground arith)
settle_setup-Recorded i increment moves remaining (mv ∷ setup) (t ∷ values) h later r
      (then_move {q = q} {ps = ps} e l) same =
    settle_setup-Recorded (i + 1) increment _ _ setup values (q ∷ h) ps
      (one_more (record { ply = next_ply moves; mv = mv; t = t; is_setup = true }) r e
        (ground arith))
      l (omega (arith, same))

record_all-state_of :
    (first : Position) (h later : List Position)
    → record_all (state_of first h) later ≡ state_of first (onto later h)
unfolding record_all state_of onto
record_all-state_of first h [] = refl
record_all-state_of first h (p ∷ ps) = record_all-state_of first (p ∷ h) ps

newest-onto :
    (first : Position) (h later : List Position)
    → newest first (onto later h) ≡ last_of (newest first h) later
unfolding newest onto last_of
newest-onto first h [] = refl
newest-onto first h (p ∷ ps) = newest-onto first (p ∷ h) ps

new_of-IsConsistent :
    (id : List ℕ) (start : StartSpec) (cfg : TimeConfig) (limit : Option ℕ) (setup : List Move)
    (later : List Position) (values : List ℕ)
    → Line (first_of start) setup later
    → length values ≡ length setup
    → IsConsistent (new_of id start cfg limit setup (first_of start) later values)
unfolding new_of newest state_of
new_of-IsConsistent id start cfg limit setup later values l e = record {
  history = onto later [];
  recorded = settle_setup-Recorded 0 (increment_units cfg) [] _ setup values [] later begun l e;
  current = sym (newest-onto (first_of start) [] later);
  counted = record_all-state_of (first_of start) [] later;
}

-- What a game that was created came from.
pub record IsCreated (id : List ℕ) (spec : StartSpec) (cfg : TimeConfig) (limit : Option ℕ)
    (g : Game) : Type 0 where
  pub first : Position
  pub later : List Position
  pub values : List ℕ
  pub traversed : traversal (transmitted spec cfg) ≡ ok (first, later)
  pub valued : setup_t_values (length (effective_setup spec cfg)) cfg ≡ some values
  pub made :
      g ≡ new_of id (transmitted spec cfg) cfg limit (effective_setup spec cfg) first later values

pub new-IsCreated :
    (id : List ℕ) (spec : StartSpec) (cfg : TimeConfig) (limit : Option ℕ) (g : Game)
    → new id spec cfg limit ≡ ok g
    → IsCreated id spec cfg limit g
unfolding new
new-IsCreated id spec cfg limit g h = elim (Result-cases (traversal (transmitted spec cfg))) [
  | inr (e, t) ↦ absurd (ground (arith, t))
  | inl ((first, later), t) ↦
      elim (Option-cases (setup_t_values (length (effective_setup spec cfg)) cfg)) [
        | inl v ↦ absurd (ground (arith, t, v))
        | inr (values, v) ↦ record {
          first = first;
          later = later;
          values = values;
          traversed = t;
          valued = v;
          made = ground (arith, t, v);
        }
      ]
]

created-Line :
    (spec : StartSpec) (cfg : TimeConfig) (first : Position) (later : List Position)
    → traversal (transmitted spec cfg) ≡ ok (first, later)
    → (first ≡ first_of (transmitted spec cfg)) × Line first (effective_setup spec cfg) later
unfolding first_of traversal effective_setup
created-Line (StartSpec.buoy setup) cfg first later h =
    let (at, l) = (traversal_iff (effective_setup (StartSpec.buoy setup) cfg) first later).0 h in
    (at, subst (λ p. Line p (effective_setup (StartSpec.buoy setup) cfg) later) (sym at) l)
created-Line (StartSpec.board p) cfg first later h =
    (ground arith, subst (λ l. Line first [] l) (ground arith) done)

new-IsConsistent :
    (id : List ℕ) (spec : StartSpec) (cfg : TimeConfig) (limit : Option ℕ) (g : Game)
    → new id spec cfg limit ≡ ok g
    → IsConsistent g
new-IsConsistent id spec cfg limit g h =
    let c : IsCreated id spec cfg limit g = new-IsCreated id spec cfg limit g h in
    let (at, l) = created-Line spec cfg c.first c.later c.traversed in
    let counted =
      (setup_t_values-expected (length (effective_setup spec cfg)) cfg c.values c.valued).0 in
    subst (λ x. IsConsistent x)
      (sym (
        c.made
        ∙ ap
            (λ (p : Position).
              new_of id (transmitted spec cfg) cfg limit (effective_setup spec cfg) p c.later
                c.values)
            at))
      (new_of-IsConsistent id (transmitted spec cfg) cfg limit (effective_setup spec cfg) c.later
        c.values (subst (λ p. Line p (effective_setup spec cfg) c.later) at l) counted)

-- From its creation on, whatever commands come, a game's moves are legal one after the other from
-- its start and numbered in order, its position is the one that they lead to, and its repetition
-- state is the one that the positions passed through make.
pub game-IsConsistent :
    (id : List ℕ) (spec : StartSpec) (cfg : TimeConfig) (limit : Option ℕ) (g : Game)
    (es : List Event)
    → new id spec cfg limit ≡ ok g
    → IsConsistent (handle_all g es)
game-IsConsistent id spec cfg limit g es h =
    handle_all-IsConsistent es g (new-IsConsistent id spec cfg limit g h)
