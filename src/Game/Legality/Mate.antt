-- ===== src/Game/Legality/Mate.antt =====
-- src/game/legality.rs: which moves are accepted, and which pawn drops are refused as mates.
use tabia_shogi_server.Common.{
  Bool, true, false, not, ◌&&◌, ◌≡◌, ◌≢◌, ◌↔◌, ap, ◌∙◌, inl, inr, arith, ok, err, guard, ◌>>◌,
  Bool-cases, Result-cases,
}
use tabia_shogi_server.Game.Position.Pieces.{Color, opponent, Square, HandKind, Move}
use tabia_shogi_server.Game.Position.Board.{Position}
use tabia_shogi_server.Game.Legality.Movement.{in_check}
use tabia_shogi_server.Game.Legality.Apply.{
  Illegal, arriving_kind, apply_board_move, apply_drop, make_move, DropPawnMateRule, destination,
  is_ruled_pawn_drop, validate_with, has_legal_move, validate, apply_move,
}
use tabia_shogi_server.Game.Legality.Inversion.{Accepted, apply_move-eq-ok}
use tabia_shogi_server.Game.Legality.Replies.{HasReply, has_legal_move_iff}

-- The moves that the rules accept: made, with the mover's king not left in check, and not a pawn
-- drop that gives a check without a reply.
pub record IsLegal (p : Position) (mv : Move) (q : Position) : Type 0 where
  pub made : make_move p mv ≡ ok q
  pub king_safe : in_check q p.side_to_move ≡ false
  pub no_drop_mate :
      (to : Square)
      → mv ≡ Move.drop HandKind.pawn to
      → in_check q (opponent p.side_to_move) ≡ true
      → HasReply q

pawn_drop :
    (mv : Move)
    → is_ruled_pawn_drop DropPawnMateRule.enforced mv ≡ true
    → mv ≡ Move.drop HandKind.pawn (destination mv)
pawn_drop mv h = ground arith

IsLegal-accepted :
    (p : Position) (mv : Move) (q : Position) → IsLegal p mv q → apply_move p mv ≡ ok q
unfolding apply_move validate validate_with
IsLegal-accepted p mv q l = elim (Bool-cases (is_ruled_pawn_drop DropPawnMateRule.enforced mv)) [
  | inr other ↦ ground (arith, other, l.made, l.king_safe)
  | inl drop ↦ elim (Bool-cases (in_check q (opponent p.side_to_move))) [
    | inr quiet ↦ ground (arith, quiet, l.made, l.king_safe)
    | inl check ↦
        let found : has_legal_move q ≡ true =
          (has_legal_move_iff q).1 (l.no_drop_mate (destination mv) (pawn_drop mv drop) check) in
        ground (arith, found, l.made, l.king_safe)
  ]
]

accepted-IsLegal :
    (p : Position) (mv : Move) (q : Position) → apply_move p mv ≡ ok q → IsLegal p mv q
accepted-IsLegal p mv q h =
    let a : Accepted p mv q = apply_move-eq-ok p mv q h in
    record {
      made = a.made;
      king_safe = a.king_safe;
      no_drop_mate = λ to e check. (has_legal_move_iff q).0 (ground (arith, a.no_drop_mate));
    }

-- A move is accepted exactly if it can be made, does not leave the mover's king in check, and is not
-- a pawn drop that gives a check to which there is no reply.
pub apply_move_iff :
    (p : Position) (mv : Move) (q : Position) → (apply_move p mv ≡ ok q) ↔ IsLegal p mv q
apply_move_iff p mv q = (accepted-IsLegal p mv q, IsLegal-accepted p mv q)

-- A pawn drop that mates.
pub record IsDropPawnMate (p : Position) (mv : Move) (to : Square) : Type 0 where
  pub drop : mv ≡ Move.drop HandKind.pawn to
  pub next : Position
  pub made : make_move p mv ≡ ok next
  pub king_safe : in_check next p.side_to_move ≡ false
  pub check : in_check next (opponent p.side_to_move) ≡ true
  pub no_reply : HasReply next → ⊥

no_board_mate :
    (p : Position) (c : Color) (from to s : Square) (promote : Bool)
    → apply_board_move p c from to promote ≢ err (Illegal.drop_pawn_mate s)
unfolding apply_board_move arriving_kind
no_board_mate p c from to s promote h = ground arith

no_drop_mate :
    (p : Position) (c : Color) (k : HandKind) (to s : Square)
    → apply_drop p c k to ≢ err (Illegal.drop_pawn_mate s)
unfolding apply_drop
no_drop_mate p c k to s h = ground arith

no_made_mate :
    (p : Position) (mv : Move) (s : Square) → make_move p mv ≢ err (Illegal.drop_pawn_mate s)
unfolding make_move
no_made_mate p (Move.board from to promote) s h = no_board_mate p p.side_to_move from to s promote h
no_made_mate p (Move.drop k to) s h = no_drop_mate p p.side_to_move k to s h

guards_mate :
    (unsafe ruled check reply : Bool) (at to : Square) (q : Position)
    → (guard (not unsafe) Illegal.king_left_in_check
        >> (guard (not (ruled && (check && not reply))) (Illegal.drop_pawn_mate at) >> ok q))
      ≡ err (Illegal.drop_pawn_mate to)
    → (unsafe ≡ false) × (ruled ≡ true) × (check ≡ true) × (reply ≡ false) × (at ≡ to)
guards_mate unsafe ruled check reply at to q h = ground arith

validated_mate :
    (p : Position) (mv : Move) (to : Square) (q : Position)
    → make_move p mv ≡ ok q
    → apply_move p mv ≡ err (Illegal.drop_pawn_mate to)
    → (in_check q p.side_to_move ≡ false)
      × (is_ruled_pawn_drop DropPawnMateRule.enforced mv ≡ true)
      × (in_check q (opponent p.side_to_move) ≡ true)
      × (has_legal_move q ≡ false)
      × (destination mv ≡ to)
unfolding apply_move validate validate_with
validated_mate p mv to q m h =
    guards_mate (in_check q p.side_to_move) (is_ruled_pawn_drop DropPawnMateRule.enforced mv)
      (in_check q (opponent p.side_to_move)) (has_legal_move q) (destination mv) to q (rw m at h)

unmade_mate :
    (p : Position) (mv : Move) (to : Square) (e : Illegal)
    → make_move p mv ≡ err e
    → apply_move p mv ≡ err (Illegal.drop_pawn_mate to)
    → e ≡ Illegal.drop_pawn_mate to
unfolding apply_move validate validate_with
unmade_mate p mv to e m h = ground (arith, m)

refused-mate :
    (p : Position) (mv : Move) (to : Square)
    → apply_move p mv ≡ err (Illegal.drop_pawn_mate to)
    → IsDropPawnMate p mv to
refused-mate p mv to h = elim (Result-cases (make_move p mv)) [
  | inr (e, m) ↦ absurd (no_made_mate p mv to (m ∙ ap err (unmade_mate p mv to e m h)))
  | inl (q, m) ↦
      let (safe, ruled, check, no_reply, at) = validated_mate p mv to q m h in
      record {
        drop = pawn_drop mv ruled ∙ ap (Move.drop HandKind.pawn) at;
        next = q;
        made = m;
        king_safe = safe;
        check = check;
        no_reply = λ r. ground (arith, no_reply, (has_legal_move_iff q).1 r);
      }
]

mate-refused :
    (p : Position) (mv : Move) (to : Square)
    → IsDropPawnMate p mv to
    → apply_move p mv ≡ err (Illegal.drop_pawn_mate to)
unfolding apply_move validate validate_with
mate-refused p mv to m = elim (Bool-cases (has_legal_move m.next)) [
  | inl found ↦ absurd (m.no_reply ((has_legal_move_iff m.next).0 found))
  | inr none_found ↦ ground (arith, none_found, m.drop, m.made, m.king_safe, m.check)
]

-- A move is refused as a drop-pawn mate exactly if it drops a pawn, can be made, leaves the mover's
-- king out of check, and gives a check to which there is no reply.
pub drop_pawn_mate_iff :
    (p : Position) (mv : Move) (to : Square)
    → (apply_move p mv ≡ err (Illegal.drop_pawn_mate to)) ↔ IsDropPawnMate p mv to
drop_pawn_mate_iff p mv to = (refused-mate p mv to, mate-refused p mv to)
