-- ===== src/Game/Legality/Replies.antt =====
-- src/game/legality.rs: the search for a legal move.
use mathlib.Core.List.{Memᴰ}
use tabia_shogi_server.Common.{
  Bool, true, false, [], ◌∷◌, ◌≡◌, ◌↔◌, refl, sym, ap, ◌∙◌, inl, inr, arith, ok, is_ok, is_ok_iff,
  any, any_intro, any_elim, Option-cases, ||_split,
}
use tabia_shogi_server.Game.Position.Pieces.{
  color_eq_iff, Square, OnBoard, HandKind, hand_kinds, Move,
}
use tabia_shogi_server.Game.Position.Board.{Position, piece_at}
use tabia_shogi_server.Game.Legality.Movement.{squares}
use tabia_shogi_server.Game.Legality.Apply.{
  make_move, DropPawnMateRule, validate_with, validate_suspended, has_board_move_from, has_drop_of,
  has_legal_move, validate,
}
use tabia_shogi_server.Game.Legality.Inversion.{
  BoardMoved, Dropped, apply_board_move-eq-ok, apply_drop-eq-ok,
}
use tabia_shogi_server.Game.Legality.Effects.{OnBoardMove}
use tabia_shogi_server.Game.Legality.Geometry.{mem-squares, squares-OnBoard}

-- A reply: a move on the board that is legal but for the drop-pawn-mate rule.
pub record HasReply (p : Position) : Type 0 where
  pub reply : Move
  pub on : OnBoardMove reply
  pub next : Position
  pub legal : validate p reply DropPawnMateRule.suspended ≡ ok next

pub validate-suspended :
    (p : Position) (mv : Move) → validate p mv DropPawnMateRule.suspended ≡ validate_suspended p mv
unfolding validate validate_suspended validate_with
validate-suspended p mv = ground arith

suspended-made :
    (p : Position) (mv : Move) (q : Position)
    → validate_suspended p mv ≡ ok q
    → make_move p mv ≡ ok q
unfolding validate_suspended validate_with
suspended-made p mv q h = ground arith

reply_of :
    (p : Position) (mv : Move)
    → OnBoardMove mv
    → is_ok (validate_suspended p mv) ≡ true
    → HasReply p
reply_of p mv on h =
    let (q, e) = is_ok_iff (validate_suspended p mv) h in
    record { reply = mv; on = on; next = q; legal = validate-suspended p mv ∙ e }

reply_by_board :
    (p : Position) (from : Square) → OnBoard from → has_board_move_from p from ≡ true → HasReply p
unfolding has_board_move_from
reply_by_board p from on h = elim (Option-cases (piece_at p from)) [
  | inl e ↦ absurd (ground (arith, e))
  | inr (piece, e) ↦
      let try : Square → Bool → Bool =
        λ to promote. is_ok (validate_suspended p (Move.board from to promote)) in
      let (to, m, found) =
        any_elim (λ to. any (try to) (false ∷ true ∷ [])) squares (ground (arith, e)) in
      let (promote, n, e') = any_elim (try to) (false ∷ true ∷ []) found in
      reply_of p (Move.board from to promote) (on, squares-OnBoard m) e'
]

reply_by_drop : (p : Position) (kind : HandKind) → has_drop_of p kind ≡ true → HasReply p
unfolding has_drop_of
reply_by_drop p kind h =
    let (to, m, e) =
      any_elim (λ to. is_ok (validate_suspended p (Move.drop kind to))) squares (ground arith) in
    reply_of p (Move.drop kind to) (squares-OnBoard m) e

has_legal_move_sound : (p : Position) → has_legal_move p ≡ true → HasReply p
unfolding has_legal_move
has_legal_move_sound p h = elim (||_split _ _ h) [
  | inl boards ↦
      let (from, m, e) = any_elim (has_board_move_from p) squares boards in
      reply_by_board p from (squares-OnBoard m) e
  | inr drops ↦
      let (kind, m, e) = any_elim (has_drop_of p) hand_kinds drops in reply_by_drop p kind e
]

promote_listed : (b : Bool) → Memᴰ b (false ∷ true ∷ [])
promote_listed false = Memᴰ.head refl
promote_listed true = Memᴰ.tail (Memᴰ.head refl)

kind_listed : (k : HandKind) → Memᴰ k hand_kinds
kind_listed HandKind.rook = Memᴰ.head refl
kind_listed HandKind.bishop = Memᴰ.tail (Memᴰ.head refl)
kind_listed HandKind.gold = Memᴰ.tail (Memᴰ.tail (Memᴰ.head refl))
kind_listed HandKind.silver = Memᴰ.tail (Memᴰ.tail (Memᴰ.tail (Memᴰ.head refl)))
kind_listed HandKind.knight = Memᴰ.tail (Memᴰ.tail (Memᴰ.tail (Memᴰ.tail (Memᴰ.head refl))))
kind_listed HandKind.lance =
    Memᴰ.tail (Memᴰ.tail (Memᴰ.tail (Memᴰ.tail (Memᴰ.tail (Memᴰ.head refl)))))
kind_listed HandKind.pawn =
    Memᴰ.tail (Memᴰ.tail (Memᴰ.tail (Memᴰ.tail (Memᴰ.tail (Memᴰ.tail (Memᴰ.head refl))))))

found_board :
    (p : Position) (from to : Square) (promote : Bool) (q : Position)
    → OnBoard to
    → validate_suspended p (Move.board from to promote) ≡ ok q
    → has_board_move_from p from ≡ true
unfolding has_board_move_from make_move
found_board p from to promote q on h =
    let m : BoardMoved p p.side_to_move from to promote q =
      apply_board_move-eq-ok p p.side_to_move from to promote q
        (suspended-made p (Move.board from to promote) q h) in
    let try : Square → Bool → Bool = λ t b. is_ok (validate_suspended p (Move.board from t b)) in
    let found : any (λ t. any (try t) (false ∷ true ∷ [])) squares ≡ true =
      any_intro (λ t. any (try t) (false ∷ true ∷ [])) (mem-squares to on)
        (any_intro (try to) (promote_listed promote) (ap is_ok h)) in
    ground (arith, found, m.standing, m.own, (color_eq_iff m.piece.color p.side_to_move).1 m.own)

found_drop :
    (p : Position) (kind : HandKind) (to : Square) (q : Position)
    → OnBoard to
    → validate_suspended p (Move.drop kind to) ≡ ok q
    → has_drop_of p kind ≡ true
unfolding has_drop_of make_move
found_drop p kind to q on h =
    let d : Dropped p p.side_to_move kind to q =
      apply_drop-eq-ok p p.side_to_move kind to q (suspended-made p (Move.drop kind to) q h) in
    let found : any (λ t. is_ok (validate_suspended p (Move.drop kind t))) squares ≡ true =
      any_intro (λ t. is_ok (validate_suspended p (Move.drop kind t))) (mem-squares to on)
        (ap is_ok h) in
    ground (arith, found, d.held)

has_legal_move_complete :
    (p : Position) (mv : Move) (q : Position)
    → OnBoardMove mv
    → validate_suspended p mv ≡ ok q
    → has_legal_move p ≡ true
unfolding has_legal_move
has_legal_move_complete p (Move.board from to promote) q on h =
    let found : any (has_board_move_from p) squares ≡ true =
      any_intro (has_board_move_from p) (mem-squares from on.0)
        (found_board p from to promote q on.1 h) in
    rw found refl
has_legal_move_complete p (Move.drop kind to) q on h =
    let found : any (has_drop_of p) hand_kinds ≡ true =
      any_intro (has_drop_of p) (kind_listed kind) (found_drop p kind to q on h) in
    ground (arith, found)

-- The search answers that there is a legal move exactly if some move on the board is legal but for
-- the drop-pawn-mate rule.
pub has_legal_move_iff : (p : Position) → (has_legal_move p ≡ true) ↔ HasReply p
has_legal_move_iff p = (
  has_legal_move_sound p,
  λ r. has_legal_move_complete p r.reply r.next r.on (sym (validate-suspended p r.reply) ∙ r.legal),
)
