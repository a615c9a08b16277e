-- ===== src/Game/Soundness/Kings.antt =====
-- Legal moves capture no king, and leave each side exactly one.
use tabia_shogi_server.Common.{
  Bool, true, false, some, ◌≡◌, ◌≢◌, sym, ◌∙◌, ap, subst, ok, inl, inr, arith, Option-cases,
  Bool-cases,
}
use tabia_shogi_server.Game.Position.Pieces.{
  Color, opponent, opponent-opponent, opponent-ne, color_eq_iff, Square, OnBoard, square_eq,
  square_eq_iff, PieceKind, promoted, HandKind, to_piece_kind,
}
use tabia_shogi_server.Game.Position.Board.{Position, IsPosition, piece_at}
use tabia_shogi_server.Game.Legality.Movement.{must_promote, is_attacked_by, king_square, in_check}
use tabia_shogi_server.Game.Legality.Apply.{arriving_kind}
use tabia_shogi_server.Game.Legality.Inversion.{BoardMoved, Dropped}
use tabia_shogi_server.Game.Legality.Geometry.{
  king_of, Attack, is_attacked_by_complete, king_square-some, king_square-none,
}
use tabia_shogi_server.Game.Soundness.Defs.{HasOneKing}
use tabia_shogi_server.Game.Soundness.Moves.{piece_at-BoardMoved, piece_at-Dropped}

arriving_king :
    (k : PieceKind) (c : Color) (from to : Square) (promote : Bool) (a : PieceKind)
    → arriving_kind k c from to promote ≡ ok a
    → (k ≡ PieceKind.king → a ≡ PieceKind.king) × (a ≡ PieceKind.king → k ≡ PieceKind.king)
unfolding arriving_kind promoted must_promote
arriving_king k c from to promote a h = (λ e. ground arith, λ e. ground arith)

-- A king that stands alone in its color and is attacked is in check.
in_check_of_Attack :
    (p : Position) (c : Color) (s : Square)
    → OnBoard s
    → HasOneKing p c
    → piece_at p s ≡ some (king_of c)
    → Attack p s (opponent c)
    → in_check p c ≡ true
unfolding in_check
in_check_of_Attack p c s on one h attack = elim (Option-cases (king_square p c)) [
  | inl e ↦ absurd (king_square-none p c s e on h)
  | inr (k, e) ↦
      let (on_k, at_k) = king_square-some p c k e in
      let same : s ≡ k = one.only s on h ∙ sym (one.only k on_k at_k) in
      rw (e, in_check)
        (subst (λ x. is_attacked_by p x (opponent c) ≡ true) same
          (is_attacked_by_complete p s (opponent c) attack))
]

module _ {p q : Position} {c : Color} {from to : Square} {promote : Bool} (valid : IsPosition p)
    (m : BoardMoved p c from to promote q) (on_from : OnBoard from) (on_to : OnBoard to)
    (safe : in_check p (opponent c) ≡ false) (kings : (d : Color) → HasOneKing p d) where
  -- A piece that could take the other king attacks it, and it would stand in check.
  king_not_captured : piece_at p to ≢ some (king_of (opponent c))
  king_not_captured h =
      let attack : Attack p to (opponent (opponent c)) = record {
        from = from;
        on = on_from;
        piece = m.piece;
        standing = m.standing;
        owner = m.own ∙ sym (opponent-opponent c);
        reached = m.reached;
      } in
      ground (arith, in_check_of_Attack p (opponent c) to on_to (kings (opponent c)) h attack, safe)

  -- The mover's own king is not where the move goes.
  not_onto_own : (s : Square) → piece_at p s ≡ some (king_of c) → square_eq to s ≡ false
  not_onto_own s h = elim (Bool-cases (square_eq to s)) [
    | inl here ↦
        let e : piece_at p to ≡ some (king_of c) =
          ap (piece_at p) ((square_eq_iff to s).0 here) ∙ h in
        ground (arith, m.not_own_target, e, color_eq_iff c c)
    | inr away ↦ away
  ]

  not_onto_other :
      (s : Square) → piece_at p s ≡ some (king_of (opponent c)) → square_eq to s ≡ false
  not_onto_other s h = elim (Bool-cases (square_eq to s)) [
    | inl here ↦ absurd (king_not_captured (ap (piece_at p) ((square_eq_iff to s).0 here) ∙ h))
    | inr away ↦ away
  ]

  not_from_other :
      (s : Square) → piece_at p s ≡ some (king_of (opponent c)) → square_eq from s ≡ false
  not_from_other s h = elim (Bool-cases (square_eq from s)) [
    | inl here ↦
        let e : piece_at p from ≡ some (king_of (opponent c)) =
          ap (piece_at p) ((square_eq_iff from s).0 here) ∙ h in
        absurd (opponent-ne c (ground (arith, e, m.standing, m.own)))
    | inr away ↦ away
  ]

  -- Where the king did not walk, it is not what the move put down.
  not_landed :
      (t : Square)
      → OnBoard t
      → piece_at q t ≡ some (king_of c)
      → square_eq from (kings c).king ≡ false
      → square_eq to t ≡ false
  not_landed t on h stays = elim (Bool-cases (square_eq to t)) [
    | inl here ↦
        let landed : m.arriving ≡ PieceKind.king =
          ground (arith, piece_at-BoardMoved valid m on_from on_to t on, here, h) in
        let walked : m.piece.kind ≡ PieceKind.king =
          (arriving_king m.piece.kind c from to promote m.arriving m.arrives).1 landed in
        let at_from : piece_at p from ≡ some (king_of c) =
          ground (arith, m.standing, m.own, walked) in
        ground
          (arith, stays, square_eq_iff from (kings c).king, (kings c).only from on_from at_from)
    | inr away ↦ away
  ]

  own_king : HasOneKing q c
  own_king = elim (Bool-cases (square_eq from (kings c).king)) [
    | inl walks ↦
        let e : from ≡ (kings c).king = (square_eq_iff from (kings c).king).0 walks in
        let k : m.arriving ≡ PieceKind.king = ground (
          arith,
          arriving_king m.piece.kind c from to promote m.arriving m.arrives,
          m.standing,
          (kings c).standing,
          e,
          ap (piece_at p) e,
        ) in
        record {
          king = to;
          on = on_to;
          standing =
              ground
                (arith, piece_at-BoardMoved valid m on_from on_to to on_to, square_eq_iff to to, k);
          only = λ t on h. ground (
            arith,
            piece_at-BoardMoved valid m on_from on_to t on,
            square_eq_iff to t,
            square_eq_iff from t,
            (kings c).only t on,
            e,
          );
        }
    | inr stays ↦ record {
      king = (kings c).king;
      on = (kings c).on;
      standing = ground (
        arith,
        piece_at-BoardMoved valid m on_from on_to (kings c).king (kings c).on,
        not_onto_own (kings c).king (kings c).standing,
        stays,
        (kings c).standing,
      );
      only = λ t on h. ground (
        arith,
        piece_at-BoardMoved valid m on_from on_to t on,
        not_landed t on h stays,
        (kings c).only t on,
      );
    }
  ]

  other_king : HasOneKing q (opponent c)
  other_king = record {
    king = (kings (opponent c)).king;
    on = (kings (opponent c)).on;
    standing = ground (
      arith,
      piece_at-BoardMoved valid m on_from on_to (kings (opponent c)).king (kings (opponent c)).on,
      not_onto_other (kings (opponent c)).king (kings (opponent c)).standing,
      not_from_other (kings (opponent c)).king (kings (opponent c)).standing,
      (kings (opponent c)).standing,
    );
    only = λ t on h. ground (
      arith,
      piece_at-BoardMoved valid m on_from on_to t on,
      opponent-ne c,
      (kings (opponent c)).only t on,
    );
  }

-- A color is the mover's or the opponent's.
pub of_both_colors {ℓ} : (P : Color → Type ℓ) (c : Color) → P c → P (opponent c) → (d : Color) → P d
unfolding opponent
of_both_colors P Color.black own other Color.black = own
of_both_colors P Color.black own other Color.white = other
of_both_colors P Color.white own other Color.black = other
of_both_colors P Color.white own other Color.white = own

module _ {p q : Position} {c : Color} {from to : Square} {promote : Bool} (valid : IsPosition p)
    (m : BoardMoved p c from to promote q) (on_from : OnBoard from) (on_to : OnBoard to)
    (safe : in_check p (opponent c) ≡ false) (kings : (d : Color) → HasOneKing p d) where
  pub HasOneKing-BoardMoved : (d : Color) → HasOneKing q d
  HasOneKing-BoardMoved =
      of_both_colors (HasOneKing q) c (own_king valid m on_from on_to safe kings)
        (other_king valid m on_from on_to safe kings)

not_king_of_hand : (k : HandKind) → to_piece_kind k ≢ PieceKind.king
unfolding to_piece_kind
not_king_of_hand k h = ground arith

module _ {p q : Position} {c : Color} {piece : HandKind} {to : Square} (valid : IsPosition p)
    (d : Dropped p c piece to q) (on_to : OnBoard to) (kings : (e : Color) → HasOneKing p e) where
  vacant_of : (e : Color) (s : Square) → piece_at p s ≡ some (king_of e) → square_eq to s ≡ false
  vacant_of e s h = elim (Bool-cases (square_eq to s)) [
    | inl here ↦
        let e' : piece_at p to ≡ some (king_of e) =
          ap (piece_at p) ((square_eq_iff to s).0 here) ∙ h in
        ground (arith, d.vacant, e')
    | inr away ↦ away
  ]

  pub HasOneKing-Dropped : (e : Color) → HasOneKing q e
  HasOneKing-Dropped e = record {
    king = (kings e).king;
    on = (kings e).on;
    standing = ground (
      arith,
      piece_at-Dropped valid d on_to (kings e).king (kings e).on,
      (kings e).standing,
      vacant_of e (kings e).king (kings e).standing,
    );
    only = λ t on h.
        ground
          (arith, piece_at-Dropped valid d on_to t on, not_king_of_hand piece, (kings e).only t on);
  }
