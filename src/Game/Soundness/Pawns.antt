-- ===== src/Game/Soundness/Pawns.antt =====
-- Legal moves make no second pawn on a file, and leave no piece without a further move.
use mathlib.Core.List.{Memᴰ}
use tabia_shogi_server.Common.Int.{pos, negsuc, ◌+ℤ◌, neg}
use tabia_shogi_server.Common.{
  ℕ, Bool, true, false, some, if◌then◌else◌, ◌≡◌, ◌≢◌, refl, sym, ◌∙◌, ap, subst, ok, ◌⊎◌, inl, inr,
  arith, Bool-cases, any_intro, mem-filter_map, mem-numbers,
}
use tabia_shogi_server.Game.Position.Pieces.{
  Color, Square, OnBoard, square_new, square_eq, square_eq_iff, PieceKind, promoted, HandKind,
  to_piece_kind, holds_piece,
}
use tabia_shogi_server.Game.Position.Board.{Position, IsPosition, piece_at}
use tabia_shogi_server.Game.Legality.Movement.{
  Reach, reach, oriented, steps, slides, must_promote, is_dead_drop, has_unpromoted_pawn_on_file,
}
use tabia_shogi_server.Game.Legality.Apply.{arriving_kind, is_pawn}
use tabia_shogi_server.Game.Legality.Inversion.{BoardMoved, Dropped}
use tabia_shogi_server.Game.Legality.Geometry.{Shift, square_new_of_OnBoard, holds_piece_complete}
use tabia_shogi_server.Game.Legality.Reaching.{CanReach, by_step, by_slide, reach_iff}
use tabia_shogi_server.Game.Soundness.Defs.{pawn_of, HasNoNifu, HasNoDeadPiece}
use tabia_shogi_server.Game.Soundness.Moves.{piece_at-BoardMoved, piece_at-Dropped}

same_file : {x y : ℕ} (c : Color) → pos y ≡ pos x +ℤ (oriented (pos 0, negsuc 0) c).0 → x ≡ y
unfolding neg ◌+ℤ◌
same_file Color.black e = ground arith
same_file Color.white e = ground arith

-- A pawn moves straight ahead.
pawn_steps_straight :
    (c : Color) (from to : Square) (p : Position)
    → CanReach p from (pawn_of c) to
    → from.file ≡ to.file
unfolding steps slides
pawn_steps_straight c from to p (by_step δ (Memᴰ.head e) shift) =
    same_file c (subst (λ d. Shift (oriented d c) from to) e shift).1
pawn_steps_straight c from to p (by_step δ (Memᴰ.tail m) shift) = elim m [ ]
pawn_steps_straight c from to p (by_slide δ m line) = elim m [ ]

arriving_pawn :
    (k : PieceKind) (c : Color) (from to : Square) (promote : Bool)
    → arriving_kind k c from to promote ≡ ok PieceKind.pawn
    → k ≡ PieceKind.pawn
unfolding arriving_kind promoted
arriving_pawn k c from to promote h = ground arith

arriving_alive :
    (k : PieceKind) (c : Color) (from to : Square) (promote : Bool) (arriving : PieceKind)
    → arriving_kind k c from to promote ≡ ok arriving
    → must_promote arriving c to ≡ false
unfolding arriving_kind promoted must_promote
arriving_alive k c from to promote arriving h = ground arith

module _ {p q : Position} {c : Color} {from to : Square} {promote : Bool} (valid : IsPosition p)
    (m : BoardMoved p c from to promote q) (on_from : OnBoard from) (on_to : OnBoard to) where
  -- Where what stands on a square after the move stood before it.
  origin : Square → Square
  origin s = if square_eq to s then from else s

  pawn_origin :
      (d : Color) (s : Square)
      → OnBoard s
      → piece_at q s ≡ some (pawn_of d)
      → OnBoard (origin s)
        × ((origin s).file ≡ s.file)
        × (piece_at p (origin s) ≡ some (pawn_of d))
        × (((to ≡ s) × (origin s ≡ from)) ⊎ ((origin s ≡ s) × (origin s ≢ from)))
  unfolding origin
  pawn_origin d s on h = elim (Bool-cases (square_eq to s)) [
    | inl here ↦
        let placed : some (record { kind = m.arriving; color = c }) ≡ some (pawn_of d) =
          ground (arith, piece_at-BoardMoved valid m on_from on_to s on, h, here) in
        let pawn : m.piece ≡ pawn_of c =
          ground (arith, arriving_pawn m.piece.kind c from to promote, m.arrives, m.own, placed) in
        let straight : from.file ≡ to.file = pawn_steps_straight c from to p (
          (reach_iff p from (pawn_of c) to on_from).0
            (subst (λ x. reach p from x to ≡ Reach.reaches) pawn m.reached)) in
        rw here (
          on_from,
          ground (arith, straight, square_eq_iff to s),
          ground (arith, m.standing, pawn, placed),
          inl ((square_eq_iff to s).0 here, refl),
        )
    | inr away ↦
        let (still, kept) : (square_eq from s ≡ false) × (piece_at p s ≡ some (pawn_of d)) =
          ground (arith, piece_at-BoardMoved valid m on_from on_to s on, h, away) in
        let elsewhere : s ≢ from = ground (arith, still, square_eq_iff from s) in
        rw away (on, refl, kept, inr (refl, elsewhere))
  ]

  pub HasNoNifu-BoardMoved : HasNoNifu p → HasNoNifu q
  HasNoNifu-BoardMoved clean d s t on_s on_t same at_s at_t =
      let (so, sf, sp, sc) = pawn_origin d s on_s at_s in
      let (to', tf, tp, tc) = pawn_origin d t on_t at_t in
      let one : origin s ≡ origin t =
        clean d (origin s) (origin t) so to' (sf ∙ same ∙ sym tf) sp tp in
      elim sc [
        | inl (s_here, s_from) ↦ elim tc [
          | inl (t_here, _) ↦ sym s_here ∙ t_here
          | inr (_, t_away) ↦ absurd (t_away (sym one ∙ s_from))
        ]
        | inr (s_same, s_away) ↦ elim tc [
          | inl (_, t_from) ↦ absurd (s_away (one ∙ t_from))
          | inr (t_same, _) ↦ sym s_same ∙ one ∙ t_same
        ]
      ]

  pub HasNoDeadPiece-BoardMoved : HasNoDeadPiece p → HasNoDeadPiece q
  HasNoDeadPiece-BoardMoved alive s x on h = ground (
    arith,
    piece_at-BoardMoved valid m on_from on_to s on,
    arriving_alive m.piece.kind c from to promote m.arriving m.arrives,
    square_eq_iff to s,
    alive s x on,
  )

-- A pawn on a file is found by the test for two pawns.
pawn_on_file :
    (p : Position) (c : Color) (s : Square)
    → OnBoard s
    → piece_at p s ≡ some (pawn_of c)
    → has_unpromoted_pawn_on_file p c s.file ≡ true
unfolding has_unpromoted_pawn_on_file
pawn_on_file p c s on h =
    any_intro (λ square. holds_piece (piece_at p square) (pawn_of c))
      (mem-filter_map (λ rank. square_new s.file rank)
        (mem-numbers 1 9 s.rank (omega arith) (omega arith)) (square_new_of_OnBoard s on))
      (holds_piece_complete (piece_at p s) (pawn_of c) h)

is_pawn_of_kind : (k : HandKind) → to_piece_kind k ≡ PieceKind.pawn → is_pawn k ≡ true
unfolding to_piece_kind
is_pawn_of_kind k h = ground arith

module _ {p q : Position} {c : Color} {piece : HandKind} {to : Square} (valid : IsPosition p)
    (d : Dropped p c piece to q) (on_to : OnBoard to) where
  -- Where a pawn was dropped, the file held none of the same side.
  no_other :
      (e : Color) (s t : Square)
      → to ≡ s
      → OnBoard s
      → OnBoard t
      → s.file ≡ t.file
      → piece_at q s ≡ some (pawn_of e)
      → piece_at p t ≡ some (pawn_of e)
      → ⊥
  no_other e s t here on_s on_t same at_s at_t =
      let placed : some (record { kind = to_piece_kind piece; color = c }) ≡ some (pawn_of e) =
        ground (arith, piece_at-Dropped valid d on_to s on_s, square_eq_iff to s) in
      ground (
        arith,
        is_pawn_of_kind piece,
        pawn_on_file p c t on_t,
        d.no_nifu,
        placed,
        ap (λ (x : Square). x.file) here,
        ap (has_unpromoted_pawn_on_file p c) (ap (λ (x : Square). x.file) here ∙ same),
      )

  pub HasNoNifu-Dropped : HasNoNifu p → HasNoNifu q
  HasNoNifu-Dropped clean e s t on_s on_t same at_s at_t = elim (Bool-cases (square_eq to s)) [
    | inl s_here ↦ elim (Bool-cases (square_eq to t)) [
      | inl t_here ↦ sym ((square_eq_iff to s).0 s_here) ∙ (square_eq_iff to t).0 t_here
      | inr t_away ↦ absurd (
          no_other e s t ((square_eq_iff to s).0 s_here) on_s on_t same at_s
            (ground (arith, piece_at-Dropped valid d on_to t on_t)))
    ]
    | inr s_away ↦ elim (Bool-cases (square_eq to t)) [
      | inl t_here ↦ absurd (
          no_other e t s ((square_eq_iff to t).0 t_here) on_t on_s (sym same) at_t
            (ground (arith, piece_at-Dropped valid d on_to s on_s)))
      | inr t_away ↦
          clean e s t on_s on_t same (ground (arith, piece_at-Dropped valid d on_to s on_s))
            (ground (arith, piece_at-Dropped valid d on_to t on_t))
    ]
  ]

  pub HasNoDeadPiece-Dropped : HasNoDeadPiece p → HasNoDeadPiece q
  unfolding is_dead_drop
  HasNoDeadPiece-Dropped alive s x on h =
      ground (arith, piece_at-Dropped valid d on_to s on, d.alive, square_eq_iff to s, alive s x on)
