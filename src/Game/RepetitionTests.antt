-- ===== src/Game/RepetitionTests.antt =====
-- Runs of the repetition rule, and the witnesses of the theorems about it.
use tabia_shogi_server.Common.{
  ℕ, zero, suc, true, List, ◌∷◌, ◌≡◌, refl, ap, ◌∙◌, arith, any, find, snoc, replicate,
}
use tabia_shogi_server.Game.Position.Pieces.{Color, opponent, PieceKind}
use tabia_shogi_server.Game.Position.Board.{Position, empty_position, place, piece_at}
use tabia_shogi_server.Game.Legality.Movement.{
  steps, slides, step, ray_loop, ray, reach_slides, reach, squares, attacks_from, is_attacked_by,
  king_square, in_check,
}
use tabia_shogi_server.Game.Repetition.{Position-discrete, Verdict}
use tabia_shogi_server.Game.Repetition.Counts.{occurrences}
use tabia_shogi_server.Game.Repetition.History.{
  mover, gave_check, verdict_of, judged, verdict_of-judged, run, run_occurrences, started,
  IsPerpetualCheck, verdict_of-perpetual,
}

-- White's king to move, with a gold of Black's before it.
abbrev facing : Position
facing =
    let p₁ = place empty_position 5 1 Color.white PieceKind.king in
    let p₂ = place p₁ 5 2 Color.black PieceKind.gold in record p₂ { side_to_move = Color.white }

facing_check : gave_check facing ≡ true
unfolding gave_check place piece_at in_check king_square is_attacked_by attacks_from reach
    reach_slides ray ray_loop step steps slides squares any find opponent
facing_check = refl

facing-mover : mover facing ≡ Color.black
unfolding mover opponent place
facing-mover = refl

abbrev checks : List Position
checks = replicate 4 facing

occurrences-replicate : (p : Position) (n : ℕ) → occurrences Position-discrete p (replicate n p) ≡ n
unfolding occurrences
occurrences-replicate p zero = refl
occurrences-replicate p (suc n) = ground (arith, occurrences-replicate p n)

run_of_checks :
    (p : Position) (n : ℕ)
    → gave_check p ≡ true
    → mover p ≡ Color.black
    → started (run Color.black (replicate n p)) ≡ replicate n p
unfolding run
run_of_checks p zero g m = refl
run_of_checks p (suc n) g m = rw (m, g) (ap (◌∷◌ p) (run_of_checks p n g m))

facing_often : occurrences Position-discrete facing (snoc checks facing) ≡ 5
facing_often = occurrences-replicate facing 5

facing_run : run_occurrences Color.black facing checks ≡ 4
unfolding run_occurrences
facing_run = rw (run_of_checks facing 4 facing_check facing-mover) (occurrences-replicate facing 4)

facing_loses : verdict_of facing facing (replicate 3 facing) ≡ Verdict.perpetual_check Color.black
facing_loses =
    verdict_of-judged facing facing (replicate 3 facing)
    ∙ rw (facing-mover, facing_often, facing_run) refl

verdict_of-judged_example :
    verdict_of facing facing (replicate 3 facing) ≡ judged facing facing (replicate 3 facing)
verdict_of-judged_example = verdict_of-judged facing facing (replicate 3 facing)

verdict_of-perpetual_example : IsPerpetualCheck facing facing (replicate 3 facing) Color.black
verdict_of-perpetual_example =
    verdict_of-perpetual facing facing (replicate 3 facing) Color.black facing_loses
