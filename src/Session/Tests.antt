-- ===== src/Session/Tests.antt =====
-- Runs of the clock, of a game and of an agreement, and the witnesses of the theorems about them.
use tabia_shogi_server.Common.{
  ℕ, ◌-◌, ◌<◌, ◌&&◌, if◌then◌else◌, true, false, List, [], ◌∷◌, none, some, ◌≡◌, refl, arith,
  length, get_or, ok,
}
use tabia_shogi_server.Game.Position.Pieces.{Color, PieceKind, opponent, slot}
use tabia_shogi_server.Game.Position.Board.{hirate}
use tabia_shogi_server.Game.Repetition.History.{judged}
use tabia_shogi_server.Game.Position.Hands.{hand_new}
use tabia_shogi_server.Game.Position.Board.{Position, piece_at, set_piece_at}
use tabia_shogi_server.Game.Legality.Movement.{
  steps, slides, step, ray_loop, ray, reach_slides, reach, squares, attacks_from, is_attacked_by,
  king_square, in_check, must_promote,
}
use tabia_shogi_server.Game.Legality.Apply.{
  apply_move, validate, validate_with, make_move, apply_board_move, arriving_kind, take_captured,
  move_piece,
}
use tabia_shogi_server.Common.{any, find}
use tabia_shogi_server.Session.Clock.{king_shuttle}
use tabia_shogi_server.Game.Example.{sq, pawn_push, pushed, pawn_push_ok}
use tabia_shogi_server.Game.StartSpec.{StartSpec, decode, traversal, replay, last_of}
use tabia_shogi_server.Game.Termination.{Outcome}
use tabia_shogi_server.Session.Clock.{
  TimeUnit, TimeConfig, units_of, turn_allowance, setup_t_values, increment_units, byoyomi_units,
  total_units, nanos_per_unit, first_move_index, effective_setup,
}
use tabia_shogi_server.Session.Clock.Setup.{decode-effective_setup}
use tabia_shogi_server.Session.GameTask.Reduction.{has_reduced_move, t_value, setup_t_values_iff}
use tabia_shogi_server.Session.Verdict.{Closing}
use tabia_shogi_server.Game.Declaration.{holds}
use tabia_shogi_server.Session.GameTask.Closings.{
  told, told_if, told_after, told_move, loss_of, on_time, told-loss_of,
}
use tabia_shogi_server.Session.GameTask.{
  settled, Game, PlayedMove, new, new_of, settle_setup, allowance, side_to_move, apply, ended,
  resign, suspend, declare, abort, expired,
}
use tabia_shogi_server.Session.GameTask.Events.{Event, handle_all, handle_all-finished}
use tabia_shogi_server.Session.GameTask.Consistent.{IsConsistent, first_of}
use tabia_shogi_server.Session.GameTask.Begin.{game-IsConsistent}
use tabia_shogi_server.Session.GameTask.Settlement.{FitsClock, reduction_of, new-clocks}
use tabia_shogi_server.Session.GameTask.Moves.{IsTaken, apply_iff, apply-outcome, ending_of}
use tabia_shogi_server.Session.Agreement.{has_said, starts, starts-once}

-- Ten minutes each and ten seconds a move, White with a minute less.
abbrev reduced : TimeConfig
reduced = record {
  unit = TimeUnit.second;
  total = 600000000000;
  byoyomi = none;
  increment = some 10000000000;
  least_time_per_move = 0;
  roundup = false;
  reduction = some (record { side = Color.white; amount = 60000000000 });
}

decode-effective_setup_example :
    decode (StartSpec.buoy (effective_setup (StartSpec.buoy []) reduced))
    ≡ decode (StartSpec.buoy [])
decode-effective_setup_example = decode-effective_setup [] reduced

abbrev values : List ℕ
values = 10 ∷ 70 ∷ 10 ∷ 10 ∷ []

reduced_values : setup_t_values 4 reduced ≡ some values
unfolding setup_t_values increment_units units_of nanos_per_unit first_move_index
reduced_values = refl

setup_t_values_example :
    (has_reduced_move 4 reduced ≡ true)
    × (length values ≡ 4)
    × ((i : ℕ) → i < 4 → get_or values i 0 ≡ t_value reduced i)
setup_t_values_example = (setup_t_values_iff 4 reduced values).0 reduced_values

reduced_fits : FitsClock reduced
unfolding total_units increment_units units_of nanos_per_unit
reduced_fits = record { total_fits = ground arith; reduction_fits = λ r e. ground arith }

-- Ten seconds a move and no reduction.
abbrev plain : TimeConfig
plain = record reduced { reduction = none }

-- A game from the even start, with a limit of two moves.
abbrev game : Game
game = new_of [] (StartSpec.buoy []) plain (some 2) [] hirate [] []

game_made : new [] (StartSpec.buoy []) plain (some 2) ≡ ok game
unfolding new new_of traversal replay effective_setup setup_t_values
game_made = refl

-- The positions of the king shuttle.
abbrev out_black : Position
out_black = move_piece hirate Color.black (sq 5 9) (sq 5 8) PieceKind.king

abbrev out_white : Position
out_white = move_piece out_black Color.white (sq 5 1) (sq 5 2) PieceKind.king

abbrev back_black : Position
back_black = move_piece out_white Color.black (sq 5 8) (sq 5 9) PieceKind.king

abbrev back_white : Position
back_white = move_piece back_black Color.white (sq 5 2) (sq 5 1) PieceKind.king

-- The game that begins under a reduction, with the king shuttle for its setup.
abbrev shuttled : Game
shuttled =
    new_of [] (StartSpec.buoy king_shuttle) reduced none king_shuttle hirate
      (out_black ∷ out_white ∷ back_black ∷ back_white ∷ []) values

shuttle_played :
    traversal (StartSpec.buoy king_shuttle)
    ≡ ok (hirate, out_black ∷ out_white ∷ back_black ∷ back_white ∷ [])
unfolding traversal replay apply_move validate validate_with hirate make_move apply_board_move
    arriving_kind move_piece take_captured reach reach_slides ray ray_loop step steps slides
    in_check king_square is_attacked_by attacks_from squares piece_at set_piece_at any find
    must_promote hand_new opponent
shuttle_played = refl

shuttled_made : new [] (StartSpec.buoy []) reduced none ≡ ok shuttled
unfolding new effective_setup
shuttled_made = ground (arith, shuttle_played, reduced_values)

new-clocks_example :
    slot shuttled.remaining Color.white ≡ total_units reduced - reduction_of reduced Color.white
new-clocks_example =
    new-clocks [] (StartSpec.buoy []) reduced none shuttled Color.white shuttled_made reduced_fits

game-IsConsistent_example :
    IsConsistent (handle_all game (Event.move Color.black pawn_push 5 ∷ Event.abort_all ∷ []))
game-IsConsistent_example =
    game-IsConsistent [] (StartSpec.buoy []) plain (some 2) game
      (Event.move Color.black pawn_push 5 ∷ Event.abort_all ∷ []) game_made

game_consistent : IsConsistent game
unfolding handle_all
game_consistent = game-IsConsistent [] (StartSpec.buoy []) plain (some 2) game [] game_made

game-allowance : allowance game (side_to_move game) ≡ some 610
unfolding allowance turn_allowance total_units byoyomi_units increment_units units_of nanos_per_unit
    side_to_move new_of settle_setup last_of hirate
game-allowance = refl

push-IsTaken : IsTaken game Color.black pawn_push 5 pushed
unfolding side_to_move new_of last_of
push-IsTaken = record {
  on = refl;
  turn = unfold hirate in refl;
  in_time = λ a e. ground (arith, e, game-allowance);
  legal = pawn_push_ok;
}

apply_example :
    ((m : PlayedMove) × ((apply game Color.black pawn_push 5).1 ≡ ok m))
    × ((apply game Color.black pawn_push 5).0.position ≡ pushed)
apply_example = ((apply_iff game Color.black pawn_push 5).0 pushed).1 push-IsTaken

apply-outcome_example :
    ((apply game Color.black pawn_push 5).0.outcome
      ≡ ending_of game (judged (first_of game.start) pushed game_consistent.history))
    × (slot (apply game Color.black pawn_push 5).0.remaining Color.black
        ≡ settled (slot game.remaining Color.black) (increment_units game.time) 5)
    × (slot (apply game Color.black pawn_push 5).0.remaining (opponent Color.black)
        ≡ slot game.remaining (opponent Color.black))
apply-outcome_example =
    apply-outcome game Color.black pawn_push 5 pushed game_consistent push-IsTaken

handle_all-finished_example :
    handle_all
      (ended game Outcome.aborted)
      (Event.move Color.black pawn_push 5 ∷ Event.deadline 700 ∷ [])
    ≡ ended game Outcome.aborted
handle_all-finished_example =
    handle_all-finished (Event.move Color.black pawn_push 5 ∷ Event.deadline 700 ∷ [])
      (ended game Outcome.aborted) Outcome.aborted refl

told-loss_of_example :
    (told (resign game Color.white 5).1 Color.black ≡ some (loss_of Color.white Color.black))
    × (told (suspend game (side_to_move game) 5).1 Color.black
        ≡ some (loss_of (side_to_move game) Color.black))
    × (told (declare game (side_to_move game) 5).1 Color.black
        ≡ some (
            loss_of
              (if on_time game 5 && holds game.position (side_to_move game)
                then opponent (side_to_move game)
                else side_to_move game)
              Color.black))
    × (told (abort game).1 Color.black ≡ some Closing.censored)
    × (told_if (expired game 5).1 Color.black
        ≡ (if on_time game 5 then none else some (loss_of (side_to_move game) Color.black)))
    × (told_after (apply game (side_to_move game) pawn_push 5).0 Color.black
        ≡ told_move game pawn_push 5 Color.black)
unfolding new_of
told-loss_of_example = told-loss_of game pawn_push Color.white Color.black 5 refl

starts_example : starts (Color.black ∷ Color.white ∷ Color.black ∷ []) ≡ 1
unfolding has_said
starts_example = starts-once (Color.black ∷ Color.white ∷ Color.black ∷ [])
