-- ===== src/Csa/Tests.antt =====
-- Runs of the notation, and the witnesses of the theorems about it.
use tabia_shogi_server.Common.{ℕ, List, [], ◌∷◌, some, ◌≡◌, refl, subst, ok, arith}
use tabia_shogi_server.Game.Position.Pieces.{Color, OnBoard, PieceKind, square_new}
use tabia_shogi_server.Game.Position.Board.{hirate, piece_at}
use tabia_shogi_server.Game.Example.{sq, pawn_push}
use tabia_shogi_server.Csa.Notation.{
  WrittenMove, parse, parse_color, parse_rest, parse_from, parse_to, parse_square, digit, kind_of,
  display, of, resolve,
}
use tabia_shogi_server.Csa.Notation.RoundTrip.{IsOnBoard, parse-display, display-parse, resolve-of}

abbrev written : WrittenMove
written = record { color = Color.black; from = some (sq 7 7); to = sq 7 6; kind = PieceKind.pawn }

-- `+7776FU`
abbrev line : List ℕ
line = 43 ∷ 55 ∷ 55 ∷ 55 ∷ 54 ∷ 70 ∷ 85 ∷ []

low : OnBoard (sq 7 7)
low = record {
  file_low = ground arith;
  file_high = ground arith;
  rank_low = ground arith;
  rank_high = ground arith;
}

written-IsOnBoard : IsOnBoard written
written-IsOnBoard = record {
  source = λ s e. subst (λ x. OnBoard x) (ground arith) low;
  target = record {
    file_low = ground arith;
    file_high = ground arith;
    rank_low = ground arith;
    rank_high = ground arith;
  };
}

line_read : parse line ≡ ok written
unfolding parse parse_color parse_rest parse_from parse_to parse_square digit kind_of square_new
line_read = refl

parse-display_example : parse (display written) ≡ ok written
parse-display_example = parse-display written written-IsOnBoard

display-parse_example : display written ≡ line
display-parse_example = display-parse line written line_read

push_written : of hirate.side_to_move pawn_push hirate ≡ ok written
unfolding of piece_at hirate
push_written = refl

resolve-of_example : resolve written hirate ≡ ok pawn_push
resolve-of_example = resolve-of hirate pawn_push written push_written
