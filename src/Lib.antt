-- ===== src/Lib.antt =====
-- A model of the shogi server (a server of the CSA protocol, in Rust) and the theorems about it.
--
-- The parts and where they are modelled:
--   * The rules, src/game/. A `Position` is a board of nine ranks of nine files, two hands and the
--     side to move (position.rs: Game/Position, its pieces, hands and board in the files below).
--     `apply_move` (legality.rs: Game/Legality/Movement for patterns and attacks, Game/Legality/Apply
--     for moves) answers with the next position or the reason of a refusal. repetition.rs counts
--     positions and checks (Game/Repetition), declaration.rs is the 27-point declaration
--     (Game/Declaration), start_spec.rs replays setup sequences (Game/StartSpec), termination.rs
--     lists the outcomes (Game/Termination).
--   * One game, src/session/game_task.rs. `Game` is its whole state; `apply`, `resign`, `abort`,
--     `declare`, `suspend` and `expired` are its commands, each a function from a game to the game
--     after it and the answer (Session/GameTask). What an outcome means to the two sides and to the
--     record is in Session/Verdict, and what the commands tell them by it in
--     Session/GameTask/Closings. A game calls the rules, the repetition recorder and the clock.
--   * The clock, src/session/clock.rs: charges, allowances, deadlines and the T-values of a setup
--     sequence (Session/Clock), with the time types of src/config/model.rs.
--   * The wire, src/csa/: the lines in a stream of bytes (codec.rs: Csa/Codec, where the reading of
--     bytes is the parameter `Reader`), the commands that clients send (command.rs: Csa/Command) and
--     moves as the protocol writes them (notation.rs: Csa/Notation).
--   * A matchmaking round, src/session/matchmaker.rs: `pair_round` splits a pool into normal engines
--     and presets, orders each half by the cost of its pairs, joins the leftover to a preset and
--     keeps the cap (Session/Pool, Session/Ordering, Session/Matchmaker); the games that come of it
--     get identifiers (Session/GameIds). Its random numbers come from a parameter, `Rng`
--     (Session/Random), of which it is asked that a draw below a bound is below it.
--   * The preset engines, src/session/presets.rs: `plan` says which a round starts, stops and breaks
--     off (Session/Presets); the supervisor of their processes starts residents again after a wait
--     (Session/Presets/Supervisor). It reads the list that src/config/model.rs checks
--     (Config/PresetEngines). Of a process it is known when it was started and if it has ended.
--   * The calendar, src/stamp.rs (Stamp) and src/config/timestamp.rs (Config/Timestamp). Which moments
--     the platform's clock holds is the parameter `is_representable`.
--   * The agreement to an offered game, src/session/agreement.rs (Session/Agreement).
-- A mutable `&mut self` is the state passed in and the state handed back. `Result` is Common's
-- `Result`, `HashMap` an association list, `[T; 2]` a record of two
-- slots, and `Vec` a list.
--
-- Numbers are native; a saturating operation is written as `min` with the largest value of its type,
-- a `Duration` is its nanoseconds and a `SystemTime` its nanoseconds from the epoch, a `u8` count
-- of a hand stops at 255, a character is its code point. Squares are records of a
-- file and a rank; that they lie on the board, which the source's constructor sees to, is the
-- hypothesis `OnBoard`.
--
-- The ray of a sliding piece runs on a fuel of 17, more than the squares that any line of the board
-- has; that the fuel is enough is part of `reach_iff`. The digits of a written number run on a fuel
-- of 20, as many as a 64-bit number has.
-- `validate` searches for a reply to a pawn drop by validating under the suspended rule, where the
-- search is not called again; the model writes the two uses as `validate_with` and its instances.
-- `setup_t_values` panics on a sequence too short for a reduction; that is `none`, and
-- `NewError.panicked` for the game.
--
-- The search through the orders of at most seven engines (`exhaustive`) runs on a fuel of 13,700, one
-- more than the rounds that seven take; that it is enough is `exhaustive-ends`.
--
-- Not modelled: the rest of the wire vocabulary (src/csa/), the rest of the configuration file
-- (src/config/), the choice of a start by scores in floating point (`select_start`), the phases of a
-- pairing, connections and the server around the games (the rest of src/session/), ratings and the
-- other services, storage, the web pages, authentication and the process. Texts for display are left
-- out.
pub mod Common
pub mod Config
pub mod Stamp
pub mod Game
pub mod Session
pub mod Csa
