-- ===== src/Csa/Codec.antt =====
-- src/csa/codec.rs: lines framed in a stream of bytes. The stream is what is left to read of it, and no
-- read of it fails: the reading is a parameter, as is which bytes are UTF-8.
pub mod Framing
pub mod Held
use tabia_shogi_server.Common.{
  ℕ, zero, suc, ◌+◌, ◌<◌, any, ◌≡◌, Bool, true, false, not, Option, none, some, List, [], ◌∷◌, ◌++◌,
  ltb, ◌==◌, if◌then◌else◌, length, Result, ok, err,
}

abbrev pub max_line_len : ℕ
max_line_len = 2048

-- A line's content, and room for its terminator.
abbrev pub read_limit : ℕ
read_limit = 2050

pub data Error : Type 0 where
  line_too_long invalid_utf8 unexpected_eof : Error

-- What the code asks of the bytes it reads from: up to a line feed and with it, or up to a limit; what
-- is read, and what is left. A line feed within the limit ends what is read.
pub record Reader : Type 0 where
  pub read_until : ℕ → List ℕ → List ℕ × List ℕ
  pub read_until-line :
      (limit : ℕ) (line rest : List ℕ)
      → any (λ b. b == 10) line ≡ false
      → length line < limit
      → read_until limit (line ++ 10 ∷ rest) ≡ (line ++ 10 ∷ [], rest)

abbrev pub before_last : ℕ → Option (List ℕ) → Option (List ℕ)
before_last b none = none
before_last b (some l) = some (b ∷ l)

-- `strip_suffix` of one byte
unfoldable pub strip_suffix : ℕ → List ℕ → Option (List ℕ)
strip_suffix last [] = none
strip_suffix last (b ∷ []) = if b == last then some [] else none
strip_suffix last (b ∷ c ∷ l) = before_last b (strip_suffix last (c ∷ l))

-- `strip_suffix(b"\r").unwrap_or(line)`
unfoldable pub without_return : List ℕ → List ℕ
without_return l = elim (strip_suffix 13 l) [ none ↦ l | some shorter ↦ shorter ]

abbrev pub is_nothing : List ℕ → Bool
is_nothing [] = true
is_nothing (b ∷ l) = false

module _ (reader : Reader) (is_utf8 : List ℕ → Bool) where
  open reader use {read_until}

  -- The checks of a line, without its terminator.
  unfoldable pub checked_line : List ℕ → Result Error (Option (List ℕ))
  checked_line line =
      if ltb max_line_len (length line)
      then err Error.line_too_long
      else if is_utf8 line
      then ok (some line)
      else err Error.invalid_utf8

  unfoldable pub line_in : List ℕ → Result Error (Option (List ℕ))
  line_in buf = if is_nothing buf then ok none else elim (strip_suffix 10 buf) [
    | none ↦ err (if length buf == read_limit then Error.line_too_long else Error.unexpected_eof)
    | some line ↦ checked_line (without_return line)
  ]

  unfoldable pub read_line : List ℕ → Result Error (Option (List ℕ)) × List ℕ
  read_line stream = let (buf, rest) = read_until read_limit stream in (line_in buf, rest)

-- What is written, after what was written before.
unfoldable pub write_line : List ℕ → List ℕ → List ℕ
write_line stream line = stream ++ (line ++ 10 ∷ [])
