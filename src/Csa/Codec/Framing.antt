-- ===== src/Csa/Codec/Framing.antt =====
-- src/csa/codec.rs: a line written is the line read.
use tabia_shogi_server.Common.{
  ℕ, ◌≤◌, Bool, true, false, none, some, List, [], ◌∷◌, ◌++◌, ltb, ◌==◌, length, any, ok, ◌≡◌, refl,
  ap, arith,
}
use tabia_shogi_server.Csa.Codec.{
  max_line_len, read_limit, Reader, before_last, strip_suffix, without_return, is_nothing,
  checked_line, line_in, read_line, write_line,
}

strip_suffix-append : (last : ℕ) (line : List ℕ) → strip_suffix last (line ++ last ∷ []) ≡ some line
unfolding strip_suffix
strip_suffix-append last [] = ground arith
strip_suffix-append last (b ∷ []) = ground arith
strip_suffix-append last (b ∷ c ∷ line) = ap (before_last b) (strip_suffix-append last (c ∷ line))

filled : (line : List ℕ) → is_nothing (line ++ 10 ∷ []) ≡ false
filled [] = refl
filled (b ∷ line) = refl

module _ (reader : Reader) (is_utf8 : List ℕ → Bool) where
  open reader use {read_until, read_until-line}

  line_in-written :
      (line : List ℕ)
      → length line ≤ max_line_len
      → strip_suffix 13 line ≡ none
      → is_utf8 line ≡ true
      → line_in reader is_utf8 (line ++ 10 ∷ []) ≡ ok (some line)
  unfolding line_in
  line_in-written line h e u =
      let short : ltb max_line_len (length line) ≡ false = ground (arith, h) in
      let kept : without_return line ≡ line = unfold without_return in ground (arith, e) in
      let good : checked_line reader is_utf8 line ≡ ok (some line) =
        unfold checked_line in ground (arith, short, u) in
      rw (line_in, filled line, strip_suffix-append 10 line, kept) good

  -- A line of UTF-8 with at most 2048 bytes, without a line feed and not ending in a carriage return, is
  -- read back as it was written, from the front of a stream, and what follows it is left to read.
  pub read_line-write_line :
      (line rest : List ℕ)
      → length line ≤ max_line_len
      → any (λ b. b == 10) line ≡ false
      → strip_suffix 13 line ≡ none
      → is_utf8 line ≡ true
      → read_line reader is_utf8 (write_line [] line ++ rest) ≡ (ok (some line), rest)
  unfolding read_line write_line
  read_line-write_line line rest h n e u =
      let stream : (line ++ 10 ∷ []) ++ rest ≡ line ++ 10 ∷ rest = append_line line rest in
      let whole = read_until-line read_limit line rest n (omega (arith, h)) in
      rw (stream, read_line, whole, line_in-written line h e u) refl
    where
      append_line : (l r : List ℕ) → (l ++ 10 ∷ []) ++ r ≡ l ++ 10 ∷ r
      append_line [] r = refl
      append_line (b ∷ l) r = ap (λ t. b ∷ t) (append_line l r)
