-- ===== src/Session/GameIds/Minting.antt =====
-- src/session/matchmaker.rs: the round of a minted identifier is read back.
use tabia_shogi_server.Common.Text.{Text}
use tabia_shogi_server.Common.{
  ℕ, zero, suc, ◌+◌, ◌-◌, ◌*◌, ◌/◌, ◌%◌, ◌^◌, ◌<◌, true, false, some, [], ◌∷◌, ◌++◌, ltb, ◌==◌, all,
  ◌≡◌, refl, ap, ◌∙◌, arith, inl, inr, Bool-cases,
}
use tabia_shogi_server.Stamp.{digits}
use tabia_shogi_server.Config.Timestamp.{is_digit, number_from}
use tabia_shogi_server.Session.GameIds.{
  decimal, game_id_prefix, mint_game_id, strip_prefix, split_once, parse_digits, parse_u64,
  round_from, round_of,
}

-- Ten to a power.
pow_ten : ℕ → ℕ
pow_ten zero = 1
pow_ten (suc k) = 10 * pow_ten k

-- The digits of a number read as the number, with what follows them.
number_from-digits :
    (fuel n : ℕ) (after : Text)
    → n < pow_ten (suc fuel)
    → number_from 0 (digits (suc fuel) n after) ≡ number_from n after
unfolding number_from pow_ten
number_from-digits zero n after h =
    let e : digits 1 n after ≡ (48 + n) ∷ after = unfold digits in ground (arith, h) in
    let f : 0 * 10 + (48 + n - 48) ≡ n = omega arith in rw (e, f) refl
number_from-digits (suc fuel) n after h = elim (Bool-cases (ltb n 10)) [
  | inl small ↦
      let e : digits (suc (suc fuel)) n after ≡ (48 + n) ∷ after =
        unfold digits in ground (arith, small) in
      let f : 0 * 10 + (48 + n - 48) ≡ n = omega arith in rw (e, f) refl
  | inr large ↦
      let e : digits (suc (suc fuel)) n after ≡ digits (suc fuel) (n / 10) ((48 + n % 10) ∷ after) =
        unfold digits in ground (arith, large) in
      let f : n / 10 * 10 + (48 + n % 10 - 48) ≡ n = omega arith in
      let rest = number_from-digits fuel (n / 10) ((48 + n % 10) ∷ after) (omega (arith, h)) in
      ap (number_from 0) e ∙ rest ∙ ap (λ m. number_from m after) f
]

is_digit-units : (n : ℕ) → n < 10 → is_digit (48 + n) ≡ true
is_digit-units n h = ground (arith, h)

-- They are digits, and there is one.
all-digits :
    (fuel n : ℕ) (after : Text)
    → n < pow_ten (suc fuel)
    → all is_digit after ≡ true
    → (all is_digit (digits (suc fuel) n after) ≡ true)
      × ((c : ℕ) × (t : Text) × (digits (suc fuel) n after ≡ c ∷ t))
unfolding all pow_ten
all-digits zero n after h k =
    let e : digits 1 n after ≡ (48 + n) ∷ after = unfold digits in ground (arith, h) in
    (rw (e, is_digit-units n (omega (arith, h))) k, (48 + n, after, e))
all-digits (suc fuel) n after h k = elim (Bool-cases (ltb n 10)) [
  | inl small ↦
      let e : digits (suc (suc fuel)) n after ≡ (48 + n) ∷ after =
        unfold digits in ground (arith, small) in
      (rw (e, is_digit-units n (ground (arith, small))) k, (48 + n, after, e))
  | inr large ↦
      let e : digits (suc (suc fuel)) n after ≡ digits (suc fuel) (n / 10) ((48 + n % 10) ∷ after) =
        unfold digits in ground (arith, large) in
      let (good, (c, t, f)) =
        all-digits fuel (n / 10) ((48 + n % 10) ∷ after) (omega (arith, h))
          (rw (is_digit-units (n % 10) (omega arith)) k) in
      (rw e good, (c, t, e ∙ f))
]

-- A written number is read back.
parse_u64-decimal : (n : ℕ) → n < 2 ^ 64 → parse_u64 (decimal n) ≡ some n
unfolding decimal parse_u64 parse_digits pow_ten
parse_u64-decimal n h =
    let (good, (c, t, e)) = all-digits 19 n [] (omega (arith, h)) (unfold all in refl) in
    let value : number_from 0 (digits 20 n []) ≡ n =
      number_from-digits 19 n [] (omega (arith, h)) ∙ unfold number_from in refl in
    let first : is_digit c ≡ true = unfold all in ground (arith, rw e at good) in
    let unsigned : (c == 43) ≡ false = ground (arith, first) in
    let fits : ltb n (2 ^ 64) ≡ true = ground (arith, h) in
    rw (e, unsigned, (rw e at good), (rw e at value), fits) refl

strip_prefix-append : (p t : Text) → strip_prefix p (p ++ t) ≡ some t
unfolding strip_prefix
strip_prefix-append [] t = refl
strip_prefix-append (c ∷ p) t = ground (arith, strip_prefix-append p t)

split_once-append :
    (first second : Text)
    → all is_digit first ≡ true
    → split_once (first ++ 45 ∷ second) ≡ some (first, second)
unfolding split_once all
split_once-append [] second h = refl
split_once-append (c ∷ first) second h =
    let other : (c == 45) ≡ false = ground (arith, h) in
    let rest = split_once-append first second (ground (arith, h)) in
    rw (split_once, other, rest) refl

round_from-parsed :
    (first second : Text) (m n : ℕ)
    → parse_u64 first ≡ some m
    → parse_u64 second ≡ some n
    → round_from (some (first, second)) ≡ some m
round_from-parsed first second m n h k = ground (arith, h, k)

-- The round of a minted identifier is read back from it on the date that it was minted on, where both
-- of its numbers fit 64 bits.
pub round_of-mint_game_id :
    (date : Text) (round seq : ℕ)
    → round < 2 ^ 64
    → seq < 2 ^ 64
    → round_of (mint_game_id date round seq) date ≡ some round
unfolding round_of mint_game_id
round_of-mint_game_id date round seq h k =
    let good : all is_digit (decimal round) ≡ true =
      unfold decimal in
      (all-digits 19 round [] (unfold pow_ten in omega (arith, h)) (unfold all in refl)).0 in
    rw
      (
        strip_prefix-append (game_id_prefix date) (decimal round ++ 45 ∷ decimal seq),
        split_once-append (decimal round) (decimal seq) good,
      )
      (round_from-parsed (decimal round) (decimal seq) round seq (parse_u64-decimal round h)
        (parse_u64-decimal seq k))
