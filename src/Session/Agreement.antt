-- ===== src/Session/Agreement.antt =====
-- src/session/agreement.rs: which sides have agreed to an offered game.
use tabia_shogi_server.Common.{
  ℕ, ◌+◌, ◌*◌, Bool, true, false, not, ◌&&◌, ◌||◌, List, [], ◌∷◌, ltb, if◌then◌else◌, ◌≡◌, ◌↔◌,
  refl, arith,
}
use tabia_shogi_server.Game.Position.Pieces.{Color, opponent, color_eq, PerColor, slot, set_slot}
use tabia_shogi_server.Session.Clock.{Duration}

abbrev pub agreement_timeout : Duration
agreement_timeout = 120 * 1000000000

pub data Agreed : Type 0 where
  pending start duplicate : Agreed

pub record Agreement : Type 0 where
  pub agreed : PerColor Bool

unfoldable pub new : Agreement
new = record { agreed = record { black_slot = false; white_slot = false } }

unfoldable pub agree : Agreement → Color → Agreement × Agreed
agree a side =
    if slot a.agreed side
    then (a, Agreed.duplicate)
    else let agreed = set_slot a.agreed side true in
      (
        record a { agreed = agreed },
        if agreed.black_slot && agreed.white_slot then Agreed.start else Agreed.pending,
      )

-- The filter of `silent` over both sides, Black first.
abbrev keep_if : Bool → Color → List Color → List Color
keep_if true c rest = c ∷ rest
keep_if false c rest = rest

unfoldable pub silent : Agreement → List Color
silent a =
    keep_if (not (slot a.agreed Color.black)) Color.black
      (keep_if (not (slot a.agreed Color.white)) Color.white [])

-- `expired`
unfoldable pub has_expired : Duration → Duration → Bool
has_expired elapsed limit = ltb limit elapsed

-- The state after the commands of a list, the newest first.
unfoldable pub after : List Color → Agreement
after [] = new
after (side ∷ before) = (agree (after before) side).0

-- Whether a side is among those of a list.
unfoldable pub has_said : Color → List Color → Bool
has_said c [] = false
has_said c (d ∷ ds) = let rest = has_said c ds in color_eq c d || rest

after-has_said : (said : List Color) (c : Color) → slot (after said).agreed c ≡ has_said c said
unfolding after has_said agree new
after-has_said [] c = ground arith
after-has_said (d ∷ said) c = ground (arith, after-has_said said c, after-has_said said d)

-- An `AGREE` is a duplicate exactly if its side has agreed before, and it starts the game exactly
-- if its side has not and the other has.
pub agree_iff :
    (said : List Color) (side : Color)
    → (((agree (after said) side).1 ≡ Agreed.duplicate) ↔ (has_said side said ≡ true))
      × (((agree (after said) side).1 ≡ Agreed.start)
          ↔ ((has_said side said ≡ false) × (has_said (opponent side) said ≡ true)))
unfolding agree opponent
agree_iff said Color.black =
    ground (arith, after-has_said said Color.black, after-has_said said Color.white)
agree_iff said Color.white =
    ground (arith, after-has_said said Color.black, after-has_said said Color.white)

-- How many of the commands of a list, the newest first, were answered with the start.
unfoldable pub starts : List Color → ℕ
starts [] = 0
starts (side ∷ before) = elim (agree (after before) side).1 [
  | start ↦ starts before + 1
  | pending ↦ starts before
  | duplicate ↦ starts before
]

abbrev both_said : List Color → Bool
both_said said = has_said Color.black said && has_said Color.white said

-- Whatever `AGREE`s the two sides send, a pairing starts once if both have agreed, and never before.
pub starts-once : (said : List Color) → starts said ≡ (if both_said said then 1 else 0)
unfolding starts has_said agree
starts-once [] = refl
starts-once (Color.black ∷ said) =
    ground
      (arith, starts-once said, after-has_said said Color.black, after-has_said said Color.white)
starts-once (Color.white ∷ said) =
    ground
      (arith, starts-once said, after-has_said said Color.black, after-has_said said Color.white)

-- An expiry names exactly the sides that have not agreed.
silent_iff : (said : List Color) → (silent (after said) ≡ []) ↔ (both_said said ≡ true)
unfolding silent
silent_iff said = ground (arith, after-has_said said Color.black, after-has_said said Color.white)
