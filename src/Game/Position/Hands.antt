-- ===== src/Game/Position/Hands.antt =====
-- src/game/position.rs: `Hand`, one side's captured pieces, counted per kind.
use tabia_shogi_server.Common.{
  ℕ, ◌+◌, ◌-◌, ◌≤◌, ◌<◌, min, Bool, not, List, ◌==◌, if◌then◌else◌, ◌≡◌, refl, ◌∙◌, Result, ok, err,
  length, get_or, set, replicate, any, get_or-set, length-set, arith,
}
use tabia_shogi_server.Game.Position.Pieces.{HandKind, index, hand_kind_eq}

pub record Hand : Type 0 where
  pub counts : List ℕ

pub record NotInHand : Type 0 where
  pub kind : HandKind

unfoldable pub hand_new : Hand
hand_new = record { counts = replicate 7 0 }

unfoldable pub count : Hand → HandKind → ℕ
count h kind = get_or h.counts (index kind) 0

-- The loop over all counts that returns at the first one that is not zero.
unfoldable pub is_empty : Hand → Bool
unfolding any
is_empty h = not (any (λ n. not (n == 0)) h.counts)

-- `saturating_add(1)` on a `u8`.
unfoldable pub add : Hand → HandKind → Hand
add h kind = record h {
  counts = set h.counts (index kind) (min 255 (get_or h.counts (index kind) 0 + 1));
}

-- `checked_sub(1)` on a `u8`.
unfoldable pub remove : Hand → HandKind → Result NotInHand Hand
remove h kind =
    let held = get_or h.counts (index kind) 0 in
    if held == 0
    then err (record { kind = kind })
    else ok (record h { counts = set h.counts (index kind) (held - 1) })

-- What the type `[u8; 7]` says of the counts.
pub record IsHand (h : Hand) : Type 0 where
  pub seven : length h.counts ≡ 7
  pub bytes : (k : HandKind) → count h k ≤ 255

index-lt : (k : HandKind) → index k < 7
index-lt HandKind.rook = omega arith
index-lt _ = omega arith

pub count-hand_new : (k : HandKind) → count hand_new k ≡ 0
unfolding count hand_new
count-hand_new HandKind.rook = refl
count-hand_new _ = refl

pub hand_new-IsHand : IsHand hand_new
unfolding hand_new
hand_new-IsHand = record { seven = refl; bytes = λ k. omega (arith, count-hand_new k) }

module _ (h : Hand) (k : HandKind) (valid : IsHand h) where
  pub count-add :
      (j : HandKind)
      → count (add h k) j ≡ (if hand_kind_eq k j then min 255 (count h k + 1) else count h j)
  unfolding count add
  count-add j =
      get_or-set h.counts (index k) (index j) (min 255 (get_or h.counts (index k) 0 + 1)) 0
        (omega (arith, valid.seven, index-lt k))

  pub add-IsHand : IsHand (add h k)
  unfolding add
  add-IsHand = record {
    seven = length-set h.counts (index k) _ ∙ valid.seven;
    bytes = λ j. ground (arith, count-add j, valid.bytes j);
  }

  -- A removal fails exactly on an empty count, and otherwise takes one piece away.
  pub remove-held :
      0 < count h k
      → (h' : Hand) × (remove h k ≡ ok h')
        × IsHand h'
        × ((j : HandKind) → count h' j ≡ (if hand_kind_eq k j then count h k - 1 else count h j))
  unfolding count remove
  remove-held held =
      let h' : Hand = record h {
        counts = set h.counts (index k) (get_or h.counts (index k) 0 - 1);
      } in
      let counts : (j : HandKind)
          → count h' j ≡ (if hand_kind_eq k j then count h k - 1 else count h j) =
        λ j.
          get_or-set h.counts (index k) (index j) (get_or h.counts (index k) 0 - 1) 0
            (omega (arith, valid.seven, index-lt k)) in
      (
        h',
        ground arith,
        record {
          seven = length-set h.counts (index k) _ ∙ valid.seven;
          bytes = λ j. ground (arith, counts j, valid.bytes j, valid.bytes k);
        },
        counts,
      )
