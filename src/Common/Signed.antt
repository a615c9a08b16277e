-- ===== src/Common/Signed.antt =====
-- More of the signed integers: difference, magnitude, order and the range of an `i32`.
use Prim.Native.Nat.{ℕ, ◌+◌}
use mathlib.Core.Bool.{Bool}
use tabia_shogi_server.Common.Tests.{leb, if◌then◌else◌}
use tabia_shogi_server.Common.Int.{ℤ, pos, negsuc, pos_part, neg_part, sub_ℕ}

infixl 65 ◌-ℤ◌
unfoldable pub ◌-ℤ◌ : ℤ → ℤ → ℤ
a -ℤ b = sub_ℕ (pos_part a + neg_part b) (neg_part a + pos_part b)

abbrev pub magnitude : ℤ → ℕ
magnitude a = pos_part a + neg_part a

-- `abs_diff`
unfoldable pub abs_diff : ℤ → ℤ → ℕ
unfolding ◌-ℤ◌
abs_diff a b = magnitude (a -ℤ b)

abbrev pub leb_ℤ : ℤ → ℤ → Bool
leb_ℤ a b = leb (pos_part a + neg_part b) (pos_part b + neg_part a)

-- The nearest `i32`.
unfoldable pub saturate_i32 : ℤ → ℤ
saturate_i32 (pos n) = if leb n 2147483647 then pos n else pos 2147483647
saturate_i32 (negsuc n) = if leb n 2147483647 then negsuc n else negsuc 2147483647
