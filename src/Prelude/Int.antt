-- ===== src/Prelude/Int.antt =====
-- Go's int: an integer of 64 bits, whose operations wrap around.
use Prim.Native.Nat.{ℕ, suc, ◌+◌, ◌-◌, ◌*◌, ◌/◌, ◌%◌, ◌≤◌}
use mathlib.Core.Bool.{Bool}
use wechatcopilot.Prelude.Tests.{if◌then◌else◌, ltb, leb, nat_beq}

-- `negsuc n` is -(n + 1).
pub data ℤ : Type 0 where
  pos : ℕ → ℤ
  negsuc : ℕ → ℤ

abbrev pub pos_part : ℤ → ℕ
pos_part (pos n) = n
pos_part (negsuc n) = 0

abbrev pub neg_part : ℤ → ℕ
neg_part (pos n) = 0
neg_part (negsuc n) = suc n

-- The difference of two numbers.
abbrev pub sub_ℕ : ℕ → ℕ → ℤ
sub_ℕ a b = if leb b a then pos (a - b) else negsuc (b - a - 1)

abbrev modulus : ℕ
modulus = 18446744073709551616

abbrev half : ℕ
half = 9223372036854775808

-- The integer of 64 bits that is congruent to this one.
unfoldable pub wrapped : ℤ → ℤ
wrapped (pos n) = let r = n % modulus in if ltb r half then pos r else negsuc (modulus - 1 - r)
wrapped (negsuc n) = let r = n % modulus in if ltb r half then negsuc r else pos (modulus - 1 - r)

infixl 65 ◌+ℤ◌ ◌-ℤ◌
infixl 70 ◌*ℤ◌ ◌/ℤ◌
infix 50 ◌≤ℤ◌
unfoldable pub ◌+ℤ◌ : ℤ → ℤ → ℤ
unfolding wrapped
a +ℤ b = wrapped (sub_ℕ (pos_part a + pos_part b) (neg_part a + neg_part b))

unfoldable pub ◌-ℤ◌ : ℤ → ℤ → ℤ
unfolding wrapped
a -ℤ b = wrapped (sub_ℕ (pos_part a + neg_part b) (neg_part a + pos_part b))

-- The product with a constant.
unfoldable pub ◌*ℤ◌ : ℤ → ℕ → ℤ
unfolding wrapped
a *ℤ k = wrapped (sub_ℕ (pos_part a * k) (neg_part a * k))

-- The quotient by a positive constant, which Go rounds towards zero.
unfoldable pub ◌/ℤ◌ : ℤ → ℕ → ℤ
a /ℤ k = sub_ℕ (pos_part a / k) (neg_part a / k)

unfoldable pub negated : ℤ → ℤ
unfolding wrapped
negated a = wrapped (sub_ℕ (neg_part a) (pos_part a))

abbrev pub ◌≤ℤ◌ : ℤ → ℤ → Type 0
a ≤ℤ b = pos_part a + neg_part b ≤ pos_part b + neg_part a

abbrev pub ltb_ℤ : ℤ → ℤ → Bool
ltb_ℤ a b = ltb (pos_part a + neg_part b) (pos_part b + neg_part a)

abbrev pub leb_ℤ : ℤ → ℤ → Bool
leb_ℤ a b = leb (pos_part a + neg_part b) (pos_part b + neg_part a)

abbrev pub beq_ℤ : ℤ → ℤ → Bool
beq_ℤ a b = nat_beq (pos_part a + neg_part b) (pos_part b + neg_part a)
