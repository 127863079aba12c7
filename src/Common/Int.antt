-- ===== src/Common/Int.antt =====
-- Signed integers over the native numbers, and the wrap-around of Go's int64.
use Prim.Native.Nat.{ℕ, suc, ◌+◌, ◌-◌, ◌*◌, ◌/◌, ◌%◌, ◌≤◌, ◌<◌}
use mathlib.Core.Path.{◌≡◌, ap, ◌∙◌}
use mathlib.Core.Logic.{◌↔◌}
use mathlib.Core.Bool.{Bool, true, false}
use native.Mathlib.Omega.{arith}
use ws_gateway.Common.Tests.{ltb, leb, ◌==◌, if◌then◌else◌}

-- `negsuc n` is -(n + 1).
pub data ℤ : Type 0 where
  pos : ℕ → ℤ
  negsuc : ℕ → ℤ

abbrev pub pos_part : ℤ → ℕ
pos_part (pos n) = n
pos_part (negsuc n) = 0

abbrev pub neg_part : ℤ → ℕ
neg_part (pos n) = 0
neg_part (negsuc n) = suc n

-- a - b, as an integer.
abbrev pub sub_ℕ : ℕ → ℕ → ℤ
sub_ℕ a b = if leb b a then pos (a - b) else negsuc (b - a - 1)

infixl 65 ◌+ℤ◌ ◌-ℤ◌
infix 50 ◌≤ℤ◌ ◌<ℤ◌
unfoldable pub ◌+ℤ◌ : ℤ → ℤ → ℤ
a +ℤ b = sub_ℕ (pos_part a + pos_part b) (neg_part a + neg_part b)

unfoldable pub ◌-ℤ◌ : ℤ → ℤ → ℤ
a -ℤ b = sub_ℕ (pos_part a + neg_part b) (neg_part a + pos_part b)

abbrev pub ◌≤ℤ◌ : ℤ → ℤ → Type 0
a ≤ℤ b = pos_part a + neg_part b ≤ pos_part b + neg_part a

abbrev pub ◌<ℤ◌ : ℤ → ℤ → Type 0
a <ℤ b = pos_part a + neg_part b < pos_part b + neg_part a

abbrev pub ltb_ℤ : ℤ → ℤ → Bool
ltb_ℤ a b = ltb (pos_part a + neg_part b) (pos_part b + neg_part a)

abbrev pub leb_ℤ : ℤ → ℤ → Bool
leb_ℤ a b = leb (pos_part a + neg_part b) (pos_part b + neg_part a)

abbrev pub eqb_ℤ : ℤ → ℤ → Bool
eqb_ℤ (pos a) (pos b) = a == b
eqb_ℤ (negsuc a) (negsuc b) = a == b
eqb_ℤ _ _ = false

pub eqb_ℤ_iff : (a b : ℤ) → (eqb_ℤ a b ≡ true) ↔ (a ≡ b)
eqb_ℤ_iff (pos a) (pos b) = ground arith
eqb_ℤ_iff (negsuc a) (negsuc b) = ground arith
eqb_ℤ_iff (pos a) (negsuc b) = ground arith
eqb_ℤ_iff (negsuc a) (pos b) = ground arith

infixl 70 ◌*ℤ◌
unfoldable pub ◌*ℤ◌ : ℤ → ℤ → ℤ
a *ℤ b =
    sub_ℕ (pos_part a * pos_part b + neg_part a * neg_part b)
      (pos_part a * neg_part b + neg_part a * pos_part b)

-- Division that rounds towards 0, by a number other than 0.
unfoldable pub quot : ℤ → ℤ → ℤ
quot (pos a) (pos b) = pos (a / b)
quot (pos a) (negsuc b) = sub_ℕ 0 (a / suc b)
quot (negsuc a) (pos b) = sub_ℕ 0 (suc a / b)
quot (negsuc a) (negsuc b) = pos (suc a / suc b)

-- 2 ^ 63 and 2 ^ 64, written out as numerals.
abbrev pub half64 : ℕ
half64 = 9223372036854775808

abbrev pub mod64 : ℕ
mod64 = 18446744073709551616

-- The int64 whose bit pattern is `n % 2 ^ 64`.
abbrev pub of_bits64 : ℕ → ℤ
of_bits64 n = if ltb (n % mod64) half64 then pos (n % mod64) else negsuc (mod64 - 1 - n % mod64)

-- An integer, wrapped around to 64 bits as Go does.
unfoldable pub wrap64 : ℤ → ℤ
wrap64 (pos n) = of_bits64 n
wrap64 (negsuc n) = of_bits64 (mod64 - 1 - n % mod64)

-- Go's `a + b` and `a - b` on int64.
abbrev pub add64 : ℤ → ℤ → ℤ
add64 a b = wrap64 (a +ℤ b)

abbrev pub sub64 : ℤ → ℤ → ℤ
sub64 a b = wrap64 (a -ℤ b)

-- Go's `a * b` and `a / b` on int64.
abbrev pub mul64 : ℤ → ℤ → ℤ
mul64 a b = wrap64 (a *ℤ b)

abbrev pub quot64 : ℤ → ℤ → ℤ
quot64 a b = wrap64 (quot a b)

pub wrap64_small : (a : ℕ) → a < half64 → wrap64 (pos a) ≡ pos a
unfolding wrap64
wrap64_small a h = ground arith

pub mul64_small : (a b : ℕ) → a * b < half64 → mul64 (pos a) (pos b) ≡ pos (a * b)
unfolding ◌*ℤ◌
mul64_small a b h =
    let here : pos a *ℤ pos b ≡ pos (a * b) = ground arith in
    ap wrap64 here ∙ wrap64_small (a * b) h

pub quot64_small : (a b : ℕ) → a / b < half64 → quot64 (pos a) (pos b) ≡ pos (a / b)
unfolding quot
quot64_small a b h = wrap64_small (a / b) h

pub add64_small : (a b : ℕ) → a + b < half64 → add64 (pos a) (pos b) ≡ pos (a + b)
unfolding wrap64 ◌+ℤ◌
add64_small a b h = ground arith

pub sub64_small : (a b : ℕ) → b ≤ a → a < half64 → sub64 (pos a) (pos b) ≡ pos (a - b)
unfolding wrap64 ◌-ℤ◌
sub64_small a b h u = ground arith

-- A sum past the largest int64 is negative, and subtracting one summand gives the other back.
pub add64_over :
    (a b : ℕ)
    → a < half64
    → b < half64
    → half64 ≤ a + b
    → (add64 (pos a) (pos b) ≡ negsuc (mod64 - 1 - (a + b)))
      × (sub64 (add64 (pos a) (pos b)) (pos a) ≡ pos b)
unfolding wrap64 ◌+ℤ◌ ◌-ℤ◌
add64_over a b h u v = (ground arith, ground arith)

pub +ℤ_parts :
    (a b : ℤ)
    → pos_part (a +ℤ b) + neg_part a + neg_part b ≡ neg_part (a +ℤ b) + pos_part a + pos_part b
unfolding ◌+ℤ◌
+ℤ_parts a b = ground arith

pub -ℤ_parts :
    (a b : ℤ)
    → pos_part (a -ℤ b) + neg_part a + pos_part b ≡ neg_part (a -ℤ b) + pos_part a + neg_part b
unfolding ◌-ℤ◌
-ℤ_parts a b = ground arith

pub eq_of_parts : (a b : ℤ) → pos_part a + neg_part b ≡ pos_part b + neg_part a → a ≡ b
eq_of_parts a b h = ground arith

pub +ℤ-one : (n : ℕ) → pos n +ℤ pos 1 ≡ pos (n + 1)
unfolding ◌+ℤ◌
+ℤ-one n = ground arith

pub +ℤ-minus_one : (n : ℕ) → pos (n + 1) +ℤ negsuc 0 ≡ pos n
unfolding ◌+ℤ◌
+ℤ-minus_one n = ground arith

pub pos_of_nonneg : (a : ℤ) → pos 0 ≤ℤ a → a ≡ pos (pos_part a)
pos_of_nonneg a h = ground arith
