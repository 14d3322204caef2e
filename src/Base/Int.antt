-- ===== src/Base/Int.antt =====
-- `int`: signed integers over the native numbers, and their 32-bit patterns.
use load_balancer_with_wal.Base.Tests.{ltb, leb, ◌==◌, if◌then◌else◌}
use Prim.Native.Nat.{ℕ, zero, suc, ◌+◌, ◌-◌, ◌%◌, ◌^◌, ◌<◌}
use mathlib.Core.Path.{◌≡◌}
use mathlib.Core.Logic.{◌↔◌}
use mathlib.Core.Bool.{Bool, true, false}
use native.Mathlib.Omega.{arith}

-- `negsuc n` is -(n + 1).
pub data ℤ : Type 0 where
  pos : ℕ → ℤ
  negsuc : ℕ → ℤ

abbrev pub minus_one : ℤ
minus_one = negsuc 0

abbrev pub pos_part : ℤ → ℕ
pos_part (pos n) = n
pos_part (negsuc n) = 0

abbrev pub neg_part : ℤ → ℕ
neg_part (pos n) = 0
neg_part (negsuc n) = suc n

abbrev pub sub_ℕ : ℕ → ℕ → ℤ
sub_ℕ a b = if leb b a then pos (a - b) else negsuc (b - a - 1)

infixl 65 ◌+ℤ◌ ◌-ℤ◌
abbrev pub ◌+ℤ◌ : ℤ → ℤ → ℤ
a +ℤ b = sub_ℕ (pos_part a + pos_part b) (neg_part a + neg_part b)

abbrev pub ◌-ℤ◌ : ℤ → ℤ → ℤ
a -ℤ b = sub_ℕ (pos_part a + neg_part b) (neg_part a + pos_part b)

abbrev pub ltb_ℤ : ℤ → ℤ → Bool
ltb_ℤ a b = ltb (pos_part a + neg_part b) (pos_part b + neg_part a)

abbrev pub leb_ℤ : ℤ → ℤ → Bool
leb_ℤ a b = leb (pos_part a + neg_part b) (pos_part b + neg_part a)

abbrev pub eq_ℤ : ℤ → ℤ → Bool
eq_ℤ (pos a) (pos b) = a == b
eq_ℤ (negsuc a) (negsuc b) = a == b
eq_ℤ (pos a) (negsuc b) = false
eq_ℤ (negsuc a) (pos b) = false

pub eq_ℤ_iff : (a b : ℤ) → (eq_ℤ a b ≡ true) ↔ (a ≡ b)
eq_ℤ_iff a b = ground arith

-- The values of a 32-bit `int`.
abbrev pub IsInt : ℤ → Type 0
IsInt (pos n) = n < 2 ^ 31
IsInt (negsuc n) = n < 2 ^ 31

-- The bit pattern of an integer, and the `int` that a pattern stands for.
abbrev pub to_word : ℤ → ℕ
to_word (pos n) = n % 2 ^ 32
to_word (negsuc n) = 2 ^ 32 - 1 - n % 2 ^ 32

abbrev pub of_word : ℕ → ℤ
of_word w = if ltb w (2 ^ 31) then pos w else negsuc (2 ^ 32 - 1 - w)

pub of_word-to_word : (z : ℤ) → IsInt z → of_word (to_word z) ≡ z
of_word-to_word (pos n) h = ground arith
of_word-to_word (negsuc n) h = ground arith

pub to_word-lt : (z : ℤ) → to_word z < 2 ^ 32
to_word-lt (pos n) = omega arith
to_word-lt (negsuc n) = omega arith

-- Arithmetic on `int`, and the conversion of a `size_t`, which keep the low 32 bits.
abbrev pub wrap : ℤ → ℤ
wrap z = of_word (to_word z)

abbrev pub int_of_size : ℕ → ℤ
int_of_size n = wrap (pos n)

-- `n - 1` as an `int`: the last index of a vector of n elements.
abbrev pub before : ℕ → ℤ
before zero = negsuc 0
before (suc n) = pos n

-- How many i there are with lo ≤ i ≤ hi: the rounds of `for (int i = lo; i <= hi; i++)`.
abbrev pub rounds : ℤ → ℤ → ℕ
rounds lo hi = pos_part ((hi +ℤ pos 1) -ℤ lo)

-- `i + 1` as an `int`
abbrev pub next : ℤ → ℤ
next i = wrap (i +ℤ pos 1)
