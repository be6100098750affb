-- ===== src/Common/Bits.antt =====
-- The bitwise AND with a mask of ones, as include/Queue.h uses it for the index of a slot.
use Prim.Native.Nat.{ℕ, zero, suc, ◌+◌, ◌*◌, ◌/◌, ◌%◌, ◌≤◌, min, bit_and, digits, bit_and-bitwise}
use mathlib.Core.Path.{◌≡◌, refl, ◌∙◌}
use native.Mathlib.Omega.{arith}

-- The digit recursion with `n` digits to go.
abbrev masked : ℕ → ℕ → ℕ → ℕ
masked n a m = digits (λ _. zero) min n a m

-- With at least `a` digits to go, a mask `m` keeps what is left of a division by `k`.
abbrev IsMask : ℕ → ℕ → Type 0
IsMask m k = (n a : ℕ) → a ≤ n → masked n a m ≡ a % k

-- A remainder by `2 * k` is one by `k` of the half, and the lowest digit.
abbrev Doubles : ℕ → Type 0
Doubles k = (a : ℕ) → a % (k * 2) ≡ a / 2 % k * 2 + a % 2

IsMask-zero : IsMask 0 1
IsMask-zero zero zero h = omega arith
IsMask-zero zero (suc a) h = absurd (omega arith)
IsMask-zero (suc n) zero h = omega arith
IsMask-zero (suc n) (suc a) h = omega (arith, IsMask-zero n (suc a / 2) (omega arith))

-- A mask with one more digit at the low end.
IsMask-suc :
    (m k m' : ℕ)
    → m' / 2 ≡ m
    → m' % 2 ≡ 1
    → Doubles k
    → IsMask m k
    → (n a : ℕ) → a ≤ n
    → masked n a m' ≡ a % (k * 2)
IsMask-suc m k m' half odd d mask zero zero h = omega (arith, d 0, mask 0 0 (omega arith))
IsMask-suc m k m' half odd d mask zero (suc a) h = absurd (omega arith)
IsMask-suc m k m' half odd d mask (suc n) zero h = omega (arith, d 0, mask 0 0 (omega arith))
IsMask-suc m k m' half odd d mask (suc n) (suc a) h =
    rw half (omega (arith, d (suc a), mask n (suc a / 2) (omega arith)))

IsMask-1 : IsMask 1 2
IsMask-1 = IsMask-suc 0 1 1 refl refl (λ a. omega arith) IsMask-zero

IsMask-3 : IsMask 3 4
IsMask-3 = IsMask-suc 1 2 3 refl refl (λ a. omega arith) IsMask-1

IsMask-7 : IsMask 7 8
IsMask-7 = IsMask-suc 3 4 7 refl refl (λ a. omega arith) IsMask-3

IsMask-15 : IsMask 15 16
IsMask-15 = IsMask-suc 7 8 15 refl refl (λ a. omega arith) IsMask-7

IsMask-31 : IsMask 31 32
IsMask-31 = IsMask-suc 15 16 31 refl refl (λ a. omega arith) IsMask-15

IsMask-63 : IsMask 63 64
IsMask-63 = IsMask-suc 31 32 63 refl refl (λ a. omega arith) IsMask-31

IsMask-127 : IsMask 127 128
IsMask-127 = IsMask-suc 63 64 127 refl refl (λ a. omega arith) IsMask-63

IsMask-255 : IsMask 255 256
IsMask-255 = IsMask-suc 127 128 255 refl refl (λ a. omega arith) IsMask-127

IsMask-511 : IsMask 511 512
IsMask-511 = IsMask-suc 255 256 511 refl refl (λ a. omega arith) IsMask-255

IsMask-1023 : IsMask 1023 1024
IsMask-1023 = IsMask-suc 511 512 1023 refl refl (λ a. omega arith) IsMask-511

pub bit_and_mask : (a : ℕ) → bit_and a 1023 ≡ a % 1024
bit_and_mask a = bit_and-bitwise a 1023 ∙ IsMask-1023 a a (omega arith)
