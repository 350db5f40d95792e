-- ===== src/Base/Bits/Step.antt =====
-- The lowest digit of `bit_and`, `bit_or` and `bit_xor`, and the digits above it.
use Prim.Native.Nat.{ℕ, zero, suc, ◌+◌, ◌-◌, ◌*◌, ◌/◌, ◌%◌, ◌≤◌, min, max, digits, bitwise, differ}
use Prim.Native.Nat.{bit_and, bit_or, bit_xor, bit_and-bitwise, bit_or-bitwise, bit_xor-bitwise}
use mathlib.Core.Path.{◌≡◌, ap}
use native.Mathlib.Omega.{arith}

-- Any count of digits that is at least the number serves.
digits_enough :
    (z : ℕ → ℕ) (f : ℕ → ℕ → ℕ) (k n a b : ℕ) → a ≤ n → digits z f (n + k) a b ≡ digits z f n a b
digits_enough z f zero n a b h = rw (let q : n + 0 ≡ n = omega arith in q)
digits_enough z f (suc k) zero zero b h = rw (let q : 0 + suc k ≡ suc k = omega arith in q)
digits_enough z f (suc k) zero (suc a) b h = absurd (omega arith)
digits_enough z f (suc k) (suc n) zero b h =
    rw (let q : suc n + suc k ≡ suc (n + suc k) = omega arith in q)
digits_enough z f (suc k) (suc n) (suc a) b h =
    let q : suc n + suc k ≡ suc (n + suc k) = omega arith in
    rw (q, digits_enough z f (suc k) n (suc a / 2) (b / 2) (omega arith))

bitwise_step :
    (z : ℕ → ℕ) (f : ℕ → ℕ → ℕ) (a b : ℕ)
    → bitwise z f (suc a) b ≡ bitwise z f (suc a / 2) (b / 2) * 2 + f (suc a % 2) (b % 2)
bitwise_step z f a b =
    let k = a - suc a / 2 in
    let q : a ≡ suc a / 2 + k = omega arith in
    omega (
      arith,
      digits_enough z f k (suc a / 2) (suc a / 2) (b / 2) (omega arith),
      ap (λ (n : ℕ). digits z f n (suc a / 2) (b / 2)) q,
    )

pub bit_and_lem : (a b : ℕ) → bit_and a b ≡ bit_and (a / 2) (b / 2) * 2 + min (a % 2) (b % 2)
bit_and_lem zero b = simp bit_and-bitwise (omega arith)
bit_and_lem (suc a) b = simp bit_and-bitwise (bitwise_step (λ y. 0) min a b)

pub bit_or_lem : (a b : ℕ) → bit_or a b ≡ bit_or (a / 2) (b / 2) * 2 + max (a % 2) (b % 2)
bit_or_lem zero b = simp bit_or-bitwise (omega arith)
bit_or_lem (suc a) b = simp bit_or-bitwise (bitwise_step (λ y. y) max a b)

pub bit_xor_lem : (a b : ℕ) → bit_xor a b ≡ bit_xor (a / 2) (b / 2) * 2 + differ (a % 2) (b % 2)
bit_xor_lem zero b = simp bit_xor-bitwise (omega arith)
bit_xor_lem (suc a) b = simp bit_xor-bitwise (bitwise_step (λ y. y) differ a b)
