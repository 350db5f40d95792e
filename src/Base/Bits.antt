-- ===== src/Base/Bits.antt =====
-- The bitwise operators of C, digit by digit, for words of every width.
pub mod Fields
pub mod Mask
mod Step
use Prim.Native.Nat.{
  ℕ, zero, suc, ◌+◌, ◌-◌, ◌*◌, ◌/◌, ◌%◌, ◌^◌, ◌≤◌, ◌<◌, differ, min, max, bit_and, bit_or, bit_xor,
}
use mathlib.Core.Path.{◌≡◌, refl, sym, ap, ◌∙◌}
use mathlib.Core.Bool.{Bool, true, false, xor, not, ◌&&◌, ◌||◌}
use mathlib.Core.Logic.{◌⊎◌, inl, inr}
use native.Mathlib.Omega.{arith}
use native.Mathlib.Nat.{pow-suc, one-le-pow, div-div-eq-div-mul, div-one}
use gld.Base.Tests.{◌==◌, ltb}
use Step.{bit_and_lem, bit_or_lem, bit_xor_lem}

-- Is digit `j` of `n` a 1?
abbrev pub test_bit : ℕ → ℕ → Bool
test_bit n zero = n % 2 == 1
test_bit n (suc j) = test_bit (n / 2) j

digit-cases : (n : ℕ) → (n % 2 ≡ 0) ⊎ (n % 2 ≡ 1)
digit-cases n = omega arith

half-bit_and : (a b : ℕ) → bit_and a b / 2 ≡ bit_and (a / 2) (b / 2)
half-bit_and a b = omega (arith, bit_and_lem a b)

half-bit_or : (a b : ℕ) → bit_or a b / 2 ≡ bit_or (a / 2) (b / 2)
half-bit_or a b = omega (arith, bit_or_lem a b)

differ_lt : (a b : ℕ) → differ (a % 2) (b % 2) < 2
differ_lt a b = elim (digit-cases a) [
  | inl p ↦ rw p (omega arith)
  | inr p ↦ elim (digit-cases b) [
    | inl q ↦ rw (p, q) (omega arith)
    | inr q ↦ rw (p, q) (omega arith)
  ]
]

pub half-bit_xor : (a b : ℕ) → bit_xor a b / 2 ≡ bit_xor (a / 2) (b / 2)
half-bit_xor a b = omega (arith, bit_xor_lem a b, differ_lt a b)

pub test_bit-bit_and : (a b j : ℕ) → test_bit (bit_and a b) j ≡ (test_bit a j && test_bit b j)
test_bit-bit_and a b zero = ground (arith, bit_and_lem a b)
test_bit-bit_and a b (suc j) = rw half-bit_and (test_bit-bit_and (a / 2) (b / 2) j)

pub test_bit-bit_or : (a b j : ℕ) → test_bit (bit_or a b) j ≡ (test_bit a j || test_bit b j)
test_bit-bit_or a b zero = ground (arith, bit_or_lem a b)
test_bit-bit_or a b (suc j) = rw half-bit_or (test_bit-bit_or (a / 2) (b / 2) j)

pub test_bit-bit_xor : (a b j : ℕ) → test_bit (bit_xor a b) j ≡ xor (test_bit a j) (test_bit b j)
unfolding xor
test_bit-bit_xor a b zero =
    let low : bit_xor a b % 2 ≡ differ (a % 2) (b % 2) =
      omega (arith, bit_xor_lem a b, differ_lt a b) in
    rw low (elim (digit-cases a) [
      | inl p ↦ elim (digit-cases b) [ inl q ↦ rw (p, q) refl | inr q ↦ rw (p, q) refl ]
      | inr p ↦ elim (digit-cases b) [ inl q ↦ rw (p, q) refl | inr q ↦ rw (p, q) refl ]
    ])
test_bit-bit_xor a b (suc j) = rw half-bit_xor (test_bit-bit_xor (a / 2) (b / 2) j)

test_bit-ext_below : (k a b : ℕ) → a ≤ k → b ≤ k → ((j : ℕ) → test_bit a j ≡ test_bit b j) → a ≡ b
test_bit-ext_below zero a b ha hb h = omega arith
test_bit-ext_below (suc k) a b ha hb h =
    ground (
      arith,
      h 0,
      test_bit-ext_below k (a / 2) (b / 2) (omega arith) (omega arith) (λ j. h (suc j)),
    )

-- Numbers with the same digits are equal.
pub test_bit-ext : (a b : ℕ) → ((j : ℕ) → test_bit a j ≡ test_bit b j) → a ≡ b
test_bit-ext a b = test_bit-ext_below (a + b) a b (omega arith) (omega arith)

xor_assoc : (a b c : Bool) → xor (xor a b) c ≡ xor a (xor b c)
unfolding xor
xor_assoc a b c = ground arith

xor_comm : (a b : Bool) → xor a b ≡ xor b a
unfolding xor
xor_comm a b = ground arith

pub bit_xor_assoc : (a b c : ℕ) → bit_xor (bit_xor a b) c ≡ bit_xor a (bit_xor b c)
bit_xor_assoc a b c =
    test_bit-ext _ _
      (λ j. simp test_bit-bit_xor (xor_assoc (test_bit a j) (test_bit b j) (test_bit c j)))

pub bit_xor_comm : (a b : ℕ) → bit_xor a b ≡ bit_xor b a
bit_xor_comm a b =
    test_bit-ext _ _ (λ j. simp test_bit-bit_xor (xor_comm (test_bit a j) (test_bit b j)))

test_bit-zero : (j : ℕ) → test_bit 0 j ≡ false
test_bit-zero zero = refl
test_bit-zero (suc j) = test_bit-zero j

pub bit_xor-zero : (a : ℕ) → bit_xor a 0 ≡ a
unfolding xor
bit_xor-zero a = test_bit-ext _ _ (λ j. rw (test_bit-bit_xor, test_bit-zero) (ground arith))

pub zero-bit_xor : (a : ℕ) → bit_xor 0 a ≡ a
zero-bit_xor a = bit_xor_comm 0 a ∙ bit_xor-zero a

pub bit_xor_self : (a : ℕ) → bit_xor a a ≡ 0
unfolding xor
bit_xor_self a = test_bit-ext _ _ (λ j. rw (test_bit-bit_xor, test_bit-zero) (ground arith))

-- One digit alone: `1 << k`.
pub test_bit-pow : (k j : ℕ) → test_bit (2 ^ k) j ≡ (j == k)
test_bit-pow zero zero = refl
test_bit-pow zero (suc j) = test_bit-zero j ∙ ground arith
test_bit-pow (suc k) zero = ground (arith, pow-suc 2 k)
test_bit-pow (suc k) (suc j) =
    let half : 2 ^ suc k / 2 ≡ 2 ^ k = omega (arith, pow-suc 2 k) in
    rw half (test_bit-pow k j ∙ ground arith)

-- All of the first `w` digits: `2 ^ w - 1`.
pub test_bit-ones : (w j : ℕ) → test_bit (2 ^ w - 1) j ≡ ltb j w
test_bit-ones zero j = test_bit-zero j ∙ ground arith
test_bit-ones (suc w) zero = ground (arith, pow-suc 2 w, one-le-pow w 2)
test_bit-ones (suc w) (suc j) =
    let half : (2 ^ suc w - 1) / 2 ≡ 2 ^ w - 1 = omega (arith, pow-suc 2 w, one-le-pow w 2) in
    rw half (test_bit-ones w j ∙ ground arith)

div-pow-suc : (n k : ℕ) → n / 2 ^ suc k ≡ n / 2 / 2 ^ k
div-pow-suc n k =
    ap (λ (t : ℕ). n / t) (let q : 2 ^ suc k ≡ 2 * 2 ^ k = omega (arith, pow-suc 2 k) in q)
    ∙ sym (div-div-eq-div-mul n 2 (2 ^ k))

-- A shift commutes with `^`.
pub shift-bit_xor : (k a b : ℕ) → bit_xor a b / 2 ^ k ≡ bit_xor (a / 2 ^ k) (b / 2 ^ k)
shift-bit_xor zero a b = rw (div-one a, div-one b) (div-one (bit_xor a b))
shift-bit_xor (suc k) a b =
    rw (div-pow-suc (bit_xor a b) k, div-pow-suc a k, div-pow-suc b k, half-bit_xor a b)
      (shift-bit_xor k (a / 2) (b / 2))
