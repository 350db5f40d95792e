-- ===== src/Base/Bits/Mask.antt =====
-- A mask of low digits is a remainder, and a shift moves the digits.
use Prim.Native.Nat.{ℕ, zero, suc, ◌+◌, ◌-◌, ◌*◌, ◌/◌, ◌%◌, ◌^◌, ◌<◌, bit_and, bit_xor, differ}
use mathlib.Core.Path.{◌≡◌, refl, ap, ◌∙◌}
use native.Mathlib.Omega.{arith}
use native.Mathlib.Nat.{
  pow-suc, one-le-pow, div-add-mod, add-mul-mod_self_right, mod-eq_of_lt, mod-lt,
}
use mathlib.Core.Bool.{not, ◌&&◌}
use gld.Base.Tests.{◌==◌, ltb}
use gld.Base.Bits.{test_bit, test_bit-ones}
use gld.Base.Bits.Step.{bit_and_lem, bit_xor_lem}

mod-double : (a m : ℕ) → 0 < m → a % (2 * m) ≡ a / 2 % m * 2 + a % 2
mod-double a m h =
    let r = a / 2 % m in
    let q = a / 2 / m in
    let small = mod-lt (a / 2) {m = m} h in
    let split : a ≡ r * 2 + a % 2 + q * (2 * m) = omega (arith, div-add-mod (a / 2) m) in
    ap (λ (t : ℕ). t % (2 * m)) split
    ∙ add-mul-mod_self_right (r * 2 + a % 2) q (2 * m)
    ∙ mod-eq_of_lt (omega arith)

bit_and-none_below : (k a : ℕ) → a < k → bit_and a 0 ≡ 0
bit_and-none_below zero a h = absurd (omega arith)
bit_and-none_below (suc k) zero h = omega (arith, bit_and_lem 0 0)
bit_and-none_below (suc k) (suc a) h =
    omega (arith, bit_and_lem (suc a) 0, bit_and-none_below k (suc a / 2) (omega arith))

pub bit_and-none : (a : ℕ) → bit_and a 0 ≡ 0
bit_and-none a = bit_and-none_below (suc a) a (omega arith)

pub bit_and-ones : (k a : ℕ) → bit_and a (2 ^ k - 1) ≡ a % 2 ^ k
bit_and-ones zero a = omega (arith, bit_and-none a)
bit_and-ones (suc k) a =
    let half : (2 ^ suc k - 1) / 2 ≡ 2 ^ k - 1 = omega (arith, pow-suc 2 k, one-le-pow k 2) in
    let low : (2 ^ suc k - 1) % 2 ≡ 1 = omega (arith, pow-suc 2 k, one-le-pow k 2) in
    let twice : 2 ^ suc k ≡ 2 * 2 ^ k = omega (arith, pow-suc 2 k) in
    bit_and_lem a (2 ^ suc k - 1)
    ∙ rw
        (
          half,
          low,
          bit_and-ones k (a / 2),
          twice,
          mod-double a (2 ^ k) (omega (arith, one-le-pow k 2)),
        )
        (omega arith)

differ-none : (a : ℕ) → differ a 0 ≡ a
differ-none zero = refl
differ-none (suc a) = refl

bit_xor-none_below : (k a : ℕ) → a < k → bit_xor a 0 ≡ a
bit_xor-none_below zero a h = absurd (omega arith)
bit_xor-none_below (suc k) zero h = omega (arith, bit_xor_lem 0 0)
bit_xor-none_below (suc k) (suc a) h =
    let low : differ (suc a % 2) 0 ≡ suc a % 2 = differ-none (suc a % 2) in
    omega (arith, bit_xor_lem (suc a) 0, bit_xor-none_below k (suc a / 2) (omega arith), low)

-- Fields that do not overlap are joined by a sum.
pub bit_xor_fields : (k m r : ℕ) → r < 2 ^ k → bit_xor (m * 2 ^ k) r ≡ m * 2 ^ k + r
bit_xor_fields zero m r h =
    let e : r ≡ 0 = omega arith in
    let f : m * 2 ^ 0 ≡ m = omega arith in
    rw (e, f, bit_xor-none_below (suc m) m (omega arith)) (omega arith)
bit_xor_fields (suc k) m r h =
    let twice : m * 2 ^ suc k ≡ 2 * (m * 2 ^ k) =
      omega (arith, ap (λ (t : ℕ). m * t) (pow-suc 2 k)) in
    let half : m * 2 ^ suc k / 2 ≡ m * 2 ^ k = omega arith in
    let low : m * 2 ^ suc k % 2 ≡ 0 = omega arith in
    bit_xor_lem (m * 2 ^ suc k) r
    ∙ rw (half, low, bit_xor_fields k m (r / 2) (omega (arith, pow-suc 2 k))) (omega arith)

-- `w & (1 << k)`
pub bit_and-pow : (k w : ℕ) → not (bit_and w (2 ^ k) == 0) ≡ test_bit w k
bit_and-pow zero w = ground (arith, bit_and_lem w 1, bit_and-none (w / 2))
bit_and-pow (suc k) w =
    let half : 2 ^ suc k / 2 ≡ 2 ^ k = omega (arith, pow-suc 2 k) in
    let low : 2 ^ suc k % 2 ≡ 0 = omega (arith, pow-suc 2 k) in
    let parts : bit_and w (2 ^ suc k) ≡ bit_and (w / 2) (2 ^ k) * 2 =
      bit_and_lem w (2 ^ suc k) ∙ rw (half, low) (omega arith) in
    rw parts (ground (arith, bit_and-pow k (w / 2)))

pow_lt : (k n : ℕ) → k < n → 2 ^ k < 2 ^ n
pow_lt k zero h = elim h [ ]
pow_lt zero (suc n) h = omega (arith, pow-suc 2 n, one-le-pow n 2)
pow_lt (suc k) (suc n) h = omega (arith, pow-suc 2 k, pow-suc 2 n, pow_lt k n (omega arith))

-- `~(1 << k)` in `n` bits.
pub test_bit-mask : (n k j : ℕ) → k < n → test_bit (2 ^ n - 1 - 2 ^ k) j ≡ (ltb j n && not (k == j))
test_bit-mask zero k j h = absurd (omega arith)
test_bit-mask (suc n) zero zero h = ground (arith, pow-suc 2 n, one-le-pow n 2)
test_bit-mask (suc n) (suc k) zero h =
    ground (arith, pow-suc 2 n, pow-suc 2 k, one-le-pow n 2, pow_lt k n)
test_bit-mask (suc n) zero (suc j) h =
    let half : (2 ^ suc n - 1 - 2 ^ 0) / 2 ≡ 2 ^ n - 1 =
      omega (arith, pow-suc 2 n, one-le-pow n 2) in
    rw half (test_bit-ones n j ∙ ground arith)
test_bit-mask (suc n) (suc k) (suc j) h =
    let half : (2 ^ suc n - 1 - 2 ^ suc k) / 2 ≡ 2 ^ n - 1 - 2 ^ k =
      omega (arith, pow-suc 2 n, pow-suc 2 k, one-le-pow n 2) in
    rw half (test_bit-mask n k j (omega arith) ∙ ground arith)
