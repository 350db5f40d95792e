-- ===== src/Base/Bits/Fields.antt =====
-- `|` of a low part and a part that is shifted above it.
use Prim.Native.Nat.{ℕ, zero, suc, ◌+◌, ◌*◌, ◌/◌, ◌%◌, ◌^◌, ◌<◌, max, bit_or}
use mathlib.Core.Path.{◌≡◌, refl, ap, ◌∙◌}
use native.Mathlib.Omega.{arith}
use gld.Base.Bits.Step.{bit_or_lem}
use native.Mathlib.Nat.{pow-suc}

zero-bit_or_below : (fuel n : ℕ) → n < fuel → bit_or 0 n ≡ n
zero-bit_or_below zero n h = absurd (omega arith)
zero-bit_or_below (suc f) zero h = refl
zero-bit_or_below (suc f) (suc m) h =
    let ih = zero-bit_or_below f (suc m / 2) (omega arith) in
    omega (arith, bit_or_lem 0 (suc m), ih)

pub zero-bit_or : (n : ℕ) → bit_or 0 n ≡ n
zero-bit_or n = zero-bit_or_below (suc n) n (omega arith)

bit_or-none_below : (fuel n : ℕ) → n < fuel → bit_or n 0 ≡ n
bit_or-none_below zero n h = absurd (omega arith)
bit_or-none_below (suc f) zero h = refl
bit_or-none_below (suc f) (suc m) h =
    let ih = bit_or-none_below f (suc m / 2) (omega arith) in
    omega (arith, bit_or_lem (suc m) 0, ih)

pub bit_or-none : (n : ℕ) → bit_or n 0 ≡ n
bit_or-none n = bit_or-none_below (suc n) n (omega arith)

pub bit_or-shift : (k a b : ℕ) → a < 2 ^ k → bit_or a (b * 2 ^ k) ≡ a + b * 2 ^ k
bit_or-shift zero a b h =
    let z : a ≡ 0 = omega arith in
    let o : b * 2 ^ 0 ≡ b = omega arith in let c = zero-bit_or b in rw (z, o) (omega (arith, c))
bit_or-shift (suc k) a b h =
    let p = pow-suc 2 k in
    let e : b * 2 ^ suc k ≡ b * 2 ^ k * 2 = ap (λ (n : ℕ). b * n) p ∙ omega arith in
    let half : b * 2 ^ suc k / 2 ≡ b * 2 ^ k = omega (arith, e) in
    let ih = bit_or-shift k (a / 2) b (omega (arith, p)) in
    let low : bit_or a (b * 2 ^ suc k)
        ≡ bit_or (a / 2) (b * 2 ^ suc k / 2) * 2 + max (a % 2) (b * 2 ^ suc k % 2) =
      bit_or_lem a (b * 2 ^ suc k) in
    low ∙ rw (half, ih) (omega (arith, e))
