-- ===== src/Crc32/Bitwise.antt =====
-- The table of efx_crc32_calculate against the division by the polynomial, one bit at a time.
use gld.Base.{
  ℕ, zero, suc, ◌*◌, ◌/◌, ◌%◌, ◌^◌, ◌<◌, ◌≡◌, refl, sym, ap, ◌∙◌, Bool, true, false, ◌&&◌, ◌==◌,
  List, [], ◌∷◌, IsBytes, get_or, bit_and, bit_xor, arith, ==_iff,
}
use gld.Base.Bits.{
  test_bit-bit_xor, half-bit_xor, shift-bit_xor, bit_xor_assoc, bit_xor_comm, bit_xor-zero,
}
use gld.Base.Bits.Mask.{bit_and-ones, bit_xor_fields}
use mathlib.Core.Bool.{xor}
use native.Mathlib.Nat.{pow-suc}
use gld.Crc32.{calculate}
use gld.Crc32.Table.{crc32_table}

-- x^32 + x^26 + ... + 1, IEEE 802.3, with its bits reversed.
abbrev pub polynomial : ℕ
polynomial = 0xedb88320

abbrev feedback : Bool → ℕ
feedback true = polynomial
feedback false = 0

-- One step of the division.
pub crc_bit : ℕ → ℕ
crc_bit x = bit_xor (x / 2) (feedback (x % 2 == 1))

pub rounds : ℕ → ℕ → ℕ
rounds zero x = x
rounds (suc n) x = rounds n (crc_bit x)

-- The register after the bytes, each entered in its low bits and then shifted out.
pub divide : ℕ → List ℕ → ℕ
divide crc [] = crc
divide crc (byte ∷ input) = divide (rounds 8 (bit_xor crc byte)) input

feedback-xor : (p q : Bool) → feedback (xor p q) ≡ bit_xor (feedback p) (feedback q)
unfolding xor
feedback-xor true true = refl
feedback-xor true false = refl
feedback-xor false true = refl
feedback-xor false false = refl

bit_xor_swap :
    (a b c d : ℕ) → bit_xor (bit_xor a b) (bit_xor c d) ≡ bit_xor (bit_xor a c) (bit_xor b d)
bit_xor_swap a b c d =
    bit_xor_assoc a b (bit_xor c d)
    ∙ ap (bit_xor a)
        (sym (bit_xor_assoc b c d) ∙ ap (λ t. bit_xor t d) (bit_xor_comm b c) ∙ bit_xor_assoc c b d)
    ∙ sym (bit_xor_assoc a c (bit_xor b d))

crc_bit-bit_xor : (a b : ℕ) → crc_bit (bit_xor a b) ≡ bit_xor (crc_bit a) (crc_bit b)
unfolding crc_bit
crc_bit-bit_xor a b =
    rw (half-bit_xor a b, test_bit-bit_xor a b 0, feedback-xor (a % 2 == 1) (b % 2 == 1))
      (bit_xor_swap (a / 2) (b / 2) _ _)

rounds-bit_xor : (n a b : ℕ) → rounds n (bit_xor a b) ≡ bit_xor (rounds n a) (rounds n b)
unfolding rounds
rounds-bit_xor zero a b = refl
rounds-bit_xor (suc n) a b = rw (crc_bit-bit_xor a b) (rounds-bit_xor n (crc_bit a) (crc_bit b))

crc_bit-double : (m : ℕ) → crc_bit (2 * m) ≡ m
unfolding crc_bit
crc_bit-double m =
    let low : 2 * m % 2 ≡ 0 = omega arith in
    let half : 2 * m / 2 ≡ m = omega arith in rw (low, half) (bit_xor-zero m)

-- Zeros below are shifted out.
rounds-shift : (n m : ℕ) → rounds n (m * 2 ^ n) ≡ m
unfolding rounds
rounds-shift zero m = omega arith
rounds-shift (suc n) m =
    let twice : m * 2 ^ suc n ≡ 2 * (m * 2 ^ n) =
      omega (arith, ap (λ (t : ℕ). m * t) (pow-suc 2 n)) in
    rw (twice, crc_bit-double (m * 2 ^ n)) (rounds-shift n m)

every_below : ℕ → (ℕ → Bool) → Bool
every_below zero p = true
every_below (suc n) p = p n && every_below n p

every_below_elim : (n : ℕ) (p : ℕ → Bool) (x : ℕ) → every_below n p ≡ true → x < n → p x ≡ true
unfolding every_below
every_below_elim zero p x h k = absurd (omega arith)
every_below_elim (suc n) p x h k = ground (arith, every_below_elim n p x)

-- Each of the 256 words of the table is eight steps of the division on its index.
crc32_table_words : every_below 256 (λ i. get_or crc32_table i 0 == rounds 8 i) ≡ true
unfolding every_below crc32_table rounds crc_bit
crc32_table_words = refl

crc32_table_word : (i : ℕ) → i < 256 → get_or crc32_table i 0 ≡ rounds 8 i
crc32_table_word i h = (==_iff _ _).0 (every_below_elim 256 _ i crc32_table_words h)

step_eq : (x : ℕ) → bit_xor (x / 2 ^ 8) (get_or crc32_table (bit_and x 0xff) 0) ≡ rounds 8 x
step_eq x =
    let split : x ≡ bit_xor (x / 256 * 2 ^ 8) (x % 256) =
      sym (bit_xor_fields 8 (x / 256) (x % 256) (omega arith) ∙ omega arith) in
    rw (bit_and-ones 8 x, crc32_table_word (x % 2 ^ 8) (omega arith))
      (ap (λ t. bit_xor t (rounds 8 (x % 2 ^ 8))) (sym (rounds-shift 8 (x / 2 ^ 8)))
        ∙ sym (rounds-bit_xor 8 (x / 2 ^ 8 * 2 ^ 8) (x % 2 ^ 8))
        ∙ ap (rounds 8) (sym split))

-- For every start value and every list of bytes, efx_crc32_calculate is the bit-serial division by
-- the IEEE 802.3 polynomial.
pub calculate_divides :
    (crc : ℕ) (input : List ℕ) → IsBytes input → calculate crc input ≡ divide crc input
unfolding calculate divide
calculate_divides crc [] h = refl
calculate_divides crc (byte ∷ input) h =
    let none : byte / 2 ^ 8 ≡ 0 = omega arith in
    let high : bit_xor crc byte / 2 ^ 8 ≡ crc / 2 ^ 8 =
      shift-bit_xor 8 crc byte ∙ ap (bit_xor (crc / 2 ^ 8)) none ∙ bit_xor-zero (crc / 2 ^ 8) in
    let next =
      sym (ap (λ t. bit_xor t (get_or crc32_table (bit_and (bit_xor crc byte) 0xff) 0)) high)
      ∙ step_eq (bit_xor crc byte) in
    rw next (calculate_divides (rounds 8 (bit_xor crc byte)) input h.1)
