-- ===== src/Toeplitz/Gather.antt =====
-- What a byte contributes to the Toeplitz hash (sfxge_hash.c, toeplitz_cache_init).
use gld.Base.{
  ℕ, zero, suc, ◌/◌, ◌^◌, ◌≡◌, refl, sym, ap, ap₂, ◌∙◌, Bool, List, [], ◌∷◌, ◌==◌, Bool-cases, inl,
  inr, if◌then◌else◌, bit_and, bit_xor, arith,
}
use gld.Base.Bits.{test_bit, bit_xor_assoc, bit_xor-zero, zero-bit_xor}
use gld.Base.Bits.Mask.{bit_and-pow}
use native.Mathlib.Nat.{pow-suc}
use gld.Toeplitz.{gather}
use gld.Toeplitz.Window.{window, tail, pick, toeplitz, slides, not_of}

-- The accumulator is added to what the rest gives.
gather-res :
    (ks : List ℕ) (byte mask res : ℕ)
    → gather ks byte mask res ≡ bit_xor res (gather ks byte mask 0)
unfolding gather
gather-res [] byte mask res = sym (bit_xor-zero res)
gather-res (k ∷ ks) byte mask res = elim (Bool-cases (bit_and byte mask == 0)) [
  | inl x ↦ rw x (gather-res ks byte (mask / 2) res)
  | inr x ↦
      rw (x, zero-bit_xor k)
        (gather-res ks byte (mask / 2) (bit_xor res k)
          ∙ bit_xor_assoc res k _
          ∙ ap (bit_xor res) (sym (gather-res ks byte (mask / 2) k)))
]

chosen :
    (byte j k : ℕ)
    → (if bit_and byte (2 ^ j) == 0 then 0 else bit_xor 0 k) ≡ pick (test_bit byte j) k
chosen byte j k =
    let d = not_of _ _ (bit_and-pow j byte) in
    elim (Bool-cases (test_bit byte j)) [
      | inl x ↦ rw (d, x) (zero-bit_xor k)
      | inr x ↦ rw (d, x) refl
    ]

-- Bits `n` to 0 of a byte, and others behind.
abbrev pub low_bits : (n byte : ℕ) → List Bool → List Bool
low_bits zero byte rest = test_bit byte 0 ∷ rest
low_bits (suc n) byte rest = test_bit byte (suc n) ∷ low_bits n byte rest

abbrev pub tails : ℕ → List Bool → List Bool
tails zero key = key
tails (suc n) key = tails n (tail key)

pub toeplitz-low_bits :
    (n byte : ℕ) (rest key : List Bool)
    → toeplitz (low_bits n byte rest) key
      ≡ bit_xor (gather (slides n key) byte (2 ^ n) 0) (toeplitz rest (tails (suc n) key))
unfolding gather
toeplitz-low_bits zero byte rest key =
    ap (λ (x : ℕ). bit_xor x (toeplitz rest (tail key))) (sym (chosen byte 0 (window key)))
toeplitz-low_bits (suc n) byte rest key =
    let half : 2 ^ suc n / 2 ≡ 2 ^ n = omega (arith, pow-suc 2 n) in
    let w = pick (test_bit byte (suc n)) (window key) in
    let more = gather (slides n (tail key)) byte (2 ^ n) 0 in
    let T = toeplitz rest (tails (suc n) (tail key)) in
    let first : gather (slides (suc n) key) byte (2 ^ suc n) 0 ≡ bit_xor w more =
      ap₂ (gather (slides n (tail key)) byte) half (chosen byte (suc n) (window key))
      ∙ gather-res (slides n (tail key)) byte (2 ^ n) w in
    ap (bit_xor w) (toeplitz-low_bits n byte rest (tail key))
    ∙ sym (bit_xor_assoc w more T)
    ∙ ap (λ (x : ℕ). bit_xor x T) (sym first)
