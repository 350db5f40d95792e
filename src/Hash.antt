-- ===== src/Hash.antt =====
-- The hash of common/efx_hash.c, over dwords and, for a little-endian machine, over bytes.
pub mod Bytes
mod Tests
use gld.Base.{
  ℕ, ◌+◌, ◌-◌, ◌*◌, ◌/◌, ◌%◌, ◌^◌, List, [], ◌∷◌, bit_or, bit_xor, length, take, drop, u32,
}
use gld.Tlv.Buffer.{sub32}

abbrev pub hash_initial_value : ℕ
hash_initial_value = 0xdeadbeef

pub rotate : (v shift : ℕ) → ℕ
rotate v shift = bit_or (u32 (v * 2 ^ shift)) (v / 2 ^ (32 - shift))

abbrev pub add32 : ℕ → ℕ → ℕ
add32 a b = u32 (a + b)

unfoldable pub mix : (a b c : ℕ) → ℕ × ℕ × ℕ
unfolding rotate
mix a b c =
    let a1 = bit_xor (sub32 a c) (rotate c 4) in
    let c1 = add32 c b in
    let b1 = bit_xor (sub32 b a1) (rotate a1 6) in
    let a2 = add32 a1 c1 in
    let c2 = bit_xor (sub32 c1 b1) (rotate b1 8) in
    let b2 = add32 b1 a2 in
    let a3 = bit_xor (sub32 a2 c2) (rotate c2 16) in
    let c3 = add32 c2 b2 in
    let b3 = bit_xor (sub32 b2 a3) (rotate a3 19) in
    let a4 = add32 a3 c3 in
    let c4 = bit_xor (sub32 c3 b3) (rotate b3 4) in let b4 = add32 b3 a4 in (a4, b4, c4)

unfoldable pub finalise : (a b c : ℕ) → ℕ
unfolding rotate
finalise a b c =
    let c1 = sub32 (bit_xor c b) (rotate b 14) in
    let a1 = sub32 (bit_xor a c1) (rotate c1 11) in
    let b1 = sub32 (bit_xor b a1) (rotate a1 25) in
    let c2 = sub32 (bit_xor c1 b1) (rotate b1 16) in
    let a2 = sub32 (bit_xor a1 c2) (rotate c2 4) in
    let b2 = sub32 (bit_xor b1 a2) (rotate a2 14) in sub32 (bit_xor c2 b2) (rotate b2 24)

-- The loop, and the left-overs of up to three dwords.
pub dwords_from : List ℕ → (state : ℕ × ℕ × ℕ) → ℕ
dwords_from [] (a, b, c) = c
dwords_from (x ∷ []) (a, b, c) = finalise (add32 a x) b c
dwords_from (x ∷ y ∷ []) (a, b, c) = finalise (add32 a x) (add32 b y) c
dwords_from (x ∷ y ∷ z ∷ []) (a, b, c) = finalise (add32 a x) (add32 b y) (add32 c z)
dwords_from (x ∷ y ∷ z ∷ w ∷ input) (a, b, c) =
    dwords_from (w ∷ input) (mix (add32 a x) (add32 b y) (add32 c z))

-- The state at the start, for an input of `len` bytes.
abbrev pub start : (len init : ℕ) → ℕ × ℕ × ℕ
start len init = let s = u32 (hash_initial_value + u32 len + init) in (s, s, s)

pub hash_dwords : (input : List ℕ) → (init : ℕ) → ℕ
hash_dwords input init = dwords_from input (start (length input * 4) init)

-- What up to four bytes add to a dword, the first at the bottom.
abbrev pub word_le : List ℕ → ℕ
word_le [] = 0
word_le (x ∷ bytes) = x + word_le bytes * 2 ^ 8

abbrev pub add_word : ℕ → List ℕ → ℕ
add_word a [] = a
add_word a (x ∷ bytes) = add32 a (word_le (x ∷ bytes))

-- Up to twelve bytes.
pub left_over : List ℕ → (state : ℕ × ℕ × ℕ) → ℕ
left_over [] (a, b, c) = c
left_over (x ∷ bytes) (a, b, c) =
    finalise (add_word a (take 4 (x ∷ bytes))) (add_word b (take 4 (drop 4 (x ∷ bytes))))
      (add_word c (drop 8 (x ∷ bytes)))

-- The loop, while more than twelve bytes are left.
pub bytes_from : List ℕ → (state : ℕ × ℕ × ℕ) → ℕ
unfolding left_over
bytes_from (x0 ∷ x1 ∷ x2 ∷ x3 ∷ y0 ∷ y1 ∷ y2 ∷ y3 ∷ z0 ∷ z1 ∷ z2 ∷ z3 ∷ next ∷ input) (a, b, c) =
    bytes_from (next ∷ input) (
      mix (add32 a (word_le (x0 ∷ x1 ∷ x2 ∷ x3 ∷ []))) (add32 b (word_le (y0 ∷ y1 ∷ y2 ∷ y3 ∷ [])))
        (add32 c (word_le (z0 ∷ z1 ∷ z2 ∷ z3 ∷ []))))
bytes_from input state = left_over input state

pub hash_bytes : (input : List ℕ) → (init : ℕ) → ℕ
hash_bytes input init = bytes_from input (start (length input) init)
