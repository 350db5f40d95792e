-- ===== src/Hash/Bytes.antt =====
-- The hash of bytes is the hash of the dwords that they make up (common/efx_hash.c).
use gld.Base.{ℕ, ◌*◌, ◌/◌, ◌%◌, ◌^◌, ◌<◌, ◌≡◌, refl, ap, ap₂, ◌∙◌, List, [], ◌∷◌, length, arith}
use gld.Tlv.Buffer.{unpack}
use gld.Hash.{
  add32, mix, finalise, dwords_from, word_le, bytes_from, start, hash_dwords, hash_bytes,
}

abbrev pub IsDwords : List ℕ → Type 0
IsDwords [] = Unit {0}
IsDwords (w ∷ ws) = (w < 2 ^ 32) × IsDwords ws

-- The bytes of a dword, the lowest first.
abbrev bytes_of : ℕ → List ℕ
bytes_of w = w % 2 ^ 8 ∷ w / 2 ^ 8 % 2 ^ 8 ∷ w / 2 ^ 16 % 2 ^ 8 ∷ w / 2 ^ 24 % 2 ^ 8 ∷ []

word_le-bytes_of : (w : ℕ) → w < 2 ^ 32 → word_le (bytes_of w) ≡ w
word_le-bytes_of w h = omega arith

length-unpack : (ws : List ℕ) → length (unpack ws) ≡ length ws * 4
unfolding unpack
length-unpack [] = refl
length-unpack (w ∷ ws) = omega (arith, length-unpack ws)

bytes_from-unpack :
    (ws : List ℕ) (state : ℕ × ℕ × ℕ)
    → IsDwords ws
    → bytes_from (unpack ws) state ≡ dwords_from ws state
unfolding bytes_from dwords_from unpack
bytes_from-unpack [] (a, b, c) h = refl
bytes_from-unpack (x ∷ []) (a, b, c) (hx, _) =
    ap (λ (v : ℕ). finalise (add32 a v) b c) (word_le-bytes_of x hx)
bytes_from-unpack (x ∷ y ∷ []) (a, b, c) (hx, (hy, _)) =
    ap₂ (λ (v w : ℕ). finalise (add32 a v) (add32 b w) c) (word_le-bytes_of x hx)
      (word_le-bytes_of y hy)
bytes_from-unpack (x ∷ y ∷ z ∷ []) (a, b, c) (hx, (hy, (hz, _))) =
    ap₂ (λ (v w : ℕ). finalise (add32 a v) (add32 b w) (add32 c (word_le (bytes_of z))))
      (word_le-bytes_of x hx) (word_le-bytes_of y hy)
    ∙ ap (λ (v : ℕ). finalise (add32 a x) (add32 b y) (add32 c v)) (word_le-bytes_of z hz)
bytes_from-unpack (x ∷ y ∷ z ∷ w ∷ ws) (a, b, c) (hx, (hy, (hz, more))) =
    let p = add32 b (word_le (bytes_of y)) in
    let q = add32 c (word_le (bytes_of z)) in
    bytes_from-unpack (w ∷ ws) (mix (add32 a (word_le (bytes_of x))) p q) more
    ∙ ap (λ (v : ℕ). dwords_from (w ∷ ws) (mix (add32 a v) p q)) (word_le-bytes_of x hx)
    ∙ ap₂ (λ (u v : ℕ). dwords_from (w ∷ ws) (mix (add32 a x) (add32 b u) (add32 c v)))
        (word_le-bytes_of y hy) (word_le-bytes_of z hz)

-- On a little-endian machine efx_hash_bytes of the bytes of dwords, as they stand in memory, is
-- efx_hash_dwords of the dwords, for every count of them and every initial value.
pub hash_bytes-hash_dwords :
    (ws : List ℕ) (init : ℕ) → IsDwords ws → hash_bytes (unpack ws) init ≡ hash_dwords ws init
unfolding hash_bytes hash_dwords
hash_bytes-hash_dwords ws init h =
    bytes_from-unpack ws (start (length (unpack ws)) init) h
    ∙ ap (λ (n : ℕ). dwords_from ws (start n init)) (length-unpack ws)
