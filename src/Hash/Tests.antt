-- ===== src/Hash/Tests.antt =====
-- The hash at concrete inputs (common/efx_hash.c).
use gld.Base.{ℕ, ◌≡◌, refl, List, [], ◌∷◌, arith}
use gld.Tlv.Buffer.{unpack}
use gld.Hash.{hash_dwords, hash_bytes, dwords_from, mix, finalise}
use gld.Hash.Bytes.{hash_bytes-hash_dwords}

abbrev words : List ℕ
words = 0x01020304 ∷ 5 ∷ 6 ∷ 0xffffffff ∷ []

abbrev memory : List ℕ
memory = 4 ∷ 3 ∷ 2 ∷ 1 ∷ 5 ∷ 0 ∷ 0 ∷ 0 ∷ 6 ∷ 0 ∷ 0 ∷ 0 ∷ 0xff ∷ 0xff ∷ 0xff ∷ 0xff ∷ []

hash_bytes-hash_dwords_example : hash_bytes memory 0x1234 ≡ hash_dwords words 0x1234
unfolding unpack
hash_bytes-hash_dwords_example = hash_bytes-hash_dwords words 0x1234 (omega arith)

-- One round of mixing, and the final one.
hash_of_words : hash_dwords words 0x1234 ≡ 0xb2bbaec1
unfolding hash_dwords dwords_from mix finalise
hash_of_words = refl
