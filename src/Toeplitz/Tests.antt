-- ===== src/Toeplitz/Tests.antt =====
-- The Toeplitz hash at a known key and connection (sfxge_hash.c).
use gld.Base.{ℕ, ◌≡◌, refl, List, [], ◌∷◌, ◌++◌, arith, ok, fault, ◌>>=◌}
use gld.Toeplitz.{toeplitz_cache_init, cache_from, hash_connection}
use gld.Toeplitz.Window.{bits, toeplitz}
use gld.Toeplitz.Connection.{hash_connection-toeplitz}

-- The key by which implementations of receive side scaling are compared.
abbrev rss_key : List ℕ
rss_key =
    0x6d ∷ 0x5a ∷ 0x56 ∷ 0xda ∷ 0x25 ∷ 0x5b ∷ 0x0e ∷ 0xc2 ∷ 0x41 ∷ 0x67 ∷ 0x25 ∷ 0x3d ∷ 0x43 ∷ 0xa3
    ∷ 0x8f ∷ 0xb0 ∷ 0xd0 ∷ 0xca ∷ 0x2b ∷ 0xcb ∷ 0xae ∷ 0x7b ∷ 0x30 ∷ 0xb4 ∷ 0x77 ∷ 0xcb ∷ 0x2d
    ∷ 0xa3 ∷ 0x80 ∷ 0x30 ∷ 0xf2 ∷ 0x0c ∷ 0x6a ∷ 0x42 ∷ 0xb7 ∷ 0x3b ∷ 0xbe ∷ 0xac ∷ 0x01 ∷ 0xfa ∷ []

abbrev source : List ℕ
source = 66 ∷ 9 ∷ 149 ∷ 187 ∷ []

abbrev destination : List ℕ
destination = 161 ∷ 142 ∷ 100 ∷ 80 ∷ []

addresses : toeplitz (bits (source ++ destination)) (bits rss_key) ≡ 0x323e8fc2
addresses = refl

-- Ports 2794 and 1766, in network order.
hash_connection-toeplitz_example :
    (toeplitz_cache_init rss_key >>= λ cache.
    hash_connection cache 4 source 0xea0a destination 0xe606)
    ≡ ok (
        toeplitz
          (bits (source ++ (destination ++ (0x0a ∷ 0xea ∷ 0x06 ∷ 0xe6 ∷ []))))
          (bits rss_key))
hash_connection-toeplitz_example =
    hash_connection-toeplitz rss_key source destination 0xea0a 0xe606 refl (omega arith)
      (omega arith) (omega arith) refl (omega arith)

connection :
    toeplitz (bits (source ++ (destination ++ (0x0a ∷ 0xea ∷ 0x06 ∷ 0xe6 ∷ [])))) (bits rss_key)
    ≡ 0x51ccc178
connection = refl

short_key : toeplitz_cache_init (1 ∷ 2 ∷ 3 ∷ 4 ∷ []) ≡ fault
unfolding toeplitz_cache_init cache_from
short_key = refl
