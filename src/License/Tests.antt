-- ===== src/License/Tests.antt =====
-- The theorems on licence keys at concrete buffers, and runs of the code (common/efx_lic.c).
use gld.Base.{
  ℕ, ◌<◌, ◌≡◌, ◌⊎◌, refl, true, List, [], ◌∷◌, ◌++◌, some, enospc, length, replicate, arith, ok,
  err, fault,
}
use gld.Tlv.Segment.{overwrite, memmove}
use gld.License.V1v2.{find_key, validate_key, read_key, write_key, delete_key, create_partition}
use gld.License.Keys.{lay, IsKeys, Stored}
use gld.License.Delete.{delete_key-Stored}
use gld.License.Write.{write_key-Stored}
use gld.License.V3

-- A key of six bytes, and one of nine.
abbrev short_key : List ℕ
short_key = 1 ∷ 0 ∷ 2 ∷ 0 ∷ 9 ∷ 8 ∷ []

abbrev long_key : List ℕ
long_key = 2 ∷ 0 ∷ 5 ∷ 0 ∷ 7 ∷ 6 ∷ 5 ∷ 1 ∷ 0 ∷ []

accepted : IsKeys (short_key ∷ long_key ∷ [])
unfolding validate_key
accepted = (refl, (refl, tt))

delete_key-Stored_example :
    (b' : List ℕ) × (delete_key (lay (short_key ∷ long_key ∷ []) (5 ∷ [])) 20 6 9 19 ≡ ok (b', 9))
    × (length b' ≡ 20)
    × Stored b' 0 (short_key ∷ []) 10
delete_key-Stored_example =
    delete_key-Stored (short_key ∷ []) [] long_key (5 ∷ []) (omega arith) accepted

write_key-Stored_example :
    ((12 < 9) × (write_key (lay (short_key ∷ []) (replicate 12 0)) 22 6 long_key ≡ err enospc))
    ⊎ ((b' : List ℕ) × (write_key (lay (short_key ∷ []) (replicate 12 0)) 22 6 long_key
          ≡ ok (b', 9))
        × (b' ≡ lay (short_key ∷ long_key ∷ []) (replicate 3 0))
        × Stored b' 0 (short_key ∷ long_key ∷ []) 19)
write_key-Stored_example =
    write_key-Stored (short_key ∷ []) long_key 12 (omega arith) (omega arith) accepted

-- The short key with what is left behind it when the long key was deleted.
abbrev deleted : List ℕ
deleted = short_key ++ (0 ∷ 0 ∷ 0 ∷ 0 ∷ 7 ∷ 6 ∷ 5 ∷ 1 ∷ 0 ∷ 0 ∷ 0 ∷ 0 ∷ 0 ∷ [])

delete_leaves : delete_key (lay (short_key ∷ long_key ∷ []) []) 19 6 9 19 ≡ ok (deleted, 9)
unfolding delete_key memmove overwrite
delete_leaves = refl

-- Then a key of five bytes.
abbrev added : List ℕ
added = short_key ++ (3 ∷ 0 ∷ 1 ∷ 0 ∷ 9 ∷ 6 ∷ 5 ∷ 1 ∷ 0 ∷ 0 ∷ 0 ∷ 0 ∷ 0 ∷ [])

add_in_place : write_key deleted 19 6 (3 ∷ 0 ∷ 1 ∷ 0 ∷ 9 ∷ []) ≡ ok (added, 5)
unfolding write_key overwrite
add_in_place = refl

-- No terminator follows it, but a key that nobody wrote.
stale : find_key added 19 11 ≡ ok (some (11, 5))
unfolding find_key
stale = refl

-- The length in a header may go beyond the buffer: the key is found, and reading it faults.
beyond : find_key (1 ∷ 0 ∷ 9 ∷ 0 ∷ 7 ∷ []) 5 0 ≡ ok (some (0, 13))
unfolding find_key
beyond = refl

read_beyond : read_key (1 ∷ 0 ∷ 9 ∷ 0 ∷ 7 ∷ []) 5 0 13 64 ≡ fault
unfolding read_key
read_beyond = refl

-- A key of V3 carries its length in a byte.
v3_key : V3.validate_key (3 ∷ 1 ∷ replicate 63 0) ≡ ok true
unfolding V3.validate_key
v3_key = refl

created : create_partition (9 ∷ 9 ∷ 9 ∷ 9 ∷ 9 ∷ []) 5 ≡ ok (0 ∷ 0 ∷ 0 ∷ 0 ∷ 9 ∷ [])
unfolding create_partition overwrite
created = refl
