-- ===== src/License/V1v2.antt =====
-- The key format of V1 and V2: keys of at most 256 bytes behind a header of type and length, one
-- after the other up to a header of zeros (common/efx_lic.c, efx_lic_v1v2_*).
use gld.Base.{
  ℕ, ◌+◌, ◌-◌, ◌*◌, ◌%◌, ◌^◌, Bool, false, List, Option, none, some, enospc, length, take, drop,
  replicate, ltb, leb, ◌==◌, ◌&&◌, ◌||◌, if◌then◌else◌, Outcome, ok, fault, ◌>>=◌, ◌>>◌, fail_if,
  read_at, u32,
}
use gld.Tlv.Segment.{overwrite, memmove}
use gld.License.{KeyOps}

abbrev pub payload_length_max : ℕ
payload_length_max = 256

abbrev pub header_length : ℕ
header_length = 4

-- `a - b`, for size_t
abbrev pub sub64 : ℕ → ℕ → ℕ
sub64 a b = (a + 2 ^ 64 - b) % 2 ^ 64

-- The uint16_t at `p`, the low byte first.
unfoldable pub word_at : List ℕ → ℕ → Outcome ℕ
word_at b p = do x ← read_at b p; y ← read_at b (p + 1); ok (x + y * 2 ^ 8)

pub find_start : List ℕ → (size : ℕ) → Outcome ℕ
find_start b size = ok 0

unfoldable pub find_end : List ℕ → (size offset : ℕ) → Outcome ℕ
find_end b size offset = ok (u32 (offset + header_length))

-- The key whose header is of type `t` and length `n`, unless that is the terminator.
abbrev pub key_at : (offset t n : ℕ) → Option (ℕ × ℕ)
key_at offset t n =
    if (ltb payload_length_max n) || ((t == 0) && (n == 0))
    then none
    else some (offset, n + header_length)

unfoldable pub find_key : List ℕ → (size offset : ℕ) → Outcome (Option (ℕ × ℕ))
unfolding word_at
find_key b size offset =
    if ltb (sub64 size offset) header_length
    then ok none
    else (word_at b offset >>= λ t. word_at b (offset + 2) >>= λ n. ok (key_at offset t n))

abbrev pub fits_header : (t n len : ℕ) → Bool
fits_header t n len =
    if ltb payload_length_max n then false else if t == 0 then false else (n + header_length == len)

unfoldable pub validate_key : List ℕ → Outcome Bool
unfolding word_at
validate_key key =
    if ltb (length key) header_length
    then ok false
    else (word_at key 0 >>= λ t. word_at key 2 >>= λ n. ok (fits_header t n (length key)))

unfoldable pub read_key : List ℕ → (size offset len key_max_size : ℕ) → Outcome (List ℕ)
read_key b size offset len key_max_size = do
  fail_if (ltb key_max_size len) enospc
  if leb (offset + len) (length b) then ok (take len (drop offset b)) else fault

unfoldable pub write_key : List ℕ → (size offset : ℕ) → List ℕ → Outcome (List ℕ × ℕ)
write_key b size offset key = do
  fail_if (ltb (sub64 size header_length) (u32 (offset + length key))) enospc
  b1 ← overwrite b offset key
  ok (b1, length key)

-- What stands behind the key moves down.
unfoldable pub delete_key : List ℕ → (size offset len end : ℕ) → Outcome (List ℕ × ℕ)
delete_key b size offset len end = do
  let move_start = u32 (offset + len)
  let move_length = u32 (end + 2 ^ 32 - move_start)
  b1 ← memmove b offset move_start move_length
  ok (b1, len)

unfoldable pub create_partition : List ℕ → (size : ℕ) → Outcome (List ℕ)
create_partition b size = overwrite b 0 (replicate header_length 0)

pub finish_partition : List ℕ → (size : ℕ) → Outcome (List ℕ)
finish_partition b size = ok b

-- __efx_lic_v1_ops and __efx_lic_v2_ops have the same key operations.
pub v1v2_ops : KeyOps (List ℕ)
v1v2_ops = record {
  find_start = find_start;
  find_end = find_end;
  find_key = find_key;
  validate_key = validate_key;
  read_key = read_key;
  write_key = write_key;
  delete_key = delete_key;
  create_partition = create_partition;
  finish_partition = finish_partition;
}
