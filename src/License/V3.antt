-- ===== src/License/V3.antt =====
-- The key format of V3: licence items in a TLV partition (common/efx_lic.c, efx_lic_v3_*).
pub mod Cycle
use gld.Base.{
  ℕ, ◌+◌, ◌%◌, ◌^◌, Bool, true, false, List, Option, einval, efault, length, ltb, ◌==◌,
  if◌then◌else◌, Outcome, ok, err, fault, timeout, ◌>>=◌, ◌>>◌, read_at,
}
use gld.Tlv.{Memory}
use gld.Tlv.Buffer.{
  buffer_find_item_start, buffer_find_end, buffer_find_item, buffer_get_item, buffer_insert_item,
  buffer_delete_item, buffer_create, buffer_finish, buffer_validate,
}
use gld.License.{KeyOps}

abbrev pub key_length_min : ℕ
key_length_min = 64

abbrev pub key_length_max : ℕ
key_length_max = 128

abbrev pub hash_length : ℕ
hash_length = 64

abbrev pub partition_type_license : ℕ
partition_type_license = 0x900

pub find_start : Memory → (size : ℕ) → Outcome ℕ
find_start = buffer_find_item_start

pub find_end : Memory → (size offset : ℕ) → Outcome ℕ
find_end m size offset = buffer_find_end m size

unfoldable pub find_key : Memory → (size offset : ℕ) → Outcome (Option (ℕ × ℕ))
find_key = buffer_find_item

-- `key_length` is a uint8_t.
abbrev pub fits_header : (key_type k len : ℕ) → Bool
fits_header key_type k len =
    let key_length = (k + hash_length) % 2 ^ 8 in
    if ltb key_length_max key_length
    then false
    else if ltb key_type 3
    then false
    else (key_length == len)

unfoldable pub validate_key : List ℕ → Outcome Bool
validate_key key =
    if ltb (length key) key_length_min
    then ok false
    else (read_at key 0 >>= λ t. read_at key 1 >>= λ k. ok (fits_header t k (length key)))

unfoldable pub read_key : Memory → (size offset len key_max_size : ℕ) → Outcome (List ℕ)
read_key = buffer_get_item

unfoldable pub write_key : Memory → (size offset : ℕ) → List ℕ → Outcome (Memory × ℕ)
write_key = buffer_insert_item

pub delete_key : Memory → (size offset len end : ℕ) → Outcome (Memory × ℕ)
delete_key m size offset len end = do m1 ← buffer_delete_item m size offset; ok (m1, len)

-- Any error of the creation becomes EFAULT.
create_error : Outcome Memory → Outcome Memory
create_error (ok m) = ok m
create_error (err e) = err efault
create_error fault = fault
create_error timeout = timeout

pub create_partition : Memory → (size : ℕ) → Outcome Memory
unfolding create_error
create_partition m size = create_error (buffer_create m partition_type_license size)

unfoldable pub finish_partition : Memory → (size : ℕ) → Outcome Memory
finish_partition m size = do m1 ← buffer_finish m size; buffer_validate m1 size >> ok m1

pub v3_ops : KeyOps Memory
v3_ops = record {
  find_start = find_start;
  find_end = find_end;
  find_key = find_key;
  validate_key = validate_key;
  read_key = read_key;
  write_key = write_key;
  delete_key = delete_key;
  create_partition = create_partition;
  finish_partition = finish_partition;
}
