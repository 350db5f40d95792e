-- ===== src/Tlv/Buffer.antt =====
-- A TLV partition in a host buffer (common/ef10_nvram.c): its length and checksum, its validation
-- and creation, and the operations on its items by byte offset. A size is a multiple of four.
pub mod Value
pub mod Edits
pub mod Fields
pub mod Finish
pub mod Validate
pub mod Update
pub mod Find
use gld.Base.{
  ℕ, zero, suc, ◌+◌, ◌-◌, ◌*◌, ◌/◌, ◌%◌, ◌^◌, Bool, not, true, false, List, [], ◌∷◌, ◌++◌, Option,
  none, some, Errno, einval, efault, efbig, enospc, get_elem?, length, take, drop, replicate, set,
  sum, ltb, leb, ◌==◌, ◌||◌, if◌then◌else◌, Outcome, ok, err, fault, timeout, ◌>>=◌, ◌>>◌, fail_if,
  read_at, u32,
}
use gld.Tlv.{
  Memory, Cursor, Walk, moved, failed, astray, unfinished, settle, tag, item_length, next_item_ptr,
  find, advance, init_cursor, init_cursor_from_size, init_cursor_at_offset, require_end, tag_end,
  tag_partition_header, tag_partition_trailer, tag_license,
}
use gld.Tlv.Segment.{
  present, distance, overwrite, block_length_used, last_segment_end, insert, delete,
}

-- A caller's own error number, whatever the step's was.
abbrev pub settle_as : Errno → Walk → Outcome Cursor
settle_as e (moved c) = ok c
settle_as e (failed n c) = err e
settle_as e astray = fault
settle_as e unfinished = timeout

abbrev pub poke : Memory → ℕ → ℕ → Outcome Memory
poke m p v = if ltb p (length m) then ok (set m p v) else fault

-- `a - b`, for uint32_t
abbrev pub sub32 : ℕ → ℕ → ℕ
sub32 a b = u32 (a + 2 ^ 32 - b)

-- The sum of `n` dwords from `p`, as a uint32_t.
unfoldable pub sum_dwords : Memory → (p n : ℕ) → Outcome ℕ
sum_dwords m p n = if leb (p + n) (length m) then ok (u32 (sum (take n (drop p m)))) else fault

unfoldable pub checksum_tlv_partition : Memory → Cursor → Outcome ℕ
unfolding sum_dwords
checksum_tlv_partition m c = do used ← block_length_used m c; sum_dwords m c.block (used.0 / 4)

-- In dwords, the header is tag, length, type and preset, generation, total length, and the trailer
-- tag, length, generation, checksum.
unfoldable pub update_partition_len_and_cks : Memory → Cursor → Outcome Memory
unfolding checksum_tlv_partition
update_partition_len_and_cks m c = do
  t ← read_at m c.block
  fail_if (not (t == tag_partition_header)) efault
  used ← block_length_used m c
  fail_if (used.0 == 0) efault
  m1 ← poke m (c.block + 4) (u32 used.0)
  g ← read_at m1 (c.block + 3)
  let generation = u32 (g + 1)
  m2 ← poke m1 (c.block + 3) generation
  trailer ← distance (c.block + used.0 / 4) (4 + 1)
  m3 ← poke m2 (trailer + 2) generation
  k ← read_at m3 (trailer + 3)
  s ← checksum_tlv_partition m3 used.1
  poke m3 (trailer + 3) (sub32 k s)

-- The loop over `total` bytes reads a dword in each round.
unfoldable pub buffer_validate : Memory → (size : ℕ) → Outcome (Unit {0})
unfolding sum_dwords
buffer_validate m size = do
  fail_if (size == 0) einval
  c ← settle_as efault (init_cursor_from_size m size)
  t ← present (tag m c)
  fail_if (not (t == tag_partition_header)) einval
  header ← present c.current
  total ← read_at m (header + 4)
  fail_if (ltb size total) efbig
  c1 ← settle_as einval (find m c tag_partition_trailer)
  trailer ← present c1.current
  c2 ← settle_as einval (advance m c1)
  t2 ← present (tag m c2)
  fail_if (not (t2 == tag_end)) einval
  g ← read_at m (trailer + 2)
  h ← read_at m (header + 3)
  fail_if (not (g == h)) einval
  s ← sum_dwords m 0 ((total + 3) / 4)
  fail_if (not (s == 0)) einval

-- The header's value: type, preset 0, generation 1, total length 0.
header_value : ℕ → List ℕ
header_value type = type % 2 ^ 8 ∷ type / 2 ^ 8 ∷ 0 ∷ 0 ∷ 1 ∷ 0 ∷ 0 ∷ 0 ∷ 0 ∷ 0 ∷ 0 ∷ 0 ∷ []

-- The trailer's: generation 1, checksum 0.
trailer_value : List ℕ
trailer_value = 1 ∷ 0 ∷ 0 ∷ 0 ∷ 0 ∷ 0 ∷ 0 ∷ 0 ∷ []

unfoldable pub buffer_create : Memory → (type size : ℕ) → Outcome Memory
unfolding header_value trailer_value update_partition_len_and_cks buffer_validate
buffer_create m type size = do
  fail_if (ltb size (20 + 16)) einval
  m0 ← overwrite m 0 (replicate (size / 4) 0xFFFFFFFF)
  m1 ← poke m0 0 tag_end
  c ← settle (init_cursor m1 0 (size / 4) 0)
  r ← insert m1 c tag_partition_header (header_value type)
  c1 ← settle (advance r.0 r.1)
  r2 ← insert r.0 c1 tag_partition_trailer trailer_value
  m2 ← update_partition_len_and_cks r2.0 r2.1
  buffer_validate m2 size
  ok m2

-- From the block's start, in bytes.
unfoldable pub byte_offset : (position base : ℕ) → Outcome ℕ
byte_offset position base = do n ← distance position base; ok (u32 (n * 4))

unfoldable pub buffer_find_item_start : Memory → (size : ℕ) → Outcome ℕ
unfolding byte_offset
buffer_find_item_start m size = do
  c ← settle_as efault (init_cursor_from_size m size)
  t ← present (tag m c)
  fail_if (not (t == tag_partition_header)) einval
  c1 ← settle_as einval (advance m c)
  p ← present c1.current
  start ← byte_offset p c1.block
  c2 ← settle (require_end m c1)
  ok start

unfoldable pub buffer_find_end : Memory → (size : ℕ) → Outcome ℕ
unfolding byte_offset
buffer_find_end m size = do
  c ← settle_as efault (init_cursor_from_size m size)
  c1 ← settle (require_end m c)
  last ← last_segment_end m c1
  byte_offset (last + 1) c1.block

item_at : Cursor → Option ℕ → Option ℕ → Outcome (Option (ℕ × ℕ))
unfolding byte_offset
item_at c p next = do
  start ← present p
  stop ← present next
  offset ← byte_offset start c.block
  n ← byte_offset stop start
  ok (some (offset, n))

-- The body of the loop: no item at the END tag, past a header or a trailer, or the item found.
pick_item :
    Option ℕ → Outcome (Option (ℕ × ℕ)) → Outcome (Option (ℕ × ℕ)) → Outcome (Option (ℕ × ℕ))
pick_item none here rest = fault
pick_item (some t) here rest =
    if t == tag_end
    then ok none
    else if (t == tag_partition_header) || (t == tag_partition_trailer)
    then rest
    else here

find_item_from : ℕ → Memory → Walk → Outcome (Option (ℕ × ℕ))
unfolding pick_item item_at
find_item_from n m (failed e c) = ok none
find_item_from n m astray = fault
find_item_from n m unfinished = timeout
find_item_from zero m (moved c) = timeout
find_item_from (suc n) m (moved c) =
    let rest = find_item_from n m (advance m c) in
    pick_item (tag m c) (item_at c c.current (next_item_ptr m c)) rest

-- `none` is B_FALSE; an item has its offset and its length, in bytes.
unfoldable pub buffer_find_item : Memory → (size offset : ℕ) → Outcome (Option (ℕ × ℕ))
unfolding find_item_from
buffer_find_item m size offset =
    find_item_from (size / 4 + 2) m (init_cursor_at_offset m size offset)

-- The four bytes of each dword, the lowest first.
unfoldable pub unpack : List ℕ → List ℕ
unpack [] = []
unpack (w ∷ ws) =
    w % 2 ^ 8 ∷ (w / 2 ^ 8) % 2 ^ 8 ∷ (w / 2 ^ 16) % 2 ^ 8 ∷ (w / 2 ^ 24) % 2 ^ 8 ∷ unpack ws

-- `n` bytes from the dword at `p`
unfoldable pub bytes_at : Memory → (p n : ℕ) → Outcome (List ℕ)
unfolding unpack
bytes_at m p n =
    if leb (p + (n + 3) / 4) (length m)
    then ok (take n (unpack (take ((n + 3) / 4) (drop p m))))
    else fault

unfoldable pub buffer_get_item : Memory → (size offset len item_max_size : ℕ) → Outcome (List ℕ)
unfolding bytes_at
buffer_get_item m size offset len item_max_size = do
  fail_if (ltb item_max_size len) enospc
  c ← settle (init_cursor_at_offset m size offset)
  n ← present (item_length m c)
  fail_if (ltb len n) enospc
  p ← present c.current
  if n == 0 then ok [] else bytes_at m (p + 2) n

-- The buffer and the new item's length, in bytes.
unfoldable pub buffer_insert_item : Memory → (size offset : ℕ) → List ℕ → Outcome (Memory × ℕ)
unfolding byte_offset
buffer_insert_item m size offset key = do
  c ← settle (init_cursor_at_offset m size offset)
  r ← insert m c tag_license key
  p ← present r.1.current
  next ← present (next_item_ptr r.0 r.1)
  n ← byte_offset next p
  ok (r.0, n)

unfoldable pub buffer_delete_item : Memory → (size offset : ℕ) → Outcome Memory
buffer_delete_item m size offset = do
  c ← settle (init_cursor_at_offset m size offset)
  r ← delete m c
  ok r.0

unfoldable pub buffer_finish : Memory → (size : ℕ) → Outcome Memory
unfolding update_partition_len_and_cks
buffer_finish m size = do
  c ← settle_as efault (init_cursor_from_size m size)
  c1 ← settle (require_end m c)
  update_partition_len_and_cks m c1
