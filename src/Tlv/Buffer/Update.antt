-- ===== src/Tlv/Buffer/Update.antt =====
-- Reading and writing one item of a segment in a host buffer, and the checks of a segment's size
-- (common/ef10_nvram.c, ef10_nvram_buf_*). A size is a multiple of four.
use gld.Base.{
  ℕ, zero, suc, ◌+◌, ◌-◌, ◌/◌, ◌^◌, Bool, not, List, [], Option, none, some, einval, efault, efbig,
  enoent, enomem, enospc, ltb, ◌==◌, if◌then◌else◌, Outcome, ok, err, fault, timeout, ◌>>=◌, ◌>>◌,
  fail_if, read_at, u32,
}
use gld.Tlv.{
  Memory, Cursor, Walk, moved, failed, astray, unfinished, tag, item_length, find, advance, rewind,
  at_end, init_cursor_from_size, tag_end, tag_partition_header, tag_partition_trailer,
}
use gld.Tlv.Segment.{present, block_length_used, insert, modify}
use gld.Tlv.Buffer.{settle_as, poke, sum_dwords, bytes_at}

-- The value of the first item with the tag; no memory is wanted for an empty one. `allocated` tells
-- whether there is memory for it.
unfoldable pub buf_read_tlv : Memory → (size t : ℕ) → (allocated : Bool) → Outcome (List ℕ)
buf_read_tlv m size t allocated = do
  fail_if (size == 0) einval
  c ← settle_as efault (init_cursor_from_size m size)
  c1 ← settle_as enoent (find m c t)
  p ← present c1.current
  n ← present (item_length m c1)
  if n == 0 then ok [] else (fail_if (not allocated) enomem >> bytes_at m (p + 2) n)

-- The cursor that a step has left, also where it failed.
left : Walk → Outcome Cursor
left (moved c) = ok c
left (failed e c) = ok c
left astray = fault
left unfinished = timeout

-- `same` tells whether the END tag is the one found before; `goto fail10` returns 0 as well.
header_step : Option ℕ → (same : Bool) → Outcome (Unit {0}) → Outcome (Unit {0})
header_step none same rest = fault
header_step (some t) same rest =
    if t == tag_end
    then (if same then ok tt else ok tt)
    else if t == tag_partition_header
    then err einval
    else rest

check_headers : ℕ → Memory → Option ℕ → Walk → Outcome (Unit {0})
unfolding header_step
check_headers n m end (failed e c) = err e
check_headers n m end astray = fault
check_headers n m end unfinished = timeout
check_headers zero m end (moved c) = timeout
check_headers (suc n) m end (moved c) =
    let rest = check_headers n m end (advance m c) in
    header_step (tag m c) (at_end c.current end) rest

-- The total length of the segment that starts the buffer.
unfoldable pub buf_segment_size : Memory → (max_size : ℕ) → Outcome ℕ
unfolding check_headers left
buf_segment_size m max_size = do
  c ← settle_as efault (init_cursor_from_size m max_size)
  t ← present (tag m c)
  fail_if (not (t == tag_partition_header)) einval
  header ← present c.current
  total ← read_at m (header + 4)
  fail_if (ltb max_size total) efbig
  c1 ← settle_as einval (find m c tag_partition_trailer)
  c2 ← settle_as einval (advance m c1)
  t2 ← present (tag m c2)
  fail_if (not (t2 == tag_end)) einval
  s ← sum_dwords m 0 ((total + 3) / 4)
  fail_if (not (s == 0)) einval
  used ← block_length_used m c2
  fail_if (ltb max_size used.0) einval
  fail_if (not (used.0 == total)) einval
  c3 ← left (rewind m used.1)
  check_headers (max_size / 4 + 2) m c2.current (advance m c3)
  ok total

refuse : Outcome (Memory × Cursor) → Outcome (Memory × Cursor)
refuse (err e) = err einval
refuse r = r

-- Modify the item that was found, or insert a new one before the trailer.
update_chain : Memory → (t : ℕ) → List ℕ → Walk → Outcome (Memory × Cursor)
unfolding refuse
update_chain m t value (moved c) = modify m c t value
update_chain m t value (failed e c) = do
  c1 ← settle_as einval (find m c tag_partition_trailer)
  refuse (insert m c1 t value)
update_chain m t value astray = fault
update_chain m t value unfinished = timeout

-- The buffer and the segment's total length.
unfoldable pub buf_write_tlv : Memory → (size t : ℕ) → List ℕ → Outcome (Memory × ℕ)
unfolding update_chain
buf_write_tlv m size t value = do
  c ← settle_as efault (init_cursor_from_size m size)
  t0 ← present (tag m c)
  fail_if (not (t0 == tag_partition_header)) einval
  header ← present c.current
  r ← update_chain m t value (find m c t)
  c1 ← settle_as einval (find r.0 r.1 tag_partition_trailer)
  trailer ← present c1.current
  used ← block_length_used r.0 c1
  fail_if (ltb size used.0) enospc
  g ← read_at r.0 (header + 3)
  let generation = u32 (g + 1)
  m1 ← poke r.0 (header + 4) (u32 used.0)
  m2 ← poke m1 (header + 3) generation
  m3 ← poke m2 (trailer + 2) generation
  m4 ← poke m3 (trailer + 3) 0
  s ← sum_dwords m4 0 ((used.0 + 3) / 4)
  m5 ← poke m4 (trailer + 3) (u32 (2 ^ 32 - s))
  ok (m5, used.0)
