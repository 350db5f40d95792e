-- ===== src/Tlv.antt =====
-- The cursor over a TLV segment in a buffer of dwords (common/ef10_nvram.c): where it may stand,
-- how it moves, and how it finds a tag. Tags are those of common/ef10_tlv_layout.h.
pub mod Segment
pub mod Buffer
pub mod Tests
pub mod Motion
pub mod Extent
pub mod Items
pub mod Move
pub mod Layout
pub mod Ends
pub mod Packed
pub mod Insert
pub mod Delete
use gld.Base.{
  ℕ, zero, suc, ◌+◌, ◌-◌, ◌*◌, ◌/◌, ◌%◌, Bool, true, false, List, Option, none, some, Errno, einval,
  efault, enoent, get_elem?, ltb, ◌==◌, if◌then◌else◌, Outcome, ok, err, fault, timeout,
}

abbrev pub tag_end : ℕ
tag_end = 0xEEEEEEEE

abbrev pub tag_partition_header : ℕ
tag_partition_header = 0xEF10DA7A

abbrev pub tag_partition_trailer : ℕ
tag_partition_trailer = 0xEF101A57

abbrev pub tag_license : ℕ
tag_license = 0x30800000

-- The buffer, dword by dword, each in the byte order of the host. A pointer into it is an index,
-- and `none` is NULL.
abbrev pub Memory : Type 0
Memory = List ℕ

pub record Cursor : Type 0 where
  pub block : ℕ
  pub current : Option ℕ
  pub end : Option ℕ
  pub limit : ℕ

-- A step of the cursor returns 0 or an error number, and leaves the cursor in both cases. `astray`
-- is a read outside the buffer or through NULL, and `unfinished` a loop that ran out of fuel.
pub data Walk : Type 0 where
  moved : Cursor → Walk
  failed : Errno → Cursor → Walk
  astray unfinished : Walk

-- What a caller that gives up on an error takes from a step.
abbrev pub settle : Walk → Outcome Cursor
settle (moved c) = ok c
settle (failed e c) = err e
settle astray = fault
settle unfinished = timeout

abbrev pub dword : Memory → Option ℕ → ℕ → Option ℕ
dword m none i = none
dword m (some p) i = get_elem? m (p + i)

pub tag : Memory → Cursor → Option ℕ
tag m c = dword m c.current 0

length_of : Option ℕ → Option ℕ → Option ℕ
length_of none n = none
length_of (some t) n = if t == tag_end then some 0 else n

pub item_length : Memory → Cursor → Option ℕ
unfolding tag length_of
item_length m c = length_of (tag m c) (dword m c.current 1)

-- The dwords of an item: tag, length, and the value rounded up.
abbrev pub dword_count : ℕ → ℕ
dword_count n = 1 + 1 + (n + 4 - 1) / 4

after_item : Option ℕ → Option ℕ → Option ℕ
after_item (some p) (some n) = some (p + dword_count n)
after_item _ _ = none

pub next_item_ptr : Memory → Cursor → Option ℕ
unfolding item_length after_item
next_item_ptr m c = after_item c.current (item_length m c)

-- The item must leave room for itself and another tag.
check_next : Cursor → Option ℕ → Walk
check_next c none = astray
check_next c (some next) =
    if ltb c.limit (next + 1) then failed efault (record c { current = none }) else moved c

check_item : Memory → Cursor → ℕ → Option ℕ → Walk
unfolding check_next next_item_ptr
check_item m c p none = astray
check_item m c p (some t) =
    if t == tag_end
    then moved c
    else if ltb c.limit (p + 2)
    then failed efault (record c { current = none })
    else check_next c (next_item_ptr m c)

-- NULL is below every block.
check_position : Memory → Cursor → Option ℕ → Walk
unfolding check_item tag
check_position m c none = failed einval c
check_position m c (some p) =
    if ltb p c.block
    then failed einval c
    else if ltb c.limit p
    then failed einval c
    else check_item m c p (tag m c)

pub validate_state : Memory → Cursor → Walk
unfolding check_position
validate_state m c = check_position m c c.current

-- `current == end`, for pointers that may be NULL
pub at_end : Option ℕ → Option ℕ → Bool
at_end none none = true
at_end (some p) (some e) = p == e
at_end _ _ = false

step_item : Memory → Cursor → Option ℕ → Walk
unfolding validate_state
step_item m c none = astray
step_item m c (some next) = validate_state m (record c { current = some next })

step_from : Memory → Walk → Walk
unfolding step_item at_end next_item_ptr
step_from m (moved c) =
    if at_end c.current c.end
    then failed enoent (record c { current = none })
    else step_item m c (next_item_ptr m c)
step_from m (failed e c) = failed e c
step_from m astray = astray
step_from m unfinished = unfinished

pub advance : Memory → Cursor → Walk
unfolding step_from validate_state
advance m c = step_from m (validate_state m c)

pub rewind : Memory → Cursor → Walk
unfolding validate_state
rewind m c = validate_state m (record c { current = some c.block })

-- The test in the loop of `find`: stop here, or go on.
stop_at : ℕ → Option ℕ → Walk → Walk → Walk
stop_at t none here rest = astray
stop_at t (some u) here rest = if u == t then here else rest

find_from : ℕ → Memory → ℕ → Walk → Walk
find_from n m t (failed e c) = failed e c
find_from n m t astray = astray
find_from n m t unfinished = unfinished
find_from zero m t (moved c) = unfinished
find_from (suc n) m t (moved c) =
    let rest = find_from n m t (advance m c) in stop_at t (tag m c) (moved c) rest

-- Every item has two dwords at least, so the walk from `block` to `limit` is shorter than its fuel.
pub find : Memory → Cursor → ℕ → Walk
unfolding find_from rewind
find m c t = find_from (c.limit + 2 - c.block) m t (rewind m c)

pub init_cursor : Memory → (block limit current : ℕ) → Walk
unfolding validate_state
init_cursor m block limit current =
    validate_state m (record { block = block; current = some current; end = none; limit = limit })

-- Offsets and sizes are in bytes, and the block starts at 0. A buffer below four bytes has its
-- limit before the block; a pointer between two dwords is not a dword of the buffer.
pub init_cursor_at_offset : Memory → (size offset : ℕ) → Walk
unfolding init_cursor
init_cursor_at_offset m size offset =
    if ltb size 4
    then failed einval (record { block = 0; current = some (offset / 4); end = none; limit = 0 })
    else if offset % 4 == 0
    then init_cursor m 0 ((size - 4) / 4) (offset / 4)
    else astray

pub init_cursor_from_size : Memory → (size : ℕ) → Walk
unfolding init_cursor_at_offset
init_cursor_from_size m size = init_cursor_at_offset m size 0

-- Keep the END tag's position and put the cursor back.
keep_end : Option ℕ → Walk → Walk
keep_end pos (moved c) = moved (record c { end = c.current; current = pos })
keep_end pos w = w

require_end_at : Memory → Cursor → Option ℕ → Walk
unfolding keep_end find
require_end_at m c (some e) = moved c
require_end_at m c none = keep_end c.current (find m c tag_end)

pub require_end : Memory → Cursor → Walk
unfolding require_end_at
require_end m c = require_end_at m c c.end
