-- ===== src/Vpd.antt =====
-- The headers of a VPD hunk (common/efx_vpd.c): resource tags and the keywords of a VPD-R block.
-- A hunk is a list of bytes; a position is an `unsigned int`, kept below 2 ^ 32.
pub mod Format
pub mod Hunk
pub mod Edit
pub mod Decode
mod Tests
use gld.Base.{ℕ, ◌+◌, ◌*◌, ◌/◌, ◌%◌, Bool, ◌||◌, Option, none, some, List, ltb, leb, ◌==◌}
use gld.Base.{if◌then◌else◌, u8, u16, u32, Outcome, ok, err, ◌>>=◌, ◌>>◌, fail_if, read_at, efault}

-- `efx_vpd_tag_t`
pub data Tag : Type 0 where
  id end vpd_r vpd_w : Tag

-- The tags that a hunk may hold: EFX_VPD_RW is not one of them.
pub tag_of : ℕ → Option Tag
tag_of name =
    if name == 0x0f
    then some end
    else if name == 0x02
    then some id
    else if name == 0x10
    then some vpd_r
    else none

-- What `efx_vpd_next_tag` decodes of a header before it checks it.
pub record RawTag : Type 0 where
  pub headlen : ℕ
  pub name : ℕ
  pub length : ℕ

-- `*tagp`, `*lengthp` and the new `*offsetp`.
pub record TagHead : Type 0 where
  pub tag : Tag
  pub taglen : ℕ
  pub offset : ℕ

-- Bit 7 of the first byte tells a large item from a small one.
pub raw_tag : List ℕ → ℕ → ℕ → ℕ → Outcome RawTag
raw_tag buf size offset byte =
    if byte / 128 == 0
    then ok (record { headlen = 1; name = byte / 8 % 16; length = byte % 8 })
    else do
      fail_if (ltb size (offset + 3)) efault
      lo ← read_at buf (u32 (offset + 1))
      hi ← read_at buf (u32 (offset + 2))
      ok (record { headlen = 3; name = byte % 128; length = u16 (lo + 256 * hi) })

abbrev known_tag : ℕ → Outcome Tag
unfolding tag_of
known_tag name = elim (tag_of name) [ none ↦ err efault | some t ↦ ok t ]

pub next_tag : List ℕ → ℕ → ℕ → Outcome TagHead
unfolding raw_tag tag_of
next_tag buf size offset = do
  fail_if (leb size offset) efault
  byte ← read_at buf offset
  raw ← raw_tag buf size offset byte
  fail_if (ltb size (offset + raw.headlen + raw.length)) efault
  tag ← known_tag raw.name
  ok (record { tag = tag; taglen = raw.length; offset = u32 (offset + raw.headlen) })

-- `EFX_VPD_KEYWORD(x, y)` of two `char`s, as a `uint16_t`: a negative `x` sets the upper byte.
pub keyword_of : ℕ → ℕ → ℕ
keyword_of x y = if ltb x 128 then x + 256 * y else x + 0xff00

-- EFX_VPD_KEYWORD('R', 'V')
abbrev pub rv_keyword : ℕ
rv_keyword = b'R' + 256 * b'V'

pub record Keyword : Type 0 where
  pub keyword : ℕ
  pub keylen : ℕ

-- `tag` is the position of the block's first byte, `size` the block's length.
pub next_keyword : List ℕ → ℕ → ℕ → ℕ → Outcome Keyword
unfolding keyword_of
next_keyword buf tag size pos = do
  fail_if (ltb size (u32 (pos + 3))) efault
  x ← read_at buf (tag + pos)
  y ← read_at buf (tag + u32 (pos + 1))
  z ← read_at buf (tag + u32 (pos + 2))
  let len = u8 z
  fail_if (len == 0 || ltb size (u32 (pos + 3 + len))) efault
  ok (record { keyword = keyword_of x y; keylen = len })
