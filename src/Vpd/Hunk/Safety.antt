-- ===== src/Vpd/Hunk/Safety.antt =====
-- Every walk of Vpd.Hunk ends within its fuel and reads nothing beyond `size`, whatever the bytes.
use gld.Base.{ℕ, ◌+◌, ◌^◌, ◌≤◌, ◌<◌, List, length, get_elem?-eq-get_or, arith, u32, Settles}
use gld.Vpd.{TagHead, Keyword, next_tag, next_keyword}
use gld.Vpd.Hunk.{Search, found, missed, Item}

-- What a successful next_tag says of its result.
abbrev pub TagIn : ℕ → ℕ → TagHead → Type 0
TagIn size offset t = (offset < t.offset) × (t.offset + t.taglen ≤ size) × (t.taglen < 2 ^ 16)

abbrev pub KeywordIn : ℕ → ℕ → Keyword → Type 0
KeywordIn taglen pos k = (0 < k.keylen) × (pos + 3 + k.keylen ≤ taglen)

-- A keyword that a loop over a block stops at lies in the block.
abbrev FoundIn : ℕ → Search → Type 0
FoundIn taglen (found k pos index) = KeywordIn taglen pos k
FoundIn taglen (missed index) = Unit {0}

module _ (buf : List ℕ) (size : ℕ) (fits : size ≤ length buf) (small : size < 2 ^ 32) where
  pub next_tag-Settles : (offset : ℕ) → Settles (TagIn size offset) (next_tag buf size offset)
  unfolding next_tag
  next_tag-Settles offset = ground (
    arith,
    get_elem?-eq-get_or buf offset 0,
    get_elem?-eq-get_or buf (u32 (offset + 1)) 0,
    get_elem?-eq-get_or buf (u32 (offset + 2)) 0,
  )

  module _ (offset taglen : ℕ) (inside : offset + taglen ≤ size) (short : taglen < 2 ^ 16) where
    pub next_keyword-Settles :
        (pos : ℕ)
        → pos < taglen
        → Settles (KeywordIn taglen pos) (next_keyword buf offset taglen pos)
    unfolding next_keyword
    next_keyword-Settles pos h = ground (
      arith,
      get_elem?-eq-get_or buf (offset + pos) 0,
      get_elem?-eq-get_or buf (offset + u32 (pos + 1)) 0,
      get_elem?-eq-get_or buf (offset + u32 (pos + 2)) 0,
    )

  abbrev ItemIn : Item → Type 0
  ItemIn i = i.payload + i.paylen ≤ size

  abbrev PayloadIn : ℕ × ℕ → Type 0
  PayloadIn r = r.0 + r.1 ≤ size
