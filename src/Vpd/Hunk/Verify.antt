-- ===== src/Vpd/Hunk/Verify.antt =====
-- What efx_vpd_hunk_verify establishes of a buffer.
use gld.Base.{ℕ, ◌+◌, ◌^◌, ◌≤◌, ◌<◌, ◌≡◌, Bool, true, List, length, get_or, take, sum, u8}
use gld.Vpd.{Keyword, rv_keyword, keyword_of}
use gld.Vpd.Hunk.Safety.{KeywordIn}

-- The first `n` bytes end in an RV keyword's header and its first payload byte, and sum to 0.
pub record IsChecksum (buf : List ℕ) (size n : ℕ) : Type 0 where
  pub start : ℕ
  pub header : start + 4 ≡ n
  pub inside : n ≤ size
  pub is_rv : keyword_of (get_or buf start 0) (get_or buf (start + 1) 0) ≡ rv_keyword
  pub sums : u8 (sum (take n buf)) ≡ 0

module _ (buf : List ℕ) (size : ℕ) (fits : size ≤ length buf) (small : size < 2 ^ 32) where
  -- The flag `cksummed` is set only where a correct checksum stands.
  abbrev Sound : Bool → Type 0
  Sound b = b ≡ true → (n : ℕ) × IsChecksum buf size n

  module _ (offset taglen : ℕ) (inside : offset + taglen ≤ size) (short : taglen < 2 ^ 16) where
    abbrev Reads : ℕ → Keyword → Type 0
    Reads pos k =
        KeywordIn taglen pos k
        × (k.keyword ≡ keyword_of (get_or buf (offset + pos) 0) (get_or buf (offset + pos + 1) 0))
