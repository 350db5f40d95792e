-- ===== src/Vpd/Hunk/Lookup.antt =====
-- efx_vpd_hunk_get on the encoding of a list of blocks.
use gld.Base.{
  ℕ, ◌+◌, ◌^◌, ◌≤◌, ◌<◌, ◌≡◌, Option, none, some, List, length, take, drop, Outcome, ok, err,
  enoent,
}
use gld.Vpd.{Keyword}
use gld.Vpd.Hunk.{Search, found, missed}

-- What hunk_get is to return for a payload, or for none.
abbrev pub Gets : List ℕ → Option (List ℕ) → Outcome (ℕ × ℕ) → Type 0
Gets buf none r = r ≡ err enoent
Gets buf (some p) r = (pos : ℕ) × (r ≡ ok (pos, length p)) × (take (length p) (drop pos buf) ≡ p)

module _ (buf : List ℕ) (size : ℕ) (small : size < 2 ^ 32) where
  abbrev BlockFinds : ℕ → ℕ → Option (List ℕ) → Outcome Search → Type 0
  BlockFinds offset taglen none r = r ≡ ok (missed 0)
  BlockFinds offset taglen (some p) r =
      (k : Keyword) × (q : ℕ) × (r ≡ ok (found k q 0))
      × (k.keylen ≡ length p)
      × (take (length p) (drop (offset + q + 3) buf) ≡ p)
      × (q + 3 + length p ≤ taglen)
