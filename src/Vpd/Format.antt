-- ===== src/Vpd/Format.antt =====
-- The bytes of a VPD hunk, described by what they hold: blocks with an identifier string, VPD-R
-- blocks with keywords, and an end tag. This is the reference for the walks of common/efx_vpd.c.
use gld.Base.{
  ℕ, ◌+◌, ◌/◌, ◌%◌, ◌^◌, ◌<◌, Option, none, some, List, [], ◌∷◌, ◌++◌, length, take, ◌==◌,
  if◌then◌else◌,
}
use gld.Vpd.{Tag, id, vpd_r, keyword_of}

pub record Entry : Type 0 where
  pub x : ℕ
  pub y : ℕ
  pub payload : List ℕ

pub data Block : Type 0 where
  ident : List ℕ → Block
  read_only : List Entry → Block

abbrev pub encode_entry : Entry → List ℕ
encode_entry e = e.x ∷ e.y ∷ length e.payload ∷ e.payload

abbrev pub encode_entries : List Entry → List ℕ
encode_entries [] = []
encode_entries (e ∷ es) = encode_entry e ++ encode_entries es

-- A large item: the tag and a 16-bit length.
abbrev pub encode_item : ℕ → List ℕ → List ℕ
encode_item tag body = (128 + tag) ∷ (length body % 256) ∷ (length body / 256) ∷ body

abbrev pub encode_block : Block → List ℕ
encode_block (ident p) = encode_item 0x02 p
encode_block (read_only es) = encode_item 0x10 (encode_entries es)

abbrev pub encode_blocks : List Block → List ℕ
encode_blocks [] = 0x78 ∷ []
encode_blocks (b ∷ bs) = encode_block b ++ encode_blocks bs

abbrev pub All {ℓ} : {A : Type ℓ} → (A → Type 0) → List A → Type 0
All P [] = Unit {0}
All P (x ∷ xs) = P x × All P xs

abbrev pub FitsEntry : Entry → Type 0
FitsEntry e = (0 < length e.payload) × (length e.payload < 256)

abbrev pub FitsBlock : Block → Type 0
FitsBlock (ident p) = length p < 2 ^ 16
FitsBlock (read_only es) = (length (encode_entries es) < 2 ^ 16) × All FitsEntry es

abbrev pub lookup_entries : ℕ → List Entry → Option (List ℕ)
lookup_entries keyword [] = none
lookup_entries keyword (e ∷ es) =
    if keyword_of e.x e.y == keyword then some e.payload else lookup_entries keyword es

abbrev pub or_else : Option (List ℕ) → Option (List ℕ) → Option (List ℕ)
or_else none o = o
or_else (some p) o = some p

-- The first payload under a tag and a keyword; an identifier string counts up to 255 bytes.
abbrev pub lookup : Tag → ℕ → List Block → Option (List ℕ)
lookup tag keyword [] = none
lookup id keyword (ident p ∷ bs) = some (take 0xff p)
lookup vpd_r keyword (read_only es ∷ bs) =
    or_else (lookup_entries keyword es) (lookup vpd_r keyword bs)
lookup tag keyword (b ∷ bs) = lookup tag keyword bs
