-- ===== src/Vpd/Tests.antt =====
-- A VPD hunk with an identifier, a part number and a checksum; the theorems at this and other inputs.
use gld.Base.{
  ℕ, ◌+◌, ◌*◌, ◌≡◌, true, false, List, [], ◌∷◌, ◌++◌, length, drop, replicate, arith, ok,
}
use gld.Vpd.Format.{Entry, Block, ident, read_only, encode_blocks}
use gld.Vpd.Hunk.{hunk_verify}
use gld.Vpd.Edit.Reinit.{fresh, hunk_reinit_lem, hunk_verify-reinit}

abbrev part : Entry
part = record { x = b'P'; y = b'N'; payload = 7 ∷ 8 ∷ [] }

abbrev blocks : List Block
blocks =
    ident (b'N' ∷ b'I' ∷ b'C' ∷ [])
    ∷ read_only (part ∷ record { x = b'R'; y = b'V'; payload = 0xb0 ∷ [] } ∷ [])
    ∷ []

abbrev hunk : List ℕ
hunk = encode_blocks blocks ++ (0xff ∷ 0xff ∷ [])

abbrev pn : ℕ
pn = b'P' + 256 * 78

abbrev blank : List ℕ
blank = replicate 256 0

-- A hunk of one VPD-R block with one keyword and no checksum.
abbrev bare : List Block
bare = read_only (part ∷ []) ∷ []

hunk_verify-reinit_example :
    (length (encode_blocks (fresh false) ++ drop 8 blank) ≡ 256)
    × (hunk_verify (encode_blocks (fresh false) ++ drop 8 blank) 256 ≡ ok true)
hunk_verify-reinit_example =
    hunk_verify-reinit blank 256 false (omega arith) (omega arith)
      (hunk_reinit_lem blank 256 false (omega arith))
