-- ===== src/Tlv/Tests.antt =====
-- The theorems on TLV segments at concrete partitions, and runs of the code (common/ef10_nvram.c).
use gld.Base.{
  ℕ, ◌+◌, ◌<◌, ◌≡◌, ◌⊎◌, inl, refl, sym, ap, ◌∙◌, List, [], ◌∷◌, none, some, enospc, einval,
  get_elem?, length, take, drop, replicate, arith, ok, err, fault,
}
use gld.Tlv.{
  Memory, moved, tag_end, tag_partition_header, tag_partition_trailer, tag_license, find, advance,
  stop_at, init_cursor, require_end, init_cursor_from_size, init_cursor_at_offset,
}
use gld.Tlv.Motion.{at, Finds, find-Finds}
use gld.Tlv.Segment.{
  last_segment_end, insert, delete, scan, segment_end, pack, open_gap, overwrite, memmove,
  write_item, block_length_used, used_bytes, require_end_of,
}
use gld.Tlv.Extent.{LastEnd, last_segment_end-LastEnd}
use gld.Tlv.Items.{Item, encode, Holds, Laid, locate, find-Laid}
use gld.Tlv.Move.{get_elem?-part}
use gld.Tlv.Packed.{item_of, Inserted}
use gld.Tlv.Insert.{insert-Laid}
use gld.Tlv.Delete.{Deleted, delete-Laid}
use gld.Tlv.Buffer.{buffer_create, buffer_validate, buffer_insert_item, buffer_get_item}
use gld.Tlv.Buffer.Edits.{buffer_insert_item-buffer_get_item}
use gld.Tlv.Buffer.Finish.{partition, header, trailer}

-- Dwords are there if a part of the buffer is equal to them.
Holds-part : (m : Memory) (p : ℕ) (ws : List ℕ) → take (length ws) (drop p m) ≡ ws → Holds m p ws
Holds-part m p ws h j lt =
    sym (get_elem?-part m p (length ws) j lt) ∙ ap (λ (v : List ℕ). get_elem? v j) h

-- A partition with one licence, of three bytes, in a buffer of 80 bytes.
abbrev pub licence : Item
licence = record { tag = tag_license; len = 3; words = 0x030201 ∷ [] }

abbrev items : List Item
items = partition 5 2 52 (licence ∷ []) 2 9

abbrev pub licensed : Memory
licensed =
    tag_partition_header
    ∷ 12
    ∷ 5
    ∷ 2
    ∷ 52
    ∷ tag_license
    ∷ 3
    ∷ 0x030201
    ∷ tag_partition_trailer
    ∷ 8
    ∷ 2
    ∷ 9
    ∷ tag_end
    ∷ replicate 7 0xFFFFFFFF

pub licensed-Laid : Laid licensed 19 0 items
licensed-Laid = (
  (omega arith, refl),
  Holds-part licensed 0 (encode (header 5 2 52)) refl,
  omega arith,
  (
    (omega arith, refl),
    Holds-part licensed 5 (encode licence) refl,
    omega arith,
    (
      (omega arith, refl),
      Holds-part licensed 8 (encode (trailer 2 9)) refl,
      omega arith,
      (refl, omega arith),
    ),
  ),
)

-- Finding the trailer, from a cursor anywhere.
find-Finds_example :
    Finds licensed 0 none 19 tag_partition_trailer
      (find licensed (at 0 11 none 19) tag_partition_trailer)
find-Finds_example = find-Finds licensed (at 0 11 none 19) tag_partition_trailer (omega arith)

last_segment_end_example :
    (x : ℕ) × (last_segment_end licensed (at 0 5 none 19) ≡ ok x) × (LastEnd licensed 19 0 x)
last_segment_end_example = last_segment_end-LastEnd licensed (at 0 5 none 19) (omega arith)

find-Laid_example : find licensed (at 0 0 none 19) tag_license ≡ moved (at 0 5 none 19)
unfolding locate
find-Laid_example = find-Laid licensed 0 19 (some 0) none items tag_license licensed-Laid (inl refl)

last_is_12 : last_segment_end licensed (at 0 8 (some 12) 19) ≡ ok 12
unfolding last_segment_end scan segment_end init_cursor require_end stop_at advance
last_is_12 = refl

-- Room for a licence of two bytes before the trailer.
insert-Laid_example :
    ((19 < 12 + 1 + 3) × (insert licensed (at 0 8 none 19) tag_license (7 ∷ 8 ∷ []) ≡ err enospc))
    ⊎ ((m' : Memory) × (insert licensed (at 0 8 none 19) tag_license (7 ∷ 8 ∷ [])
          ≡ ok (m', at 0 8 (some 15) 19))
        × Inserted licensed m' 8 12 (item_of tag_license (7 ∷ 8 ∷ []))
        × (Laid m' 19 0
            (header 5 2 52 ∷ licence ∷ item_of tag_license (7 ∷ 8 ∷ []) ∷ trailer 2 9 ∷ [])))
unfolding pack
insert-Laid_example =
    insert-Laid licensed 0 19 none (header 5 2 52 ∷ licence ∷ []) (trailer 2 9 ∷ []) tag_license
      (7 ∷ 8 ∷ []) 12 (omega arith) licensed-Laid (inl refl) (omega arith) (omega arith) last_is_12

-- The licence is taken out again.
delete-Laid_example :
    ((20 < 12 + 1 + 3) × (delete licensed (at 0 5 none 19) ≡ fault))
    ⊎ ((m' : Memory) × (delete licensed (at 0 5 none 19) ≡ ok (m', at 0 5 (some 9) 19))
        × Deleted licensed m' 5 12 3
        × (Laid m' 19 0 (header 5 2 52 ∷ trailer 2 9 ∷ [])))
unfolding last_segment_end scan segment_end init_cursor require_end stop_at advance
delete-Laid_example =
    delete-Laid licensed 0 19 none (header 5 2 52 ∷ []) (trailer 2 9 ∷ []) licence 12 (omega arith)
      licensed-Laid (inl refl) refl

-- The partition with a second licence.
abbrev pub twice : Memory
twice =
    tag_partition_header
    ∷ 12
    ∷ 5
    ∷ 2
    ∷ 52
    ∷ tag_license
    ∷ 3
    ∷ 0x030201
    ∷ tag_license
    ∷ 2
    ∷ 0x0807
    ∷ tag_partition_trailer
    ∷ 8
    ∷ 2
    ∷ 9
    ∷ tag_end
    ∷ replicate 4 0xFFFFFFFF

pub insert_item-licensed : buffer_insert_item licensed 80 32 (7 ∷ 8 ∷ []) ≡ ok (twice, 12)
unfolding buffer_insert_item init_cursor_at_offset insert require_end stop_at advance
    last_segment_end scan segment_end open_gap memmove write_item pack
insert_item-licensed = refl

insert_item-get_item_example :
    (buffer_get_item twice 80 32 12 64 ≡ ok (7 ∷ 8 ∷ []))
    × (Laid twice 19 0
        (header 5 2 52 ∷ licence ∷ item_of tag_license (7 ∷ 8 ∷ []) ∷ trailer 2 9 ∷ []))
insert_item-get_item_example =
    buffer_insert_item-buffer_get_item licensed twice 19 12 64 (header 5 2 52 ∷ licence ∷ [])
      (trailer 2 9 ∷ []) (7 ∷ 8 ∷ []) (omega arith) (omega arith) (omega arith) (omega arith)
      licensed-Laid insert_item-licensed (omega arith)

-- A partition below 44 bytes is refused, though the code's own bound is 36.
create_40 : buffer_create (replicate 12 0) 5 40 ≡ err einval
unfolding buffer_create overwrite init_cursor insert require_end stop_at last_segment_end scan
    segment_end open_gap memmove write_item pack advance block_length_used used_bytes require_end_of
    init_cursor_from_size buffer_validate
create_40 = refl
