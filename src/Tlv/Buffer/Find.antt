-- ===== src/Tlv/Buffer/Find.antt =====
-- ef10_nvram_buffer_find_item at an item that is laid out (common/ef10_nvram.c).
use gld.Base.{
  ℕ, suc, ◌+◌, ◌-◌, ◌*◌, ◌/◌, ◌^◌, ◌<◌, ◌≡◌, ◌≢◌, refl, List, ◌∷◌, ◌++◌, some, none, le→ltb, ne→==,
  u32, arith, ok,
}
use gld.Tlv.{Memory, tag_partition_header, tag_partition_trailer, tag_end}
use gld.Tlv.Items.{Item, size, Laid, finish, next-Item, tag-Item}
use gld.Tlv.Layout.{Laid-split}
use gld.Tlv.Buffer.{byte_offset, buffer_find_item, find_item_from, pick_item, item_at}
use gld.Tlv.Buffer.Edits.{at_offset-Laid}

pub find_item-Laid :
    (m : Memory) (l : ℕ) (xs ys : List Item) (i : Item)
    → 4 * l + 4 < 2 ^ 32
    → i.tag ≢ tag_partition_header
    → i.tag ≢ tag_partition_trailer
    → Laid m l 0 (xs ++ (i ∷ ys))
    → buffer_find_item m (4 * l + 4) (4 * finish 0 xs)
      ≡ ok (some (4 * finish 0 xs, u32 (size i * 4)))
unfolding buffer_find_item find_item_from pick_item item_at byte_offset
find_item-Laid m l xs ys i small h t laid =
    let p = finish 0 xs in
    let (_, (item, holds, room, _)) = Laid-split m l 0 xs (i ∷ ys) laid in
    rw
      (
        at_offset-Laid m l xs (i ∷ ys) laid,
        (let z : (4 * l + 4) / 4 + 2 ≡ suc (l + 2) = omega arith in z),
        tag-Item m 0 none l p i item holds,
        next-Item m 0 none l p i item holds,
        ne→== i.tag tag_end item.0,
        ne→== i.tag tag_partition_header h,
        ne→== i.tag tag_partition_trailer t,
        le→ltb p 0 (omega arith),
        le→ltb (p + size i) p (omega arith),
        (let z : p + size i - p ≡ size i = omega arith in z),
        (let z : u32 ((p - 0) * 4) ≡ 4 * p = omega arith in z),
      )
      refl
