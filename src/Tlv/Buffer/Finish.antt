-- ===== src/Tlv/Buffer/Finish.antt =====
-- ef10_nvram_buffer_finish and ef10_nvram_buffer_validate on a partition with a header, items and a
-- trailer (common/ef10_nvram.c).
use gld.Base.{
  read_at-get, ℕ, ◌+◌, ◌-◌, ◌*◌, ◌/◌, ◌^◌, ◌≤◌, ◌<◌, ◌≡◌, refl, sym, ap, ◌∙◌, inr, List, [], ◌∷◌,
  ◌++◌, Option, some, get_elem?, length, length-set, set, sum, sum-take-set, take, le→ltb, le→leb,
  ne→==, u32, arith, ok,
}
use gld.Tlv.{Memory, tag_partition_header, tag_partition_trailer}
use gld.Tlv.Motion.{at}
use gld.Tlv.Segment.{block_length_used, used_bytes, require_end_of}
use gld.Tlv.Items.{Item, Laid, finish, finish-le, validate-Laid}
use gld.Tlv.Layout.{Laid-split, Laid-end, finish-append}
use gld.Tlv.Ends.{Unset, require_end-Laid}
use gld.Tlv.Buffer.{sub32, sum_dwords, checksum_tlv_partition, update_partition_len_and_cks}
use gld.Tlv.Buffer.Fields.{Laid-set_at, poke-set}

-- The fields of a header that is an item: type and preset, generation, total length.
abbrev pub header : (type generation total : ℕ) → Item
header type generation total = record {
  tag = tag_partition_header;
  len = 12;
  words = type ∷ generation ∷ total ∷ [];
}

abbrev pub trailer : (generation checksum : ℕ) → Item
trailer generation checksum = record {
  tag = tag_partition_trailer;
  len = 8;
  words = generation ∷ checksum ∷ [];
}

-- A partition: its header, its items, its trailer.
abbrev pub partition :
    (type generation total : ℕ) → List Item → (trailer_generation checksum : ℕ) → List Item
partition type generation total is h k = header type generation total ∷ (is ++ (trailer h k ∷ []))

pub block_length_used-Laid :
    (m : Memory) (b l : ℕ) (e : Option ℕ) (is : List Item)
    → Laid m l b is
    → Unset e (finish b is)
    → block_length_used m (at b b e l)
      ≡ ok ((finish b is + 1 - b) * 4, at b b (some (finish b is)) l)
unfolding block_length_used require_end_of used_bytes
block_length_used-Laid m b l e is laid unset =
    rw
      (
        validate-Laid m b e l b is (omega arith) laid,
        require_end-Laid m l b (some b) e is laid unset,
      )
      refl

pub checksum-Laid :
    (m : Memory) (l end : ℕ) (is : List Item)
    → l < length m
    → Laid m l 0 is
    → finish 0 is ≡ end
    → checksum_tlv_partition m (at 0 0 (some end) l) ≡ ok (u32 (sum (take (end + 1) m)))
unfolding checksum_tlv_partition sum_dwords
checksum-Laid m l end is inside laid h =
    let top = (Laid-end m l 0 is laid).1 in
    rw
      (
        block_length_used-Laid m 0 l (some end) is laid (inr (ap some (sym h))),
        h,
        (let z : (end + 1 - 0) * 4 / 4 ≡ end + 1 = omega arith in z),
        le→leb (0 + (end + 1)) (length m) (omega arith),
      )
      refl

module _ (m : Memory) (l type g total h k : ℕ) (is : List Item) (inside : l < length m)
    (small : 4 * l + 4 < 2 ^ 32) (laid : Laid m l 0 (partition type g total is h k)) where
  -- The trailer's position.
  abbrev pub tr : ℕ
  tr = finish 5 is

  pub finish-partition : (x y z u v : ℕ) → finish 0 (partition x y z is u v) ≡ tr + 4
  finish-partition x y z u v = finish-append 5 is (trailer u v ∷ [])

  abbrev pub total' : ℕ
  total' = (tr + 4 + 1) * 4

  abbrev pub g' : ℕ
  g' = u32 (g + 1)

  abbrev m1 : Memory
  m1 = set m 4 total'

  abbrev m2 : Memory
  m2 = set m1 3 g'

  abbrev m3 : Memory
  m3 = set m2 (tr + 2) g'

  abbrev s : ℕ
  s = u32 (sum (take (tr + 4 + 1) m3))

  abbrev pub finished : Memory
  finished = set m3 (tr + 3) (sub32 k s)

  pub top : tr + 4 ≤ l
  top = omega (
    arith,
    (Laid-end m l 0 (partition type g total is h k) laid).1,
    finish-partition type g total h k,
  )

  laid1 : Laid m1 l 0 (partition type g total' is h k)
  laid1 =
      Laid-set_at m l 0 2 total' 4 [] (is ++ (trailer h k ∷ [])) (header type g total) inside
        (omega arith) refl laid

  laid2 : Laid m2 l 0 (partition type g' total' is h k)
  laid2 =
      Laid-set_at m1 l 0 1 g' 3 [] (is ++ (trailer h k ∷ [])) (header type g total')
        (omega (arith, length-set m 4 total')) (omega arith) refl laid1

  pub lengths :
      (length m1 ≡ length m)
      × (length m2 ≡ length m)
      × (length m3 ≡ length m)
      × (length finished ≡ length m)
  lengths =
      let e1 = length-set m 4 total' in
      let e2 = length-set m1 3 g' in
      let e3 = length-set m2 (tr + 2) g' in
      let e4 = length-set m3 (tr + 3) (sub32 k s) in (e1, e2 ∙ e1, e3 ∙ e2 ∙ e1, e4 ∙ e3 ∙ e2 ∙ e1)

  laid3 : Laid m3 l 0 (partition type g' total' is g' k)
  laid3 =
      Laid-set_at m2 l 0 0 g' (tr + 2) (header type g' total' ∷ is) [] (trailer h k)
        (omega (arith, lengths)) (omega arith) (omega arith) laid2

  pub finished-Laid : Laid finished l 0 (partition type g' total' is g' (sub32 k s))
  finished-Laid =
      Laid-set_at m3 l 0 1 (sub32 k s) (tr + 3) (header type g' total' ∷ is) [] (trailer g' k)
        (omega (arith, lengths)) (omega arith) (omega arith) laid3

  -- A dword of the trailer.
  field :
      (m' : Memory) (x y z u v : ℕ)
      → Laid m' l 0 (partition x y z is u v)
      → (get_elem? m' (tr + 2) ≡ some u) × (get_elem? m' (tr + 3) ≡ some v)
  field m' x y z u v laid' =
      let (_, (item, holds, _, _)) =
        Laid-split m' l 0 (header x y z ∷ is) (trailer u v ∷ []) laid' in
      (holds 2 (omega arith), holds 3 (omega arith))

  pub update-finished :
      (e : Option ℕ) → Unset e (tr + 4) → update_partition_len_and_cks m (at 0 0 e l) ≡ ok finished
  unfolding update_partition_len_and_cks
  update-finished e unset =
      let end = finish-partition type g total h k in
      let used : block_length_used m (at 0 0 e l)
          ≡ ok ((tr + 4 + 1) * 4, at 0 0 (some (tr + 4)) l) =
        block_length_used-Laid m 0 l e (partition type g total is h k) laid (rw end unset)
        ∙ rw (end, (let z : tr + 4 + 1 - 0 ≡ tr + 4 + 1 = omega arith in z)) refl in
      let f = finish-le 5 is in
      rw
        (
          read_at-get m 0 tag_partition_header (laid.1 0 (omega arith)),
          used,
          ne→== ((tr + 4 + 1) * 4) 0 (omega arith),
          (let z : u32 ((tr + 4 + 1) * 4) ≡ total' = omega (arith, top) in z),
          poke-set m 4 total' (omega (arith, top)),
          read_at-get m1 3 g (laid1.1 3 (omega arith)),
          poke-set m1 3 g' (omega (arith, top, lengths)),
          (let z : 0 + (tr + 4 + 1) * 4 / 4 ≡ tr + 5 = omega arith in z),
          le→ltb (tr + 5) 5 (omega arith),
          (let z : tr + 5 - 5 ≡ tr = omega arith in z),
          poke-set m2 (tr + 2) g' (omega (arith, top, lengths)),
          read_at-get m3 (tr + 3) k (field m3 type g' total' g' k laid3).1,
          checksum-Laid m3 l (tr + 4) (partition type g' total' is g' k) (omega (arith, lengths))
              laid3 (finish-partition type g' total' g' k),
          poke-set m3 (tr + 3) (sub32 k s) (omega (arith, top, lengths)),
        )
        refl

  -- The dwords of the finished partition add up to 0.
  pub finished-sum : u32 (sum (take (tr + 4 + 1) finished)) ≡ 0
  finished-sum =
      let change =
        sum-take-set (tr + 4 + 1) (tr + 3) k (sub32 k s) m3 (omega arith)
          (field m3 type g' total' g' k laid3).1 in
      omega (arith, change)
