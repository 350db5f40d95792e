-- ===== src/Tlv/Buffer/Validate.antt =====
-- A partition that ef10_nvram_buffer_finish has finished passes ef10_nvram_buffer_validate
-- (common/ef10_nvram.c).
use gld.Base.{
  read_at-get, ℕ, ◌+◌, ◌*◌, ◌/◌, ◌<◌, ◌≡◌, ◌≢◌, refl, ap, ◌∙◌, inl, List, [], ◌∷◌, ◌++◌, none, some,
  get_elem?, length, sum, take, le→ltb, le→leb, ==_iff, ne→==, u32, arith, ok,
}
use gld.Tlv.{
  Memory, moved, tag, find, advance, at_end, init_cursor_from_size, tag_end, tag_partition_trailer,
}
use gld.Tlv.Motion.{at}
use gld.Tlv.Items.{Item, size, Laid, finish, validate-Laid, locate, find-Laid, advance-Laid}
use gld.Tlv.Layout.{Laid-split}
use gld.Tlv.Buffer.{sum_dwords, buffer_validate}
use gld.Tlv.Buffer.Edits.{at_offset}
use gld.Tlv.Buffer.Finish.{partition, header, trailer}

-- No item of the list is a trailer.
abbrev pub NoTrailer : List Item → Type 0
NoTrailer [] = Unit {0}
NoTrailer (i ∷ is) = (i.tag ≢ tag_partition_trailer) × (NoTrailer is)

locate-trailer :
    (p h k : ℕ) (is : List Item)
    → NoTrailer is
    → locate p (is ++ (trailer h k ∷ [])) tag_partition_trailer ≡ some (finish p is)
unfolding locate
locate-trailer p h k [] no_other = refl
locate-trailer p h k (i ∷ is) (other, no_other) =
    rw (ne→== i.tag tag_partition_trailer other) (locate-trailer (p + size i) h k is no_other)

at_start :
    (m : Memory) (l : ℕ) (is : List Item)
    → Laid m l 0 is
    → init_cursor_from_size m (4 * l + 4) ≡ moved (at 0 0 none l)
unfolding init_cursor_from_size
at_start m l is laid = at_offset m l 0 ∙ validate-Laid m 0 none l 0 is (omega arith) laid

module _ (m : Memory) (l type g k : ℕ) (is : List Item) (inside : l < length m)
    (laid : Laid m l 0 (partition type g ((finish 5 is + 4 + 1) * 4) is g k))
    (no_other : NoTrailer is) where
  abbrev t : ℕ
  t = finish 5 is

  found : find m (at 0 0 none l) tag_partition_trailer ≡ moved (at 0 t none l)
  unfolding locate
  found =
      let here = locate-trailer 5 g k is no_other in
      find-Laid m 0 l (some 0) none (partition type g ((t + 4 + 1) * 4) is g k)
        tag_partition_trailer laid (rw here (inl refl))
      ∙ rw here refl

  rest : Laid m l t (trailer g k ∷ [])
  rest = (Laid-split m l 0 (header type g ((t + 4 + 1) * 4) ∷ is) (trailer g k ∷ []) laid).1

  beyond : advance m (at 0 t none l) ≡ moved (at 0 (t + 4) none l)
  unfolding at_end
  beyond = advance-Laid m 0 none l t (trailer g k) [] (omega arith) rest refl

  pub validate-ok : u32 (sum (take (t + 4 + 1) m)) ≡ 0 → buffer_validate m (4 * l + 4) ≡ ok tt
  unfolding buffer_validate tag sum_dwords
  validate-ok zero_sum =
      let total = (t + 4 + 1) * 4 in
      let (_, trailer_holds, room, (end, _)) = rest in
      rw
        (
          ne→== (4 * l + 4) 0 (omega arith),
          at_start m l (partition type g total is g k) laid,
          laid.1 0 (omega arith),
          read_at-get m 4 total (laid.1 4 (omega arith)),
          le→ltb (4 * l + 4) total (omega arith),
          found,
          beyond,
          (let z : get_elem? m (t + 4 + 0) ≡ some tag_end =
                ap (get_elem? m) (let y : t + 4 + 0 ≡ t + 4 = omega arith in y) ∙ end in
              z),
          read_at-get m (t + 2) g (trailer_holds 2 (omega arith)),
          read_at-get m 3 g (laid.1 3 (omega arith)),
          (==_iff g g).1 refl,
          (let z : (total + 3) / 4 ≡ t + 4 + 1 = omega arith in z),
          le→leb (0 + (t + 4 + 1)) (length m) (omega arith),
          zero_sum,
        )
        refl
