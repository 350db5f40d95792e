-- ===== src/Tlv/Ends.antt =====
-- The END tags of a segment that is laid out (common/ef10_nvram.c): tlv_require_end finds its own,
-- and tlv_last_segment_end one that is not before it.
use gld.Base.{
  ℕ, suc, ◌+◌, ◌-◌, ◌≤◌, ◌<◌, ◌≡◌, ◌⊎◌, refl, ap, ◌∙◌, inl, inr, List, [], ◌∷◌, Option, none, some,
  length, ne→==, arith, Outcome, ok,
}
use gld.Tlv.{Memory, moved, require_end, init_cursor, find, tag_end}
use gld.Tlv.Motion.{at}
use gld.Tlv.Extent.{LastEnd, segment_end-EndTag, scan-LastEnd}
use gld.Tlv.Segment.{segment_end, scan, last_segment_end}
use gld.Tlv.Items.{Item, size, Laid, finish, finish-le, locate, find-Laid, validate-Laid, answer}
use gld.Tlv.Layout.{Laid-end}

-- A cursor whose end is unset or right.
abbrev pub Unset : Option ℕ → ℕ → Type 0
Unset e last = (e ≡ none) ⊎ (e ≡ some last)

module _ (m : Memory) (l : ℕ) where
  pub locate-end :
      (p : ℕ) (is : List Item) → Laid m l p is → locate p is tag_end ≡ some (finish p is)
  unfolding locate
  locate-end p [] h = refl
  locate-end p (i ∷ is) (item, holds, room, rest) =
      rw (ne→== i.tag tag_end item.0) (locate-end (p + size i) is rest)

  pub require_end-Laid :
      (b : ℕ) (pos e : Option ℕ) (is : List Item)
      → Laid m l b is
      → Unset e (finish b is)
      → require_end m (record { block = b; current = pos; end = e; limit = l })
        ≡ moved (record { block = b; current = pos; end = some (finish b is); limit = l })
  unfolding require_end
  require_end-Laid b pos e is laid (inr k) = rw k refl
  require_end-Laid b pos e is laid (inl k) =
      let at_tag = locate-end b is laid in
      let found : find m (record { block = b; current = pos; end = none; limit = l }) tag_end
          ≡ moved (at b (finish b is) none l) =
        find-Laid m b l pos none is tag_end laid (rw at_tag (inl refl))
        ∙ ap (answer m b none l) at_tag in
      rw (k, found) refl

  pub segment_end-Laid :
      (b : ℕ) (is : List Item) → Laid m l b is → segment_end m l b ≡ ok (finish b is)
  unfolding segment_end init_cursor
  segment_end-Laid b is laid =
      rw
        (
          validate-Laid m b none l b is (omega arith) laid,
          require_end-Laid b (some b) none is laid (inl refl),
        )
        refl

  last-le : (end x : ℕ) → LastEnd m l end x → end ≤ l → x ≤ l
  last-le end x (h, inl e) k = omega arith
  last-le end x (h, inr (_, e, _)) k = e

  abbrev pub Later : ℕ → Outcome ℕ → Type 0
  Later end r = (last : ℕ) × (r ≡ ok last) × (end ≤ last) × (last ≤ l)

  after_first :
      (n b end : ℕ) → l < length m → end ≤ l → l ≤ n + end → Later end (scan (suc n) m l b (ok end))
  unfolding scan
  after_first n b end inside h k =
      let (x, run, found) =
        scan-LastEnd m l inside n end (end + 1) (segment_end m l (end + 1)) (omega arith)
          (omega arith) (segment_end-EndTag m l inside (end + 1)) in
      (x, run, found.0, last-le end x found h)

  pub last_segment_end-Laid :
      (b : ℕ) (pos e : Option ℕ) (is : List Item)
      → l < length m
      → Laid m l b is
      → Later
          (finish b is)
          (last_segment_end m (record { block = b; current = pos; end = e; limit = l }))
  unfolding last_segment_end
  last_segment_end-Laid b pos e is inside laid =
      let here = Laid-end m l b is laid in
      rw
        (
          segment_end-Laid b is laid,
          (let z : l + 2 - b ≡ suc (l + 1 - b) = omega (arith, finish-le b is, here.1) in z),
        )
        (after_first (l + 1 - b) b (finish b is) inside here.1 (omega (arith, finish-le b is)))
