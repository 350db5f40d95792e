-- ===== src/Tlv/Insert.antt =====
-- tlv_insert on a segment that is laid out (common/ef10_nvram.c).
use gld.Base.{
  ℕ, ◌+◌, ◌-◌, ◌^◌, ◌≤◌, ◌<◌, ◌≡◌, ◌≢◌, refl, sym, ◌∙◌, List, ◌∷◌, ◌++◌, Option, some, enospc,
  length, ltb, lt→ltb, le→ltb, ne→==, arith, ok, err, ◌>>=◌, ok_injective, ◌⊎◌, inl, inr,
  Bool-cases, ltb→lt, ltb→le,
}
use gld.Tlv.{Memory, Cursor, dword_count, tag_end}
use gld.Tlv.Motion.{at}
use gld.Tlv.Segment.{memmove, last_segment_end, write_item, open_gap, insert}
use gld.Tlv.Items.{Item, size, Laid, finish, finish-le, validate-Laid}
use gld.Tlv.Layout.{Laid-split, Laid-join, Laid-Copies, Row-Copies, finish-append, finish-shift}
use gld.Tlv.Ends.{Unset, require_end-Laid, last_segment_end-Laid}
use gld.Tlv.Packed.{length-pack, item_of, size-item_of, Inserted, write-Inserted}

open_gap-enospc :
    (m : Memory) (c : Cursor) (p k last : ℕ)
    → c.limit < last + 1 + k
    → open_gap m c p k last ≡ err enospc
unfolding open_gap
open_gap-enospc m c p k last h = rw (lt→ltb c.limit (last + 1 + k) h) refl

open_gap-ok :
    (m m1 : Memory) (b q end l p k last : ℕ)
    → last + 1 + k ≤ l
    → p ≤ last
    → memmove m (p + k) p (last + 1 - p) ≡ ok m1
    → open_gap m (at b q (some end) l) p k last ≡ ok (m1, at b q (some (end + k)) l)
unfolding open_gap
open_gap-ok m m1 b q end l p k last h here run =
    rw
      (
        le→ltb l (last + 1 + k) h,
        le→ltb (last + 1) p (omega arith),
        run,
        (let z : end + k - 0 ≡ end + k = omega arith in z),
      )
      refl

module _ (m : Memory) (b l : ℕ) (e : Option ℕ) (xs ys : List Item) (t : ℕ) (value : List ℕ)
    (last : ℕ) (inside : l < length m) (laid : Laid m l b (xs ++ ys)) where
  abbrev p : ℕ
  p = finish b xs

  abbrev end : ℕ
  end = finish b (xs ++ ys)

  abbrev new : Item
  new = item_of t value

  abbrev known : Cursor
  known = at b p (some end) l

  Inserted-Laid :
      (m' : Memory)
      → t ≢ tag_end
      → end ≤ last
      → last + 1 + size new ≤ l
      → Inserted m m' p last new
      → Laid m' l b (xs ++ (new ∷ ys))
  Inserted-Laid m' real h room w =
      let (row, rest) = Laid-split m l b xs ys laid in
      let e1 = finish-append b xs ys in
      let e2 = finish-shift p (p + size new) ys in
      let f = finish-le p ys in
      let g = finish-le b xs in
      Laid-join m' l b xs (new ∷ ys)
        (Row-Copies m m' l l b b (p - b) xs (λ k lt. w.before (b + k) (omega arith)) (omega arith)
          (omega arith) row)
        (
          (real, length-pack value),
          w.holds,
          omega arith,
          Laid-Copies m m' l l p (p + size new) (last + 1 - p) ys w.behind (omega arith)
              (omega arith) rest,
        )

  insert_steps :
      Unset e end
      → t ≢ tag_end
      → last_segment_end m known ≡ ok last
      → insert m (at b p e l) t value ≡ (
          open_gap m known p (dword_count (length value)) last >>= λ r.
          write_item r.0 p t value >>= λ m2. ok (m2, r.1))
  unfolding insert
  insert_steps unset real run =
      rw
        (
          validate-Laid m b e l p ys (finish-le b xs) (Laid-split m l b xs ys laid).1,
          require_end-Laid m l b (some p) e (xs ++ ys) laid unset,
          ne→== t tag_end real,
          run,
        )
        refl

  last_bounds : last_segment_end m known ≡ ok last → (end ≤ last) × (last ≤ l)
  last_bounds run =
      let (x, run', h, k) =
        last_segment_end-Laid m l b (some p) (some end) (xs ++ ys) inside laid in
      let z : x ≡ last = ok_injective (sym run' ∙ run) in (omega arith, omega arith)

  insert-enospc :
      Unset e end
      → t ≢ tag_end
      → last_segment_end m known ≡ ok last
      → l < last + 1 + size new
      → insert m (at b p e l) t value ≡ err enospc
  insert-enospc unset real run h =
      insert_steps unset real run
      ∙ rw
          (open_gap-enospc m known p (dword_count (length value)) last
            (omega (arith, size-item_of t value)))
          refl

  insert-ok :
      Unset e end
      → t ≢ tag_end
      → length value < 2 ^ 32
      → last_segment_end m known ≡ ok last
      → last + 1 + size new ≤ l
      → (m' : Memory) × (insert m (at b p e l) t value ≡ ok (m', at b p (some (end + size new)) l))
        × Inserted m m' p last new
  insert-ok unset real small run room =
      let h = (last_bounds run).0 in
      let here : p ≤ last = omega (arith, finish-le p ys, finish-append b xs ys) in
      let (m1, m2, moves, writes, w) = write-Inserted m p last l t value small here room inside in
      let z : dword_count (length value) ≡ size new = sym (size-item_of t value) in
      let opens = open_gap-ok m m1 b p end l p (size new) last room here moves in
      (m2, insert_steps unset real run ∙ rw (z, opens, writes) refl, w)

-- tlv_insert refines the insertion into the list of items. On a segment that is laid out from the
-- block's start, with the cursor behind the items `xs` and its end unset or known, a tag that is not
-- END, and a value below 4 GB: where the chain of segments up to its last END tag and the new item
-- do not fit below the limit, the result is ENOSPC; else the segment holds `xs`, the new item and
-- then the rest, the cursor knows the new end, what stood from the cursor to the last END tag stands
-- behind the item, and every other dword is as it was.
pub insert-Laid :
    (m : Memory) (b l : ℕ) (e : Option ℕ) (xs ys : List Item) (t : ℕ) (value : List ℕ) (last : ℕ)
    → l < length m
    → Laid m l b (xs ++ ys)
    → Unset e (finish b (xs ++ ys))
    → t ≢ tag_end
    → length value < 2 ^ 32
    → last_segment_end m (at b (finish b xs) (some (finish b (xs ++ ys))) l) ≡ ok last
    → ((l < last + 1 + size (item_of t value))
        × (insert m (at b (finish b xs) e l) t value ≡ err enospc))
      ⊎ ((m' : Memory) × (insert m (at b (finish b xs) e l) t value
            ≡ ok (m', at b (finish b xs) (some (finish b (xs ++ ys) + size (item_of t value))) l))
          × Inserted m m' (finish b xs) last (item_of t value)
          × (Laid m' l b (xs ++ (item_of t value ∷ ys))))
insert-Laid m b l e xs ys t value last inside laid unset real small run =
    elim (Bool-cases (ltb l (last + 1 + size (item_of t value)))) [
      | inl x ↦ inl (
        ltb→lt _ _ x,
        insert-enospc m b l e xs ys t value last inside laid unset real run (ltb→lt _ _ x),
      )
      | inr x ↦
          let (m', runs, w) =
            insert-ok m b l e xs ys t value last inside laid unset real small run (ltb→le _ _ x) in
          inr (
            m',
            runs,
            w,
            Inserted-Laid m b l e xs ys t value last inside laid m' real
                (last_bounds m b l e xs ys t value last inside laid run).0 (ltb→le _ _ x) w,
          )
    ]
