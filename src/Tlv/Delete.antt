-- ===== src/Tlv/Delete.antt =====
-- tlv_delete on a segment that is laid out (common/ef10_nvram.c).
use gld.Base.{
  ℕ, ◌+◌, ◌-◌, ◌≤◌, ◌<◌, ◌≡◌, refl, sym, ap, ◌∙◌, List, ◌∷◌, ◌++◌, Option, some, get_elem?, length,
  take, drop, replicate, length-replicate, get_elem?-replicate, length-take, length-drop, ltb, leb,
  le→ltb, ltb→lt, ltb→le, ne→==, Bool-cases, false, arith, ok, fault, ok_injective, ◌⊎◌, inl, inr,
}
use gld.Tlv.{Memory, Cursor, dword_count, tag_end}
use gld.Tlv.Motion.{at}
use gld.Tlv.Segment.{overwrite, memmove, last_segment_end, close_gap, delete}
use gld.Tlv.Items.{Item, size, Laid, finish, finish-le, validate-Laid, tag-Item, item_length-Item}
use gld.Tlv.Move.{Written, overwrite-Written, memmove-Written, get_elem?-part}
use gld.Tlv.Layout.{
  Row, Copies, Laid-split, Laid-join, Laid-end, Laid-Copies, Row-Copies, finish-append,
  finish-shift,
}
use gld.Tlv.Ends.{Unset, require_end-Laid, last_segment_end-Laid}

-- What a deletion of `k` dwords at `p` leaves: what stood behind them, up to the last END tag, now
-- stands there, zeros fill the space, and nothing else is changed.
pub record Deleted (m m' : Memory) (p last k : ℕ) : Type 0 where
  pub same : length m' ≡ length m
  pub before : (j : ℕ) → j < p → get_elem? m' j ≡ get_elem? m j
  pub behind : Copies m m' (p + k) p (last + 1 - p - k)
  pub cleared : (j : ℕ) → last + 1 ≤ j + k → j ≤ last → get_elem? m' j ≡ some 0
  pub after : (j : ℕ) → last < j → get_elem? m' j ≡ get_elem? m j

module _ (m : Memory) (p last k : ℕ) (here : p + k ≤ last) where
  abbrev n : ℕ
  n = last + 1 - p

  abbrev z : ℕ
  z = last + 1 - k

  module _ (room : last + 1 + k ≤ length m) where
    part-length : length (take n (drop (p + k) m)) ≡ n
    part-length = omega (arith, length-take n (drop (p + k) m), length-drop (p + k) m)

    moved_and_cleared :
        (m1 m2 : Memory)
        → Written m m1 p (take n (drop (p + k) m))
        → Written m1 m2 z (replicate k 0)
        → Deleted m m2 p last k
    moved_and_cleared m1 m2 w1 w2 =
        let zeros : length (replicate {A = ℕ} k 0) ≡ k = length-replicate k 0 in
        record {
          same = w2.same ∙ w1.same;
          before = λ j h. w2.before j (omega arith) ∙ w1.before j h;
          behind = λ j h.
              w2.before (p + j) (omega arith)
              ∙ w1.holds j (omega (arith, part-length))
              ∙ get_elem?-part m (p + k) n j (omega arith);
          cleared = λ j h h'.
              let i = j - z in
              ap (get_elem? m2) (let y : j ≡ z + i = omega arith in y)
              ∙ w2.holds i (omega arith)
              ∙ get_elem?-replicate k i 0 (omega arith);
          after = λ j h. w2.after j (omega arith) ∙ w1.after j (omega (arith, part-length));
        }

    close-Deleted :
        (m1 : Memory) × (m2 : Memory) × (memmove m p (p + k) n ≡ ok m1)
        × (overwrite m1 z (replicate k 0) ≡ ok m2)
        × Deleted m m2 p last k
    close-Deleted =
        let (m1, run1, w1) = memmove-Written m p (p + k) n (omega arith) (omega arith) in
        let (m2, run2, w2) =
          overwrite-Written m1 z (replicate k 0)
            (omega (arith, w1.same, length-replicate {A = ℕ} k 0)) in
        (m1, m2, run1, run2, moved_and_cleared m1 m2 w1 w2)

  module _ (b q end l : ℕ) where
    pub close_gap-ok :
        last + 1 + k ≤ length m
        → (m2 : Memory) × (close_gap m (at b q (some end) l) p k last
            ≡ ok (m2, at b q (some (end - k)) l))
          × Deleted m m2 p last k
    unfolding close_gap
    close_gap-ok room =
        let (m1, m2, moves, clears, w) = close-Deleted room in
        (
          m2,
          rw
              (
                le→ltb (last + 1) p (omega arith),
                moves,
                le→ltb (last + 1) k (omega arith),
                clears,
                (let y : end + 0 - k ≡ end - k = omega arith in y),
              )
              refl,
          w,
        )

    pub close_gap-fault :
        length m < last + 1 + k → close_gap m (at b q (some end) l) p k last ≡ fault
    unfolding close_gap memmove
    close_gap-fault h =
        rw
          (
            le→ltb (last + 1) p (omega arith),
            (let y : leb (p + k + (last + 1 - p)) (length m) ≡ false = ground arith in y),
          )
          refl

module _ (m : Memory) (b l : ℕ) (e : Option ℕ) (xs ys : List Item) (i : Item) (last : ℕ)
    (inside : l < length m) (laid : Laid m l b (xs ++ (i ∷ ys))) where
  abbrev p : ℕ
  p = finish b xs

  abbrev end : ℕ
  end = finish b (xs ++ (i ∷ ys))

  abbrev known : Cursor
  known = at b p (some end) l

  parts : Row m l b xs × (Laid m l p (i ∷ ys))
  parts = Laid-split m l b xs (i ∷ ys) laid

  Deleted-Laid : (m' : Memory) → end ≤ last → Deleted m m' p last (size i) → Laid m' l b (xs ++ ys)
  Deleted-Laid m' h w =
      let (row, (_, _, _, rest)) = parts in
      let e1 = finish-append b xs (i ∷ ys) in
      let e2 = finish-shift (p + size i) p ys in
      let f = finish-le (p + size i) ys in
      let g = finish-le b xs in
      let top = (Laid-end m l b (xs ++ (i ∷ ys)) laid).1 in
      Laid-join m' l b xs ys
        (Row-Copies m m' l l b b (p - b) xs (λ k lt. w.before (b + k) (omega arith)) (omega arith)
          (omega arith) row)
        (Laid-Copies m m' l l (p + size i) p (last + 1 - p - size i) ys w.behind (omega arith)
          (omega arith) rest)

  delete_steps :
      Unset e end
      → last_segment_end m known ≡ ok last
      → delete m (at b p e l) ≡ close_gap m known p (dword_count i.len) last
  unfolding delete
  delete_steps unset run =
      let (row, (item, holds, room, rest)) = parts in
      rw
        (
          validate-Laid m b e l p (i ∷ ys) (finish-le b xs) parts.1,
          tag-Item m b e l p i item holds,
          ne→== i.tag tag_end item.0,
          item_length-Item m b e l p i item holds,
          require_end-Laid m l b (some p) e (xs ++ (i ∷ ys)) laid unset,
          run,
        )
        refl

  bounds : last_segment_end m known ≡ ok last → (end ≤ last) × (p + size i ≤ last)
  bounds run =
      let (x, run', h, k) =
        last_segment_end-Laid m l b (some p) (some end) (xs ++ (i ∷ ys)) inside laid in
      let z : x ≡ last = ok_injective (sym run' ∙ run) in
      (omega arith, omega (arith, finish-append b xs (i ∷ ys), finish-le (p + size i) ys))

  count : dword_count i.len ≡ size i
  count = let h = parts.1.0.1 in omega arith

-- tlv_delete refines the removal from the list of items. On a segment that is laid out from the
-- block's start, with the cursor on the item `i` behind the items `xs`, and its end unset or known:
-- the items before and behind it are left, the cursor knows the new end, the dwords behind the item
-- up to the last END tag have moved down, zeros stand in the space that became free, and all other
-- dwords are as they were. But where the buffer has less room behind the last END tag than the item
-- is long, the move reads beyond the buffer.
pub delete-Laid :
    (m : Memory) (b l : ℕ) (e : Option ℕ) (xs ys : List Item) (i : Item) (last : ℕ)
    → l < length m
    → Laid m l b (xs ++ (i ∷ ys))
    → Unset e (finish b (xs ++ (i ∷ ys)))
    → last_segment_end m (at b (finish b xs) (some (finish b (xs ++ (i ∷ ys)))) l) ≡ ok last
    → ((length m < last + 1 + size i) × (delete m (at b (finish b xs) e l) ≡ fault))
      ⊎ ((m' : Memory) × (delete m (at b (finish b xs) e l)
            ≡ ok (m', at b (finish b xs) (some (finish b (xs ++ (i ∷ ys)) - size i)) l))
          × Deleted m m' (finish b xs) last (size i)
          × (Laid m' l b (xs ++ ys)))
delete-Laid m b l e xs ys i last inside laid unset run =
    let p = finish b xs in
    let end = finish b (xs ++ (i ∷ ys)) in
    let (h, here) = bounds m b l e xs ys i last inside laid run in
    let steps =
      delete_steps m b l e xs ys i last inside laid unset run
      ∙ ap (λ k. close_gap m (at b p (some end) l) p k last)
          (count m b l e xs ys i last inside laid) in
    elim (Bool-cases (ltb (length m) (last + 1 + size i))) [
      | inl x ↦
          inl
            (ltb→lt _ _ x, steps ∙ close_gap-fault m p last (size i) here b p end l (ltb→lt _ _ x))
      | inr x ↦
          let (m', runs, w) = close_gap-ok m p last (size i) here b p end l (ltb→le _ _ x) in
          inr (m', steps ∙ runs, w, Deleted-Laid m b l e xs ys i last inside laid m' h w)
    ]
