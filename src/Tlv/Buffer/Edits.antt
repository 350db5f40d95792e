-- ===== src/Tlv/Buffer/Edits.antt =====
-- The operations on the items of a partition in a buffer, by byte offset (common/ef10_nvram.c).
use gld.Base.{
  IsBytes, ℕ, ◌+◌, ◌-◌, ◌*◌, ◌/◌, ◌%◌, ◌^◌, ◌≤◌, ◌<◌, ◌≡◌, refl, sym, ap, ◌∙◌, inl, inr, ◌⊎◌, List,
  [], ◌∷◌, ◌++◌, none, some, length, le→ltb, ◌==◌, ==_iff, ne→==, if◌then◌else◌, u32, arith, enospc,
  Outcome, ok, err, ok_injective,
}
use gld.Tlv.{Memory, Cursor, moved, init_cursor_at_offset, validate_state, tag_license}
use gld.Tlv.Motion.{at}
use gld.Tlv.Segment.{insert}
use gld.Tlv.Items.{Item, size, Laid, finish, finish-le, validate-Laid, next-Item, item_length-Item}
use gld.Tlv.Layout.{Laid-split, finish-lt}
use gld.Tlv.Ends.{last_segment_end-Laid}
use gld.Tlv.Packed.{item_of}
use gld.Tlv.Insert.{insert-Laid}
use gld.Tlv.Buffer.{byte_offset, buffer_insert_item, buffer_get_item, bytes_at}
use gld.Tlv.Buffer.Value.{bytes_at-item_of}

-- A cursor at a dword's offset in a buffer whose last dword is `l`.
pub at_offset :
    (m : Memory) (l p : ℕ)
    → init_cursor_at_offset m (4 * l + 4) (4 * p) ≡ validate_state m (at 0 p none l)
unfolding init_cursor_at_offset
at_offset m l p =
    rw
      (
        le→ltb (4 * l + 4) 4 (omega arith),
        (==_iff (4 * p % 4) 0).1 (omega arith),
        (let z : (4 * l + 4 - 4) / 4 ≡ l = omega arith in z),
        (let z : 4 * p / 4 ≡ p = omega arith in z),
      )
      refl

pub at_offset-Laid :
    (m : Memory) (l : ℕ) (xs ys : List Item)
    → Laid m l 0 (xs ++ ys)
    → init_cursor_at_offset m (4 * l + 4) (4 * finish 0 xs) ≡ moved (at 0 (finish 0 xs) none l)
at_offset-Laid m l xs ys laid =
    at_offset m l (finish 0 xs)
    ∙ validate-Laid m 0 none l (finish 0 xs) ys (omega arith) (Laid-split m l 0 xs ys laid).1

module _ (m : Memory) (l : ℕ) (xs ys : List Item) (key : List ℕ) (inside : l < length m)
    (laid : Laid m l 0 (xs ++ ys)) (small : length key < 2 ^ 32) where
  abbrev p : ℕ
  p = finish 0 xs

  abbrev new : Item
  new = item_of tag_license key

  -- The insertion, by the items.
  abbrev Result : Outcome (Memory × Cursor) → Type 0
  Result r =
      (r ≡ err enospc)
      ⊎ ((m' : Memory) × (r ≡ ok (m', at 0 p (some (finish 0 (xs ++ ys) + size new)) l))
          × Laid m' l 0 (xs ++ (new ∷ ys))
          × (length m' ≡ length m))

  insert_license : Result (insert m (at 0 p none l) tag_license key)
  insert_license =
      let end = finish 0 (xs ++ ys) in
      let (last, run, _, _) =
        last_segment_end-Laid m l 0 (some p) (some end) (xs ++ ys) inside laid in
      elim (insert-Laid m 0 l none xs ys tag_license key last inside laid (inl refl) (ground arith)
        small run) [ inl (_, e) ↦ inl e | inr (m', runs, w, laid') ↦ inr (m', runs, laid', w.same) ]

  byte_offset-size : byte_offset (p + size new) p ≡ ok (u32 (size new * 4))
  unfolding byte_offset
  byte_offset-size =
      rw
        (
          le→ltb (p + size new) p (omega arith),
          (let z : p + size new - p ≡ size new = omega arith in z),
        )
        refl

  -- What the caller sees of the insertion.
  abbrev pub Placed : Outcome (Memory × ℕ) → Type 0
  Placed r =
      (r ≡ err enospc)
      ⊎ ((m' : Memory) × (r ≡ ok (m', u32 (size new * 4)))
          × Laid m' l 0 (xs ++ (new ∷ ys))
          × (length m' ≡ length m))

  placed :
      (r : Outcome (Memory × Cursor))
      → insert m (at 0 p none l) tag_license key ≡ r
      → Result r
      → Placed (buffer_insert_item m (4 * l + 4) (4 * p) key)
  unfolding buffer_insert_item
  placed r run (inl e) = inl (rw (at_offset-Laid m l xs ys laid, run ∙ e) refl)
  placed r run (inr (m', e, laid', same)) =
      let end = some (finish 0 (xs ++ ys) + size new) in
      let (_, (item, holds, _, _)) = Laid-split m' l 0 xs (new ∷ ys) laid' in
      inr (
        m',
        rw
            (
              at_offset-Laid m l xs ys laid,
              run ∙ e,
              next-Item m' 0 end l p new item holds,
              byte_offset-size,
            )
            refl,
        laid',
        same,
      )

  pub buffer_insert_item-Placed : Placed (buffer_insert_item m (4 * l + 4) (4 * p) key)
  buffer_insert_item-Placed = placed _ refl insert_license

-- The value of an item that is laid out, by its offset.
pub get_item-Laid :
    (m : Memory) (l : ℕ) (xs ys : List Item) (t : ℕ) (value : List ℕ) (len max : ℕ)
    → Laid m l 0 (xs ++ (item_of t value ∷ ys))
    → IsBytes value
    → length value ≤ len
    → len ≤ max
    → buffer_get_item m (4 * l + 4) (4 * finish 0 xs) len max ≡ ok value
unfolding buffer_get_item
get_item-Laid m l xs ys t value len max laid bytes h k =
    let i = item_of t value in
    let p = finish 0 xs in
    let (_, (item, holds, room, rest)) = Laid-split m l 0 xs (i ∷ ys) laid in
    let reads =
      bytes_at-item_of m p t value bytes holds
        (omega (arith, finish-lt m l (p + size i) ys rest, finish-le (p + size i) ys)) in
    rw
      (
        le→ltb max len k,
        at_offset-Laid m l xs (i ∷ ys) laid,
        item_length-Item m 0 none l p i item holds,
        le→ltb len (length value) h,
      )
      (read_value value reads)
  where
    read_value :
        (v : List ℕ)
        → bytes_at m (finish 0 xs + 2) (length v) ≡ ok v
        → (if length v == 0 then ok [] else bytes_at m (finish 0 xs + 2) (length v)) ≡ ok v
    read_value [] e = refl
    read_value (a ∷ v) e = rw (ne→== (length (a ∷ v)) 0 (omega arith)) e

pub from_ok :
    (m : Memory) (l : ℕ) (xs ys : List Item) (key : List ℕ) (r : Outcome (Memory × ℕ)) (m' : Memory)
    (n : ℕ)
    → r ≡ ok (m', n)
    → ((r ≡ err enospc)
        ⊎ ((m2 : Memory) × (r ≡ ok (m2, u32 (size (item_of tag_license key) * 4)))
            × Laid m2 l 0 (xs ++ (item_of tag_license key ∷ ys))
            × (length m2 ≡ length m)))
    → (n ≡ u32 (size (item_of tag_license key) * 4))
      × Laid m' l 0 (xs ++ (item_of tag_license key ∷ ys))
      × (length m' ≡ length m)
from_ok m l xs ys key r m' n e (inl x) = cc
from_ok m l xs ys key r m' n e (inr (m2, x, laid, same)) =
    let z : ◌≡◌ {A = Memory × ℕ} (m2, u32 (size (item_of tag_license key) * 4)) (m', n) =
      ok_injective (sym x ∙ e) in
    let y : m2 ≡ m' = ap (λ (q : Memory × ℕ). q.0) z in
    (sym (ap (λ (q : Memory × ℕ). q.1) z), rw (← y) laid, rw (← y) same)

-- ef10_nvram_buffer_insert_item, then ef10_nvram_buffer_get_item. In a buffer below 4 GB whose
-- segment is laid out, at the offset behind the items `xs`: the key that was inserted is read back,
-- byte for byte, given the length that the insertion returned and room for it, and the segment holds
-- the key as a licence item between `xs` and the rest.
pub buffer_insert_item-buffer_get_item :
    (m m' : Memory) (l n max : ℕ) (xs ys : List Item) (key : List ℕ)
    → l < length m
    → 4 * l + 4 < 2 ^ 32
    → length key < 2 ^ 32
    → IsBytes key
    → Laid m l 0 (xs ++ ys)
    → buffer_insert_item m (4 * l + 4) (4 * finish 0 xs) key ≡ ok (m', n)
    → n ≤ max
    → (buffer_get_item m' (4 * l + 4) (4 * finish 0 xs) n max ≡ ok key)
      × (Laid m' l 0 (xs ++ (item_of tag_license key ∷ ys)))
buffer_insert_item-buffer_get_item m m' l n max xs ys key inside small short bytes laid run h =
    let new = item_of tag_license key in
    let (len, laid', same) =
      from_ok m l xs ys key _ m' n run
        (buffer_insert_item-Placed m l xs ys key inside laid short) in
    let (_, (item, _, room, _)) = Laid-split m' l 0 xs (new ∷ ys) laid' in
    (get_item-Laid m' l xs ys tag_license key n max laid' bytes (omega (arith, item.1)) h, laid')
