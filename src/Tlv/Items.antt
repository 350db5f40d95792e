-- ===== src/Tlv/Items.antt =====
-- What a segment stands for: a list of items, laid out from its start to an END tag
-- (common/ef10_nvram.c). The cursor's functions are those of the list.
use gld.Base.{
  ℕ, zero, suc, ◌+◌, ◌-◌, ◌/◌, ◌≤◌, ◌<◌, ◌≡◌, ◌≢◌, ◌⊎◌, refl, ap, ◌∙◌, inl, inr, true, false, List,
  [], ◌∷◌, Option, none, some, enoent, get_elem?, length, ◌==◌, ==_iff, ne→==, le→ltb, Bool-cases,
  if◌then◌else◌, arith,
}
use gld.Tlv.{
  Memory, Walk, moved, failed, tag, next_item_ptr, check_next, check_item, check_position,
  validate_state, item_length, at_end, step_item, step_from, advance, rewind, stop_at, find_from,
  find, tag_end,
}
use gld.Tlv.Motion.{at, next-some}

-- `words` are the dwords that hold the `len` bytes of the value.
pub record Item : Type 0 where
  pub tag : ℕ
  pub len : ℕ
  pub words : List ℕ

abbrev pub encode : Item → List ℕ
encode i = i.tag ∷ i.len ∷ i.words

abbrev pub size : Item → ℕ
size i = length (encode i)

abbrev pub IsItem : Item → Type 0
IsItem i = (i.tag ≢ tag_end) × (length i.words ≡ (i.len + 3) / 4)

-- `m` has the dwords `ws` from `p` on.
abbrev pub Holds : Memory → ℕ → List ℕ → Type 0
Holds m p ws = (j : ℕ) → j < length ws → get_elem? m (p + j) ≡ get_elem? ws j

-- Item after item from `p` on, each with room for another tag before the limit, and an END tag.
abbrev pub Laid : Memory → ℕ → ℕ → List Item → Type 0
Laid m l p [] = (get_elem? m p ≡ some tag_end) × (p ≤ l)
Laid m l p (i ∷ is) = IsItem i × Holds m p (encode i) × (p + size i < l) × Laid m l (p + size i) is

-- The position of the END tag.
abbrev pub finish : ℕ → List Item → ℕ
finish p [] = p
finish p (i ∷ is) = finish (p + size i) is

pub finish-le : (p : ℕ) (is : List Item) → p ≤ finish p is
finish-le p [] = omega arith
finish-le p (i ∷ is) = omega (arith, finish-le (p + size i) is)

-- The position of the first item with the tag; the END tag has a position too.
unfoldable pub locate : ℕ → List Item → ℕ → Option ℕ
locate p [] t = if tag_end == t then some p else none
locate p (i ∷ is) t = if i.tag == t then some p else locate (p + size i) is t

module _ (m : Memory) (b : ℕ) (e : Option ℕ) (l : ℕ) where
  module _ (p : ℕ) (i : Item) (item : IsItem i) (holds : Holds m p (encode i)) where
    pub next-Item : next_item_ptr m (at b p e l) ≡ some (p + size i)
    next-Item =
        next-some m b e l p i.tag i.len (holds 0 (omega arith)) item.0 (holds 1 (omega arith))
        ∙ ap some (omega (arith, item.1))

    pub tag-Item : tag m (at b p e l) ≡ some i.tag
    unfolding tag
    tag-Item = holds 0 (omega arith)

    pub item_length-Item : item_length m (at b p e l) ≡ some i.len
    unfolding item_length
    item_length-Item =
        rw (holds 0 (omega arith), ne→== i.tag tag_end item.0) (holds 1 (omega arith))

    validate-Item : b ≤ p → p + size i < l → validate_state m (at b p e l) ≡ moved (at b p e l)
    unfolding validate_state check_position check_item check_next tag
    validate-Item hb hl = rw (
      le→ltb p b hb,
      le→ltb l p (omega arith),
      holds 0 (omega arith),
      ne→== i.tag tag_end item.0,
      le→ltb l (p + 2) (omega arith),
      next-Item,
      le→ltb l (p + size i + 1) (omega arith),
    )

  pub validate-end :
      (p : ℕ)
      → get_elem? m p ≡ some tag_end
      → b ≤ p
      → p ≤ l
      → validate_state m (at b p e l) ≡ moved (at b p e l)
  unfolding validate_state check_position check_item tag
  validate-end p h hb hl = ground (arith, h)

  pub validate-Laid :
      (p : ℕ) (is : List Item)
      → b ≤ p
      → Laid m l p is
      → validate_state m (at b p e l) ≡ moved (at b p e l)
  validate-Laid p [] hb (r, hl) = validate-end p r hb hl
  validate-Laid p (i ∷ is) hb (item, holds, room, rest) = validate-Item p i item holds hb room

  -- Past an item that is not the END tag the cursor knows of.
  pub advance-Laid :
      (p : ℕ) (i : Item) (is : List Item)
      → b ≤ p
      → Laid m l p (i ∷ is)
      → at_end (some p) e ≡ false
      → advance m (at b p e l) ≡ moved (at b (p + size i) e l)
  unfolding advance step_from step_item
  advance-Laid p i is hb (item, holds, room, rest) h =
      rw (validate-Item p i item holds hb room, h, next-Item p i item holds)
        (validate-Laid (p + size i) is (omega arith) rest)

  -- What the cursor must know for the search to end at the END tag: without its position the walk
  -- would go on behind it.
  abbrev pub Knows : ℕ → Option ℕ → Type 0
  Knows last (some q) = (e ≡ none) ⊎ (e ≡ some last)
  Knows last none = e ≡ some last

  abbrev pub answer : Option ℕ → Walk
  answer (some q) = moved (at b q e l)
  answer none = failed enoent (record { block = b; current = none; end = e; limit = l })

  before_end : (p last : ℕ) (q : Option ℕ) → Knows last q → p < last → at_end (some p) e ≡ false
  unfolding at_end
  before_end p last (some q) (inl k) h = rw k refl
  before_end p last (some q) (inr k) h = rw (k, ne→== p last (omega arith))
  before_end p last none k h = rw (k, ne→== p last (omega arith))

  pub advance-end :
      (p : ℕ)
      → get_elem? m p ≡ some tag_end
      → b ≤ p
      → p ≤ l
      → e ≡ some p
      → advance m (at b p e l)
        ≡ failed enoent (record { block = b; current = none; end = e; limit = l })
  unfolding advance step_from at_end
  advance-end p r hb hl k =
      let x : at_end (some p) e ≡ true = rw k ((==_iff p p).1 refl) in
      rw (validate-end p r hb hl, x) refl

  find_from-Laid :
      (n p : ℕ) (is : List Item) (t : ℕ)
      → b ≤ p
      → Laid m l p is
      → l + 2 ≤ n + p
      → Knows (finish p is) (locate p is t)
      → find_from n m t (moved (at b p e l)) ≡ answer (locate p is t)
  unfolding find_from locate stop_at tag
  find_from-Laid zero p [] t hb (r, hl) f k = absurd (omega arith)
  find_from-Laid zero p (i ∷ is) t hb (item, holds, room, rest) f k = absurd (omega arith)
  find_from-Laid (suc n) p [] t hb (r, hl) f k =
      let r' : get_elem? m (p + 0) ≡ some tag_end =
        ap (get_elem? m) (let z : p + 0 ≡ p = omega arith in z) ∙ r in
      elim (Bool-cases (tag_end == t)) [
        | inl x ↦ rw (r', x) refl
        | inr x ↦ rw (r', x, advance-end p r hb hl (rw x at k)) refl
      ]
  find_from-Laid (suc n) p (i ∷ is) t hb (item, holds, room, rest) f k =
      elim (Bool-cases (i.tag == t)) [
        | inl x ↦ rw (holds 0 (omega arith), x) refl
        | inr x ↦
            let k' : Knows (finish (p + size i) is) (locate (p + size i) is t) = rw x at k in
            let before =
              before_end p (finish (p + size i) is) _ k'
                (omega (arith, finish-le (p + size i) is)) in
            rw (holds 0 (omega arith), x, advance-Laid p i is hb (item, holds, room, rest) before)
              (find_from-Laid n (p + size i) is t (omega arith) rest (omega arith) k')
      ]

-- tlv_find refines the search in the list of items. On a segment that is laid out from the block's
-- start, with room for another tag before the limit, from any position: it stops at the first item
-- with the tag, or at the END tag where that is the tag, with the end unset or known; for a tag that
-- no item has it returns ENOENT and sets the cursor to NULL, if the cursor knows its end.
pub find-Laid :
    (m : Memory) (b l : ℕ) (pos e : Option ℕ) (is : List Item) (t : ℕ)
    → Laid m l b is
    → Knows m b e l (finish b is) (locate b is t)
    → find m (record { block = b; current = pos; end = e; limit = l }) t
      ≡ answer m b e l (locate b is t)
unfolding find rewind
find-Laid m b l pos e is t laid k =
    rw (validate-Laid m b e l b is (omega arith) laid)
      (find_from-Laid m b e l (l + 2 - b) b is t (omega arith) laid (omega arith) k)
