-- ===== src/Tlv/Motion.antt =====
-- The cursor over any buffer content (common/ef10_nvram.c): it stays in its block, its loops end,
-- and a tag that is found is there.
use gld.Base.{
  ℕ, zero, suc, ◌+◌, ◌≤◌, ◌<◌, ◌≡◌, ◌≢◌, refl, ap, ◌∙◌, inl, inr, Option, some, get_elem?, get_or,
  get_elem?-eq-get_or, length, ltb, ◌==◌, ==_iff, Bool-cases, arith,
}
use gld.Tlv.{
  Memory, Cursor, Walk, moved, failed, astray, unfinished, tag, next_item_ptr, check_next,
  check_item, check_position, validate_state, at_end, step_item, step_from, advance, rewind,
  stop_at, find_from, find, dword_count, tag_end,
}

abbrev pub at : (block p : ℕ) → (end : Option ℕ) → (limit : ℕ) → Cursor
at block p end limit = record { block = block; current = some p; end = end; limit = limit }

module _ (m : Memory) (b : ℕ) (e : Option ℕ) (l : ℕ) where
  -- A step that has moved the cursor has left it between `lo` and the limit, on an item whose two
  -- first dwords can be read.
  abbrev pub Lands : ℕ → Walk → Type 0
  Lands lo (moved c) =
      (q : ℕ) × (n : ℕ) × (c ≡ at b q e l)
      × (next_item_ptr m (at b q e l) ≡ some n)
      × (q + 2 ≤ n)
      × (lo ≤ q)
      × (b ≤ q)
      × (q ≤ l)
  Lands lo (failed n c) = Unit {0}
  Lands lo astray = ⊥
  Lands lo unfinished = ⊥

  pub next-some :
      (p t n : ℕ)
      → get_elem? m (p + 0) ≡ some t
      → t ≢ tag_end
      → get_elem? m (p + 1) ≡ some n
      → next_item_ptr m (at b p e l) ≡ some (p + dword_count n)
  unfolding next_item_ptr
  next-some p t n h0 k h1 = ground arith

  pub next-end :
      (p : ℕ) → get_elem? m (p + 0) ≡ some tag_end → next_item_ptr m (at b p e l) ≡ some (p + 2)
  unfolding next_item_ptr
  next-end p h = ground arith

  check_next-Lands :
      (lo p n : ℕ)
      → lo ≤ p
      → b ≤ p
      → p ≤ l
      → p + 2 ≤ n
      → next_item_ptr m (at b p e l) ≡ some n
      → Lands lo (check_next (at b p e l) (some n))
  unfolding check_next
  check_next-Lands lo p n h1 h2 h3 h4 r = elim (Bool-cases (ltb l (n + 1))) [
    | inl x ↦ rw x tt
    | inr x ↦ rw x (p, n, refl, r, h4, h1, h2, h3)
  ]

  -- What the search leaves: the cursor on the tag, in the block.
  abbrev pub Finds : ℕ → Walk → Type 0
  Finds t (moved c) = (q : ℕ) × (c ≡ at b q e l) × (b ≤ q) × (q ≤ l) × (get_elem? m q ≡ some t)
  Finds t (failed n c) = Unit {0}
  Finds t astray = ⊥
  Finds t unfinished = ⊥

  module _ (inside : l < length m) where
    pub read : (p : ℕ) → p ≤ l → get_elem? m p ≡ some (get_or m p 0)
    read p h = get_elem?-eq-get_or m p 0 (omega (arith, inside))

    check_item-Lands :
        (lo p t : ℕ)
        → lo ≤ p
        → b ≤ p
        → p ≤ l
        → get_elem? m (p + 0) ≡ some t
        → Lands lo (check_item m (at b p e l) p (some t))
    unfolding check_item
    check_item-Lands lo p t h1 h2 h3 r = elim (Bool-cases (t == tag_end)) [
      | inl x ↦ rw x (
        p,
        p + 2,
        refl,
        next-end p (r ∙ ap some ((==_iff t tag_end).0 x)),
        omega arith,
        h1,
        h2,
        h3,
      )
      | inr x ↦ rw x (elim (Bool-cases (ltb l (p + 2))) [
        | inl y ↦ rw y tt
        | inr y ↦
            let n = get_or m (p + 1) 0 in
            let q = next-some p t n r (ground (arith, x)) (read (p + 1) (ground arith)) in
            rw (y, q) (check_next-Lands lo p _ h1 h2 h3 (omega arith) q)
      ])
    ]

    pub validate-Lands : (lo p : ℕ) → lo ≤ p → Lands lo (validate_state m (at b p e l))
    unfolding validate_state check_position tag
    validate-Lands lo p h = elim (Bool-cases (ltb p b)) [
      | inl x ↦ rw x tt
      | inr x ↦ rw x (elim (Bool-cases (ltb l p)) [
        | inl y ↦ rw y tt
        | inr y ↦
            let r : get_elem? m (p + 0) ≡ some (get_or m (p + 0) 0) = read (p + 0) (ground arith) in
            rw r (rw y (check_item-Lands lo p _ h (ground arith) (ground arith) r))
      ])
    ]

    step_from-Lands : (p : ℕ) (w : Walk) → Lands p w → Lands (p + 2) (step_from m w)
    unfolding step_from step_item
    step_from-Lands p (failed n c) h = tt
    step_from-Lands p astray h = h
    step_from-Lands p unfinished h = h
    step_from-Lands p (moved c) (q, n, ec, en, h2, hp, hb, hl) =
        rw ec (elim (Bool-cases (at_end (some q) e)) [
          | inl x ↦ rw x tt
          | inr x ↦ rw (x, en) (validate-Lands (p + 2) n (omega arith))
        ])

    pub advance-Lands : (p : ℕ) → Lands (p + 2) (advance m (at b p e l))
    unfolding advance
    advance-Lands p = step_from-Lands p _ (validate-Lands p p (omega arith))

    stop_at-Finds :
        (t q : ℕ) (rest : Walk)
        → b ≤ q
        → q ≤ l
        → Finds t rest
        → Finds t (stop_at t (tag m (at b q e l)) (moved (at b q e l)) rest)
    unfolding stop_at tag
    stop_at-Finds t q rest hb hl h =
        rw (read (q + 0) (omega arith)) (elim (Bool-cases (get_or m (q + 0) 0 == t)) [
          | inl x ↦ rw x (q, refl, hb, hl, read q hl ∙ ap some (ground (arith, x)))
          | inr x ↦ rw x h
        ])

    find_from-Finds :
        (n t p : ℕ) (w : Walk) → l + 2 ≤ n + p → Lands p w → Finds t (find_from n m t w)
    unfolding find_from
    find_from-Finds n t p (failed r c) f h = tt
    find_from-Finds n t p astray f h = h
    find_from-Finds n t p unfinished f h = h
    find_from-Finds zero t p (moved c) f (q, _, ec, en, h2, hp, hb, hl) = absurd (omega arith)
    find_from-Finds (suc n) t p (moved c) f (q, _, ec, en, h2, hp, hb, hl) =
        rw ec (
          stop_at-Finds t q _ hb hl (find_from-Finds n t (q + 2) _ (omega arith) (advance-Lands q)))

-- tlv_find, on any buffer content, with the cursor anywhere, and a limit inside the buffer: the
-- loop ends within its fuel, and it reads nothing outside the buffer. Where it returns 0 the cursor
-- stands on the tag, between the block's start and the limit, and its end is as it was.
pub find-Finds :
    (m : Memory) (c : Cursor) (t : ℕ)
    → c.limit < length m
    → Finds m c.block c.end c.limit t (find m c t)
unfolding find rewind
find-Finds m c t inside =
    find_from-Finds m c.block c.end c.limit inside _ t c.block _ (omega arith)
      (validate-Lands m c.block c.end c.limit inside c.block c.block (omega arith))
