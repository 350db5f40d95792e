-- ===== src/Tlv/Extent.antt =====
-- Where a segment and the chain of segments end, on any buffer content (common/ef10_nvram.c).
use gld.Base.{
  ℕ, zero, suc, ◌+◌, ◌≤◌, ◌<◌, ◌≡◌, ◌⊎◌, refl, inl, inr, Option, none, some, get_elem?, length,
  arith, Outcome, ok, err, fault, timeout, ◌>>=◌, Settles,
}
use gld.Tlv.{
  Memory, Cursor, Walk, moved, failed, astray, unfinished, settle, keep_end, require_end,
  init_cursor, tag_end,
}
use gld.Tlv.Segment.{present, segment_end, scan, last_segment_end}
use gld.Tlv.Motion.{at, Lands, Finds, validate-Lands, find-Finds}

module _ (m : Memory) (l : ℕ) where
  -- An END tag, from `s` on.
  abbrev pub EndTag : ℕ → ℕ → Type 0
  EndTag s e = (s ≤ e) × (e ≤ l) × (get_elem? m e ≡ some tag_end)

  -- The last END tag of the chain, or where it starts.
  abbrev pub LastEnd : ℕ → ℕ → Type 0
  LastEnd last e = (last ≤ e) × ((e ≡ last) ⊎ EndTag last e)

module _ (m : Memory) (l : ℕ) (inside : l < length m) where
  kept : Walk → Outcome ℕ
  kept w = settle w >>= λ c. present c.end

  keep_end-EndTag :
      (b : ℕ) (e pos : Option ℕ) (w : Walk)
      → Finds m b e l tag_end w
      → Settles (EndTag m l b) (kept (keep_end pos w))
  unfolding kept keep_end
  keep_end-EndTag b e pos (moved c) (q, ec, hb, hl, r) = rw ec (hb, hl, r)
  keep_end-EndTag b e pos (failed n c) h = tt
  keep_end-EndTag b e pos astray h = h
  keep_end-EndTag b e pos unfinished h = h

  start-EndTag :
      (s : ℕ) (w : Walk)
      → Lands m s none l s w
      → Settles (EndTag m l s) (settle w >>= λ c. kept (require_end m c))
  unfolding require_end
  start-EndTag s (moved c) (q, _, ec, _, _, _, _, _) =
      rw ec (keep_end-EndTag s none (some q) _ (find-Finds m (at s q none l) tag_end inside))
  start-EndTag s (failed n c) h = tt
  start-EndTag s astray h = h
  start-EndTag s unfinished h = h

  pub segment_end-EndTag : (s : ℕ) → Settles (EndTag m l s) (segment_end m l s)
  unfolding segment_end kept init_cursor
  segment_end-EndTag s = start-EndTag s _ (validate-Lands m s none l inside s s (omega arith))

  LastEnd-next :
      (last e : ℕ) → last ≤ e → EndTag m l last e → (d : ℕ) → LastEnd m l e d → LastEnd m l last d
  LastEnd-next last e h k d (p, inl q) = rw q (h, inr k)
  LastEnd-next last e h k d (p, inr (p', q, r)) = (omega arith, inr (omega arith, q, r))

  pub scan-LastEnd :
      (n last s : ℕ) (w : Outcome ℕ)
      → l + 1 ≤ n + s
      → last ≤ s
      → Settles (EndTag m l s) w
      → (x : ℕ) × (scan n m l last w ≡ ok x) × (LastEnd m l last x)
  unfolding scan
  scan-LastEnd n last s (err r) f k h = (last, refl, (omega arith, inl refl))
  scan-LastEnd n last s fault f k h = absurd h
  scan-LastEnd n last s timeout f k h = absurd h
  scan-LastEnd zero last s (ok e) f k (a, b, c) = absurd (omega arith)
  scan-LastEnd (suc n) last s (ok e) f k (a, b, c) =
      let (x, run, end) =
        scan-LastEnd n e (e + 1) _ (omega arith) (omega arith) (segment_end-EndTag (e + 1)) in
      (x, run, LastEnd-next last e (omega arith) (omega arith, b, c) x end)

-- tlv_last_segment_end, on any buffer content, with a limit inside the buffer: the loop ends within
-- its fuel, and it reads nothing outside the buffer. It returns an END tag between the block's start
-- and the limit, or the block's start.
pub last_segment_end-LastEnd :
    (m : Memory) (c : Cursor)
    → c.limit < length m
    → (x : ℕ) × (last_segment_end m c ≡ ok x) × (LastEnd m c.limit c.block x)
unfolding last_segment_end
last_segment_end-LastEnd m c inside =
    scan-LastEnd m c.limit inside _ c.block c.block _ (omega arith) (omega arith)
      (segment_end-EndTag m c.limit inside c.block)
