-- ===== src/Tlv/Segment.antt =====
-- The changes of a TLV segment in its buffer (common/ef10_nvram.c): an item is inserted, deleted or
-- modified, and what follows it, further segments included, is moved.
use gld.Base.{
  ℕ, zero, suc, ◌+◌, ◌-◌, ◌*◌, ◌^◌, not, List, [], ◌∷◌, ◌++◌, Option, none, some, einval, enospc,
  length, take, drop, replicate, ltb, leb, ◌==◌, if◌then◌else◌, Outcome, ok, err, fault, timeout,
  ◌>>=◌, ◌>>◌, fail_if, u32,
}
use gld.Tlv.{
  Memory, Cursor, Walk, moved, failed, astray, unfinished, settle, tag, item_length, dword_count,
  validate_state, require_end, init_cursor, tag_end,
}

abbrev pub present {ℓ} : {A : Type ℓ} → Option A → Outcome A
present none = fault
present (some a) = ok a

-- Four bytes are a dword, the first byte lowest; the last dword is filled up with zeros.
unfoldable pub pack : List ℕ → List ℕ
pack [] = []
pack (a ∷ []) = a ∷ []
pack (a ∷ b ∷ []) = (a + b * 2 ^ 8) ∷ []
pack (a ∷ b ∷ c ∷ []) = (a + b * 2 ^ 8 + c * 2 ^ 16) ∷ []
pack (a ∷ b ∷ c ∷ d ∷ bytes) = (a + b * 2 ^ 8 + c * 2 ^ 16 + d * 2 ^ 24) ∷ pack bytes

-- Dwords written at `p`, which must lie in the buffer.
unfoldable pub overwrite : Memory → ℕ → List ℕ → Outcome Memory
overwrite m p ws =
    if leb (p + length ws) (length m)
    then ok (take p m ++ (ws ++ drop (p + length ws) m))
    else fault

-- `n` dwords, from `src` to `dst`
unfoldable pub memmove : Memory → (dst src n : ℕ) → Outcome Memory
unfolding overwrite
memmove m dst src n =
    if leb (src + n) (length m) then overwrite m dst (take n (drop src m)) else fault

-- `p - q` as a count of dwords: below 0 it would be a huge size
abbrev pub distance : (p q : ℕ) → Outcome ℕ
distance p q = if ltb p q then fault else ok (p - q)

unfoldable pub used_bytes : Walk → Outcome (ℕ × Cursor)
used_bytes (moved c) = do e ← present c.end; ok ((e + 1 - c.block) * 4, c)
used_bytes (failed n c) = ok (0, c)
used_bytes astray = fault
used_bytes unfinished = timeout

unfoldable pub require_end_of : Memory → Walk → Walk
require_end_of m (moved c) = require_end m c
require_end_of m (failed e c) = failed e c
require_end_of m astray = astray
require_end_of m unfinished = unfinished

-- The bytes in use, the END tag included, or 0 where the segment has none. The cursor learns its
-- end.
unfoldable pub block_length_used : Memory → Cursor → Outcome (ℕ × Cursor)
block_length_used m c = used_bytes (require_end_of m (validate_state m c))

-- The END tag of the segment that starts at `start`.
unfoldable pub segment_end : Memory → (limit start : ℕ) → Outcome ℕ
segment_end m limit start = do
  c ← settle (init_cursor m start limit start)
  c1 ← settle (require_end m c)
  present c1.end

-- The loop, at the result of the round's two calls: a segment with no END tag stops it.
unfoldable pub scan : ℕ → Memory → (limit last : ℕ) → Outcome ℕ → Outcome ℕ
scan n m limit last (err e) = ok last
scan n m limit last fault = fault
scan n m limit last timeout = timeout
scan zero m limit last (ok e) = timeout
scan (suc n) m limit last (ok e) = scan n m limit e (segment_end m limit (e + 1))

-- Segments follow each other, and each takes a dword at least, its END tag.
unfoldable pub last_segment_end : Memory → Cursor → Outcome ℕ
last_segment_end m c =
    scan (c.limit + 2 - c.block) m c.limit c.block (segment_end m c.limit c.block)

-- tag, length and value, at the cursor
unfoldable pub write_item : Memory → (p : ℕ) → (t : ℕ) → List ℕ → Outcome Memory
write_item m p t value =
    let len = u32 (length value) in
    overwrite m p (t ∷ len ∷ (if ltb 0 len then pack (take len value) else []))

-- `end += up`, then `end -= down`
unfoldable pub shift_end : (up down : ℕ) → Option ℕ → Option ℕ
shift_end up down none = none
shift_end up down (some e) = some (e + up - down)

-- `delta` new dwords at `p`; what stands there moves up, to the last segment's END tag.
unfoldable pub open_gap : Memory → Cursor → (p delta last : ℕ) → Outcome (Memory × Cursor)
unfolding shift_end
open_gap m c p delta last = do
  fail_if (ltb c.limit (last + 1 + delta)) enospc
  n ← distance (last + 1) p
  m1 ← memmove m (p + delta) p n
  ok (m1, record c { end = shift_end delta 0 c.end })

-- The `delta` dwords at `p` are removed: what follows moves down, and zeros fill the end.
unfoldable pub close_gap : Memory → Cursor → (p delta last : ℕ) → Outcome (Memory × Cursor)
unfolding shift_end
close_gap m c p delta last = do
  n ← distance (last + 1) p
  m1 ← memmove m p (p + delta) n
  z ← distance (last + 1) delta
  m2 ← overwrite m1 z (replicate delta 0)
  ok (m2, record c { end = shift_end 0 delta c.end })

-- An error leaves the buffer as it was.
unfoldable pub insert : Memory → Cursor → (t : ℕ) → List ℕ → Outcome (Memory × Cursor)
insert m c t value = do
  c1 ← settle (validate_state m c)
  c2 ← settle (require_end m c1)
  fail_if (t == tag_end) einval
  last ← last_segment_end m c2
  p ← present c2.current
  r ← open_gap m c2 p (dword_count (length value)) last
  m2 ← write_item r.0 p t value
  ok (m2, r.1)

unfoldable pub delete : Memory → Cursor → Outcome (Memory × Cursor)
delete m c = do
  c1 ← settle (validate_state m c)
  t ← present (tag m c1)
  fail_if (t == tag_end) einval
  len ← present (item_length m c1)
  c2 ← settle (require_end m c1)
  last ← last_segment_end m c2
  p ← present c2.current
  close_gap m c2 p (dword_count len) last

-- Make room for `new` dwords in the place of `old`.
unfoldable pub resize : Memory → Cursor → (p old new last : ℕ) → Outcome (Memory × Cursor)
resize m c p old new last =
    if ltb old new
    then open_gap m c (p + old) (new - old) last
    else if ltb new old
    then close_gap m c (p + new) (old - new) last
    else ok (m, c)

unfoldable pub modify : Memory → Cursor → (t : ℕ) → List ℕ → Outcome (Memory × Cursor)
modify m c t value = do
  c1 ← settle (validate_state m c)
  old ← present (tag m c1)
  fail_if (old == tag_end) einval
  fail_if (not (old == t)) einval
  len ← present (item_length m c1)
  c2 ← settle (require_end m c1)
  last ← last_segment_end m c2
  p ← present c2.current
  r ← resize m c2 p (dword_count len) (dword_count (length value)) last
  m2 ← write_item r.0 p t value
  ok (m2, r.1)
