-- ===== src/Tlv/Packed.antt =====
-- What tlv_write leaves of an item in the buffer (common/ef10_nvram.c).
use gld.Base.{
  ℕ, ◌+◌, ◌-◌, ◌/◌, ◌^◌, ◌≤◌, ◌<◌, ◌≡◌, refl, ap, ◌∙◌, List, [], ◌∷◌, get_elem?, length, take, drop,
  take_whole, length-take, length-drop, ltb, lt→ltb, if◌then◌else◌, u32, arith, ok,
}
use gld.Tlv.{Memory, dword_count}
use gld.Tlv.Segment.{pack, overwrite, memmove, write_item}
use gld.Tlv.Items.{Item, encode, size, Holds}
use gld.Tlv.Move.{Written, overwrite-Written, memmove-Written, get_elem?-part}
use gld.Tlv.Layout.{Copies}

pub length-pack : (bytes : List ℕ) → length (pack bytes) ≡ (length bytes + 3) / 4
unfolding pack
length-pack [] = omega arith
length-pack (a ∷ []) = omega arith
length-pack (a ∷ b ∷ []) = omega arith
length-pack (a ∷ b ∷ c ∷ []) = omega arith
length-pack (a ∷ b ∷ c ∷ d ∷ bytes) = omega (arith, length-pack bytes)

-- The item that tlv_write makes of a tag and the bytes of a value.
abbrev pub item_of : ℕ → List ℕ → Item
item_of t value = record { tag = t; len = length value; words = pack value }

pub size-item_of : (t : ℕ) (value : List ℕ) → size (item_of t value) ≡ dword_count (length value)
size-item_of t value = omega (arith, length-pack value)

packed :
    (value : List ℕ)
    → (if ltb 0 (length value) then pack (take (length value) value) else []) ≡ pack value
unfolding pack
packed [] = refl
packed (a ∷ value) =
    rw (lt→ltb 0 (length (a ∷ value)) (omega arith)) (ap pack (take_whole _ (a ∷ value) refl))

pub write_item-overwrite :
    (m : Memory) (p t : ℕ) (value : List ℕ)
    → length value < 2 ^ 32
    → write_item m p t value ≡ overwrite m p (encode (item_of t value))
unfolding write_item
write_item-overwrite m p t value h =
    let z : u32 (length value) ≡ length value = omega arith in rw (z, packed value) refl

-- What an insertion at `p` leaves: the item there, what stood there behind it, up to the last END
-- tag, and nothing else changed.
pub record Inserted (m m' : Memory) (p last : ℕ) (i : Item) : Type 0 where
  pub same : length m' ≡ length m
  pub before : (k : ℕ) → k < p → get_elem? m' k ≡ get_elem? m k
  pub holds : Holds m' p (encode i)
  pub behind : Copies m m' p (p + size i) (last + 1 - p)
  pub after : (k : ℕ) → last + 1 + size i ≤ k → get_elem? m' k ≡ get_elem? m k

module _ (m : Memory) (p last l t : ℕ) (value : List ℕ) (small : length value < 2 ^ 32)
    (here : p ≤ last) (room : last + 1 + size (item_of t value) ≤ l) (inside : l < length m) where
  abbrev gap : ℕ
  gap = size (item_of t value)

  part-length : length (take (last + 1 - p) (drop p m)) ≡ last + 1 - p
  part-length = omega (arith, length-take (last + 1 - p) (drop p m), length-drop p m)

  gap_and_item :
      (m1 m2 : Memory)
      → Written m m1 (p + gap) (take (last + 1 - p) (drop p m))
      → Written m1 m2 p (encode (item_of t value))
      → Inserted m m2 p last (item_of t value)
  gap_and_item m1 m2 w1 w2 = record {
    same = w2.same ∙ w1.same;
    before = λ k h. w2.before k h ∙ w1.before k (omega arith);
    holds = w2.holds;
    behind = λ k h.
        w2.after (p + gap + k) (omega arith)
        ∙ w1.holds k (omega (arith, part-length))
        ∙ get_elem?-part m p (last + 1 - p) k h;
    after = λ k h. w2.after k (omega arith) ∙ w1.after k (omega (arith, part-length));
  }

  pub write-Inserted :
      (m1 : Memory) × (m2 : Memory) × (memmove m (p + gap) p (last + 1 - p) ≡ ok m1)
      × (write_item m1 p t value ≡ ok m2)
      × Inserted m m2 p last (item_of t value)
  write-Inserted =
      let (m1, run1, w1) =
        memmove-Written m (p + gap) p (last + 1 - p) (omega arith) (omega arith) in
      let (m2, run2, w2) =
        overwrite-Written m1 p (encode (item_of t value)) (omega (arith, w1.same)) in
      (m1, m2, run1, write_item-overwrite m1 p t value small ∙ run2, gap_and_item m1 m2 w1 w2)
