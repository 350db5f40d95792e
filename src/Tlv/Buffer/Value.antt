-- ===== src/Tlv/Buffer/Value.antt =====
-- The bytes of a value as they are written into dwords and read back (common/ef10_nvram.c).
use gld.Base.{
  ℕ, zero, suc, ◌+◌, ◌*◌, ◌/◌, ◌%◌, ◌^◌, ◌≤◌, ◌≡◌, refl, sym, ap, ap₂, ◌∙◌, List, [], ◌∷◌, IsBytes,
  some, get_elem?, length, take, drop, le→leb, arith, ok,
}
use gld.Tlv.{Memory}
use gld.Tlv.Segment.{pack}
use gld.Tlv.Items.{Item, encode, size, Holds}
use gld.Tlv.Packed.{length-pack, item_of}
use gld.Tlv.Buffer.{unpack, bytes_at}

-- Packing loses nothing of a list of bytes but its length.
pub unpack-pack : (v : List ℕ) → IsBytes v → take (length v) (unpack (pack v)) ≡ v
unfolding pack unpack
unpack-pack [] h = refl
unpack-pack (a ∷ []) (ha, _) = ap (λ (x : ℕ). x ∷ []) (omega arith)
unpack-pack (a ∷ b ∷ []) (ha, (hb, _)) =
    ap₂ (λ (x : ℕ) (y : ℕ). x ∷ y ∷ []) (omega arith) (omega arith)
unpack-pack (a ∷ b ∷ c ∷ []) (ha, (hb, (hc, _))) =
    let x : (a + b * 2 ^ 8 + c * 2 ^ 16) % 2 ^ 8 ≡ a = omega arith in
    let y : (a + b * 2 ^ 8 + c * 2 ^ 16) / 2 ^ 8 % 2 ^ 8 ≡ b = omega arith in
    let z : (a + b * 2 ^ 8 + c * 2 ^ 16) / 2 ^ 16 % 2 ^ 8 ≡ c = omega arith in
    ground (arith, x, y, z)
unpack-pack (a ∷ b ∷ c ∷ d ∷ v) (ha, (hb, (hc, (hd, h)))) =
    let w = a + b * 2 ^ 8 + c * 2 ^ 16 + d * 2 ^ 24 in
    let x : w % 2 ^ 8 ≡ a = omega arith in
    let y : w / 2 ^ 8 % 2 ^ 8 ≡ b = omega arith in
    let z : w / 2 ^ 16 % 2 ^ 8 ≡ c = omega arith in
    let u : w / 2 ^ 24 % 2 ^ 8 ≡ d = omega arith in ground (arith, x, y, z, u, unpack-pack v h)

pub drop-get {ℓ} :
    {A : Type ℓ} (m : List A) (p : ℕ) (w : A)
    → get_elem? m p ≡ some w
    → drop p m ≡ w ∷ drop (suc p) m
drop-get [] p w h = cc
drop-get (x ∷ m) zero w h = cc
drop-get (x ∷ m) (suc p) w h = drop-get m p w h

pub take-Holds :
    (m : Memory) (p : ℕ) (ws : List ℕ) → Holds m p ws → take (length ws) (drop p m) ≡ ws
take-Holds m p [] h = refl
take-Holds m p (w ∷ ws) h =
    let here : get_elem? m p ≡ some w =
      ap (get_elem? m) (let z : p ≡ p + 0 = omega arith in z) ∙ h 0 (omega arith) in
    rw (drop-get m p w here) (
      ap (λ (zs : List ℕ). w ∷ zs)
        (take-Holds m (suc p) ws (λ j lt.
          ap (get_elem? m) (let z : suc p + j ≡ p + suc j = omega arith in z)
          ∙ h (suc j) (omega arith))))

pub Holds-value : (m : Memory) (p : ℕ) (i : Item) → Holds m p (encode i) → Holds m (p + 2) i.words
Holds-value m p i h j lt =
    ap (get_elem? m) (let z : p + 2 + j ≡ p + suc (suc j) = omega arith in z)
    ∙ h (suc (suc j)) (omega arith)

-- Reading the value of an item that tlv_write has written.
pub bytes_at-item_of :
    (m : Memory) (p t : ℕ) (value : List ℕ)
    → IsBytes value
    → Holds m p (encode (item_of t value))
    → p + size (item_of t value) ≤ length m
    → bytes_at m (p + 2) (length value) ≡ ok value
unfolding bytes_at
bytes_at-item_of m p t value bytes h k =
    let words = Holds-value m p (item_of t value) h in
    let n : (length value + 3) / 4 ≡ length (pack value) = sym (length-pack value) in
    rw
      (
        n,
        le→leb (p + 2 + length (pack value)) (length m) (omega arith),
        take-Holds m (p + 2) (pack value) words,
        unpack-pack value bytes,
      )
      refl
