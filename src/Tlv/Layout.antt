-- ===== src/Tlv/Layout.antt =====
-- Segments that are laid out in a buffer: their parts, their copies elsewhere, and what the
-- cursor's functions on END tags make of them (common/ef10_nvram.c).
use gld.Base.{
  ℕ, ◌+◌, ◌-◌, ◌≤◌, ◌<◌, ◌≡◌, refl, ap, ◌∙◌, List, [], ◌∷◌, ◌++◌, some, get_elem?,
  get_elem?-eq-some-lt, length, arith,
}
use gld.Tlv.{Memory, tag_end}
use gld.Tlv.Items.{Item, encode, size, IsItem, Holds, Laid, finish, finish-le}

-- Items alone, with no END tag yet.
abbrev pub Row : Memory → ℕ → ℕ → List Item → Type 0
Row m l p [] = Unit {0}
Row m l p (i ∷ is) = IsItem i × Holds m p (encode i) × (p + size i < l) × Row m l (p + size i) is

pub finish-append : (p : ℕ) (xs ys : List Item) → finish p (xs ++ ys) ≡ finish (finish p xs) ys
finish-append p [] ys = refl
finish-append p (x ∷ xs) ys = finish-append (p + size x) xs ys

-- The dwords of the items.
pub finish-shift : (p q : ℕ) (is : List Item) → finish q is + p ≡ finish p is + q
finish-shift p q [] = omega arith
finish-shift p q (i ∷ is) = omega (arith, finish-shift (p + size i) (q + size i) is)

-- The END tag stands in the buffer.
pub finish-lt : (m : Memory) (l p : ℕ) (is : List Item) → Laid m l p is → finish p is < length m
finish-lt m l p [] (h, _) = get_elem?-eq-some-lt m p tag_end h
finish-lt m l p (i ∷ is) (_, _, _, rest) = finish-lt m l (p + size i) is rest

module _ (m : Memory) (l : ℕ) where
  pub Laid-split :
      (p : ℕ) (xs ys : List Item)
      → Laid m l p (xs ++ ys)
      → Row m l p xs × (Laid m l (finish p xs) ys)
  Laid-split p [] ys h = (tt, h)
  Laid-split p (x ∷ xs) ys (item, holds, room, rest) =
      let (row, laid) = Laid-split (p + size x) xs ys rest in ((item, holds, room, row), laid)

  pub Laid-join :
      (p : ℕ) (xs ys : List Item) → Row m l p xs → Laid m l (finish p xs) ys → Laid m l p (xs ++ ys)
  Laid-join p [] ys r h = h
  Laid-join p (x ∷ xs) ys (item, holds, room, row) h =
      (item, holds, room, Laid-join (p + size x) xs ys row h)

  pub Laid-Row : (p : ℕ) (is : List Item) → Laid m l p is → Row m l p is
  Laid-Row p [] h = tt
  Laid-Row p (i ∷ is) (item, holds, room, rest) = (item, holds, room, Laid-Row (p + size i) is rest)

  pub Laid-end :
      (p : ℕ) (is : List Item)
      → Laid m l p is
      → (get_elem? m (finish p is) ≡ some tag_end) × (finish p is ≤ l)
  Laid-end p [] h = h
  Laid-end p (i ∷ is) (item, holds, room, rest) = Laid-end (p + size i) is rest

  pub Row-Laid :
      (p : ℕ) (is : List Item)
      → Row m l p is
      → get_elem? m (finish p is) ≡ some tag_end
      → finish p is ≤ l
      → Laid m l p is
  Row-Laid p [] r h k = (h, k)
  Row-Laid p (i ∷ is) (item, holds, room, rest) h k =
      (item, holds, room, Row-Laid (p + size i) is rest h k)

-- The dwords from `p` in `m` stand from `q` on in `m'`, `n` of them.
abbrev pub Copies : (m m' : Memory) (p q n : ℕ) → Type 0
Copies m m' p q n = (k : ℕ) → k < n → get_elem? m' (q + k) ≡ get_elem? m (p + k)

pub Copies-later :
    (m m' : Memory) (p q n d : ℕ) → Copies m m' p q (d + n) → Copies m m' (p + d) (q + d) n
Copies-later m m' p q n d h k lt =
    ap (get_elem? m') (let z : q + d + k ≡ q + (d + k) = omega arith in z)
    ∙ h (d + k) (omega arith)
    ∙ ap (get_elem? m) (let z : p + (d + k) ≡ p + d + k = omega arith in z)

module _ (m m' : Memory) (l l' : ℕ) where
  pub Row-Copies :
      (p q n : ℕ) (is : List Item)
      → Copies m m' p q n
      → finish p is ≤ p + n
      → finish q is < l'
      → Row m l p is
      → Row m' l' q is
  Row-Copies p q n [] c h k row = tt
  Row-Copies p q n (i ∷ is) c h k (item, holds, room, row) =
      let f = finish-le (p + size i) is in
      let g = finish-le (q + size i) is in
      (
        item,
        (λ j lt. c j (omega (arith, f, h)) ∙ holds j lt),
        omega (arith, g, k),
        Row-Copies (p + size i) (q + size i) (n - size i) is
            (Copies-later m m' p q (n - size i) (size i) (λ x lt. c x (omega (arith, f, h))))
            (omega (arith, f, h)) k row,
      )

  pub Laid-Copies :
      (p q n : ℕ) (is : List Item)
      → Copies m m' p q n
      → finish p is < p + n
      → finish q is < l'
      → Laid m l p is
      → Laid m' l' q is
  Laid-Copies p q n is c h k laid =
      let f = finish-le p is in
      let d = finish p is - p in
      let e = finish-shift p q is in
      Row-Laid m' l' q is (Row-Copies p q n is c (omega arith) k (Laid-Row m l p is laid))
        (ap (get_elem? m') (let z : finish q is ≡ q + d = omega (arith, e, f) in z)
          ∙ c d (omega (arith, h, f))
          ∙ ap (get_elem? m) (let z : p + d ≡ finish p is = omega (arith, f) in z)
          ∙ (Laid-end m l p is laid).0)
        (omega arith)
