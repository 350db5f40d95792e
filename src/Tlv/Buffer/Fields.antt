-- ===== src/Tlv/Buffer/Fields.antt =====
-- A write to one dword of an item's value (common/ef10_nvram.c sets the fields of the header and the
-- trailer so), and the sum of a partition's dwords.
use gld.Base.{
  ℕ, zero, suc, ◌+◌, ◌-◌, ◌≤◌, ◌<◌, ◌≡◌, ◌≢◌, refl, sym, ap, ◌∙◌, inl, inr, List, [], ◌∷◌, ◌++◌,
  get_elem?, get_elem?-set_self, get_elem?-set_ne, length, length-set, set, lt→ltb, ◌==◌, ==_iff,
  Bool-cases, ==→ne, arith, ok,
}
use gld.Tlv.{Memory}
use gld.Tlv.Items.{Item, encode, size, Holds, Laid, finish, finish-le}
use gld.Tlv.Layout.{Laid-split, Laid-join, Row-Copies}
use gld.Tlv.Buffer.{poke}

-- The item with another dword in its value.
abbrev pub with_word : Item → ℕ → ℕ → Item
with_word i j v = record i { words = set i.words j v }

Holds-set :
    (m : Memory) (p j v : ℕ) (i : Item)
    → p + size i ≤ length m
    → j < length i.words
    → Holds m p (encode i)
    → Holds (set m (p + 2 + j) v) p (encode (with_word i j v))
Holds-set m p j v i fits h holds zero lt =
    get_elem?-set_ne m (p + 2 + j) (p + 0) v (omega arith) ∙ holds 0 (omega arith)
Holds-set m p j v i fits h holds (suc zero) lt =
    get_elem?-set_ne m (p + 2 + j) (p + 1) v (omega arith) ∙ holds 1 (omega arith)
Holds-set m p j v i fits h holds (suc (suc k)) lt = elim (Bool-cases (j == k)) [
  | inl x ↦
      let e : j ≡ k = (==_iff j k).0 x in
      let q : p + suc (suc k) ≡ p + 2 + j = omega arith in
      ap (get_elem? (set m (p + 2 + j) v)) q
      ∙ get_elem?-set_self m (p + 2 + j) v (omega arith)
      ∙ rw (← e) (sym (get_elem?-set_self i.words j v h))
  | inr x ↦
      let e : j ≢ k = ==→ne j k x in
      get_elem?-set_ne m (p + 2 + j) (p + suc (suc k)) v (λ z. e (omega arith))
      ∙ holds (suc (suc k)) (omega (arith, length-set i.words j v))
      ∙ sym (get_elem?-set_ne i.words j k v e)
]

-- A write before the items leaves them.
set_before-Laid :
    (m : Memory) (l q a v : ℕ) (is : List Item) → a < q → Laid m l q is → Laid (set m a v) l q is
set_before-Laid m l q a v [] lt (e, k) = (get_elem?-set_ne m a q v (omega arith) ∙ e, k)
set_before-Laid m l q a v (i ∷ is) lt (item, holds, room, rest) = (
  item,
  (λ k h. get_elem?-set_ne m a (q + k) v (omega arith) ∙ holds k h),
  room,
  set_before-Laid m l (q + size i) a v is (omega arith) rest,
)

pub Laid-set :
    (m : Memory) (l p j v : ℕ) (xs ys : List Item) (i : Item)
    → l < length m
    → j < length i.words
    → Laid m l p (xs ++ (i ∷ ys))
    → Laid (set m (finish p xs + 2 + j) v) l p (xs ++ (with_word i j v ∷ ys))
Laid-set m l p j v xs ys i inside h laid =
    let s = finish p xs in
    let m' = set m (s + 2 + j) v in
    let (row, (item, holds, room, rest)) = Laid-split m l p xs (i ∷ ys) laid in
    let len = length-set i.words j v in
    let z : s + size (with_word i j v) ≡ s + size i = omega arith in
    let g = finish-le p xs in
    Laid-join m' l p xs (with_word i j v ∷ ys)
      (Row-Copies m m' l l p p (s - p) xs
        (λ k lt. get_elem?-set_ne m (s + 2 + j) (p + k) v (omega arith)) (omega arith) (omega arith)
        row)
      (
        (item.0, omega (arith, item.1)),
        Holds-set m s j v i (omega arith) h holds,
        omega arith,
        rw z (set_before-Laid m l (s + size i) (s + 2 + j) v ys (omega arith) rest),
      )

-- The same, with the position written otherwise.
pub Laid-set_at :
    (m : Memory) (l p j v q : ℕ) (xs ys : List Item) (i : Item)
    → l < length m
    → j < length i.words
    → q ≡ finish p xs + 2 + j
    → Laid m l p (xs ++ (i ∷ ys))
    → Laid (set m q v) l p (xs ++ (with_word i j v ∷ ys))
Laid-set_at m l p j v q xs ys i inside h e laid = rw e (Laid-set m l p j v xs ys i inside h laid)

pub poke-set : (m : Memory) (p v : ℕ) → p < length m → poke m p v ≡ ok (set m p v)
poke-set m p v h = rw (lt→ltb p (length m) h) refl
