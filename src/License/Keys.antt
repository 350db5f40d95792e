-- ===== src/License/Keys.antt =====
-- What a buffer of V1 and V2 keys stands for: a list of keys, one after the other, and a header of
-- zeros (common/efx_lic.c, efx_lic_v1v2_*). Writing and deleting are those of the list.
use gld.Base.{
  read_at-get, ℕ, ◌+◌, ◌-◌, ◌*◌, ◌^◌, ◌≤◌, ◌<◌, ◌≡◌, ◌≢◌, inl, inr, refl, sym, ap, ◌∙◌, true, false,
  List, [], ◌∷◌, ◌++◌, none, some, get_elem?, length, length-append, length-drop, drop,
  drop-append_exact, take-append_exact, drop-drop, get_elem?-drop, ltb, le→ltb, le→leb, ◌==◌,
  ==_iff, ne→==, Bool-cases, ==→ne, ltb→le, ok_injective, arith, ok,
}
use gld.License.V1v2.{find_key, find_end, validate_key, read_key, sub64, word_at, fits_header}

-- The bytes of the keys, the terminator, and what stands behind it.
abbrev pub lay : List (List ℕ) → List ℕ → List ℕ
lay [] rest = 0 ∷ 0 ∷ 0 ∷ 0 ∷ rest
lay (k ∷ ks) rest = k ++ lay ks rest

abbrev pub total : List (List ℕ) → ℕ
total [] = 0
total (k ∷ ks) = length k + total ks

abbrev pub join : List (List ℕ) → List ℕ
join [] = []
join (k ∷ ks) = k ++ join ks

abbrev pub IsKeys : List (List ℕ) → Type 0
IsKeys [] = Unit {0}
IsKeys (k ∷ ks) = (validate_key k ≡ ok true) × IsKeys ks

-- What the walk by find_key and read_key finds from the offset `o` on, with the end that find_end
-- gives for the terminator's offset.
abbrev pub Stored : List ℕ → ℕ → List (List ℕ) → ℕ → Type 0
Stored b o [] end = (find_key b (length b) o ≡ ok none) × (find_end b (length b) o ≡ ok end)
Stored b o (k ∷ ks) end =
    (find_key b (length b) o ≡ ok (some (o, length k)))
    × (read_key b (length b) o (length k) (length k) ≡ ok k)
    × Stored b (o + length k) ks end

-- A key that the code accepts has a header with its length.
record Header (k : List ℕ) : Type 0 where
  a : ℕ
  b : ℕ
  c : ℕ
  d : ℕ
  value : List ℕ
  shape : k ≡ a ∷ b ∷ c ∷ d ∷ value
  typed : a + b * 2 ^ 8 ≢ 0
  small : c + d * 2 ^ 8 ≤ 256
  whole : c + d * 2 ^ 8 + 4 ≡ length k

fits_header-eq-true :
    (t n len : ℕ) → fits_header t n len ≡ true → (t ≢ 0) × (n ≤ 256) × (n + 4 ≡ len)
fits_header-eq-true t n len h = elim (Bool-cases (ltb 256 n)) [
  | inl x ↦ let z : false ≡ true = rw x at h in cc
  | inr x ↦ elim (Bool-cases (t == 0)) [
    | inl y ↦ let z : false ≡ true = rw (x, y) at h in cc
    | inr y ↦
        let z : (n + 4 == len) ≡ true = rw (x, y) at h in
        (==→ne t 0 y, ltb→le 256 n x, (==_iff (n + 4) len).0 z)
  ]
]

validate_key-Header : (k : List ℕ) → validate_key k ≡ ok true → Header k
unfolding validate_key
validate_key-Header [] h = cc
validate_key-Header (a ∷ []) h = cc
validate_key-Header (a ∷ b ∷ []) h = cc
validate_key-Header (a ∷ b ∷ c ∷ []) h = cc
validate_key-Header (a ∷ b ∷ c ∷ d ∷ v) h =
    let h' : ok (fits_header (a + b * 2 ^ 8) (c + d * 2 ^ 8) (length (a ∷ b ∷ c ∷ d ∷ v)))
        ≡ ok true =
      rw (le→ltb (length (a ∷ b ∷ c ∷ d ∷ v)) 4 (omega arith)) at h in
    let (t, s, w) =
      fits_header-eq-true (a + b * 2 ^ 8) (c + d * 2 ^ 8) (length (a ∷ b ∷ c ∷ d ∷ v))
        (ok_injective h') in
    record { a = a; b = b; c = c; d = d; value = v; shape = refl; typed = t; small = s; whole = w }

pub sub64-le : (a b : ℕ) → b ≤ a → a < 2 ^ 32 → sub64 a b ≡ a - b
sub64-le a b h k = omega arith

module _ (b : List ℕ) (o : ℕ) (xs : List ℕ) (at : drop o b ≡ xs) where
  byte : (i : ℕ) → get_elem? b (o + i) ≡ get_elem? xs i
  byte i = sym (get_elem?-drop o i b) ∙ ap (λ (v : List ℕ). get_elem? v i) at

  word :
      (i x y : ℕ)
      → get_elem? xs i ≡ some x
      → get_elem? xs (i + 1) ≡ some y
      → word_at b (o + i) ≡ ok (x + y * 2 ^ 8)
  unfolding word_at
  word i x y h k =
      let w : o + i + 1 ≡ o + (i + 1) = omega arith in
      let z : get_elem? b (o + i + 1) ≡ some y = ap (get_elem? b) w ∙ byte (i + 1) ∙ k in
      rw (read_at-get b (o + i) x (byte i ∙ h), read_at-get b (o + i + 1) y z) refl

module _ (b : List ℕ) (o : ℕ) (small : length b < 2 ^ 32) where
  room : (xs : List ℕ) → drop o b ≡ xs → length b - o ≡ length xs
  room xs at = sym (length-drop o b) ∙ ap length at

  find_key-terminator : (rest : List ℕ) → drop o b ≡ lay [] rest → find_key b (length b) o ≡ ok none
  unfolding find_key
  find_key-terminator rest at =
      let n = room (lay [] rest) at in
      let t = word b o (lay [] rest) at 0 0 0 refl refl in
      rw
        (
          sub64-le (length b) o (omega arith) small,
          le→ltb (length b - o) 4 (omega (arith, n)),
          (let z : o + 0 ≡ o = omega arith in rw z at t),
          word b o (lay [] rest) at 2 0 0 refl refl,
        )
        refl

  find_key-Header :
      (k suf : List ℕ)
      → drop o b ≡ k ++ suf
      → Header k
      → find_key b (length b) o ≡ ok (some (o, length k))
  unfolding find_key
  find_key-Header k suf at h =
      let xs = h.a ∷ h.b ∷ h.c ∷ h.d ∷ (h.value ++ suf) in
      let at' : drop o b ≡ xs = at ∙ ap (λ (v : List ℕ). v ++ suf) h.shape in
      let n = room xs at' in
      let t = word b o xs at' 0 h.a h.b refl refl in
      rw
        (
          sub64-le (length b) o (omega (arith, n)) small,
          le→ltb (length b - o) 4 (omega (arith, n)),
          (let z : o + 0 ≡ o = omega arith in rw z at t),
          word b o xs at' 2 h.c h.d refl refl,
          le→ltb 256 (h.c + h.d * 2 ^ 8) h.small,
          ne→== (h.a + h.b * 2 ^ 8) 0 h.typed,
          h.whole,
        )
        refl

  read_key-at :
      (k suf : List ℕ)
      → drop o b ≡ k ++ suf
      → Header k
      → read_key b (length b) o (length k) (length k) ≡ ok k
  unfolding read_key
  read_key-at k suf at h =
      let n = room (k ++ suf) at in
      rw
        (
          le→ltb (length k) (length k) (omega arith),
          le→leb (o + length k) (length b) (omega (arith, n, length-append k suf, h.whole)),
          at,
          take-append_exact k suf,
        )
        refl

-- A list of keys that is laid out is what the code finds.
pub lay-Stored :
    (b : List ℕ) (o : ℕ) (ks : List (List ℕ)) (rest : List ℕ)
    → length b < 2 ^ 32
    → IsKeys ks
    → drop o b ≡ lay ks rest
    → Stored b o ks (o + total ks + 4)
unfolding find_end
lay-Stored b o [] rest small valid at =
    let n = room b o small (lay [] rest) at in
    (find_key-terminator b o small rest at, ap ok (omega (arith, n)))
lay-Stored b o (k ∷ ks) rest small (valid, more) at =
    let next =
      sym (drop-drop o (length k) b)
      ∙ ap (drop (length k)) at
      ∙ drop-append_exact k (lay ks rest) in
    let z : o + length k + total ks + 4 ≡ o + (length k + total ks) + 4 = omega arith in
    (
      find_key-Header b o small k (lay ks rest) at (validate_key-Header k valid),
      read_key-at b o small k (lay ks rest) at (validate_key-Header k valid),
      rw (← z) (lay-Stored b (o + length k) ks rest small more next),
    )
