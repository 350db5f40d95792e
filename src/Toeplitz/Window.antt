-- ===== src/Toeplitz/Window.antt =====
-- The Toeplitz hash as it is defined, bit by bit, and the windows of the key that sfxge_hash.c
-- computes (toeplitz_cache_init, `key_bits`).
use gld.Base.{
  ℕ, zero, suc, ◌+◌, ◌*◌, ◌/◌, ◌%◌, ◌^◌, ◌<◌, ◌≡◌, ◌⊎◌, inl, inr, refl, sym, ap, ◌∙◌, Bool, true,
  false, not, List, [], ◌∷◌, ◌==◌, Bool-cases, if◌then◌else◌, bit_and, ◌||◌, bit_or, bit_xor, u32,
  arith,
}
use gld.Base.Bits.{test_bit, test_bit-bit_or, test_bit-ext}
use gld.Base.Bits.Mask.{bit_and-pow}
use gld.Base.Bits.Fields.{bit_or-shift}
use native.Mathlib.Nat.{pow-suc}
use gld.Toeplitz.{windows, shift_in, word_be}

-- The bits of bytes, the highest of each first.
abbrev pub bits : List ℕ → List Bool
bits [] = []
bits (x ∷ xs) =
    test_bit x 7
    ∷ test_bit x 6
    ∷ test_bit x 5
    ∷ test_bit x 4
    ∷ test_bit x 3
    ∷ test_bit x 2
    ∷ test_bit x 1
    ∷ test_bit x 0
    ∷ bits xs

abbrev pub digit : Bool → ℕ
digit true = 1
digit false = 0

-- `n` bits read as digits behind those of `acc`.
abbrev pub read : (n : ℕ) → List Bool → (acc : ℕ) → ℕ
read zero key acc = acc
read (suc n) [] acc = read n [] (2 * acc)
read (suc n) (b ∷ key) acc = read n key (2 * acc + digit b)

-- The first 32 bits of what is left of the key.
abbrev pub window : List Bool → ℕ
window key = read 32 key 0

abbrev pub tail : List Bool → List Bool
tail [] = []
tail (b ∷ key) = key

abbrev pub pick : Bool → ℕ → ℕ
pick b w = if b then w else 0

-- The window slides over the key by a bit for each bit of the input, and is taken where that is 1.
abbrev pub toeplitz : (input key : List Bool) → ℕ
toeplitz [] key = 0
toeplitz (b ∷ input) key = bit_xor (pick b (window key)) (toeplitz input (tail key))

digit-odd : (n : ℕ) → digit (n % 2 == 1) ≡ n % 2
digit-odd n = elim (let z : (n % 2 ≡ 0) ⊎ (n % 2 ≡ 1) = omega arith in z) [
  | inl x ↦ rw x refl
  | inr x ↦ rw x refl
]

abbrev with_byte : (x acc : ℕ) → ℕ
with_byte x acc = read 8 (bits (x ∷ [])) acc

with_byte_lem : (x acc : ℕ) → x < 256 → with_byte x acc ≡ 256 * acc + x
with_byte_lem x acc h =
    let y1 = x / 2 in
    let y2 = y1 / 2 in
    let y3 = y2 / 2 in
    let y4 = y3 / 2 in
    let y5 = y4 / 2 in
    let y6 = y5 / 2 in
    let y7 = y6 / 2 in
    omega (
      arith,
      digit-odd x,
      digit-odd y1,
      digit-odd y2,
      digit-odd y3,
      digit-odd y4,
      digit-odd y5,
      digit-odd y6,
      digit-odd y7,
    )

-- The first window is the first four bytes.
pub window-word :
    (a b c d : ℕ) (rest : List ℕ)
    → (a < 256) × (b < 256) × (c < 256) × (d < 256)
    → window (bits (a ∷ b ∷ c ∷ d ∷ rest)) ≡ word_be a b c d
window-word a b c d rest (ha, hb, hc, hd) =
    ap (with_byte d) (
      ap (with_byte c) (ap (with_byte b) (with_byte_lem a 0 ha) ∙ with_byte_lem b _ hb)
      ∙ with_byte_lem c _ hc)
    ∙ with_byte_lem d _ hd
    ∙ omega arith

read-add : (n m acc : ℕ) (key : List Bool) → read n key (acc + m) ≡ read n key acc + m * 2 ^ n
read-add zero m acc key = omega arith
read-add (suc n) m acc [] =
    let z : 2 * (acc + m) ≡ 2 * acc + 2 * m = omega arith in
    rw (z, read-add n (2 * m) (2 * acc) []) (omega (arith, ap (λ (t : ℕ). m * t) (pow-suc 2 n)))
read-add (suc n) m acc (b ∷ key) =
    let z : 2 * (acc + m) + digit b ≡ 2 * acc + digit b + 2 * m = omega arith in
    rw (z, read-add n (2 * m) (2 * acc + digit b) key)
      (omega (arith, ap (λ (t : ℕ). m * t) (pow-suc 2 n)))

read-lt : (n acc bound : ℕ) (key : List Bool) → acc < bound → read n key acc < bound * 2 ^ n
read-lt zero acc bound key h = omega arith
read-lt (suc n) acc bound [] h = omega (
  arith,
  read-lt n (2 * acc) (2 * bound) [] (omega arith),
  ap (λ (t : ℕ). bound * t) (pow-suc 2 n),
)
read-lt (suc n) acc bound (true ∷ key) h = omega (
  arith,
  read-lt n (2 * acc + 1) (2 * bound) key (omega arith),
  ap (λ (t : ℕ). bound * t) (pow-suc 2 n),
)
read-lt (suc n) acc bound (false ∷ key) h = omega (
  arith,
  read-lt n (2 * acc + 0) (2 * bound) key (omega arith),
  ap (λ (t : ℕ). bound * t) (pow-suc 2 n),
)

-- Bit `n`, behind the first `n`.
abbrev pub nth : ℕ → List Bool → Bool
nth n [] = false
nth zero (b ∷ key) = b
nth (suc n) (b ∷ key) = nth n key

read-nth :
    (n acc : ℕ) (key : List Bool) → read (suc n) key acc ≡ 2 * read n key acc + digit (nth n key)
read-nth zero acc [] = omega arith
read-nth zero acc (b ∷ key) = refl
read-nth (suc n) acc [] = read-nth n (2 * acc) []
read-nth (suc n) acc (b ∷ key) = read-nth n (2 * acc + digit b) key

-- The next window drops the highest bit and takes in the bit behind.
window-tail : (key : List Bool) → window (tail key) ≡ u32 (2 * window key + digit (nth 32 key))
window-tail [] = refl
window-tail (b ∷ key) =
    let lead = read-nth 32 0 (b ∷ key) in
    let split = read-add 32 (digit b) 0 key in
    let small = read-lt 32 0 1 key (omega arith) in
    let sum : read 32 key 0 + digit b * 2 ^ 32 ≡ 2 * window (b ∷ key) + digit (nth 32 (b ∷ key)) =
      sym split ∙ lead in
    omega (arith, sum, small)

or_comm : (a b : Bool) → (a || b) ≡ (b || a)
or_comm a b = ground arith

bit_or_comm : (a b : ℕ) → bit_or a b ≡ bit_or b a
bit_or_comm a b =
    test_bit-ext _ _ (λ j. simp test_bit-bit_or (or_comm (test_bit a j) (test_bit b j)))

bit_or-one : (n : ℕ) → bit_or (n * 2) 1 ≡ n * 2 + 1
bit_or-one n = bit_or_comm (n * 2) 1 ∙ bit_or-shift 1 1 n (omega arith) ∙ omega arith

pub not_of : (p q : Bool) → not p ≡ q → p ≡ not q
not_of true q h = ap not h
not_of false q h = ap not h

-- The code's step from one window to the next.
shift_in-digit :
    (w next j : ℕ) → shift_in w (bit_and next (2 ^ j)) ≡ u32 (2 * w + digit (test_bit next j))
unfolding shift_in
shift_in-digit w next j =
    let d = not_of _ _ (bit_and-pow j next) in
    elim (Bool-cases (test_bit next j)) [
      | inl x ↦
          let half : w * 2 % 2 ^ 32 ≡ w % 2 ^ 31 * 2 = omega arith in
          rw (d, x, half, bit_or-one (w % 2 ^ 31)) (omega arith)
      | inr x ↦ rw (d, x) (omega arith)
    ]

-- A window and the `n` that follow it.
abbrev pub slides : ℕ → List Bool → List ℕ
slides zero key = window key ∷ []
slides (suc n) key = window key ∷ slides n (tail key)

-- The bits behind the windows are the lowest `n + 1` of a byte, but for the last.
abbrev pub Ahead : ℕ → List Bool → (next : ℕ) → Type 0
Ahead zero key next = Unit {0}
Ahead (suc n) key next = (nth 32 key ≡ test_bit next (suc n)) × Ahead n (tail key) next

pub windows-slides :
    (n w next : ℕ) (key : List Bool)
    → w ≡ window key
    → Ahead n key next
    → windows n w next (2 ^ n) ≡ slides n key
unfolding windows
windows-slides zero w next key h ahead = ap (λ (x : ℕ). x ∷ []) h
windows-slides (suc n) w next key h (bit, ahead) =
    let half : 2 ^ suc n / 2 ≡ 2 ^ n = omega (arith, pow-suc 2 n) in
    let step : shift_in w (bit_and next (2 ^ suc n)) ≡ window (tail key) =
      shift_in-digit w next (suc n) ∙ rw (h, ← bit) (sym (window-tail key)) in
    rw half (
      ap (λ (x : ℕ). x ∷ windows n (shift_in w (bit_and next (2 ^ suc n))) next (2 ^ n)) h
      ∙ ap (λ (v : List ℕ). window key ∷ v)
          (windows-slides n (shift_in w (bit_and next (2 ^ suc n))) next (tail key) step ahead))
