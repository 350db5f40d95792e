-- ===== src/Filter/Table/Bitmap.antt =====
-- The bitmap of a filter table as a set of rows.
use gld.Base.{
  ℕ, zero, suc, ◌+◌, ◌-◌, ◌*◌, ◌/◌, ◌%◌, ◌^◌, ◌≤◌, ◌<◌, ◌≡◌, refl, ap, ◌∙◌, Bool, true, false, not,
  ◌&&◌, ◌||◌, length, get_or, get_elem?-eq-get_or, get_or-set_self, get_or-set_ne, set, ◌==◌,
  if◌then◌else◌, bit_and, bit_or, arith, ok,
}
use native.Mathlib.Decide.{ℕ_discrete}
use gld.Base.Bits.{test_bit, test_bit-bit_and, test_bit-bit_or, test_bit-pow}
use gld.Base.Bits.Mask.{bit_and-pow, test_bit-mask}
use gld.Filter.Table.{Tbl, test_used, set_used, clear_used}

-- Is row `i` marked used?
abbrev pub bit : Tbl → ℕ → Bool
bit t i = test_bit (get_or t.bitmap (i / 32) 0) (i % 32)

-- The bitmap has a digit for each row.
abbrev pub Covers : Tbl → Type 0
Covers t = t.size ≤ 32 * length t.bitmap

one_shift : (k : ℕ) → 1 * 2 ^ k ≡ 2 ^ k
one_shift k = omega arith

-- The table after set_used, and after clear_used.
abbrev pub marked : Tbl → ℕ → Tbl
marked t i = record t {
  bitmap = set t.bitmap (i / 32) (bit_or (get_or t.bitmap (i / 32) 0) (2 ^ (i % 32)));
  used = t.used + 1;
}

abbrev pub cleared : Tbl → ℕ → Tbl
cleared t i = record t {
  bitmap = set t.bitmap (i / 32) (bit_and (get_or t.bitmap (i / 32) 0) (2 ^ 32 - 1 - 2 ^ (i % 32)));
  used = t.used - 1;
}

module _ (t : Tbl) (i : ℕ) (covers : Covers t) (below : i < t.size) where
  pub test_used_lem : test_used t i ≡ ok (bit t i)
  unfolding test_used
  test_used_lem = ground (
    arith,
    get_elem?-eq-get_or t.bitmap (i / 32) 0,
    one_shift (i % 32),
    bit_and-pow (i % 32) (get_or t.bitmap (i / 32) 0),
  )

  pub set_used_lem : set_used t i ≡ ok (marked t i)
  unfolding set_used
  set_used_lem = ground (arith, get_elem?-eq-get_or t.bitmap (i / 32) 0, one_shift (i % 32))

  pub clear_used_lem : clear_used t i ≡ ok (cleared t i)
  unfolding clear_used
  clear_used_lem = ground (arith, get_elem?-eq-get_or t.bitmap (i / 32) 0, one_shift (i % 32))

  pub bit-marked : (j : ℕ) → bit (marked t i) j ≡ (i == j || bit t j)
  bit-marked j = elim (ℕ_discrete (i / 32) (j / 32)) [
    | yes e ↦
        rw (← e, get_or-set_self t.bitmap (i / 32) _ 0 (omega arith), test_bit-bit_or, test_bit-pow)
          (ground arith)
    | no ne ↦ rw (get_or-set_ne t.bitmap (i / 32) (j / 32) _ 0 ne) (ground arith)
  ]

  pub bit-cleared : (j : ℕ) → bit (cleared t i) j ≡ (not (i == j) && bit t j)
  bit-cleared j = elim (ℕ_discrete (i / 32) (j / 32)) [
    | yes e ↦
        rw
          (
            ← e,
            get_or-set_self t.bitmap (i / 32) _ 0 (omega arith),
            test_bit-bit_and,
            test_bit-mask 32 (i % 32) (j % 32) (omega arith),
          )
          (ground arith)
    | no ne ↦ rw (get_or-set_ne t.bitmap (i / 32) (j / 32) _ 0 ne) (ground arith)
  ]

-- How many of the rows below `n` have `p`.
abbrev pub count : ℕ → (ℕ → Bool) → ℕ
count zero p = 0
count (suc n) p = (if p n then 1 else 0) + count n p

abbrev Adds : ℕ → (ℕ → Bool) → (ℕ → Bool) → Type 0
Adds i p q = (j : ℕ) → q j ≡ (i == j || p j)

pub count-eq : (n : ℕ) (p q : ℕ → Bool) → ((j : ℕ) → j < n → q j ≡ p j) → count n q ≡ count n p
count-eq zero p q h = refl
count-eq (suc n) p q h = rw (h n (omega arith), count-eq n p q (λ j k. h j (omega arith)))

pub count-add :
    (n i : ℕ) (p q : ℕ → Bool) → Adds i p q → p i ≡ false → i < n → count n q ≡ count n p + 1
count-add zero i p q h k l = absurd (omega arith)
count-add (suc n) i p q h k l = elim (ℕ_discrete i n) [
  | yes e ↦ let same = count-eq n p q (λ j b. h j ∙ ground arith) in ground (arith, h n, same)
  | no ne ↦ ground (arith, h n, count-add n i p q h k)
]

pub count-add_self : (n i : ℕ) (p q : ℕ → Bool) → Adds i p q → p i ≡ true → count n q ≡ count n p
count-add_self n i p q h k =
    count-eq n p q
      (λ j b. h j ∙ elim (ℕ_discrete i j) [ yes e ↦ ground (arith, ap p e) | no ne ↦ ground arith ])

pub count-zero : (n : ℕ) (p : ℕ → Bool) → ((j : ℕ) → j < n → p j ≡ false) → count n p ≡ 0
count-zero zero p h = refl
count-zero (suc n) p h = ground (arith, h n, count-zero n p (λ j k. h j (omega arith)))
