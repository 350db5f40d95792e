-- ===== src/Filter/Table/Probe.antt =====
-- What a search of a filter table finds: the first row that fits among the 200 that it probes.
use gld.Base.{
  ℕ, zero, suc, ◌+◌, ◌-◌, ◌%◌, ◌^◌, ◌≤◌, ◌<◌, ◌≡◌, refl, ap, ◌∙◌, inl, inr, Bool, true, false,
  length, get_or, get_elem?-eq-get_or, ◌==◌, ==_iff, Bool-cases, if◌then◌else◌, u32, bit_and, arith,
  Outcome, ok, err, fault, timeout, ebusy, enoent,
}
use native.Mathlib.Nat.{one-le-pow, mod-lt}
use native.Mathlib.Decide.{ℕ_discrete}
use gld.Base.Bits.Mask.{bit_and-ones}
use gld.Filter.{SienaSpec, rx_tcp_full}
use gld.Filter.Table.{Tbl, accepts, filter_equal, search_from, search, tbl_hash, tbl_increment}
use gld.Filter.Table.Bitmap.{bit, Covers, test_used_lem}

-- memset(spec, 0, sizeof (*spec))
abbrev pub zero_siena : SienaSpec
zero_siena = record {
  type = rx_tcp_full;
  flags = 0;
  dmaq_id = 0;
  dword0 = 0;
  dword1 = 0;
  dword2 = 0;
}

-- The arrays of a table of `2 ^ k` rows.
pub record IsTbl (t : Tbl) (k : ℕ) : Type 0 where
  pub power : t.size ≡ 2 ^ k
  pub small : t.size ≤ 2 ^ 16
  pub covers : Covers t
  pub rows : length t.spec ≡ t.size

-- Does row `i` end a search?
abbrev pub hit : Tbl → SienaSpec → Bool → ℕ → Bool
hit t s for_insert i = if bit t i then filter_equal s (get_or t.spec i zero_siena) else for_insert

-- The row probed at depth `n + 1`.
abbrev pub probe : Tbl → ℕ → ℕ → ℕ
probe t key zero = tbl_hash key % t.size
probe t key (suc n) = (probe t key n + tbl_increment key) % t.size

-- `r` is the first of the 200 probed rows that fits, with its depth, or the error if there is none.
abbrev pub Searched : Tbl → SienaSpec → ℕ → Bool → Outcome (ℕ × ℕ) → Type 0
Searched t s key for_insert (ok r) =
    (n : ℕ) × (r ≡ (probe t key n, n + 1))
    × (n < 200)
    × (hit t s for_insert (probe t key n) ≡ true)
    × ((m : ℕ) → m < n → hit t s for_insert (probe t key m) ≡ false)
Searched t s key for_insert (err e) =
    (e ≡ (if for_insert then ebusy else enoent))
    × ((m : ℕ) → m < 200 → hit t s for_insert (probe t key m) ≡ false)
Searched t s key for_insert fault = ⊥
Searched t s key for_insert timeout = ⊥

below_suc :
    (n : ℕ) (p : ℕ → Bool)
    → ((m : ℕ) → m < n → p m ≡ false)
    → p n ≡ false
    → (m : ℕ) → m < suc n
    → p m ≡ false
below_suc n p h e m b = elim (ℕ_discrete m n) [ yes q ↦ ap p q ∙ e | no ne ↦ h m (omega arith) ]

next_depth : (n : ℕ) → n + 1 + 1 ≡ suc n + 1
next_depth n = omega arith

module _ (t : Tbl) (k : ℕ) (v : IsTbl t k) where
  pub accepts_lem :
      (s : SienaSpec) (for_insert : Bool) (i : ℕ)
      → i < t.size
      → accepts t s for_insert i ≡ ok (hit t s for_insert i)
  unfolding accepts
  accepts_lem s for_insert i h =
      ground (arith, test_used_lem t i v.covers h, get_elem?-eq-get_or t.spec i zero_siena)

  size_pos : 0 < t.size
  size_pos = omega (arith, v.power, one-le-pow k 2)

  pub probe-lt : (key n : ℕ) → probe t key n < t.size
  probe-lt key zero = mod-lt (tbl_hash key) size_pos
  probe-lt key (suc n) = mod-lt (probe t key n + tbl_increment key) size_pos

  mask : (a : ℕ) → bit_and a (t.size - 1) ≡ a % t.size
  mask a = rw v.power (bit_and-ones k a)

  increment_lt : (key : ℕ) → tbl_increment key < 2 ^ 16
  unfolding tbl_increment
  increment_lt key = omega arith

  next_probe :
      (key n : ℕ)
      → bit_and (u32 (probe t key n + tbl_increment key)) (t.size - 1) ≡ probe t key (suc n)
  next_probe key n =
      let q : u32 (probe t key n + tbl_increment key) ≡ probe t key n + tbl_increment key =
        omega (arith, probe-lt key n, increment_lt key, v.small) in
      mask _ ∙ ap (λ (a : ℕ). a % t.size) q

  search_from-Searched :
      (f : ℕ) (s : SienaSpec) (key : ℕ) (for_insert : Bool) (n : ℕ)
      → f + n ≡ 200
      → n < 200
      → ((m : ℕ) → m < n → hit t s for_insert (probe t key m) ≡ false)
      → Searched t s key for_insert
          (search_from f t s for_insert (tbl_increment key) (probe t key n) (n + 1))
  unfolding search_from
  search_from-Searched zero s key for_insert n h l before = absurd (omega arith)
  search_from-Searched (suc f) s key for_insert n h l before =
      rw (accepts_lem s for_insert (probe t key n) (probe-lt key n))
        (elim (Bool-cases (hit t s for_insert (probe t key n))) [
          | inl e ↦ rw e (n, refl, l, e, before)
          | inr e ↦ rw e (elim (Bool-cases (n + 1 == 200)) [
            | inl z ↦ rw z (
              refl,
              λ m b.
                  below_suc n (λ m. hit t s for_insert (probe t key m)) before e m
                    (omega (arith, (==_iff (n + 1) 200).0 z)),
            )
            | inr z ↦
                rw (z, next_probe key n, next_depth n)
                  (search_from-Searched f s key for_insert (suc n) (omega arith) (ground arith)
                    (below_suc n (λ m. hit t s for_insert (probe t key m)) before e))
          ])
        ])

  -- The search of a table of `2 ^ k` rows, at most 2 ^ 16, ends within 200 probes and inside its
  -- arrays. It returns the first probed row that is used by an equal specification or, to insert,
  -- unused, with its depth; if there is none it returns EBUSY to insert and ENOENT otherwise.
  pub search-Searched :
      (s : SienaSpec) (key : ℕ) (for_insert : Bool)
      → Searched t s key for_insert (search t s key for_insert)
  unfolding search
  search-Searched s key for_insert = rw (mask (tbl_hash key)) (
      search_from-Searched 200 s key for_insert 0 (omega arith) (omega arith)
        (λ m b. absurd (omega arith)))
