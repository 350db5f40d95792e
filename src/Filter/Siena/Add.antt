-- ===== src/Filter/Siena/Add.antt =====
-- siena_filter_add: the stored filter is found again, by the driver and by the hardware.
use gld.Base.{
  ℕ, zero, suc, ◌+◌, ◌≤◌, ◌<◌, ◌≡◌, ◌≢◌, refl, sym, ap, ◌∙◌, inl, inr, ◌⊎◌, Bool, true, false, not,
  ◌&&◌, get_or, set, get_or-set_self, get_or-set_ne, length-set, ==_iff, ne→==, Bool-cases,
  if◌then◌else◌, arith, Outcome, ok, err, fault, timeout, ◌>>=◌, eexist, ebusy,
}
use native.Mathlib.Decide.{dec_lt}
use gld.Filter.{FilterSpec, SienaSpec, TblId, tbl_id, from_gen_spec}
use gld.Filter.Table.{Tbl, search, filter_equal, type_index}
use gld.Filter.Table.Bitmap.{bit, marked, test_used_lem, set_used_lem, bit-marked}
use gld.Filter.Table.Probe.{zero_siena, IsTbl, hit, probe, probe-lt, Searched, search-Searched}
use gld.Filter.Siena.Limits.{raise_depth_lem}
use gld.Filter.Siena.{
  SienaFilter, put_tbl, same_tbl, raise_depth, push_entry, build_row, build_key, add_at, add,
}

filter_equal_self : (s : SienaSpec) → filter_equal s s ≡ true
unfolding filter_equal
filter_equal_self s = ground arith

-- The table with the filter stored in row `i`.
abbrev pub stored : Tbl → ℕ → SienaSpec → Tbl
stored t i s = record (marked t i) { spec = set t.spec i s }

stored-IsTbl : (t : Tbl) (k i : ℕ) (s : SienaSpec) → IsTbl t k → IsTbl (stored t i s) k
stored-IsTbl t k i s v = record {
  power = v.power;
  small = v.small;
  covers = rw length-set v.covers;
  rows = length-set t.spec i s ∙ v.rows;
}

-- A probe depends on the size alone.
probe-stored :
    (t : Tbl) (i : ℕ) (s : SienaSpec) (key n : ℕ) → probe (stored t i s) key n ≡ probe t key n
probe-stored t i s key zero = refl
probe-stored t i s key (suc n) = rw (probe-stored t i s key n) refl

-- A first index is the only one.
first_unique :
    (p : ℕ → Bool) (n m : ℕ)
    → p n ≡ true
    → ((j : ℕ) → j < n → p j ≡ false)
    → p m ≡ true
    → ((j : ℕ) → j < m → p j ≡ false)
    → m ≡ n
first_unique p n m a h b k = elim (dec_lt m n) [
  | yes l ↦ let q : true ≡ false = sym b ∙ h m l in cc
  | no nl ↦ elim (dec_lt n m) [
    | yes l ↦ let q : true ≡ false = sym a ∙ k n l in cc
    | no nm ↦ omega arith
  ]
]

module _ (t : Tbl) (k : ℕ) (v : IsTbl t k) (s : SienaSpec) (key n : ℕ)
    (ends : hit t s true (probe t key n) ≡ true) (bound : n < 200)
    (before : (m : ℕ) → m < n → hit t s true (probe t key m) ≡ false) where
  abbrev here : ℕ
  here = probe t key n

  hit-here : hit (stored t here s) s false here ≡ true
  hit-here =
      rw
        (
          bit-marked t here v.covers (probe-lt t k v key n) here,
          (==_iff here here).1 refl,
          get_or-set_self t.spec here s zero_siena (rw v.rows (probe-lt t k v key n)),
        )
        (filter_equal_self s)

  misses : (m : ℕ) → m < n → hit (stored t here s) s false (probe t key m) ≡ false
  misses m b =
      let other : here ≢ probe t key m =
        λ e. let q : true ≡ false = sym ends ∙ ap (hit t s true) e ∙ before m b in cc in
      rw
        (
          bit-marked t here v.covers (probe-lt t k v key n) (probe t key m),
          ne→== here (probe t key m) other,
          get_or-set_ne t.spec here (probe t key m) s zero_siena other,
        )
        (ground (arith, before m b))

  -- The search without insertion stops at the row that the insertion took, at the same depth.
  search-stored : search (stored t here s) s key false ≡ ok (here, n + 1)
  search-stored =
      first (search (stored t here s) s key false)
        (search-Searched (stored t here s) k (stored-IsTbl t k here s v) s key false)
    where
      first :
          (r : Outcome (ℕ × ℕ)) → Searched (stored t here s) s key false r → r ≡ ok (here, n + 1)
      first (ok r) (n', e, lt, h, b) =
          let moved = probe-stored t here s key in
          let same =
            first_unique (λ m. hit (stored t here s) s false (probe t key m)) n n' hit-here misses
              (rw (← moved n') h) (λ m c. rw (← moved m) (b m c)) in
          ap ok (e ∙ rw (moved n', same) refl)
      first (err x) (e, b) =
          let moved = probe-stored t here s key n in
          let q : true ≡ false = sym hit-here ∙ rw (← moved) (b n bound) in cc
      first fault h = absurd h
      first timeout h = absurd h

abbrev pub Wf : SienaFilter → (TblId → ℕ) → Type 0
Wf st k = (id : TblId) → IsTbl (st.tbl id) (k id)

-- What holds after the filter `s` has been added in state `st`.
pub record Added (st st' : SienaFilter) (s : SienaSpec) : Type 0 where
  pub index : ℕ
  pub depth : ℕ
  pub found : search (st'.tbl (tbl_id s.type)) s (build_key s) false ≡ ok (index, depth)
  pub kept : get_or (st'.tbl (tbl_id s.type)).spec index zero_siena ≡ s
  pub pushed : st'.row (tbl_id s.type) index ≡ build_row s
  pub reached : (depth ≤ st'.depth (type_index s.type)) × (1 ≤ depth)
  pub others : (id : TblId) → same_tbl (tbl_id s.type) id ≡ false → st'.tbl id ≡ st.tbl id

pub same_tbl_self : (id : TblId) → same_tbl id id ≡ true
same_tbl_self id = (==_iff _ _).1 refl

module _ (st : SienaFilter) (k : TblId → ℕ) (v : Wf st k) where
  abbrev pub table : SienaSpec → Tbl
  table s = st.tbl (tbl_id s.type)

  -- The state that add_at returns.
  abbrev pub after : SienaSpec → ℕ → ℕ → SienaFilter
  after s i d =
      push_entry
        (raise_depth (record st { tbl = put_tbl st.tbl (tbl_id s.type) (stored (table s) i s) })
          s.type d)
        s.type i (build_row s)

  pub add_at_lem :
      (s : SienaSpec) (may_replace : Bool) (i d : ℕ)
      → i < (table s).size
      → add_at st s may_replace i d
        ≡ (if bit (table s) i && not may_replace then err eexist else ok (after s i d))
  unfolding add_at
  add_at_lem s may_replace i d h = ground (
    arith,
    test_used_lem (table s) i (v (tbl_id s.type)).covers h,
    set_used_lem (table s) i (v (tbl_id s.type)).covers h,
  )

  pub after-tbl :
      (s : SienaSpec) (i d : ℕ)
      → (after s i d).tbl ≡ put_tbl st.tbl (tbl_id s.type) (stored (table s) i s)
  unfolding push_entry
  after-tbl s i d = (raise_depth_lem _ s.type d).2

  after-Added :
      (s : SienaSpec) (n : ℕ)
      → hit (table s) s true (probe (table s) (build_key s) n) ≡ true
      → n < 200
      → ((m : ℕ) → m < n → hit (table s) s true (probe (table s) (build_key s) m) ≡ false)
      → Added st (after s (probe (table s) (build_key s) n) (n + 1)) s
  unfolding push_entry
  after-Added s n e b before =
      let id = tbl_id s.type in
      let i = probe (table s) (build_key s) n in
      let here : (after s i (n + 1)).tbl id ≡ stored (table s) i s =
        ap (λ (f : TblId → Tbl). f id) (after-tbl s i (n + 1)) ∙ rw (same_tbl_self id) refl in
      let inside = probe-lt (table s) (k id) (v id) (build_key s) n in
      record {
        index = i;
        depth = n + 1;
        found =
            ap (λ t. search t s (build_key s) false) here
            ∙ search-stored (table s) (k id) (v id) s (build_key s) n e b before;
        kept =
            ap (λ (t : Tbl). get_or t.spec i zero_siena) here
            ∙ get_or-set_self (table s).spec i s zero_siena (rw (v id).rows inside);
        pushed = rw (same_tbl_self id, (==_iff i i).1 refl) refl;
        reached = ((raise_depth_lem _ s.type (n + 1)).0, omega arith);
        others = λ j q. ap (λ (f : TblId → Tbl). f j) (after-tbl s i (n + 1)) ∙ rw q refl;
      }

  -- The answers of add to a search's result.
  abbrev pub Answers : SienaSpec → Bool → Outcome SienaFilter → Type 0
  Answers s may_replace (ok st') = Added st st' s
  Answers s may_replace (err e) =
      ((e ≡ ebusy)
        × ((m : ℕ) → m < 200 → hit (table s) s true (probe (table s) (build_key s) m) ≡ false))
      ⊎ ((e ≡ eexist)
          × (may_replace ≡ false)
          × ((n : ℕ) × (hit (table s) s true (probe (table s) (build_key s) n) ≡ true)
              × (bit (table s) (probe (table s) (build_key s) n) ≡ true)))
  Answers s may_replace fault = ⊥
  Answers s may_replace timeout = ⊥

  answer :
      (s : SienaSpec) (may_replace : Bool) (r : Outcome (ℕ × ℕ))
      → Searched (table s) s (build_key s) true r
      → Answers s may_replace (r >>= λ (i, d). add_at st s may_replace i d)
  answer s may_replace (ok r) (n, e, b, h, before) =
      let i = probe (table s) (build_key s) n in
      let step =
        add_at_lem s may_replace i (n + 1)
          (probe-lt (table s) (k (tbl_id s.type)) (v (tbl_id s.type)) (build_key s) n) in
      rw (e, step)
        (elim (Bool-cases (bit (table s) i)) [
          | inl u ↦ elim (Bool-cases may_replace) [
            | inl y ↦ rw (u, y) (after-Added s n h b before)
            | inr y ↦ rw (u, y) (inr (refl, refl, (n, h, u)))
          ]
          | inr u ↦ rw u (after-Added s n h b before)
        ])
  answer s may_replace (err x) (e, b) = inl (e, b)
  answer s may_replace fault h = h
  answer s may_replace timeout h = h

  -- For tables of `2 ^ k` rows and a specification that translates to `s`, of a table that has rows,
  -- add ends. Where it succeeds a search for `s` without insertion finds the row that it took, at the
  -- depth that it needed; `s` is kept there and its row is in the hardware; the depth of its type
  -- covers that depth; and the other tables are as before. It returns EBUSY only if none of the 200
  -- probed rows is unused or holds an equal filter, and EEXIST only without may_replace, if one that
  -- ends the search is used.
  pub add-Answers :
      (g : FilterSpec) (s : SienaSpec) (may_replace : Bool)
      → from_gen_spec g ≡ ok s
      → (table s).size ≢ 0
      → Answers s may_replace (add st g may_replace)
  unfolding add
  add-Answers g s may_replace e z =
      rw (e, ne→== (table s).size 0 z)
        (answer s may_replace (search (table s) s (build_key s) true)
          (search-Searched (table s) (k (tbl_id s.type)) (v (tbl_id s.type)) s (build_key s) true))
