-- ===== src/Filter/Siena/Clear.antt =====
-- The count of used rows, and siena_filter_clear_entry and _tbl_clear.
use gld.Base.{
  ℕ, ◌+◌, ◌<◌, ◌≡◌, refl, sym, ap, ◌∙◌, inl, inr, Bool, true, false, not, ◌&&◌, set, length-set,
  ◌==◌, ==_iff, Bool-cases, if◌then◌else◌, arith, ok, err, eexist,
}
use mathlib.Core.Path.{subst}
use native.Mathlib.Decide.{ℕ_discrete}
use gld.Filter.{SienaSpec, TblId, tbl_id}
use gld.Filter.Table.{Tbl}
use gld.Filter.Table.Bitmap.{
  bit, Covers, cleared, bit-marked, bit-cleared, count, count-add, count-add_self,
}
use gld.Filter.Table.Probe.{zero_siena, IsTbl}
use gld.Filter.Siena.{SienaFilter, put_tbl, same_tbl, add_at}
use gld.Filter.Siena.Add.{Wf, stored, after-tbl, add_at_lem, same_tbl_self}

-- `sft_used` is the number of used rows.
abbrev pub Counted : Tbl → Type 0
Counted t = t.used ≡ count t.size (bit t)

stored-count :
    (t : Tbl) (i : ℕ) (s : SienaSpec)
    → Covers t
    → i < t.size
    → Counted t
    → (bit (stored t i s) i ≡ true)
      × (t.used + 1 ≡ count t.size (bit (stored t i s)) + (if bit t i then 1 else 0))
stored-count t i s h l c =
    let marks = bit-marked t i h l in
    (
      marks i ∙ rw ((==_iff i i).1 refl) refl,
      elim (Bool-cases (bit t i)) [
        | inl e ↦ rw e (omega (arith, count-add_self t.size i (bit t) (bit (stored t i s)) marks e))
        | inr e ↦ rw e (omega (arith, count-add t.size i (bit t) (bit (stored t i s)) marks e l))
      ],
    )

module _ (st : SienaFilter) (k : TblId → ℕ) (v : Wf st k) where
  add_at-tbl :
      (s : SienaSpec) (may_replace : Bool) (i d : ℕ) {st' : SienaFilter}
      → i < (st.tbl (tbl_id s.type)).size
      → add_at st s may_replace i d ≡ ok st'
      → st'.tbl (tbl_id s.type) ≡ stored (st.tbl (tbl_id s.type)) i s
  add_at-tbl s may_replace i d {st'} h e =
      let known = sym (add_at_lem st k v s may_replace i d h) ∙ e in
      let same = pick (bit (st.tbl (tbl_id s.type)) i && not may_replace) _ known in
      ap (λ (x : SienaFilter). x.tbl (tbl_id s.type)) (sym same)
      ∙ ap (λ (f : TblId → Tbl). f (tbl_id s.type)) (after-tbl st k v s i d)
      ∙ rw (same_tbl_self (tbl_id s.type)) refl
    where
      pick : (b : Bool) (a : SienaFilter) → (if b then err eexist else ok a) ≡ ok st' → a ≡ st'
      pick b a q = ground (arith)

  -- Adding a filter to row `i` of a table whose count is right marks the row used; the count is right
  -- again if the row was unused, and one too high if the added filter replaces another.
  pub add_at-count :
      (s : SienaSpec) (may_replace : Bool) (i d : ℕ) {st' : SienaFilter}
      → i < (st.tbl (tbl_id s.type)).size
      → Counted (st.tbl (tbl_id s.type))
      → add_at st s may_replace i d ≡ ok st'
      → let t = st.tbl (tbl_id s.type) in
        let t' = st'.tbl (tbl_id s.type) in
        (bit t' i ≡ true) × (t'.used ≡ count t'.size (bit t') + (if bit t i then 1 else 0))
  add_at-count s may_replace i d {st'} h c e =
      let t = st.tbl (tbl_id s.type) in
      subst
        (λ (t' : Tbl).
          (bit t' i ≡ true) × (t'.used ≡ count t'.size (bit t') + (if bit t i then 1 else 0)))
        (sym (add_at-tbl s may_replace i d h e)) (stored-count t i s (v (tbl_id s.type)).covers h c)

-- The table after row `i` has been cleared.
abbrev pub emptied : Tbl → ℕ → Tbl
emptied t i = record (cleared t i) { spec = set t.spec i zero_siena }

emptied-IsTbl : (t : Tbl) (k i : ℕ) → IsTbl t k → IsTbl (emptied t i) k
emptied-IsTbl t k i v = record {
  power = v.power;
  small = v.small;
  covers = rw length-set v.covers;
  rows = length-set t.spec i zero_siena ∙ v.rows;
}

emptied-count :
    (t : Tbl) (i : ℕ) → Covers t → i < t.size → bit t i ≡ true → Counted t → Counted (emptied t i)
emptied-count t i h l e c =
    let clears = bit-cleared t i h l in
    let adds =
      count-add t.size i (bit (emptied t i)) (bit t)
        (λ j.
          rw (clears j)
            (elim (ℕ_discrete i j) [ yes q ↦ ground (arith, ap (bit t) q) | no ne ↦ ground arith ]))
        (clears i ∙ rw ((==_iff i i).1 refl) refl) l in
    omega (arith, adds)

-- What clearing row `i` of table `id` leaves.
pub record Cleared (st : SienaFilter) (k : TblId → ℕ) (id : TblId) (i : ℕ) (st' : SienaFilter)
    : Type 0 where
  pub wf : Wf st' k
  pub counted : Counted (st'.tbl id)
  pub size : (st'.tbl id).size ≡ (st.tbl id).size
  pub bits : (j : ℕ) → bit (st'.tbl id) j ≡ (not (i == j) && bit (st.tbl id) j)
  pub others : (j : TblId) → same_tbl id j ≡ false → st'.tbl j ≡ st.tbl j

same_tbl→eq : (a b : TblId) → same_tbl a b ≡ true → a ≡ b
same_tbl→eq a b h = ground arith

put_tbl-IsTbl :
    (f : TblId → Tbl) (k : TblId → ℕ) (id j : TblId) (t : Tbl)
    → ((j : TblId) → IsTbl (f j) (k j))
    → IsTbl t (k id)
    → IsTbl (put_tbl f id t j) (k j)
put_tbl-IsTbl f k id j t v w = elim (Bool-cases (same_tbl id j)) [
  | inl e ↦ rw e (subst (λ x. IsTbl t (k x)) (same_tbl→eq id j e) w)
  | inr e ↦ rw e (v j)
]

pub emptied-Cleared :
    (st : SienaFilter) (k : TblId → ℕ) (id : TblId) (i : ℕ) (st' : SienaFilter)
    → st'.tbl ≡ put_tbl st.tbl id (emptied (st.tbl id) i)
    → Wf st k
    → Counted (st.tbl id)
    → i < (st.tbl id).size
    → bit (st.tbl id) i ≡ true
    → Cleared st k id i st'
emptied-Cleared st k id i st' q v c h e =
    let here : st'.tbl id ≡ emptied (st.tbl id) i =
      ap (λ (f : TblId → Tbl). f id) q ∙ rw (same_tbl_self id) refl in
    record {
      wf = λ j. rw q (put_tbl-IsTbl st.tbl k id j _ v (emptied-IsTbl (st.tbl id) (k id) i (v id)));
      counted = rw here (emptied-count (st.tbl id) i (v id).covers h e c);
      size = rw here refl;
      bits = λ j. rw here (bit-cleared (st.tbl id) i (v id).covers h j);
      others = λ j d. ap (λ (f : TblId → Tbl). f j) q ∙ rw d refl;
    }

-- Table `id` has no used row any more, and the other tables are as before.
pub record Empty (st : SienaFilter) (id : TblId) (st' : SienaFilter) : Type 0 where
  pub size : (st'.tbl id).size ≡ (st.tbl id).size
  pub unused : (j : ℕ) → j < (st'.tbl id).size → bit (st'.tbl id) j ≡ false
  pub none_used : (st'.tbl id).used ≡ 0
  pub others : (j : TblId) → same_tbl id j ≡ false → st'.tbl j ≡ st.tbl j
