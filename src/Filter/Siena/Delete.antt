-- ===== src/Filter/Siena/Delete.antt =====
-- siena_filter_delete: the row that it clears.
use gld.Base.{
  ℕ, ◌<◌, ◌≡◌, refl, ap, ◌∙◌, inl, inr, true, false, ◌==◌, Bool-cases, get_or, Outcome, ok, err,
  fault, timeout, ◌>>=◌, read_at-get_or, enoent, arith,
}
use gld.Filter.{FilterSpec, SienaSpec, TblId, tbl_id, from_gen_spec}
use gld.Filter.Table.{Tbl, search}
use gld.Filter.Table.Bitmap.{bit, test_used_lem, clear_used_lem}
use gld.Filter.Table.Probe.{zero_siena, hit, probe, probe-lt, Searched, search-Searched}
use gld.Filter.Siena.{
  SienaFilter, put_tbl, push_entry, zero_row, clear_entry, build_key, delete, reset_if_empty,
  reset_search_depth,
}
use gld.Filter.Siena.Add.{Wf}
use gld.Filter.Siena.Clear.{emptied, Counted, Cleared, emptied-Cleared}

hit→bit : (t : Tbl) (s : SienaSpec) (i : ℕ) → hit t s false i ≡ true → bit t i ≡ true
hit→bit t s i h = ground (arith, h)

clear_entry-used :
    (st : SienaFilter) (k : TblId → ℕ) (id : TblId) (i : ℕ)
    → Wf st k
    → Counted (st.tbl id)
    → i < (st.tbl id).size
    → bit (st.tbl id) i ≡ true
    → (st' : SienaFilter) × (clear_entry st id i ≡ ok st') × Cleared st k id i st'
unfolding clear_entry
clear_entry-used st k id i v c h e =
    let t = st.tbl id in
    let kept = get_or t.spec i zero_siena in
    let st' : SienaFilter = record (push_entry st kept.type i zero_row) {
      tbl = put_tbl st.tbl id (emptied t i);
    } in
    (
      st',
      rw
          (
            test_used_lem t i (v id).covers h,
            e,
            clear_used_lem t i (v id).covers h,
            read_at-get_or t.spec i zero_siena (rw (v id).rows h),
          )
          refl,
      emptied-Cleared st k id i st' refl v c h e,
    )

reset_if_empty-Cleared :
    (st : SienaFilter) (k : TblId → ℕ) (id : TblId) (i : ℕ) (st' : SienaFilter)
    → Cleared st k id i st'
    → Cleared st k id i (reset_if_empty st' id)
unfolding reset_search_depth
reset_if_empty-Cleared st k id i st' p = elim (Bool-cases ((st'.tbl id).used == 0)) [
  | inl q ↦
      rw q
        (record { wf = p.wf; counted = p.counted; size = p.size; bits = p.bits; others = p.others })
  | inr q ↦ rw q p
]

module _ (st : SienaFilter) (k : TblId → ℕ) (v : Wf st k) where
  -- The answers of delete for the filter `s`.
  abbrev pub Deletes : SienaSpec → Outcome SienaFilter → Type 0
  Deletes s (ok st') =
      (i : ℕ) × (hit (st.tbl (tbl_id s.type)) s false i ≡ true) × Cleared st k (tbl_id s.type) i st'
  Deletes s (err e) =
      (e ≡ enoent)
      × ((m : ℕ)
          → m < 200
          → hit (st.tbl (tbl_id s.type)) s false (probe (st.tbl (tbl_id s.type)) (build_key s) m)
            ≡ false)
  Deletes s fault = ⊥
  Deletes s timeout = ⊥

  found :
      (s : SienaSpec) (r : Outcome (ℕ × ℕ))
      → Counted (st.tbl (tbl_id s.type))
      → Searched (st.tbl (tbl_id s.type)) s (build_key s) false r
      → Deletes s (
          r >>= λ (i, d).
          clear_entry st (tbl_id s.type) i >>= λ st'. ok (reset_if_empty st' (tbl_id s.type)))
  found s (err e) c h = h
  found s fault c h = h
  found s timeout c h = h
  found s (ok (i, d)) c (n, e, l, h, b) =
      let t = st.tbl (tbl_id s.type) in
      let same : i ≡ probe t (build_key s) n = ap (λ r. r.0) e in
      let here : hit t s false i ≡ true = ap (hit t s false) same ∙ h in
      let below : i < t.size =
        rw same (probe-lt t (k (tbl_id s.type)) (v (tbl_id s.type)) (build_key s) n) in
      let (st', q, p) = clear_entry-used st k (tbl_id s.type) i v c below (hit→bit t s i here) in
      rw q (i, here, reset_if_empty-Cleared st k (tbl_id s.type) i st' p)

  -- For tables of `2 ^ k` rows, with a right count in the table of a specification that translates to
  -- `s`, delete ends. Where it succeeds a used row with a filter equal to `s` is unused, every other row
  -- of the table is used as before, the count is right, and the other tables are as before; else it
  -- returns ENOENT, and none of the 200 probed rows is used by an equal filter.
  pub delete-Deletes :
      (g : FilterSpec) (s : SienaSpec)
      → from_gen_spec g ≡ ok s
      → Counted (st.tbl (tbl_id s.type))
      → Deletes s (delete st g)
  unfolding delete
  delete-Deletes g s e c = rw e (
      found s (search (st.tbl (tbl_id s.type)) s (build_key s) false) c (
        search-Searched (st.tbl (tbl_id s.type)) (k (tbl_id s.type)) (v (tbl_id s.type)) s
          (build_key s) false))
