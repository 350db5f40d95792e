-- ===== src/Filter/Siena.antt =====
-- The Siena filter tables in memory and in the hardware (common/efx_filter.c, siena_filter_*): the
-- filter state, and the operations that change it. The locks are taken round each operation whole.
pub mod Add
pub mod Clear
pub mod Delete
pub mod Init
pub mod Limits
use gld.Base.{
  ℕ, zero, suc, ◌+◌, ◌*◌, ◌/◌, ◌%◌, ◌^◌, Bool, true, false, not, ◌&&◌, ◌||◌, List, [], ◌∷◌, get_or,
  get_elem?, set, replicate, ltb, ◌==◌, if◌then◌else◌, u32, ◌<<<◌, bit_or, bit_xor, Outcome, ok,
  err, ◌>>=◌, ◌>>◌, fail_if, read_at, einval, eexist, enomem, enotsup,
}
use gld.Filter.{
  FilterSpec, SienaSpec, FilterType, TblId, rx_ip, rx_mac, tx_ip, tx_mac, tbl_id, has, rx_rss,
  rx_scatter, from_gen_spec, match_full, match_local, loc_mac_bit, outer_vid_bit, rx_tcp_full,
  rx_tcp_wild, rx_udp_full, rx_udp_wild, rx_mac_full, rx_mac_wild, tx_tcp_full, tx_tcp_wild,
  tx_udp_full, tx_udp_wild, tx_mac_full, tx_mac_wild,
}
use gld.Filter.Table.{Tbl, test_used, set_used, clear_used, search, type_index, is_tx}
use gld.Filter.Table.Probe.{zero_siena}

-- A row of a hardware table, by its fields: RSS and scatter where the table has them, the UDP or
-- wildcard flag, the queue, and the match from the highest part down.
pub data Row : Type 0 where
  zero_row : Row
  rx_row : ℕ → ℕ → ℕ → ℕ → ℕ → ℕ → ℕ → Row
  tx_row : ℕ → ℕ → ℕ → ℕ → ℕ → Row

-- `siena_filter_t` with the registers that it writes: the search limit of each type and the rows
-- of each table. The arrays sf_tbl and sf_depth are indexed by the values of the enumerations.
pub record SienaFilter : Type 0 where
  pub tbl : TblId → Tbl
  pub depth : ℕ → ℕ
  pub limit : ℕ → ℕ
  pub row : TblId → ℕ → Row

abbrev pub tbl_index : TblId → ℕ
tbl_index rx_ip = 0
tbl_index rx_mac = 1
tbl_index tx_ip = 2
tbl_index tx_mac = 3

abbrev pub same_tbl : TblId → TblId → Bool
same_tbl a b = tbl_index a == tbl_index b

abbrev pub put_tbl {ℓ} : {A : Type ℓ} → (TblId → A) → TblId → A → TblId → A
put_tbl f id v j = if same_tbl id j then v else f j

abbrev pub put {ℓ} : {A : Type ℓ} → (ℕ → A) → ℕ → A → ℕ → A
put f i v j = if i == j then v else f j

-- siena_filter_reset_search_depth: the types of a table.
abbrev pub of_tbl : TblId → ℕ → Bool
of_tbl rx_ip n = ltb n 4
of_tbl rx_mac n = n == 4 || n == 5
of_tbl tx_ip n = n == 6 || n == 7 || n == 8 || n == 9
of_tbl tx_mac n = n == 10 || n == 11

pub reset_search_depth : SienaFilter → TblId → SienaFilter
reset_search_depth st id = record st { depth = λ n. if of_tbl id n then 0 else st.depth n }

-- FILTER_CTL_SRCH_FUDGE_FULL for the even values of `siena_filter_type_t`, _WILD for the odd ones.
abbrev pub fudge : ℕ → ℕ
fudge n = if n % 2 == 0 then 1 else 3

-- The limit fields of some types are set to the depth and the fudge factor, in 8 bits.
abbrev push_limits : (ℕ → Bool) → SienaFilter → SienaFilter
push_limits which st = record st {
  limit = λ n. if which n then (st.depth n + fudge n) % 2 ^ 8 else st.limit n;
}

-- siena_filter_push_rx_limits and _tx_limits: a table of size 0 has no limits, but RX_IP.
pub push_rx_limits : SienaFilter → SienaFilter
push_rx_limits st =
    push_limits (λ n. of_tbl rx_ip n || of_tbl rx_mac n && not ((st.tbl rx_mac).size == 0)) st

pub push_tx_limits : SienaFilter → SienaFilter
push_tx_limits st =
    push_limits
      (λ n.
        of_tbl tx_ip n && not ((st.tbl tx_ip).size == 0)
        || of_tbl tx_mac n && not ((st.tbl tx_mac).size == 0))
      st

abbrev flag : Bool → ℕ
flag true = 1
flag false = 0

-- is_udp or is_wild, by the table.
abbrev kind : FilterType → ℕ
kind rx_udp_full = 1
kind rx_udp_wild = 1
kind rx_mac_wild = 1
kind tx_udp_full = 1
kind tx_udp_wild = 1
kind tx_mac_wild = 1
kind _ = 0

abbrev build_in : TblId → SienaSpec → Row
build_in rx_ip s =
    rx_row (flag (has s.flags rx_rss)) (flag (has s.flags rx_scatter)) (kind s.type)
      (s.dmaq_id % 2 ^ 12) s.dword2 s.dword1 s.dword0
build_in rx_mac s =
    rx_row (flag (has s.flags rx_rss)) (flag (has s.flags rx_scatter)) (kind s.type)
      (s.dmaq_id % 2 ^ 12) (s.dword2 % 2 ^ 16) s.dword1 (s.dword0 % 2 ^ 12)
build_in tx_ip s = tx_row (kind s.type) (s.dmaq_id % 2 ^ 12) s.dword2 s.dword1 s.dword0
build_in tx_mac s =
    tx_row (kind s.type) (s.dmaq_id % 2 ^ 12) (s.dword2 % 2 ^ 16) s.dword1 (s.dword0 % 2 ^ 12)

-- siena_filter_build: the row, and the key of the n-tuple.
pub build_row : SienaSpec → Row
build_row s = build_in (tbl_id s.type) s

abbrev dword3 : SienaSpec → ℕ
dword3 s =
    if is_tx (tbl_id s.type) then bit_or (kind s.type) (u32 (s.dmaq_id <<< 1)) else kind s.type

pub build_key : SienaSpec → ℕ
build_key s = bit_xor (bit_xor (bit_xor s.dword0 s.dword1) s.dword2) (dword3 s)

-- siena_filter_push_entry
pub push_entry : SienaFilter → FilterType → ℕ → Row → SienaFilter
push_entry st type index row = record st {
  row = put_tbl st.row (tbl_id type) (put (st.row (tbl_id type)) index row);
}

-- The part of siena_filter_add behind the search.
pub raise_depth : SienaFilter → FilterType → ℕ → SienaFilter
unfolding push_rx_limits push_tx_limits
raise_depth st type depth =
    let st' : SienaFilter = record st { depth = put st.depth (type_index type) depth } in
    if ltb (st.depth (type_index type)) depth
    then (if is_tx (tbl_id type) then push_tx_limits st' else push_rx_limits st')
    else st

pub add_at : SienaFilter → SienaSpec → Bool → ℕ → ℕ → Outcome SienaFilter
unfolding push_rx_limits push_tx_limits
add_at st s may_replace index depth = do
  let id = tbl_id s.type
  let t = st.tbl id
  used ← test_used t index
  fail_if (used && not may_replace) eexist
  t' ← set_used t index
  let stored : Tbl = record t' { spec = set t'.spec index s }
  let st' : SienaFilter = record st { tbl = put_tbl st.tbl id stored }
  ok (push_entry (raise_depth st' s.type depth) s.type index (build_row s))

-- siena_filter_add. Nothing has changed where it returns an error.
pub add : SienaFilter → FilterSpec → Bool → Outcome SienaFilter
add st g may_replace = do
  s ← from_gen_spec g
  fail_if ((st.tbl (tbl_id s.type)).size == 0) einval
  (index, depth) ← search (st.tbl (tbl_id s.type)) s (build_key s) true
  add_at st s may_replace index depth

-- siena_filter_clear_entry
pub clear_entry : SienaFilter → TblId → ℕ → Outcome SienaFilter
clear_entry st id index = do
  let t = st.tbl id
  used ← test_used t index
  let cleared = (do
    t' ← clear_used t index
    s ← read_at t.spec index
    let pushed = push_entry st s.type index zero_row
    ok (record pushed {
      tbl = put_tbl st.tbl id (record t' { spec = set t'.spec index zero_siena });
    }))
  if used then cleared else ok st

-- The depths are reset when the table has become empty.
abbrev pub reset_if_empty : SienaFilter → TblId → SienaFilter
reset_if_empty st id = if (st.tbl id).used == 0 then reset_search_depth st id else st

-- siena_filter_delete
pub delete : SienaFilter → FilterSpec → Outcome SienaFilter
delete st g = do
  s ← from_gen_spec g
  (index, depth) ← search (st.tbl (tbl_id s.type)) s (build_key s) false
  st' ← clear_entry st (tbl_id s.type) index
  ok (reset_if_empty st' (tbl_id s.type))

-- siena_filter_tbl_clear: the loop, with `left` rows to go from `index` on.
pub clear_from : ℕ → SienaFilter → TblId → ℕ → Outcome SienaFilter
clear_from zero st id index = ok st
clear_from (suc left) st id index = do
  st' ← clear_entry st id index
  clear_from left st' id (index + 1)

pub tbl_clear : SienaFilter → TblId → Outcome SienaFilter
tbl_clear st id = do st' ← clear_from (st.tbl id).size st id 0; ok (reset_if_empty st' id)
