-- ===== src/Filter/Table.antt =====
-- The Siena filter tables in memory (common/efx_filter.c): the bitmap of used rows, the hash and
-- the search for a row.
pub mod Bitmap
pub mod Probe
use gld.Base.{
  ℕ, zero, suc, ◌+◌, ◌-◌, ◌*◌, ◌/◌, ◌%◌, ◌^◌, Bool, true, false, not, ◌&&◌, ◌||◌, List, get_or,
  get_elem?, set, ◌==◌, if◌then◌else◌, u16, u32, ◌<<<◌, ◌>>>◌, bit_and, bit_or, bit_xor, Outcome,
  ok, err, fault, timeout, ◌>>=◌, read_at, ebusy, enoent,
}
use gld.Filter.{
  FilterType, SienaSpec, TblId, rx_ip, rx_mac, tx_ip, tx_mac, tbl_id, rx_tcp_full, rx_tcp_wild,
  rx_udp_full, rx_udp_wild, rx_mac_full, rx_mac_wild, tx_tcp_full, tx_tcp_wild, tx_udp_full,
  tx_udp_wild, tx_mac_full, tx_mac_wild,
}

-- `siena_filter_tbl_t`: `bitmap` has 32 rows to a word.
pub record Tbl : Type 0 where
  pub size : ℕ
  pub used : ℕ
  pub bitmap : List ℕ
  pub spec : List SienaSpec

-- siena_filter_tbl_hash; the shifts are done in `int`, and each assignment cuts to 16 bits.
pub tbl_hash : ℕ → ℕ
tbl_hash key =
    let t0 = bit_xor 0x1fff (u16 (key >>> 16)) in
    let t1 = bit_xor (bit_xor t0 (t0 >>> 3)) (t0 >>> 6) in
    let t2 = bit_xor t1 (t1 >>> 9) in
    let t3 = u16 (bit_xor (bit_xor t2 (t2 <<< 13)) (bit_and key 0xffff)) in
    let t4 = bit_xor (bit_xor t3 (t3 >>> 3)) (t3 >>> 6) in bit_xor t4 (t4 >>> 9)

-- siena_filter_tbl_increment; `key * 2 - 1` in 32 bits.
pub tbl_increment : ℕ → ℕ
tbl_increment key = u16 (u32 (key * 2 + 2 ^ 32 - 1))

pub test_used : Tbl → ℕ → Outcome Bool
test_used t index =
    read_at t.bitmap (index / 32) >>= λ w. ok (not (bit_and w (1 <<< (index % 32)) == 0))

pub set_used : Tbl → ℕ → Outcome Tbl
set_used t index = read_at t.bitmap (index / 32) >>= λ w. ok (record t {
  bitmap = set t.bitmap (index / 32) (bit_or w (1 <<< (index % 32)));
  used = t.used + 1;
})

-- `~(1 << k)` in 32 bits. The assertion keeps `used` from falling below 0.
pub clear_used : Tbl → ℕ → Outcome Tbl
clear_used t index = read_at t.bitmap (index / 32) >>= λ w. ok (record t {
  bitmap = set t.bitmap (index / 32) (bit_and w (2 ^ 32 - 1 - (1 <<< (index % 32))));
  used = t.used - 1;
})

abbrev pub type_index : FilterType → ℕ
type_index rx_tcp_full = 0
type_index rx_tcp_wild = 1
type_index rx_udp_full = 2
type_index rx_udp_wild = 3
type_index rx_mac_full = 4
type_index rx_mac_wild = 5
type_index tx_tcp_full = 6
type_index tx_tcp_wild = 7
type_index tx_udp_full = 8
type_index tx_udp_wild = 9
type_index tx_mac_full = 10
type_index tx_mac_wild = 11

abbrev pub is_tx : TblId → Bool
is_tx rx_ip = false
is_tx rx_mac = false
is_tx tx_ip = true
is_tx tx_mac = true

-- siena_filter_equal: the flags are not compared, and the queue only for transmit filters.
unfoldable pub filter_equal : SienaSpec → SienaSpec → Bool
filter_equal l r =
    type_index l.type == type_index r.type
    && (l.dword0 == r.dword0 && l.dword1 == r.dword1 && l.dword2 == r.dword2)
    && not (is_tx (tbl_id l.type) && not (l.dmaq_id == r.dmaq_id))

abbrev pub srch_max : ℕ
srch_max = 200

-- The test at the head of the search loop.
pub accepts : Tbl → SienaSpec → Bool → ℕ → Outcome Bool
unfolding test_used filter_equal
accepts t spec for_insert index = test_used t index >>= λ used.
    if used then (read_at t.spec index >>= λ s. ok (filter_equal spec s)) else ok for_insert

-- The `for (;;)`: `filter_idx` and `depth` of the row found. It ends at depth 200.
pub search_from : ℕ → Tbl → SienaSpec → Bool → ℕ → ℕ → ℕ → Outcome (ℕ × ℕ)
search_from zero t spec for_insert incr index depth = timeout
search_from (suc f) t spec for_insert incr index depth = accepts t spec for_insert index >>= λ hit.
    let next =
      search_from f t spec for_insert incr (bit_and (u32 (index + incr)) (t.size - 1))
        (depth + 1) in
    if hit
    then ok (index, depth)
    else if depth == srch_max
    then err (if for_insert then ebusy else enoent)
    else next

pub search : Tbl → SienaSpec → ℕ → Bool → Outcome (ℕ × ℕ)
unfolding search_from
search t spec key for_insert =
    search_from srch_max t spec for_insert (tbl_increment key) (bit_and (tbl_hash key) (t.size - 1))
      1
