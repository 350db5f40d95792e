-- ===== src/Filter/Siena/Init.antt =====
-- siena_filter_init: the state that the filter functions start from.
use gld.Base.{
  ℕ, zero, suc, ◌+◌, ◌/◌, ◌%◌, ◌^◌, ◌≤◌, ◌≡◌, refl, sym, ap, ◌∙◌, Bool, true, false, not, ◌&&◌,
  replicate, length-replicate, get_or-replicate, arith, Outcome, ok, enomem, enotsup, ◌>>◌, fail_if,
  Settles, Errno,
}
use gld.Base.Bits.{test_bit}
use gld.Filter.{TblId, rx_ip, rx_mac, tx_ip, tx_mac}
use gld.Filter.Table.{Tbl}
use gld.Filter.Table.Bitmap.{bit, count-zero}
use gld.Filter.Table.Probe.{zero_siena, IsTbl}
use gld.Filter.Siena.{SienaFilter, Row}
use gld.Filter.Siena.Add.{Wf}
use gld.Filter.Siena.Clear.{Counted}
use gld.Filter.Siena.Limits.{Synced}

-- The rows of the tables: FR_AZ_RX_FILTER_TBL0_ROWS and the like.
abbrev pub table_size : TblId → ℕ
table_size rx_ip = 8192
table_size rx_mac = 512
table_size tx_ip = 8192
table_size tx_mac = 512

-- A table of zeroed memory: the bitmap has `(size + 31) / 8` bytes, its words are read.
pub fresh_tbl : ℕ → Tbl
fresh_tbl size = record {
  size = size;
  used = 0;
  bitmap = replicate ((size + 31) / 8 / 4) 0;
  spec = replicate size zero_siena;
}

-- `bitmap` and `spec` tell which allocations succeed, `limit` and `row` what the registers hold.
pub init :
    Bool
    → Bool
    → (TblId → Bool)
    → (TblId → Bool)
    → (ℕ → ℕ)
    → (TblId → ℕ → Row)
    → Outcome SienaFilter
unfolding fresh_tbl
init is_siena state bitmap spec limit row = do
  fail_if (not state) enomem
  fail_if (not is_siena) enotsup
  fail_if (not (bitmap rx_ip && spec rx_ip)) enomem
  fail_if (not (bitmap rx_mac && spec rx_mac)) enomem
  fail_if (not (bitmap tx_ip && spec tx_ip)) enomem
  fail_if (not (bitmap tx_mac && spec tx_mac)) enomem
  ok (record { tbl = λ id. fresh_tbl (table_size id); depth = λ _. 0; limit = limit; row = row })

abbrev pub table_power : TblId → ℕ
table_power rx_ip = 13
table_power rx_mac = 9
table_power tx_ip = 13
table_power tx_mac = 9

test_bit-none : (j : ℕ) → test_bit 0 j ≡ false
test_bit-none zero = refl
test_bit-none (suc j) = test_bit-none j

fresh_tbl-IsTbl : (size k : ℕ) → size ≡ 2 ^ k → size ≤ 2 ^ 16 → IsTbl (fresh_tbl size) k
unfolding fresh_tbl
fresh_tbl-IsTbl size k p s = record {
  power = p;
  small = s;
  covers = let l = length-replicate {A = ℕ} ((size + 31) / 8 / 4) 0 in omega (arith, l);
  rows = length-replicate size zero_siena;
}

fresh_tbl-Counted : (size : ℕ) → Counted (fresh_tbl size)
unfolding fresh_tbl
fresh_tbl-Counted size = sym (
    count-zero size (bit (fresh_tbl size)) (λ j h.
      ap (λ w. test_bit w (j % 32)) (get_or-replicate {A = ℕ} ((size + 31) / 8 / 4) (j / 32) 0)
      ∙ test_bit-none (j % 32)))

passed :
    (P : SienaFilter → Type 0) (b : Bool) (e : Errno) (r : Outcome SienaFilter)
    → Settles P r
    → Settles P (fail_if b e >> r)
passed P true e r h = tt
passed P false e r h = h

power_is : (id : TblId) → table_size id ≡ 2 ^ table_power id
power_is rx_ip = refl
power_is rx_mac = refl
power_is tx_ip = refl
power_is tx_mac = refl

size_is_small : (id : TblId) → table_size id ≤ 2 ^ 16
size_is_small rx_ip = omega arith
size_is_small rx_mac = omega arith
size_is_small tx_ip = omega arith
size_is_small tx_mac = omega arith

-- Where siena_filter_init succeeds, whatever the registers hold: every table has a power of two of
-- rows and a bitmap and an array that cover them, its count of used rows is right, every search depth
-- is at most 200, and the hardware's limit of a type whose depth is not 0 covers it. It ends with
-- such a state or an error number, and on Siena with a state when all allocations succeed.
pub init-Wf :
    (is_siena state : Bool) (bitmap spec : TblId → Bool) (limit : ℕ → ℕ) (row : TblId → ℕ → Row)
    → Settles
        (λ st. Wf st table_power × ((id : TblId) → Counted (st.tbl id)) × Synced st)
        (init is_siena state bitmap spec limit row)
      × ((st : SienaFilter) × (init true true (λ _. true) (λ _. true) limit row ≡ ok st))
unfolding init
init-Wf is_siena state bitmap spec limit row =
    let P =
      λ (st : SienaFilter). Wf st table_power × ((id : TblId) → Counted (st.tbl id)) × Synced st in
    (
      passed P (not state) enomem _ (
          passed P (not is_siena) enotsup _ (
            passed P (not (bitmap rx_ip && spec rx_ip)) enomem _ (
              passed P (not (bitmap rx_mac && spec rx_mac)) enomem _ (
                passed P (not (bitmap tx_ip && spec tx_ip)) enomem _ (
                  passed P (not (bitmap tx_mac && spec tx_mac)) enomem _ (
                    λ id.
                        fresh_tbl-IsTbl (table_size id) (table_power id) (power_is id)
                          (size_is_small id),
                    λ id. fresh_tbl-Counted (table_size id),
                    λ n. (omega arith, λ h. absurd (h refl)),
                  )))))),
      (_, refl),
    )
