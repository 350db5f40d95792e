-- ===== src/Filter/Siena/Limits.antt =====
-- The search limits in the hardware cover the depths that the driver keeps.
use gld.Base.{ℕ, ◌+◌, ◌≤◌, ◌≡◌, ◌≢◌, arith}
use gld.Filter.{FilterType, tbl_id, rx_tcp_full}
use gld.Filter.Table.{type_index}
use gld.Filter.Siena.{SienaFilter, raise_depth, fudge}

-- Of every type: a depth is at most 200, and unless it is 0 the hardware searches that deep.
abbrev pub Synced : SienaFilter → Type 0
Synced st = (n : ℕ) → (st.depth n ≤ 200) × (st.depth n ≢ 0 → st.depth n + fudge n ≤ st.limit n)

-- On a table that has rows, raising a type's search depth to at most 200 keeps: every depth is at
-- most 200, and the hardware's search limit of a type whose depth is not 0 is at least its depth and
-- its fudge factor.
pub raise_depth-Synced :
    (st : SienaFilter) (type : FilterType) (d : ℕ)
    → Synced st
    → d ≤ 200
    → (st.tbl (tbl_id type)).size ≢ 0
    → Synced (raise_depth st type d)
unfolding raise_depth
raise_depth-Synced st rx_tcp_full d h k z n = ground (arith, h n)
raise_depth-Synced st _ d h k z n = ground (arith, h n)

-- The depth of the type reaches `d`, no depth falls, and the tables and rows stay.
pub raise_depth_lem :
    (st : SienaFilter) (type : FilterType) (d : ℕ)
    → (d ≤ (raise_depth st type d).depth (type_index type))
      × ((n : ℕ) → st.depth n ≤ (raise_depth st type d).depth n)
      × ((raise_depth st type d).tbl ≡ st.tbl)
      × ((raise_depth st type d).row ≡ st.row)
unfolding raise_depth
raise_depth_lem st rx_tcp_full d = (ground arith, λ n. ground arith, ground arith, ground arith)
raise_depth_lem st _ d = (ground arith, λ n. ground arith, ground arith, ground arith)
