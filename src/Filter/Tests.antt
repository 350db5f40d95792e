-- ===== src/Filter/Tests.antt =====
-- Small filter tables, and the theorems at them.
use gld.Base.{
  ℕ, ◌+◌, ◌*◌, ◌≡◌, refl, true, false, [], ◌∷◌, replicate, if◌then◌else◌, arith, ok, err, Settles,
  einval,
}
use gld.Filter.{
  FilterSpec, SienaSpec, TblId, rx_ip, rx_tcp_wild, from_gen_spec, tcp, flag_rx, spec_init_rx,
  set_ipv4_local, zero_spec, match_local, ipv4,
}
use gld.Filter.Table.{Tbl, search}
use gld.Filter.Table.Bitmap.{bit, count}
use gld.Filter.Table.Probe.{IsTbl, Searched, search-Searched, zero_siena}
use gld.Filter.Siena.{SienaFilter, zero_row, raise_depth, add}
use gld.Filter.Siena.Limits.{Synced, raise_depth-Synced}
use gld.Filter.Spec.{rx_flags, rss-from_gen_spec, local-from_gen_spec}
use gld.Filter.{udp, rx_udp_wild, set_ipv4_full, set_eth_local}
use gld.Filter.Siena.Add.{Wf, Answers, add-Answers, add_at_lem, after}
use gld.Filter.Siena.{delete}
use gld.Filter.Siena.Delete.{Deletes, delete-Deletes}
use gld.Filter.Siena.Clear.{Counted}
use gld.Filter.Siena.Limits.{Synced}
use gld.Filter.Siena.Init.{init, table_power, init-Wf}
use gld.Filter.Siena.Clear.{add_at-count}

abbrev quad : Tbl
quad = record { size = 4; used = 0; bitmap = 0 ∷ []; spec = replicate 4 zero_siena }

abbrev start : SienaFilter
start = record { tbl = λ _. quad; depth = λ _. 0; limit = λ _. 0; row = λ _ _. zero_row }

abbrev two : TblId → ℕ
two _ = 2

abbrev quad-IsTbl : IsTbl quad 2
quad-IsTbl = record { power = refl; small = omega arith; covers = omega arith; rows = refl }

abbrev web : SienaSpec
web = record {
  type = rx_tcp_wild;
  flags = flag_rx;
  dmaq_id = 0;
  dword0 = 0;
  dword1 = 80 * 65536;
  dword2 = 0x0a000001;
}

abbrev web_gen : FilterSpec
web_gen = record zero_spec {
  match_flags = match_local;
  flags = flag_rx;
  ether_type = ipv4;
  ip_proto = tcp;
  loc_host = 0x0a000001;
  loc_port = 80;
}

web_translates : from_gen_spec web_gen ≡ ok web
unfolding from_gen_spec
web_translates = refl

search_example : Searched quad web 7 true (search quad web 7 true)
search_example = search-Searched quad 2 quad-IsTbl web 7 true

add_example : Answers start two (λ _. quad-IsTbl) web false (add start web_gen false)
add_example = add-Answers start two (λ _. quad-IsTbl) web_gen web false web_translates (omega arith)

add_at-count_example :
    let st' = after start two (λ _. quad-IsTbl) web 3 1 in
    (bit (st'.tbl rx_ip) 3 ≡ true)
    × ((st'.tbl rx_ip).used
        ≡ count (st'.tbl rx_ip).size (bit (st'.tbl rx_ip)) + (if bit quad 3 then 1 else 0))
add_at-count_example =
    add_at-count start two (λ _. quad-IsTbl) web false 3 1 (omega arith) refl
      (add_at_lem start two (λ _. quad-IsTbl) web false 3 1 (omega arith))

raise_depth_example : Synced (raise_depth start rx_tcp_wild 3)
raise_depth_example =
    raise_depth-Synced start rx_tcp_wild 3 (λ n. (omega arith, λ h. absurd (h refl))) (omega arith)
      (omega arith)

rss-from_gen_spec_example :
    let s = spec_init_rx 2 (rx_flags true true) 5 in
    (from_gen_spec (set_ipv4_local s tcp 0x0a000001 80) ≡ err einval)
    × (from_gen_spec (set_ipv4_full s tcp 0x0a000001 80 0x0a000002 1024) ≡ err einval)
    × (from_gen_spec (set_eth_local s 0xffff (1 ∷ 2 ∷ 3 ∷ 4 ∷ 5 ∷ 6 ∷ [])) ≡ err einval)
rss-from_gen_spec_example =
    rss-from_gen_spec 2 5 tcp 0x0a000001 80 0x0a000002 1024 0xffff (1 ∷ 2 ∷ 3 ∷ 4 ∷ 5 ∷ 6 ∷ []) true

local-from_gen_spec_example :
    (from_gen_spec (set_ipv4_local (spec_init_rx 2 (rx_flags false true) 5) tcp 0x0a000001 80)
      ≡ ok (record {
        type = rx_tcp_wild;
        flags = 10;
        dmaq_id = 5;
        dword0 = 0;
        dword1 = 80 * 65536;
        dword2 = 0x0a000001;
      }))
    × (from_gen_spec (set_ipv4_local (spec_init_rx 2 (rx_flags false true) 5) udp 0x0a000001 80)
        ≡ ok (record {
          type = rx_udp_wild;
          flags = 10;
          dmaq_id = 5;
          dword0 = 80;
          dword1 = 0;
          dword2 = 0x0a000001;
        }))
local-from_gen_spec_example = local-from_gen_spec 2 5 0x0a000001 80 true (omega arith) (omega arith)

-- A table full of one filter.
abbrev full : Tbl
full = record { size = 4; used = 4; bitmap = 15 ∷ []; spec = replicate 4 web }

abbrev full-IsTbl : IsTbl full 2
full-IsTbl = record { power = refl; small = omega arith; covers = omega arith; rows = refl }

abbrev filled : SienaFilter
filled = record start { tbl = λ _. full }

delete_example : Deletes filled two (λ _. full-IsTbl) web (delete filled web_gen)
delete_example = delete-Deletes filled two (λ _. full-IsTbl) web_gen web web_translates refl

init-Wf_example :
    Settles
      (λ st. Wf st table_power × ((id : TblId) → Counted (st.tbl id)) × Synced st)
      (init true true (λ _. true) (λ _. true) (λ _. 7) (λ _ _. zero_row))
    × ((st : SienaFilter) × (init true true (λ _. true) (λ _. true) (λ _. 7) (λ _ _. zero_row)
          ≡ ok st))
init-Wf_example = init-Wf true true (λ _. true) (λ _. true) (λ _. 7) (λ _ _. zero_row)
