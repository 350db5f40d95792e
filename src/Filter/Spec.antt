-- ===== src/Filter/Spec.antt =====
-- What the filters of efx_filter_spec_init_rx and efx_filter_spec_set_ipv4_local and _full become on
-- Siena (common/efx_filter.c).
use gld.Base.{
  List, Bool-cases, inl, inr, ap, ℕ, ◌+◌, ◌*◌, ◌%◌, ◌^◌, ◌<◌, ◌≡◌, refl, Bool, true, false, ◌==◌,
  if◌then◌else◌, u32, ◌<<<◌, bit_or, ne→==, arith, ok, err, einval,
}
use gld.Base.Bits.Fields.{zero-bit_or, bit_or-none}
use gld.Filter.{
  SienaSpec, spec_init_rx, vid_unspec, set_ipv4_local, set_ipv4_full, set_eth_local, from_gen_spec,
  ip_spec, ip_type, rx_rss, rx_scatter, flag_rx, tcp, udp, rx_tcp_wild, rx_udp_wild,
}

-- The flags of a receive filter.
abbrev pub rx_flags : Bool → Bool → ℕ
rx_flags rss scatter = (if rss then rx_rss else 0) + (if scatter then rx_scatter else 0)

-- With the RSS flag, a receive filter that is set up as efx_filter_spec_init_rx leaves it, and then
-- matched on an IPv4 endpoint, two endpoints or an Ethernet address, is refused with EINVAL.
pub rss-from_gen_spec :
    (priority index proto lhost lport rhost rport vid : ℕ) (addr : List ℕ) (scatter : Bool)
    → let s = spec_init_rx priority (rx_flags true scatter) index in
      (from_gen_spec (set_ipv4_local s proto lhost lport) ≡ err einval)
      × (from_gen_spec (set_ipv4_full s proto lhost lport rhost rport) ≡ err einval)
      × (from_gen_spec (set_eth_local s vid addr) ≡ err einval)
unfolding from_gen_spec spec_init_rx set_ipv4_local set_ipv4_full set_eth_local
rss-from_gen_spec priority index proto lhost lport rhost rport vid addr true =
    (refl, refl, elim (Bool-cases (vid == vid_unspec)) [ inl q ↦ rw q refl | inr q ↦ rw q refl ])
rss-from_gen_spec priority index proto lhost lport rhost rport vid addr false =
    (refl, refl, elim (Bool-cases (vid == vid_unspec)) [ inl q ↦ rw q refl | inr q ↦ rw q refl ])

bit_or-shift_zero : (port : ℕ) → port < 2 ^ 16 → bit_or (u32 (port <<< 16)) 0 ≡ port * 65536
bit_or-shift_zero port b = let e = bit_or-none (u32 (port <<< 16)) in omega (arith, e)

-- Without the RSS flag, a TCP filter on a local endpoint has the port in the upper half of the
-- second dword, and a UDP one in the lower half of the first; the host is the third.
pub local-from_gen_spec :
    (priority index host port : ℕ) (scatter : Bool)
    → 0 < port
    → port < 2 ^ 16
    → let s = spec_init_rx priority (rx_flags false scatter) index in
      let base : SienaSpec = record {
        type = rx_tcp_wild;
        flags = flag_rx + rx_flags false scatter;
        dmaq_id = index % 2 ^ 12;
        dword0 = 0;
        dword1 = port * 2 ^ 16;
        dword2 = host;
      } in
      (from_gen_spec (set_ipv4_local s tcp host port) ≡ ok base)
      × (from_gen_spec (set_ipv4_local s udp host port)
          ≡ ok (record base { type = rx_udp_wild; dword0 = port; dword1 = 0 }))
unfolding from_gen_spec spec_init_rx set_ipv4_local ip_spec ip_type
local-from_gen_spec priority index host port true a b =
    let z : (port == 0) ≡ false = ne→== port 0 (λ e. omega arith) in
    let shifted : bit_or (u32 (port <<< 16)) 0 ≡ port * 65536 = bit_or-shift_zero port b in
    (
      rw z (
          ap
            (λ d. ok (record {
              type = rx_tcp_wild;
              flags = flag_rx + rx_flags false true;
              dmaq_id = index % 2 ^ 12;
              dword0 = 0;
              dword1 = d;
              dword2 = host;
            }))
            shifted),
      rw z (
          ap
            (λ d. ok (record {
              type = rx_udp_wild;
              flags = flag_rx + rx_flags false true;
              dmaq_id = index % 2 ^ 12;
              dword0 = d;
              dword1 = 0;
              dword2 = host;
            }))
            (zero-bit_or port)),
    )
local-from_gen_spec priority index host port false a b =
    let z : (port == 0) ≡ false = ne→== port 0 (λ e. omega arith) in
    let shifted : bit_or (u32 (port <<< 16)) 0 ≡ port * 65536 = bit_or-shift_zero port b in
    (
      rw z (
          ap
            (λ d. ok (record {
              type = rx_tcp_wild;
              flags = flag_rx + rx_flags false false;
              dmaq_id = index % 2 ^ 12;
              dword0 = 0;
              dword1 = d;
              dword2 = host;
            }))
            shifted),
      rw z (
          ap
            (λ d. ok (record {
              type = rx_udp_wild;
              flags = flag_rx + rx_flags false false;
              dmaq_id = index % 2 ^ 12;
              dword0 = d;
              dword1 = 0;
              dword2 = host;
            }))
            (zero-bit_or port)),
    )
