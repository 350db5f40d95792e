-- ===== src/Filter.antt =====
-- Filter specifications (common/efx_filter.c, efx_filter_spec_* and siena_filter_spec_from_gen_spec).
pub mod Siena
pub mod Table
pub mod Spec
mod Tests
use gld.Base.{
  ℕ, ◌+◌, ◌*◌, ◌%◌, ◌^◌, Bool, true, false, not, ◌&&◌, ◌||◌, List, [], ◌∷◌, get_or, ◌==◌,
  if◌then◌else◌, u32, ◌<<<◌, ◌>>>◌, bit_and, bit_or, Outcome, ok, err, ◌>>=◌, ◌>>◌, fail_if, einval,
  enotsup,
}

-- `efx_filter_spec_t`. A host is the first dword of its `efx_oword_t`.
pub record FilterSpec : Type 0 where
  pub match_flags : ℕ
  pub priority : ℕ
  pub flags : ℕ
  pub dmaq_id : ℕ
  pub rss_context : ℕ
  pub outer_vid : ℕ
  pub loc_mac : List ℕ
  pub ether_type : ℕ
  pub ip_proto : ℕ
  pub loc_port : ℕ
  pub rem_port : ℕ
  pub loc_host : ℕ
  pub rem_host : ℕ

-- EFX_FILTER_FLAG_*
abbrev pub rx_rss : ℕ
rx_rss = 0x01

abbrev pub rx_scatter : ℕ
rx_scatter = 0x02

abbrev pub flag_rx : ℕ
flag_rx = 0x08

abbrev pub flag_tx : ℕ
flag_tx = 0x10

-- EFX_FILTER_MATCH_*
abbrev pub rem_host_bit : ℕ
rem_host_bit = 0x0001

abbrev pub loc_host_bit : ℕ
loc_host_bit = 0x0002

abbrev pub rem_port_bit : ℕ
rem_port_bit = 0x0008

abbrev pub loc_mac_bit : ℕ
loc_mac_bit = 0x0010

abbrev pub loc_port_bit : ℕ
loc_port_bit = 0x0020

abbrev pub ether_type_bit : ℕ
ether_type_bit = 0x0040

abbrev pub outer_vid_bit : ℕ
outer_vid_bit = 0x0100

abbrev pub ip_proto_bit : ℕ
ip_proto_bit = 0x0200

abbrev pub loc_mac_ig_bit : ℕ
loc_mac_ig_bit = 0x0400

-- The two IPv4 matches.
abbrev pub match_local : ℕ
match_local = ether_type_bit + ip_proto_bit + loc_host_bit + loc_port_bit

abbrev pub match_full : ℕ
match_full = match_local + rem_host_bit + rem_port_bit

abbrev pub ipv4 : ℕ
ipv4 = 0x0800

-- EFX_IPPROTO_TCP and EFX_IPPROTO_UDP
abbrev pub tcp : ℕ
tcp = 6

abbrev pub udp : ℕ
udp = 17

-- EFX_FILTER_SPEC_RSS_CONTEXT_DEFAULT and EFX_FILTER_SPEC_VID_UNSPEC
abbrev pub rss_context_default : ℕ
rss_context_default = 0xffffffff

abbrev pub vid_unspec : ℕ
vid_unspec = 0xffff

-- memset(spec, 0, sizeof (*spec))
abbrev pub zero_spec : FilterSpec
zero_spec = record {
  match_flags = 0;
  priority = 0;
  flags = 0;
  dmaq_id = 0;
  rss_context = 0;
  outer_vid = 0;
  loc_mac = 0 ∷ 0 ∷ 0 ∷ 0 ∷ 0 ∷ 0 ∷ [];
  ether_type = 0;
  ip_proto = 0;
  loc_port = 0;
  rem_port = 0;
  loc_host = 0;
  rem_host = 0;
}

-- efx_filter_spec_init_rx: `index` is the receive queue's er_index, stored in 12 bits.
pub spec_init_rx : ℕ → ℕ → ℕ → FilterSpec
spec_init_rx priority flags index = record zero_spec {
  priority = priority;
  flags = bit_or flag_rx flags;
  rss_context = rss_context_default;
  dmaq_id = index % 2 ^ 12;
}

pub spec_init_tx : ℕ → ℕ → FilterSpec
spec_init_tx required index = record zero_spec {
  priority = required;
  flags = flag_tx;
  dmaq_id = index % 2 ^ 12;
}

pub set_ipv4_local : FilterSpec → ℕ → ℕ → ℕ → FilterSpec
set_ipv4_local s proto host port = record s {
  match_flags = bit_or s.match_flags match_local;
  ether_type = ipv4;
  ip_proto = proto;
  loc_host = host;
  loc_port = port;
}

pub set_ipv4_full : FilterSpec → ℕ → ℕ → ℕ → ℕ → ℕ → FilterSpec
set_ipv4_full s proto lhost lport rhost rport = record s {
  match_flags = bit_or s.match_flags match_full;
  ether_type = ipv4;
  ip_proto = proto;
  loc_host = lhost;
  loc_port = lport;
  rem_host = rhost;
  rem_port = rport;
}

-- efx_filter_spec_set_eth_local with an address.
pub set_eth_local : FilterSpec → ℕ → List ℕ → FilterSpec
set_eth_local s vid addr =
    let s' : FilterSpec =
      if vid == vid_unspec
      then s
      else record s { match_flags = bit_or s.match_flags outer_vid_bit; outer_vid = vid } in
    record s' { match_flags = bit_or s'.match_flags loc_mac_bit; loc_mac = addr }

-- `siena_filter_type_t` and `siena_filter_tbl_id_t`
pub data FilterType : Type 0 where
  rx_tcp_full rx_tcp_wild rx_udp_full rx_udp_wild rx_mac_full rx_mac_wild : FilterType
  tx_tcp_full tx_tcp_wild tx_udp_full tx_udp_wild tx_mac_full tx_mac_wild : FilterType

pub data TblId : Type 0 where
  rx_ip rx_mac tx_ip tx_mac : TblId

-- siena_filter_tbl_id
abbrev pub tbl_id : FilterType → TblId
tbl_id rx_tcp_full = rx_ip
tbl_id rx_tcp_wild = rx_ip
tbl_id rx_udp_full = rx_ip
tbl_id rx_udp_wild = rx_ip
tbl_id rx_mac_full = rx_mac
tbl_id rx_mac_wild = rx_mac
tbl_id tx_tcp_full = tx_ip
tbl_id tx_tcp_wild = tx_ip
tbl_id tx_udp_full = tx_ip
tbl_id tx_udp_wild = tx_ip
tbl_id tx_mac_full = tx_mac
tbl_id tx_mac_wild = tx_mac

-- `siena_filter_spec_t`
pub record SienaSpec : Type 0 where
  pub type : FilterType
  pub flags : ℕ
  pub dmaq_id : ℕ
  pub dword0 : ℕ
  pub dword1 : ℕ
  pub dword2 : ℕ

-- flags & mask
abbrev pub has : ℕ → ℕ → Bool
has flags mask = not (bit_and flags mask == 0)

-- The type of an IPv4 filter, by its direction and whether it names the remote end.
pub ip_type : ℕ → Bool → Bool → Outcome FilterType
ip_type proto tx full =
    if proto == tcp
    then ok (
        if tx
        then (if full then tx_tcp_full else tx_tcp_wild)
        else (if full then rx_tcp_full else rx_tcp_wild))
    else if proto == udp
    then ok (
        if tx
        then (if full then tx_udp_full else tx_udp_wild)
        else (if full then rx_udp_full else rx_udp_wild))
    else err enotsup

abbrev is_udp_wild : FilterType → Bool
is_udp_wild rx_udp_wild = true
is_udp_wild tx_udp_wild = true
is_udp_wild _ = false

-- The case of the two IPv4 matches. Source and destination come from local and remote by the
-- direction, and a UDP wildcard filter swaps the ports.
pub ip_spec : FilterSpec → Bool → Outcome SienaSpec
unfolding ip_type
ip_spec g full = do
  fail_if (not (g.ether_type == ipv4)) enotsup
  fail_if (g.loc_port == 0 || full && g.rem_port == 0) einval
  let tx = has g.flags flag_tx
  type ← ip_type g.ip_proto tx full
  let rhost : ℕ = if full then g.rem_host else 0
  let rport : ℕ = if full then g.rem_port else 0
  let host1 : ℕ = if tx then g.loc_host else rhost
  let host2 : ℕ = if tx then rhost else g.loc_host
  let swapped = is_udp_wild type
  let port1 : ℕ =
      if tx
      then (if swapped then rport else g.loc_port)
      else (if swapped then g.loc_port else rport)
  let port2 : ℕ =
      if tx
      then (if swapped then g.loc_port else rport)
      else (if swapped then rport else g.loc_port)
  ok (record {
    type = type;
    flags = g.flags;
    dmaq_id = g.dmaq_id;
    dword0 = bit_or (u32 (host1 <<< 16)) port1;
    dword1 = bit_or (u32 (port2 <<< 16)) (host1 >>> 16);
    dword2 = host2;
  })

-- The case of the two Ethernet matches.
pub mac_spec : FilterSpec → Bool → Outcome SienaSpec
mac_spec g full =
    let tx = has g.flags flag_tx in
    let byte = λ (i : ℕ). get_or g.loc_mac i 0 in
    ok (record {
      type =
          if tx
          then (if full then tx_mac_full else tx_mac_wild)
          else (if full then rx_mac_full else rx_mac_wild);
      flags = g.flags;
      dmaq_id = g.dmaq_id;
      dword0 = if full then g.outer_vid else 0;
      dword1 = bit_or (bit_or (bit_or (byte 2 <<< 24) (byte 3 <<< 16)) (byte 4 <<< 8)) (byte 5);
      dword2 = bit_or (byte 0 <<< 8) (byte 1);
    })

-- siena_filter_spec_from_gen_spec
pub from_gen_spec : FilterSpec → Outcome SienaSpec
unfolding ip_spec mac_spec
from_gen_spec g =
    fail_if (has g.flags rx_rss && not (g.rss_context == 0)) einval
    >> (if g.match_flags == match_full
        then ip_spec g true
        else if g.match_flags == match_local
        then ip_spec g false
        else if g.match_flags == loc_mac_bit + outer_vid_bit
        then mac_spec g true
        else if g.match_flags == loc_mac_bit
        then mac_spec g false
        else err enotsup)
