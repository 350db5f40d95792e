-- ===== src/Mcdi.antt =====
-- Requests to the management controller (common/efx_mcdi.c, common/efx_mcdi.h): the request, the
-- interface's state, the transport, the header and the error numbers.
pub mod Header
pub mod Request
pub mod Response
mod Tests
use gld.Base.{
  ℕ, ◌+◌, ◌*◌, ◌/◌, ◌%◌, ◌^◌, Bool, true, false, not, ◌&&◌, ◌||◌, List, [], ◌∷◌, get_or, Option,
  none, some, ltb, ◌==◌, if◌then◌else◌, u32, ◌<<<◌, ◌>>>◌, bit_or, Errno, eacces, eagain, ealready,
  ebusy, edeadlk, eexist, einval, eintr, eio, enodev, enoent, enomem, enospc, enotsup, etimedout,
}

-- `efx_mcdi_req_t`: `rc` is none for 0, and `out_buf` none for NULL.
pub record Req : Type 0 where
  pub quiet : Bool
  pub cmd : ℕ
  pub in_buf : List ℕ
  pub in_length : ℕ
  pub rc : Option Errno
  pub out_buf : Option (List ℕ)
  pub out_length : ℕ
  pub out_length_used : ℕ
  pub err_code : ℕ
  pub err_arg : ℕ

-- The operations of the transport that the requests use (`efx_mcdi_ops_t`), on its state `S`:
-- a message goes out as the header's dwords and the payload's bytes; the reboot status is none
-- for 0; a read returns the bytes at an offset.
pub record Ops (S : Type 0) : Type 0 where
  pub send_request : S → List ℕ → List ℕ → S
  pub poll_reboot : S → S × Option Errno
  pub poll_response : S → Bool
  pub read_response : S → ℕ → ℕ → List ℕ

-- The callbacks that the upper layer gets: emt_exception and emt_ev_cpl.
pub data Call : Type 0 where
  mc_reboot mc_badassert ev_cpl : Call

-- `efx_mcdi_iface_t`, the requests by their addresses, the transport and the callbacks made, the
-- latest first. `pending_req` is none for NULL.
pub record Mcdi (S : Type 0) : Type 0 where
  pub max_version : ℕ
  pub seq : ℕ
  pub pending_req : Option ℕ
  pub ev_cpl : Bool
  pub new_epoch : Bool
  pub aborted : ℕ
  pub poll_cnt : ℕ
  pub req : ℕ → Req
  pub hw : S
  pub calls : List Call

-- EFX_DWORD_FIELD
abbrev pub field : ℕ → ℕ → ℕ → ℕ
field d lbn width = (d >>> lbn) % 2 ^ width

abbrev pub dword : List ℕ → ℕ → ℕ
dword b i =
    get_or b i 0
    + 2 ^ 8 * get_or b (i + 1) 0
    + 2 ^ 16 * get_or b (i + 2) 0
    + 2 ^ 24 * get_or b (i + 3) 0

abbrev pub v2_extn : ℕ
v2_extn = 0x7f

abbrev pub bit_of : Bool → ℕ
bit_of true = 1
bit_of false = 0

-- EFX_POPULATE_DWORD_8 with the fields of MCDI_HEADER; a value is shifted to its place uncut.
pub header : ℕ → ℕ → ℕ → ℕ → ℕ → ℕ
header code datalen seq not_epoch xflags =
    bit_or (bit_or (bit_or code (1 <<< 7)) (u32 (datalen <<< 8)))
      (bit_or (bit_or (u32 (seq <<< 16)) (not_epoch <<< 21)) (u32 (xflags <<< 24)))

-- The header's dwords, for version 2 or 1.
pub request_header : ℕ → Req → ℕ → Bool → Bool → List ℕ
unfolding header
request_header max_version r seq new_epoch want_ev =
    let xflags = bit_of want_ev in
    let not_epoch = bit_of (not new_epoch) in
    if not (ltb max_version 2) && (ltb v2_extn r.cmd || ltb 0xfc r.in_length)
    then header v2_extn 0 seq not_epoch xflags ∷ bit_or r.cmd (u32 (r.in_length <<< 16)) ∷ []
    else header r.cmd r.in_length seq not_epoch xflags ∷ []

-- efx_mcdi_request_errcode
pub errcode_v2 : ℕ → Errno
errcode_v2 e =
    if e == 11
    then eagain
    else if e == 28
    then enospc
    else if e == 0x1000
    then enomem
    else if e == 0x1001 || e == 0x1002
    then enoent
    else if e == 0x1003 || e == 0x1005
    then enodev
    else if e == 0x1004 || e == 0x1006 || e == 0x1007 || e == 0x1008
    then einval
    else if e == 0x1009
    then eexist
    else if e == 0x1010
    then eagain
    else eio

pub request_errcode : ℕ → Errno
unfolding errcode_v2
request_errcode e =
    if e == 1 || e == 13
    then eacces
    else if e == 2
    then enoent
    else if e == 4
    then eintr
    else if e == 16
    then ebusy
    else if e == 22
    then einval
    else if e == 35
    then edeadlk
    else if e == 38 || e == 95
    then enotsup
    else if e == 62
    then etimedout
    else if e == 114
    then ealready
    else errcode_v2 e
