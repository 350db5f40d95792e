-- ===== src/Mcdi/Response.antt =====
-- Reading a response (common/efx_mcdi.c): its header, its error, its payload, and the exceptions that
-- it can raise.
use gld.Base.{
  ℕ, ◌+◌, ◌-◌, ◌%◌, ◌^◌, min, Bool, true, false, not, ◌&&◌, ◌||◌, List, ◌∷◌, ◌++◌, drop, Option,
  none, some, ltb, ◌==◌, if◌then◌else◌, u32, Errno, eio, eintr,
}
use gld.Mcdi.{Req, Ops, mc_reboot, mc_badassert, Mcdi, field, dword, v2_extn, request_errcode}

-- `&EFX_MASK32(MCDI_HEADER_SEQ)`: the sequence number has 4 bits.
abbrev pub current_seq : {S : Type 0} → Mcdi S → ℕ
current_seq m = u32 (m.seq + 2 ^ 32 - 1) % 2 ^ 4

abbrev pub put_req : (ℕ → Req) → ℕ → Req → ℕ → Req
put_req f p r q = if p == q then r else f q

abbrev pub is_none {ℓ} : {A : Type ℓ} → Option A → Bool
is_none none = true
is_none (some a) = false

-- rc == EIO, rc == EINTR
abbrev pub is_eio : Errno → Bool
is_eio eio = true
is_eio _ = false

abbrev pub is_eintr : Errno → Bool
is_eintr eintr = true
is_eintr _ = false

-- What the response's header says.
pub record Head : Type 0 where
  pub cmd : ℕ
  pub seq : ℕ
  pub error : Bool
  pub data_len : ℕ
  pub hdr_len : ℕ

abbrev pub failed_req : Req → Errno → Req
failed_req r e = record r { rc = some e; out_length_used = 0 }

module _ {S : Type 0} (ops : Ops S) where
  abbrev pub read_dword : S → ℕ → ℕ
  read_dword hw offset = dword (ops.read_response hw offset 4) 0

  unfoldable pub response_head : S → Head
  response_head hw =
      let d0 = read_dword hw 0 in
      let d1 = read_dword hw 4 in
      if field d0 0 7 == v2_extn
      then record {
        cmd = field d1 0 15;
        seq = field d0 16 4;
        error = field d0 22 1 == 1;
        data_len = field d1 16 10;
        hdr_len = 8;
      }
      else record {
        cmd = field d0 0 7;
        seq = field d0 16 4;
        error = field d0 22 1 == 1;
        data_len = field d0 8 8;
        hdr_len = 4;
      }

  -- The error of a response: EPROTO where the payload is too short for the code.
  unfoldable pub response_error : S → Head → Req → Req
  response_error hw h r =
      let err = ops.read_response hw h.hdr_len (min h.data_len 8) in
      let code = if ltb h.data_len 4 then 71 else dword err 0 in
      let arg = if ltb h.data_len 8 then 0 else dword err 4 in
      failed_req (record r { err_code = code; err_arg = arg }) (request_errcode code)

  -- The transport's and the request's state behind the header.
  unfoldable pub read_head : Mcdi S → Req → Head → S × Req
  unfolding response_error
  read_head m r h =
      if h.error && h.data_len == 0
      then ((ops.poll_reboot m.hw).0, failed_req r eio)
      else if not (h.cmd == r.cmd) || not (h.seq == current_seq m)
      then (m.hw, failed_req r eio)
      else if h.error
      then (m.hw, response_error m.hw h r)
      else (m.hw, record r { rc = none; out_length_used = h.data_len })

  -- efx_mcdi_read_response_header
  unfoldable pub read_response_header : Mcdi S → ℕ → Mcdi S
  unfolding response_head read_head
  read_response_header m p =
      let read = read_head m (m.req p) (response_head m.hw) in
      record m { hw = read.0; req = put_req m.req p read.1 }

  -- The payload is copied to the head of the caller's buffer.
  unfoldable pub copy_payload : S → ℕ → Req → List ℕ → Req
  copy_payload hw hdr_len r out =
      let bytes = min r.out_length_used r.out_length in
      record r { out_buf = some (ops.read_response hw hdr_len bytes ++ drop bytes out) }

  abbrev pub finished : S → Req → Option (List ℕ) → Req
  finished hw r none = r
  finished hw r (some out) =
      if field (read_dword hw 0) 0 7 == v2_extn
      then copy_payload hw 8 (record r { out_length_used = field (read_dword hw 4) 16 10 }) out
      else copy_payload hw 4 r out

  -- efx_mcdi_finish_response: nothing happens without a buffer.
  unfoldable pub finish_response : Mcdi S → ℕ → Mcdi S
  unfolding copy_payload
  finish_response m p = record m {
    req = put_req m.req p (finished m.hw (m.req p) (m.req p).out_buf);
  }

  -- A reboot that MC_CMD_REBOOT asked for.
  abbrev pub asked : Mcdi S → Option ℕ → Errno → Bool
  asked m none e = false
  asked m (some q) e = (m.req q).cmd == 0x3d && is_eio e

  -- efx_mcdi_raise_exception
  unfoldable pub raise_exception : Mcdi S → Option ℕ → Errno → Mcdi S
  raise_exception m p e = record m {
    calls =
        if asked m p e then m.calls else (if is_eio e then mc_reboot else mc_badassert) ∷ m.calls;
  }
