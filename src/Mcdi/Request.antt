-- ===== src/Mcdi/Request.antt =====
-- The life of a request (common/efx_mcdi.c): start, the completions by poll, event and death, and
-- abort. A lock is taken round the steps on the interface's state.
pub mod Buffer
pub mod Complete
pub mod Credit
pub mod World
use gld.Base.{
  ℕ, ◌+◌, ◌-◌, ◌%◌, ◌^◌, min, Bool, true, false, not, ◌&&◌, ◌||◌, List, [], ◌∷◌, ◌++◌, take, drop,
  Option, none, some, ltb, ◌==◌, if◌then◌else◌, u32, Errno, eio, eintr, etimedout, Outcome, ok,
  fault,
}
use gld.Mcdi.{
  Req, Ops, Call, mc_reboot, mc_badassert, Mcdi, field, dword, v2_extn, request_header,
  request_errcode,
}
use gld.Mcdi.Response.{
  current_seq, put_req, is_none, is_eio, is_eintr, Head, read_dword, response_head, failed_req,
  response_error, read_head, read_response_header, copy_payload, finished, finish_response, asked,
  raise_exception,
}

module _ {S : Type 0} (ops : Ops S) where
  -- efx_mcdi_request_start: `p` is the request's address.
  unfoldable pub request_start : Mcdi S → ℕ → Bool → Mcdi S
  request_start m p want_ev = record m {
    pending_req = some p;
    ev_cpl = want_ev;
    poll_cnt = 0;
    seq = u32 (m.seq + 1);
    hw =
        ops.send_request m.hw
          (request_header m.max_version (m.req p) (m.seq % 2 ^ 4) m.new_epoch want_ev)
          (take (m.req p).in_length (m.req p).in_buf);
  }

  abbrev pub raise_if_fatal : Mcdi S → ℕ → Errno → Mcdi S
  raise_if_fatal m p e = if is_eio e || is_eintr e then raise_exception ops m (some p) e else m

  -- The end of efx_mcdi_request_poll, by the response's code.
  pub end_poll : Mcdi S → ℕ → Option Errno → Mcdi S
  unfolding finish_response raise_exception
  end_poll m p none = finish_response ops m p
  end_poll m p (some e) = raise_if_fatal m p e

  pub poll_complete : Mcdi S → ℕ → Mcdi S
  unfolding read_response_header end_poll
  poll_complete m p =
      let m' : Mcdi S = record (read_response_header ops m p) { pending_req = none } in
      end_poll m' p (m'.req p).rc

  pub poll_response : Mcdi S → ℕ → Bool × Mcdi S
  unfolding poll_complete
  poll_response m p = if ops.poll_response m.hw then (true, poll_complete m p) else (false, m)

  -- By the reboot status, where it is read.
  pub poll_status : Mcdi S → ℕ → Option Errno → Bool × Mcdi S
  unfolding poll_response raise_exception
  poll_status m p none = poll_response m p
  poll_status m p (some e) = (true, raise_if_fatal (record m { pending_req = none }) p e)

  pub poll_pending : Mcdi S → ℕ → Bool × Mcdi S
  unfolding poll_status
  poll_pending m p =
      let counted : Mcdi S = record m { poll_cnt = u32 (m.poll_cnt + 1) } in
      if m.poll_cnt == 0
      then poll_status (record counted { hw = (ops.poll_reboot m.hw).0 }) p (ops.poll_reboot m.hw).1
      else poll_response counted p

  -- efx_mcdi_request_poll: the reboot status is read on the first poll. The code asserts
  -- that a request is pending.
  pub request_poll : Mcdi S → Outcome (Bool × Mcdi S)
  unfolding poll_pending
  request_poll m = elim m.pending_req [ none ↦ fault | some p ↦ ok (poll_pending m p) ]

  abbrev pub abort_pending : Mcdi S → Option ℕ → Bool × Mcdi S
  abort_pending m none = (false, m)
  abort_pending m (some p) = (
    true,
    record m {
      pending_req = none;
      req = put_req m.req p (failed_req (m.req p) etimedout);
      aborted = if m.ev_cpl then m.aborted + 1 else m.aborted;
    },
  )

  -- efx_mcdi_request_abort
  unfoldable pub request_abort : Mcdi S → Bool × Mcdi S
  request_abort m = abort_pending m m.pending_req

  -- A completion event that does not belong to the pending request.
  abbrev pub spurious : Mcdi S → ℕ → Bool
  spurious m seq = is_none m.pending_req || not m.ev_cpl || not (seq == current_seq m)

  -- How efx_mcdi_ev_cpl completes request `p`. `errcode` is none for 0.
  pub ev_complete : Mcdi S → ℕ → ℕ → ℕ → Mcdi S
  unfolding read_response_header finish_response
  ev_complete m p outlen errcode =
      let r = m.req p in
      let by_event : Mcdi S = record m {
        req = put_req m.req p (
            if errcode == 0
            then record r { rc = none; out_length_used = outlen }
            else failed_req r (request_errcode errcode));
      } in
      let m' : Mcdi S = if ltb m.max_version 2 then by_event else read_response_header ops m p in
      let m'' : Mcdi S = if errcode == 0 then finish_response ops m' p else m' in
      record m'' { calls = Call.ev_cpl ∷ m''.calls }

  abbrev pub deliver : Mcdi S → Option ℕ → ℕ → ℕ → Mcdi S
  deliver m none outlen errcode = m
  deliver m (some p) outlen errcode = ev_complete (record m { pending_req = none }) p outlen errcode

  -- efx_mcdi_ev_cpl: a spurious event takes a credit.
  pub ev_cpl : Mcdi S → ℕ → ℕ → ℕ → Mcdi S
  unfolding ev_complete
  ev_cpl m seq outlen errcode =
      if spurious m seq
      then record m { aborted = m.aborted - 1 }
      else deliver m m.pending_req outlen errcode

  -- efx_mcdi_ev_death: what it does under the lock.
  abbrev pub fail_pending : Mcdi S → Option ℕ → Errno → Mcdi S
  fail_pending m none e = m
  fail_pending m (some p) e =
      if m.ev_cpl
      then record m {
        pending_req = none;
        req = put_req m.req p (failed_req (m.req p) e);
        aborted = m.aborted + 1;
      }
      else m

  abbrev pub new_status : Mcdi S → Errno → Mcdi S
  new_status m e =
      if is_eio e || is_eintr e
      then record m { hw = (ops.poll_reboot m.hw).0; new_epoch = true }
      else m

  pub ev_death : Mcdi S → Errno → Mcdi S
  unfolding raise_exception
  ev_death m e =
      let raised =
        raise_exception ops (new_status (fail_pending m m.pending_req e) e) m.pending_req e in
      if not (is_none m.pending_req) && m.ev_cpl
      then record raised { calls = Call.ev_cpl ∷ raised.calls }
      else raised

  -- efx_mcdi_new_epoch
  pub start_epoch : Mcdi S → Mcdi S
  start_epoch m = record m { new_epoch = true }
