-- ===== src/Mcdi/Request/Complete.antt =====
-- What the completion of a request leaves alone (common/efx_mcdi.c).
use gld.Base.{
  ℕ, ◌+◌, ◌≡◌, refl, ltb, Bool, true, false, ◌||◌, Option, none, some, ◌==◌, Bool-cases, inl, inr,
  Errno, ok, u32,
}
use gld.Mcdi.{Ops, Mcdi}
use gld.Mcdi.Request.{
  poll_complete, poll_response, request_poll, ev_complete, raise_if_fatal, end_poll, poll_status,
  poll_pending,
}
use gld.Mcdi.Response.{read_response_header, finish_response, raise_exception, is_eio, is_eintr}

-- The interface's part that a completion keeps.
pub record Kept {S : Type 0} (m m' : Mcdi S) : Type 0 where
  pub flag : m'.ev_cpl ≡ m.ev_cpl
  pub number : m'.seq ≡ m.seq
  pub credits : m'.aborted ≡ m.aborted

abbrev kept_refl : {S : Type 0} (m : Mcdi S) → Kept m m
kept_refl m = record { flag = refl; number = refl; credits = refl }

module _ {S : Type 0} (ops : Ops S) where
  -- A completion leaves no request pending.
  abbrev pub Completed : Mcdi S → Mcdi S → Type 0
  Completed m m' = Kept m m' × (m'.pending_req ≡ none)

  raise_if_fatal-Completed :
      (m : Mcdi S) (p : ℕ) (e : Errno)
      → m.pending_req ≡ none
      → Completed m (raise_if_fatal ops m p e)
  unfolding raise_exception
  raise_if_fatal-Completed m p e n = elim (Bool-cases (is_eio e || is_eintr e)) [
    | inl b ↦ rw b (record { flag = refl; number = refl; credits = refl }, n)
    | inr b ↦ rw b (kept_refl m, n)
  ]

  end_poll-Completed :
      (m : Mcdi S) (p : ℕ) (rc : Option Errno)
      → m.pending_req ≡ none
      → Completed m (end_poll ops m p rc)
  unfolding end_poll finish_response
  end_poll-Completed m p none n = (record { flag = refl; number = refl; credits = refl }, n)
  end_poll-Completed m p (some e) n = raise_if_fatal-Completed m p e n

  poll_complete-Completed : (m : Mcdi S) (p : ℕ) → Completed m (poll_complete ops m p)
  unfolding poll_complete read_response_header
  poll_complete-Completed m p =
      let m' : Mcdi S = record (read_response_header ops m p) { pending_req = none } in
      let f = end_poll-Completed m' p (m'.req p).rc refl in
      (record { flag = f.0.flag; number = f.0.number; credits = f.0.credits }, f.1)

  pub ev_complete-Completed :
      (m : Mcdi S) (p outlen errcode : ℕ)
      → m.pending_req ≡ none
      → Completed m (ev_complete ops m p outlen errcode)
  unfolding ev_complete read_response_header finish_response
  ev_complete-Completed m p outlen errcode n = elim (Bool-cases (ltb m.max_version 2)) [
    | inl v ↦ elim (Bool-cases (errcode == 0)) [
      | inl z ↦ rw (v, z) (record { flag = refl; number = refl; credits = refl }, n)
      | inr z ↦ rw (v, z) (record { flag = refl; number = refl; credits = refl }, n)
    ]
    | inr v ↦ elim (Bool-cases (errcode == 0)) [
      | inl z ↦ rw (v, z) (record { flag = refl; number = refl; credits = refl }, n)
      | inr z ↦ rw (v, z) (record { flag = refl; number = refl; credits = refl }, n)
    ]
  ]

  -- A poll either completes the request or leaves it as it is, pending.
  abbrev pub Polled : Mcdi S → ℕ → Bool × Mcdi S → Type 0
  Polled m p (true, m') = Completed m m'
  Polled m p (false, m') =
      Kept m m' × (m'.pending_req ≡ some p) × (m'.req ≡ m.req) × (m'.calls ≡ m.calls)

  poll_response-Polled :
      (m : Mcdi S) (p : ℕ) → m.pending_req ≡ some p → Polled m p (poll_response ops m p)
  unfolding poll_response
  poll_response-Polled m p h = elim (Bool-cases (ops.poll_response m.hw)) [
    | inl b ↦ rw b (poll_complete-Completed m p)
    | inr b ↦ rw b (kept_refl m, h, refl, refl)
  ]

  poll_status-Polled :
      (m : Mcdi S) (p : ℕ) (s : Option Errno)
      → m.pending_req ≡ some p
      → Polled m p (poll_status ops m p s)
  unfolding poll_status
  poll_status-Polled m p none h = poll_response-Polled m p h
  poll_status-Polled m p (some e) h =
      let f = raise_if_fatal-Completed (record m { pending_req = none }) p e refl in
      (record { flag = f.0.flag; number = f.0.number; credits = f.0.credits }, f.1)

  -- The count of polls and the transport's state do not matter.
  Polled-recount :
      (m : Mcdi S) (p n : ℕ) (hw : S) (r : Bool × Mcdi S)
      → Polled (record m { poll_cnt = n; hw = hw }) p r
      → Polled m p r
  Polled-recount m p n hw (true, m') (k, h) =
      (record { flag = k.flag; number = k.number; credits = k.credits }, h)
  Polled-recount m p n hw (false, m') (k, h, q, c) =
      (record { flag = k.flag; number = k.number; credits = k.credits }, h, q, c)

  poll_pending-Polled :
      (m : Mcdi S) (p : ℕ) → m.pending_req ≡ some p → Polled m p (poll_pending ops m p)
  unfolding poll_pending
  poll_pending-Polled m p h =
      let hw = (ops.poll_reboot m.hw).0 in
      elim (Bool-cases (m.poll_cnt == 0)) [
        | inl z ↦ rw z (
            Polled-recount m p (u32 (m.poll_cnt + 1)) hw _ (
              poll_status-Polled (record m { poll_cnt = u32 (m.poll_cnt + 1); hw = hw }) p
                (ops.poll_reboot m.hw).1 h))
        | inr z ↦ rw z (
            Polled-recount m p (u32 (m.poll_cnt + 1)) m.hw _
              (poll_response-Polled (record m { poll_cnt = u32 (m.poll_cnt + 1) }) p h))
      ]

  -- With a request pending, efx_mcdi_request_poll returns. Where it returns true no request is
  -- pending; where it returns false the same one is, no request has changed and nothing was called
  -- back. Either way the sequence number, the event flag and the credits are kept.
  pub request_poll-Polled :
      (m : Mcdi S) (p : ℕ)
      → m.pending_req ≡ some p
      → (r : Bool × Mcdi S) × (request_poll ops m ≡ ok r) × Polled m p r
  unfolding request_poll
  request_poll-Polled m p h = (poll_pending ops m p, rw h refl, poll_pending-Polled m p h)
