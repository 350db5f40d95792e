-- ===== src/Mcdi/Request/Buffer.antt =====
-- The caller's buffer and code, as a completion leaves them (common/efx_mcdi.c).
use gld.Base.{
  ==_iff, ℕ, ◌+◌, ◌≤◌, ◌≡◌, refl, sym, ap, ◌∙◌, Bool, not, ◌&&◌, ◌||◌, Option, none, some, List,
  length, length-append, length-drop, min, drop, ◌++◌, ◌==◌, Bool-cases, inl, inr, arith, Errno, ok,
  u32,
}
use gld.Mcdi.{Req, Ops, Mcdi, v2_extn, field}
use gld.Mcdi.Request.{
  poll_complete, poll_response, request_poll, raise_if_fatal, end_poll, poll_status, poll_pending,
}
use gld.Mcdi.Response.{
  Head, response_head, response_error, read_head, read_response_header, copy_payload,
  finish_response, raise_exception, is_eio, is_eintr, read_dword, finished, put_req, current_seq,
}

-- The size of the buffer that a request names.
abbrev pub room : Option (List ℕ) → ℕ
room none = 0
room (some out) = length out

-- Of every request: emr_out_length and the buffer's size stay.
abbrev pub SameRoom : (ℕ → Req) → (ℕ → Req) → Type 0
SameRoom f g =
    (q : ℕ) → ((g q).out_length ≡ (f q).out_length) × (room (g q).out_buf ≡ room (f q).out_buf)

-- Of every request: emr_out_length is within the buffer, if there is one.
abbrev pub Fits : ℕ → Option (List ℕ) → Type 0
Fits n none = Unit {0}
Fits n (some out) = n ≤ length out

abbrev pub Roomy : (ℕ → Req) → Type 0
Roomy f = (q : ℕ) → Fits (f q).out_length (f q).out_buf

-- Of every request: emr_out_length and the buffer stay.
abbrev SameBuf : (ℕ → Req) → (ℕ → Req) → Type 0
SameBuf f g = (q : ℕ) → ((g q).out_length ≡ (f q).out_length) × ((g q).out_buf ≡ (f q).out_buf)

SameBuf-Roomy : (f g : ℕ → Req) → SameBuf f g → Roomy f → Roomy g
SameBuf-Roomy f g h r q = rw (h q).0 (rw (h q).1 (r q))

put_req-SameBuf :
    (f : ℕ → Req) (p : ℕ) (r : Req)
    → r.out_length ≡ (f p).out_length
    → r.out_buf ≡ (f p).out_buf
    → SameBuf f (put_req f p r)
put_req-SameBuf f p r a b q = elim (Bool-cases (p == q)) [
  | inl e ↦
      let same : p ≡ q = (==_iff p q).0 e in
      rw e (a ∙ ap (λ n. (f n).out_length) same, b ∙ ap (λ n. (f n).out_buf) same)
  | inr e ↦ rw e (refl, refl)
]

put_req-SameRoom :
    (f g : ℕ → Req) (p : ℕ) (r : Req)
    → SameRoom f g
    → r.out_length ≡ (g p).out_length
    → room r.out_buf ≡ room (g p).out_buf
    → SameRoom f (put_req g p r)
put_req-SameRoom f g p r s a b q = elim (Bool-cases (p == q)) [
  | inl e ↦
      let same : p ≡ q = (==_iff p q).0 e in
      rw e (
        a ∙ ap (λ n. (g n).out_length) same ∙ (s q).0,
        b ∙ ap (λ n. room (g n).out_buf) same ∙ (s q).1,
      )
  | inr e ↦ rw e (s q)
]

module _ {S : Type 0} (ops : Ops S)
    (exact : (hw : S) (offset n : ℕ) → length (ops.read_response hw offset n) ≡ n) where
  copied :
      (hw : S) (offset n : ℕ) (out : List ℕ)
      → n ≤ length out
      → length (ops.read_response hw offset n ++ drop n out) ≡ length out
  copied hw offset n out h =
      let a = length-append (ops.read_response hw offset n) (drop n out) in
      let b = length-drop n out in let c = exact hw offset n in omega (arith, a, b, c)

  finished-room :
      (hw : S) (r : Req) (o : Option (List ℕ))
      → r.out_buf ≡ o
      → Fits r.out_length o
      → ((finished ops hw r o).out_length ≡ r.out_length)
        × (room (finished ops hw r o).out_buf ≡ room r.out_buf)
  unfolding copy_payload
  finished-room hw r none e h = (refl, refl)
  finished-room hw r (some out) e h =
      elim (Bool-cases (field (read_dword ops hw 0) 0 7 == v2_extn)) [
        | inl v ↦ rw v (
          refl,
          copied hw 8 (min (field (read_dword ops hw 4) 16 10) r.out_length) out (omega (arith, h))
              ∙ sym (ap room e),
        )
        | inr v ↦ rw v (
          refl,
          copied hw 4 (min r.out_length_used r.out_length) out (omega (arith, h)) ∙ sym (ap room e),
        )
      ]

  read_head-room :
      (m : Mcdi S) (r : Req) (h : Head)
      → ((read_head ops m r h).1.out_length ≡ r.out_length)
        × ((read_head ops m r h).1.out_buf ≡ r.out_buf)
  unfolding read_head response_error
  read_head-room m r h = elim (Bool-cases (h.error && h.data_len == 0)) [
    | inl a ↦ rw a (refl, refl)
    | inr a ↦ elim (Bool-cases (not (h.cmd == r.cmd) || not (h.seq == current_seq m))) [
      | inl b ↦ rw (a, b) (refl, refl)
      | inr b ↦ elim (Bool-cases h.error) [
        | inl c ↦ rw (a, b, c) (refl, refl)
        | inr c ↦ rw (a, b, c) (refl, refl)
      ]
    ]
  ]

  read_response_header-SameBuf :
      (m : Mcdi S) (p : ℕ) → SameBuf m.req (read_response_header ops m p).req
  unfolding read_response_header
  read_response_header-SameBuf m p =
      let r = read_head-room m (m.req p) (response_head ops m.hw) in
      put_req-SameBuf m.req p (read_head ops m (m.req p) (response_head ops m.hw)).1 r.0 r.1

  finish_response-SameRoom :
      (f : ℕ → Req) (m : Mcdi S) (p : ℕ)
      → SameBuf f m.req
      → Roomy f
      → SameRoom f (finish_response ops m p).req
  unfolding finish_response
  finish_response-SameRoom f m p s r =
      let g = finished-room m.hw (m.req p) (m.req p).out_buf refl (SameBuf-Roomy f m.req s r p) in
      put_req-SameRoom f m.req p (finished ops m.hw (m.req p) (m.req p).out_buf)
        (λ q. ((s q).0, ap room (s q).1)) g.0 g.1

  raise_if_fatal-req : (m : Mcdi S) (p : ℕ) (e : Errno) → (raise_if_fatal ops m p e).req ≡ m.req
  unfolding raise_exception
  raise_if_fatal-req m p e = elim (Bool-cases (is_eio e || is_eintr e)) [
    | inl b ↦ rw b refl
    | inr b ↦ rw b refl
  ]

  end_poll-SameRoom :
      (f : ℕ → Req) (m : Mcdi S) (p : ℕ) (rc : Option Errno)
      → SameBuf f m.req
      → Roomy f
      → SameRoom f (end_poll ops m p rc).req
  unfolding end_poll
  end_poll-SameRoom f m p none s r = finish_response-SameRoom f m p s r
  end_poll-SameRoom f m p (some e) s r =
      rw (raise_if_fatal-req m p e) (λ q. ((s q).0, ap room (s q).1))

  poll_response-SameRoom :
      (m : Mcdi S) (p : ℕ) → Roomy m.req → SameRoom m.req (poll_response ops m p).1.req
  unfolding poll_response poll_complete
  poll_response-SameRoom m p r =
      let m' : Mcdi S = record (read_response_header ops m p) { pending_req = none } in
      elim (Bool-cases (ops.poll_response m.hw)) [
        | inl b ↦
            rw b (end_poll-SameRoom m.req m' p (m'.req p).rc (read_response_header-SameBuf m p) r)
        | inr b ↦ rw b (λ q. (refl, refl))
      ]

  poll_status-SameRoom :
      (m : Mcdi S) (p : ℕ) (s : Option Errno)
      → Roomy m.req
      → SameRoom m.req (poll_status ops m p s).1.req
  unfolding poll_status
  poll_status-SameRoom m p none r = poll_response-SameRoom m p r
  poll_status-SameRoom m p (some e) r =
      rw (raise_if_fatal-req (record m { pending_req = none }) p e) (λ q. (refl, refl))

  -- The transport's reads returning as many bytes as asked, and every request's emr_out_length
  -- within its buffer: a poll of the pending request returns, and no request's emr_out_length or
  -- buffer's size has changed, so that the payload's copy stays inside the buffer.
  pub request_poll-SameRoom :
      (m : Mcdi S) (p : ℕ)
      → m.pending_req ≡ some p
      → Roomy m.req
      → (r : Bool × Mcdi S) × (request_poll ops m ≡ ok r) × SameRoom m.req r.1.req
  unfolding request_poll poll_pending
  request_poll-SameRoom m p h r = (
    poll_pending ops m p,
    rw h refl,
    elim (Bool-cases (m.poll_cnt == 0)) [
      | inl z ↦ rw z (
          poll_status-SameRoom
            (record m { poll_cnt = u32 (m.poll_cnt + 1); hw = (ops.poll_reboot m.hw).0 }) p
            (ops.poll_reboot m.hw).1 r)
      | inr z ↦ rw z (poll_response-SameRoom (record m { poll_cnt = u32 (m.poll_cnt + 1) }) p r)
    ],
  )
