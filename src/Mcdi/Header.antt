-- ===== src/Mcdi/Header.antt =====
-- The header of a request, read as the driver reads a response's (common/efx_mcdi.c).
use gld.Base.{
  ℕ, ◌+◌, ◌*◌, ◌^◌, ◌≤◌, ◌<◌, ◌≡◌, ◌≢◌, refl, ap, ap₂, ◌∙◌, Bool, true, false, not, ◌||◌, List, [],
  ◌∷◌, get_or, ltb, ◌==◌, if◌then◌else◌, u32, ◌<<<◌, bit_or, Bool-cases, inl, inr, arith, ◌⊎◌,
  lt→ltb, le→ltb, ne→==,
}
use gld.Base.Bits.Fields.{bit_or-shift}
use gld.Mcdi.{Req, header, request_header, field, v2_extn, bit_of}

-- The fields do not overlap.
header-sum :
    (code datalen seq not_epoch xflags : ℕ)
    → code < 2 ^ 7
    → datalen < 2 ^ 8
    → seq < 2 ^ 4
    → not_epoch < 2
    → xflags < 2 ^ 8
    → header code datalen seq not_epoch xflags
      ≡ code + 2 ^ 7 + datalen * 2 ^ 8 + (seq + not_epoch * 2 ^ 5 + xflags * 2 ^ 8) * 2 ^ 16
unfolding header
header-sum code datalen seq not_epoch xflags c d s n x =
    let a1 : bit_or code (1 <<< 7) ≡ code + 2 ^ 7 = bit_or-shift 7 code 1 c in
    let d' : u32 (datalen <<< 8) ≡ datalen * 2 ^ 8 = omega arith in
    let a2 = bit_or-shift 8 (code + 2 ^ 7) datalen (omega arith) in
    let s' : u32 (seq <<< 16) ≡ seq * 2 ^ 16 = omega arith in
    let n' : not_epoch <<< 21 ≡ not_epoch * 2 ^ 21 = omega arith in
    let a3 = bit_or-shift 21 (seq * 2 ^ 16) not_epoch (omega arith) in
    let x' : u32 (xflags <<< 24) ≡ xflags * 2 ^ 24 = omega arith in
    let a4 = bit_or-shift 24 (seq * 2 ^ 16 + not_epoch * 2 ^ 21) xflags (omega arith) in
    let hi : seq * 2 ^ 16 + not_epoch * 2 ^ 21 + xflags * 2 ^ 24
        ≡ (seq + not_epoch * 2 ^ 5 + xflags * 2 ^ 8) * 2 ^ 16 =
      omega arith in
    let a5 =
      bit_or-shift 16 (code + 2 ^ 7 + datalen * 2 ^ 8) (seq + not_epoch * 2 ^ 5 + xflags * 2 ^ 8)
        (omega arith) in
    ap₂ bit_or (ap₂ bit_or a1 d' ∙ a2) (ap₂ bit_or (ap₂ bit_or s' n' ∙ a3) x' ∙ a4 ∙ hi) ∙ a5

-- The command, the sequence number and the length, where efx_mcdi_read_response_header finds them.
abbrev pub reads : List ℕ → ℕ × ℕ × ℕ
reads ds =
    let d0 = get_or ds 0 0 in
    let d1 = get_or ds 1 0 in
    if field d0 0 7 == v2_extn
    then (field d1 0 15, field d0 16 4, field d1 16 10)
    else (field d0 0 7, field d0 16 4, field d0 8 8)

bit_of_lt : (b : Bool) → bit_of b < 2
bit_of_lt true = omega arith
bit_of_lt false = omega arith

header-fields :
    (code datalen seq not_epoch xflags : ℕ)
    → code < 2 ^ 7
    → datalen < 2 ^ 8
    → seq < 2 ^ 4
    → not_epoch < 2
    → xflags < 2
    → (field (header code datalen seq not_epoch xflags) 0 7 ≡ code)
      × (field (header code datalen seq not_epoch xflags) 16 4 ≡ seq)
      × (field (header code datalen seq not_epoch xflags) 8 8 ≡ datalen)
header-fields code datalen seq not_epoch xflags c d s n x =
    let q = header-sum code datalen seq not_epoch xflags c d s n (omega arith) in
    (omega (arith, q), omega (arith, q), omega (arith, q))

extended :
    (r : Req) (seq : ℕ) (new_epoch want_ev : Bool)
    → seq < 2 ^ 4
    → r.cmd < 2 ^ 15
    → r.in_length < 2 ^ 10
    → reads (
        header v2_extn 0 seq (bit_of (not new_epoch)) (bit_of want_ev)
        ∷ bit_or r.cmd (u32 (r.in_length <<< 16))
        ∷ [])
      ≡ (r.cmd, seq, r.in_length)
extended r seq new_epoch want_ev s c l =
    let h =
      header-fields v2_extn 0 seq (bit_of (not new_epoch)) (bit_of want_ev) (omega arith)
        (omega arith) s (bit_of_lt (not new_epoch)) (bit_of_lt want_ev) in
    let w : u32 (r.in_length <<< 16) ≡ r.in_length * 2 ^ 16 = omega arith in
    let d1 : bit_or r.cmd (u32 (r.in_length <<< 16)) ≡ r.cmd + r.in_length * 2 ^ 16 =
      ap (bit_or r.cmd) w ∙ bit_or-shift 16 r.cmd r.in_length (omega arith) in
    let c1 : field (r.cmd + r.in_length * 2 ^ 16) 0 15 ≡ r.cmd = omega arith in
    let l1 : field (r.cmd + r.in_length * 2 ^ 16) 16 10 ≡ r.in_length = omega arith in
    rw (h.0, h.1, d1, c1, l1) refl

plain :
    (r : Req) (seq : ℕ) (new_epoch want_ev : Bool)
    → seq < 2 ^ 4
    → r.cmd < v2_extn
    → r.in_length < 2 ^ 8
    → reads (header r.cmd r.in_length seq (bit_of (not new_epoch)) (bit_of want_ev) ∷ [])
      ≡ (r.cmd, seq, r.in_length)
plain r seq new_epoch want_ev s c l =
    let h =
      header-fields r.cmd r.in_length seq (bit_of (not new_epoch)) (bit_of want_ev) (omega arith) l
        s (bit_of_lt (not new_epoch)) (bit_of_lt want_ev) in
    let ne = ne→== r.cmd v2_extn (λ e. omega arith) in rw (h.0, h.1, h.2, ne) refl

-- The header that efx_mcdi_request_start sends reads back as the request's command, sequence number
-- and length, of whichever version it is: for a sequence number of 4 bits, where the interface has
-- version 2, a command of 15 bits other than 0x7f and a length of 10 bits, and where it has version
-- 1, a command below 0x7f and a length of 8 bits.
pub request_header-reads :
    (max_version : ℕ) (r : Req) (seq : ℕ) (new_epoch want_ev : Bool)
    → seq < 2 ^ 4
    → ((2 ≤ max_version) × (r.cmd < 2 ^ 15) × (r.cmd ≢ v2_extn) × (r.in_length < 2 ^ 10))
      ⊎ ((max_version < 2) × (r.cmd < v2_extn) × (r.in_length < 2 ^ 8))
    → reads (request_header max_version r seq new_epoch want_ev) ≡ (r.cmd, seq, r.in_length)
unfolding request_header
request_header-reads max_version r seq new_epoch want_ev s (inl (v, c, n, l)) =
    let old : ltb max_version 2 ≡ false = le→ltb max_version 2 v in
    elim (Bool-cases (ltb v2_extn r.cmd || ltb 0xfc r.in_length)) [
      | inl q ↦ rw (old, q) (extended r seq new_epoch want_ev s c l)
      | inr q ↦
          rw (old, q) (plain r seq new_epoch want_ev s (ground (arith, q)) (ground (arith, q)))
    ]
request_header-reads max_version r seq new_epoch want_ev s (inr (v, c, l)) =
    rw (lt→ltb max_version 2 v) (plain r seq new_epoch want_ev s c l)
