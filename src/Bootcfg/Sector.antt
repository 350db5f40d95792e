-- ===== src/Bootcfg/Sector.antt =====
-- The walk over the tags and the checksum of a sector (common/efx_bootcfg.c).
use gld.Base.{
  ℕ, zero, suc, ◌+◌, ◌≤◌, ◌<◌, ◌≡◌, refl, ap, ◌∙◌, ◌⊎◌, inl, inr, false, List, [], ◌∷◌, take,
  length, leb, ◌==◌, ==_iff, Bool-cases, u8, sum, arith, Outcome, ok, ◌>>◌, fail_if, read_at,
  Settles, Settles->>=, read_at-Settles, enospc,
}
use gld.Bootcfg.{csum_from, csum, verify_from, verify, dhcp_end, dhcp_pad}

csum_from_lem :
    (n : ℕ) (buf : List ℕ) (checksum : ℕ)
    → n ≤ length buf
    → checksum < 256
    → csum_from n buf checksum ≡ ok (u8 (checksum + sum (take n buf)))
unfolding csum_from
csum_from_lem zero buf checksum h k = ap ok (omega arith)
csum_from_lem (suc n) [] checksum h k = absurd (omega arith)
csum_from_lem (suc n) (x ∷ buf) checksum h k =
    rw (csum_from_lem n buf (u8 (checksum + x)) (omega arith) (omega arith)) (ap ok (omega arith))

pub csum_lem :
    (buf : List ℕ) (size : ℕ) → size ≤ length buf → csum buf size ≡ ok (u8 (sum (take size buf)))
unfolding csum
csum_lem buf size h = csum_from_lem size buf 0 h (omega arith) ∙ ap ok (omega arith)

-- `*usedp` of a sector of `size` bytes.
abbrev pub Used : ℕ → ℕ → Type 0
Used size u = (u ≤ size) × ((u ≡ 0) ⊎ (2 ≤ u))

module _ (buf : List ℕ) (size : ℕ) (fits : size ≤ length buf) where
  inside : (offset : ℕ) → leb size offset ≡ false → offset < size
  inside offset h = ground (arith, h)

  after_length :
      (f offset n : ℕ) (rest : Outcome ℕ)
      → (offset + 2 + n ≤ size → Settles (Used size) rest)
      → Settles (Used size) (fail_if (leb size (offset + 1 + n)) enospc >> rest)
  after_length f offset n rest h = elim (Bool-cases (leb size (offset + 1 + n))) [
    | inl e ↦ rw e tt
    | inr e ↦ let q = inside (offset + 1 + n) e in rw e (h (omega (arith, q)))
  ]

  verify_from-Used :
      (f offset used : ℕ)
      → 1 ≤ offset
      → size < f + offset
      → 0 < f
      → Used size used
      → Settles (Used size) (verify_from f buf size offset used)
  unfolding verify_from
  verify_from-Used zero offset used o h p u = absurd (omega arith)
  verify_from-Used (suc f) offset used o h p u = elim (Bool-cases (leb size offset)) [
    | inl l ↦ rw l u
    | inr l ↦
        let a = inside offset l in
        rw l (
          Settles->>= (λ _. Unit {0}) (Used size) (read_at buf offset) _
            (read_at-Settles buf offset (omega (arith, a, fits)))
            (λ tag t. elim (Bool-cases (tag == dhcp_end)) [
              | inl e ↦ rw e (omega (arith, a), inr (omega (arith, o)))
              | inr e ↦ elim (Bool-cases (tag == dhcp_pad)) [
                | inl d ↦
                    rw (e, d)
                      (verify_from-Used f (offset + 1) used (omega arith) (omega arith)
                        (omega (arith, a, h)) u)
                | inr d ↦
                    rw (e, d)
                      (elim (Bool-cases (leb size (offset + 1))) [
                        | inl q ↦ rw q tt
                        | inr q ↦
                            let b = inside (offset + 1) q in
                            rw q (
                              Settles->>= (λ _. Unit {0}) (Used size) (read_at buf (offset + 1)) _
                                (read_at-Settles buf (offset + 1) (omega (arith, b, fits)))
                                (λ n t'.
                                  after_length f offset n
                                    (verify_from f buf size (offset + 2 + n) (offset + 2 + n))
                                    (λ i.
                                      verify_from-Used f (offset + 2 + n) (offset + 2 + n)
                                        (omega arith) (omega arith) (omega arith)
                                        (i, inr (omega arith)))))
                      ])
              ]
            ]))
  ]

  -- The walk and the sum of efx_bootcfg_verify stay inside the buffer and end; what it reports as
  -- used is 0 or from 2 to `size` bytes, and the sector sums to 0.
  pub verify-Used : Settles (λ u. Used size u × (u8 (sum (take size buf)) ≡ 0)) (verify buf size)
  unfolding verify
  verify-Used =
      Settles->>= (Used size) (λ u. Used size u × (u8 (sum (take size buf)) ≡ 0))
        (verify_from (size + 1) buf size 1 0) _
        (verify_from-Used (size + 1) 1 0 (omega arith) (omega arith) (omega arith)
          (omega arith, inl refl))
        (λ u h. rw (csum_lem buf size fits) (elim (Bool-cases (u8 (sum (take size buf)) == 0)) [
          | inl e ↦ rw e (h, (==_iff (u8 (sum (take size buf))) 0).0 e)
          | inr e ↦ rw e tt
        ]))
