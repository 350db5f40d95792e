-- ===== src/Bootcfg/Blank.antt =====
-- A buffer of padding, as efx_bootcfg_write sees it (common/efx_bootcfg.c).
use gld.Base.{
  ℕ, zero, suc, ◌+◌, ◌<◌, ◌≡◌, refl, inl, inr, Bool, take, replicate, length-replicate, leb,
  Bool-cases, sum, arith, ok, fault, read_at,
}
use gld.Bootcfg.{Nvram, write_checked, write_sized, write, check_write, verify, verify_from}
use gld.Bootcfg.Sector.{csum_lem}

-- The padding of a sector.
read_at-replicate : (n i : ℕ) → i < n → read_at {A = ℕ} (replicate n 0) i ≡ ok 0
read_at-replicate zero i h = absurd (omega arith)
read_at-replicate (suc n) zero h = refl
read_at-replicate (suc n) (suc i) h = read_at-replicate n i (omega arith)

sum-replicate : (n m : ℕ) → sum (take n (replicate m 0)) ≡ 0
sum-replicate zero m = refl
sum-replicate (suc n) zero = refl
sum-replicate (suc n) (suc m) = let ih = sum-replicate n m in omega (arith, ih)

verify_from-blank :
    (f size offset : ℕ)
    → size < f + offset
    → 0 < f
    → verify_from f (replicate size 0) size offset 0 ≡ ok 0
unfolding verify_from
verify_from-blank zero size offset h p = absurd (omega arith)
verify_from-blank (suc f) size offset h p = elim (Bool-cases (leb size offset)) [
  | inl q ↦ rw q refl
  | inr q ↦
      let l : offset < size = ground (arith, q) in
      rw (q, read_at-replicate size offset l)
        (verify_from-blank f size (offset + 1) (omega arith) (omega (arith, l, h)))
]

verify-blank : (size : ℕ) → verify (replicate size 0) size ≡ ok 0
unfolding verify
verify-blank size =
    rw
      (
        verify_from-blank (size + 1) size 1 (omega arith) (omega arith),
        csum_lem (replicate size 0) size (omega (arith, length-replicate {A = ℕ} size 0)),
        sum-replicate size size,
      )
      refl

-- Given the partition's size, efx_bootcfg_write of a buffer of padding alone, of any length, reads
-- out of range: verify accepts it with no used bytes, and the byte in front of the buffer is read.
pub write-blank :
    {S : Type 0} (nvram : Nvram S) (alloc : ℕ → Bool) (s : S) (size total : ℕ)
    → nvram.size s ≡ ok total
    → (write nvram alloc s (replicate size 0) size).0 ≡ fault
unfolding write write_sized check_write write_checked
write-blank nvram alloc s size total e = rw (e, verify-blank size) refl
