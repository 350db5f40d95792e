-- ===== src/Bootcfg/Write.antt =====
-- What efx_bootcfg_write leaves in the partition, chunk by chunk (common/efx_bootcfg.c).
use gld.Base.{
  ℕ, zero, suc, ◌+◌, ◌-◌, ◌≤◌, ◌<◌, ◌≡◌, ◌≢◌, refl, sym, ap, ap₂, ◌∙◌, inl, inr, Bool, List, ◌++◌,
  take, drop, length, length-take, length-drop, min, ltb, leb, leb→le, ltb→le, ◌==◌, Bool-cases,
  ne→==, if◌then◌else◌, u8, sum, arith, Option, none, some, Errno, Outcome, ok, err, fault, timeout,
  Settles, Settles->>=, read_at, read_at-Settles,
}
use gld.Bootcfg.{
  Nvram, chunk_at, write_from, write_summed, write_erased, write_started, write_checked,
  write_sized, write, check_write, verify, is_none, give_up, dhcp_end, max_size,
}
use gld.Bootcfg.Sector.{csum_lem, Used, verify-Used}
use gld.Bootcfg.Image.{image, take_all, take-take_drop, chunk_at-part, length-image, image-sums}

module _ {S : Type 0} (nvram : Nvram S) (content : S → List ℕ)
    (writes : (s : S) (o : ℕ) (bytes : List ℕ)
      → (nvram.write_chunk s o bytes).0 ≡ none
      → take (o + length bytes) (content (nvram.write_chunk s o bytes).1)
        ≡ take o (content s) ++ bytes) where
  -- A write that has returned 0 has left the sector.
  abbrev Wrote : List ℕ → ℕ → Outcome (Unit {0}) × S → Type 0
  Wrote im sector (ok u, s) = take sector (content s) ≡ im
  Wrote im sector (err e, s) = Unit {0}
  Wrote im sector (fault, s) = ⊥
  Wrote im sector (timeout, s) = ⊥

  module _ (alloc : ℕ → Bool) (buf : List ℕ) (used checksum sector c : ℕ) (fits : used ≤ length buf)
      (small : used ≤ sector) (positive : 0 < c) where
    abbrev im : List ℕ
    im = image buf used checksum sector

    next :
        (f o : ℕ) (s : S) (l : o < sector) (w : Option Errno × S)
        → take o (content s) ≡ take o im
        → ((s' : S)
            → take (o + min c (sector - o)) (content s') ≡ take (o + min c (sector - o)) im
            → Wrote im sector
                (write_from nvram alloc f buf used checksum sector c (o + min c (sector - o)) s'))
        → nvram.write_chunk s o (chunk_at buf used checksum o (min c (sector - o))) ≡ w
        → Wrote im sector (
            if is_none w.0
            then write_from nvram alloc f buf used checksum sector c (o + min c (sector - o)) w.1
            else (give_up w.0, w.1))
    next f o s l (some x, s') e ih p = tt
    next f o s l (none, s') e ih p =
        let n = min c (sector - o) in
        let chunk = chunk_at buf used checksum o n in
        let is_part =
          chunk_at-part buf used checksum sector o n fits small (omega arith)
            (omega (arith, positive, l)) in
        let len : length chunk ≡ n =
          ap length is_part
          ∙ omega (
            arith,
            length-take n (drop o im),
            length-drop o im,
            length-image buf used checksum sector fits small,
          ) in
        let law = writes s o chunk (ap (λ r. r.0) p) in
        let law' : take (o + n) (content s') ≡ take (o + n) im =
          ap (λ r. take (o + n) (content r.1)) (sym p)
          ∙ ap (λ (k : ℕ). take (o + k) (content (nvram.write_chunk s o chunk).1)) (sym len)
          ∙ law
          ∙ ap₂ (λ a b. a ++ b) e is_part
          ∙ sym (take-take_drop im o n) in
        ih s' law'

    write_from-Wrote :
        (f o : ℕ) (s : S)
        → o ≤ sector
        → sector < f + o
        → take o (content s) ≡ take o im
        → Wrote im sector (write_from nvram alloc f buf used checksum sector c o s)
    unfolding write_from
    write_from-Wrote zero o s h k e = absurd (omega arith)
    write_from-Wrote (suc f) o s h k e = elim (Bool-cases (leb sector o)) [
      | inl q ↦
          let same : o ≡ sector = omega (arith, leb→le sector o q) in
          rw q (
            ap (λ (n : ℕ). take n (content s)) (sym same)
            ∙ e
            ∙ ap (λ (n : ℕ). take n im) same
            ∙ take_all sector im (length-image buf used checksum sector fits small))
      | inr q ↦
          let l : o < sector = ground (arith, q) in
          rw q (
            next f o s l (nvram.write_chunk s o (chunk_at buf used checksum o (min c (sector - o))))
              e
              (λ s' e'.
                write_from-Wrote f (o + min c (sector - o)) s' (omega arith)
                  (omega (arith, positive, l)) e')
              refl)
    ]

  module _ (alloc : ℕ → Bool) (kept : (s : S) → content (nvram.rw_finish s) ≡ content s)
      (chunks : (s : S) → 0 < nvram.chunk_length s) (buf : List ℕ) (size : ℕ)
      (fits : size ≤ length buf) where
    -- A write that has returned 0 has left the used bytes of the buffer, without their checksum.
    abbrev pub Left : ℕ → Outcome (Unit {0}) × S → Type 0
    Left sector (ok u, s) =
        (u8 (sum (take sector (content s))) ≡ 0)
        × ((n : ℕ) × (2 ≤ n)
            × (n ≤ size)
            × (n ≤ sector)
            × (take sector (content s) ≡ image buf n (u8 (sum (take n buf))) sector))
    Left sector (err e, s) = Unit {0}
    Left sector (fault, s) = ⊥
    Left sector (timeout, s) = ⊥

    finished :
        (sector : ℕ) (r : Outcome (Unit {0}) × S)
        → Left sector r
        → Left sector (r.0, nvram.rw_finish r.1)
    finished sector (ok u, s) (z, (n, a, b, c, e)) =
        let same = ap (take sector) (kept s) in
        (ap (λ l. u8 (sum l)) same ∙ z, (n, a, b, c, same ∙ e))
    finished sector (err x, s) h = tt
    finished sector (fault, s) h = h
    finished sector (timeout, s) h = h

    Wrote-Left :
        (n sector : ℕ) (r : Outcome (Unit {0}) × S)
        → 2 ≤ n
        → n ≤ size
        → n ≤ sector
        → Wrote (image buf n (u8 (sum (take n buf))) sector) sector r
        → Left sector r
    Wrote-Left n sector (ok u, s) a b c h =
        let sums = image-sums buf n sector (omega arith) (omega arith) c in
        (ap (λ l. u8 (sum l)) h ∙ sums, (n, a, b, c, h))
    Wrote-Left n sector (err x, s) a b c h = tt
    Wrote-Left n sector (fault, s) a b c h = h
    Wrote-Left n sector (timeout, s) a b c h = h

    write_erased-Left :
        (n sector c : ℕ) (r : Option Errno × S)
        → 2 ≤ n
        → n ≤ size
        → n ≤ sector
        → 0 < c
        → Left sector (write_erased nvram alloc buf n sector c r)
    unfolding write_erased write_summed
    write_erased-Left n sector c (some x, s) a b d p = tt
    write_erased-Left n sector c (none, s) a b d p =
        let checksum = u8 (sum (take n buf)) in
        rw (csum_lem buf n (omega arith)) (
          Wrote-Left n sector (write_from nvram alloc (sector + 1) buf n checksum sector c 0 s) a b
            d
            (write_from-Wrote alloc buf n checksum sector c (omega arith) d p (sector + 1) 0 s
              (omega arith) (omega arith) refl))

    write_started-Left :
        (n sector : ℕ) (r : Option Errno × S)
        → 2 ≤ n
        → n ≤ size
        → n ≤ sector
        → Left sector (write_started nvram alloc buf n sector r)
    unfolding write_started
    write_started-Left n sector (some x, s) a b d = tt
    write_started-Left n sector (none, s) a b d = elim (Bool-cases (alloc (nvram.chunk_length s))) [
      | inl q ↦ rw q (
          finished sector
            (write_erased nvram alloc buf n sector (nvram.chunk_length s) (nvram.erase s))
            (write_erased-Left n sector (nvram.chunk_length s) (nvram.erase s) a b d (chunks s)))
      | inr q ↦ rw q tt
    ]

    abbrev Fine : ℕ → ℕ → Type 0
    Fine sector n = (2 ≤ n) × (n ≤ size) × (n ≤ sector)

    check_write-Fine :
        (sector : ℕ) (r : Outcome ℕ)
        → verify buf size ≡ r
        → r ≢ ok 0
        → Settles (λ u. Used size u × (u8 (sum (take size buf)) ≡ 0)) r
        → Settles (Fine sector) (check_write buf size sector)
    unfolding check_write
    check_write-Fine sector (err x) e z h = rw e tt
    check_write-Fine sector fault e z h = rw e h
    check_write-Fine sector timeout e z h = rw e h
    check_write-Fine sector (ok n) e z ((i, inl o), s) = absurd (z (ap ok o))
    check_write-Fine sector (ok n) e z ((i, inr t), s) =
        rw (e, ne→== n 0 (λ q. omega (arith, q, t)))
          (Settles->>= (λ _. Unit {0}) (Fine sector) (read_at buf (n - 1)) _
            (read_at-Settles buf (n - 1) (omega (arith, t, i, fits)))
            (λ last _. elim (Bool-cases (last == dhcp_end)) [
              | inr q ↦ rw q tt
              | inl q ↦ elim (Bool-cases (ltb (min sector max_size) n)) [
                | inl m ↦ rw (q, m) tt
                | inr m ↦
                    let l = ltb→le (min sector max_size) n m in rw (q, m) (t, i, omega (arith, l))
              ]
            ]))

    checked :
        (sector : ℕ) (s : S) (r : Outcome ℕ)
        → Settles (Fine sector) r
        → Left sector (write_checked nvram alloc s buf sector r)
    unfolding write_checked
    checked sector s (err x) h = tt
    checked sector s fault h = h
    checked sector s timeout h = h
    checked sector s (ok n) (a, b, d) = write_started-Left n sector (nvram.rw_start s) a b d

    -- For an NVRAM in which writing a chunk at an offset keeps what stands before and puts the chunk
    -- there, giving up the partition changes nothing, and a chunk has bytes; and a buffer of at least
    -- `size` bytes that efx_bootcfg_verify does not find empty: efx_bootcfg_write ends and stays
    -- inside the buffer. Where it returns 0, the sector (the partition's size, at most 0x1000) holds
    -- the used bytes, from 2 to `size`, the checksum taken off the first, and zeros to its end; and it
    -- sums to 0.
    pub write-Left :
        (s : S) (total : ℕ)
        → nvram.size s ≡ ok total
        → verify buf size ≢ ok 0
        → Left (min total max_size) (write nvram alloc s buf size)
    unfolding write write_sized
    write-Left s total e z = rw e (
        checked (min total max_size) s (check_write buf size (min total max_size)) (
          check_write-Fine (min total max_size) (verify buf size) refl z
            (verify-Used buf size fits)))
