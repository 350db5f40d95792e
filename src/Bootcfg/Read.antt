-- ===== src/Bootcfg/Read.antt =====
-- What efx_bootcfg_read leaves in the user's buffer.
use gld.Base.{
  ℕ, zero, suc, ◌+◌, ◌-◌, ◌≤◌, ◌<◌, ◌≡◌, refl, sym, ap, ◌∙◌, inl, inr, Bool, not, ◌&&◌, List, [],
  ◌∷◌, ◌++◌, take, drop, set, replicate, length, get_or, length-set, length-append, length-take,
  length-drop, length-replicate, get_or-set_self, get_or-append_left, get_or-append_right,
  get_or-take, get_or-replicate, get_or-set_ne, min, ltb, ltb→le, lt→ltb, ◌==◌, ==_iff, Bool-cases,
  if◌then◌else◌, u8, sub8, sum, arith, Option, none, some, Errno, Outcome, ok, err, fault, timeout,
  ◌>>=◌, read_at, read_at-get_or, Settles, Settles->>=, Settles-mono,
}
use mathlib.Core.Path.{subst}
use gld.Bootcfg.{
  csum, verify, dhcp_end, max_size, Nvram, put_byte, accept, terminate, deliver, finish_read,
  read_started, read_sector, read_sized, read,
}
use gld.Bootcfg.Sector.{csum_lem, Used, verify-Used}

sum-set_first :
    (xs : List ℕ) (size v : ℕ)
    → 0 < size
    → 0 < length xs
    → sum (take size (set xs 0 v)) + get_or xs 0 0 ≡ sum (take size xs) + v
sum-set_first [] size v a b = absurd (omega arith)
sum-set_first (x ∷ xs) zero v a b = absurd (omega arith)
sum-set_first (x ∷ xs) (suc size) v a b = omega arith

-- A payload of `used` bytes that ends in a terminator.
abbrev Terminated : ℕ → ℕ → List ℕ × ℕ → Type 0
Terminated n sector (p, u) =
    (length p ≡ n) × (2 ≤ u) × (u ≤ sector) × (get_or p (u - 1) 0 ≡ dhcp_end)

abbrev Accepted : ℕ → ℕ → List ℕ × ℕ → Type 0
Accepted n sector (p, u) = (length p ≡ n) × (2 ≤ u) × (u ≤ sector)

module _ (sector : ℕ) (two : 2 ≤ sector) where
  emptied :
      (payload : List ℕ)
      → sector ≤ length payload
      → Settles
          (Terminated (length payload) sector)
          (put_byte payload 0 0 >>= λ p. put_byte p 1 dhcp_end >>= λ p'. ok (p', 2))
  unfolding put_byte
  emptied payload h =
      let same = length-set payload 0 0 in
      rw (lt→ltb 0 (length payload) (omega arith), same, lt→ltb 1 (length payload) (omega arith))
        (
          length-set (set payload 0 0) 1 dhcp_end ∙ same,
          omega arith,
          two,
          get_or-set_self (set payload 0 0) 1 dhcp_end 0 (omega (arith, same)),
        )

  emptied-Accepted :
      (payload : List ℕ)
      → sector ≤ length payload
      → Settles
          (Accepted (length payload) sector)
          (put_byte payload 0 0 >>= λ p. put_byte p 1 dhcp_end >>= λ p'. ok (p', 2))
  emptied-Accepted payload h =
      Settles-mono (Terminated (length payload) sector) (Accepted (length payload) sector) _
        (emptied payload h) (λ (p, u) (l, t, i, e). (l, t, i))

  accept-Accepted :
      (payload : List ℕ) (r : Outcome ℕ)
      → sector ≤ length payload
      → Settles (Used sector) r
      → Settles (Accepted (length payload) sector) (accept payload r)
  unfolding accept
  accept-Accepted payload fault h u = u
  accept-Accepted payload timeout h u = u
  accept-Accepted payload (err e) h u = emptied-Accepted payload h
  accept-Accepted payload (ok zero) h u = emptied-Accepted payload h
  accept-Accepted payload (ok (suc n)) h (i, inl z) = absurd (omega arith)
  accept-Accepted payload (ok (suc n)) h (i, inr t) = (refl, t, i)

  terminate-Terminated :
      (payload : List ℕ) (used : ℕ)
      → sector ≤ length payload
      → 2 ≤ used
      → used ≤ sector
      → Settles (Terminated (length payload) sector) (terminate payload used sector)
  unfolding terminate put_byte
  terminate-Terminated payload used h t u =
      rw (read_at-get_or payload (used - 1) 0 (omega arith))
        (elim (Bool-cases (get_or payload (used - 1) 0 == dhcp_end)) [
          | inl e ↦ rw e (refl, t, u, (==_iff (get_or payload (used - 1) 0) dhcp_end).0 e)
          | inr e ↦ elim (Bool-cases (ltb sector (used + 1))) [
            | inl q ↦ rw (e, q) (emptied payload h)
            | inr q ↦
                let i = ltb→le sector (used + 1) q in
                rw (e, q, lt→ltb used (length payload) (omega arith))
                  (
                    length-set payload used dhcp_end,
                    omega arith,
                    i,
                    ap (λ (k : ℕ). get_or (set payload used dhcp_end) k 0)
                          (let a : used + 1 - 1 ≡ used = omega arith in a)
                        ∙ get_or-set_self payload used dhcp_end 0 (omega arith),
                  )
          ]
        ])

-- The first `size` bytes sum to 0, and hold options up to a terminator and zeros behind it.
abbrev pub Sector : List ℕ → ℕ → ℕ → Type 0
Sector buf size u =
    (u8 (sum (take size buf)) ≡ 0)
    × (2 ≤ u)
    × (u ≤ size)
    × (get_or buf (u - 1) 0 ≡ dhcp_end)
    × ((j : ℕ) → u ≤ j → j < size → get_or buf j 0 ≡ 0)

-- What a successful read leaves in a buffer, of which `size` bytes are given.
abbrev pub Filled : List ℕ → ℕ → List ℕ → Type 0
Filled buf size b = (length b ≡ length buf) × ((u : ℕ) × Sector b size u)

checksummed :
    (xs : List ℕ) (size : ℕ)
    → 0 < size
    → size ≤ length xs
    → (csum xs size >>= λ checksum. read_at xs 0 >>= λ first. put_byte xs 0 (sub8 first checksum))
      ≡ ok (set xs 0 (sub8 (get_or xs 0 0) (u8 (sum (take size xs)))))
unfolding put_byte
checksummed xs size p h =
    rw (csum_lem xs size h, read_at-get_or xs 0 0 (omega arith), lt→ltb 0 (length xs) (omega arith))
      refl

deliver-Sector :
    (buf payload : List ℕ) (used size n sector : ℕ)
    → size ≤ length buf
    → sector ≤ n
    → Terminated n sector (payload, used)
    → Settles (Filled buf size) (deliver buf payload used size)
unfolding deliver
deliver-Sector buf payload used size n sector fits sn (l, t, u, e) =
    elim (Bool-cases (ltb size used)) [
      | inl q ↦ rw q tt
      | inr q ↦
          let room = ltb→le size used q in
          let head = take used payload in
          let tail = replicate (size - used) 0 ++ drop size buf in
          let xs = head ++ tail in
          let lh : length head ≡ used = omega (arith, length-take used payload, l, u, sn) in
          let lt : length tail ≡ length buf - used = omega (
            arith,
            length-append (replicate (size - used) 0) (drop size buf),
            length-replicate {A = ℕ} (size - used) 0,
            length-drop size buf,
          ) in
          let lx : length xs ≡ length buf = omega (arith, length-append head tail, lh, lt) in
          let c = u8 (sum (take size xs)) in
          let v = sub8 (get_or xs 0 0) c in
          let all = sum-set_first xs size v (omega arith) (omega (arith, lx)) in
          rw q (
            subst (Settles (Filled buf size))
              (sym (checksummed xs size (omega arith) (omega (arith, lx))))
              (
                length-set xs 0 v ∙ lx,
                (
                  used,
                  (
                    omega (arith, all),
                    t,
                    room,
                    get_or-set_ne xs 0 (used - 1) v 0 (λ z. omega (arith, z))
                        ∙ get_or-append_left head tail (used - 1) 0 (omega (arith, lh))
                        ∙ get_or-take used (used - 1) payload 0 (omega arith)
                        ∙ e,
                    λ j a b.
                        get_or-set_ne xs 0 j v 0 (λ z. omega (arith, z))
                        ∙ get_or-append_right head tail j 0 (omega (arith, lh))
                        ∙ get_or-append_left (replicate (size - used) 0) (drop size buf)
                            (j - length head) 0
                            (omega (arith, lh, length-replicate {A = ℕ} (size - used) 0))
                        ∙ get_or-replicate (size - used) (j - length head) 0,
                  ),
                ),
              ))
    ]

finish_read-Filled :
    (buf payload : List ℕ) (size sector : ℕ)
    → size ≤ length buf
    → 2 ≤ sector
    → sector ≤ length payload
    → Settles (Filled buf size) (finish_read buf size sector payload)
unfolding finish_read
finish_read-Filled buf payload size sector fits two inside =
    Settles->>= (Accepted (length payload) sector) (Filled buf size)
      (accept payload (verify payload sector)) _
      (accept-Accepted sector two payload (verify payload sector) inside (
        Settles-mono (λ u. Used sector u × (u8 (sum (take sector payload)) ≡ 0)) (Used sector)
          (verify payload sector) (verify-Used payload sector inside) (λ u h. h.0)))
      (λ (p, u) (l, t, i).
        Settles->>= (Terminated (length payload) sector) (Filled buf size) (terminate p u sector) _
          (terminated p u l t i)
          (λ (p', u') h. deliver-Sector buf p' u' size (length payload) sector fits inside h))
  where
    terminated :
        (p : List ℕ) (u : ℕ)
        → length p ≡ length payload
        → 2 ≤ u
        → u ≤ sector
        → Settles (Terminated (length payload) sector) (terminate p u sector)
    terminated p u l t i = rw⁻¹ l (terminate-Terminated sector two p u (omega (arith, l)) t i)

module _ {S : Type 0} (nvram : Nvram S) (alloc : ℕ → Bool)
    (reads : (s : S) (offset n : ℕ) → Settles (λ b. length b ≡ n) (nvram.read_chunk s offset n).0)
    (sized : (s : S) → Settles (λ n. 2 ≤ n) (nvram.size s)) where
  read_started-Filled :
      (buf : List ℕ) (size sector : ℕ) (r : Option Errno × S)
      → size ≤ length buf
      → 2 ≤ sector
      → Settles (Filled buf size) (read_started nvram alloc buf size sector r).0
  unfolding read_started
  read_started-Filled buf size sector (some e, s) fits two = tt
  read_started-Filled buf size sector (none, s) fits two =
      Settles->>= (λ b. length b ≡ sector) (Filled buf size) (nvram.read_chunk s 0 sector).0 _
        (reads s 0 sector)
        (λ bytes l. finish_read-Filled buf _ size sector fits two (
          let a = length-append bytes (if ltb size sector then [] else drop sector buf) in
          omega (arith, a, l)))

  -- For an NVRAM whose reads return an error number or as many bytes as asked, and whose partition
  -- has an error number or a size of at least 2: efx_bootcfg_read into a buffer that holds `size` bytes
  -- ends and stays inside its buffers. Where it returns 0 the buffer's first `size` bytes sum to 0,
  -- and end in a terminator and zeros behind it.
  pub read-Filled :
      (s : S) (buf : List ℕ) (size : ℕ)
      → size ≤ length buf
      → Settles (Filled buf size) (read nvram alloc s buf size).0
  unfolding read read_sized read_sector
  read-Filled s buf size fits = by_size (nvram.size s) (sized s)
    where
      by_size :
          (r : Outcome ℕ)
          → Settles (λ n. 2 ≤ n) r
          → Settles (Filled buf size) (read_sized nvram alloc s buf size r).0
      by_size (err e) h = tt
      by_size fault h = h
      by_size timeout h = h
      by_size (ok total) h =
          elim (Bool-cases (ltb size (min total max_size) && not (alloc (min total max_size)))) [
            | inl q ↦ rw q tt
            | inr q ↦ rw q (
                read_started-Filled buf size (min total max_size) (nvram.rw_start s) fits
                  (omega (arith, h)))
          ]
