-- ===== src/Bootcfg.antt =====
-- The boot configuration sector (common/efx_bootcfg.c): its tags and checksum, and reading it from
-- the NVRAM. A sector is a list of bytes behind the checksum byte: DHCP options.
pub mod Sector
mod Tests
pub mod Read
pub mod Write
pub mod Image
pub mod Blank
use gld.Base.{
  ℕ, zero, suc, ◌+◌, ◌-◌, min, Bool, true, false, not, ◌&&◌, ◌||◌, List, [], ◌∷◌, ◌++◌, take, drop,
  set, length, replicate, get_or, ltb, leb, ◌==◌, if◌then◌else◌, u8, sub8, Option, none, some,
  Errno, Outcome, ok, err, fault, timeout, ◌>>=◌, ◌>>◌, fail_if, read_at, einval, enoent, enospc,
  enomem,
}

abbrev pub dhcp_end : ℕ
dhcp_end = 0xff

abbrev pub dhcp_pad : ℕ
dhcp_pad = 0

-- BOOTCFG_MAX_SIZE
abbrev pub max_size : ℕ
max_size = 0x1000

-- efx_bootcfg_csum, from a byte on.
pub csum_from : ℕ → List ℕ → ℕ → Outcome ℕ
csum_from zero buf checksum = ok checksum
csum_from (suc n) [] checksum = fault
csum_from (suc n) (x ∷ buf) checksum = csum_from n buf (u8 (checksum + x))

pub csum : List ℕ → ℕ → Outcome ℕ
unfolding csum_from
csum buf size = csum_from size buf 0

-- The loop of efx_bootcfg_verify: `used` when it ends.
pub verify_from : ℕ → List ℕ → ℕ → ℕ → ℕ → Outcome ℕ
verify_from zero buf size offset used = timeout
verify_from (suc f) buf size offset used =
    let option = (do
      fail_if (leb size (offset + 1)) enospc
      n ← read_at buf (offset + 1)
      fail_if (leb size (offset + 1 + n)) enospc
      verify_from f buf size (offset + 2 + n) (offset + 2 + n)) in
    let body = (do
      tag ← read_at buf offset
      if tag == dhcp_end
          then ok (offset + 1)
          else if tag == dhcp_pad
          then verify_from f buf size (offset + 1) used
          else option) in
    if leb size offset then ok used else body

-- efx_bootcfg_verify: `*usedp`.
unfoldable pub verify : List ℕ → ℕ → Outcome ℕ
unfolding verify_from csum
verify buf size = do
  used ← verify_from (size + 1) buf size 1 0
  checksum ← csum buf size
  fail_if (not (checksum == 0)) einval
  ok used

-- The NVRAM operations on the boot configuration partition, on the state `S` of the NVRAM;
-- `chunk_length` is what rw_start reports.
pub record Nvram (S : Type 0) : Type 0 where
  pub size : S → Outcome ℕ
  pub rw_start : S → Option Errno × S
  pub read_chunk : S → ℕ → ℕ → Outcome (List ℕ) × S
  pub rw_finish : S → S
  pub chunk_length : S → ℕ
  pub erase : S → Option Errno × S
  pub write_chunk : S → ℕ → List ℕ → Option Errno × S

abbrev pub is_none : Option Errno → Bool
is_none none = true
is_none (some e) = false

abbrev pub give_up : Option Errno → Outcome (Unit {0})
give_up none = ok tt
give_up (some e) = err e

-- `data[i] = x`
pub put_byte : List ℕ → ℕ → ℕ → Outcome (List ℕ)
put_byte buf i x = if ltb i (length buf) then ok (set buf i x) else fault

-- What read makes of the sector's bytes: an empty sector where verify fails or finds nothing.
pub accept : List ℕ → Outcome ℕ → Outcome (List ℕ × ℕ)
unfolding put_byte
accept payload fault = fault
accept payload timeout = timeout
accept payload (err e) = do p ← put_byte payload 0 0; p' ← put_byte p 1 dhcp_end; ok (p', 2)
accept payload (ok zero) = do p ← put_byte payload 0 0; p' ← put_byte p 1 dhcp_end; ok (p', 2)
accept payload (ok (suc n)) = ok (payload, suc n)

-- A terminator behind the options, where there is none.
pub terminate : List ℕ → ℕ → ℕ → Outcome (List ℕ × ℕ)
unfolding put_byte
terminate payload used sector = do
  last ← read_at payload (used - 1)
  let room = put_byte payload used dhcp_end >>= λ p. ok (p, used + 1)
  let none_left = (do p ← put_byte payload 0 0; p' ← put_byte p 1 dhcp_end; ok (p', 2))
  if last == dhcp_end then ok (payload, used) else if ltb sector (used + 1) then none_left else room

-- The user's buffer of `size` bytes gets the used bytes, zeros behind them, and the checksum.
pub deliver : List ℕ → List ℕ → ℕ → ℕ → Outcome (List ℕ)
unfolding csum put_byte
deliver buf payload used size = do
  fail_if (ltb size used) enospc
  let filled = take used payload ++ (replicate (size - used) 0 ++ drop size buf)
  checksum ← csum filled size
  first ← read_at filled 0
  put_byte filled 0 (sub8 first checksum)

pub finish_read : List ℕ → ℕ → ℕ → List ℕ → Outcome (List ℕ)
unfolding verify accept terminate deliver
finish_read buf size sector payload = do
  (p, used) ← accept payload (verify payload sector)
  (p', used') ← terminate p used sector
  deliver buf p' used' size

module _ {S : Type 0} (nvram : Nvram S) (alloc : ℕ → Bool) where
  -- Behind rw_start. A sector that is larger than the user's buffer is read into an allocated one,
  -- else it is read into the buffer. The partition is given up whether or not the read succeeds.
  pub read_started : List ℕ → ℕ → ℕ → Option Errno × S → Outcome (List ℕ) × S
  unfolding finish_read
  read_started buf size sector (some e, s) = (err e, s)
  read_started buf size sector (none, s) =
      let (chunk, s') = nvram.read_chunk s 0 sector in
      (
        chunk >>= λ bytes.
            finish_read buf size sector
              (bytes ++ (if ltb size sector then [] else drop sector buf)),
        nvram.rw_finish s',
      )

  pub read_sector : S → List ℕ → ℕ → ℕ → Outcome (List ℕ) × S
  unfolding read_started
  read_sector s buf size sector =
      if ltb size sector && not (alloc sector)
      then (err enomem, s)
      else read_started buf size sector (nvram.rw_start s)

  pub read_sized : S → List ℕ → ℕ → Outcome ℕ → Outcome (List ℕ) × S
  unfolding read_sector
  read_sized s buf size (ok total) = read_sector s buf size (min total max_size)
  read_sized s buf size (err e) = (err e, s)
  read_sized s buf size fault = (fault, s)
  read_sized s buf size timeout = (timeout, s)

  -- efx_bootcfg_read: the user's buffer, and the NVRAM's state. Where an error is returned, what is
  -- in the buffer is left open.
  unfoldable pub read : S → List ℕ → ℕ → Outcome (List ℕ) × S
  unfolding read_sized
  read s buf size = read_sized s buf size (nvram.size s)

-- The bytes of the chunk at `offset`: the used ones, zeros behind them, and the first byte with
-- the checksum taken off.
pub chunk_at : List ℕ → ℕ → ℕ → ℕ → ℕ → List ℕ
chunk_at buf used checksum offset remaining =
    let n = min remaining (used - offset) in
    let bytes = take n (drop offset buf) ++ replicate (remaining - n) 0 in
    if offset == 0 then set bytes 0 (sub8 (get_or bytes 0 0) checksum) else bytes

-- The checks of efx_bootcfg_write: the used bytes.
pub check_write : List ℕ → ℕ → ℕ → Outcome ℕ
unfolding verify
check_write buf size sector = do
  used ← verify buf size
  last ← if used == 0 then fault else read_at buf (used - 1)
  fail_if (not (last == dhcp_end)) enoent
  fail_if (ltb (min sector max_size) used) enospc
  ok used

module _ {S : Type 0} (nvram : Nvram S) (alloc : ℕ → Bool) where
  -- The loop over the chunks of `c` bytes, to the end of the sector.
  pub write_from : ℕ → List ℕ → ℕ → ℕ → ℕ → ℕ → ℕ → S → Outcome (Unit {0}) × S
  unfolding chunk_at
  write_from zero buf used checksum sector c offset s = (timeout, s)
  write_from (suc f) buf used checksum sector c offset s =
      let remaining = min c (sector - offset) in
      let written = nvram.write_chunk s offset (chunk_at buf used checksum offset remaining) in
      let rest = write_from f buf used checksum sector c (offset + remaining) written.1 in
      if leb sector offset
      then (ok tt, s)
      else if is_none written.0
      then rest
      else (give_up written.0, written.1)

  pub write_summed : List ℕ → ℕ → ℕ → ℕ → Outcome ℕ → S → Outcome (Unit {0}) × S
  unfolding write_from
  write_summed buf used sector c (ok checksum) s =
      write_from (sector + 1) buf used checksum sector c 0 s
  write_summed buf used sector c (err e) s = (err e, s)
  write_summed buf used sector c fault s = (fault, s)
  write_summed buf used sector c timeout s = (timeout, s)

  pub write_erased : List ℕ → ℕ → ℕ → ℕ → Option Errno × S → Outcome (Unit {0}) × S
  unfolding write_summed csum
  write_erased buf used sector c (some e, s) = (err e, s)
  write_erased buf used sector c (none, s) = write_summed buf used sector c (csum buf used) s

  -- Behind rw_start: the partition is given up on every path.
  pub write_started : List ℕ → ℕ → ℕ → Option Errno × S → Outcome (Unit {0}) × S
  unfolding write_erased
  write_started buf used sector (some e, s) = (err e, s)
  write_started buf used sector (none, s) =
      let done =
        if alloc (nvram.chunk_length s)
        then write_erased buf used sector (nvram.chunk_length s) (nvram.erase s)
        else (err enomem, s) in
      (done.0, nvram.rw_finish done.1)

  pub write_checked : S → List ℕ → ℕ → Outcome ℕ → Outcome (Unit {0}) × S
  unfolding write_started
  write_checked s buf sector (ok used) = write_started buf used sector (nvram.rw_start s)
  write_checked s buf sector (err e) = (err e, s)
  write_checked s buf sector fault = (fault, s)
  write_checked s buf sector timeout = (timeout, s)

  pub write_sized : S → List ℕ → ℕ → Outcome ℕ → Outcome (Unit {0}) × S
  unfolding write_checked check_write
  write_sized s buf size (ok total) =
      let sector = min total max_size in write_checked s buf sector (check_write buf size sector)
  write_sized s buf size (err e) = (err e, s)
  write_sized s buf size fault = (fault, s)
  write_sized s buf size timeout = (timeout, s)

  -- efx_bootcfg_write
  pub write : S → List ℕ → ℕ → Outcome (Unit {0}) × S
  unfolding write_sized
  write s buf size = write_sized s buf size (nvram.size s)
