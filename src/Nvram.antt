-- ===== src/Nvram.antt =====
-- A partition of the adapter's flash, read, erased and written by MCDI commands of bounded size
-- (common/ef10_nvram.c, ef10_nvram_partn_*).
pub mod Chunks
pub mod Image
mod Tests
use gld.Base.{
  ℕ, zero, suc, ◌+◌, ◌-◌, ◌%◌, Bool, not, List, [], ◌++◌, einval, length, take, drop, min, ◌==◌,
  if◌then◌else◌, Outcome, ok, err, fault, timeout, ◌>>=◌, ◌>>◌, fail_if, u32,
}

abbrev pub nvram_chunk : ℕ
nvram_chunk = 0x80

-- What efx_mcdi_nvram_info tells of a partition; a size of 0 is one that is not known.
pub record Info : Type 0 where
  pub size : ℕ
  pub erase_size : ℕ
  pub write_size : ℕ

-- The commands on one partition: efx_mcdi_nvram_info, _read, _write, _erase, _update_start and
-- _update_finish. `S` is the state of the device; where a command fails it is left open.
pub record Device (S : Type 0) : Type 0 where
  pub info : S → Outcome Info
  pub read : S → (offset n : ℕ) → Outcome (List ℕ)
  pub write : S → (offset : ℕ) → List ℕ → Outcome S
  pub erase : S → (offset n : ℕ) → Outcome S
  pub update_start : S → Outcome S
  pub update_finish : S → S

pub check_write_size : (write_size size : ℕ) → Outcome ℕ
check_write_size write_size size =
    if write_size == 0
    then ok nvram_chunk
    else (fail_if (not (size % write_size == 0)) einval >> ok write_size)

module _ {S : Type 0} (dev : Device S) where
  pub partn_size : S → Outcome ℕ
  partn_size s = do i ← dev.info s; ok i.size

  pub partn_lock : S → Outcome S
  partn_lock s = dev.update_start s

  pub partn_unlock : S → S
  partn_unlock s = dev.update_finish s

  -- Each round reads a byte at least. The offset is an unsigned int.
  pub read_from : ℕ → S → (offset size : ℕ) → Outcome (List ℕ)
  read_from zero s offset size = timeout
  read_from (suc n) s offset size =
      let chunk = min size nvram_chunk in
      let rest = dev.read s offset chunk >>= λ b.
      read_from n s (u32 (offset + chunk)) (size - chunk) >>= λ r. ok (b ++ r) in
      if size == 0 then ok [] else rest

  pub partn_read_mode : S → (offset size : ℕ) → Outcome (List ℕ)
  unfolding read_from
  partn_read_mode s offset size = read_from (suc size) s offset size

  pub partn_read : S → (offset size : ℕ) → Outcome (List ℕ)
  partn_read s offset size = partn_read_mode s offset size

  pub erase_from : ℕ → S → (erase_size offset size : ℕ) → Outcome S
  erase_from zero s erase_size offset size = timeout
  erase_from (suc n) s erase_size offset size =
      let rest = dev.erase s offset erase_size >>= λ s'.
      erase_from n s' erase_size (u32 (offset + erase_size)) (size - erase_size) in
      if size == 0 then ok s else rest

  -- In one command, or sector by sector.
  pub partn_erase : S → (offset size : ℕ) → Outcome S
  partn_erase s offset size = do
    i ← dev.info s
    if i.erase_size == 0
        then dev.erase s offset size
        else (fail_if (not (size % i.erase_size == 0)) einval
            >> erase_from (suc size) s i.erase_size offset size)

  pub write_from : ℕ → S → (write_size offset : ℕ) → List ℕ → Outcome S
  write_from zero s write_size offset bytes = timeout
  write_from (suc n) s write_size offset bytes =
      let chunk = min (length bytes) write_size in
      let rest = dev.write s offset (take chunk bytes) >>= λ s'.
      write_from n s' write_size (u32 (offset + chunk)) (drop chunk bytes) in
      if length bytes == 0 then ok s else rest

  pub partn_write : S → (offset : ℕ) → List ℕ → Outcome S
  partn_write s offset bytes = do
    i ← dev.info s
    w ← check_write_size i.write_size (length bytes)
    write_from (suc (length bytes)) s w offset bytes

  pub partn_rw_start : S → Outcome (S × ℕ)
  partn_rw_start s = do s' ← partn_lock s; ok (s', nvram_chunk)

  pub partn_rw_finish : S → S
  partn_rw_finish s = partn_unlock s
