-- ===== src/Nvram/Tests.antt =====
-- A flash of sixteen bytes, and the theorem on partitions at it (common/ef10_nvram.c).
use gld.Base.{
  ℕ, ◌≡◌, refl, sym, List, [], ◌∷◌, ◌++◌, replicate, arith, ok, ok_injective, err, einval,
}
use gld.Nvram.{
  Device, partn_read, partn_erase, erase_from, partn_write, write_from, check_write_size,
}
use gld.Nvram.Chunks.{part, patch}
use gld.Nvram.Image.{partn_write-partn_read}

-- Sectors of eight bytes, written four bytes at a time.
abbrev flash : Device (List ℕ)
flash = record {
  info = λ s. ok (record { size = 16; erase_size = 8; write_size = 4 });
  read = λ s o n. ok (part o n s);
  write = λ s o bs. ok (patch o bs s);
  erase = λ s o n. ok (patch o (replicate n 0xff) s);
  update_start = λ s. ok s;
  update_finish = λ s. s;
}

abbrev old : List ℕ
old = replicate 16 7

abbrev erased : List ℕ
erased = replicate 16 0xff

abbrev image : List ℕ
image = 1 ∷ 2 ∷ 3 ∷ 4 ∷ 5 ∷ 6 ∷ 7 ∷ 8 ∷ []

erase_runs : partn_erase flash old 0 16 ≡ ok erased
unfolding partn_erase erase_from
erase_runs = refl

write_runs : partn_write flash erased 0 image ≡ ok (image ++ replicate 8 0xff)
unfolding partn_write check_write_size write_from
write_runs = refl

-- A size that is no multiple of the sector's is refused.
erase_odd : partn_erase flash old 0 12 ≡ err einval
unfolding partn_erase erase_from
erase_odd = refl

partn_write-partn_read_example :
    (partn_read flash (image ++ replicate 8 0xff) 0 8 ≡ ok image)
    × (partn_read flash (image ++ replicate 8 0xff) 0 16 ≡ ok (image ++ replicate 8 0xff))
partn_write-partn_read_example =
    partn_write-partn_read flash (λ s. s) (λ s s' o bs e. sym (ok_injective e))
      (λ s s' o n e. sym (ok_injective e)) (λ s o n h. refl) old erased (image ++ replicate 8 0xff)
      16 image (omega arith) (omega arith) (omega arith) erase_runs write_runs
