-- ===== src/Bootcfg/Tests.antt =====
-- A small sector, and the theorems at it.
use gld.Base.{
  ℕ, zero, suc, ◌+◌, ◌≤◌, ◌≡◌, refl, true, List, [], ◌∷◌, length, replicate, sum, take, u8, none,
  arith, ok, Settles,
}
use gld.Bootcfg.{Nvram, verify, read, csum}
use gld.Bootcfg.Sector.{Used, verify-Used}
use gld.Base.{ap, ◌++◌, ◌≢◌, fault, length-append, length-take}
use gld.Bootcfg.{write}
use gld.Bootcfg.Write.{Left, write-Left}
use gld.Bootcfg.Blank.{write-blank}
use gld.Bootcfg.Read.{Filled, read-Filled}

-- Option 1 of two bytes, with the checksum; no terminator, as in a legacy sector.
abbrev legacy : List ℕ
legacy = 0xf0 ∷ 1 ∷ 2 ∷ 6 ∷ 7 ∷ 0 ∷ 0 ∷ 0 ∷ []

verify-legacy : verify legacy 8 ≡ ok 5
unfolding verify csum
verify-legacy = refl

legacy-Used : Settles (λ u. Used 8 u × (u8 (sum (take 8 legacy)) ≡ 0)) (verify legacy 8)
legacy-Used = verify-Used legacy 8 (omega arith)

-- A partition of eight bytes: the sector, and zeros behind it.
abbrev padded : ℕ → List ℕ → List ℕ
padded zero xs = []
padded (suc n) [] = 0 ∷ padded n []
padded (suc n) (x ∷ xs) = x ∷ padded n xs

length-padded : (n : ℕ) (xs : List ℕ) → length (padded n xs) ≡ n
length-padded zero xs = refl
length-padded (suc n) [] = rw (length-padded n []) (omega arith)
length-padded (suc n) (x ∷ xs) = rw (length-padded n xs) (omega arith)

abbrev flash : Nvram (Unit {0})
flash = record {
  size = λ s. ok 8;
  rw_start = λ s. (none, s);
  read_chunk = λ s offset n. (ok (padded n legacy), s);
  rw_finish = λ s. s;
  chunk_length = λ s. 4;
  erase = λ s. (none, s);
  write_chunk = λ s offset bytes. (none, s);
}

read-legacy :
    (read flash (λ n. true) tt (replicate 10 9) 10).0
    ≡ ok (0xf1 ∷ 1 ∷ 2 ∷ 6 ∷ 7 ∷ 0xff ∷ 0 ∷ 0 ∷ 0 ∷ 0 ∷ [])
unfolding read verify csum
read-legacy = refl

read_example :
    Settles (Filled (replicate 10 9) 10) (read flash (λ n. true) tt (replicate 10 9) 10).0
read_example =
    read-Filled flash (λ n. true) (λ s offset n. length-padded n legacy) (λ s. omega arith) tt
      (replicate 10 9) 10 (omega arith)

-- A partition that is kept as its bytes: a chunk goes behind those in front of its offset.
abbrev memory : Nvram (List ℕ)
memory = record {
  size = λ s. ok 8;
  rw_start = λ s. (none, s);
  read_chunk = λ s offset n. (ok (padded n s), s);
  rw_finish = λ s. s;
  chunk_length = λ s. 4;
  erase = λ s. (none, []);
  write_chunk = λ s offset bytes. (none, take offset s ++ bytes);
}

take_enough : (n : ℕ) (xs : List ℕ) → length xs ≤ n → take n xs ≡ xs
take_enough zero [] h = refl
take_enough zero (x ∷ xs) h = absurd (omega (arith, h))
take_enough (suc n) [] h = refl
take_enough (suc n) (x ∷ xs) h = ap (λ l. x ∷ l) (take_enough n xs (omega (arith, h)))

memory-writes :
    (s : List ℕ) (o : ℕ) (bytes : List ℕ)
    → take (o + length bytes) (take o s ++ bytes) ≡ take o s ++ bytes
memory-writes s o bytes =
    take_enough (o + length bytes) (take o s ++ bytes)
      (omega (arith, length-append (take o s) bytes, length-take o s))

-- The option of the sector above, with a terminator.
abbrev current : List ℕ
current = 0xf1 ∷ 1 ∷ 2 ∷ 6 ∷ 7 ∷ 0xff ∷ []

current-has_options : verify current 6 ≢ ok 0
unfolding verify csum
current-has_options e = cc

write_example :
    Left memory
      (λ s. s)
      (λ s o bytes h. memory-writes s o bytes)
      (λ n. true)
      (λ s. refl)
      (λ s. omega arith)
      current
      6
      (omega arith)
      8
      (write memory (λ n. true) [] current 6)
write_example =
    write-Left memory (λ s. s) (λ s o bytes h. memory-writes s o bytes) (λ n. true) (λ s. refl)
      (λ s. omega arith) current 6 (omega arith) [] 8 refl current-has_options

write-blank_example : (write memory (λ n. true) [] (replicate 4 0) 4).0 ≡ fault
write-blank_example = write-blank memory (λ n. true) [] 4 8 refl
