-- ===== src/Toeplitz.antt =====
-- The Toeplitz hash of the driver, with a cache of the hash of each byte at each position
-- (sfxge_hash.c).
pub mod Window
pub mod Gather
pub mod Cached
pub mod Connection
mod Tests
use gld.Base.{
  ℕ, zero, suc, ◌+◌, ◌*◌, ◌/◌, ◌%◌, ◌^◌, List, [], ◌∷◌, ◌++◌, ◌==◌, ◌&&◌, if◌then◌else◌, bit_and,
  bit_or, bit_xor, u32, Outcome, ok, err, fault, timeout, ◌>>=◌, read_at,
}

-- Two addresses of IPv6 and two ports.
abbrev pub toeplitz_in_max : ℕ
toeplitz_in_max = 36

pub shift_in : (w set : ℕ) → ℕ
shift_in w set = if set == 0 then u32 (w * 2) else bit_or (u32 (w * 2)) 1

-- `key_bits`: a window and those that follow it, with the digits of the byte `next` coming in.
pub windows : (n w next mask : ℕ) → List ℕ
unfolding shift_in
windows zero w next mask = w ∷ []
windows (suc n) w next mask = w ∷ windows n (shift_in w (bit_and next mask)) next (mask / 2)

pub gather : List ℕ → (byte mask res : ℕ) → ℕ
gather [] byte mask res = res
gather (k ∷ ks) byte mask res =
    gather ks byte (mask / 2) (if bit_and byte mask == 0 then res else bit_xor res k)

-- `n` bytes from `byte` on.
pub row_from : (n byte : ℕ) → List ℕ → List ℕ
unfolding gather
row_from zero byte ks = []
row_from (suc n) byte ks = gather ks byte (2 ^ 7) 0 ∷ row_from n (byte + 1) ks

abbrev pub word_be : (a b c d : ℕ) → ℕ
word_be a b c d = a * 2 ^ 24 + b * 2 ^ 16 + c * 2 ^ 8 + d

-- `n` positions, the key's pointer going on by a byte in each.
pub cache_from : ℕ → List ℕ → Outcome (List ℕ)
cache_from zero key = ok []
cache_from (suc n) (a ∷ b ∷ c ∷ d ∷ e ∷ key) = cache_from n (b ∷ c ∷ d ∷ e ∷ key) >>= λ rows.
    ok (row_from 256 0 (windows 7 (word_be a b c d) e (2 ^ 7)) ++ rows)
cache_from (suc n) key = fault

unfoldable pub toeplitz_cache_init : List ℕ → Outcome (List ℕ)
toeplitz_cache_init key = cache_from toeplitz_in_max key

unfoldable pub toeplitz_hash : (cache input : List ℕ) → (pos hash : ℕ) → Outcome ℕ
toeplitz_hash cache [] pos hash = ok hash
toeplitz_hash cache (byte ∷ input) pos hash =
    read_at cache (pos * 256 + byte) >>= λ k. toeplitz_hash cache input (pos + 1) (bit_xor hash k)

-- A port as it stands in the memory of a little-endian machine.
abbrev pub port_bytes : ℕ → List ℕ
port_bytes port = port % 2 ^ 8 ∷ port / 2 ^ 8 % 2 ^ 8 ∷ []

-- The ports' part of sfxge_toeplitz_hash, at byte `pos`.
pub hash_ports : (cache : List ℕ) → (pos src_port dst_port hash : ℕ) → Outcome ℕ
hash_ports cache pos src_port dst_port hash = do
  h3 ← toeplitz_hash cache (port_bytes src_port) pos 0
  h4 ← toeplitz_hash cache (port_bytes dst_port) (pos + 2) 0
  ok (bit_xor (bit_xor hash h3) h4)

-- sfxge_toeplitz_hash, for addresses of `addr_size` bytes.
unfoldable pub hash_connection :
    (cache : List ℕ)
    → (addr_size : ℕ) → (src_addr : List ℕ) → (src_port : ℕ) → (dst_addr : List ℕ) → (dst_port : ℕ)
    → Outcome ℕ
unfolding hash_ports
hash_connection cache addr_size src_addr src_port dst_addr dst_port = do
  h1 ← toeplitz_hash cache src_addr 0 0
  h2 ← toeplitz_hash cache dst_addr addr_size 0
  let hash = bit_xor (bit_xor 0 h1) h2
  if (src_port == 0) && (dst_port == 0)
      then ok hash
      else hash_ports cache (addr_size + addr_size) src_port dst_port hash
