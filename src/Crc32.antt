-- ===== src/Crc32.antt =====
-- efx_crc32_calculate (common/efx_crc32.c): CRC32 by a table of 256 words.
pub mod Bitwise
pub mod Table
mod Tests
use gld.Base.{ℕ, List, [], ◌∷◌, get_or, ◌>>>◌, bit_and, bit_xor}
use Table.{crc32_table}

pub calculate : ℕ → List ℕ → ℕ
calculate crc [] = crc
calculate crc (byte ∷ input) =
    calculate (bit_xor (crc >>> 8) (get_or crc32_table (bit_and (bit_xor crc byte) 0xff) 0)) input
