-- ===== src/Crc32/Tests.antt =====
-- The CRC of a text, and the theorem at an input.
use gld.Base.{[], ◌∷◌, ◌≡◌, refl, arith}
use gld.Crc32.{calculate}
use gld.Crc32.Table.{crc32_table}
use gld.Crc32.Bitwise.{divide, calculate_divides}

-- The check value of CRC32 is 0xcbf43926 after the final inversion.
check_value :
    calculate 0xffffffff (b'1' ∷ b'2' ∷ b'3' ∷ b'4' ∷ b'5' ∷ b'6' ∷ b'7' ∷ b'8' ∷ b'9' ∷ [])
    ≡ 0x340bc6d9
unfolding calculate crc32_table
check_value = refl

calculate_divides_example :
    calculate 0xffffffff (0x31 ∷ 0xff ∷ []) ≡ divide 0xffffffff (0x31 ∷ 0xff ∷ [])
calculate_divides_example = calculate_divides 0xffffffff (0x31 ∷ 0xff ∷ []) (omega arith)
