-- ===== src/Crc.antt =====
-- Source/src/lh_crc.c: the CRC-16 of LHA headers and data.
mod Table
pub mod Reference
pub mod Detect
use lhassa.Base.{ℕ, ◌/◌, ◌%◌, ◌^◌, bit_xor, List, [], ◌∷◌, Option, none, some, get_or}
use Table.{crc16_table}

-- `(crc ^ b) & 0xFF`, the index into the table.
abbrev pub index : ℕ → ℕ → ℕ
index crc b = bit_xor crc b % 256

-- `lh_crc16_update`: the result of the 16-bit shift and the table's entry both fit 16 bits, and
-- the cast is written all the same.
unfoldable pub update : ℕ → ℕ → ℕ
unfolding crc16_table
update crc b = bit_xor (crc / 2 ^ 8) (get_or crc16_table (index crc b) 0) % 2 ^ 16

-- The loop of `lh_crc16`.
pub crc_loop : ℕ → List ℕ → ℕ
crc_loop crc [] = crc
crc_loop crc (b ∷ bytes) = crc_loop (update crc b) bytes

-- `lh_crc16`: `none` is the null pointer, and a list holds the `len` bytes.
unfoldable pub crc16 : Option (List ℕ) → ℕ
unfolding crc_loop
crc16 none = 0
crc16 (some bytes) = crc_loop 0 bytes
