-- ===== src/Crc/Reference.antt =====
-- The table-driven CRC against the division by the polynomial 0xA001, one bit at a time.
use lhassa.Base.{
  ℕ, ◌*◌, ◌/◌, ◌%◌, ◌^◌, ◌<◌, ◌≡◌, refl, sym, ap, ap₂, ◌∙◌, bit_xor, true, List, [], ◌∷◌, some,
  get_or, arith, ◌==◌, ==_iff, shift_bit, shift_bits, shift_bits-mul, shift_bits-bit_xor, all_below,
  all_below_sound, All, bit_xor-lt, bit_xor-shift, bit_xor_disjoint,
}
use lhassa.Crc.{update, crc_loop, crc16, index}
use lhassa.Crc.Table.{crc16_table}

abbrev poly : ℕ
poly = 0xa001

-- A byte is brought in at the low end and divided out in eight steps.
pub bitwise_update : ℕ → ℕ → ℕ
unfolding shift_bits shift_bit
bitwise_update crc b = shift_bits poly 8 (bit_xor crc b)

pub bitwise_crc : ℕ → List ℕ → ℕ
bitwise_crc crc [] = crc
bitwise_crc crc (b ∷ bytes) = bitwise_crc (bitwise_update crc b) bytes

-- Every entry of the table is eight steps of the division of its index.
table_check : all_below 256 (λ x. get_or crc16_table x 0 == shift_bits poly 8 x) ≡ true
unfolding all_below crc16_table shift_bits shift_bit
table_check = refl

table_entry : (x : ℕ) → x < 256 → get_or crc16_table x 0 ≡ shift_bits poly 8 x
table_entry x h = (==_iff _ _).0 (all_below_sound 256 _ x table_check h)

table_range_check : all_below 256 (λ x. get_or crc16_table x 0 / 2 ^ 16 == 0) ≡ true
unfolding all_below crc16_table
table_range_check = refl

pub table-lt : (x : ℕ) → x < 256 → get_or crc16_table x 0 < 2 ^ 16
table-lt x h = omega (arith, (==_iff _ _).0 (all_below_sound 256 _ x table_range_check h))

-- The cast of `lh_crc16_update` cuts nothing off.
pub update_fits :
    (crc b : ℕ)
    → crc < 2 ^ 16
    → update crc b ≡ bit_xor (crc / 2 ^ 8) (get_or crc16_table (index crc b) 0)
unfolding update
update_fits crc b h =
    omega
      (arith, bit_xor-lt 16 (crc / 2 ^ 8) _ (omega arith) (table-lt (index crc b) (omega arith)))

pub update-lt : (crc b : ℕ) → update crc b < 2 ^ 16
unfolding update
update-lt crc b = omega arith

pub update-bitwise : (crc b : ℕ) → crc < 2 ^ 16 → b < 2 ^ 8 → update crc b ≡ bitwise_update crc b
unfolding bitwise_update
update-bitwise crc b h hb =
    update_fits crc b h
    ∙ ap₂ bit_xor (sym (shift_bits-mul poly 8 (crc / 2 ^ 8))) (table_entry (x % 256) (omega arith))
    ∙ sym (shift_bits-bit_xor poly 8 (crc / 2 ^ 8 * 2 ^ 8) (x % 256))
    ∙ ap (shift_bits poly 8) (
        bit_xor_disjoint 8 (crc / 2 ^ 8) (x % 256) (omega arith)
        ∙ omega (arith, bit_xor-shift 8 crc b hb))
  where
    x : ℕ
    x = bit_xor crc b

crc_loop-bitwise :
    (crc : ℕ) (bytes : List ℕ)
    → crc < 2 ^ 16
    → All (λ b. b < 2 ^ 8) bytes
    → crc_loop crc bytes ≡ bitwise_crc crc bytes
unfolding crc_loop bitwise_crc
crc_loop-bitwise crc [] h hs = refl
crc_loop-bitwise crc (b ∷ bytes) h hs =
    crc_loop-bitwise (update crc b) bytes (update-lt crc b) hs.1
    ∙ ap (λ (c : ℕ). bitwise_crc c bytes) (update-bitwise crc b h hs.0)

-- For every string of bytes, `lh_crc16` with its table gives the remainder of the bit-by-bit
-- division by 0xA001 that starts from 0.
pub crc16-bitwise :
    (bytes : List ℕ) → All (λ b. b < 2 ^ 8) bytes → crc16 (some bytes) ≡ bitwise_crc 0 bytes
unfolding crc16
crc16-bitwise bytes hs = crc_loop-bitwise 0 bytes (omega arith) hs
