-- ===== src/Lh1/Bits.antt =====
-- The bit reader of Source/src/lh_lh1dec.c: `struct lh1_bitreader`, `lh1_peek_bits` and
-- `lh1_read_bits`, where an `unsigned long` has 32 bits.
use lhassa.Base.{
  ℕ, zero, suc, ◌+◌, ◌-◌, ◌*◌, ◌/◌, ◌%◌, ◌^◌, List, [], ◌∷◌, ltb, ◌==◌, if◌then◌else◌, bit_or, Bool,
  true, false, Option, none, some, take, drop, length,
}

-- `rest` is the input from `in_pos` on.
pub record BitReader : Type 0 where
  pub rest : List ℕ
  pub bit_buffer : ℕ
  pub bits : ℕ

-- `for (i = 0; i < bytes; i++)`: bytes behind the bits of the buffer.
unfoldable pub add_bytes : List ℕ → BitReader → BitReader
add_bytes [] br = br
add_bytes (b ∷ more) br =
    add_bytes more
      (record br { bit_buffer = bit_or br.bit_buffer (b * 2 ^ (24 - br.bits)); bits = br.bits + 8 })

-- `while (br->bits < n)`, for at most 32 bits: each round adds eight at least, and without a byte
-- there are too few.
unfoldable pub fill_loop : ℕ → ℕ → BitReader → Bool × BitReader
unfolding add_bytes
fill_loop zero n br = (false, br)
fill_loop (suc rounds) n br =
    let fill_bytes = (32 - br.bits) / 8 in
    let more =
      fill_loop rounds n
        (add_bytes (take fill_bytes br.rest) (record br { rest = drop fill_bytes br.rest })) in
    if ltb br.bits n
    then (if length (take fill_bytes br.rest) == 0 then (false, br) else more)
    else (true, br)

-- `lh1_peek_bits`; `none` is its result -1.
unfoldable pub peek_bits : ℕ → BitReader → Option ℕ × BitReader
unfolding fill_loop
peek_bits n br =
    let (filled, br') = fill_loop 5 n br in
    if n == 0
    then (some 0, br)
    else (if filled then some (br'.bit_buffer / 2 ^ (32 - n)) else none, br')

-- `lh1_read_bits`
unfoldable pub read_bits : ℕ → BitReader → Option ℕ × BitReader
unfolding peek_bits
read_bits n br =
    let (result, br') = peek_bits n br in
    (
      result,
      elim result [
        | none ↦ br'
        | some r ↦ record br' { bit_buffer = br'.bit_buffer * 2 ^ n % 2 ^ 32; bits = br'.bits - n }
      ],
    )
