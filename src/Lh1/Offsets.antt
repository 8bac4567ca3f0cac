-- ===== src/Lh1/Offsets.antt =====
-- The codes of offsets in Source/src/lh_lh1dec.c: `lh1_init_offset_table` and `lh1_read_offset`.
use lhassa.Base.{
  ℕ, zero, suc, ◌+◌, ◌-◌, ◌*◌, ◌%◌, ◌^◌, List, [], ◌∷◌, store, bit_or, Option, none, some,
}
use lhassa.Lh1.Bits.{BitReader, peek_bits, read_bits}

-- `offset_lookup` and `offset_lengths`, and the next code and offset while they are made.
pub record Offsets : Type 0 where
  pub offset_lookup : ℕ → ℕ
  pub offset_lengths : ℕ → ℕ
  pub code : ℕ
  pub offset : ℕ

-- `lh1_offset_fdist`
unfoldable pub offset_fdist : List ℕ
offset_fdist = 1 ∷ 3 ∷ 8 ∷ 12 ∷ 24 ∷ 16 ∷ []

-- `lh1_fill_offset_range`: the mask is one less than `rounds`, a power of 2.
unfoldable pub fill_offset_range : ℕ → ℕ → ℕ → ℕ → (ℕ → ℕ) → ℕ → ℕ
fill_offset_range zero i code offset lookup = lookup
fill_offset_range (suc rounds) i code offset lookup =
    fill_offset_range rounds (i + 1) code offset (store lookup (bit_or code i) offset)

-- `for (j = 0; j < lh1_offset_fdist[i]; j++)`, for codes of `len` bits.
unfoldable pub length_loop : ℕ → ℕ → Offsets → Offsets
unfolding fill_offset_range
length_loop zero len o = o
length_loop (suc rounds) len o =
    let iterbit = 2 ^ (8 - len) in
    length_loop rounds len (record {
      offset_lookup = fill_offset_range iterbit 0 o.code o.offset o.offset_lookup;
      offset_lengths = store o.offset_lengths o.offset len;
      code = (o.code + iterbit) % 2 ^ 8;
      offset = (o.offset + 1) % 2 ^ 8;
    })

unfoldable pub lengths_loop : List ℕ → ℕ → Offsets → Offsets
unfolding length_loop
lengths_loop [] len o = o
lengths_loop (n ∷ more) len o = lengths_loop more (len + 1) (length_loop n len o)

abbrev pub zeros : ℕ → ℕ
zeros i = 0

-- `lh1_init_offset_table` in zeroed arrays; 3 is `LH1_MIN_OFFSET_LEN`.
unfoldable pub init_offset_table : Offsets
unfolding lengths_loop offset_fdist
init_offset_table =
    lengths_loop offset_fdist 3
      (record { offset_lookup = zeros; offset_lengths = zeros; code = 0; offset = 0 })

-- `lh1_read_offset`; `none` is its result 0.
unfoldable pub read_offset : Offsets → BitReader → Option ℕ × BitReader
unfolding peek_bits read_bits
read_offset o br =
    let (future, br') = peek_bits 8 br in
    elim future [
      | none ↦ (none, br')
      | some b ↦
          let offset = o.offset_lookup b in
          let (_, br'') = read_bits (o.offset_lengths offset) br' in
          let (offset2, br''') = read_bits 6 br'' in
          (elim offset2 [ none ↦ none | some low ↦ some (bit_or (offset * 2 ^ 6) low) ], br''')
    ]
