-- ===== src/Examples/Compressed.antt =====
-- Tests of the decompressors, and the instances of their properties.
use lhassa.Base.{ℕ, ◌<◌, ◌≡◌, ◌≢◌, ◌^◌, refl, arith, List, [], ◌∷◌, Bool, true}
use mathlib.Core.List.{reverse}
use lhassa.Outcome.{done, ◌>>=◌, ◌>>◌, pure}
use lhassa.Lh5.{Lh5Dec, init_getbits, getbits}
use lhassa.Lh5.Table.{make_table}
use lhassa.Lh5.Lengths.{read_pt_len, read_c_len}
use lhassa.Lh5.Decode.{
  decompress_lh5, decompress_lh_new, decode_c, decode_p, decode_loop, start_dec, start_window,
}
use lhassa.Lh5.Stream.Reads.{getbits-fields, read_fields, fields}
use lhassa.Lh5.History.{decompress_lh_new-history, history_loop}
use lhassa.Lh5.Rounds.{decode_loop_fuel}
use lhassa.Lh5.Positions.{decode_p-lt_pow}
use lhassa.Lzss.{compress_lz5, compress_lzss}
use lhassa.Lzss.Unpack.{decompress_lz5}
use lhassa.Lzss.Oldest.{decompress_lz5-ne}

abbrev always : ℕ → Bool
always n = true

-- One block of three equal symbols.
three_as :
    decompress_lh5 always (0 ∷ 3 ∷ 0 ∷ 0 ∷ 4 ∷ 16 ∷ 0 ∷ []) (0 ∷ 0 ∷ 0 ∷ [])
    ≡ done (65 ∷ 65 ∷ 65 ∷ [])
unfolding decompress_lh5 decompress_lh_new init_getbits decode_c getbits read_pt_len read_c_len
three_as = refl

-- A literal and a match of length three at distance one.
with_match :
    decompress_lh5 always (0 ∷ 2 ∷ 32 ∷ 4 ∷ 48 ∷ 16 ∷ 182 ∷ 85 ∷ 64 ∷ 16 ∷ []) (0 ∷ 0 ∷ 0 ∷ 0 ∷ [])
    ≡ done (65 ∷ 65 ∷ 65 ∷ 65 ∷ [])
unfolding decompress_lh5 decompress_lh_new init_getbits decode_c getbits read_pt_len make_table
    read_c_len decode_p
with_match = refl

abbrev packed_match : List ℕ
packed_match = 0 ∷ 2 ∷ 32 ∷ 4 ∷ 48 ∷ 16 ∷ 182 ∷ 85 ∷ 64 ∷ 16 ∷ []

abbrev four : List ℕ
four = 0 ∷ 0 ∷ 0 ∷ 0 ∷ []

getbits-fields_example :
    ((do init_getbits; read_fields (3 ∷ 16 ∷ 5 ∷ [])) (start_dec (0xa5 ∷ 0x0f ∷ []) 14 4)).0
    ≡ done (fields (0xa5 ∷ 0x0f ∷ []) 0 (3 ∷ 16 ∷ 5 ∷ []))
getbits-fields_example =
    getbits-fields (0xa5 ∷ 0x0f ∷ []) (3 ∷ 16 ∷ 5 ∷ []) 14 4 (omega arith) (omega arith)

decompress_lh_new-history_example :
    decompress_lh_new always 13 4 14 packed_match four
    ≡ ((do init_getbits; h ← history_loop 4 (2 ^ 13) 4 []; pure (reverse h))
        (start_dec packed_match 14 4)).0
decompress_lh_new-history_example =
    decompress_lh_new-history always 13 4 14 packed_match four (record {
      some_input = omega arith;
      some_room = omega arith;
      ring_bits = (omega arith, omega arith);
      count_bits = (omega arith, omega arith);
      positions = (omega arith, omega arith);
      ring = refl;
      tables = refl;
    })

decode_loop_fuel_example :
    decode_loop 8192 4 100 start_window (start_dec packed_match 14 4)
    ≡ decode_loop 8192 4 4 start_window (start_dec packed_match 14 4)
decode_loop_fuel_example =
    decode_loop_fuel 8192 4 4 100 start_window (start_dec packed_match 14 4) (omega arith)
      (omega arith)

-- The code 3 without bits, and two bits that are set.
abbrev code_three : Lh5Dec
code_three = record (start_dec [] 14 4) { bitbuf = 0xffff; pt_table = λ i. 3 }

code_three_read : decode_p code_three ≡ (done 7, (decode_p code_three).1)
unfolding decode_p getbits start_dec
code_three_read = refl

decode_p-lt_pow_example : 7 < 2 ^ 13
unfolding start_dec
decode_p-lt_pow_example = decode_p-lt_pow code_three (decode_p code_three).1 7 code_three_read

packed_two : compress_lz5 (65 ∷ 66 ∷ []) 100 ≡ done (0 ∷ 65 ∷ 66 ∷ [])
unfolding compress_lz5 compress_lzss
packed_two = refl

decompress_lz5-ne_example : decompress_lz5 (0 ∷ 65 ∷ 66 ∷ []) (0 ∷ 0 ∷ []) ≢ done (65 ∷ 66 ∷ [])
decompress_lz5-ne_example =
    decompress_lz5-ne 65 100 (66 ∷ []) (0 ∷ 65 ∷ 66 ∷ []) (0 ∷ 0 ∷ []) (omega arith) packed_two
