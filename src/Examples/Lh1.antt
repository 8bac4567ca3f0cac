-- ===== src/Examples/Lh1.antt =====
-- Tests of the LH1 decompressor.
use lhassa.Base.{ℕ, ◌≡◌, refl, [], ◌∷◌, Bool, true, get_or, arith}
use lhassa.Outcome.{done, bind}
use lhassa.Lzhuf.Encode.{lzhuf_encode}
use lhassa.Lzhuf.Table.{d_code, d_len}
use lhassa.Lh1.Offsets.{init_offset_table}
use lhassa.Lh1.SameCodes.{offset_lookup-d_code}
use lhassa.Lh1.Decode.{decompress_lh1, decode_loop, start_decoder}
use lhassa.Lh1.Rounds.{decode_loop_enough}

abbrev has_room : ℕ → Bool
has_room n = true

-- What the compressor of LZHUF writes is what LH1 reads: a literal, and a match.
match_back :
    bind
      (lzhuf_encode (65 ∷ 66 ∷ 65 ∷ 66 ∷ 65 ∷ 66 ∷ 65 ∷ []) 100 40000)
      (λ p. decompress_lh1 has_room p 7)
    ≡ done (65 ∷ 66 ∷ 65 ∷ 66 ∷ 65 ∷ 66 ∷ 65 ∷ [])
unfolding lzhuf_encode decompress_lh1
match_back = refl

offset_lookup-d_code_example :
    (init_offset_table.offset_lookup 0x47 ≡ get_or d_code 0x47 0)
    × (init_offset_table.offset_lengths (init_offset_table.offset_lookup 0x47)
        ≡ get_or d_len 0x47 0)
offset_lookup-d_code_example = offset_lookup-d_code 0x47 (omega arith)

decode_loop_enough_example :
    decode_loop 7 100 init_offset_table (start_decoder (0xe6 ∷ 0x80 ∷ []))
    ≡ decode_loop 7 7 init_offset_table (start_decoder (0xe6 ∷ 0x80 ∷ []))
unfolding start_decoder
decode_loop_enough_example =
    decode_loop_enough 7 7 100 init_offset_table (start_decoder (0xe6 ∷ 0x80 ∷ [])) (omega arith)
      (omega arith)
