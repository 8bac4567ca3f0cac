-- ===== src/Lzss/Unpack.antt =====
-- `lh_decompress_lzs`, `lh_decompress_lz5` and both functions of the LZ4 method, which copies, in
-- Source/src/lh_codec.c.
use lhassa.Base.{
  ℕ, zero, suc, ◌+◌, ◌*◌, ◌/◌, ◌%◌, List, [], ◌∷◌, length, ltb, leb, ◌==◌, if◌then◌else◌, ◌||◌, not,
}
use mathlib.Core.List.{reverse}
use lhassa.Method.{err_invalid_arg}
use lhassa.Outcome.{Outcome, done, failed, out_of_fuel, bind}
use lhassa.Lzss.{Unpacked, start_ring, write_byte}

-- The place and the length that two bytes of a match stand for.
abbrev pub match_offset : ℕ → ℕ → ℕ
match_offset low high = low + high / 16 * 256

abbrev pub match_count : ℕ → ℕ
match_count high = high % 16 + 3

-- The bytes of a match in `lh_decompress_lzs`, which must all fit.
unfoldable pub copy_lzs : ℕ → ℕ → ℕ → Unpacked → Outcome Unpacked
copy_lzs out_size zero place s = done s
copy_lzs out_size (suc n) place s =
    let rest = copy_lzs out_size n (place + 1) (write_byte 2048 (s.ring.window (place % 2048)) s) in
    if leb out_size (length s.out) then failed err_invalid_arg else rest

-- The bytes of a match in `lh_decompress_lz5`, as far as they fit.
unfoldable pub copy_lz5 : ℕ → ℕ → ℕ → Unpacked → Unpacked
copy_lz5 out_size zero place s = s
copy_lz5 out_size (suc n) place s =
    let rest = copy_lz5 out_size n (place + 1) (write_byte 4096 (s.ring.window (place % 4096)) s) in
    if leb out_size (length s.out) then s else rest

-- A round of `lh_decompress_lzs` behind its flags: `leave` is its `break`.
pub data Round : Type 0 where
  go_on : Unpacked → Round
  leave : Unpacked → Round

unfoldable pub match_lzs : ℕ → List ℕ → Unpacked → Outcome Round
unfolding copy_lzs
match_lzs out_size [] s = done (leave s)
match_lzs out_size (low ∷ []) s = done (leave s)
match_lzs out_size (low ∷ high ∷ rest) s =
    bind (copy_lzs out_size (match_count high) (match_offset low high) (record s { rest = rest }))
      λ t. done (go_on t)

unfoldable pub literal_lzs : ℕ → List ℕ → Unpacked → Outcome Round
literal_lzs out_size [] s = done (leave s)
literal_lzs out_size (b ∷ rest) s =
    if leb out_size (length s.out)
    then failed err_invalid_arg
    else done (go_on (write_byte 2048 b (record s { rest = rest })))

unfoldable pub match_lz5 : ℕ → List ℕ → Unpacked → Outcome Round
unfolding copy_lz5
match_lz5 out_size [] s = done (leave s)
match_lz5 out_size (low ∷ []) s = done (leave s)
match_lz5 out_size (low ∷ high ∷ rest) s = done (
    go_on (copy_lz5 out_size (match_count high) (match_offset low high) (record s { rest = rest })))

unfoldable pub literal_lz5 : ℕ → List ℕ → Unpacked → Outcome Round
literal_lz5 out_size [] s = done (leave s)
literal_lz5 out_size (b ∷ rest) s =
    if ltb (length s.out) out_size
    then done (go_on (write_byte 4096 b (record s { rest = rest })))
    else done (go_on (record s { rest = rest }))

-- What follows a round.
abbrev pub after_round : (Unpacked → Outcome Unpacked) → Round → Outcome Unpacked
after_round f (Round.go_on t) = f t
after_round f (Round.leave t) = done t

-- Both loops, `while (inPos < inSize && outPos < outSize)`: `mask` is `flagBit` in LZ5. The flags
-- and the mask are read where the mask is 0.
module _ (out_size : ℕ) (on_match on_literal : ℕ → List ℕ → Unpacked → Outcome Round) where
  unfoldable pub unpack_loop : ℕ → ℕ → ℕ → List ℕ → Unpacked → Outcome Unpacked
  unpack_loop fuel flags mask [] s = done s
  unpack_loop zero flags mask (b ∷ rest) s =
      if ltb (length s.out) out_size then out_of_fuel else done s
  unpack_loop (suc fuel) flags mask (b ∷ rest) s =
      let flags' = if mask == 0 then b else flags in
      let mask' = if mask == 0 then 0x80 else mask in
      let rest' = if mask == 0 then rest else b ∷ rest in
      let s' = record s { rest = rest' } in
      let on_bit = if flags' / mask' % 2 == 1 then on_match else on_literal in
      let next = after_round (λ t. unpack_loop fuel flags' (mask' / 2) t.rest t) in
      if ltb (length s.out) out_size then bind (on_bit out_size rest' s') next else done s

-- `return (outPos == outSize) ? LH_OK : LH_ERR_INVALID_ARG;`
unfoldable pub finish : ℕ → Unpacked → Outcome (List ℕ)
finish out_size s =
    if length s.out == out_size then done (reverse s.out) else failed err_invalid_arg

-- A call into a buffer that holds `buffer`. A round takes a byte of the input at least, so as many
-- rounds as it has bytes are enough.
unfoldable pub decompress_lzs : List ℕ → List ℕ → Outcome (List ℕ)
unfolding unpack_loop match_lzs literal_lzs finish
decompress_lzs input buffer =
    let out_size = length buffer in
    let start : Unpacked = record { rest = input; out = []; ring = start_ring } in
    if length input == 0 || out_size == 0
    then failed err_invalid_arg
    else bind (unpack_loop out_size match_lzs literal_lzs (length input) 0 0 input start)
        (finish out_size)

-- The mask starts at 0x80 and the flags at 0.
unfoldable pub decompress_lz5 : List ℕ → List ℕ → Outcome (List ℕ)
unfolding unpack_loop match_lz5 literal_lz5 finish
decompress_lz5 input buffer =
    let out_size = length buffer in
    let start : Unpacked = record { rest = input; out = []; ring = start_ring } in
    if length input == 0 || out_size == 0
    then failed err_invalid_arg
    else bind (unpack_loop out_size match_lz5 literal_lz5 (length input) 0 0x80 input start)
        (finish out_size)

unfoldable pub compress_lz4 : List ℕ → ℕ → Outcome (List ℕ)
compress_lz4 input room =
    if length input == 0 || ltb room (length input) then failed err_invalid_arg else done input

unfoldable pub decompress_lz4 : List ℕ → List ℕ → Outcome (List ℕ)
decompress_lz4 input buffer =
    if length input == 0 || length buffer == 0 || not (length input == length buffer)
    then failed err_invalid_arg
    else done input
