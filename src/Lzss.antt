-- ===== src/Lzss.antt =====
-- The LArc methods of Source/src/lh_codec.c: `lh_compress_lzs`, `lh_compress_lz5`, `lh_compress_lz4`
-- and their decompressors. Output is kept in the order in which it is written, newest byte first in
-- the decompressors, where its number of bytes is `outPos`.
pub mod Unpack
pub mod Broken
pub mod Oldest
use lhassa.Base.{
  ℕ, zero, suc, ◌+◌, ◌-◌, ◌*◌, ◌/◌, ◌%◌, ◌^◌, List, [], ◌∷◌, ◌++◌, length, drop, store, ltb, leb,
  ◌==◌, if◌then◌else◌, ◌||◌, ◌&&◌, not,
}
use mathlib.Core.List.{reverse}
use lhassa.Method.{err_no_memory, err_invalid_arg}
use lhassa.Outcome.{Outcome, done, failed, fault, out_of_fuel, bind}
use lhassa.Codec.{copy_over}

-- The window and the place of its next byte.
pub record Ring : Type 0 where
  pub window : ℕ → ℕ
  pub window_pos : ℕ

abbrev pub start_ring : Ring
start_ring = record { window = λ i. 0; window_pos = 0 }

-- What a decompressor has left of its input and has written.
pub record Unpacked : Type 0 where
  pub rest : List ℕ
  pub out : List ℕ
  pub ring : Ring

-- What a compressor has written: the bytes before the flags of the current group, the flags, and the
-- bytes behind them.
pub record Packed : Type 0 where
  pub in_pos : ℕ
  pub rest : List ℕ
  pub before : List ℕ
  pub flags : ℕ
  pub flag_bit : ℕ
  pub group : List ℕ
  pub ring : Ring

module _ (size : ℕ) where
  -- `window[windowPos] = b; windowPos = (windowPos + 1) % size`
  unfoldable pub add_byte : ℕ → Ring → Ring
  add_byte b r = record {
    window = store r.window r.window_pos b;
    window_pos = (r.window_pos + 1) % size;
  }

  -- A byte to the output and the window.
  unfoldable pub write_byte : ℕ → Unpacked → Unpacked
  unfolding add_byte
  write_byte b s = record s { out = b ∷ s.out; ring = add_byte b s.ring }

  -- The first `n` bytes of a text to the window.
  unfoldable pub add_bytes : ℕ → List ℕ → Ring → Ring
  unfolding add_byte
  add_bytes zero bytes r = r
  add_bytes (suc n) [] r = r
  add_bytes (suc n) (b ∷ bytes) r = add_bytes n bytes (add_byte b r)

  -- The bytes from place `j` on that are those of the text, at most `most`.
  unfoldable pub match_length : (ℕ → ℕ) → ℕ → ℕ → List ℕ → ℕ
  match_length window zero j bytes = 0
  match_length window (suc most) j [] = 0
  match_length window (suc most) j (b ∷ bytes) =
      let longer = match_length window most (j + 1) bytes in
      if window (j % size) == b then suc longer else 0

  -- The loop over all places `i`: the longest match and its place; it stops at one of `most`.
  unfoldable pub search_loop : (ℕ → ℕ) → ℕ → List ℕ → ℕ → ℕ → ℕ × ℕ → ℕ × ℕ
  unfolding match_length
  search_loop window most bytes zero i best = best
  search_loop window most bytes (suc rounds) i (best_length, best_offset) =
      let found = match_length window most i bytes in
      let next = λ (b : ℕ × ℕ). search_loop window most bytes rounds (i + 1) b in
      if ltb best_length found
      then (if leb most found then (found, i) else next (found, i))
      else next (best_length, best_offset)

  -- The longest match for what is left of the input; none among its first four bytes.
  unfoldable pub best_match : ℕ → Packed → ℕ × ℕ
  unfolding search_loop
  best_match most s =
      if ltb 3 s.in_pos then search_loop s.ring.window most s.rest size 0 (0, 0) else (0, 0)

  module _ (room : ℕ) where
    -- `outPos`
    abbrev pub written : Packed → ℕ
    written s = length s.before + 1 + length s.group

    -- `if (flagBit == 0)`: a new byte of flags.
    unfoldable pub new_flags : Packed → Outcome Packed
    new_flags s =
        if s.flag_bit == 0
        then (if leb room (written s)
            then failed err_no_memory
            else done (record s {
              before = s.before ++ s.flags ∷ s.group;
              flags = 0;
              flag_bit = 0x80;
              group = [];
            }))
        else done s

    -- A match: its bit among the flags, where it is still 0, and the place and the length in two bytes.
    unfoldable pub pack_match : ℕ → ℕ → Packed → Outcome Packed
    unfolding add_bytes
    pack_match best_length best_offset s =
        if leb room (written s + 1)
        then failed err_no_memory
        else done (record s {
          in_pos = s.in_pos + best_length;
          rest = drop best_length s.rest;
          flags = s.flags + s.flag_bit;
          flag_bit = s.flag_bit / 2;
          group =
              s.group
              ++ (best_offset % 256) ∷ (best_offset / 256 % 16 * 16 + (best_length - 3) % 16) ∷ [];
          ring = add_bytes best_length s.rest s.ring;
        })

    unfoldable pub pack_literal : ℕ → List ℕ → Packed → Outcome Packed
    unfolding add_byte
    pack_literal b rest s =
        if leb room (written s)
        then failed err_no_memory
        else done (record s {
          in_pos = s.in_pos + 1;
          rest = rest;
          flag_bit = s.flag_bit / 2;
          group = s.group ++ b ∷ [];
          ring = add_byte b s.ring;
        })

    -- A match if the best one has three bytes, or the byte itself.
    unfoldable pub pack_best : ℕ → ℕ × ℕ → ℕ → List ℕ → Packed → Outcome Packed
    unfolding pack_match pack_literal
    pack_best most (best_length, best_offset) b rest s =
        if leb 3 best_length then pack_match best_length best_offset s else pack_literal b rest s

    -- `while (inPos < inSize)`, for the input that `s` has left.
    unfoldable pub pack_loop : ℕ → ℕ → List ℕ → Packed → Outcome Packed
    pack_loop most fuel [] s = done s
    pack_loop most zero (b ∷ rest) s = out_of_fuel
    pack_loop most (suc fuel) (b ∷ rest) s =
        bind (new_flags s) λ s'.
          bind (pack_best most (best_match most s') b rest s') λ t. pack_loop most fuel t.rest t

-- `lh_compress_lzs` and `lh_compress_lz5`, which differ in the window's size and the longest match.
unfoldable pub compress_lzss : ℕ → ℕ → List ℕ → ℕ → Outcome (List ℕ)
unfolding pack_loop new_flags pack_best best_match
compress_lzss size most input room =
    let start : Packed = record {
      in_pos = 0;
      rest = input;
      before = [];
      flags = 0;
      flag_bit = 0x80;
      group = [];
      ring = start_ring;
    } in
    if length input == 0 || ltb room (length input)
    then failed err_invalid_arg
    else if ltb room ((length input + length input / 8 + 12) % 2 ^ 32)
    then failed err_no_memory
    else bind (pack_loop size room most (length input) input start)
        λ s. done (s.before ++ s.flags ∷ s.group)

unfoldable pub compress_lzs : List ℕ → ℕ → Outcome (List ℕ)
compress_lzs = compress_lzss 2048 253

unfoldable pub compress_lz5 : List ℕ → ℕ → Outcome (List ℕ)
compress_lz5 = compress_lzss 4096 17
