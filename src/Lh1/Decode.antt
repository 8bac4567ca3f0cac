-- ===== src/Lh1/Decode.antt =====
-- `lh1_read_code` and `lh_decompress_lh1` of Source/src/lh_lh1dec.c.
use lhassa.Base.{
  ℕ, zero, suc, ◌+◌, ◌-◌, ◌%◌, ◌^◌, List, [], ◌∷◌, length, store, ltb, ◌==◌, if◌then◌else◌, ◌||◌,
  Bool, Option, none, some,
}
use mathlib.Core.List.{reverse}
use lhassa.Method.{err_invalid_arg, err_no_memory, err_invalid_archive}
use lhassa.Outcome.{Outcome, done, failed, out_of_fuel, bind}
use lhassa.Lh1.{Tree, init_groups, init_tree}
use lhassa.Lh1.Rebuild.{increment_for_code}
use lhassa.Lh1.Bits.{BitReader, read_bits}
use lhassa.Lh1.Offsets.{Offsets, init_offset_table, read_offset, zeros}

-- `while (!d->nodes[node_index].leaf)`; `none` is the end of the input. A walk meets each node at
-- most once, or does not end.
unfoldable pub find_leaf : ℕ → ℕ → Tree → BitReader → Outcome (Option ℕ × BitReader)
unfolding read_bits
find_leaf zero node_index t br = out_of_fuel
find_leaf (suc fuel) node_index t br =
    let (bit, br') = read_bits 1 br in
    let onward : Outcome (Option ℕ × BitReader) = elim bit [
      | none ↦ done (none, br')
      | some b ↦ find_leaf fuel (t.child_index node_index - b) t br'
    ] in
    if t.leaf node_index == 0 then onward else done (some (t.child_index node_index), br)

-- The parts of `struct lh1_dec` that change: the tree, the bits, and the ring with its place; and the
-- text so far, newest byte first.
pub record Decoder : Type 0 where
  pub tree : Tree
  pub br : BitReader
  pub ringbuf : ℕ → ℕ
  pub ringbuf_pos : ℕ
  pub out : List ℕ

-- The code of the leaf that is found is counted.
unfoldable pub count_read : Decoder → Option ℕ × BitReader → Outcome (Option (ℕ × Decoder))
unfolding increment_for_code
count_read d (none, br) = done none
count_read d (some code, br) =
    bind (increment_for_code code d.tree)
      λ tree. done (some (code, record d { tree = tree; br = br }))

-- `lh1_read_code`; `none` is its result 0.
unfoldable pub read_code : Decoder → Outcome (Option (ℕ × Decoder))
unfolding find_leaf count_read
read_code d = bind (find_leaf 628 0 d.tree d.br) (count_read d)

-- `lh1_output_byte`
unfoldable pub output_byte : ℕ → Decoder → Decoder
output_byte b d = record d {
  ringbuf = store d.ringbuf d.ringbuf_pos b;
  ringbuf_pos = (d.ringbuf_pos + 1) % 4096;
  out = b ∷ d.out;
}

-- `for (i = 0; i < count; i++)`
unfoldable pub copy_loop : ℕ → ℕ → ℕ → ℕ → Decoder → Decoder
unfolding output_byte
copy_loop out_size zero start i d = d
copy_loop out_size (suc rounds) start i d =
    let rest =
      copy_loop out_size rounds start (i + 1)
        (output_byte (d.ringbuf ((start + i) % 2 ^ 32 % 4096)) d) in
    if ltb (length d.out) out_size then rest else d

-- A match of a code from 256 on; 3 is `LH1_COPY_THRESHOLD`.
unfoldable pub copy_match : ℕ → ℕ → ℕ → Decoder → Decoder
unfolding copy_loop
copy_match out_size code offset d =
    copy_loop out_size (code - 0x100 + 3) ((d.ringbuf_pos + 2 ^ 32 - offset + 4096 - 1) % 2 ^ 32) 0
      d

module _ (out_size : ℕ) (next : Decoder → Outcome (List ℕ)) where
  -- What follows the offset of a match, and what follows a code.
  unfoldable pub after_offset : ℕ → Decoder → Option ℕ × BitReader → Outcome (List ℕ)
  unfolding copy_match
  after_offset code d (none, br) = failed err_invalid_archive
  after_offset code d (some offset, br) =
      next (copy_match out_size code offset (record d { br = br }))

  unfoldable pub after_code : Offsets → Option (ℕ × Decoder) → Outcome (List ℕ)
  unfolding output_byte after_offset read_offset
  after_code o none = failed err_invalid_archive
  after_code o (some (code, d)) =
      let literal = next (output_byte code d) in
      let match = after_offset code d (read_offset o d.br) in
      if ltb code 0x100 then literal else match

-- `while (out_pos < outSize)`: each round writes a byte at least.
unfoldable pub decode_loop : ℕ → ℕ → Offsets → Decoder → Outcome (List ℕ)
unfolding read_code after_code
decode_loop out_size zero o d = if ltb (length d.out) out_size then out_of_fuel else done d.out
decode_loop out_size (suc fuel) o d =
    let round = bind (read_code d) (after_code out_size (decode_loop out_size fuel o) o) in
    if ltb (length d.out) out_size then round else done d.out

-- The zeroed structure, with its first tree and a ring full of blanks.
unfoldable pub start_decoder : List ℕ → Decoder
unfolding init_groups init_tree
start_decoder input = record {
  tree = init_tree (
      init_groups (record {
        leaf = zeros;
        child_index = zeros;
        parent = zeros;
        freq = zeros;
        group = zeros;
        leaf_nodes = zeros;
        groups = zeros;
        num_groups = 0;
        group_leader = zeros;
      }));
  br = record { rest = input; bit_buffer = 0; bits = 0 };
  ringbuf = λ i. b' ';
  ringbuf_pos = 0;
  out = [];
}

-- `sizeof(struct lh1_dec)` where a pointer has four bytes and is aligned to two.
abbrev pub sizeof_lh1_dec : ℕ
sizeof_lh1_dec = 13850

-- `lh_decompress_lh1` into a buffer of `out_size` bytes.
unfoldable pub decompress_lh1 : (ℕ → Bool) → List ℕ → ℕ → Outcome (List ℕ)
unfolding decode_loop start_decoder init_offset_table
decompress_lh1 malloc_ok input out_size =
    if length input == 0 || out_size == 0
    then failed err_invalid_arg
    else if malloc_ok sizeof_lh1_dec
    then (bind (decode_loop out_size out_size init_offset_table (start_decoder input))
        λ out. done (reverse out))
    else failed err_no_memory
