-- ===== src/Lzhuf/Decode.antt =====
-- `lhz_decode_char` and `lh_lzhuf_decode` of Source/src/lh_lzhuf.c.
use lhassa.Base.{
  ℕ, zero, suc, ◌+◌, ◌-◌, ◌%◌, ◌^◌, List, [], ◌∷◌, length, store, ltb, ◌==◌, if◌then◌else◌, ◌||◌,
}
use mathlib.Core.List.{reverse}
use lhassa.Outcome.{Outcome, done, out_of_fuel, bind}
use lhassa.Lzhuf.{Tree, table_size, root, start_huff, update}
use lhassa.Lzhuf.Bits.{Input, getbit, getbyte, more_bits, decode_position}
use lhassa.Lzhuf.Table.{d_code, d_len}

-- `while (c < LHZ_T)`: from node to node, down to a leaf.
unfoldable pub walk_down : ℕ → ℕ → Tree → Input → Outcome (ℕ × Input)
walk_down zero c t d = out_of_fuel
walk_down (suc fuel) c t d =
    let (b, d') = getbit d in
    let rest = walk_down fuel (t.son (c + b)) t d' in
    if ltb c table_size then rest else done (c - table_size, d)

-- The walk of `lhz_decode_char`: it meets each node at most once, or does not end.
unfoldable pub find_char : Tree → Input → Outcome (ℕ × Input)
unfolding walk_down
find_char t d = walk_down (table_size + 1) (t.son root) t d

pub record Decoder : Type 0 where
  pub tree : Tree
  pub input : Input

-- `lhz_decode_char`
unfoldable pub decode_char : Decoder → Outcome (ℕ × Decoder)
unfolding find_char update
decode_char d =
    bind (find_char d.tree d.input)
      λ (c, input). bind (update c d.tree) λ tree. done (c, record { tree = tree; input = input })

-- The ring of 4096 bytes, its place `r`, and the text so far, newest byte first.
pub record Text : Type 0 where
  pub text_buf : ℕ → ℕ
  pub r : ℕ
  pub out : List ℕ

unfoldable pub emit : ℕ → Text → Text
emit c w = record { text_buf = store w.text_buf w.r c; r = (w.r + 1) % 4096; out = c ∷ w.out }

-- `for (k = 0; k < j && count < textsize; k++)`
unfoldable pub copy_match : ℕ → ℕ → ℕ → ℕ → Text → Text
unfolding emit
copy_match textsize zero i k w = w
copy_match textsize (suc rounds) i k w =
    let rest = copy_match textsize rounds i (k + 1) (emit (w.text_buf ((i + k) % 4096)) w) in
    if ltb (length w.out) textsize then rest else w

module _ (textsize : ℕ) (next : Text → Decoder → Outcome (List ℕ)) where
  -- What follows the position of a match, and what follows a character.
  unfoldable pub after_position : ℕ → Text → Decoder → ℕ × Input → Outcome (List ℕ)
  unfolding copy_match
  after_position c w d (p, input) =
      next (copy_match textsize (c - 255 + 2) ((w.r + 2 ^ 32 - p - 1) % 2 ^ 32 % 4096) 0 w)
        (record d { input = input })

  unfoldable pub after_char : Text → ℕ × Decoder → Outcome (List ℕ)
  unfolding emit after_position decode_position
  after_char w (c, d) =
      let literal = next (emit c w) d in
      let match = after_position c w d (decode_position d.input) in
      if ltb c 256 then literal else match

-- `for (count = 0; count < textsize; )`; each round writes a byte at least.
unfoldable pub decode_loop : ℕ → ℕ → Text → Decoder → Outcome (List ℕ)
unfolding decode_char after_char getbyte getbit more_bits d_code d_len
decode_loop textsize zero w d = if ltb (length w.out) textsize then out_of_fuel else done w.out
decode_loop textsize (suc fuel) w d =
    let round = bind (decode_char d) (after_char textsize (decode_loop textsize fuel) w) in
    if ltb (length w.out) textsize then round else done w.out

abbrev pub no_nodes : ℕ → ℕ
no_nodes i = 0

-- The zeroed arrays, with the first tree.
unfoldable pub start_decoder : List ℕ → Decoder
unfolding start_huff
start_decoder input = record {
  tree = start_huff (record { freq = no_nodes; prnt = no_nodes; son = no_nodes });
  input = record { getbuf = 0; getlen = 0; rest = input };
}

-- The last sixty bytes of the ring are what the stack holds.
unfoldable pub start_text : (ℕ → ℕ) → Text
start_text stack = record {
  text_buf = λ i. if ltb i 4036 then b' ' else stack i;
  r = 4036;
  out = [];
}

-- `sizeof(lh_lzhuf_dec)` where a pointer has four bytes and is aligned to two.
abbrev pub sizeof_lzhuf_dec : ℕ
sizeof_lzhuf_dec = 4408

-- `lh_lzhuf_decode` of an input into `dst_size` bytes with `aux_size` bytes to work in: the text,
-- or nothing where it returns 0 at once.
unfoldable pub lzhuf_decode : (ℕ → ℕ) → List ℕ → ℕ → ℕ → Outcome (List ℕ)
unfolding decode_loop start_decoder start_text
lzhuf_decode stack input dst_size aux_size =
    if length input == 0 || dst_size == 0 || ltb aux_size sizeof_lzhuf_dec
    then done []
    else bind (decode_loop dst_size dst_size (start_text stack) (start_decoder input))
        λ out. done (reverse out)
