-- ===== src/Lh5/Decode.antt =====
-- `lh5_decode_c`, `lh5_decode_p` and `lh_decompress_lh_new` of Source/src/lh_lh5dec.c, with the
-- methods that call it: symbols and positions, and the ring of the text.
use lhassa.Base.{
  ℕ, zero, suc, ◌+◌, ◌-◌, ◌/◌, ◌%◌, ◌^◌, List, [], ◌∷◌, length, store, ltb, leb, ◌==◌,
  if◌then◌else◌, ◌||◌, Bool,
}
use mathlib.Core.List.{reverse}
use lhassa.Method.{err_no_memory, err_invalid_arg}
use lhassa.Outcome.{Outcome, done, failed, out_of_fuel, ◌>>=◌, ◌>>◌, pure, lift, modify, with_state}
use lhassa.Lh5.{Lh5Dec, fillbuf, getbits, init_getbits}
use lhassa.Lh5.Lengths.{walk, walk_fuel, read_pt_len, read_c_len}

-- The head of a block: `if (d->blocksize == 0)`. `0xffff` is the `-1` that no index equals.
pub read_block : Lh5Dec → Outcome (Unit {0}) × Lh5Dec
read_block d =
    if d.blocksize == 0
    then (do
      size ← getbits 16
      modify (λ d'. record d' { blocksize = size })
      read_pt_len 19 5 3
      read_c_len
      with_state (λ d'. read_pt_len d'.np d'.pbit 0xffff))
        d
    else (done tt, d)

-- A symbol by the table of `bits` bits, or by a walk from its entry.
pub symbol_c : Lh5Dec → Outcome ℕ × Lh5Dec
unfolding walk
symbol_c d =
    let first = d.c_table (d.bitbuf / 2 ^ 4) in
    if ltb first 510
    then (do fillbuf (d.c_len first); pure first) d
    else (do
      fillbuf 12
      j ← with_state (λ d'. lift (walk walk_fuel 510 16 first d'))
      with_state (λ d'. fillbuf ((d'.c_len j + 2 ^ 8 - 12) % 2 ^ 8))
      pure j)
        d

-- `lh5_decode_c`
unfoldable pub decode_c : Lh5Dec → Outcome ℕ × Lh5Dec
unfolding read_block symbol_c
decode_c = do
  read_block
  modify (λ d. record d { blocksize = (d.blocksize + 2 ^ 16 - 1) % 2 ^ 16 })
  symbol_c

unfoldable pub symbol_p : Lh5Dec → Outcome ℕ × Lh5Dec
unfolding walk
symbol_p d =
    let first = d.pt_table (d.bitbuf / 2 ^ 8) in
    if ltb first d.np
    then (do fillbuf (d.pt_len first); pure first) d
    else (do
      fillbuf 8
      j ← with_state (λ d'. lift (walk walk_fuel d'.np 16 first d'))
      with_state (λ d'. fillbuf ((d'.pt_len j + 2 ^ 8 - 8) % 2 ^ 8))
      pure j)
        d

-- `lh5_decode_p`; the position is an `unsigned short`.
unfoldable pub decode_p : Lh5Dec → Outcome ℕ × Lh5Dec
unfolding symbol_p
decode_p = do
  j ← symbol_p
  if j == 0 then pure 0 else (do low ← getbits (j - 1); pure ((2 ^ (j - 1) + low) % 2 ^ 16))

-- The ring and the output, newest byte first; `count` is the number of its bytes.
pub record Window : Type 0 where
  pub text : ℕ → ℕ
  pub loc : ℕ
  pub count : ℕ
  pub out : List ℕ

module _ (dicsiz : ℕ) where
  -- A byte into the ring and the output.
  unfoldable pub emit : ℕ → Window → Window
  emit b w = record w {
    text = store w.text w.loc b;
    loc = if w.loc + 1 == dicsiz then 0 else w.loc + 1;
    count = w.count + 1;
    out = b ∷ w.out;
  }

module _ (dicsiz out_size : ℕ) where
  -- `for (k = 0; k < j; k++)` with its `break`; `i & dicsiz1` is the remainder by a power of 2.
  unfoldable pub copy_match : ℕ → ℕ → ℕ → Window → Window
  copy_match zero i k w = w
  copy_match (suc rounds) i k w =
      let w' = emit dicsiz (w.text ((i + k) % 2 ^ 32 % dicsiz)) w in
      let rest = copy_match rounds i (k + 1) w' in if leb out_size w'.count then w' else rest

  -- The match of a symbol above 255: `offset` is 0x100 - 3.
  unfoldable pub put_match : ℕ → ℕ → Window → Window
  put_match c p w = copy_match (c - 253) ((w.loc + 2 ^ 32 - p - 1) % 2 ^ 32 % dicsiz) 0 w

  -- `while (count < outSize)`
  unfoldable pub decode_loop : ℕ → Window → Lh5Dec → Outcome Window × Lh5Dec
  decode_loop zero w d = if ltb w.count out_size then (out_of_fuel, d) else (done w, d)
  decode_loop (suc fuel) w d =
      let literal = λ (c : ℕ). decode_loop fuel (emit dicsiz c w) in
      let match = λ (c p : ℕ). decode_loop fuel (put_match c p w) in
      if ltb w.count out_size
      then (do c ← decode_c; if leb c 255 then literal c else (do p ← decode_p; match c p)) d
      else (done w, d)

abbrev no_entries : ℕ → ℕ
no_entries i = 0

-- `memset(dec, 0, sizeof(*dec))` and what follows it.
unfoldable pub start_dec : List ℕ → ℕ → ℕ → Lh5Dec
start_dec input np pbit = record {
  input = input;
  in_size = length input;
  in_pos = 0;
  compsize = length input;
  bitbuf = 0;
  subbitbuf = 0;
  bitcount = 0;
  blocksize = 0;
  np = np;
  pbit = pbit;
  left = no_entries;
  right = no_entries;
  c_len = no_entries;
  pt_len = no_entries;
  c_table = no_entries;
  pt_table = no_entries;
}

-- The ring full of blanks.
unfoldable pub start_window : Window
start_window = record { text = λ i. b' '; loc = 0; count = 0; out = [] }

-- `sizeof(struct lh5_dec)` where a pointer has four bytes and is aligned to two.
abbrev pub sizeof_lh5_dec : ℕ
sizeof_lh5_dec = 13444

module _ (malloc_ok : ℕ → Bool) where
  -- `lh_decompress_lh_new` into a buffer that holds `buffer`. A round of the loop gives a byte at
  -- least, so `outSize` rounds are enough.
  unfoldable pub decompress_lh_new : ℕ → ℕ → ℕ → List ℕ → List ℕ → Outcome (List ℕ)
  unfolding decode_loop emit put_match copy_match start_dec start_window
  decompress_lh_new dicbit pbit np input buffer =
      let dicsiz = 2 ^ dicbit in
      let out_size = length buffer in
      if length input == 0
        || out_size == 0
        || ltb dicbit 12
        || ltb 20 dicbit
        || ltb pbit 4
        || ltb 5 pbit
        || np == 0
        || ltb 0x80 np
      then failed err_invalid_arg
      else if malloc_ok dicsiz
      then (if malloc_ok sizeof_lh5_dec
          then ((do
            init_getbits
            w ← decode_loop dicsiz out_size out_size start_window
            pure (reverse w.out))
              (start_dec input np pbit)).0
          else failed err_no_memory)
      else failed err_no_memory

  unfoldable pub decompress_lh4 : List ℕ → List ℕ → Outcome (List ℕ)
  decompress_lh4 = decompress_lh_new 12 4 13

  unfoldable pub decompress_lh5 : List ℕ → List ℕ → Outcome (List ℕ)
  decompress_lh5 = decompress_lh_new 13 4 14

  unfoldable pub decompress_lh6 : List ℕ → List ℕ → Outcome (List ℕ)
  decompress_lh6 = decompress_lh_new 15 5 16

  unfoldable pub decompress_lh7 : List ℕ → List ℕ → Outcome (List ℕ)
  decompress_lh7 = decompress_lh_new 16 5 17

  unfoldable pub decompress_lhx : List ℕ → List ℕ → Outcome (List ℕ)
  decompress_lhx = decompress_lh_new 20 5 31
