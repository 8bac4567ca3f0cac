-- ===== src/Lzhuf/Encode.antt =====
-- `lhz_encode_char` and `lh_lzhuf_encode` of Source/src/lh_lzhuf.c.
use lhassa.Base.{
  ℕ, zero, suc, ◌+◌, ◌-◌, ◌*◌, ◌/◌, ◌%◌, ◌^◌, List, [], ◌∷◌, length, store, fill, ltb, leb, ◌==◌,
  if◌then◌else◌, ◌||◌, Option, none, some,
}
use lhassa.Outcome.{Outcome, done, out_of_fuel, bind}
use lhassa.Lzhuf.{Tree, table_size, root, start_huff, update}
use lhassa.Lzhuf.Bits.{Output, putcode, encode_position, encode_end}
use lhassa.Lzhuf.Dictionary.{Dictionary, init_tree, insert_node, delete_node}

-- `do { i >>= 1; if (k & 1) i += 0x8000; j++; k = prnt[k]; } while (k != LHZ_R);`: the code, its
-- upper bits first, and its length.
unfoldable pub climb : ℕ → ℕ → ℕ → ℕ → (ℕ → ℕ) → Outcome (ℕ × ℕ)
climb zero k i j prnt = out_of_fuel
climb (suc fuel) k i j prnt =
    let i' = i / 2 + k % 2 * 2 ^ 15 in
    let rest = climb fuel (prnt k) i' (j + 1) prnt in
    if prnt k == root then done (i', j + 1) else rest

-- `lhz_encode_char`; the climb meets each node at most once, or does not end. `none` is the result 0.
unfoldable pub encode_char : ℕ → Tree → Output → Outcome (Option (Tree × Output))
unfolding climb update
encode_char c t o = bind (climb table_size (t.prnt (c + table_size)) 0 0 t.prnt) λ (i, j).
    elim (putcode j i o) [
      | none ↦ done none
      | some o' ↦ bind (update c t) λ t'. done (some (t', o'))
    ]

pub record Encoder : Type 0 where
  pub dictionary : Dictionary
  pub tree : Tree
  pub output : Output
  pub rest : List ℕ
  pub s : ℕ
  pub r : ℕ
  pub len : ℕ

abbrev put_char : ℕ → Encoder → Outcome (Option Encoder)
put_char c e =
    bind (encode_char c e.tree e.output)
      λ o. done (elim o [ none ↦ none | some (t, o') ↦ some (record e { tree = t; output = o' }) ])

-- The symbol for the match at `r`, or for the byte there, and how many bytes it stands for.
unfoldable pub encode_match : Encoder → Outcome (Option (Encoder × ℕ))
unfolding encode_char encode_position
encode_match e =
    let d = e.dictionary in
    let long = if ltb e.len d.match_length then e.len else d.match_length in
    if leb long 2
    then (bind (put_char (d.text_buf e.r) e) λ o. done (elim o [
      | none ↦ none
      | some e' ↦ some (record e' { dictionary = record d { match_length = 1 } }, 1)
    ]))
    else (bind (put_char (253 + long) e) λ o. elim o [
      | none ↦ done none
      | some e' ↦ done (elim (encode_position d.match_position e'.output) [
        | none ↦ none
        | some out ↦
            some (record e' { output = out; dictionary = record d { match_length = long } }, long)
      ])
    ])

-- The text moves on by a byte: `s` and `r` go round the ring.
abbrev step_ring : Encoder → Encoder
step_ring e = record e { s = (e.s + 1) % 4096; r = (e.r + 1) % 4096 }

-- A byte of the input into the ring, in the place of the oldest one.
unfoldable pub take_byte : ℕ → List ℕ → Encoder → Outcome Encoder
unfolding delete_node insert_node
take_byte c rest e = bind (delete_node e.s e.dictionary) λ d.
    let text = store d.text_buf e.s c in
    let text' = if ltb e.s 59 then store text (e.s + 4096) c else text in
    let e' = step_ring (record e { rest = rest; dictionary = record d { text_buf = text' } }) in
    bind (insert_node e'.r e'.dictionary) λ d'. done (record e' { dictionary = d' })

-- `while (i++ < last_match_length)`: no input is left.
unfoldable pub drain_loop : ℕ → Encoder → Outcome Encoder
unfolding delete_node insert_node
drain_loop zero e = done e
drain_loop (suc n) e = bind (delete_node e.s e.dictionary) λ d.
    let e' = step_ring (record e { dictionary = d; len = e.len - 1 }) in
    bind (if e'.len == 0 then done d else insert_node e'.r d)
      λ d'. drain_loop n (record e' { dictionary = d' })

-- `for (i = 0; i < last_match_length && offset < inlen; i++)` and the loop behind it.
unfoldable pub advance : ℕ → List ℕ → Encoder → Outcome Encoder
unfolding take_byte drain_loop
advance zero rest e = done e
advance (suc n) [] e = drain_loop (suc n) e
advance (suc n) (c ∷ rest) e = bind (take_byte c rest e) λ e'. advance n rest e'

-- `do { ... } while (len > 0);`: each round takes a byte of the text at least.
unfoldable pub encode_loop : ℕ → Encoder → Outcome (Option Encoder)
unfolding encode_match advance
encode_loop zero e = out_of_fuel
encode_loop (suc fuel) e = bind (encode_match e) λ o. elim o [
  | none ↦ done none
  | some (e', last) ↦
      bind (advance last e'.rest e')
        λ e''. let rest = encode_loop fuel e'' in if e''.len == 0 then done (some e'') else rest
]

-- The first sixty bytes of the input at `r`.
unfoldable pub load : ℕ → ℕ → List ℕ → (ℕ → ℕ) → (ℕ → ℕ) × List ℕ × ℕ
load zero len rest text = (text, rest, len)
load (suc rounds) len [] text = (text, [], len)
load (suc rounds) len (c ∷ rest) text = load rounds (len + 1) rest (store text (4036 + len) c)

-- `for (i = 1; i <= LHZ_F; i++) lhz_insert_node(e, r - i);`
unfoldable pub insert_blanks : ℕ → ℕ → Dictionary → Outcome Dictionary
unfolding insert_node
insert_blanks zero i d = done d
insert_blanks (suc rounds) i d =
    bind (insert_node (4036 - i) d) λ d'. insert_blanks rounds (i + 1) d'

abbrev zeros : ℕ → ℕ
zeros i = 0

-- The work area: zeros, then the first trees and the blanks.
unfoldable pub start_encoder : List ℕ → ℕ → Outcome Encoder
unfolding load insert_blanks insert_node init_tree start_huff
start_encoder input out_cap =
    let d = init_tree (record {
      text_buf = zeros;
      lson = zeros;
      rson = zeros;
      dad = zeros;
      match_position = 0;
      match_length = 0;
    }) in
    let (text, rest, len) = load 60 0 input (fill zeros 0 4036 b' ') in
    bind (insert_blanks 60 1 (record d { text_buf = text })) λ d'. bind (insert_node 4036 d') λ d''.
      done (record {
        dictionary = d'';
        tree = start_huff (record { freq = zeros; prnt = zeros; son = zeros });
        output = record { putbuf = 0; putlen = 0; out = []; out_cap = out_cap };
        rest = rest;
        s = 0;
        r = 4036;
        len = len;
      })

-- `sizeof(lh_lzhuf_enc)` where a pointer has four bytes and is aligned to two.
abbrev pub sizeof_lzhuf_enc : ℕ
sizeof_lzhuf_enc = 33666

-- `lh_lzhuf_encode`: what it writes, or nothing where it returns 0. `LH_ENCODE_EXTRA` is a byte for
-- each eight; an `unsigned long` has 32 bits.
unfoldable pub lzhuf_encode : List ℕ → ℕ → ℕ → Outcome (List ℕ)
unfolding start_encoder encode_loop encode_end
lzhuf_encode input dst_size aux_size =
    if length input == 0
      || ltb aux_size sizeof_lzhuf_enc
      || ltb dst_size ((length input + (length input + 7) % 2 ^ 32 / 8) % 2 ^ 32)
    then done []
    else (bind (start_encoder input dst_size) λ e. bind (encode_loop (length input) e) λ o.
        done (elim o [
          | none ↦ []
          | some e' ↦ elim (encode_end e'.output) [ none ↦ [] | some out ↦ out.out ]
        ]))
