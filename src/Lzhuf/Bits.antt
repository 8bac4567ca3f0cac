-- ===== src/Lzhuf/Bits.antt =====
-- The bit streams of Source/src/lh_lzhuf.c: `lhz_putcode`, `lhz_getbit`, `lhz_getbyte`, and the
-- position codes `lhz_encode_position` and `lhz_decode_position`.
pub mod Positions
use lhassa.Base.{
  ℕ, zero, suc, ◌+◌, ◌-◌, ◌*◌, ◌/◌, ◌%◌, ◌^◌, List, [], ◌∷◌, ◌++◌, get_or, length, ltb, leb, ◌==◌,
  if◌then◌else◌, bit_or, Option, none, some,
}
use lhassa.Lzhuf.Table.{p_len, p_code, d_code, d_len}

-- What the encoder writes to; `out` is in the order of the buffer, and its length is `out_pos`.
pub record Output : Type 0 where
  pub putbuf : ℕ
  pub putlen : ℕ
  pub out : List ℕ
  pub out_cap : ℕ

-- A byte at `out_pos`, if there is room.
unfoldable pub put_byte : ℕ → Output → Option Output
put_byte b o =
    if leb o.out_cap (length o.out) then none else some (record o { out = o.out ++ b ∷ [] })

infixl 5 ◌>>=◌
abbrev pub ◌>>=◌ {ℓ κ} : {A : Type ℓ} {B : Type κ} → Option A → (A → Option B) → Option B
none >>= f = none
some a >>= f = f a

-- `lhz_putcode`; `none` is its result 0.
unfoldable pub putcode : ℕ → ℕ → Output → Option Output
unfolding put_byte
putcode l c o =
    let buf = bit_or o.putbuf (c / 2 ^ o.putlen) % 2 ^ 16 in
    let len = (o.putlen + l) % 2 ^ 8 in
    let full = (do
      o' ← put_byte (buf / 2 ^ 8) (record o { putbuf = buf; putlen = len - 8 })
      if leb 8 (len - 8)
          then (do
            o'' ← put_byte (buf % 2 ^ 8) o'
            some (record o'' { putlen = len - 16; putbuf = c * 2 ^ (l - (len - 16)) % 2 ^ 16 }))
          else some (record o' { putbuf = buf * 2 ^ 8 % 2 ^ 16 })) in
    if leb 8 len then full else some (record o { putbuf = buf; putlen = len })

-- `lhz_encode_position`
unfoldable pub encode_position : ℕ → Output → Option Output
unfolding putcode p_len p_code
encode_position c o = do
  o' ← putcode (get_or p_len (c / 2 ^ 6) 0) (get_or p_code (c / 2 ^ 6) 0 * 2 ^ 8) o
  putcode 6 (c % 2 ^ 6 * 2 ^ 10) o'

-- `lhz_encode_end`
unfoldable pub encode_end : Output → Option Output
unfolding put_byte
encode_end o = if o.putlen == 0 then some o else put_byte (o.putbuf / 2 ^ 8) o

-- What the decoder reads from; `rest` is its input from `in_pos` on.
pub record Input : Type 0 where
  pub getbuf : ℕ
  pub getlen : ℕ
  pub rest : List ℕ

-- The next byte, or 0 behind the end.
pub next_byte : List ℕ → ℕ × List ℕ
next_byte [] = (0, [])
next_byte (b ∷ rest) = (b, rest)

-- `while (d->getlen <= 8)`: two rounds are enough, since each adds 8.
unfoldable pub refill : ℕ → Input → Input
unfolding next_byte
refill zero d = d
refill (suc rounds) d =
    let (i, rest) = next_byte d.rest in
    let d' : Input = record {
      getbuf = bit_or d.getbuf (i * 2 ^ (8 - d.getlen)) % 2 ^ 16;
      getlen = d.getlen + 8;
      rest = rest;
    } in
    refill rounds (if leb d.getlen 8 then d' else d)

-- The upper `n` bits: `lhz_getbit` for 1 and `lhz_getbyte` for 8.
unfoldable pub take_bits : ℕ → Input → ℕ × Input
unfolding refill
take_bits n d =
    let d' = refill 2 d in
    (
      d'.getbuf / 2 ^ (16 - n),
      record d' { getbuf = d'.getbuf * 2 ^ n % 2 ^ 16; getlen = d'.getlen - n },
    )

unfoldable pub getbit : Input → ℕ × Input
unfolding take_bits
getbit = take_bits 1

unfoldable pub getbyte : Input → ℕ × Input
unfolding take_bits
getbyte = take_bits 8

-- `while (j--) i = (i << 1) + lhz_getbit(d);`
unfoldable pub more_bits : ℕ → ℕ → Input → ℕ × Input
more_bits zero i d = (i, d)
more_bits (suc j) i d = let (b, d') = getbit d in more_bits j (i * 2 + b) d'

-- `lhz_decode_position`
unfoldable pub decode_position : Input → ℕ × Input
decode_position d =
    let (i, d') = getbyte d in
    let (j, d'') = more_bits (get_or d_len i 0 - 2) i d' in
    (bit_or (get_or d_code i 0 * 2 ^ 6) (j % 2 ^ 6), d'')
