-- ===== src/Lh5.antt =====
-- The state of the LH4 to LH7 decompressors and its bit reader: `struct lh5_dec`, `lh5_fillbuf`,
-- `lh5_getbits` and `lh5_init_getbits` of Source/src/lh_lh5dec.c. Arrays of the structure are
-- functions of the index; an index outside an array is a `fault` where it is used.
pub mod Table
pub mod Lengths
pub mod Decode
pub mod Stream
pub mod History
pub mod Rounds
pub mod Positions
use lhassa.Base.{
  ℕ, zero, suc, ◌+◌, ◌-◌, ◌*◌, ◌/◌, ◌%◌, ◌^◌, ◌≤◌, ◌≡◌, List, get_or, ltb, le→ltb, ◌==◌,
  if◌then◌else◌, arith,
}
use lhassa.Outcome.{Outcome, done, fault, out_of_fuel, ◌>>=◌, ◌>>◌, pure, continue-eq-done}

pub record Lh5Dec : Type 0 where
  pub input : List ℕ
  pub in_size : ℕ
  pub in_pos : ℕ
  pub compsize : ℕ
  pub bitbuf : ℕ
  pub subbitbuf : ℕ
  pub bitcount : ℕ
  pub blocksize : ℕ
  pub np : ℕ
  pub pbit : ℕ
  pub left : ℕ → ℕ
  pub right : ℕ → ℕ
  pub c_len : ℕ → ℕ
  pub pt_len : ℕ → ℕ
  pub c_table : ℕ → ℕ
  pub pt_table : ℕ → ℕ

-- The next byte of the input, or 0 behind it, into `subbitbuf`.
pub next_byte : Lh5Dec → Lh5Dec
next_byte d =
    if d.compsize == 0
    then record d { subbitbuf = 0; bitcount = 8 }
    else if ltb d.in_pos d.in_size
    then record d {
      compsize = d.compsize - 1;
      subbitbuf = get_or d.input d.in_pos 0;
      in_pos = d.in_pos + 1;
      bitcount = 8;
    }
    else record d { compsize = d.compsize - 1; subbitbuf = 0; bitcount = 8 }

-- `n` bits of `subbitbuf` below those of `bitbuf`
pub shift_in : ℕ → Lh5Dec → ℕ
shift_in n d = (d.bitbuf * 2 ^ n + d.subbitbuf / 2 ^ (8 - n)) % 2 ^ 16

-- The loop of `lh5_fillbuf` and what follows it.
pub fill_loop : ℕ → ℕ → Lh5Dec → Outcome (Unit {0}) × Lh5Dec
unfolding next_byte shift_in
fill_loop zero n d = (out_of_fuel, d)
fill_loop (suc fuel) n d =
    let rest =
      fill_loop fuel (n - d.bitcount) (next_byte (record d { bitbuf = shift_in d.bitcount d })) in
    if ltb d.bitcount n then rest else (
      done tt,
      record d {
        bitcount = d.bitcount - n;
        bitbuf = shift_in n d;
        subbitbuf = d.subbitbuf * 2 ^ n % 2 ^ 8;
      },
    )

-- `lh5_fillbuf`; after its first round the loop takes 8 bits in each.
unfoldable pub fillbuf : ℕ → Lh5Dec → Outcome (Unit {0}) × Lh5Dec
unfolding fill_loop
fillbuf n = fill_loop (suc (suc n)) n

-- `lh5_getbits`; a shift by a negative number is undefined.
unfoldable pub getbits : ℕ → Lh5Dec → Outcome ℕ × Lh5Dec
unfolding fillbuf
getbits n d = if ltb 16 n then (fault, d) else (do fillbuf n; pure (d.bitbuf / 2 ^ (16 - n))) d

-- `lh5_init_getbits`
unfoldable pub init_getbits : Lh5Dec → Outcome (Unit {0}) × Lh5Dec
unfolding fillbuf
init_getbits d = fillbuf 16 (record d { bitbuf = 0; subbitbuf = 0; bitcount = 0 })

-- What `lh5_getbits` returns are the upper bits of the buffer.
pub getbits-value :
    (n : ℕ) (d : Lh5Dec) (x : ℕ) (d' : Lh5Dec)
    → n ≤ 16
    → getbits n d ≡ (done x, d')
    → d.bitbuf / 2 ^ (16 - n) ≡ x
unfolding getbits
getbits-value n d x d' h e =
    let (_, s, _, last) = continue-eq-done (fillbuf n d) _ (rw (le→ltb 16 n h) at e) in ground arith
