-- ===== src/Lh5/Stream/Reads.antt =====
-- The bit reader keeps its place in the stream, and its reads give the stream's bits in order.
use Prim.Native.Nat.{min}
use lhassa.Base.{
  ℕ, zero, suc, ◌+◌, ◌-◌, ◌*◌, ◌/◌, ◌%◌, ◌^◌, ◌≤◌, ◌<◌, ◌≡◌, refl, sym, ap, ap₂, ◌∙◌, inl, inr,
  List, [], ◌∷◌, get_or, All, length, arith, ltb, ltb→lt, le→ltb, Bool-cases, if◌then◌else◌, ◌==◌,
  true, moved-div, moved-mod, high_part,
}
use lhassa.Outcome.{Outcome, done, ◌>>=◌, ◌>>◌, pure, continue}
use lhassa.Lh5.{Lh5Dec, next_byte, shift_in, fill_loop, fillbuf, getbits, init_getbits}
use lhassa.Lh5.Stream.{bits, bits-lt, bits-add, bits-byte, bits-behind, bit}
use lhassa.Bytes.{IsByte}
use lhassa.Lh5.Decode.{start_dec}

abbrev wire : List ℕ → List ℕ
wire input = 0 ∷ 0 ∷ input

-- The buffer holds the sixteen bits from `pos` on, and `subbitbuf` those up to byte `m`.
record IsAt (input : List ℕ) (pos m : ℕ) (d : Lh5Dec) : Type 0 where
  pub same_input : d.input ≡ input
  pub size : d.in_size ≡ length input
  pub taken : d.in_pos + d.compsize ≡ d.in_size
  pub place : d.in_pos ≡ min (m - 2) (length input)
  pub enough : 2 ≤ m
  pub few : d.bitcount ≤ 8
  pub whole : pos + 16 + d.bitcount ≡ 8 * m
  pub high : d.bitbuf ≡ bits (wire input) pos 16
  pub low : d.subbitbuf ≡ bits (wire input) (pos + 16) d.bitcount * 2 ^ (8 - d.bitcount)

-- Taking `n` of the `n + r` bits that are left in `subbitbuf`.
module _ (input : List ℕ) (pos n r s sub : ℕ) (all : n + r + s ≡ 8)
    (low : sub ≡ bits (wire input) (pos + 16) (n + r) * 2 ^ s) where
  split :
      sub ≡ (bits (wire input) (pos + 16) n * 2 ^ r + bits (wire input) (pos + 16 + n) r) * 2 ^ s
  split = low ∙ ap (λ (t : ℕ). t * 2 ^ s) (bits-add (wire input) (pos + 16) n r)

  taken_bits : sub / 2 ^ (8 - n) ≡ bits (wire input) (pos + 16) n
  taken_bits =
      let e : 8 - n ≡ r + s = omega arith in
      rw (split, e)
        (moved-div (bits (wire input) (pos + 16) n) (bits (wire input) (pos + 16 + n) r) n r s
          (bits-lt (wire input) (pos + 16 + n) r))

  left_bits : sub * 2 ^ n % 2 ^ 8 ≡ bits (wire input) (pos + 16 + n) r * 2 ^ (8 - r)
  left_bits =
      let e : 8 - r ≡ n + s = omega arith in
      rw (split, e)
        (ap
            (λ (t : ℕ).
              (bits (wire input) (pos + 16) n * 2 ^ r + bits (wire input) (pos + 16 + n) r)
              * 2 ^ s
              * 2 ^ n
              % 2 ^ t)
            (sym all)
          ∙ moved-mod (bits (wire input) (pos + 16) n) (bits (wire input) (pos + 16 + n) r) n r s
              (bits-lt (wire input) (pos + 16 + n) r))

  shifted_in :
      (buf : ℕ)
      → buf ≡ bits (wire input) pos 16
      → (buf * 2 ^ n + sub / 2 ^ (8 - n)) % 2 ^ 16 ≡ bits (wire input) (pos + n) 16
  shifted_in buf e =
      let swap : 16 + n ≡ n + 16 = omega arith in
      let whole : buf * 2 ^ n + sub / 2 ^ (8 - n) ≡ bits (wire input) pos (n + 16) =
        rw (e, taken_bits, ← swap) (sym (bits-add (wire input) pos 16 n)) in
      omega (arith, whole, bits-add (wire input) pos n 16, bits-lt (wire input) (pos + n) 16)

get_or_past : (input : List ℕ) (i : ℕ) → length input ≤ i → get_or input i 0 ≡ 0
get_or_past [] i h = refl
get_or_past (b ∷ input) zero h = absurd (omega arith)
get_or_past (b ∷ input) (suc i) h = get_or_past input i (omega arith)

get_or-wire :
    (input : List ℕ) (m i : ℕ) → m ≡ suc (suc i) → get_or (wire input) m 0 ≡ get_or input i 0
get_or-wire input m i e = rw e refl

module _ (input : List ℕ) (pos m : ℕ) (d : Lh5Dec) (at : IsAt input pos m d) where
  open at use {same_input, size, taken, place, enough, few, whole, high, low}

  module _ (n : ℕ) (within : n ≤ d.bitcount) where
    count : d.bitcount ≡ n + (d.bitcount - n)
    count = omega arith

    low_split :
        d.subbitbuf ≡ bits (wire input) (pos + 16) (n + (d.bitcount - n)) * 2 ^ (8 - d.bitcount)
    low_split = low ∙ ap (λ (t : ℕ). bits (wire input) (pos + 16) t * 2 ^ (8 - d.bitcount)) count

    shift_in_lem : shift_in n d ≡ bits (wire input) (pos + n) 16
    unfolding shift_in
    shift_in_lem =
        shifted_in input pos n (d.bitcount - n) (8 - d.bitcount) d.subbitbuf (omega arith) low_split
          d.bitbuf high

    -- Taking bits that are there.
    take-IsAt : IsAt input (pos + n) m (record d {
      bitcount = d.bitcount - n;
      bitbuf = shift_in n d;
      subbitbuf = d.subbitbuf * 2 ^ n % 2 ^ 8;
    })
    take-IsAt = record {
      same_input = same_input;
      size = size;
      taken = taken;
      place = place;
      enough = enough;
      few = omega arith;
      whole = omega arith;
      high = shift_in_lem;
      low =
          left_bits input pos n (d.bitcount - n) (8 - d.bitcount) d.subbitbuf (omega arith)
            low_split
          ∙ ap (λ (t : ℕ). bits (wire input) t (d.bitcount - n) * 2 ^ (8 - (d.bitcount - n)))
              {x = pos + 16 + n} {y = pos + n + 16} (omega arith);
    }

  next_value : get_or (wire input) m 0 ≡ (if d.compsize == 0 then 0 else get_or d.input d.in_pos 0)
  next_value = elim (Bool-cases (d.compsize == 0)) [
    | inl over ↦
        rw over
          (get_or-wire input m (m - 2) (omega arith) ∙ get_or_past input (m - 2) (ground arith))
    | inr more ↦
        let here : m - 2 ≡ d.in_pos = ground arith in
        rw (more, same_input, ← here) (get_or-wire input m (m - 2) (omega arith))
  ]

  module _ (bytes : All IsByte input) where
    wire_bytes : All IsByte (wire input)
    wire_bytes = (omega arith, (omega arith, bytes))

    fresh :
        (sub : ℕ)
        → sub ≡ get_or (wire input) m 0
        → sub ≡ bits (wire input) (pos + d.bitcount + 16) 8 * 2 ^ (8 - 8)
    fresh sub e =
        omega (arith, bits-byte (wire input) (pos + d.bitcount + 16) m wire_bytes (omega arith))

    -- Taking the bits that are there, and the next byte behind them.
    refill-IsAt :
        IsAt input
          (pos + d.bitcount)
          (m + 1)
          (next_byte (record d { bitbuf = shift_in d.bitcount d }))
    unfolding next_byte
    refill-IsAt = elim (Bool-cases (d.compsize == 0)) [
      | inl over ↦ rw over (record {
        same_input = same_input;
        size = size;
        taken = taken;
        place = ground arith;
        enough = omega arith;
        few = omega arith;
        whole = omega arith;
        high = shift_in_lem d.bitcount (omega arith);
        low = fresh 0 (sym (next_value ∙ rw over refl));
      })
      | inr more ↦
          let inside : ltb d.in_pos d.in_size ≡ true = ground arith in
          rw (more, inside)
            (record {
              same_input = same_input;
              size = size;
              taken = ground arith;
              place = ground arith;
              enough = omega arith;
              few = omega arith;
              whole = omega arith;
              high = shift_in_lem d.bitcount (omega arith);
              low = fresh (get_or d.input d.in_pos 0) (sym (next_value ∙ rw more refl));
            })
    ]

-- What an operation leaves behind that ends at a place of the stream.
abbrev Reaches : List ℕ → ℕ → Outcome (Unit {0}) × Lh5Dec → Type 0
Reaches input pos r = (m : ℕ) × (d : Lh5Dec) × (r ≡ (done tt, d)) × IsAt input pos m d

module _ (input : List ℕ) (bytes : All IsByte input) where
  fill_loop-Reaches :
      (fuel n pos m : ℕ) (d : Lh5Dec)
      → IsAt input pos m d
      → n + 2 ≤ fuel + d.bitcount
      → 1 ≤ fuel
      → Reaches input (pos + n) (fill_loop fuel n d)
  unfolding fill_loop
  fill_loop-Reaches zero n pos m d at enough some = absurd (omega arith)
  fill_loop-Reaches (suc fuel) n pos m d at enough some = elim (Bool-cases (ltb d.bitcount n)) [
    | inl more ↦
        let short : d.bitcount < n = ltb→lt d.bitcount n more in
        let fresh = refill-IsAt input pos m d at bytes in
        let whole : pos + n ≡ pos + d.bitcount + (n - d.bitcount) = omega arith in
        rw (more, whole)
          (fill_loop-Reaches fuel (n - d.bitcount) (pos + d.bitcount) (m + 1) _ fresh
            (filled d (shift_in d.bitcount d) (omega arith)) (omega (arith, at.few)))
    | inr there ↦ rw there (m, _, refl, take-IsAt input pos m d at n (ground arith))
  ]
    where
      filled :
          (d : Lh5Dec) (buf : ℕ) {k : ℕ}
          → k ≤ fuel + 8
          → k ≤ fuel + (next_byte (record d { bitbuf = buf })).bitcount
      filled d buf h = ground (arith)

-- Calls of `lh5_getbits` for the widths `ns`, and the numbers at these places of the input.
pub read_fields : List ℕ → Lh5Dec → Outcome (List ℕ) × Lh5Dec
read_fields [] = pure []
read_fields (n ∷ ns) = do x ← getbits n; xs ← read_fields ns; pure (x ∷ xs)

pub fields : List ℕ → ℕ → List ℕ → List ℕ
fields input pos [] = []
fields input pos (n ∷ ns) = bits input pos n ∷ fields input (pos + n) ns

abbrev pub IsWidth : ℕ → Type 0
IsWidth n = n ≤ 16

upper_bits :
    (input : List ℕ) (pos n buf : ℕ)
    → n ≤ 16
    → buf ≡ bits input pos 16
    → buf / 2 ^ (16 - n) ≡ bits input pos n
upper_bits input pos n buf fits e =
    let whole : 16 ≡ n + (16 - n) = omega arith in
    rw (e ∙ ap (bits input pos) whole ∙ bits-add input pos n (16 - n)) (
      high_part (bits input pos n) (bits input (pos + n) (16 - n))
        (bits-lt input (pos + n) (16 - n)))

module _ (input : List ℕ) (bytes : All IsByte input) where
  fillbuf-Reaches :
      (n pos m : ℕ) (d : Lh5Dec) → IsAt input pos m d → Reaches input (pos + n) (fillbuf n d)
  unfolding fillbuf
  fillbuf-Reaches n pos m d at =
      fill_loop-Reaches input bytes (suc (suc n)) n pos m d at (omega arith) (omega arith)

  getbits-bits :
      (n pos m : ℕ) (d : Lh5Dec)
      → IsWidth n
      → IsAt input pos m d
      → (m' : ℕ) × (d' : Lh5Dec) × (getbits n d ≡ (done (bits (wire input) pos n), d'))
        × IsAt input (pos + n) m' d'
  unfolding getbits
  getbits-bits n pos m d fits at =
      let (m', d', e, at') = fillbuf-Reaches n pos m d at in
      (
        m',
        d',
        rw (le→ltb 16 n fits, e)
            (ap (λ (t : ℕ). (done t, d')) (upper_bits (wire input) pos n d.bitbuf fits at.high)),
        at',
      )

  read_fields-fields :
      (ns : List ℕ) (pos m : ℕ) (d : Lh5Dec)
      → All IsWidth ns
      → IsAt input pos m d
      → (read_fields ns d).0 ≡ done (fields (wire input) pos ns)
  unfolding read_fields fields
  read_fields-fields [] pos m d fit at = refl
  read_fields-fields (n ∷ ns) pos m d fit at =
      let (m', d', e, at') = getbits-bits n pos m d fit.0 at in
      rw e (chained (read_fields ns d') (read_fields-fields ns (pos + n) m' d' fit.1 at'))
    where
      chained :
          (r : Outcome (List ℕ) × Lh5Dec) {xs : List ℕ} {x : ℕ}
          → r.0 ≡ done xs
          → (continue r (λ ys. pure (x ∷ ys))).0 ≡ done (x ∷ xs)
      chained r e = ground arith

fields-behind :
    (input : List ℕ) (pos : ℕ) (ns : List ℕ)
    → fields (wire input) (pos + 16) ns ≡ fields input pos ns
unfolding fields
fields-behind input pos [] = refl
fields-behind input pos (n ∷ ns) =
    let next : pos + 16 + n ≡ pos + n + 16 = omega arith in
    ap₂ ◌∷◌ (bits-behind input pos n) (rw next (fields-behind input (pos + n) ns))

init-IsAt :
    (input : List ℕ) (np pbit : ℕ)
    → IsAt input 0 2 (record (start_dec input np pbit) { bitbuf = 0; subbitbuf = 0; bitcount = 0 })
unfolding start_dec bits bit
init-IsAt input np pbit = record {
  same_input = refl;
  size = refl;
  taken = omega arith;
  place = omega arith;
  enough = omega arith;
  few = omega arith;
  whole = omega arith;
  high = refl;
  low = refl;
}

-- The numbers that `lh5_init_getbits` and then calls of `lh5_getbits` for widths of up to 16 bits
-- read from any input are those at consecutive places of its bits, the highest bit of each byte
-- first, with zeros behind the end of the input.
pub getbits-fields :
    (input ns : List ℕ) (np pbit : ℕ)
    → All IsByte input
    → All IsWidth ns
    → ((do init_getbits; read_fields ns) (start_dec input np pbit)).0 ≡ done (fields input 0 ns)
unfolding init_getbits start_dec
getbits-fields input ns np pbit bytes fit =
    let (m, d, e, at) = fillbuf-Reaches input bytes 16 0 2 _ (init-IsAt input np pbit) in
    rw e (read_fields-fields input bytes ns 16 m d fit at ∙ ap done (fields-behind input 0 ns))
