-- ===== src/Lzhuf/Bits/Positions.antt =====
-- The decoder's bit reader in Source/src/lh_lzhuf.c keeps its place in the input, and gives the bits
-- from there on.
use native.Mathlib.Nat.{mul-lt-mul_of_pos_right, mul_assoc, add-mul, mod-eq_of_lt}
use lhassa.Bytes.{IsByte}
use lhassa.Base.{
  ℕ, zero, suc, ◌+◌, ◌-◌, ◌*◌, ◌/◌, ◌%◌, ◌^◌, ◌≤◌, ◌<◌, ◌≡◌, refl, sym, ap, ap₂, ◌∙◌, inl, inr,
  List, [], ◌∷◌, drop, get_or, All, arith, leb, leb→le, leb-false→lt, true, false, Bool-cases,
  bit_or, bit_or_sum, moved-div, moved-mod, pow-add, pow_pos,
}
use lhassa.Lh5.Stream.{bits, bits-lt, bits-add, bits-byte}
use lhassa.Lzhuf.Bits.{Input, next_byte, refill, take_bits, getbit, getbyte}

-- The buffer holds the bits from `pos` up to byte `m`, at its upper end.
pub record IsAt (input : List ℕ) (pos m : ℕ) (d : Input) : Type 0 where
  pub behind : d.rest ≡ drop m input
  pub few : d.getlen ≤ 16
  pub whole : pos + d.getlen ≡ 8 * m
  pub held : d.getbuf ≡ bits input pos d.getlen * 2 ^ (16 - d.getlen)

next_byte_value :
    (m : ℕ) (input : List ℕ) → next_byte (drop m input) ≡ (get_or input m 0, drop (suc m) input)
unfolding next_byte
next_byte_value zero [] = refl
next_byte_value zero (b ∷ input) = refl
next_byte_value (suc m) [] = refl
next_byte_value (suc m) (b ∷ input) = next_byte_value m input

module _ (input : List ℕ) (bytes : All IsByte input) where
  -- A byte below `g` bits.
  joined :
      (pos m g buf : ℕ)
      → g ≤ 8
      → pos + g ≡ 8 * m
      → buf ≡ bits input pos g * 2 ^ (16 - g)
      → bit_or buf (get_or input m 0 * 2 ^ (8 - g)) % 2 ^ 16
        ≡ bits input pos (g + 8) * 2 ^ (16 - (g + 8))
  joined pos m g buf few whole held =
      let byte : bits input (pos + g) 8 ≡ get_or input m 0 =
        bits-byte input (pos + g) m bytes whole in
      let upper : 16 - g ≡ 8 + (8 - g) = omega arith in
      let lower : 16 - (g + 8) ≡ 8 - g = omega arith in
      let b = get_or input m 0 in
      let split : 2 ^ (16 - g) ≡ 2 ^ 8 * 2 ^ (8 - g) =
        ap (λ (t : ℕ). 2 ^ t) upper ∙ pow-add 8 (8 - g) in
      let small : b < 2 ^ 8 = omega (arith, byte, bits-lt input (pos + g) 8) in
      let below : b * 2 ^ (8 - g) < 2 ^ (16 - g) =
        omega (arith, split, mul-lt-mul_of_pos_right small (pow_pos (8 - g))) in
      let sum : bit_or buf (b * 2 ^ (8 - g)) ≡ bits input pos (g + 8) * 2 ^ (8 - g) =
        bit_or_sum (16 - g) (bits input pos g) buf (b * 2 ^ (8 - g)) held below
        ∙ omega (
          arith,
          held,
          split,
          ap (λ (t : ℕ). bits input pos g * t) split,
          mul_assoc (bits input pos g) (2 ^ 8) (2 ^ (8 - g)),
          add-mul (bits input pos g * 2 ^ 8) b (2 ^ (8 - g)),
          ap (λ (t : ℕ). t * 2 ^ (8 - g)) (bits-add input pos g 8),
          ap (λ (t : ℕ). (bits input pos g * 2 ^ 8 + t) * 2 ^ (8 - g)) byte,
        ) in
      let total : g + 8 + (8 - g) ≡ 16 = omega arith in
      let product : 2 ^ (g + 8) * 2 ^ (8 - g) ≡ 2 ^ 16 =
        sym (pow-add (g + 8) (8 - g)) ∙ ap (λ (t : ℕ). 2 ^ t) total in
      let fits : bits input pos (g + 8) * 2 ^ (8 - g) < 2 ^ 16 =
        omega
          (arith, product, mul-lt-mul_of_pos_right (bits-lt input pos (g + 8)) (pow_pos (8 - g))) in
      rw (sum, lower) (mod-eq_of_lt fits)

  abbrev Ready : ℕ → Input → Type 0
  Ready pos d = (m : ℕ) × IsAt input pos m d × (8 < d.getlen)

  abbrev loaded : ℕ → Input → Input
  loaded m d = record {
    getbuf = bit_or d.getbuf (get_or input m 0 * 2 ^ (8 - d.getlen)) % 2 ^ 16;
    getlen = d.getlen + 8;
    rest = drop (suc m) input;
  }

  refill_short :
      (rounds m : ℕ) (d : Input)
      → leb d.getlen 8 ≡ true
      → d.rest ≡ drop m input
      → refill (suc rounds) d ≡ refill rounds (loaded m d)
  unfolding refill
  refill_short rounds m d short behind =
      rw (short, ap next_byte behind ∙ next_byte_value m input) refl

  refill_long :
      (rounds : ℕ) (d : Input) → leb d.getlen 8 ≡ false → refill (suc rounds) d ≡ refill rounds d
  unfolding refill
  refill_long rounds d long = rw long refl

  refill-zero : (d : Input) → refill zero d ≡ d
  unfolding refill
  refill-zero d = refl

  refill-Ready :
      (rounds pos m : ℕ) (d : Input)
      → IsAt input pos m d
      → 8 < d.getlen + 8 * rounds
      → Ready pos (refill rounds d)
  refill-Ready zero pos m d at enough = rw (refill-zero d) (m, at, omega arith)
  refill-Ready (suc rounds) pos m d at enough = elim (Bool-cases (leb d.getlen 8)) [
    | inl short ↦
        let few = leb→le d.getlen 8 short in
        rw (refill_short rounds m d short at.behind) (
          refill-Ready rounds pos (suc m) (loaded m d)
            (record {
              behind = refl;
              few = omega arith;
              whole = omega (arith, at.whole);
              held = joined pos m d.getlen d.getbuf few at.whole at.held;
            })
            (omega arith))
    | inr long ↦
        let more = leb-false→lt d.getlen 8 long in
        rw (refill_long rounds d long) (refill-Ready rounds pos m d at (omega arith))
  ]

  -- Taking `n` bits.
  take_bits-bits :
      (n pos m : ℕ) (d : Input)
      → n ≤ 8
      → IsAt input pos m d
      → (m' : ℕ) × (d' : Input) × (take_bits n d ≡ (bits input pos n, d'))
        × IsAt input (pos + n) m' d'
  unfolding take_bits
  take_bits-bits n pos m d few at =
      let full = refill 2 d in
      let (m', ready, long) = refill-Ready 2 pos m d at (omega arith) in
      let g = full.getlen in
      let r = g - n in
      let s = 16 - g in
      let split : g ≡ n + r = omega arith in
      let held : full.getbuf ≡ (bits input pos n * 2 ^ r + bits input (pos + n) r) * 2 ^ s =
        ready.held
        ∙ ap (λ (t : ℕ). t * 2 ^ s) (ap (bits input pos) split ∙ bits-add input pos n r) in
      let below = bits-lt input (pos + n) r in
      let above : 16 - n ≡ r + s = omega (arith, ready.few) in
      let all : 16 ≡ n + r + s = omega (arith, ready.few) in
      let value : full.getbuf / 2 ^ (16 - n) ≡ bits input pos n =
        ap₂ (λ (x k : ℕ). x / 2 ^ k) held above
        ∙ moved-div (bits input pos n) (bits input (pos + n) r) n r s below in
      let rest : full.getbuf * 2 ^ n % 2 ^ 16 ≡ bits input (pos + n) r * 2 ^ (16 - r) =
        ap₂ (λ (x k : ℕ). x * 2 ^ n % 2 ^ k) held all
        ∙ moved-mod (bits input pos n) (bits input (pos + n) r) n r s below
        ∙ ap (λ (k : ℕ). bits input (pos + n) r * 2 ^ k) {x = n + s} {y = 16 - r}
            (omega (arith, ready.few)) in
      (
        m',
        record full { getbuf = full.getbuf * 2 ^ n % 2 ^ 16; getlen = g - n },
        ap (λ (x : ℕ). (x, record full { getbuf = full.getbuf * 2 ^ n % 2 ^ 16; getlen = g - n }))
            value,
        record {
          behind = ready.behind;
          few = omega (arith, ready.few);
          whole = omega (arith, ready.whole);
          held = rest;
        },
      )

  abbrev pub Reads : ℕ → ℕ → ℕ × Input → Type 0
  Reads n pos r = (m : ℕ) × (d : Input) × (r ≡ (bits input pos n, d)) × IsAt input (pos + n) m d

  pub getbit-bits : (pos m : ℕ) (d : Input) → IsAt input pos m d → Reads 1 pos (getbit d)
  unfolding getbit
  getbit-bits pos m d at = take_bits-bits 1 pos m d (omega arith) at

  pub getbyte-bits : (pos m : ℕ) (d : Input) → IsAt input pos m d → Reads 8 pos (getbyte d)
  unfolding getbyte
  getbyte-bits pos m d at = take_bits-bits 8 pos m d (omega arith) at
