-- ===== src/Lzhuf/PositionCode.antt =====
-- The codes of positions in Source/src/lh_lzhuf.c: what `lhz_encode_position` writes for a position is
-- what `lhz_decode_position` reads as it.
use lhassa.Bytes.{IsByte}
use lhassa.Base.{
  ℕ, zero, suc, ◌+◌, ◌-◌, ◌*◌, ◌/◌, ◌%◌, ◌^◌, ◌≤◌, ◌<◌, ◌≡◌, refl, sym, ap, ap₂, ◌∙◌, List, get_or,
  All, arith, ◌==◌, ◌&&◌, Bool, true, false, all_below, all_below_sound, ==_iff, bit_or,
  bit_or_disjoint, high_part, leb, leb→le,
}
use lhassa.Lh5.Stream.{bits, bits-lt, bits-add}
use lhassa.Lzhuf.Table.{p_len, p_code, d_code, d_len}
use lhassa.Lzhuf.Bits.{Input, more_bits, decode_position}
use lhassa.Lzhuf.Bits.Positions.{IsAt, getbit-bits, getbyte-bits}

-- The number of bits of the upper part's code, and the bits of the whole code of a position: the
-- upper bits of `p_code`, and the lower six bits of the position as they are.
unfoldable pub code_len : ℕ → ℕ
code_len c = get_or p_len (c / 64) 0

unfoldable pub position_code : ℕ → ℕ
unfolding code_len
position_code c = get_or p_code (c / 64) 0 / 2 ^ (8 - code_len c) * 64 + c % 64

module _ (input : List ℕ) (bytes : All IsByte input) where
  more_bits-bits :
      (j k pos m : ℕ) (i : ℕ) (d : Input)
      → i ≡ bits input pos k
      → IsAt input (pos + k) m d
      → (m' : ℕ) × (d' : Input) × (more_bits j i d ≡ (bits input pos (k + j), d'))
        × IsAt input (pos + (k + j)) m' d'
  unfolding more_bits
  more_bits-bits zero k pos m i d e at =
      let same : k ≡ k + 0 = omega arith in rw (← same) (m, d, ap (λ (x : ℕ). (x, d)) e, at)
  more_bits-bits (suc j) k pos m i d e at =
      let (m', d', read, at') = getbit-bits input bytes (pos + k) m d at in
      let next : pos + (k + 1) ≡ pos + k + 1 = omega arith in
      let value : i * 2 + bits input (pos + k) 1 ≡ bits input pos (k + 1) =
        omega (arith, e, bits-add input pos k 1) in
      let (m'', d'', rest, at'') =
        more_bits-bits j (k + 1) pos m' (i * 2 + bits input (pos + k) 1) d' value (rw next at') in
      let total : k + suc j ≡ k + 1 + j = omega arith in rw (read, total) (m'', d'', rest, at'')

  -- Reading a position: eight bits and as many more as they call for.
  decode_position-bits :
      (pos m : ℕ) (d : Input) (total : ℕ)
      → IsAt input pos m d
      → 8 + (get_or d_len (bits input pos 8) 0 - 2) ≡ total
      → (m' : ℕ) × (d' : Input) × (decode_position d ≡ (
        bit_or (get_or d_code (bits input pos 8) 0 * 2 ^ 6) (bits input pos total % 2 ^ 6),
        d',
      ))
        × IsAt input (pos + total) m' d'
  unfolding decode_position
  decode_position-bits pos m d total at e =
      let (m', d', read, at') = getbyte-bits input bytes pos m d at in
      let (m'', d'', more, at'') =
        more_bits-bits (get_or d_len (bits input pos 8) 0 - 2) 8 pos m' (bits input pos 8) d' refl
          at' in
      rw (read, more, ← e) (m'', d'', refl, at'')

-- What the tables say of every position.
agrees : ℕ → Bool
agrees c =
    let n = code_len c in
    let first = position_code c / 2 ^ (n - 2) in
    leb 3 n && leb n 8 && get_or d_len first 0 == n && get_or d_code first 0 == c / 64

all_agree : all_below 4096 agrees ≡ true
unfolding agrees all_below position_code code_len p_len p_code d_code d_len
all_agree = refl

four_true :
    (a b c d : Bool) → (a && b && c && d) ≡ true → (a ≡ true) × (b ≡ true) × (c ≡ true) × (d ≡ true)
four_true true true true true e = (refl, refl, refl, refl)
four_true true true true false e = absurd (cc)
four_true true true false d e = absurd (cc)
four_true true false c d e = absurd (cc)
four_true false b c d e = absurd (cc)

record Agreed (c : ℕ) : Type 0 where
  pub some : 3 ≤ code_len c
  pub few : code_len c ≤ 8
  pub length_back : get_or d_len (position_code c / 2 ^ (code_len c - 2)) 0 ≡ code_len c
  pub upper_back : get_or d_code (position_code c / 2 ^ (code_len c - 2)) 0 ≡ c / 64

agreed : (c : ℕ) → c < 4096 → Agreed c
unfolding agrees
agreed c h =
    let (some, few, length_back, upper_back) =
      four_true _ _ _ _ (all_below_sound 4096 agrees c all_agree h) in
    record {
      some = leb→le 3 (code_len c) some;
      few = leb→le (code_len c) 8 few;
      length_back = (==_iff _ (code_len c)).0 length_back;
      upper_back = (==_iff _ (c / 64)).0 upper_back;
    }

lower_bits : (c : ℕ) → position_code c % 2 ^ 6 ≡ c % 64
unfolding position_code
lower_bits c = omega arith

-- At a place of any input where the bits of the code of a position stand, `lhz_decode_position` gives
-- that position and moves on to the bit behind the code.
pub decode_position-code :
    (input : List ℕ) (pos m c : ℕ) (d : Input)
    → All IsByte input
    → IsAt input pos m d
    → c < 4096
    → bits input pos (code_len c + 6) ≡ position_code c
    → (m' : ℕ) × (d' : Input) × (decode_position d ≡ (c, d'))
      × IsAt input (pos + (code_len c + 6)) m' d'
decode_position-code input pos m c d bytes at small code =
    let ok = agreed c small in
    let n = code_len c in
    let width : n + 6 ≡ 8 + (n - 2) = omega (arith, ok.some) in
    let first : bits input pos 8 ≡ position_code c / 2 ^ (n - 2) =
      sym (
        high_part (bits input pos 8) (bits input (pos + 8) (n - 2))
          (bits-lt input (pos + 8) (n - 2)))
      ∙ ap (λ (t : ℕ). t / 2 ^ (n - 2))
          (sym (bits-add input pos 8 (n - 2)) ∙ ap (bits input pos) (sym width) ∙ code) in
    let total : 8 + (get_or d_len (bits input pos 8) 0 - 2) ≡ n + 6 =
      omega (arith, ok.some, ap (λ (t : ℕ). get_or d_len t 0) first, ok.length_back) in
    let upper : get_or d_code (bits input pos 8) 0 ≡ c / 64 =
      ap (λ (t : ℕ). get_or d_code t 0) first ∙ ok.upper_back in
    let lower : bits input pos (n + 6) % 2 ^ 6 ≡ c % 64 =
      ap (λ (t : ℕ). t % 2 ^ 6) code ∙ lower_bits c in
    let joined : bit_or (c / 64 * 2 ^ 6) (c % 64) ≡ c =
      bit_or_disjoint 6 (c / 64) (c % 64) (omega arith) ∙ omega arith in
    let (m', d', reads, at') = decode_position-bits input bytes pos m d (n + 6) at total in
    (
      m',
      d',
      reads
          ∙ ap₂ (λ (a b : ℕ). (bit_or (a * 2 ^ 6) b, d')) upper lower
          ∙ ap (λ (x : ℕ). (x, d')) joined,
      at',
    )
