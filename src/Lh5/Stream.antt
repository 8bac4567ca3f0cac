-- ===== src/Lh5/Stream.antt =====
-- What the bit reader of Source/src/lh_lh5dec.c reads: the bits of its input, highest first, and
-- zeros behind them.
pub mod Reads
use lhassa.Base.{
  ℕ, zero, suc, ◌+◌, ◌-◌, ◌*◌, ◌/◌, ◌%◌, ◌^◌, ◌≤◌, ◌<◌, ◌≡◌, refl, sym, ap, ap₂, ◌∙◌, List, [], ◌∷◌,
  get_or, All, length, arith,
}
use native.Mathlib.Nat.{pow-suc}
use lhassa.Bytes.{IsByte}

-- The bit at index `i` of the input.
unfoldable pub bit : List ℕ → ℕ → ℕ
bit input i = get_or input (i / 8) 0 / 2 ^ (7 - i % 8) % 2

bit-lt : (input : List ℕ) (i : ℕ) → bit input i < 2
unfolding bit
bit-lt input i = omega arith

module _ (input : List ℕ) where
  -- The number that `n` bits from `pos` on stand for.
  unfoldable pub bits : ℕ → ℕ → ℕ
  bits pos zero = 0
  bits pos (suc n) = bits pos n * 2 + bit input (pos + n)

  pub bits-lt : (pos n : ℕ) → bits pos n < 2 ^ n
  unfolding bits
  bits-lt pos zero = omega arith
  bits-lt pos (suc n) = omega (arith, bits-lt pos n, bit-lt input (pos + n), pow-suc 2 n)

  pub bits-add : (pos a b : ℕ) → bits pos (a + b) ≡ bits pos a * 2 ^ b + bits (pos + a) b
  unfolding bits
  bits-add pos a zero = ap (bits pos) {x = a + 0} {y = a} (omega arith) ∙ omega arith
  bits-add pos a (suc b) =
      let next : a + suc b ≡ suc (a + b) = omega arith in
      let place : pos + (a + b) ≡ pos + a + b = omega arith in
      rw (next, place)
        (omega (arith, bits-add pos a b, pow-suc 2 b, ap (λ (t : ℕ). bits pos a * t) (pow-suc 2 b)))

  bit_of_byte : (m k : ℕ) → k < 8 → bit input (8 * m + k) ≡ get_or input m 0 / 2 ^ (7 - k) % 2
  unfolding bit
  bit_of_byte m k h =
      let place : (8 * m + k) / 8 ≡ m = omega arith in
      let within : (8 * m + k) % 8 ≡ k = omega arith in rw (place, within) refl

  byte_value : (pos m : ℕ) → pos ≡ 8 * m → get_or input m 0 < 256 → bits pos 8 ≡ get_or input m 0
  unfolding bits
  byte_value pos m e h = rw e (
      omega (
        arith,
        bit_of_byte m 0,
        bit_of_byte m 1,
        bit_of_byte m 2,
        bit_of_byte m 3,
        bit_of_byte m 4,
        bit_of_byte m 5,
        bit_of_byte m 6,
        bit_of_byte m 7,
      ))

get_or-IsByte : (input : List ℕ) (m : ℕ) → All IsByte input → get_or input m 0 < 256
get_or-IsByte [] m h = omega arith
get_or-IsByte (b ∷ input) zero h = h.0
get_or-IsByte (b ∷ input) (suc m) h = get_or-IsByte input m h.1

-- Eight bits from the start of a byte are that byte.
pub bits-byte :
    (input : List ℕ) (pos m : ℕ)
    → All IsByte input
    → pos ≡ 8 * m
    → bits input pos 8 ≡ get_or input m 0
bits-byte input pos m bytes e = byte_value input pos m e (get_or-IsByte input m bytes)

bit-behind : (input : List ℕ) (i k : ℕ) → k ≡ i + 16 → bit (0 ∷ 0 ∷ input) k ≡ bit input i
unfolding bit
bit-behind input i k e =
    let place : k / 8 ≡ suc (suc (i / 8)) = omega arith in
    let within : k % 8 ≡ i % 8 = omega arith in rw (place, within) refl

-- The bits of the input stand behind sixteen zeros, which fill the buffer at first.
pub bits-behind :
    (input : List ℕ) (pos n : ℕ) → bits (0 ∷ 0 ∷ input) (pos + 16) n ≡ bits input pos n
unfolding bits
bits-behind input pos zero = refl
bits-behind input pos (suc n) =
    omega (arith, bits-behind input pos n, bit-behind input (pos + n) (pos + 16 + n) (omega arith))
