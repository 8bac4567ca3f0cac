-- ===== src/Base/Division.antt =====
-- The division of bit strings by a polynomial, lowest bit first: the reference of both CRCs.
use native.Mathlib.Nat.{pow-suc}
use native.Mathlib.Omega.{arith}
use mathlib.Core.Path.{◌≡◌, refl, ap, sym, ◌∙◌}
use Prim.Native.Nat.{ℕ, zero, suc, ◌*◌, ◌/◌, ◌%◌, ◌^◌, bit_xor}
use lhassa.Base.Tests.{◌==◌, if◌then◌else◌}
use lhassa.Base.Bits.{bit_xor-half, bit_xor-parity, bit_xor_assoc, bit_xor_comm, bit_xor_cancel}

xor_right_comm : (a b c : ℕ) → bit_xor (bit_xor a b) c ≡ bit_xor (bit_xor a c) b
xor_right_comm a b c =
    bit_xor_assoc a b c ∙ ap (bit_xor a) (bit_xor_comm b c) ∙ sym (bit_xor_assoc a c b)

xor_both : (a b c : ℕ) → bit_xor (bit_xor a c) (bit_xor b c) ≡ bit_xor a b
xor_both a b c =
    sym (bit_xor_assoc (bit_xor a c) b c)
    ∙ ap (λ (t : ℕ). bit_xor t c) (xor_right_comm a c b)
    ∙ bit_xor_cancel (bit_xor a b) c

module _ (poly : ℕ) where
  -- One step of the division, lowest bit first.
  unfoldable pub shift_bit : ℕ → ℕ
  shift_bit x = if x % 2 == 0 then x / 2 else bit_xor (x / 2) poly

  unfoldable pub shift_bits : ℕ → ℕ → ℕ
  shift_bits zero x = x
  shift_bits (suc n) x = shift_bits n (shift_bit x)

  -- The division is linear over exclusive or.
  shift_bit-bit_xor : (x y : ℕ) → shift_bit (bit_xor x y) ≡ bit_xor (shift_bit x) (shift_bit y)
  unfolding shift_bit
  shift_bit-bit_xor x y = ground (
    arith,
    bit_xor-parity x y,
    bit_xor-half x y,
    xor_right_comm (x / 2) poly (y / 2),
    bit_xor_assoc (x / 2) (y / 2) poly,
    xor_both (x / 2) (y / 2) poly,
  )

  pub shift_bits-bit_xor :
      (n x y : ℕ) → shift_bits n (bit_xor x y) ≡ bit_xor (shift_bits n x) (shift_bits n y)
  unfolding shift_bits
  shift_bits-bit_xor zero x y = refl
  shift_bits-bit_xor (suc n) x y =
      ap (shift_bits n) (shift_bit-bit_xor x y) ∙ shift_bits-bit_xor n (shift_bit x) (shift_bit y)

  shift_bit-double : (h x : ℕ) → x ≡ h * 2 → shift_bit x ≡ h
  unfolding shift_bit
  shift_bit-double h x e = ground arith

  -- Zero bits are shifted out and leave the rest as it is.
  pub shift_bits-mul : (n h : ℕ) → shift_bits n (h * 2 ^ n) ≡ h
  unfolding shift_bits
  shift_bits-mul zero h = omega arith
  shift_bits-mul (suc n) h =
      ap (shift_bits n) (
        shift_bit-double (h * 2 ^ n) (h * 2 ^ suc n)
          (omega (arith, ap (λ (t : ℕ). h * t) (pow-suc 2 n))))
      ∙ shift_bits-mul n h
