-- ===== src/Base/Powers.antt =====
-- Fields of bits: a number cut at a power of two.
use native.Mathlib.Nat.{
  pow-suc, mul_assoc, mul-lt-mul_of_pos_right, mul-add-div_right, mul-add-mod_self_right,
  div-eq_of_lt, mod-eq_of_lt,
}
use native.Mathlib.Omega.{arith}
use mathlib.Core.Path.{◌≡◌, ap, ◌∙◌}
use Prim.Native.Nat.{ℕ, zero, suc, ◌+◌, ◌*◌, ◌/◌, ◌%◌, ◌^◌, ◌<◌}

pub pow_pos : (k : ℕ) → 0 < 2 ^ k
pow_pos zero = omega arith
pow_pos (suc k) = omega (arith, pow_pos k, pow-suc 2 k)

pub pow-add : (a b : ℕ) → 2 ^ (a + b) ≡ 2 ^ a * 2 ^ b
pow-add a zero = ap (λ (t : ℕ). 2 ^ t) {x = a + 0} {y = a} (omega arith) ∙ omega arith
pow-add a (suc b) =
    let next : a + suc b ≡ suc (a + b) = omega arith in
    rw next (
      omega (
        arith,
        pow-suc 2 (a + b),
        pow-add a b,
        pow-suc 2 b,
        ap (λ (t : ℕ). 2 ^ a * t) (pow-suc 2 b),
      ))

module _ (a b : ℕ) {k : ℕ} (below : b < k) where
  -- The part above a cut, and the part below it.
  pub high_part : (a * k + b) / k ≡ a
  high_part = omega (arith, mul-add-div_right {m = k} (omega arith) a b, div-eq_of_lt below)

  pub low_part : (a * k + b) % k ≡ b
  low_part = mul-add-mod_self_right a k b ∙ mod-eq_of_lt below

-- A number of `n + r` bits, moved up by `s` bits: its upper `n` bits and its lower `r` bits.
module _ (a b n r s : ℕ) (below : b < 2 ^ r) where
  moved : (a * 2 ^ r + b) * 2 ^ s ≡ a * 2 ^ (r + s) + b * 2 ^ s
  moved =
      omega (arith, pow-add r s, mul_assoc a (2 ^ r) (2 ^ s), ap (λ (t : ℕ). a * t) (pow-add r s))

  fits : b * 2 ^ s < 2 ^ (r + s)
  fits = omega (arith, pow-add r s, mul-lt-mul_of_pos_right below (pow_pos s))

  pub moved-div : (a * 2 ^ r + b) * 2 ^ s / 2 ^ (r + s) ≡ a
  moved-div = ap (λ (t : ℕ). t / 2 ^ (r + s)) moved ∙ high_part a (b * 2 ^ s) fits

  shifted : (a * 2 ^ r + b) * 2 ^ s * 2 ^ n ≡ a * 2 ^ (n + r + s) + b * 2 ^ (n + s)
  shifted =
      let total : r + s + n ≡ n + r + s = omega arith in
      let low : s + n ≡ n + s = omega arith in
      ap (λ (t : ℕ). t * 2 ^ n) moved
      ∙ rw (← total, ← low)
          (omega (
            arith,
            pow-add (r + s) n,
            pow-add s n,
            mul_assoc a (2 ^ (r + s)) (2 ^ n),
            mul_assoc b (2 ^ s) (2 ^ n),
            ap (λ (t : ℕ). a * t) (pow-add (r + s) n),
            ap (λ (t : ℕ). b * t) (pow-add s n),
          ))

  fits_above : b * 2 ^ (n + s) < 2 ^ (n + r + s)
  fits_above =
      let total : n + r + s ≡ r + (n + s) = omega arith in
      rw total (omega (arith, pow-add r (n + s), mul-lt-mul_of_pos_right below (pow_pos (n + s))))

  pub moved-mod : (a * 2 ^ r + b) * 2 ^ s * 2 ^ n % 2 ^ (n + r + s) ≡ b * 2 ^ (n + s)
  moved-mod = ap (λ (t : ℕ). t % 2 ^ (n + r + s)) shifted ∙ low_part a (b * 2 ^ (n + s)) fits_above
