-- ===== src/Base/Bits.antt =====
-- Laws of the binary operations at variables, from the digit recursion that they stand for.
use Prim.Native.Nat.{
  ℕ, zero, suc, ◌+◌, ◌*◌, ◌/◌, ◌%◌, ◌^◌, ◌≤◌, ◌<◌, max, differ, bit_or, bit_xor, digits, bitwise,
  bit_or-bitwise, bit_xor-bitwise,
}
use mathlib.Core.Path.{◌≡◌, refl, ap, sym, ◌∙◌}
use native.Mathlib.Nat.{le_refl, pow-suc, pow-succ', div-div-eq-div-mul}
use native.Mathlib.Omega.{arith}

-- `digits` stops at 0, so with enough steps for `x` further steps change nothing.
module _ (base : ℕ → ℕ) (op : ℕ → ℕ → ℕ) where
  digits_extra :
      (x steps more y : ℕ)
      → x ≤ steps
      → steps ≤ more
      → digits base op more x y ≡ digits base op steps x y
  digits_extra zero zero zero y _ _ = refl
  digits_extra zero zero (suc more) y _ _ = refl
  digits_extra zero (suc steps) zero y _ h = absurd (omega arith)
  digits_extra zero (suc steps) (suc more) y _ _ = refl
  digits_extra (suc x) zero more y h _ = absurd (omega arith)
  digits_extra (suc x) (suc steps) zero y _ h = absurd (omega arith)
  digits_extra (suc x) (suc steps) (suc more) y h g =
      let high = digits_extra (suc x / 2) steps more (y / 2) (omega arith) (omega arith) in
      ap (λ (d : ℕ). d * 2 + op (suc x % 2) (y % 2)) high

  -- The lowest digit of an operation on a number that is not 0.
  lowest_digit :
      (y x : ℕ)
      → bitwise base op (suc x) y ≡ bitwise base op (suc x / 2) (y / 2) * 2 + op (suc x % 2) (y % 2)
  lowest_digit y x =
      let half = suc x / 2 in
      omega (arith, digits_extra half half x (y / 2) (omega arith) (omega arith))

pub bit_or_step : (x y : ℕ) → bit_or x y ≡ bit_or (x / 2) (y / 2) * 2 + max (x % 2) (y % 2)
bit_or_step zero y = simp bit_or-bitwise (omega arith)
bit_or_step (suc x) y = simp bit_or-bitwise (lowest_digit (λ low. low) max y x)

-- Two binary digits differ where their sum is odd.
sum_of_digits : (q p : ℕ) → q < 2 → p < 2 → (p + q) % 2 ≡ differ p q
sum_of_digits zero zero _ _ = omega arith
sum_of_digits (suc zero) zero _ _ = omega arith
sum_of_digits zero (suc zero) _ _ = refl
sum_of_digits (suc zero) (suc zero) _ _ = refl
sum_of_digits q (suc (suc p)) _ h = absurd (omega arith)
sum_of_digits (suc (suc q)) p h _ = absurd (omega arith)

pub bit_xor_step : (x y : ℕ) → bit_xor x y ≡ bit_xor (x / 2) (y / 2) * 2 + (x + y) % 2
bit_xor_step zero y = simp bit_xor-bitwise (omega arith)
bit_xor_step (suc x) y =
    let odd = sum_of_digits (y % 2) (suc x % 2) (omega arith) (omega arith) in
    simp bit_xor-bitwise (omega (arith, lowest_digit (λ low. low) differ y x, odd))

pub bit_xor-half : (a b : ℕ) → bit_xor a b / 2 ≡ bit_xor (a / 2) (b / 2)
bit_xor-half a b = omega (arith, bit_xor_step a b)

pub bit_xor-parity : (a b : ℕ) → bit_xor a b % 2 ≡ (a + b) % 2
bit_xor-parity a b = omega (arith, bit_xor_step a b)

eq_of_halves : (a b : ℕ) → a / 2 ≡ b / 2 → a % 2 ≡ b % 2 → a ≡ b
eq_of_halves a b p q = omega arith

-- The laws go from `a / 2` to `a`, on a bound that every argument meets.
xor_comm_below : (n a b : ℕ) → a ≤ n → b ≤ n → bit_xor a b ≡ bit_xor b a
xor_comm_below zero zero zero p q = refl
xor_comm_below zero zero (suc b) p q = absurd (omega arith)
xor_comm_below zero (suc a) b p q = absurd (omega arith)
xor_comm_below (suc n) a b p q = omega (
  arith,
  bit_xor_step a b,
  bit_xor_step b a,
  xor_comm_below n (a / 2) (b / 2) (omega arith) (omega arith),
)

pub bit_xor_comm : (a b : ℕ) → bit_xor a b ≡ bit_xor b a
bit_xor_comm a b = xor_comm_below (a + b) a b (omega arith) (omega arith)

pub zero-bit_xor : (b : ℕ) → bit_xor 0 b ≡ b
zero-bit_xor b = bit_xor-bitwise 0 b

pub bit_xor-zero : (a : ℕ) → bit_xor a 0 ≡ a
bit_xor-zero a = bit_xor_comm a 0 ∙ zero-bit_xor a

xor_self_below : (n a : ℕ) → a ≤ n → bit_xor a a ≡ 0
xor_self_below zero zero p = refl
xor_self_below zero (suc a) p = absurd (omega arith)
xor_self_below (suc n) a p = omega (arith, bit_xor_step a a, xor_self_below n (a / 2) (omega arith))

pub bit_xor_self : (a : ℕ) → bit_xor a a ≡ 0
bit_xor_self a = xor_self_below a a (le_refl a)

xor_assoc_below :
    (n a b c : ℕ) → a ≤ n → b ≤ n → c ≤ n → bit_xor (bit_xor a b) c ≡ bit_xor a (bit_xor b c)
xor_assoc_below zero zero b c p q r =
    ap (λ (t : ℕ). bit_xor t c) (zero-bit_xor b) ∙ sym (zero-bit_xor (bit_xor b c))
xor_assoc_below zero (suc a) b c p q r = absurd (omega arith)
xor_assoc_below (suc n) a b c p q r =
    eq_of_halves (bit_xor (bit_xor a b) c) (bit_xor a (bit_xor b c))
      (rw
        (
          bit_xor-half (bit_xor a b) c,
          bit_xor-half a b,
          bit_xor-half a (bit_xor b c),
          bit_xor-half b c,
        )
        (xor_assoc_below n (a / 2) (b / 2) (c / 2) (omega arith) (omega arith) (omega arith)))
      (omega (
        arith,
        bit_xor-parity (bit_xor a b) c,
        bit_xor-parity a b,
        bit_xor-parity a (bit_xor b c),
        bit_xor-parity b c,
      ))

pub bit_xor_assoc : (a b c : ℕ) → bit_xor (bit_xor a b) c ≡ bit_xor a (bit_xor b c)
bit_xor_assoc a b c = xor_assoc_below (a + b + c) a b c (omega arith) (omega arith) (omega arith)

-- A number that is met twice drops out.
pub bit_xor_cancel : (a b : ℕ) → bit_xor (bit_xor a b) b ≡ a
bit_xor_cancel a b = bit_xor_assoc a b b ∙ ap (bit_xor a) (bit_xor_self b) ∙ bit_xor-zero a

pub bit_xor_injective : (a b c : ℕ) → bit_xor a c ≡ bit_xor b c → a ≡ b
bit_xor_injective a b c e =
    sym (bit_xor_cancel a c) ∙ ap (λ (t : ℕ). bit_xor t c) e ∙ bit_xor_cancel b c

pub bit_xor-lt : (k a b : ℕ) → a < 2 ^ k → b < 2 ^ k → bit_xor a b < 2 ^ k
bit_xor-lt zero a b p q =
    let e : a ≡ 0 = omega arith in
    let e' : b ≡ 0 = omega arith in omega (arith, ap (bit_xor a) e' ∙ bit_xor-zero a)
bit_xor-lt (suc k) a b p q = omega (
  arith,
  bit_xor_step a b,
  pow-suc 2 k,
  bit_xor-lt k (a / 2) (b / 2) (omega (arith, pow-suc 2 k)) (omega (arith, pow-suc 2 k)),
)

-- The bits from `k` on of an exclusive or with a number below `2 ^ k` are those of the other one.
pub bit_xor-shift : (k a b : ℕ) → b < 2 ^ k → bit_xor a b / 2 ^ k ≡ a / 2 ^ k
bit_xor-shift zero a b p = let e : b ≡ 0 = omega arith in rw e (rw bit_xor-zero)
bit_xor-shift (suc k) a b p =
    rw
      (
        pow-succ' 2 k,
        ← div-div-eq-div-mul (bit_xor a b) 2 (2 ^ k),
        ← div-div-eq-div-mul a 2 (2 ^ k),
        bit_xor-half a b,
      )
      (bit_xor-shift k (a / 2) (b / 2) (omega (arith, pow-suc 2 k)))

bit_or_comm_below : (n a b : ℕ) → a ≤ n → b ≤ n → bit_or a b ≡ bit_or b a
bit_or_comm_below zero zero zero p q = refl
bit_or_comm_below zero zero (suc b) p q = absurd (omega arith)
bit_or_comm_below zero (suc a) b p q = absurd (omega arith)
bit_or_comm_below (suc n) a b p q = omega (
  arith,
  bit_or_step a b,
  bit_or_step b a,
  bit_or_comm_below n (a / 2) (b / 2) (omega arith) (omega arith),
)

pub bit_or_comm : (a b : ℕ) → bit_or a b ≡ bit_or b a
bit_or_comm a b = bit_or_comm_below (a + b) a b (omega arith) (omega arith)

pub bit_or-zero : (a : ℕ) → bit_or a 0 ≡ a
bit_or-zero a = bit_or_comm a 0 ∙ bit_or-bitwise 0 a

double_shift : (q k : ℕ) → q * 2 ^ suc k ≡ 2 * (q * 2 ^ k)
double_shift q k = omega (arith, ap (λ (t : ℕ). q * t) (pow-suc 2 k))

-- Fields that do not overlap add up, for `|` and for `^` alike.
pub bit_or_disjoint : (k q r : ℕ) → r < 2 ^ k → bit_or (q * 2 ^ k) r ≡ q * 2 ^ k + r
bit_or_disjoint zero q r h = let e : r ≡ 0 = omega arith in rw e (rw bit_or-zero (omega arith))
bit_or_disjoint (suc k) q r h =
    let half : q * 2 ^ suc k / 2 ≡ q * 2 ^ k = omega (arith, double_shift q k) in
    omega (
      arith,
      bit_or_step (q * 2 ^ suc k) r,
      double_shift q k,
      ap (λ (t : ℕ). bit_or t (r / 2)) half,
      bit_or_disjoint k q (r / 2) (omega (arith, pow-suc 2 k)),
    )

pub bit_xor_disjoint : (k q r : ℕ) → r < 2 ^ k → bit_xor (q * 2 ^ k) r ≡ q * 2 ^ k + r
bit_xor_disjoint zero q r h = let e : r ≡ 0 = omega arith in rw e (rw bit_xor-zero (omega arith))
bit_xor_disjoint (suc k) q r h =
    let half : q * 2 ^ suc k / 2 ≡ q * 2 ^ k = omega (arith, double_shift q k) in
    omega (
      arith,
      bit_xor_step (q * 2 ^ suc k) r,
      double_shift q k,
      ap (λ (t : ℕ). bit_xor t (r / 2)) half,
      bit_xor_disjoint k q (r / 2) (omega (arith, pow-suc 2 k)),
    )

-- The same where the high field is known to be a multiple.
pub bit_or_sum : (k q a r : ℕ) → a ≡ q * 2 ^ k → r < 2 ^ k → bit_or a r ≡ a + r
bit_or_sum k q a r e h = rw e (bit_or_disjoint k q r h)

pub bit_or_sum' : (k q a r : ℕ) → a ≡ q * 2 ^ k → r < 2 ^ k → bit_or r a ≡ r + a
bit_or_sum' k q a r e h = omega (arith, bit_or_comm r a, bit_or_sum k q a r e h)
