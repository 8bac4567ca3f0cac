-- ===== src/Outcome.antt =====
-- What an operation on a stream gives: a value, one of the source's status codes, or undefined
-- behaviour of C. Stateful code is a function of the state, chained by `do`.
pub mod Ends
use lhassa.Base.{◌≡◌, refl, ap, Bool, true, false, if◌then◌else◌}
use lhassa.Method.{Status}

-- `fault` is an access outside an array; `out_of_fuel` is the end of a loop's fuel, which the
-- theorems on each loop rule out.
pub data Outcome {ℓ} (A : Type ℓ) : Type ℓ where
  done : A → Outcome A
  failed : Status → Outcome A
  fault out_of_fuel : Outcome A

-- The pure steps between the reads.
abbrev pub lift {ℓ κ} : {S : Type ℓ} {A : Type κ} → Outcome A → S → Outcome A × S
lift r s = (r, s)

abbrev pub pure {ℓ κ} : {S : Type ℓ} {A : Type κ} → A → S → Outcome A × S
pure a s = (done a, s)

abbrev pub fail {ℓ κ} : {S : Type ℓ} {A : Type κ} → Status → S → Outcome A × S
fail st s = (failed st, s)

-- A change of the state, and a step that depends on it.
abbrev pub modify {ℓ} : {S : Type ℓ} → (S → S) → S → Outcome (Unit {0}) × S
modify f s = (done tt, f s)

abbrev pub with_state {ℓ κ} :
    {S : Type ℓ} {A : Type κ} → (S → S → Outcome A × S) → S → Outcome A × S
with_state m s = m s s

-- What follows an outcome.
abbrev pub continue {ℓ κ μ} :
    {S : Type ℓ} {A : Type κ} {B : Type μ} → Outcome A × S → (A → S → Outcome B × S) → Outcome B × S
continue (done a, s) f = f a s
continue (failed st, s) f = (failed st, s)
continue (fault, s) f = (fault, s)
continue (out_of_fuel, s) f = (out_of_fuel, s)

infixl 5 ◌>>=◌ ◌>>◌
abbrev pub ◌>>=◌ {ℓ κ μ} :
    {S : Type ℓ} {A : Type κ} {B : Type μ}
    → (S → Outcome A × S)
    → (A → S → Outcome B × S)
    → S
    → Outcome B × S
◌>>=◌ m f s = continue (m s) f

abbrev pub ◌>>◌ {ℓ κ μ} :
    {S : Type ℓ} {A : Type κ} {B : Type μ}
    → (S → Outcome A × S)
    → (S → Outcome B × S)
    → S
    → Outcome B × S
◌>>◌ m k s = continue (m s) (λ _. k)

-- `if (test) return st;`
abbrev pub stop_if {ℓ} : {S : Type ℓ} → Bool → Status → S → Outcome (Unit {0}) × S
stop_if true st s = (failed st, s)
stop_if false st s = (done tt, s)

-- The chain of pure steps.
abbrev pub bind {ℓ κ} : {A : Type ℓ} {B : Type κ} → Outcome A → (A → Outcome B) → Outcome B
bind (done a) f = f a
bind (failed st) f = failed st
bind fault f = fault
bind out_of_fuel f = out_of_fuel

-- Chains regroup, and depend on what their first part gives only.
module _ {ℓ κ μ ν} {S : Type ℓ} {A : Type κ} {B : Type μ} {C : Type ν} where
  pub continue_assoc :
      (r : Outcome A × S) (f : A → S → Outcome B × S) (g : B → S → Outcome C × S)
      → continue (continue r f) g ≡ continue r (λ a s. continue (f a s) g)
  continue_assoc (done a, s) f g = refl
  continue_assoc (failed st, s) f g = refl
  continue_assoc (fault, s) f g = refl
  continue_assoc (out_of_fuel, s) f g = refl

module _ {ℓ κ μ} {S : Type ℓ} {A : Type κ} {B : Type μ} where
  pub continue-eq :
      (r : Outcome A × S) (f g : A → S → Outcome B × S)
      → ((a : A) (s : S) → r ≡ (done a, s) → f a s ≡ g a s)
      → continue r f ≡ continue r g
  continue-eq (done a, s) f g same = same a s refl
  continue-eq (failed st, s) f g same = refl
  continue-eq (fault, s) f g same = refl
  continue-eq (out_of_fuel, s) f g same = refl

  pub continue-eq-done :
      (r : Outcome A × S) (f : A → S → Outcome B × S) {b : B} {s' : S}
      → continue r f ≡ (done b, s')
      → (a : A) × (s : S) × (r ≡ (done a, s)) × (f a s ≡ (done b, s'))
  continue-eq-done (done a, s) f e = (a, s, refl, e)
  continue-eq-done (failed st, s) f e = absurd (cc)
  continue-eq-done (fault, s) f e = absurd (cc)
  continue-eq-done (out_of_fuel, s) f e = absurd (cc)

pub bind-eq-done {ℓ κ} :
    {A : Type ℓ} {B : Type κ} (r : Outcome A) (f : A → Outcome B) {b : B}
    → bind r f ≡ done b
    → (a : A) × (r ≡ done a) × (f a ≡ done b)
bind-eq-done (done a) f e = (a, refl, e)
bind-eq-done (failed st) f e = absurd (cc)
bind-eq-done fault f e = absurd (cc)
bind-eq-done out_of_fuel f e = absurd (cc)

abbrev value_or {ℓ} : {A : Type ℓ} → A → Outcome A → A
value_or d (done a) = a
value_or d _ = d

pub done-injective {ℓ} : {A : Type ℓ} {a b : A} → done a ≡ done b → a ≡ b
done-injective {a} e = ap (value_or a) e

-- What a guarded step gives, if it gives anything.
pub guarded {ℓ} :
    {A : Type ℓ} (test : Bool) (st : Status) {a b : A}
    → (if test then failed st else done a) ≡ done b
    → a ≡ b
guarded true st e = absurd (cc)
guarded false st e = done-injective e

-- What follows a guard that has let it pass.
pub unrefused {ℓ} :
    {A : Type ℓ} (test : Bool) (st : Status) {r : Outcome A} {b : A}
    → (if test then failed st else r) ≡ done b
    → (test ≡ false) × (r ≡ done b)
unrefused true st e = absurd (cc)
unrefused false st e = (refl, e)
