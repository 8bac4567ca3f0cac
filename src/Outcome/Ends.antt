-- ===== src/Outcome/Ends.antt =====
-- Code with loops on fuel that does not end for want of fuel.
use lhassa.Base.{◌≡◌, ◌≢◌, refl}
use lhassa.Method.{Status}
use lhassa.Outcome.{Outcome, done, failed, fault, out_of_fuel, bind, continue}

-- An outcome that is not the end of the fuel.
abbrev pub Ends {ℓ} : {A : Type ℓ} → Outcome A → Type ℓ
Ends r = r ≢ out_of_fuel

pub done-Ends {ℓ} : {A : Type ℓ} {a : A} → Ends (done a)
done-Ends p = cc

pub failed-Ends {ℓ} : {A : Type ℓ} {st : Status} → Ends {ℓ} {A = A} (failed st)
failed-Ends p = cc

pub fault-Ends {ℓ} : {A : Type ℓ} → Ends {ℓ} {A = A} fault
fault-Ends p = cc

pub Ends-bind {ℓ κ} :
    {A : Type ℓ} {B : Type κ} (r : Outcome A) {f : A → Outcome B}
    → Ends r
    → ((a : A) → r ≡ done a → Ends (f a))
    → Ends (bind r f)
Ends-bind (done a) h hf = hf a refl
Ends-bind (failed st) h hf = failed-Ends
Ends-bind fault h hf = fault-Ends
Ends-bind out_of_fuel h hf = absurd (h refl)

-- The same of stateful code.
pub Ends-continue {ℓ κ μ} :
    {S : Type ℓ} {A : Type κ} {B : Type μ} (r : Outcome A × S) (f : A → S → Outcome B × S)
    → Ends r.0
    → ((a : A) (s : S) → r.0 ≡ done a → Ends (f a s).0)
    → Ends (continue r f).0
Ends-continue (done a, s) f h hf = hf a s refl
Ends-continue (failed st, s) f h hf = failed-Ends
Ends-continue (fault, s) f h hf = fault-Ends
Ends-continue (out_of_fuel, s) f h hf = absurd (h refl)
