-- ===== src/Base/Arrays.antt =====
-- Arrays of C that are too long to be lists: the value at each index.
use Prim.Native.Nat.{ℕ, zero, suc}
use mathlib.Core.List.{List, [], ◌∷◌}
use mathlib.Core.Bool.{◌&&◌}
use lhassa.Base.Tests.{ltb, leb, ◌==◌, if◌then◌else◌}

-- `a[i] = v`
abbrev pub store : (ℕ → ℕ) → ℕ → ℕ → ℕ → ℕ
store a i v j = if j == i then v else a j

-- `for (i = from; i < upto; i++) a[i] = v`
abbrev pub fill : (ℕ → ℕ) → ℕ → ℕ → ℕ → ℕ → ℕ
fill a from upto v j = if leb from j && ltb j upto then v else a j

-- `a[i] = v` in a short array
abbrev pub set {ℓ} : {A : Type ℓ} → List A → ℕ → A → List A
set [] i v = []
set (x ∷ xs) zero v = v ∷ xs
set (x ∷ xs) (suc i) v = x ∷ set xs i v
