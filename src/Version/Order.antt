-- ===== src/Version/Order.antt =====
-- `load_ver_compare` of Source/load/load_ver.c in both directions.
use lhassa.Base.{ℕ, ◌≡◌, refl, ap, ◌∙◌, arith, Bool, true, false, if◌then◌else◌, ◌&&◌, not}
use lhassa.Version.{VerInfo, Verdict, newer, same, older, by_number, by_date, compare}

unfoldable pub opposite : Verdict → Verdict
opposite newer = older
opposite same = same
opposite older = newer

opposite-by_number :
    (a b : ℕ) (rest : Verdict) → opposite (by_number a b rest) ≡ by_number b a (opposite rest)
unfolding by_number opposite
opposite-by_number a b rest = ground arith

-- Both sides have a date, or it does not count.
dated :
    (p q : Bool) (a b : ℕ)
    → opposite (if p && q then by_number a b same else same)
      ≡ (if q && p then by_number b a same else same)
unfolding opposite
dated true true a b = opposite-by_number a b same
dated true false a b = refl
dated false true a b = refl
dated false false a b = refl

opposite-by_date : (a b : VerInfo) → opposite (by_date a b) ≡ by_date b a
unfolding by_date
opposite-by_date a b = dated a.have_date b.have_date a.ymd b.ymd

-- Both sides have a version, or the one that has is newer.
versioned :
    (p q : Bool) (x y x' y' : Verdict)
    → opposite x ≡ x'
    → opposite y ≡ y'
    → opposite (if p && q then x else if p && not q then newer else if not p && q then older else y)
      ≡ (if q && p then x' else if q && not p then newer else if not q && p then older else y')
unfolding opposite
versioned true true x y x' y' e f = e
versioned true false x y x' y' e f = refl
versioned false true x y x' y' e f = refl
versioned false false x y x' y' e f = f

-- For every two versions: `load_ver_compare` the other way round gives the opposite result.
pub opposite-compare : (cand inst : VerInfo) → opposite (compare cand inst) ≡ compare inst cand
unfolding compare
opposite-compare cand inst =
    versioned cand.have_ver inst.have_ver _ _ _ _
      (opposite-by_number cand.major inst.major
          (by_number cand.minor inst.minor (by_date cand inst))
        ∙ ap (by_number inst.major cand.major) (
            opposite-by_number cand.minor inst.minor (by_date cand inst)
            ∙ ap (by_number inst.minor cand.minor) (opposite-by_date cand inst)))
      (opposite-by_date cand inst)
