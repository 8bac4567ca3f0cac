-- ===== src/Examples/Version.antt =====
-- Tests of version strings.
use lhassa.Base.{
  ℕ, ◌-◌, ◌≡◌, ◌*◌, ◌+◌, refl, List, [], ◌∷◌, take, drop, Option, none, some, true, ltb, leb, ◌&&◌,
  if◌then◌else◌,
}
use lhassa.Outcome.{done, out_of_fuel}
use lhassa.Version.{VerInfo, older, parse_line, compare}
use lhassa.Version.Scan.{scan_file, find_tag}
use lhassa.Version.Endless.{scan_file-endless}
use lhassa.Version.Order.{opposite, opposite-compare}

-- A file in memory, and the decimal digits at the start of a string.
abbrev read_some : ℕ → List ℕ → Option (List ℕ × List ℕ)
read_some n file = some (take n file, drop n file)

digits : ℕ → ℕ → List ℕ → ℕ × ℕ
digits n a [] = (n, a)
digits n a (c ∷ s) =
    let rest = digits (n + 1) (a * 10 + (c - 48)) s in if leb 48 c && ltb c 58 then rest else (n, a)

to_long : List ℕ → Option (ℕ × ℕ)
unfolding digits
to_long s = let (n, a) = digits 0 0 s in if ltb 0 n then some (n, a) else none

abbrev info : ℕ → VerInfo
info ymd = record { have_ver = true; have_date = true; major = 1; minor = 2; ymd = ymd }

-- `$VER: a 1.2 (3.4.91)`, and the year 2001 before the year 1999.
parsed :
    parse_line to_long (
      36 ∷ 86 ∷ 69 ∷ 82 ∷ 58 ∷ 32 ∷ 97 ∷ 32 ∷ 49 ∷ 46 ∷ 50 ∷ 32 ∷ 40 ∷ 51 ∷ 46 ∷ 52 ∷ 46 ∷ 57 ∷ 49
      ∷ 41 ∷ [])
    ≡ done (some (info 910403))
unfolding parse_line to_long
parsed = refl

century : compare (info 10101) (info 991231) ≡ older
unfolding compare
century = refl

opposite-compare_example :
    opposite (compare (info 910403) (info 920101)) ≡ compare (info 920101) (info 910403)
opposite-compare_example = opposite-compare (info 910403) (info 920101)

no_version : find_tag (65 ∷ 66 ∷ []) ≡ none
unfolding find_tag
no_version = refl

scan_file-endless_example : scan_file to_long read_some 5 (65 ∷ 66 ∷ []) ≡ out_of_fuel
scan_file-endless_example =
    scan_file-endless to_long read_some 5 65 (66 ∷ []) (65 ∷ 66 ∷ []) [] refl refl no_version
