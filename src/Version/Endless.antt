-- ===== src/Version/Endless.antt =====
-- Source/load/load_ver.c on a file without a version.
use lhassa.Base.{
  ℕ, zero, suc, ◌-◌, ◌≡◌, ◌≤◌, refl, ap, ◌∙◌, List, [], ◌∷◌, ◌++◌, drop, length, length-drop,
  append-nil, lt→leb, arith, Option, none, some, Bool, true, false, if◌then◌else◌, ◌==◌, ◌&&◌,
}
use lhassa.Outcome.{Outcome, done, out_of_fuel}
use lhassa.Version.{is_tag}
use lhassa.Version.Scan.{Scanned, no_tag, find_tag, after_search, after_read, scan_loop, scan_file}

not_empty : (n : ℕ) → (suc n == 0) ≡ false
not_empty n = ground arith

and_not_empty : (n : ℕ) (test : Bool) → (test && suc n == 0) ≡ false
and_not_empty n true = not_empty n
and_not_empty n false = refl

-- A tag has five bytes.
short-untagged : (s : List ℕ) → length s ≤ 4 → find_tag s ≡ none
unfolding find_tag is_tag
short-untagged [] few = refl
short-untagged (c ∷ s) few =
    rw (lt→leb (length (c ∷ s)) 5 (omega (arith, few))) (short-untagged s (omega (arith, few)))

module _ {File : Type 0} (str_to_long : List ℕ → Option (ℕ × ℕ))
    (read : ℕ → File → Option (List ℕ × File)) where
  module _ (next : List ℕ → File → Outcome Scanned) where
    -- A block without a tag: the search goes on with its last four bytes.
    searched :
        (kept block : List ℕ) (b : ℕ) (s : List ℕ) (file : File)
        → kept ++ block ≡ b ∷ s
        → find_tag (b ∷ s) ≡ none
        → (length block == 0 && length kept == 0) ≡ false
        → after_read str_to_long read next kept (some (block, file))
          ≡ next (drop (length (b ∷ s) - 4) (b ∷ s)) file
    unfolding after_read after_search
    searched kept block b s file whole missing some' =
        ap
          (λ (x : Bool).
            if x
            then done no_tag
            else after_search str_to_long read next (kept ++ block) file (find_tag (kept ++ block)))
          some'
        ∙ ap (λ (x : List ℕ). after_search str_to_long read next x file (find_tag x)) whole
        ∙ ap (after_search str_to_long read next (b ∷ s) file) missing
        ∙ ap
            (λ (x : Bool). if x then done no_tag else next (drop (length (b ∷ s) - 4) (b ∷ s)) file)
            (not_empty (length s))

  -- The bytes that are kept stand for the next round, in which nothing is read.
  kept_forever :
      (fuel b : ℕ) (s : List ℕ) (file : File)
      → read 4096 file ≡ some ([], file)
      → length (b ∷ s) ≤ 4
      → scan_loop str_to_long read fuel (b ∷ s) file ≡ out_of_fuel
  unfolding scan_loop
  kept_forever zero b s file ended few = refl
  kept_forever (suc fuel) b s file ended few =
      let next = scan_loop str_to_long read fuel in
      let start : length (b ∷ s) - 4 ≡ 0 = omega (arith, few) in
      ap (after_read str_to_long read next (b ∷ s)) ended
      ∙ searched next (b ∷ s) [] b s file (append-nil (b ∷ s)) (short-untagged (b ∷ s) few)
          (and_not_empty (length s) true)
      ∙ ap (λ (n : ℕ). next (drop n (b ∷ s)) file) start
      ∙ kept_forever fuel b s file ended few

  kept_after :
      (fuel : ℕ) (kept : List ℕ) (file : File)
      → read 4096 file ≡ some ([], file)
      → length kept ≤ 4
      → 1 ≤ length kept
      → scan_loop str_to_long read fuel kept file ≡ out_of_fuel
  kept_after fuel [] file ended few some' = absurd (omega (arith, some'))
  kept_after fuel (b ∷ s) file ended few some' = kept_forever fuel b s file ended few

  -- For a file that one call of `Read` reads whole, that is not empty and has no `$VER:` in it:
  -- the loop of `load_ver_scan_file` never ends, however often it goes round.
  pub scan_file-endless :
      (fuel b : ℕ) (s : List ℕ) (file file' : File)
      → read 4096 file ≡ some (b ∷ s, file')
      → read 4096 file' ≡ some ([], file')
      → find_tag (b ∷ s) ≡ none
      → scan_file str_to_long read fuel file ≡ out_of_fuel
  unfolding scan_file scan_loop
  scan_file-endless zero b s file file' first ended missing = refl
  scan_file-endless (suc fuel) b s file file' first ended missing =
      let next = scan_loop str_to_long read fuel in
      let left = length-drop (length (b ∷ s) - 4) (b ∷ s) in
      ap (after_read str_to_long read next []) first
      ∙ searched next [] (b ∷ s) b s file' refl missing (not_first (length s))
      ∙ kept_after fuel (drop (length (b ∷ s) - 4) (b ∷ s)) file' ended (omega (arith, left))
          (omega (arith, left))
    where
      not_first : (n : ℕ) → (suc n == 0 && 0 == 0) ≡ false
      not_first n = ground arith
