-- ===== src/Version.antt =====
-- Version strings of Source/load/load_ver.c: `struct LoadVerInfo`, `load_ver_parse_line` and what it
-- calls, and `load_ver_compare`. `StrToLong` of dos.library is a parameter: the number of
-- characters that it takes, if there is a number, and the number as its 32-bit pattern.
pub mod Scan
pub mod Endless
pub mod Order
use lhassa.Base.{
  ℕ, zero, suc, ◌+◌, ◌*◌, ◌%◌, ◌^◌, List, [], ◌∷◌, drop, length, ltb, leb, ◌==◌, if◌then◌else◌,
  ◌&&◌, ◌||◌, not, Bool, true, false, Option, none, some, get_or,
}
use lhassa.Outcome.{Outcome, done, out_of_fuel, bind}

pub record VerInfo : Type 0 where
  pub have_ver : Bool
  pub have_date : Bool
  pub major : ℕ
  pub minor : ℕ
  pub ymd : ℕ

-- `load_ver_clear`
abbrev pub clear : VerInfo
clear = record { have_ver = false; have_date = false; major = 0; minor = 0; ymd = 0 }

abbrev pub is_ws : ℕ → Bool
is_ws c = c == b' ' || c == 9

-- `load_ver_skip_ws`
pub skip_ws : List ℕ → List ℕ
skip_ws [] = []
skip_ws (c ∷ s) = let rest = skip_ws s in if is_ws c then rest else c ∷ s

-- `load_ver_next_tok`: the token and what is behind it.
pub next_tok : List ℕ → List ℕ × List ℕ
next_tok [] = ([], [])
next_tok (c ∷ s) =
    let rest = next_tok s in if is_ws c || c == b'(' then ([], c ∷ s) else (c ∷ rest.0, rest.1)

-- `$VER:`
unfoldable pub is_tag : List ℕ → Bool
is_tag s =
    leb 5 (length s)
    && get_or s 0 0 == b'$'
    && get_or s 1 0 == b'V'
    && get_or s 2 0 == b'E'
    && get_or s 3 0 == b'R'
    && get_or s 4 0 == b':'

module _ (str_to_long : List ℕ → Option (ℕ × ℕ)) where
  -- A number that is not negative, and what is behind it.
  pub number : List ℕ → Option (ℕ × List ℕ)
  number s = elim (str_to_long s) [
    | none ↦ none
    | some (n, a) ↦ if leb (2 ^ 31) a then none else some (a, drop n s)
  ]

  -- `load_ver_parse_token`
  unfoldable pub parse_token : List ℕ → Option (ℕ × ℕ)
  unfolding number
  parse_token tok = elim (number tok) [
    | none ↦ none
    | some (a, p) ↦
        if get_or p 0 0 == b'.'
        then elim (number (drop 1 p)) [
          | none ↦ none
          | some (b, q) ↦
              let c = get_or q 0 0 in if c == 0 || is_ws c || c == b'.' then some (a, b) else none
        ]
        else none
  ]

  -- `load_ver_parse_dotted`
  pub parse_dotted : List ℕ → Option (ℕ × ℕ)
  unfolding parse_token
  parse_dotted s = parse_token s

  -- A number between two bounds, and what is behind it.
  pub part : ℕ → ℕ → List ℕ → Option (ℕ × List ℕ)
  unfolding number
  part low high s = elim (number s) [
    | none ↦ none
    | some (a, p) ↦ if ltb a low || ltb high a then none else some (a, p)
  ]

  abbrev pub is_separator : ℕ → Bool
  is_separator c = c == b'.' || c == b'/'

  -- `load_ver_parse_date`, from the `(` on.
  unfoldable pub parse_date : List ℕ → Option ℕ
  unfolding part
  parse_date s = elim (part 1 31 (drop 1 s)) [
    | none ↦ none
    | some (day, p) ↦
        if is_separator (get_or p 0 0)
        then elim (part 1 12 (drop 1 p)) [
          | none ↦ none
          | some (month, q) ↦
              if is_separator (get_or q 0 0)
              then elim (number (drop 1 q)) [
                | none ↦ none
                | some (year, r) ↦ some (year % 100 * 10000 + month * 100 + day)
              ]
              else none
        ]
        else none
  ]

  -- The first token that is a version.
  pub note_token : List ℕ → VerInfo → VerInfo
  unfolding parse_token
  note_token tok vi = if vi.have_ver then vi else elim (parse_token tok) [
    | none ↦ vi
    | some (major, minor) ↦ record vi { have_ver = true; major = major; minor = minor }
  ]

  -- `while (*p != '\0')`: each round takes a character at least. The rest begins with `(` or is empty.
  unfoldable pub token_loop : ℕ → List ℕ → VerInfo → Outcome (List ℕ × VerInfo)
  unfolding note_token next_tok skip_ws
  token_loop fuel [] vi = done ([], vi)
  token_loop zero (c ∷ s) vi = out_of_fuel
  token_loop (suc fuel) (c ∷ s) vi =
      let (tok, behind) = next_tok (c ∷ s) in
      let rest = token_loop fuel (skip_ws (drop 1 behind)) (note_token tok vi) in
      if c == b'(' then done (c ∷ s, vi) else rest

  -- The date is optional, but a `(` has to begin one.
  pub with_date : List ℕ × VerInfo → Option VerInfo
  unfolding parse_date
  with_date ([], vi) = if vi.have_ver then some vi else none
  with_date (c ∷ s, vi) =
      if vi.have_ver
      then elim (parse_date (c ∷ s)) [
        | none ↦ none
        | some ymd ↦ some (record vi { have_date = true; ymd = ymd })
      ]
      else none

  -- `load_ver_parse_line` of a line that its buffer holds; `none` is its result 0, where the structure
  -- is cleared.
  unfoldable pub parse_line : List ℕ → Outcome (Option VerInfo)
  unfolding is_tag token_loop with_date skip_ws
  parse_line s =
      let parsed =
        bind (token_loop (length s) (skip_ws (drop 5 s)) clear) λ r. done (with_date r) in
      if is_tag s then parsed else done none

-- A comparison's result: 1, 0 or -1 in the source.
pub data Verdict : Type 0 where
  newer same older : Verdict

-- `if (a > b) return 1; if (a < b) return -1;`
unfoldable pub by_number : ℕ → ℕ → Verdict → Verdict
by_number a b rest = if ltb b a then newer else if ltb a b then older else rest

unfoldable pub by_date : VerInfo → VerInfo → Verdict
unfolding by_number
by_date cand inst =
    if cand.have_date && inst.have_date then by_number cand.ymd inst.ymd same else same

-- `load_ver_compare` of two structures that are there.
unfoldable pub compare : VerInfo → VerInfo → Verdict
unfolding by_number by_date
compare cand inst =
    if cand.have_ver && inst.have_ver
    then by_number cand.major inst.major (by_number cand.minor inst.minor (by_date cand inst))
    else if cand.have_ver && not inst.have_ver
    then newer
    else if not cand.have_ver && inst.have_ver
    then older
    else by_date cand inst
