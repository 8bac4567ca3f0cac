-- ===== src/Header/Path.antt =====
-- Paths in headers: `lh_hdr_split_path` takes a path apart for a level-2 header, and every reader
-- joins the directory and the name again. `malloc_ok n` says whether `malloc(n)` succeeds.
use lhassa.Base.{
  ℕ, suc, ◌+◌, ◌-◌, Bool, false, ◌&&◌, ◌||◌, not, List, [], ◌∷◌, ◌++◌, map, Option, none, some,
  take, drop, length, get_or, ltb, ◌==◌, if◌then◌else◌,
}
use lhassa.Method.{err_no_memory, err_bad_header}
use lhassa.Outcome.{Outcome, done, failed}
use lhassa.Bytes.{cstr}

-- `strrchr(s, c)`, as an index.
unfoldable pub strrchr : ℕ → List ℕ → Option ℕ
strrchr c [] = none
strrchr c (x ∷ s) = elim (strrchr c s) [
  | some i ↦ some (suc i)
  | none ↦ if x == c then some 0 else none
]

-- One character of a directory for the wire, and back.
abbrev pub to_wire : ℕ → ℕ
to_wire c = if c == b'/' then 0xff else c

abbrev pub from_wire : ℕ → ℕ
from_wire c = if c == 0xff then b'/' else c

-- The directory part, the first `slash` characters, in an array of 512.
unfoldable pub split_dir : List ℕ → ℕ → List ℕ
split_dir full slash =
    let dlen = if ltb 512 (slash + 1) then 511 else slash in
    let dirpath = map to_wire (take dlen full) in
    if ltb 0 dlen && (not (get_or dirpath (dlen - 1) 0 == 0xff) && ltb (dlen + 1) 512)
    then dirpath ++ 0xff ∷ []
    else dirpath

-- `lh_hdr_split_path`: the name, in an array of 256, and the directory.
unfoldable pub split_path : List ℕ → List ℕ × List ℕ
unfolding strrchr split_dir
split_path full = elim (strrchr b'/' full) [
  | none ↦ (take 255 full, [])
  | some slash ↦ (take 255 (drop (slash + 1) full), split_dir full slash)
]

abbrev pub is_sep : ℕ → Bool
is_sep c = c == b'/' || c == b':'

-- `combined`: the directory, a separator if it ends in none, and the name.
unfoldable pub join_dir : List ℕ → List ℕ → List ℕ
join_dir dir name =
    if is_sep (get_or dir (length dir - 1) 0) then dir ++ name else dir ++ b'/' ∷ name

-- `while (dlen > 0 && ...) dlen--;`: the directory without separators at its end.
unfoldable pub strip_seps : List ℕ → List ℕ
strip_seps [] = []
strip_seps (c ∷ dir) = elim (strip_seps dir) [
  | [] ↦ if is_sep c then [] else c ∷ []
  | x ∷ rest ↦ c ∷ x ∷ rest
]

-- `meta->filename && meta->filename[0]`
abbrev pub has_name : Option (List ℕ) → Bool
has_name none = false
has_name (some []) = false
has_name (some (c ∷ name)) = not (c == 0)

module _ (malloc_ok : ℕ → Bool) where
  -- The directory alone, where there is no name.
  unfoldable pub promote_dir : List ℕ → Outcome (Option (List ℕ))
  promote_dir [] = failed err_bad_header
  promote_dir (c ∷ dir) =
      if malloc_ok (length (c ∷ dir) + 1) then done (some (c ∷ dir)) else failed err_no_memory

  -- Both branches at the end of a chain of extensions, over `dirbuf` and `meta->filename`.
  unfoldable pub finish_path : List ℕ → Option (List ℕ) → Outcome (Option (List ℕ))
  unfolding promote_dir
  finish_path [] filename = done filename
  finish_path (d ∷ dir) filename =
      let name : List ℕ = elim filename [ none ↦ [] | some s ↦ cstr s ] in
      if has_name filename
      then if malloc_ok (length (d ∷ dir) + length name + 2)
        then done (some (join_dir (d ∷ dir) name))
        else failed err_no_memory
      else promote_dir (strip_seps (d ∷ dir))
