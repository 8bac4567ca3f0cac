-- ===== src/Version/Scan.antt =====
-- `load_ver_scan_file` of Source/load/load_ver.c, for a file that is open and with memory for the buffer.
-- `Read` of dos.library is a parameter: the next bytes of a file, up to a number, and the file behind
-- them.
use lhassa.Base.{
  ℕ, zero, suc, ◌-◌, List, [], ◌∷◌, ◌++◌, drop, length, ◌==◌, if◌then◌else◌, ◌&&◌, ◌||◌, Option,
  none, some,
}
use lhassa.Outcome.{Outcome, done, out_of_fuel, bind}
use lhassa.Version.{VerInfo, is_tag, parse_line}

-- What `load_ver_scan_file` returns: 1, 0 or -1.
pub data Scanned : Type 0 where
  found : VerInfo → Scanned
  unreadable no_tag : Scanned

-- `for (i = 0; i + 5 <= r; i++)`: the buffer from the first tag on.
unfoldable pub find_tag : List ℕ → Option (List ℕ)
unfolding is_tag
find_tag [] = none
find_tag (c ∷ s) = let rest = find_tag s in if is_tag (c ∷ s) then some (c ∷ s) else rest

-- The line of a tag, up to 127 characters.
pub line_of : ℕ → List ℕ → List ℕ
line_of zero s = []
line_of (suc room) [] = []
line_of (suc room) (c ∷ s) =
    let rest = line_of room s in if c == 0 || c == 10 || c == 13 then [] else c ∷ rest

abbrev pub scanned : Option VerInfo → Scanned
scanned none = unreadable
scanned (some vi) = found vi

module _ {File : Type 0} (str_to_long : List ℕ → Option (ℕ × ℕ))
    (read : ℕ → File → Option (List ℕ × File)) where
  module _ (next : List ℕ → File → Outcome Scanned) where
    -- A line with a tag ends the scan, and its last four bytes are kept of a block without one.
    unfoldable pub after_search : List ℕ → File → Option (List ℕ) → Outcome Scanned
    unfolding line_of parse_line
    after_search buf file (some tag) =
        bind (parse_line str_to_long (line_of 127 tag)) λ vi. done (scanned vi)
    after_search buf file none =
        let rest = next (drop (length buf - 4) buf) file in
        if length buf == 0 then done no_tag else rest

    unfoldable pub after_read : List ℕ → Option (List ℕ × File) → Outcome Scanned
    unfolding find_tag after_search
    after_read kept none = done unreadable
    after_read kept (some (block, file)) =
        let search = after_search (kept ++ block) file (find_tag (kept ++ block)) in
        if length block == 0 && length kept == 0 then done no_tag else search

  -- `for (;;)`, with `keep` bytes from the last block at the start of the buffer. 4096 is
  -- `LOAD_VER_BUF`.
  unfoldable pub scan_loop : ℕ → List ℕ → File → Outcome Scanned
  unfolding after_read
  scan_loop zero kept file = out_of_fuel
  scan_loop (suc fuel) kept file = after_read (scan_loop fuel) kept (read 4096 file)

  -- `load_ver_scan_file`, from its loop on.
  unfoldable pub scan_file : ℕ → File → Outcome Scanned
  unfolding scan_loop
  scan_file fuel file = scan_loop fuel [] file
