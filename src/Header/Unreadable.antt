-- ===== src/Header/Unreadable.antt =====
-- Level-2 headers that `lh_hdr_write` makes and `lh_hdr_read` rejects.
use lhassa.Base.{ℕ, ◌^◌, ◌%◌, ◌≤◌, ◌<◌, ◌≡◌, refl, ap, ◌∙◌, arith, Bool, List, [], ◌∷◌, ◌++◌, some}
use lhassa.Method.{err_bad_header}
use lhassa.Outcome.{Outcome, done, failed}
use lhassa.Stream.{Dos, Stream}
use lhassa.Stream.Memory.{Ahead, read_exact-done}
use lhassa.Bytes.{cstr}
use lhassa.Header.{HdrMeta, hdr_buf}
use lhassa.Header.Paths.{IsPath}
use lhassa.Header.Read.{hdr_read, check_len}
use lhassa.Header.Write.{hdr_write}
use lhassa.Header.Write.Level2.{level2_bytes}
use lhassa.Header.Reread.{Appends, Holds}
use lhassa.Header.Reread.Level2.{tail, sealed, length-unsealed, crc_of}
use lhassa.Header.RoundtripLevel2.{level2_size, wire, level2_bytes-sealed}
use lhassa.Header.Written.{hdr_write-level2}

check_len-short :
    {dos : Dos} (b : ℕ) (s : Stream dos)
    → 1 ≤ b
    → b < 20
    → check_len b s ≡ (failed err_bad_header, s)
unfolding check_len
check_len-short b s low high = ground arith

-- A first byte from 1 to 19 is no header.
hdr_read-short :
    {dos : Dos} (malloc_ok : ℕ → Bool) (s : Stream dos) (mem : List ℕ) (b : ℕ) (rest : List ℕ)
    → Ahead mem s (b ∷ rest)
    → 1 ≤ b
    → b < 20
    → (hdr_read malloc_ok s).0 ≡ failed err_bad_header
unfolding hdr_read
hdr_read-short malloc_ok s mem b rest a low high =
    let r = read_exact-done 1 (b ∷ []) rest a refl in
    rw (hdr_read, r.1, check_len-short b r.0 low high) refl

-- A header has been appended to the bytes `out` of a file, and every stream in front of it is
-- rejected.
abbrev pub WrittenUnreadable :
    {dos : Dos} (laws : Appends dos) (malloc_ok : ℕ → Bool) (out : List ℕ)
    → Outcome (Unit {0}) × Stream dos
    → Type 1
WrittenUnreadable {dos} laws malloc_ok out written =
    (s' : Stream dos) × (written ≡ (done tt, s'))
    × (bytes : List ℕ) × Holds laws s' (out ++ bytes)
    × ((reader : Dos) (t : Stream reader) (mem rest : List ℕ)
        → Ahead mem t (bytes ++ rest)
        → (hdr_read malloc_ok t).0 ≡ failed err_bad_header)

-- For an entry with a path of a directory and a name, a header whose size is at most 1024 and has
-- a low byte from 1 to 19, and a file whose writes succeed: `lh_hdr_write` at level 2 or above
-- succeeds and appends a header, and from it `lh_hdr_read` gives LH_ERR_BAD_HEADER.
pub hdr_write-hdr_read_fails :
    {dos : Dos} (laws : Appends dos) (malloc_ok : ℕ → Bool) (s : Stream dos) (out : List ℕ)
    (meta : HdrMeta) (dir : List ℕ) (c : ℕ) (name : List ℕ) (level : ℕ)
    → IsPath dir (c ∷ name)
    → meta.filename ≡ some (dir ++ b'/' ∷ c ∷ name)
    → cstr (dir ++ b'/' ∷ c ∷ name) ≡ dir ++ b'/' ∷ c ∷ name
    → level2_size meta dir (c ∷ name) ≤ hdr_buf
    → 1 ≤ level2_size meta dir (c ∷ name) % 2 ^ 8
    → level2_size meta dir (c ∷ name) % 2 ^ 8 < 20
    → 2 ≤ level
    → Holds laws s out
    → WrittenUnreadable laws malloc_ok out (hdr_write meta level s)
hdr_write-hdr_read_fails laws malloc_ok s out meta dir c name level p e plain room low short high
      h =
    let rest = tail meta (c ∷ name) (wire dir) in
    let bytes = sealed meta (crc_of meta rest) rest in
    let w =
      hdr_write-level2 laws s out bytes meta (dir ++ b'/' ∷ c ∷ name) level h e high
        (ap (level2_bytes meta) plain ∙ level2_bytes-sealed meta dir c name p room low) in
    let size = length-unsealed meta rest in
    (
      w.0,
      w.1,
      bytes,
      w.2,
      λ reader t mem after a.
          hdr_read-short malloc_ok t mem _ _ a (omega (arith, size)) (omega (arith, size)),
    )
