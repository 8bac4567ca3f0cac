-- ===== src/Header/Roundtrip.antt =====
-- `lh_hdr_write` followed by `lh_hdr_read`.
use lhassa.Base.{ℕ, ◌+◌, ◌≤◌, ◌<◌, ◌≡◌, Bool, true, List, ◌++◌, length, some}
use lhassa.Outcome.{Outcome, done}
use lhassa.Stream.{Dos, Stream}
use lhassa.Stream.Memory.{Ahead}
use lhassa.Bytes.{cstr}
use lhassa.Header.{HdrMeta}
use lhassa.Header.Read.{hdr_read}
use lhassa.Header.Write.{hdr_write}
use lhassa.Header.Write.Level1.{level1_bytes}
use lhassa.Header.Reread.{Appends, Holds, IsMeta}
use lhassa.Header.Reread.Level1.{reread1, hdr_read-bytes}
use lhassa.Header.Written.{hdr_write-level1}

-- A header has been appended to the bytes `out` of a file, and every stream in front of it reads
-- `meta'` and stops behind it.
abbrev pub WrittenAs :
    {dos : Dos} (laws : Appends dos) (malloc_ok : ℕ → Bool) (out : List ℕ) (meta' : HdrMeta)
    → Outcome (Unit {0}) × Stream dos
    → Type 1
WrittenAs {dos} laws malloc_ok out meta' written =
    (s' : Stream dos) × (written ≡ (done tt, s'))
    × (bytes : List ℕ) × Holds laws s' (out ++ bytes)
    × ((reader : Dos) (t : Stream reader) (mem rest : List ℕ)
        → Ahead mem t (bytes ++ rest)
        → (t' : Stream reader) × (hdr_read malloc_ok t ≡ (done meta', t')) × Ahead mem t' rest)

-- For an entry whose numbers fit their fields, whose signature is that of its method and is read
-- as this method, with a name of 1 to 200 bytes without a zero, a file whose writes succeed, and a
-- `malloc` that succeeds for the name: `lh_hdr_write` at level 0 or 1 appends a header from which
-- `lh_hdr_read`, on an archive in memory, gives back the entry (its level and system filled in,
-- its CRC present, its comment dropped) and stops exactly behind it, whatever bytes follow.
pub hdr_read-hdr_write :
    {dos : Dos} (laws : Appends dos) (malloc_ok : ℕ → Bool) (s : Stream dos) (out : List ℕ)
    (meta : HdrMeta) (name : List ℕ) (level : ℕ)
    → IsMeta meta
    → meta.filename ≡ some name
    → cstr name ≡ name
    → 0 < length name
    → length name ≤ 200
    → level ≤ 1
    → malloc_ok (length name + 1) ≡ true
    → Holds laws s out
    → WrittenAs laws malloc_ok out (reread1 meta name level) (hdr_write meta level s)
hdr_read-hdr_write laws malloc_ok s out meta name level v e plain named short low room h =
    let w = hdr_write-level1 laws s out meta name level h e (rw plain short) low in
    (
      w.0,
      w.1,
      level1_bytes meta name level,
      rw plain at w.2,
      λ reader t mem rest a.
          hdr_read-bytes meta name level v short low malloc_ok room named t mem rest a,
    )
