-- ===== src/Archive/Whole.antt =====
-- Whole archives: calls of `lh_writer_add` one after another, and calls of `lh_reader_next` up to
-- the end.
use lhassa.Base.{
  ℕ, zero, suc, ◌≤◌, ◌≡◌, refl, sym, ◌∙◌, arith, Bool, true, false, List, [], ◌∷◌, ◌++◌, map, none,
  some, length, append-nil,
}
use lhassa.Outcome.{Outcome, done, out_of_fuel, continue}
use lhassa.Datetime.{DateTime}
use lhassa.Stream.{Dos, Stream}
use lhassa.Stream.Memory.{Ahead, read_exact-truncated}
use lhassa.Codec.{Coders}
use lhassa.Codec.Stored.{Lossless}
use lhassa.Header.Read.{hdr_read}
use lhassa.Header.Write.Level1.{level1_bytes}
use lhassa.Header.Reread.{Appends, Holds}
use lhassa.Header.Written.{Wrote, Wrote-then}
use lhassa.Archive.{Entry, level_to_method}
use lhassa.Archive.Writer.{Addition, writer_add}
use lhassa.Archive.Reader.{Reader, reader_next, after_header, no_entry}
use lhassa.Archive.Added.{IsAddition, added_meta, writer_add-Wrote}
use lhassa.Archive.Stored.{entry_of, reads}

module _ (malloc_ok : ℕ → Bool) (coders : Coders) where
  -- The files are added one after another, up to the first failure.
  unfoldable pub add_all :
      {dos : Dos} → ℕ → DateTime → List Addition → Stream dos → Outcome (Unit {0}) × Stream dos
  add_all level now [] s = (done tt, s)
  add_all level now (a ∷ files) s =
      continue (writer_add malloc_ok coders level now a s) (λ _. add_all level now files)

  module _ (fresh : ℕ → List ℕ) where
    -- The entries up to the one without a name, read with at most `fuel` calls.
    unfoldable pub read_all :
        {dos : Dos} → ℕ → Entry → Reader dos → Outcome (List Entry) × Reader dos
    read_all zero before r = (out_of_fuel, r)
    read_all (suc fuel) before r =
        continue (reader_next malloc_ok coders fresh before r) λ entry r'. elim entry.filename [
          | none ↦ (done [], r')
          | some name ↦
              continue (read_all fuel entry r') (λ entries r''. (done (entry ∷ entries), r''))
        ]

    -- Behind the last byte of the archive, a call reports the end and stays there.
    pub reader_next-end :
        {dos : Dos} (before : Entry) (r : Reader dos) (mem : List ℕ)
        → r.eof ≡ false
        → Ahead mem r.io []
        → (io : Stream dos) × (reader_next malloc_ok coders fresh before r
            ≡ (done (no_entry before), record r { io = io; eof = true }))
    unfolding reader_next after_header hdr_read
    reader_next-end before r mem open_end ahead =
        let e = read_exact-truncated 1 [] ahead (omega arith) in (e.0, rw (e.1, open_end) refl)

-- A file, with its date and its packed data.
abbrev pub File : Type 0
File = Addition × DateTime × List ℕ

abbrev pub added : File → Addition
added f = f.0

-- The files fit a header of level 0 or 1, and their methods lose nothing.
abbrev pub AreFiles : Coders → List File → Type 0
AreFiles coders [] = Unit {0}
AreFiles coders (f ∷ files) =
    (IsAddition coders f.0 f.1 f.2 × Lossless coders (level_to_method f.0.level f.0.store_only))
    × AreFiles coders files

abbrev pub entries_of : ℕ → List File → List Entry
entries_of level files = map (λ f. entry_of f.0 level f.1 f.2) files

-- The bytes of the archive.
abbrev pub archive_bytes : ℕ → List File → List ℕ
archive_bytes level [] = []
archive_bytes level (f ∷ files) =
    (level1_bytes (added_meta f.0 level f.1 f.2) f.0.filename level ++ f.2)
    ++ archive_bytes level files

module _ (malloc_ok : ℕ → Bool) (enough : (n : ℕ) → malloc_ok n ≡ true) (coders : Coders)
    (level : ℕ) (low : level ≤ 1) where
  add_all-Wrote :
      {dos : Dos} (laws : Appends dos) (now : DateTime) (files : List File)
      → AreFiles coders files
      → (s : Stream dos) (out : List ℕ) → Holds laws s out
      → Wrote laws out
          (archive_bytes level files)
          (add_all malloc_ok coders level now (map added files) s)
  unfolding add_all
  add_all-Wrote laws now [] v s out h = (
    s,
    refl,
    record { file = h.file; is_open = h.is_open; holds = h.holds ∙ sym (append-nil out) },
  )
  add_all-Wrote laws now (f ∷ files) v s out h =
      let bytes = level1_bytes (added_meta f.0 level f.1 f.2) f.0.filename level ++ f.2 in
      Wrote-then laws out bytes (archive_bytes level files)
        (writer_add malloc_ok coders level now f.0 s)
        (add_all malloc_ok coders level now (map added files))
        (writer_add-Wrote coders f.0 f.1 f.2 v.0.0 level laws malloc_ok enough low now s out h)
        (λ s₁ h₁. add_all-Wrote laws now files v.1 s₁ (out ++ bytes) h₁)

  module _ (fresh : ℕ → List ℕ) (sized : (n : ℕ) → length (fresh n) ≡ n) where
    -- The reader reads the entries in their order and then the end.
    abbrev pub ReadsAll : {dos : Dos} → List File → Entry → Reader dos → Type 0
    ReadsAll {dos} files before r =
        (r' : Reader dos) × (read_all malloc_ok coders fresh (suc (length files)) before r
          ≡ (done (entries_of level files), r'))
        × (r'.eof ≡ true)

    read_all-bytes :
        {dos : Dos} (files : List File) (before : Entry) (r : Reader dos) (mem : List ℕ)
        → AreFiles coders files
        → r.eof ≡ false
        → r.header_only ≡ false
        → r.has_password ≡ false
        → Ahead mem r.io (archive_bytes level files)
        → ReadsAll files before r
    unfolding read_all
    read_all-bytes [] before r mem v open_end whole open_text ahead =
        let e = reader_next-end malloc_ok coders fresh before r mem open_end ahead in
        (record r { io = e.0; eof = true }, rw e.1 refl, refl)
    read_all-bytes (f ∷ files) before r mem v open_end whole open_text ahead =
        let h =
          reads malloc_ok enough coders fresh sized level low f.0 f.1 f.2 v.0.0 v.0.1 _ r before mem
            (archive_bytes level files) open_end whole open_text ahead in
        let t =
          read_all-bytes files (entry_of f.0 level f.1 f.2) (record r { io = h.0 }) mem v.1 open_end
            whole open_text h.2 in
        (t.0, rw (h.1, t.1) refl, t.2)

    -- Reading what the writer has left in an empty file.
    abbrev pub RoundTrips :
        {dos : Dos} → Appends dos → List File → Outcome (Unit {0}) × Stream dos → Type 1
    RoundTrips {dos} laws files written =
        (s' : Stream dos) × (written ≡ (done tt, s'))
        × (archive : List ℕ) × Holds laws s' archive
        × ((reader : Dos) (r : Reader reader) (before : Entry)
            → r.eof ≡ false
            → r.header_only ≡ false
            → r.has_password ≡ false
            → Ahead archive r.io archive
            → ReadsAll files before r)

    -- For files with data, a valid date, a name of 1 to 200 characters without a zero and a byte
    -- of attributes, whose data of less than 4 GB the compressor of their method packs into the
    -- room that `lh_writer_add` gives it, to one byte at least, with methods that lose nothing, a
    -- header level of 0 or 1, and where every call of `malloc` and every write succeeds: calls of
    -- `lh_writer_add` onto an empty file all succeed, and from the bytes they leave, as an archive
    -- in memory, calls of `lh_reader_next`, without a password and not for headers only, give one
    -- entry for each file in their order and after the last one the end. An entry has the file's
    -- data with a CRC that agrees, its attributes, its name with `/` for each separator, and its
    -- date with the seconds rounded down to an even number; it has no comment.
    pub read_all-add_all :
        {dos : Dos} (laws : Appends dos) (now : DateTime) (files : List File) (s : Stream dos)
        → AreFiles coders files
        → Holds laws s []
        → RoundTrips laws files (add_all malloc_ok coders level now (map added files) s)
    read_all-add_all laws now files s v h =
        let w = add_all-Wrote laws now files v s [] h in
        (
          w.0,
          w.1,
          archive_bytes level files,
          w.2,
          λ reader r before open_end whole open_text ahead.
              read_all-bytes files before r (archive_bytes level files) v open_end whole open_text
                ahead,
        )
