-- ===== src/Archive/Stored.antt =====
-- An entry that `lh_writer_add` has written, read by `lh_reader_next`.
use lhassa.Base.{
  ℕ, ◌+◌, ◌*◌, ◌/◌, ◌≤◌, ◌≡◌, refl, ap, ◌∙◌, arith, Bool, true, false, List, ◌++◌, none, some,
  length, append_assoc, ==_refl, leb,
}
use lhassa.Outcome.{Outcome, done}
use lhassa.Crc.{crc16}
use lhassa.Datetime.{DateTime}
use lhassa.Datetime.Dos.{datetime_unpack_valid}
use lhassa.Stream.{Dos, Stream}
use lhassa.Stream.Memory.{Ahead}
use lhassa.Bytes.{normalize_path_seps, cstr}
use lhassa.Codec.{Coders, codec_decompress}
use lhassa.Codec.Stored.{Lossless}
use lhassa.Header.{HdrMeta, os_amiga}
use lhassa.Header.Read.{hdr_read}
use lhassa.Header.Write.Level1.{level1_bytes}
use lhassa.Header.Reread.Level1.{reread1, hdr_read-bytes}
use lhassa.Archive.{Entry, level_to_method, meta_to_entry}
use lhassa.Archive.Writer.{Addition}
use lhassa.Archive.Reader.{Reader, reader_next}
use lhassa.Archive.Added.{IsAddition, added_meta, added_meta-IsMeta, added_is_file}
use lhassa.Archive.Fetched.{
  past, with_data, read_packed-past, stream_read-past, next_data-unpack, unpack_done,
  reader_next-header,
}

-- The entry of a file: its name with `/` between the parts, no comment, and seconds that are even.
abbrev pub entry_of : Addition → ℕ → DateTime → List ℕ → Entry
entry_of a level dt packed = record {
  filename = some (normalize_path_seps a.filename);
  comment = none;
  attrs = a.attrs;
  datetime = record dt { second = dt.second / 2 * 2 };
  plain = some a.plain;
  data_len = length a.plain;
  packed_len = length packed;
  method = level_to_method a.level a.store_only;
  os_id = os_amiga;
  header_level = level;
  crc = crc16 (some a.plain);
  crc_ok = true;
  is_directory = false;
}

-- `r` reads `entry` from in front of `bytes`, and is then in front of what follows.
abbrev pub ReadsAs : (ℕ → Bool) → Coders → (ℕ → List ℕ) → List ℕ → Entry → Type 1
ReadsAs malloc_ok coders fresh bytes entry =
    (dos : Dos) (r : Reader dos) (before : Entry) (mem rest : List ℕ)
    → r.eof ≡ false
    → r.header_only ≡ false
    → r.has_password ≡ false
    → Ahead mem r.io (bytes ++ rest)
    → (io : Stream dos) × (reader_next malloc_ok coders fresh before r
        ≡ (done entry, record r { io = io }))
      × Ahead mem io rest

module _ (malloc_ok : ℕ → Bool) (enough : (n : ℕ) → malloc_ok n ≡ true) (coders : Coders)
    (fresh : ℕ → List ℕ) (sized : (n : ℕ) → length (fresh n) ≡ n) (level : ℕ) (low : level ≤ 1)
    (a : Addition) (dt : DateTime) (packed : List ℕ) (v : IsAddition coders a dt packed)
    (lossless : Lossless coders (level_to_method a.level a.store_only)) where
  abbrev meta : HdrMeta
  meta = reread1 (added_meta a level dt packed) a.filename level

  abbrev bytes : List ℕ
  bytes = level1_bytes (added_meta a level dt packed) a.filename level ++ packed

  -- The entry, as it is put together from the header and the data.
  whole_entry :
      with_data malloc_ok coders fresh meta (meta_to_entry malloc_ok meta) a.plain
      ≡ entry_of a level dt packed
  unfolding meta_to_entry
  whole_entry =
      let low_level : leb 2 level ≡ false = ground arith in
      rw
        (
          enough (length (cstr a.filename) + 1),
          v.text,
          low_level,
          datetime_unpack_valid dt v.valid,
          ==_refl (crc16 (some a.plain)),
          added_is_file coders a dt packed v level,
        )
        refl

  decompressed :
      codec_decompress coders meta.method packed (fresh meta.original_size) ≡ done a.plain
  decompressed = lossless a.plain packed (fresh (length a.plain)) _ v.packs (sized (length a.plain))

  module _ {dos : Dos} (r : Reader dos) (mem rest : List ℕ) where
    -- From the stream behind the header.
    data_behind :
        (before : Entry) (io : Stream dos)
        → r.eof ≡ false
        → r.header_only ≡ false
        → r.has_password ≡ false
        → hdr_read malloc_ok r.io ≡ (done meta, io)
        → Ahead mem io (packed ++ rest)
        → reader_next malloc_ok coders fresh before r
          ≡ (done (entry_of a level dt packed), record r { io = past packed io })
    data_behind before io open_end whole open_text e ahead =
        reader_next-header malloc_ok coders fresh before meta r io open_end e
        ∙ next_data-unpack malloc_ok coders fresh meta (meta_to_entry malloc_ok meta) packed
            (record r { io = io }) (record r { io = past packed io })
            (added_is_file coders a dt packed v level) v.has_data v.has_packed whole
            (read_packed-past mem packed rest malloc_ok enough (record r { io = io }) open_text
              ahead)
        ∙ ap (λ (o : Outcome Entry). (o, record r { io = past packed io }))
            (unpack_done malloc_ok coders fresh meta (meta_to_entry malloc_ok meta) packed a.plain
                (enough (length a.plain)) decompressed
              ∙ ap done whole_entry)

  pub reads : ReadsAs malloc_ok coders fresh bytes (entry_of a level dt packed)
  reads dos r before mem rest open_end whole open_text ahead =
      let split =
        append_assoc (level1_bytes (added_meta a level dt packed) a.filename level) packed rest in
      let header =
        hdr_read-bytes (added_meta a level dt packed) a.filename level
          (added_meta-IsMeta coders a dt packed v level) v.short low malloc_ok
          (enough (length a.filename + 1)) v.named r.io mem (packed ++ rest)
          (record { in_memory = ahead.in_memory; rest = ahead.rest ∙ split }) in
      (
        past packed header.0,
        data_behind r mem rest before header.0 open_end whole open_text header.1 header.2,
        (stream_read-past mem packed rest malloc_ok enough header.0 header.2).1,
      )
