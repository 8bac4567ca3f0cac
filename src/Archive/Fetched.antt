-- ===== src/Archive/Fetched.antt =====
-- What `lh_reader_next` reads of an archive in memory behind a header.
use lhassa.Base.{
  ℕ, ◌<◌, ◌≡◌, refl, ◌∙◌, arith, Bool, true, false, List, ◌++◌, some, length, take-append,
  drop-append, ◌==◌, ==_refl, not, ◌||◌,
}
use lhassa.Outcome.{done}
use lhassa.Crc.{crc16}
use lhassa.Stream.{Dos, Stream, stream_read}
use lhassa.Stream.Memory.{Ahead, stream_read-Ahead}
use lhassa.Codec.{Coders, codec_decompress}
use lhassa.Header.{HdrMeta}
use lhassa.Header.Read.{hdr_read}
use lhassa.Archive.{Entry, meta_to_entry}
use lhassa.Archive.Reader.{
  Reader, read_packed, skip_packed, unpack, next_data, after_header, reader_next,
}

-- The stream behind a read of as many bytes as `packed` has.
abbrev pub past : {dos : Dos} → List ℕ → Stream dos → Stream dos
past packed io = (stream_read io (length packed)).1

module _ {dos : Dos} (mem packed rest : List ℕ) (malloc_ok : ℕ → Bool)
    (enough : (n : ℕ) → malloc_ok n ≡ true) where
  pub stream_read-past :
      (io : Stream dos)
      → Ahead mem io (packed ++ rest)
      → ((stream_read io (length packed)).0 ≡ packed) × Ahead mem (past packed io) rest
  stream_read-past io a =
      let r = stream_read-Ahead (length packed) a in
      (
        r.0 ∙ take-append (length packed) packed rest refl,
        rw (drop-append (length packed) packed rest refl) at r.1,
      )

  -- Packed data that is there is read whole.
  pub read_packed-past :
      (r : Reader dos)
      → r.has_password ≡ false
      → Ahead mem r.io (packed ++ rest)
      → read_packed malloc_ok (length packed) r ≡ (done packed, record r { io = past packed r.io })
  unfolding read_packed
  read_packed-past r open_text a =
      rw (enough (length packed), (stream_read-past r.io a).0, ==_refl (length packed), open_text)
        refl

module _ (malloc_ok : ℕ → Bool) (coders : Coders) (fresh : ℕ → List ℕ) where
  -- The entry with its data.
  abbrev pub with_data : HdrMeta → Entry → List ℕ → Entry
  with_data meta entry plain = record entry {
    plain = some plain;
    data_len = meta.original_size;
    crc_ok = not meta.has_crc || crc16 (some plain) == meta.crc;
  }

  pub unpack_done :
      (meta : HdrMeta) (entry : Entry) (packed plain : List ℕ)
      → malloc_ok meta.original_size ≡ true
      → codec_decompress coders meta.method packed (fresh meta.original_size) ≡ done plain
      → unpack malloc_ok coders fresh meta entry packed ≡ done (with_data meta entry plain)
  unfolding unpack
  unpack_done meta entry packed plain room e = rw (room, e) refl

  -- A header with data behind it.
  pub next_data-unpack :
      {dos : Dos} (meta : HdrMeta) (entry : Entry) (packed : List ℕ) (r r' : Reader dos)
      → meta.is_directory ≡ false
      → 0 < meta.original_size
      → 0 < meta.packed_size
      → r.header_only ≡ false
      → read_packed malloc_ok meta.packed_size r ≡ (done packed, r')
      → next_data malloc_ok coders fresh meta entry r
        ≡ (unpack malloc_ok coders fresh meta entry packed, r')
  unfolding next_data
  next_data-unpack meta entry packed r r' hd ho hp hh e =
      let some_data : (meta.original_size == 0) ≡ false = ground arith in
      let some_packed : (meta.packed_size == 0) ≡ false = ground arith in
      rw (hd, some_data, some_packed, e, hh) refl

  -- A header whose data is left out.
  pub next_data-skip :
      {dos : Dos} (meta : HdrMeta) (entry : Entry) (r r' : Reader dos)
      → meta.is_directory ≡ false
      → 0 < meta.original_size
      → 0 < meta.packed_size
      → r.header_only ≡ true
      → skip_packed malloc_ok meta.packed_size r ≡ (done tt, r')
      → next_data malloc_ok coders fresh meta entry r ≡ (done (record entry { crc_ok = true }), r')
  unfolding next_data
  next_data-skip meta entry r r' hd ho hp hh e =
      let some_data : (meta.original_size == 0) ≡ false = ground arith in
      let some_packed : (meta.packed_size == 0) ≡ false = ground arith in
      rw (hd, some_data, some_packed, e, hh) refl

  pub reader_next-header :
      {dos : Dos} (entry : Entry) (meta : HdrMeta) (r : Reader dos) (io : Stream dos)
      → r.eof ≡ false
      → hdr_read malloc_ok r.io ≡ (done meta, io)
      → reader_next malloc_ok coders fresh entry r
        ≡ next_data malloc_ok coders fresh meta
            (meta_to_entry malloc_ok meta)
            (record r { io = io })
  unfolding reader_next after_header
  reader_next-header entry meta r io open_end e = rw (e, open_end) refl
