-- ===== src/Archive/Reader.antt =====
-- `lh_reader` of Source/src/lh_archive.c. The callbacks of a caller are not called: they are told
-- of progress and change nothing in the reader.
use lhassa.Base.{
  ℕ, Bool, true, false, ◌||◌, not, List, [], ◌∷◌, Option, none, some, take, length, ◌==◌,
  if◌then◌else◌,
}
use lhassa.Method.{err_truncated, err_bad_header, err_no_memory, err_io, err_invalid_archive}
use lhassa.Outcome.{Outcome, done, failed, fault, out_of_fuel, lift, pure, ◌>>=◌, ◌>>◌}
use lhassa.Crc.{crc16}
use lhassa.Cipher.{DecryptState, decrypt_init, decrypt_buffer}
use lhassa.Stream.{
  Dos, Stream, stream_read, stream_seek_cur, stream_seek_set, stream_rewind, stream_tell,
}
use lhassa.Codec.{Coders, codec_decompress}
use lhassa.Header.{HdrMeta}
use lhassa.Header.Read.{hdr_read}
use lhassa.Archive.{Entry, meta_to_entry}

-- `struct lh_reader`, without the callbacks and the stamp of the archive's file.
pub record Reader (dos : Dos) : Type 0 where
  pub io : Stream dos
  pub password : List ℕ
  pub has_password : Bool
  pub header_only : Bool
  pub decrypt : DecryptState
  pub eof : Bool

-- An entry without a name, which stands for the end.
abbrev pub no_entry : Entry → Entry
no_entry entry = record entry { filename = none }

-- `fresh n` is what `malloc(n)` bytes hold before they are written.
module _ (malloc_ok : ℕ → Bool) (coders : Coders) (fresh : ℕ → List ℕ) where
  -- The data of an entry from its packed bytes, and whether its CRC agrees.
  unfoldable pub unpack : HdrMeta → Entry → List ℕ → Outcome Entry
  unpack meta entry packed =
      if not (malloc_ok meta.original_size)
      then failed err_no_memory
      else (elim (codec_decompress coders meta.method packed (fresh meta.original_size)) [
        | done plain ↦ done (record entry {
          plain = some plain;
          data_len = meta.original_size;
          crc_ok = not meta.has_crc || crc16 (some plain) == meta.crc;
        })
        | failed st ↦ failed err_invalid_archive
        | fault ↦ fault
        | out_of_fuel ↦ out_of_fuel
      ])

module _ {dos : Dos} where
  -- `lh_reader_set_password`: a password is cut to 255 characters.
  unfoldable pub set_password : Option (List ℕ) → Reader dos → Reader dos
  set_password none r = record r { has_password = false; password = [] }
  set_password (some []) r = record r { has_password = false; password = [] }
  set_password (some (c ∷ s)) r =
      let password = take 255 (c ∷ s) in
      record r {
        password = password;
        has_password = true;
        decrypt = (decrypt_init r.decrypt (some password)).1;
      }

  -- `lh_reader_set_header_only`
  abbrev pub set_header_only : Bool → Reader dos → Reader dos
  set_header_only on r = record r { header_only = on }

  -- The cipher starts again where there is a password.
  abbrev pub restart_cipher : Reader dos → DecryptState
  restart_cipher r =
      if r.has_password then (decrypt_init r.decrypt (some r.password)).1 else r.decrypt

  -- The end of `lh_reader_rewind` and `lh_reader_seek`, after a move of the stream.
  unfoldable pub moved : Reader dos → Bool × Stream dos → Bool × Reader dos
  moved r (false, io) = (false, record r { io = io })
  moved r (true, io) = (true, record r { io = io; eof = false; decrypt = restart_cipher r })

  -- `lh_reader_rewind`
  unfoldable pub reader_rewind : Reader dos → Bool × Reader dos
  unfolding moved
  reader_rewind r = moved r (stream_rewind r.io)

  -- `lh_reader_seek`
  unfoldable pub reader_seek : ℕ → Reader dos → Bool × Reader dos
  unfolding moved
  reader_seek pos r = moved r (stream_seek_set r.io pos)

  -- `lh_reader_tell`
  unfoldable pub reader_tell : Reader dos → Option ℕ
  reader_tell r = stream_tell r.io

  module _ (malloc_ok : ℕ → Bool) where
    -- The packed data, decrypted where there is a password.
    unfoldable pub read_packed : ℕ → Reader dos → Outcome (List ℕ) × Reader dos
    read_packed packed_size r =
        let (bytes, io) = stream_read r.io packed_size in
        let read = record r { io = io } in
        let (text, decrypt) = decrypt_buffer r.decrypt bytes in
        if not (malloc_ok packed_size)
        then (failed err_no_memory, r)
        else if not (length bytes == packed_size)
        then (failed err_truncated, read)
        else if r.has_password
        then (done text, record read { decrypt = decrypt })
        else (done bytes, read)

    -- The packed data is left out: with a password it is read all the same.
    unfoldable pub skip_packed : ℕ → Reader dos → Outcome (Unit {0}) × Reader dos
    skip_packed packed_size r =
        let (ok, io) = stream_seek_cur r.io packed_size in
        if r.has_password
        then (do _ ← read_packed packed_size; pure tt) r
        else if ok
        then (done tt, record r { io = io })
        else (failed err_io, record r { io = io })

    module _ (coders : Coders) (fresh : ℕ → List ℕ) where
      -- What `lh_reader_next` does behind a header.
      unfoldable pub next_data : HdrMeta → Entry → Reader dos → Outcome Entry × Reader dos
      next_data meta entry r =
          if meta.is_directory || meta.original_size == 0
          then (done entry, r)
          else if meta.packed_size == 0
          then (failed err_bad_header, r)
          else if r.header_only
          then (do skip_packed meta.packed_size; pure (record entry { crc_ok = true })) r
          else (do
            packed ← read_packed meta.packed_size
            lift (unpack malloc_ok coders fresh meta entry packed))
              r

      -- The result of the header: a truncated one is the end of the archive.
      unfoldable pub after_header :
          Entry → Outcome HdrMeta → Reader dos → Outcome Entry × Reader dos
      after_header entry (done meta) r = next_data meta (meta_to_entry malloc_ok meta) r
      after_header entry (failed err_truncated) r = (done (no_entry entry), record r { eof = true })
      after_header entry (failed st) r = (failed st, r)
      after_header entry fault r = (fault, r)
      after_header entry out_of_fuel r = (out_of_fuel, r)

      -- `lh_reader_next`: `entry` is what the caller's `lh_entry` holds before.
      unfoldable pub reader_next : Entry → Reader dos → Outcome Entry × Reader dos
      reader_next entry r =
          let (header, io) = hdr_read malloc_ok r.io in
          if r.eof
          then (done (no_entry entry), r)
          else after_header entry header (record r { io = io })
