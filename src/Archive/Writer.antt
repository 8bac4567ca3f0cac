-- ===== src/Archive/Writer.antt =====
-- `lh_writer_add` of Source/src/lh_archive.c.
use lhassa.Base.{
  ℕ, ◌+◌, ◌/◌, ◌%◌, ◌^◌, Bool, true, false, List, [], ◌∷◌, Option, none, some, length, leb, ◌==◌,
  if◌then◌else◌,
}
use lhassa.Method.{Method, Level, Status, ok, method_to_string, err_invalid_arg, err_no_memory}
use lhassa.Outcome.{Outcome, done, failed, fault, out_of_fuel, lift, ◌>>=◌, ◌>>◌}
use lhassa.Crc.{crc16}
use lhassa.Datetime.{DateTime, datetime_to_unix, datetime_pack, dos_timestamp_pack}
use lhassa.Stream.{Dos, Stream}
use lhassa.Codec.{Coders, codec_compress}
use lhassa.Header.{HdrMeta, os_amiga}
use lhassa.Header.Read.Level2.{is_lhd}
use lhassa.Header.Write.{hdr_write, write_all, is_open}
use lhassa.Archive.{level_to_method}

-- A file to be added: the arguments of `lh_writer_add` behind the writer. The data is not a null
-- pointer; a length of 0 is an empty list.
pub record Addition : Type 0 where
  pub filename : List ℕ
  pub comment : Option (List ℕ)
  pub attrs : ℕ
  pub datetime : Option DateTime
  pub level : Level
  pub store_only : Bool
  pub plain : List ℕ

-- A Unix stamp; a month outside the table is undefined.
abbrev pub unix_stamp : DateTime → Outcome ℕ
unix_stamp dt = elim (datetime_to_unix dt) [ none ↦ fault | some ts ↦ done ts ]

abbrev pub checked_stamp : Status × Option ℕ → Outcome ℕ
checked_stamp (ok, some ts) = done ts
checked_stamp (st, _) = failed st

-- The stamp of a header of level `header_level`: `now` is the clock, for a file without a date.
unfoldable pub stamp_of : ℕ → DateTime → Option DateTime → Outcome ℕ
stamp_of header_level now (some dt) =
    if leb 2 header_level then unix_stamp dt else checked_stamp (datetime_pack dt)
stamp_of header_level now none =
    if leb 2 header_level then unix_stamp now else done (dos_timestamp_pack now)

-- `if (comment && comment[0])`
abbrev pub comment_arg : Option (List ℕ) → Option (List ℕ)
comment_arg none = none
comment_arg (some []) = none
comment_arg (some (c ∷ s)) = if c == 0 then none else some (c ∷ s)

-- The metadata before the packed size and the CRC are known.
abbrev pub addition_meta : ℕ → Addition → ℕ → HdrMeta
addition_meta header_level a ts =
    let method = level_to_method a.level a.store_only in
    record {
      method_sig = method_to_string method;
      method = method;
      packed_size = 0;
      original_size = length a.plain;
      timestamp = ts;
      attribute = a.attrs;
      header_level = header_level;
      os_id = os_amiga;
      crc = 0;
      has_crc = false;
      is_directory = is_lhd method;
      filename = some a.filename;
      comment = comment_arg a.comment;
    }

-- The room for packed data, a 32-bit `size_t`.
abbrev pub packed_cap : ℕ → ℕ
packed_cap data_len = (data_len + data_len / 8 + 512) % 2 ^ 32

module _ (malloc_ok : ℕ → Bool) (coders : Coders) where
  -- The packed data of a file that is not empty; every failure of a compressor is one status.
  unfoldable pub pack : Method → List ℕ → Outcome (List ℕ)
  pack method plain =
      if malloc_ok (packed_cap (length plain))
      then (elim (codec_compress coders method plain (packed_cap (length plain))) [
        | done packed ↦ done packed
        | failed st ↦ failed err_invalid_arg
        | fault ↦ fault
        | out_of_fuel ↦ out_of_fuel
      ])
      else failed err_no_memory

  module _ {dos : Dos} (header_level : ℕ) where
    -- The header and the packed data of a file that is not empty.
    unfoldable pub add_packed : HdrMeta → List ℕ → Stream dos → Outcome (Unit {0}) × Stream dos
    unfolding pack
    add_packed meta plain = do
      packed ← lift (pack meta.method plain)
      hdr_write
          (record meta { packed_size = length packed; crc = crc16 (some plain); has_crc = true })
          header_level
      write_all packed

    -- The three kinds of entries: a directory, an empty file, and a file with data.
    unfoldable pub add_meta : HdrMeta → List ℕ → Stream dos → Outcome (Unit {0}) × Stream dos
    unfolding add_packed
    add_meta meta plain =
        if meta.is_directory
        then hdr_write meta header_level
        else if length plain == 0
        then hdr_write (record meta { has_crc = true }) header_level
        else add_packed meta plain

    -- `lh_writer_add`, over the writer's stream.
    unfoldable pub writer_add : DateTime → Addition → Stream dos → Outcome (Unit {0}) × Stream dos
    unfolding add_meta stamp_of
    writer_add now a s =
        if is_open s
        then (do
          ts ← lift (stamp_of header_level now a.datetime)
          add_meta (addition_meta header_level a ts) a.plain)
            s
        else (failed err_invalid_arg, s)
