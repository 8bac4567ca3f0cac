-- ===== src/Header/Read/Level1.antt =====
-- `lh_hdr_read_lhex`: headers of level 0 and 1, over a buffer that holds the counted body and the
-- two bytes behind it. The chain of a level-1 header is read on from the stream.
use lhassa.Base.{
  ℕ, ◌+◌, ◌-◌, ◌^◌, ◌%◌, Bool, true, false, ◌||◌, List, [], none, some, Option, leb, ◌==◌,
  if◌then◌else◌,
}
use lhassa.Method.{err_bad_header, err_no_memory, method_from_string}
use lhassa.Outcome.{Outcome, done, failed, lift, pure, bind, ◌>>=◌}
use lhassa.Bytes.{get_byte, get_word, get_longword}
use lhassa.Stream.{Dos, Stream}
use lhassa.Header.{HdrMeta, slice, hdr_buf}
use lhassa.Header.Path.{finish_path}
use lhassa.Header.Chain.{read_chain}
use lhassa.Header.Read.Level2.{is_lhd}

-- The CRC and the system that stand behind the name, by what is left of the header there.
unfoldable pub crc_part : List ℕ → ℕ → ℕ → ℕ → Outcome (Bool × ℕ × ℕ)
crc_part buf header_size name_length q =
    if leb (name_length + 24) header_size
    then done (true, get_word buf q, get_byte buf (q + 2))
    else if header_size == name_length + 22
    then done (true, get_word buf q, 0)
    else if header_size == name_length + 20
    then done (false, 0, 0)
    else failed err_bad_header

module _ (malloc_ok : ℕ → Bool) where
  -- The name inside the header.
  unfoldable pub inline_name : List ℕ → ℕ → Outcome (Option (List ℕ))
  inline_name buf name_length =
      if name_length == 0
      then done none
      else if malloc_ok (name_length + 1)
      then done (some (slice buf 22 name_length))
      else failed err_no_memory

  -- The part up to the system's letter. A checksum that differs is only a warning in LhA and
  -- changes nothing here. The index of each byte read is below 22 + 255 + 3.
  unfoldable pub lhex_meta : List ℕ → Outcome HdrMeta
  unfolding inline_name crc_part
  lhex_meta buf =
      let sig = slice buf 2 5 in
      let method = method_from_string (some sig) in
      let level = get_byte buf 20 in
      let name_length = if level == 2 then 0 else get_byte buf 21 in
      let q = if level == 2 then 21 else 22 + name_length in
      bind (inline_name buf name_length) λ filename.
        bind (crc_part buf (get_byte buf 0) name_length q) λ (has_crc, crc, os_id). done (record {
          method_sig = sig;
          method = method;
          packed_size = get_longword buf 7;
          original_size = get_longword buf 11;
          timestamp = get_longword buf 15;
          attribute = get_byte buf 19;
          header_level = level;
          os_id = os_id;
          crc = crc;
          has_crc = has_crc;
          is_directory = is_lhd method;
          filename = filename;
          comment = none;
        })

  module _ {dos : Dos} where
    -- The chain at the end of the header of size `header_size`; what it takes of the packed
    -- data's size is subtracted in 32 bits.
    unfoldable pub read_names : List ℕ → ℕ → HdrMeta → Stream dos → Outcome HdrMeta × Stream dos
    read_names buf header_size meta = do
      (names, end) ←
          read_chain malloc_ok meta.os_id hdr_buf buf header_size
            (record { filename = meta.filename; comment = none; dirbuf = [] })
      let extra = end - header_size - 2
      filename ← lift (finish_path malloc_ok names.dirbuf names.filename)
      pure (record meta {
        packed_size = (meta.packed_size + 2 ^ 32 - extra) % 2 ^ 32;
        filename = filename;
        comment = names.comment;
      })

    unfoldable pub read_lhex : List ℕ → Stream dos → Outcome HdrMeta × Stream dos
    unfolding read_names
    read_lhex buf = do
      meta ← lift (lhex_meta buf)
      let level = meta.header_level
      if level == 0 || level == 2 then pure meta else read_names buf (get_byte buf 0) meta
