-- ===== src/Header/Read/Level2.antt =====
-- `lh_hdr_read_level2`, over a buffer that holds the whole header.
use lhassa.Base.{
  ℕ, ◌+◌, ◌-◌, ◌*◌, ◌^◌, Bool, true, false, ◌||◌, List, [], drop, none, some, ltb, leb, ◌==◌,
  if◌then◌else◌,
}
use lhassa.Method.{Method, err_bad_header, method_from_string}
use lhassa.Outcome.{Outcome, done, failed, lift, pure, stop_if, bind, ◌>>=◌, ◌>>◌}
use lhassa.Bytes.{get_byte, read_le16, read_le32}
use lhassa.Stream.{Dos, Stream, read_exact}
use lhassa.Header.{HdrMeta, Names, slice}
use lhassa.Header.Path.{finish_path}
use lhassa.Header.Extensions.{read_extensions}

abbrev pub is_lhd : Method → Bool
is_lhd Method.lhd = true
is_lhd _ = false

-- The fields of fixed place.
unfoldable pub level2_meta : List ℕ → HdrMeta
level2_meta buf =
    let sig = slice buf 2 5 in
    let method = method_from_string (some sig) in
    record {
      method_sig = sig;
      method = method;
      packed_size = read_le32 buf 7;
      original_size = read_le32 buf 11;
      timestamp = read_le32 buf 15;
      attribute = get_byte buf 19;
      header_level = 2;
      os_id = get_byte buf 23;
      crc = read_le16 buf 21;
      has_crc = true;
      is_directory = is_lhd method;
      filename = none;
      comment = none;
    }

abbrev pub no_names : Names
no_names = record { filename = none; comment = none; dirbuf = [] }

module _ (malloc_ok : ℕ → Bool) where
  -- The strings of the extensions, with the directory joined to the name, and the bytes consumed.
  unfoldable pub level2_names : List ℕ → ℕ → Outcome (Names × ℕ)
  level2_names buf header_size =
      let mem_len = header_size - 24 in
      bind (read_extensions malloc_ok (drop 24 buf) mem_len (mem_len + 1) 0 0 no_names)
        λ (names, consumed).
          bind (finish_path malloc_ok names.dirbuf names.filename)
            λ filename. done (record names { filename = filename }, consumed)

  module _ {dos : Dos} where
    -- `padding` bytes are read from the stream, one at most.
    unfoldable pub read_padding : ℕ → Stream dos → Outcome (Unit {0}) × Stream dos
    read_padding padding = if padding == 0 then pure tt else (do bytes ← read_exact 1; pure tt)

    unfoldable pub read_level2 : List ℕ → Stream dos → Outcome HdrMeta × Stream dos
    unfolding read_padding
    read_level2 buf = do
      let header_size = get_byte buf 0 + get_byte buf 1 * 2 ^ 8
      stop_if (ltb header_size 26) err_bad_header
      (names, consumed) ← lift (level2_names buf header_size)
      let ext_total = if leb 2 consumed then consumed - 2 else consumed
      stop_if (ltb header_size (26 + ext_total) || ltb 1 (header_size - 26 - ext_total))
          err_bad_header
      read_padding (header_size - 26 - ext_total)
      elim names.filename [
        | none ↦ lift (failed err_bad_header)
        | some name ↦
            pure (record (level2_meta buf) { filename = some name; comment = names.comment })
      ]
