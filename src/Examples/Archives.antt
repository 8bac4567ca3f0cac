-- ===== src/Examples/Archives.antt =====
-- Archives of two files on a file of dos.library, and the cipher.
use lhassa.Base.{
  ℕ, ◌≡◌, refl, true, false, List, [], ◌∷◌, ◌++◌, none, some, arith, replicate, length-replicate,
  shift_bits, bit_xor,
}
use lhassa.Method.{Method, store, level_lh5, err_unsupported}
use lhassa.Bytes.{cstr}
use lhassa.Outcome.{done, failed}
use lhassa.Cipher.{DecryptState, decrypt_init, decrypt_buffer, update_crc}
use lhassa.Cipher.Reference.{
  poly32, update_crc-bitwise, decipher, keys_of, first_keys, decrypt_buffer-decipher,
}
use lhassa.Codec.{Coders, codec_compress, compress_lh0}
use lhassa.Codec.Stored.{codec-Lossless}
use lhassa.Datetime.{DateTime, validate}
use lhassa.Stream.{stream_seek_cur, stream_read}
use lhassa.Stream.Memory.{Ahead, stream_seek_cur-stream_read}
use lhassa.Header.{HdrMeta, meta_clear}
use lhassa.Archive.{Entry, level_to_method, meta_to_entry}
use lhassa.Archive.Writer.{Addition}
use lhassa.Archive.Reader.{Reader, next_data, set_header_only}
use lhassa.Archive.Added.{IsAddition}
use lhassa.Archive.Catalog.{next_data-header_only}
use lhassa.Archive.Whole.{File, AreFiles, RoundTrips, add_all, read_all-add_all}
use lhassa.Examples.Files.{memory_dos, new_file, in_memory, file_laws, new_file-Holds}
use lhassa.Examples.Headers.{enough_memory}

-- Coders that reject everything: only stored data works.
abbrev no_coders : Coders
no_coders = record {
  compress_lh1 = λ i n. failed err_unsupported;
  compress_lh2 = λ i n. failed err_unsupported;
  compress_lh3 = λ i n. failed err_unsupported;
  compress_lh4 = λ i n. failed err_unsupported;
  compress_lh5 = λ i n. failed err_unsupported;
  compress_lh6 = λ i n. failed err_unsupported;
  compress_lh7 = λ i n. failed err_unsupported;
  compress_lzs = λ i n. failed err_unsupported;
  compress_lz5 = λ i n. failed err_unsupported;
  compress_lz4 = λ i n. failed err_unsupported;
  decompress_lh1 = λ i o. failed err_unsupported;
  decompress_lh2 = λ i o. failed err_unsupported;
  decompress_lh3 = λ i o. failed err_unsupported;
  decompress_lh4 = λ i o. failed err_unsupported;
  decompress_lh5 = λ i o. failed err_unsupported;
  decompress_lh6 = λ i o. failed err_unsupported;
  decompress_lh7 = λ i o. failed err_unsupported;
  decompress_lzs = λ i o. failed err_unsupported;
  decompress_lz5 = λ i o. failed err_unsupported;
  decompress_lz4 = λ i o. failed err_unsupported;
  decompress_lhx = λ i o. failed err_unsupported;
}

abbrev day : DateTime
day = record { year = 2026; month = 3; day = 14; hour = 15; minute = 9; second = 27 }

abbrev readme : Addition
readme = record {
  filename = b'd' ∷ b'/' ∷ b'r' ∷ [];
  comment = none;
  attrs = 0;
  datetime = some day;
  level = store;
  store_only = true;
  plain = b'h' ∷ b'i' ∷ [];
}

abbrev icon : Addition
icon = record readme { filename = b'i' ∷ []; level = level_lh5; plain = b'I' ∷ [] }

readme-IsAddition : IsAddition no_coders readme day readme.plain
unfolding cstr validate level_to_method codec_compress compress_lh0
readme-IsAddition = record {
  named = omega arith;
  short = omega arith;
  text = refl;
  attrs_fit = omega arith;
  dated = refl;
  valid = refl;
  is_file = λ p. cc;
  has_data = omega arith;
  data_fits = omega arith;
  packs = refl;
  has_packed = omega arith;
  packed_fits = omega arith;
}

icon-IsAddition : IsAddition no_coders icon day icon.plain
unfolding cstr validate level_to_method codec_compress compress_lh0
icon-IsAddition = record {
  named = omega arith;
  short = omega arith;
  text = refl;
  attrs_fit = omega arith;
  dated = refl;
  valid = refl;
  is_file = λ p. cc;
  has_data = omega arith;
  data_fits = omega arith;
  packs = refl;
  has_packed = omega arith;
  packed_fits = omega arith;
}

abbrev files : List File
files = (readme, day, readme.plain) ∷ (icon, day, icon.plain) ∷ []

files-AreFiles : AreFiles no_coders files
unfolding level_to_method
files-AreFiles = (
  (readme-IsAddition, codec-Lossless no_coders Method.lh0 refl),
  ((icon-IsAddition, codec-Lossless no_coders Method.lh0 refl), tt),
)

abbrev zeros : ℕ → List ℕ
zeros n = replicate n 0

read_all-add_all_example :
    RoundTrips enough_memory
      (λ n. refl)
      no_coders
      1
      (omega arith)
      zeros
      (λ n. length-replicate n 0)
      file_laws
      files
      (add_all enough_memory no_coders 1 day (readme ∷ icon ∷ []) new_file)
read_all-add_all_example =
    read_all-add_all enough_memory (λ n. refl) no_coders 1 (omega arith) zeros
      (λ n. length-replicate n 0) file_laws day files new_file files-AreFiles new_file-Holds

abbrev idle : DecryptState
idle = record { key0 = 0; key1 = 0; key2 = 0; last_char = 0; initialized = false }

abbrev secret : List ℕ
secret = b'k' ∷ b'e' ∷ b'y' ∷ []

abbrev keyed : DecryptState
keyed = record { key0 = 1; key1 = 2; key2 = 3; last_char = 0; initialized = true }

update_crc-bitwise_example :
    update_crc 0x12345678 b'k' ≡ shift_bits poly32 8 (bit_xor 0x12345678 b'k')
update_crc-bitwise_example = update_crc-bitwise 0x12345678 b'k' (omega arith) (omega arith)

decrypt_buffer-decipher_example :
    (decrypt_buffer (decrypt_init idle (some secret)).1 readme.plain).0
    ≡ decipher (keys_of first_keys secret) readme.plain
decrypt_buffer-decipher_example =
    decrypt_buffer-decipher idle secret readme.plain (omega arith, (omega arith, (omega arith, tt)))
      (omega arith, (omega arith, tt))

abbrev payload : List ℕ
payload = 1 ∷ 2 ∷ 3 ∷ 4 ∷ 5 ∷ []

abbrev readme_packed : List ℕ
readme_packed = 1 ∷ 2 ∷ []

payload-Ahead : Ahead payload (in_memory payload) (readme_packed ++ 3 ∷ 4 ∷ 5 ∷ [])
payload-Ahead = record { in_memory = refl; rest = refl }

stream_seek_cur-stream_read_example :
    stream_seek_cur (in_memory payload) 2 ≡ (true, (stream_read (in_memory payload) 2).1)
stream_seek_cur-stream_read_example =
    stream_seek_cur-stream_read 2 payload-Ahead (omega arith) (omega arith) (omega arith)

abbrev reader : Reader memory_dos
reader = record {
  io = in_memory payload;
  password = secret;
  has_password = true;
  header_only = false;
  decrypt = keyed;
  eof = false;
}

abbrev two_bytes_meta : HdrMeta
two_bytes_meta = record meta_clear { packed_size = 2; original_size = 2 }

abbrev two_bytes : Entry
two_bytes = meta_to_entry enough_memory two_bytes_meta

next_data-header_only_example :
    next_data enough_memory no_coders zeros two_bytes_meta two_bytes (set_header_only true reader)
    ≡ (
      done (record two_bytes { crc_ok = true }),
      set_header_only true
          (next_data enough_memory no_coders zeros two_bytes_meta two_bytes
            (set_header_only false reader)).1,
    )
next_data-header_only_example =
    next_data-header_only payload readme_packed (3 ∷ 4 ∷ 5 ∷ []) (omega arith) (omega arith)
      enough_memory (λ n. refl) no_coders zeros two_bytes_meta two_bytes reader refl (omega arith)
      refl payload-Ahead
