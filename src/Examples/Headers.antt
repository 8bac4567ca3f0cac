-- ===== src/Examples/Headers.antt =====
-- Headers of Source/src/lh_header.c on concrete entries.
use lhassa.Base.{ℕ, replicate, ◌≢◌, refl, true, false, Bool, List, [], ◌∷◌, some, arith}
use lhassa.Method.{Method, method_to_string, method_from_string}
use lhassa.Bytes.{cstr}
use lhassa.Header.{HdrMeta, os_amiga}
use lhassa.Outcome.{out_of_fuel}
use lhassa.Header.Read.{hdr_read}
use lhassa.Header.Total.Reading.{hdr_read-Ends}
use lhassa.Header.Write.{hdr_write}
use lhassa.Header.Reread.{IsMeta}
use lhassa.Header.Reread.Level1.{reread1}
use lhassa.Header.Roundtrip.{WrittenAs, hdr_read-hdr_write}
use lhassa.Header.Paths.{IsPath}
use lhassa.Header.Reread.Blocks.{chain_of}
use lhassa.Header.RoundtripLevel2.{reread_level2, hdr_read-hdr_write_level2}
use lhassa.Header.Unreadable.{WrittenUnreadable, hdr_write-hdr_read_fails}
use lhassa.Examples.Files.{new_file, in_memory, file_laws, new_file-Holds}

abbrev entry_name : List ℕ
entry_name = b'a' ∷ b'/' ∷ b'b' ∷ b'/' ∷ b'c' ∷ []

abbrev plain : HdrMeta
plain = record {
  method_sig = method_to_string Method.lh5;
  method = Method.lh5;
  packed_size = 0x12345;
  original_size = 0x23456;
  timestamp = 0x6543210f;
  attribute = 7;
  header_level = 2;
  os_id = os_amiga;
  crc = 0xbeef;
  has_crc = true;
  is_directory = false;
  filename = some entry_name;
  comment = some (b'h' ∷ b'i' ∷ []);
}

abbrev pub enough_memory : ℕ → Bool
enough_memory n = true

plain-IsMeta : IsMeta plain
unfolding method_from_string
plain-IsMeta = record {
  sig_of = refl;
  method_of = refl;
  packed = omega arith;
  original = omega arith;
  stamp = omega arith;
  attribute = omega arith;
  crc = omega arith;
  os = omega arith;
}

hdr_read-hdr_write_example :
    WrittenAs file_laws enough_memory [] (reread1 plain entry_name 1) (hdr_write plain 1 new_file)
unfolding cstr
hdr_read-hdr_write_example =
    hdr_read-hdr_write file_laws enough_memory new_file [] plain entry_name 1 plain-IsMeta refl refl
      (omega arith) (omega arith) (omega arith) refl new_file-Holds

hdr_read-Ends_example : (hdr_read enough_memory (in_memory (0xff ∷ 1 ∷ 2 ∷ []))).0 ≢ out_of_fuel
hdr_read-Ends_example = hdr_read-Ends enough_memory (in_memory (0xff ∷ 1 ∷ 2 ∷ []))

abbrev drawer : List ℕ
drawer = b'a' ∷ b'/' ∷ b'b' ∷ []

abbrev base_name : List ℕ
base_name = b'c' ∷ []

plain-IsPath : IsPath drawer base_name
unfolding cstr
plain-IsPath = record {
  some_dir = omega arith;
  dir_short = omega arith;
  no_slash = λ q. absurd (omega arith);
  no_wire =
      (λ q. absurd (omega arith), (λ q. absurd (omega arith), (λ q. absurd (omega arith), tt)));
  some_name = omega arith;
  name_short = omega arith;
  plain = (λ q. absurd (omega arith), tt);
  text = refl;
  starts = λ q. absurd (omega arith);
}

hdr_read-hdr_write_level2_example :
    WrittenAs file_laws enough_memory []
      (reread_level2 plain drawer base_name)
      (hdr_write plain 2 new_file)
unfolding cstr chain_of
hdr_read-hdr_write_level2_example =
    hdr_read-hdr_write_level2 file_laws enough_memory new_file [] plain drawer base_name 2
      (λ n. refl) plain-IsMeta plain-IsPath refl refl (omega arith) (omega arith) (omega arith)
      new_file-Holds

-- A comment that makes a header of 260 bytes.
abbrev verbose : HdrMeta
verbose = record plain { comment = some (replicate 215 b'x') }

hdr_write-hdr_read_fails_example :
    WrittenUnreadable file_laws enough_memory [] (hdr_write verbose 2 new_file)
unfolding cstr chain_of
hdr_write-hdr_read_fails_example =
    hdr_write-hdr_read_fails file_laws enough_memory new_file [] verbose drawer b'c' [] 2
      plain-IsPath refl refl (omega arith) (omega arith) (omega arith) (omega arith) new_file-Holds
