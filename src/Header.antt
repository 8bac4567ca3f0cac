-- ===== src/Header.antt =====
-- The entry headers of Source/src/lh_header.c: their data, and the modules that read and write
-- them. A character array is the list of its bytes.
pub mod Path
pub mod Extensions
pub mod Chain
pub mod Read
pub mod Write
pub mod Reread
pub mod Written
pub mod Roundtrip
pub mod RoundtripLevel2
pub mod Total
pub mod Paths
pub mod Unreadable
use lhassa.Base.{
  ℕ, zero, suc, ◌+◌, Bool, false, List, [], ◌∷◌, ◌++◌, drop, length, Option, none, some, get_or,
}
use lhassa.Method.{Method, Status}
use lhassa.Outcome.{Outcome, done, failed}

-- `lh_hdr_meta`; the strings are those that the program has allocated.
pub record HdrMeta : Type 0 where
  pub method_sig : List ℕ
  pub method : Method
  pub packed_size : ℕ
  pub original_size : ℕ
  pub timestamp : ℕ
  pub attribute : ℕ
  pub header_level : ℕ
  pub os_id : ℕ
  pub crc : ℕ
  pub has_crc : Bool
  pub is_directory : Bool
  pub filename : Option (List ℕ)
  pub comment : Option (List ℕ)

-- What `lh_hdr_meta_clear` leaves.
abbrev pub meta_clear : HdrMeta
meta_clear = record {
  method_sig = [];
  method = Method.lh0;
  packed_size = 0;
  original_size = 0;
  timestamp = 0;
  attribute = 0;
  header_level = 0;
  os_id = 0;
  crc = 0;
  has_crc = false;
  is_directory = false;
  filename = none;
  comment = none;
}

-- `LH_HDR_BUF`, the size of the header buffer.
abbrev pub hdr_buf : ℕ
hdr_buf = 1024

-- `LH_OS_AMIGA`
abbrev pub os_amiga : ℕ
os_amiga = b'A'

-- The types of extension blocks, `LH_EXT_COMMON` to `LH_EXT_COMMENT`.
abbrev pub ext_common : ℕ
ext_common = 0

abbrev pub ext_filename : ℕ
ext_filename = 1

abbrev pub ext_path : ℕ
ext_path = 2

abbrev pub ext_comment : ℕ
ext_comment = 0x41

-- The strings that a chain of extension blocks fills in. `dirbuf` is the directory, as long as
-- `dir_len` says, and empty while there is none.
pub record Names : Type 0 where
  pub filename : Option (List ℕ)
  pub comment : Option (List ℕ)
  pub dirbuf : List ℕ

-- `n` bytes of a buffer that was cleared to 0, from index `i` on.
abbrev pub slice : List ℕ → ℕ → ℕ → List ℕ
slice p i zero = []
slice p i (suc n) = get_or p i 0 ∷ slice p (i + 1) n

-- A cleared buffer after a write of `xs` at index `i`.
abbrev pub put_bytes : List ℕ → ℕ → List ℕ → List ℕ
put_bytes p i xs = slice p 0 i ++ (xs ++ drop (i + length xs) p)

-- `if (test fails) return st;`
abbrev pub or_fail {ℓ} : {A : Type ℓ} → Option A → Status → Outcome A
or_fail none st = failed st
or_fail (some a) st = done a
