-- ===== src/Archive.antt =====
-- The entries of an archive, `lh_entry` of Source/include/lh.h, and how Source/src/lh_archive.c
-- fills them from the metadata of a header.
pub mod Writer
pub mod Reader
pub mod Catalog
pub mod Added
pub mod Fetched
pub mod Stored
pub mod Whole
use lhassa.Base.{
  ℕ, ◌+◌, Bool, true, false, List, [], ◌∷◌, Option, none, some, length, leb, if◌then◌else◌,
}
use lhassa.Method.{
  Method, Level, store, level_lh1, level_lh5, level_lh6, level_lh7, level_lhd, other,
}
use lhassa.Bytes.{cstr, normalize_path_seps}
use lhassa.Datetime.{DateTime, datetime_unpack, datetime_from_unix}
use lhassa.Header.{HdrMeta}

-- `lh_entry`, without `is_encrypted`, which nothing sets.
pub record Entry : Type 0 where
  pub filename : Option (List ℕ)
  pub comment : Option (List ℕ)
  pub attrs : ℕ
  pub datetime : DateTime
  pub plain : Option (List ℕ)
  pub data_len : ℕ
  pub packed_len : ℕ
  pub method : Method
  pub os_id : ℕ
  pub header_level : ℕ
  pub crc : ℕ
  pub crc_ok : Bool
  pub is_directory : Bool

-- `lh_level_to_method`
unfoldable pub level_to_method : Level → Bool → Method
level_to_method level_lhd store_only = Method.lhd
level_to_method store false = Method.lh0
level_to_method level_lh1 false = Method.lh1
level_to_method level_lh6 false = Method.lh6
level_to_method level_lh7 false = Method.lh7
level_to_method level_lh5 false = Method.lh5
level_to_method (other n) false = Method.lh5
level_to_method _ true = Method.lh0

-- The copy of a string into memory of its own, which is null where there is none.
abbrev pub copy_string : (ℕ → Bool) → Option (List ℕ) → Option (List ℕ)
copy_string malloc_ok none = none
copy_string malloc_ok (some s) = if malloc_ok (length (cstr s) + 1) then some (cstr s) else none

-- The copy of the name, with its separators made into `/`.
abbrev pub copy_name : (ℕ → Bool) → Option (List ℕ) → Option (List ℕ)
copy_name malloc_ok none = none
copy_name malloc_ok (some s) =
    if malloc_ok (length (cstr s) + 1) then some (normalize_path_seps (cstr s)) else none

-- The date of a header's stamp.
abbrev pub stamp_date : ℕ → ℕ → DateTime
stamp_date level stamp = if leb 2 level then datetime_from_unix stamp else datetime_unpack stamp

-- `lh_meta_to_entry`: what it does not set is cleared.
unfoldable pub meta_to_entry : (ℕ → Bool) → HdrMeta → Entry
meta_to_entry malloc_ok meta = record {
  filename = copy_name malloc_ok meta.filename;
  comment = copy_string malloc_ok meta.comment;
  attrs = meta.attribute;
  datetime = stamp_date meta.header_level meta.timestamp;
  plain = none;
  data_len = meta.original_size;
  packed_len = meta.packed_size;
  method = meta.method;
  os_id = meta.os_id;
  header_level = meta.header_level;
  crc = meta.crc;
  crc_ok = false;
  is_directory = meta.is_directory;
}
