-- ===== src/Archive/Added.antt =====
-- What `lh_writer_add` appends to the file for an entry with data, at header level 0 or 1.
use lhassa.Base.{
  ℕ, ◌^◌, ◌≤◌, ◌<◌, ◌≡◌, refl, ap, ap₂, ◌∙◌, arith, Bool, true, false, List, ◌++◌, some, length,
  leb, ◌==◌, if◌then◌else◌, ◌≢◌,
}
use lhassa.Method.{
  Method, Level, level_lhd, ok, method_to_string, method_from_string, store, level_lh1, level_lh5,
  level_lh6, level_lh7, other,
}
use lhassa.Outcome.{done}
use lhassa.Crc.{crc16}
use lhassa.Crc.Detect.{crc16-lt}
use lhassa.Datetime.{DateTime, validate, dos_timestamp_pack}
use lhassa.Datetime.Dos.{datetime_pack_valid, dos_timestamp_pack-lt}
use lhassa.Stream.{Dos, Stream}
use lhassa.Bytes.{IsByte, cstr}
use lhassa.Codec.{Coders, codec_compress}
use lhassa.Header.{HdrMeta}
use lhassa.Header.Read.Level2.{is_lhd}
use lhassa.Header.Write.{hdr_write, write_all}
use lhassa.Header.Write.Level1.{level1_bytes}
use lhassa.Header.Reread.{Appends, Holds, IsMeta}
use lhassa.Header.Written.{Wrote, Wrote-then, write_all-Holds, hdr_write-level1, is_open-Holds}
use lhassa.Archive.{level_to_method}
use lhassa.Archive.Writer.{
  Addition, stamp_of, addition_meta, packed_cap, pack, add_packed, add_meta, writer_add,
}

-- A file to be added whose fields fit a header of level 0 or 1: the name of 1 to 200 characters,
-- a byte of attributes, a valid date, and data that is packed into `packed`.
pub record IsAddition (coders : Coders) (a : Addition) (dt : DateTime) (packed : List ℕ)
    : Type 0 where
  pub named : 0 < length a.filename
  pub short : length a.filename ≤ 200
  pub text : cstr a.filename ≡ a.filename
  pub attrs_fit : IsByte a.attrs
  pub dated : a.datetime ≡ some dt
  pub valid : validate dt ≡ ok
  pub is_file : level_to_method a.level a.store_only ≢ Method.lhd
  pub has_data : 0 < length a.plain
  pub data_fits : length a.plain < 2 ^ 32
  pub packs :
      codec_compress coders
        (level_to_method a.level a.store_only)
        a.plain
        (packed_cap (length a.plain))
      ≡ done packed
  pub has_packed : 0 < length packed
  pub packed_fits : length packed < 2 ^ 32

-- The metadata of the entry's header.
abbrev pub added_meta : Addition → ℕ → DateTime → List ℕ → HdrMeta
added_meta a level dt packed = record (addition_meta level a (dos_timestamp_pack dt)) {
  packed_size = length packed;
  crc = crc16 (some a.plain);
  has_crc = true;
}

is_lhd-other : (m : Method) → m ≢ Method.lhd → is_lhd m ≡ false
is_lhd-other Method.lhd h = absurd (h refl)
is_lhd-other _ h = refl

-- Each method that a level chooses has a signature of its own.
level_to_method-method_from_string :
    (level : Level) (store_only : Bool)
    → method_from_string (some (method_to_string (level_to_method level store_only)))
      ≡ level_to_method level store_only
unfolding level_to_method method_from_string method_to_string
level_to_method-method_from_string level_lhd b = refl
level_to_method-method_from_string store false = refl
level_to_method-method_from_string level_lh1 false = refl
level_to_method-method_from_string level_lh5 false = refl
level_to_method-method_from_string level_lh6 false = refl
level_to_method-method_from_string level_lh7 false = refl
level_to_method-method_from_string (other n) false = refl
level_to_method-method_from_string store true = refl
level_to_method-method_from_string level_lh1 true = refl
level_to_method-method_from_string level_lh5 true = refl
level_to_method-method_from_string level_lh6 true = refl
level_to_method-method_from_string level_lh7 true = refl
level_to_method-method_from_string (other n) true = refl

-- An entry with data.
add_meta-packed :
    {dos : Dos} (malloc_ok : ℕ → Bool) (coders : Coders) (level : ℕ) (meta : HdrMeta)
    (plain : List ℕ) (s : Stream dos)
    → meta.is_directory ≡ false
    → (length plain == 0) ≡ false
    → add_meta malloc_ok coders level meta plain s ≡ add_packed malloc_ok coders level meta plain s
unfolding add_meta
add_meta-packed {dos} malloc_ok coders level meta plain s hd he =
    ap₂
      (λ (d e : Bool).
        (if d
            then hdr_write {dos = dos} meta level
            else if e
            then hdr_write (record meta { has_crc = true }) level
            else add_packed malloc_ok coders level meta plain)
          s)
      hd he

module _ (coders : Coders) (a : Addition) (dt : DateTime) (packed : List ℕ)
    (v : IsAddition coders a dt packed) (level : ℕ) where
  pub added_meta-IsMeta : IsMeta (added_meta a level dt packed)
  added_meta-IsMeta = record {
    sig_of = refl;
    method_of = level_to_method-method_from_string a.level a.store_only;
    packed = v.packed_fits;
    original = v.data_fits;
    stamp = dos_timestamp_pack-lt dt;
    attribute = v.attrs_fit;
    crc = crc16-lt a.plain;
    os = omega arith;
  }

  pub added_is_file : (added_meta a level dt packed).is_directory ≡ false
  added_is_file = is_lhd-other (level_to_method a.level a.store_only) v.is_file

  module _ {dos : Dos} (laws : Appends dos) (malloc_ok : ℕ → Bool)
      (enough : (n : ℕ) → malloc_ok n ≡ true) (low : level ≤ 1) where
    add_packed-Wrote :
        (s : Stream dos) (out : List ℕ)
        → Holds laws s out
        → Wrote laws out (level1_bytes (added_meta a level dt packed) a.filename level ++ packed) (
            add_packed malloc_ok coders level
              (addition_meta level a (dos_timestamp_pack dt))
              a.plain
              s)
    unfolding add_packed pack
    add_packed-Wrote s out h =
        let meta = added_meta a level dt packed in
        let bytes = level1_bytes meta a.filename level in
        let header =
          hdr_write-level1 laws s out meta a.filename level h refl (rw v.text v.short) low in
        rw (enough (packed_cap (length a.plain)), v.packs)
          (Wrote-then laws out bytes packed (hdr_write meta level s) (write_all packed)
            (rw v.text at header) (λ s₁ h₁. write_all-Holds laws s₁ (out ++ bytes) packed h₁))

    stamp_of-valid : (now : DateTime) → stamp_of level now a.datetime ≡ done (dos_timestamp_pack dt)
    unfolding stamp_of
    stamp_of-valid now =
        let low_level : leb 2 level ≡ false = ground arith in
        ap (stamp_of level now) v.dated ∙ rw (low_level, datetime_pack_valid dt v.valid) refl

    -- The header and the packed data are appended.
    pub writer_add-Wrote :
        (now : DateTime) (s : Stream dos) (out : List ℕ)
        → Holds laws s out
        → Wrote laws out
            (level1_bytes (added_meta a level dt packed) a.filename level ++ packed)
            (writer_add malloc_ok coders level now a s)
    unfolding writer_add
    writer_add-Wrote now s out h =
        let not_empty : (length a.plain == 0) ≡ false = ground (arith, v.has_data) in
        rw
          (
            is_open-Holds laws s out h,
            stamp_of-valid now,
            add_meta-packed malloc_ok coders level (addition_meta level a (dos_timestamp_pack dt))
                a.plain s added_is_file not_empty,
          )
          (add_packed-Wrote s out h)
