-- ===== src/Examples/Basics.antt =====
-- The CRC, the methods, the dates and the streams on concrete values.
use lhassa.Base.{
  ℕ, ◌/◌, ◌*◌, get_or, ap, ◌≡◌, ◌≢◌, ◌↔◌, ◌⊎◌, none, refl, arith, List, [], ◌∷◌, ◌++◌, some, take,
}
use lhassa.Method.{Method, ok, method_from_string, method_to_string, signature, sig_len}
use lhassa.Method.Signatures.{method_from_string_iff, method_from_string_lh5}
use lhassa.Crc.{crc16}
use lhassa.Crc.Reference.{bitwise_crc, crc16-bitwise}
use lhassa.Crc.Detect.{crc16_detects}
use lhassa.Datetime.{
  DateTime, validate, datetime_pack, datetime_unpack, dos_timestamp_pack, datetime_to_unix,
  datetime_from_unix, is_leap_year,
}
use lhassa.Datetime.Dos.{datetime_unpack-pack, dos_timestamp_pack-unpack}
use lhassa.Datetime.Unix.{IsDate, datetime_from_unix-to_unix, datetime_to_unix-from_unix}

abbrev text : List ℕ
text = b'L' ∷ b'H' ∷ b'A' ∷ []

crc16-bitwise_example : crc16 (some text) ≡ bitwise_crc 0 text
crc16-bitwise_example = crc16-bitwise text (omega arith, (omega arith, (omega arith, tt)))

abbrev own_signature : List ℕ
own_signature = b'-' ∷ b'l' ∷ b'z' ∷ b's' ∷ b'-' ∷ b'!' ∷ []

crc16_detects_example : crc16 (some (text ++ 1 ∷ 2 ∷ text)) ≢ crc16 (some (text ++ 1 ∷ 3 ∷ text))
crc16_detects_example =
    crc16_detects text text 1 2 1 3 (omega arith) (omega arith) (omega arith) (omega arith)
      (omega arith, (omega arith, (omega arith, tt))) (λ p. absurd (omega (arith, p.1)))

method_from_string_iff_example :
    (method_from_string (some own_signature) ≡ Method.lzs)
    ↔ (take sig_len own_signature ≡ method_to_string Method.lzs)
unfolding method_to_string
method_from_string_iff_example =
    method_from_string_iff own_signature Method.lzs
      (λ p. omega (arith, ap (λ (sig : List ℕ). get_or sig 2 0) p)) (λ p. cc)

method_from_string_lh5_example : take sig_len (signature b'l' b'h' b'5') ≡ signature b'l' b'h' b'5'
unfolding method_from_string
method_from_string_lh5_example = method_from_string_lh5 (signature b'l' b'h' b'5') refl

abbrev noon : DateTime
noon = record { year = 2024; month = 2; day = 29; hour = 12; minute = 30; second = 59 }

datetime_unpack-pack_example :
    ((validate noon ≡ ok)
      × (ts : ℕ) × (datetime_pack noon ≡ (ok, some ts))
      × (datetime_unpack ts ≡ record noon { second = noon.second / 2 * 2 }))
    ⊎ ((validate noon ≢ ok) × (datetime_pack noon ≡ (validate noon, none)))
datetime_unpack-pack_example = datetime_unpack-pack noon

dos_timestamp_pack-unpack_example : dos_timestamp_pack (datetime_unpack 0x5a5d63dd) ≡ 0x5a5d63dd
dos_timestamp_pack-unpack_example = dos_timestamp_pack-unpack 0x5a5d63dd (omega arith)

noon-IsDate : IsDate 2105 noon
unfolding is_leap_year
noon-IsDate = record {
  year_from = omega arith;
  year_to = omega arith;
  month_from = omega arith;
  month_to = omega arith;
  day_from = omega arith;
  day_to = omega arith;
  hour_to = omega arith;
  minute_to = omega arith;
  second_to = omega arith;
}

datetime_from_unix-to_unix_example :
    (secs : ℕ) × (datetime_to_unix noon ≡ some secs) × (datetime_from_unix secs ≡ noon)
datetime_from_unix-to_unix_example = datetime_from_unix-to_unix noon noon-IsDate

datetime_to_unix-from_unix_example :
    IsDate 2107 (datetime_from_unix 0xffffffff)
    × (datetime_to_unix (datetime_from_unix 0xffffffff) ≡ some 0xffffffff)
datetime_to_unix-from_unix_example = datetime_to_unix-from_unix 0xffffffff (omega arith)
