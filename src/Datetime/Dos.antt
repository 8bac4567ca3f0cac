-- ===== src/Datetime/Dos.antt =====
-- The packed DOS stamp: packing and unpacking are inverse to one another.
use lhassa.Base.{
  ℕ, ◌+◌, ◌-◌, ◌*◌, ◌/◌, ◌%◌, ◌^◌, ◌≤◌, ◌<◌, ◌≡◌, refl, ◌≢◌, arith, some, none, bit_or_sum, inl,
  inr, ◌⊎◌,
}
use lhassa.Method.{Status, ok}
use lhassa.Datetime.{
  DateTime, validate, dos_timestamp_pack, pack_checked, datetime_pack, datetime_unpack,
}

-- The fields of a stamp stand side by side.
pack_sum :
    (dt : DateTime)
    → dos_timestamp_pack dt
      ≡ (dt.year + 2 ^ 32 - 1980) % 0x80 * 2 ^ 25
        + dt.month % 0x10 * 2 ^ 21
        + dt.day % 0x20 * 2 ^ 16
        + dt.hour % 0x20 * 2 ^ 11
        + dt.minute % 0x40 * 2 ^ 5
        + dt.second / 2 % 0x20
unfolding dos_timestamp_pack
pack_sum dt =
    rw
      (
        bit_or_sum 25 Y (Y * 2 ^ 25) (M * 2 ^ 21) refl (omega arith),
        bit_or_sum 21 (Y * 16 + M) (Y * 2 ^ 25 + M * 2 ^ 21) (D * 2 ^ 16) (omega arith)
            (omega arith),
        bit_or_sum 16 ((Y * 16 + M) * 32 + D) (Y * 2 ^ 25 + M * 2 ^ 21 + D * 2 ^ 16) (h * 2 ^ 11)
            (omega arith) (omega arith),
        bit_or_sum 11 (((Y * 16 + M) * 32 + D) * 32 + h)
            (Y * 2 ^ 25 + M * 2 ^ 21 + D * 2 ^ 16 + h * 2 ^ 11) (m * 2 ^ 5) (omega arith)
            (omega arith),
        bit_or_sum 5 ((((Y * 16 + M) * 32 + D) * 32 + h) * 64 + m)
            (Y * 2 ^ 25 + M * 2 ^ 21 + D * 2 ^ 16 + h * 2 ^ 11 + m * 2 ^ 5) (dt.second / 2 % 0x20)
            (omega arith) (omega arith),
      )
      (omega arith)
  where
    Y : ℕ
    Y = (dt.year + 2 ^ 32 - 1980) % 2 ^ 32 % 0x80

    M : ℕ
    M = dt.month % 0x10

    D : ℕ
    D = dt.day % 0x20

    h : ℕ
    h = dt.hour % 0x20

    m : ℕ
    m = dt.minute % 0x40

pub dos_timestamp_pack-lt : (dt : DateTime) → dos_timestamp_pack dt < 2 ^ 32
dos_timestamp_pack-lt dt = omega (arith, pack_sum dt)

-- A date that `lh_datetime_validate` accepts has each field in the range of its bits.
validate-fields :
    (dt : DateTime)
    → validate dt ≡ ok
    → ((1980 ≤ dt.year) × (dt.year ≤ 2107))
      × ((1 ≤ dt.month) × (dt.month ≤ 12))
      × ((1 ≤ dt.day) × (dt.day ≤ 31))
      × (dt.hour ≤ 23)
      × (dt.minute ≤ 59)
      × (dt.second ≤ 59)
unfolding validate
validate-fields dt h = ground arith

-- What `lh_datetime_pack` gives for a date that is accepted.
pub datetime_pack_valid :
    (dt : DateTime) → validate dt ≡ ok → datetime_pack dt ≡ (ok, some (dos_timestamp_pack dt))
unfolding datetime_pack
datetime_pack_valid dt h = rw h refl

pub datetime_unpack_valid :
    (dt : DateTime)
    → validate dt ≡ ok
    → datetime_unpack (dos_timestamp_pack dt) ≡ record dt { second = dt.second / 2 * 2 }
unfolding datetime_unpack
datetime_unpack_valid dt h = ground (arith, pack_sum dt, validate-fields dt h)

pack_checked_cases :
    (dt : DateTime) (st : Status) → (st ≡ ok) ⊎ ((st ≢ ok) × (pack_checked dt st ≡ (st, none)))
unfolding pack_checked
pack_checked_cases dt ok = inl refl
pack_checked_cases dt _ = inr (λ e. cc, refl)

-- For every date, one of two: `lh_datetime_validate` accepts it, and then so does
-- `lh_datetime_pack`, and unpacking its stamp gives the date back with the seconds rounded down to
-- an even number; or `lh_datetime_validate` does not accept it, and `lh_datetime_pack` gives the
-- same status and no stamp.
pub datetime_unpack-pack :
    (dt : DateTime)
    → ((validate dt ≡ ok)
        × (ts : ℕ) × (datetime_pack dt ≡ (ok, some ts))
        × (datetime_unpack ts ≡ record dt { second = dt.second / 2 * 2 }))
      ⊎ ((validate dt ≢ ok) × (datetime_pack dt ≡ (validate dt, none)))
unfolding datetime_pack
datetime_unpack-pack dt = elim (pack_checked_cases dt (validate dt)) [
  | inl valid ↦
      inl
        (valid, dos_timestamp_pack dt, datetime_pack_valid dt valid, datetime_unpack_valid dt valid)
  | inr refused ↦ inr refused
]

-- Every 32-bit number is a stamp: unpacking and packing it again gives the same number.
pub dos_timestamp_pack-unpack :
    (ts : ℕ) → ts < 2 ^ 32 → dos_timestamp_pack (datetime_unpack ts) ≡ ts
unfolding datetime_unpack
dos_timestamp_pack-unpack ts h = omega (arith, pack_sum (datetime_unpack ts))
