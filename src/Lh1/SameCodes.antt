-- ===== src/Lh1/SameCodes.antt =====
-- The codes of offsets that Source/src/lh_lh1dec.c makes are those that Source/src/lh_lzhuf.c has in
-- its tables.
use lhassa.Base.{
  ℕ, ◌<◌, ◌≡◌, refl, get_or, ◌==◌, ==_iff, ◌&&◌, Bool, true, false, all_below, all_below_sound,
}
use lhassa.Lzhuf.Table.{d_code, d_len}
use lhassa.Lh1.Offsets.{init_offset_table}

agrees : ℕ → Bool
agrees b =
    let o = init_offset_table in
    o.offset_lookup b == get_or d_code b 0
    && o.offset_lengths (o.offset_lookup b) == get_or d_len b 0

all_agree : all_below 256 agrees ≡ true
unfolding agrees all_below init_offset_table d_code d_len
all_agree = refl

both : (a b : Bool) → (a && b) ≡ true → (a ≡ true) × (b ≡ true)
both true true e = (refl, refl)
both true false e = absurd (cc)
both false b e = absurd (cc)

-- For every next byte of the bits: the upper part of the offset that `lh1_init_offset_table` enters
-- for it, and the length of that part's code, are those of `lhz_d_code` and `lhz_d_len`.
pub offset_lookup-d_code :
    (b : ℕ)
    → b < 256
    → (init_offset_table.offset_lookup b ≡ get_or d_code b 0)
      × (init_offset_table.offset_lengths (init_offset_table.offset_lookup b) ≡ get_or d_len b 0)
unfolding agrees
offset_lookup-d_code b h =
    let (code, len) = both _ _ (all_below_sound 256 agrees b all_agree h) in
    ((==_iff _ (get_or d_code b 0)).0 code, (==_iff _ (get_or d_len b 0)).0 len)
