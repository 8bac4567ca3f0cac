-- ===== src/Lzhuf/Table.antt =====
-- The tables for the upper six bits of a match's position in Source/src/lh_lzhuf.c.
use lhassa.Base.{ℕ, List, [], ◌∷◌}

-- `lhz_p_len`
unfoldable pub p_len : List ℕ
p_len =
    0x03 ∷ 0x04 ∷ 0x04 ∷ 0x04 ∷ 0x05 ∷ 0x05 ∷ 0x05 ∷ 0x05 ∷ 0x05 ∷ 0x05 ∷ 0x05 ∷ 0x05 ∷ 0x06 ∷ 0x06
    ∷ 0x06 ∷ 0x06 ∷ 0x06 ∷ 0x06 ∷ 0x06 ∷ 0x06 ∷ 0x06 ∷ 0x06 ∷ 0x06 ∷ 0x06 ∷ 0x07 ∷ 0x07 ∷ 0x07
    ∷ 0x07 ∷ 0x07 ∷ 0x07 ∷ 0x07 ∷ 0x07 ∷ 0x07 ∷ 0x07 ∷ 0x07 ∷ 0x07 ∷ 0x07 ∷ 0x07 ∷ 0x07 ∷ 0x07
    ∷ 0x07 ∷ 0x07 ∷ 0x07 ∷ 0x07 ∷ 0x07 ∷ 0x07 ∷ 0x07 ∷ 0x07 ∷ 0x08 ∷ 0x08 ∷ 0x08 ∷ 0x08 ∷ 0x08
    ∷ 0x08 ∷ 0x08 ∷ 0x08 ∷ 0x08 ∷ 0x08 ∷ 0x08 ∷ 0x08 ∷ 0x08 ∷ 0x08 ∷ 0x08 ∷ 0x08 ∷ []

-- `lhz_p_code`
unfoldable pub p_code : List ℕ
p_code =
    0x00 ∷ 0x20 ∷ 0x30 ∷ 0x40 ∷ 0x50 ∷ 0x58 ∷ 0x60 ∷ 0x68 ∷ 0x70 ∷ 0x78 ∷ 0x80 ∷ 0x88 ∷ 0x90 ∷ 0x94
    ∷ 0x98 ∷ 0x9c ∷ 0xa0 ∷ 0xa4 ∷ 0xa8 ∷ 0xac ∷ 0xb0 ∷ 0xb4 ∷ 0xb8 ∷ 0xbc ∷ 0xc0 ∷ 0xc2 ∷ 0xc4
    ∷ 0xc6 ∷ 0xc8 ∷ 0xca ∷ 0xcc ∷ 0xce ∷ 0xd0 ∷ 0xd2 ∷ 0xd4 ∷ 0xd6 ∷ 0xd8 ∷ 0xda ∷ 0xdc ∷ 0xde
    ∷ 0xe0 ∷ 0xe2 ∷ 0xe4 ∷ 0xe6 ∷ 0xe8 ∷ 0xea ∷ 0xec ∷ 0xee ∷ 0xf0 ∷ 0xf1 ∷ 0xf2 ∷ 0xf3 ∷ 0xf4
    ∷ 0xf5 ∷ 0xf6 ∷ 0xf7 ∷ 0xf8 ∷ 0xf9 ∷ 0xfa ∷ 0xfb ∷ 0xfc ∷ 0xfd ∷ 0xfe ∷ 0xff ∷ []

-- `lhz_d_code`
unfoldable pub d_code : List ℕ
d_code =
    0x00 ∷ 0x00 ∷ 0x00 ∷ 0x00 ∷ 0x00 ∷ 0x00 ∷ 0x00 ∷ 0x00 ∷ 0x00 ∷ 0x00 ∷ 0x00 ∷ 0x00 ∷ 0x00 ∷ 0x00
    ∷ 0x00 ∷ 0x00 ∷ 0x00 ∷ 0x00 ∷ 0x00 ∷ 0x00 ∷ 0x00 ∷ 0x00 ∷ 0x00 ∷ 0x00 ∷ 0x00 ∷ 0x00 ∷ 0x00
    ∷ 0x00 ∷ 0x00 ∷ 0x00 ∷ 0x00 ∷ 0x00 ∷ 0x01 ∷ 0x01 ∷ 0x01 ∷ 0x01 ∷ 0x01 ∷ 0x01 ∷ 0x01 ∷ 0x01
    ∷ 0x01 ∷ 0x01 ∷ 0x01 ∷ 0x01 ∷ 0x01 ∷ 0x01 ∷ 0x01 ∷ 0x01 ∷ 0x02 ∷ 0x02 ∷ 0x02 ∷ 0x02 ∷ 0x02
    ∷ 0x02 ∷ 0x02 ∷ 0x02 ∷ 0x02 ∷ 0x02 ∷ 0x02 ∷ 0x02 ∷ 0x02 ∷ 0x02 ∷ 0x02 ∷ 0x02 ∷ 0x03 ∷ 0x03
    ∷ 0x03 ∷ 0x03 ∷ 0x03 ∷ 0x03 ∷ 0x03 ∷ 0x03 ∷ 0x03 ∷ 0x03 ∷ 0x03 ∷ 0x03 ∷ 0x03 ∷ 0x03 ∷ 0x03
    ∷ 0x03 ∷ 0x04 ∷ 0x04 ∷ 0x04 ∷ 0x04 ∷ 0x04 ∷ 0x04 ∷ 0x04 ∷ 0x04 ∷ 0x05 ∷ 0x05 ∷ 0x05 ∷ 0x05
    ∷ 0x05 ∷ 0x05 ∷ 0x05 ∷ 0x05 ∷ 0x06 ∷ 0x06 ∷ 0x06 ∷ 0x06 ∷ 0x06 ∷ 0x06 ∷ 0x06 ∷ 0x06 ∷ 0x07
    ∷ 0x07 ∷ 0x07 ∷ 0x07 ∷ 0x07 ∷ 0x07 ∷ 0x07 ∷ 0x07 ∷ 0x08 ∷ 0x08 ∷ 0x08 ∷ 0x08 ∷ 0x08 ∷ 0x08
    ∷ 0x08 ∷ 0x08 ∷ 0x09 ∷ 0x09 ∷ 0x09 ∷ 0x09 ∷ 0x09 ∷ 0x09 ∷ 0x09 ∷ 0x09 ∷ 0x0a ∷ 0x0a ∷ 0x0a
    ∷ 0x0a ∷ 0x0a ∷ 0x0a ∷ 0x0a ∷ 0x0a ∷ 0x0b ∷ 0x0b ∷ 0x0b ∷ 0x0b ∷ 0x0b ∷ 0x0b ∷ 0x0b ∷ 0x0b
    ∷ 0x0c ∷ 0x0c ∷ 0x0c ∷ 0x0c ∷ 0x0d ∷ 0x0d ∷ 0x0d ∷ 0x0d ∷ 0x0e ∷ 0x0e ∷ 0x0e ∷ 0x0e ∷ 0x0f
    ∷ 0x0f ∷ 0x0f ∷ 0x0f ∷ 0x10 ∷ 0x10 ∷ 0x10 ∷ 0x10 ∷ 0x11 ∷ 0x11 ∷ 0x11 ∷ 0x11 ∷ 0x12 ∷ 0x12
    ∷ 0x12 ∷ 0x12 ∷ 0x13 ∷ 0x13 ∷ 0x13 ∷ 0x13 ∷ 0x14 ∷ 0x14 ∷ 0x14 ∷ 0x14 ∷ 0x15 ∷ 0x15 ∷ 0x15
    ∷ 0x15 ∷ 0x16 ∷ 0x16 ∷ 0x16 ∷ 0x16 ∷ 0x17 ∷ 0x17 ∷ 0x17 ∷ 0x17 ∷ 0x18 ∷ 0x18 ∷ 0x19 ∷ 0x19
    ∷ 0x1a ∷ 0x1a ∷ 0x1b ∷ 0x1b ∷ 0x1c ∷ 0x1c ∷ 0x1d ∷ 0x1d ∷ 0x1e ∷ 0x1e ∷ 0x1f ∷ 0x1f ∷ 0x20
    ∷ 0x20 ∷ 0x21 ∷ 0x21 ∷ 0x22 ∷ 0x22 ∷ 0x23 ∷ 0x23 ∷ 0x24 ∷ 0x24 ∷ 0x25 ∷ 0x25 ∷ 0x26 ∷ 0x26
    ∷ 0x27 ∷ 0x27 ∷ 0x28 ∷ 0x28 ∷ 0x29 ∷ 0x29 ∷ 0x2a ∷ 0x2a ∷ 0x2b ∷ 0x2b ∷ 0x2c ∷ 0x2c ∷ 0x2d
    ∷ 0x2d ∷ 0x2e ∷ 0x2e ∷ 0x2f ∷ 0x2f ∷ 0x30 ∷ 0x31 ∷ 0x32 ∷ 0x33 ∷ 0x34 ∷ 0x35 ∷ 0x36 ∷ 0x37
    ∷ 0x38 ∷ 0x39 ∷ 0x3a ∷ 0x3b ∷ 0x3c ∷ 0x3d ∷ 0x3e ∷ 0x3f ∷ []

-- `lhz_d_len`
unfoldable pub d_len : List ℕ
d_len =
    0x03 ∷ 0x03 ∷ 0x03 ∷ 0x03 ∷ 0x03 ∷ 0x03 ∷ 0x03 ∷ 0x03 ∷ 0x03 ∷ 0x03 ∷ 0x03 ∷ 0x03 ∷ 0x03 ∷ 0x03
    ∷ 0x03 ∷ 0x03 ∷ 0x03 ∷ 0x03 ∷ 0x03 ∷ 0x03 ∷ 0x03 ∷ 0x03 ∷ 0x03 ∷ 0x03 ∷ 0x03 ∷ 0x03 ∷ 0x03
    ∷ 0x03 ∷ 0x03 ∷ 0x03 ∷ 0x03 ∷ 0x03 ∷ 0x04 ∷ 0x04 ∷ 0x04 ∷ 0x04 ∷ 0x04 ∷ 0x04 ∷ 0x04 ∷ 0x04
    ∷ 0x04 ∷ 0x04 ∷ 0x04 ∷ 0x04 ∷ 0x04 ∷ 0x04 ∷ 0x04 ∷ 0x04 ∷ 0x04 ∷ 0x04 ∷ 0x04 ∷ 0x04 ∷ 0x04
    ∷ 0x04 ∷ 0x04 ∷ 0x04 ∷ 0x04 ∷ 0x04 ∷ 0x04 ∷ 0x04 ∷ 0x04 ∷ 0x04 ∷ 0x04 ∷ 0x04 ∷ 0x04 ∷ 0x04
    ∷ 0x04 ∷ 0x04 ∷ 0x04 ∷ 0x04 ∷ 0x04 ∷ 0x04 ∷ 0x04 ∷ 0x04 ∷ 0x04 ∷ 0x04 ∷ 0x04 ∷ 0x04 ∷ 0x04
    ∷ 0x04 ∷ 0x05 ∷ 0x05 ∷ 0x05 ∷ 0x05 ∷ 0x05 ∷ 0x05 ∷ 0x05 ∷ 0x05 ∷ 0x05 ∷ 0x05 ∷ 0x05 ∷ 0x05
    ∷ 0x05 ∷ 0x05 ∷ 0x05 ∷ 0x05 ∷ 0x05 ∷ 0x05 ∷ 0x05 ∷ 0x05 ∷ 0x05 ∷ 0x05 ∷ 0x05 ∷ 0x05 ∷ 0x05
    ∷ 0x05 ∷ 0x05 ∷ 0x05 ∷ 0x05 ∷ 0x05 ∷ 0x05 ∷ 0x05 ∷ 0x05 ∷ 0x05 ∷ 0x05 ∷ 0x05 ∷ 0x05 ∷ 0x05
    ∷ 0x05 ∷ 0x05 ∷ 0x05 ∷ 0x05 ∷ 0x05 ∷ 0x05 ∷ 0x05 ∷ 0x05 ∷ 0x05 ∷ 0x05 ∷ 0x05 ∷ 0x05 ∷ 0x05
    ∷ 0x05 ∷ 0x05 ∷ 0x05 ∷ 0x05 ∷ 0x05 ∷ 0x05 ∷ 0x05 ∷ 0x05 ∷ 0x05 ∷ 0x05 ∷ 0x05 ∷ 0x05 ∷ 0x05
    ∷ 0x06 ∷ 0x06 ∷ 0x06 ∷ 0x06 ∷ 0x06 ∷ 0x06 ∷ 0x06 ∷ 0x06 ∷ 0x06 ∷ 0x06 ∷ 0x06 ∷ 0x06 ∷ 0x06
    ∷ 0x06 ∷ 0x06 ∷ 0x06 ∷ 0x06 ∷ 0x06 ∷ 0x06 ∷ 0x06 ∷ 0x06 ∷ 0x06 ∷ 0x06 ∷ 0x06 ∷ 0x06 ∷ 0x06
    ∷ 0x06 ∷ 0x06 ∷ 0x06 ∷ 0x06 ∷ 0x06 ∷ 0x06 ∷ 0x06 ∷ 0x06 ∷ 0x06 ∷ 0x06 ∷ 0x06 ∷ 0x06 ∷ 0x06
    ∷ 0x06 ∷ 0x06 ∷ 0x06 ∷ 0x06 ∷ 0x06 ∷ 0x06 ∷ 0x06 ∷ 0x06 ∷ 0x06 ∷ 0x07 ∷ 0x07 ∷ 0x07 ∷ 0x07
    ∷ 0x07 ∷ 0x07 ∷ 0x07 ∷ 0x07 ∷ 0x07 ∷ 0x07 ∷ 0x07 ∷ 0x07 ∷ 0x07 ∷ 0x07 ∷ 0x07 ∷ 0x07 ∷ 0x07
    ∷ 0x07 ∷ 0x07 ∷ 0x07 ∷ 0x07 ∷ 0x07 ∷ 0x07 ∷ 0x07 ∷ 0x07 ∷ 0x07 ∷ 0x07 ∷ 0x07 ∷ 0x07 ∷ 0x07
    ∷ 0x07 ∷ 0x07 ∷ 0x07 ∷ 0x07 ∷ 0x07 ∷ 0x07 ∷ 0x07 ∷ 0x07 ∷ 0x07 ∷ 0x07 ∷ 0x07 ∷ 0x07 ∷ 0x07
    ∷ 0x07 ∷ 0x07 ∷ 0x07 ∷ 0x07 ∷ 0x07 ∷ 0x08 ∷ 0x08 ∷ 0x08 ∷ 0x08 ∷ 0x08 ∷ 0x08 ∷ 0x08 ∷ 0x08
    ∷ 0x08 ∷ 0x08 ∷ 0x08 ∷ 0x08 ∷ 0x08 ∷ 0x08 ∷ 0x08 ∷ 0x08 ∷ []
