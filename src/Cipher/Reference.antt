-- ===== src/Cipher/Reference.antt =====
-- The cipher against its description: the table-driven CRC-32 against the division by 0xEDB88320, and
-- the decryption with a password against a cipher without tables and bit masks.
use lhassa.Bytes.{IsByte}
use lhassa.Base.{
  ℕ, ◌+◌, ◌-◌, ◌*◌, ◌/◌, ◌%◌, ◌^◌, ◌<◌, ◌≡◌, refl, sym, ap, ap₂, ◌∙◌, bit_xor, All, true, List, [],
  ◌∷◌, some, get_or, arith, ◌==◌, ==_iff, all_below, all_below_sound, shift_bit, shift_bits,
  shift_bits-mul, shift_bits-bit_xor, bit_xor-lt, bit_xor-shift, bit_xor_disjoint, bit_or,
  bit_or_step, bit_or-zero, bit_xor_step, bit_xor-zero,
}
use lhassa.Cipher.{
  DecryptState, update_crc, update_keys, decrypt_byte, decrypt_step, decrypt_loop, decrypt_buffer,
  decrypt_init, init_keys,
}
use lhassa.Cipher.Table.{crc32_table}

abbrev pub poly32 : ℕ
poly32 = 0xedb88320

table32_check : all_below 256 (λ x. get_or crc32_table x 0 == shift_bits poly32 8 x) ≡ true
unfolding all_below crc32_table shift_bits shift_bit
table32_check = refl

table32_entry : (x : ℕ) → x < 256 → get_or crc32_table x 0 ≡ shift_bits poly32 8 x
table32_entry x h = (==_iff _ _).0 (all_below_sound 256 _ x table32_check h)

table32_range_check : all_below 256 (λ x. get_or crc32_table x 0 / 2 ^ 32 == 0) ≡ true
unfolding all_below crc32_table
table32_range_check = refl

table32-lt : (x : ℕ) → x < 256 → get_or crc32_table x 0 < 2 ^ 32
table32-lt x h = omega (arith, (==_iff _ _).0 (all_below_sound 256 _ x table32_range_check h))

-- The mask of `lh_update_crc` changes nothing, and the result fits 32 bits.
pub update_crc-lt : (crc byte : ℕ) → update_crc crc byte < 2 ^ 32
unfolding update_crc
update_crc-lt crc byte =
    bit_xor-lt 32 (crc / 2 ^ 8 % 2 ^ 24) _ (omega arith)
      (table32-lt (bit_xor crc byte % 2 ^ 8) (omega arith))

-- For a 32-bit value and a byte, `lh_update_crc` with its table is eight steps of the division by
-- 0xEDB88320 of the value with the byte brought in at its low end.
pub update_crc-bitwise :
    (crc byte : ℕ)
    → crc < 2 ^ 32
    → byte < 2 ^ 8
    → update_crc crc byte ≡ shift_bits poly32 8 (bit_xor crc byte)
unfolding update_crc
update_crc-bitwise crc byte h hb =
    let x = bit_xor crc byte in
    let high : crc / 2 ^ 8 % 2 ^ 24 ≡ crc / 2 ^ 8 = omega arith in
    ap₂ bit_xor (high ∙ sym (shift_bits-mul poly32 8 (crc / 2 ^ 8)))
      (table32_entry (x % 256) (omega arith))
    ∙ sym (shift_bits-bit_xor poly32 8 (crc / 2 ^ 8 * 2 ^ 8) (x % 256))
    ∙ ap (shift_bits poly32 8) (
        bit_xor_disjoint 8 (crc / 2 ^ 8) (x % 256) (omega arith)
        ∙ omega (arith, bit_xor-shift 8 crc byte hb))

-- The cipher as its description has it: three keys, of which two go on with a CRC-32 that divides
-- bit by bit and one by a linear congruence, and a byte of the square of 16 bits.
pub data Keys : Type 0 where
  keys : ℕ → ℕ → ℕ → Keys

unfoldable pub next_keys : Keys → ℕ → Keys
next_keys (keys a b c) plain =
    let a' = shift_bits poly32 8 (bit_xor a plain) in
    let b' = ((b + a' % 256) * 134775813 + 1) % 4294967296 in
    keys a' b' (shift_bits poly32 8 (bit_xor c (b' / 16777216)))

-- The lower 16 bits of the third key, the second one of them set: `t`, times its neighbour in the
-- pair of an even and an odd number.
unfoldable pub pad : Keys → ℕ
pad (keys a b c) =
    let t = c % 65536 / 4 * 4 + 2 + c % 2 in t * (t / 2 * 2 + (1 - t % 2)) / 256 % 256

unfoldable pub keys_of : Keys → List ℕ → Keys
keys_of k [] = k
keys_of k (c ∷ password) = keys_of (next_keys k c) password

unfoldable pub decipher : Keys → List ℕ → List ℕ
decipher k [] = []
decipher k (b ∷ text) = let c = bit_xor b (pad k) in c ∷ decipher (next_keys k c) text

abbrev pub first_keys : Keys
first_keys = keys 305419896 591751049 878082192

abbrev keys_in : DecryptState → Keys
keys_in st = keys st.key0 st.key1 st.key2

abbrev Fits : DecryptState → Type 0
Fits st = (st.key0 < 2 ^ 32) × (st.key1 < 2 ^ 32) × (st.key2 < 2 ^ 32)

update_keys-Fits : (st : DecryptState) (c : ℕ) → Fits (update_keys st c)
unfolding update_keys
update_keys-Fits st c = (update_crc-lt _ _, omega arith, update_crc-lt _ _)

update_keys-next_keys :
    (st : DecryptState) (c : ℕ)
    → Fits st
    → c < 256
    → keys_in (update_keys st c) ≡ next_keys (keys_in st) c
unfolding update_keys next_keys
update_keys-next_keys st c (fits0, _, fits2) byte =
    let k1 = ((st.key1 + update_crc st.key0 c % 2 ^ 8) * 0x08088405 + 1) % 2 ^ 32 in
    rw
      (
        update_crc-bitwise st.key2 (k1 / 2 ^ 24) fits2 (omega arith),
        update_crc-bitwise st.key0 c fits0 byte,
      )
      refl

decrypt_byte-lt : (st : DecryptState) → decrypt_byte st < 2 ^ 8
unfolding decrypt_byte
decrypt_byte-lt st = omega arith

-- The second lowest bit of a number, set.
second_bit : (x : ℕ) → bit_or x 2 ≡ x / 4 * 4 + 2 + x % 2
second_bit x = omega (arith, bit_or_step x 2, bit_or_step (x / 2) 1, bit_or-zero (x / 2 / 2))

last_bit : (x : ℕ) → bit_xor x 1 ≡ x / 2 * 2 + (1 - x % 2)
last_bit x = omega (arith, bit_xor_step x 1, bit_xor-zero (x / 2))

decrypt_byte-pad : (st : DecryptState) → decrypt_byte st ≡ pad (keys_in st)
unfolding decrypt_byte pad
decrypt_byte-pad st =
    let low = st.key2 % 2 ^ 16 in
    let t = low / 4 * 4 + 2 + st.key2 % 2 in
    let marked : bit_or low 2 ≡ t = omega (arith, second_bit low) in
    ap (λ (x : ℕ). x * bit_xor x 1 / 2 ^ 8 % 2 ^ 8) marked
    ∙ ap (λ (x : ℕ). t * x / 2 ^ 8 % 2 ^ 8) (last_bit t)

init_keys-keys_of :
    (st : DecryptState) (password : List ℕ)
    → Fits st
    → All IsByte password
    → Fits (init_keys st password)
      × (keys_in (init_keys st password) ≡ keys_of (keys_in st) password)
unfolding init_keys keys_of
init_keys-keys_of st [] fits bytes = (fits, refl)
init_keys-keys_of st (c ∷ password) fits (byte, bytes) =
    let (fits', same) =
      init_keys-keys_of (update_keys st c) password (update_keys-Fits st c) bytes in
    (fits', same ∙ ap (λ (k : Keys). keys_of k password) (update_keys-next_keys st c fits byte))

decrypt_loop-decipher :
    (st : DecryptState) (text : List ℕ)
    → Fits st
    → All IsByte text
    → (decrypt_loop st text).0 ≡ decipher (keys_in st) text
unfolding decrypt_loop decrypt_step decipher
decrypt_loop-decipher st [] fits bytes = refl
decrypt_loop-decipher st (b ∷ text) fits (byte, bytes) =
    let k = keys_in st in
    let c = bit_xor b (decrypt_byte st) in
    let same : c ≡ bit_xor b (pad k) = ap (bit_xor b) (decrypt_byte-pad st) in
    let c_byte : c < 256 = bit_xor-lt 8 b (decrypt_byte st) byte (decrypt_byte-lt st) in
    ap (λ (l : List ℕ). c ∷ l)
      (decrypt_loop-decipher (record (update_keys st c) { last_char = c }) text
          (update_keys-Fits st c) bytes
        ∙ ap (λ (x : Keys). decipher x text) (update_keys-next_keys st c fits c_byte))
    ∙ ap (λ (x : ℕ). x ∷ decipher (next_keys k x) text) same

-- For every password and text of bytes, and whatever the state was before: after `lh_decrypt_init`
-- with the password, `lh_decrypt_buffer` turns the text into what the cipher as described makes of
-- it: its three keys start at 305419896, 591751049 and 878082192 and go on with each character and
-- each byte of the plain text, by the CRC-32 divided bit by bit and the multiplier 134775813.
pub decrypt_buffer-decipher :
    (st : DecryptState) (password text : List ℕ)
    → All IsByte password
    → All IsByte text
    → (decrypt_buffer (decrypt_init st (some password)).1 text).0
      ≡ decipher (keys_of first_keys password) text
unfolding decrypt_init decrypt_buffer
decrypt_buffer-decipher st password text password_bytes text_bytes =
    let start : DecryptState = record st {
      key0 = 0x12345678;
      key1 = 0x23456789;
      key2 = 0x34567890;
    } in
    let (fits, same) =
      init_keys-keys_of start password (omega arith, omega arith, omega arith) password_bytes in
    decrypt_loop-decipher (record (init_keys start password) { last_char = 0; initialized = true })
      text fits text_bytes
    ∙ ap (λ (k : Keys). decipher k text) same
