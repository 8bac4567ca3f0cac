-- ===== src/Cipher.antt =====
-- Source/src/lh_crypto.c: the stream cipher of archives with a password. Its keys are 32-bit
-- numbers.
pub mod Table
pub mod Reference
use lhassa.Base.{
  ℕ, ◌+◌, ◌*◌, ◌/◌, ◌%◌, ◌^◌, Bool, true, false, List, [], ◌∷◌, Option, none, some, get_or, bit_xor,
  bit_or,
}
use Table.{crc32_table}

-- `lh_update_crc`
unfoldable pub update_crc : ℕ → ℕ → ℕ
unfolding crc32_table
update_crc crc byte =
    bit_xor (crc / 2 ^ 8 % 2 ^ 24) (get_or crc32_table (bit_xor crc byte % 2 ^ 8) 0)

-- `struct lh_decrypt_state`
pub record DecryptState : Type 0 where
  pub key0 : ℕ
  pub key1 : ℕ
  pub key2 : ℕ
  pub last_char : ℕ
  pub initialized : Bool

-- The keys after a byte of the plain text.
unfoldable pub update_keys : DecryptState → ℕ → DecryptState
unfolding update_crc
update_keys st c =
    let k0 = update_crc st.key0 c in
    let k1 = ((st.key1 + k0 % 2 ^ 8) * 0x08088405 + 1) % 2 ^ 32 in
    record st { key0 = k0; key1 = k1; key2 = update_crc st.key2 (k1 / 2 ^ 24) }

-- `lh_decrypt_byte`: the product of two 16-bit numbers fits `unsigned long`.
unfoldable pub decrypt_byte : DecryptState → ℕ
decrypt_byte st = let temp = bit_or (st.key2 % 2 ^ 16) 2 in temp * bit_xor temp 1 / 2 ^ 8 % 2 ^ 8

-- The loop of `lh_decrypt_init`.
pub init_keys : DecryptState → List ℕ → DecryptState
init_keys st [] = st
init_keys st (c ∷ password) = init_keys (update_keys st c) password

-- `lh_decrypt_init`: `none` is the null pointer, for which the state stays as it is.
unfoldable pub decrypt_init : DecryptState → Option (List ℕ) → Bool × DecryptState
unfolding init_keys
decrypt_init st none = (false, st)
decrypt_init st (some password) =
    let start : DecryptState = record st {
      key0 = 0x12345678;
      key1 = 0x23456789;
      key2 = 0x34567890;
    } in
    (true, record (init_keys start password) { last_char = 0; initialized = true })

-- A byte in the loop of `lh_decrypt_buffer`, and the state behind it.
unfoldable pub decrypt_step : DecryptState → ℕ → ℕ × DecryptState
unfolding decrypt_byte update_keys
decrypt_step st b =
    let c = bit_xor b (decrypt_byte st) in (c, record (update_keys st c) { last_char = c })

-- The loop of `lh_decrypt_buffer`.
unfoldable pub decrypt_loop : DecryptState → List ℕ → List ℕ × DecryptState
unfolding decrypt_step
decrypt_loop st [] = ([], st)
decrypt_loop st (b ∷ buf) =
    let (c, st') = decrypt_step st b in let (rest, st'') = decrypt_loop st' buf in (c ∷ rest, st'')

-- `lh_decrypt_buffer`: the buffer behind the call, and the state.
unfoldable pub decrypt_buffer : DecryptState → List ℕ → List ℕ × DecryptState
unfolding decrypt_loop
decrypt_buffer st buf = elim st.initialized [ true ↦ decrypt_loop st buf | false ↦ (buf, st) ]
