-- ===== src/Crc/Detect.antt =====
-- What the CRC detects: any change that is confined to one byte.
use lhassa.Base.{
  ℕ, ◌/◌, ◌^◌, ◌<◌, ◌≡◌, ◌≢◌, refl, sym, ap, ◌∙◌, bit_xor, true, List, [], ◌∷◌, ◌++◌, some, get_or,
  arith, ◌==◌, ==_iff, all_below, all_below_sound, All, bit_xor_comm, bit_xor-shift,
  bit_xor_injective, zero, suc, if◌then◌else◌,
}
use lhassa.Crc.{update, crc_loop, crc16, index}
use lhassa.Crc.Table.{crc16_table}
use lhassa.Crc.Reference.{update_fits, update-lt}

-- The index whose table entry has the high byte `h`, found by a search.
entry_of : ℕ → ℕ → ℕ
entry_of zero h = 0
entry_of (suc n) h =
    let rest = entry_of n h in if get_or crc16_table n 0 / 2 ^ 8 == h then n else rest

high_bytes_check : all_below 256 (λ x. entry_of 256 (get_or crc16_table x 0 / 2 ^ 8) == x) ≡ true
unfolding all_below entry_of crc16_table
high_bytes_check = refl

-- The high bytes of the table are all different, so the entry is known from its high byte.
entry_of_high : (x : ℕ) → x < 256 → entry_of 256 (get_or crc16_table x 0 / 2 ^ 8) ≡ x
entry_of_high x h = (==_iff _ _).0 (all_below_sound 256 _ x high_bytes_check h)

high-update :
    (crc b : ℕ) → crc < 2 ^ 16 → update crc b / 2 ^ 8 ≡ get_or crc16_table (index crc b) 0 / 2 ^ 8
high-update crc b h =
    ap (λ (t : ℕ). t / 2 ^ 8) (update_fits crc b h ∙ bit_xor_comm (crc / 2 ^ 8) _)
    ∙ bit_xor-shift 8 (get_or crc16_table (index crc b) 0) (crc / 2 ^ 8) (omega arith)

index-update : (crc b : ℕ) → crc < 2 ^ 16 → entry_of 256 (update crc b / 2 ^ 8) ≡ index crc b
index-update crc b h =
    ap (entry_of 256) (high-update crc b h) ∙ entry_of_high (index crc b) (omega arith)

-- Equal results come from equal values of `crc ^ b`.
update-injective :
    (crc crc' b b' : ℕ)
    → crc < 2 ^ 16
    → crc' < 2 ^ 16
    → b < 2 ^ 8
    → b' < 2 ^ 8
    → update crc b ≡ update crc' b'
    → bit_xor crc b ≡ bit_xor crc' b'
update-injective crc crc' b b' h h' hb hb' e =
    omega (arith, same_index, same_high, bit_xor-shift 8 crc b hb, bit_xor-shift 8 crc' b' hb')
  where
    same_index : index crc b ≡ index crc' b'
    same_index =
        sym (index-update crc b h)
        ∙ ap (λ (t : ℕ). entry_of 256 (t / 2 ^ 8)) e
        ∙ index-update crc' b' h'

    same_high : crc / 2 ^ 8 ≡ crc' / 2 ^ 8
    same_high =
        bit_xor_injective (crc / 2 ^ 8) (crc' / 2 ^ 8) (get_or crc16_table (index crc b) 0) (
          sym (update_fits crc b h)
          ∙ e
          ∙ update_fits crc' b' h'
          ∙ ap (λ (i : ℕ). bit_xor (crc' / 2 ^ 8) (get_or crc16_table i 0)) (sym same_index))

update-injective_byte :
    (crc b b' : ℕ) → crc < 2 ^ 16 → b < 2 ^ 8 → b' < 2 ^ 8 → index crc b ≡ index crc b' → b ≡ b'
update-injective_byte crc b b' h hb hb' e = bit_xor_injective b b' crc (
    bit_xor_comm b crc
    ∙ omega (arith, e, bit_xor-shift 8 crc b hb, bit_xor-shift 8 crc b' hb')
    ∙ bit_xor_comm crc b')

crc_loop-append :
    (crc : ℕ) (xs ys : List ℕ) → crc_loop crc (xs ++ ys) ≡ crc_loop (crc_loop crc xs) ys
unfolding crc_loop
crc_loop-append crc [] ys = refl
crc_loop-append crc (x ∷ xs) ys = crc_loop-append (update crc x) xs ys

crc_loop-lt : (crc : ℕ) (xs : List ℕ) → crc < 2 ^ 16 → crc_loop crc xs < 2 ^ 16
unfolding crc_loop
crc_loop-lt crc [] h = h
crc_loop-lt crc (x ∷ xs) h = crc_loop-lt (update crc x) xs (update-lt crc x)

-- Two states that differ stay different over the same bytes.
crc_loop-injective :
    (crc crc' : ℕ) (ys : List ℕ)
    → crc < 2 ^ 16
    → crc' < 2 ^ 16
    → All (λ b. b < 2 ^ 8) ys
    → crc_loop crc ys ≡ crc_loop crc' ys
    → crc ≡ crc'
unfolding crc_loop
crc_loop-injective crc crc' [] h h' hs e = e
crc_loop-injective crc crc' (y ∷ ys) h h' hs e = bit_xor_injective crc crc' y (
    update-injective crc crc' y y h h' hs.0 hs.0 (
      crc_loop-injective (update crc y) (update crc' y) ys (update-lt crc y) (update-lt crc' y) hs.1
        e))

-- After the first of two changed bytes the high bytes of the two states still tell them apart.
two_bytes :
    (crc a b a' b' : ℕ)
    → crc < 2 ^ 16
    → a < 2 ^ 8
    → b < 2 ^ 8
    → a' < 2 ^ 8
    → b' < 2 ^ 8
    → update (update crc a) b ≡ update (update crc a') b'
    → (a ≡ a') × (b ≡ b')
two_bytes crc a b a' b' h ha hb ha' hb' e = (same_a, same_b)
  where
    same_xor : bit_xor (update crc a) b ≡ bit_xor (update crc a') b'
    same_xor =
        update-injective (update crc a) (update crc a') b b' (update-lt crc a) (update-lt crc a') hb
          hb' e

    same_high : update crc a / 2 ^ 8 ≡ update crc a' / 2 ^ 8
    same_high =
        sym (bit_xor-shift 8 (update crc a) b hb)
        ∙ ap (λ (t : ℕ). t / 2 ^ 8) same_xor
        ∙ bit_xor-shift 8 (update crc a') b' hb'

    same_a : a ≡ a'
    same_a =
        update-injective_byte crc a a' h ha ha'
          (sym (index-update crc a h) ∙ ap (entry_of 256) same_high ∙ index-update crc a' h)

    same_b : b ≡ b'
    same_b = bit_xor_injective b b' (update crc a) (
        bit_xor_comm b (update crc a)
        ∙ same_xor
        ∙ ap (λ (t : ℕ). bit_xor (update crc t) b') (sym same_a)
        ∙ bit_xor_comm (update crc a) b')

crc16-pair :
    (xs ys : List ℕ) (a b a' b' : ℕ)
    → a < 2 ^ 8
    → b < 2 ^ 8
    → a' < 2 ^ 8
    → b' < 2 ^ 8
    → All (λ c. c < 2 ^ 8) ys
    → crc16 (some (xs ++ a ∷ b ∷ ys)) ≡ crc16 (some (xs ++ a' ∷ b' ∷ ys))
    → (a ≡ a') × (b ≡ b')
unfolding crc16 crc_loop
crc16-pair xs ys a b a' b' ha hb ha' hb' hs e =
    let crc = crc_loop 0 xs in
    two_bytes crc a b a' b' (crc_loop-lt 0 xs (omega arith)) ha hb ha' hb' (
      crc_loop-injective (update (update crc a) b) (update (update crc a') b') ys (update-lt _ b)
        (update-lt _ b') hs
        (sym (crc_loop-append 0 xs (a ∷ b ∷ ys)) ∙ e ∙ crc_loop-append 0 xs (a' ∷ b' ∷ ys)))

pub crc16-lt : (bytes : List ℕ) → crc16 (some bytes) < 2 ^ 16
unfolding crc16
crc16-lt bytes = crc_loop-lt 0 bytes (omega arith)

-- Two strings of bytes that differ in one byte or in two neighbouring bytes and in nothing else
-- have different values of `lh_crc16`.
pub crc16_detects :
    (xs ys : List ℕ) (a b a' b' : ℕ)
    → a < 2 ^ 8
    → b < 2 ^ 8
    → a' < 2 ^ 8
    → b' < 2 ^ 8
    → All (λ c. c < 2 ^ 8) ys
    → ¬ ((a ≡ a') × (b ≡ b'))
    → crc16 (some (xs ++ a ∷ b ∷ ys)) ≢ crc16 (some (xs ++ a' ∷ b' ∷ ys))
crc16_detects xs ys a b a' b' ha hb ha' hb' hs ne e =
    ne (crc16-pair xs ys a b a' b' ha hb ha' hb' hs e)
