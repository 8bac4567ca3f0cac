-- ===== src/Bytes.antt =====
-- Bytes, little-endian words and C strings, as Source/src/lh_header.c reads and writes them.
use lhassa.Base.{
  ℕ, ◌+◌, ◌*◌, ◌/◌, ◌%◌, ◌^◌, ◌<◌, ◌≡◌, ◌≢◌, refl, ◌∙◌, ◌||◌, List, [], ◌∷◌, ◌++◌, map, bit_or,
  bit_or_sum', get_or, get_or-append, length, arith, All, ◌==◌, if◌then◌else◌,
}

abbrev pub IsByte : ℕ → Type 0
IsByte b = b < 2 ^ 8

-- `lh_read_le16`: the word at index `i`.
unfoldable pub read_le16 : List ℕ → ℕ → ℕ
read_le16 p i = bit_or (get_or p i 0) (get_or p (i + 1) 0 * 2 ^ 8) % 2 ^ 16

-- `lh_read_le32`
unfoldable pub read_le32 : List ℕ → ℕ → ℕ
read_le32 p i =
    bit_or
      (bit_or (bit_or (get_or p i 0) (get_or p (i + 1) 0 * 2 ^ 8)) (get_or p (i + 2) 0 * 2 ^ 16))
      (get_or p (i + 3) 0 * 2 ^ 24)
    % 2 ^ 32

-- `lh_write_le16`: the two bytes that are stored.
abbrev pub write_le16 : ℕ → List ℕ
write_le16 v = v % 2 ^ 8 ∷ v / 2 ^ 8 % 2 ^ 8 ∷ []

-- `lh_write_le32`
abbrev pub write_le32 : ℕ → List ℕ
write_le32 v = v % 2 ^ 8 ∷ v / 2 ^ 8 % 2 ^ 8 ∷ v / 2 ^ 16 % 2 ^ 8 ∷ v / 2 ^ 24 % 2 ^ 8 ∷ []

-- `lh_get_byte`, `lh_get_word` and `lh_get_longword` at index `i`.
abbrev pub get_byte : List ℕ → ℕ → ℕ
get_byte p i = get_or p i 0

unfoldable pub get_word : List ℕ → ℕ → ℕ
get_word p i = (get_byte p (i + 1) * 2 ^ 8 + get_byte p i) % 2 ^ 16

unfoldable pub get_longword : List ℕ → ℕ → ℕ
get_longword p i =
    (get_byte p (i + 3) * 2 ^ 24
      + get_byte p (i + 2) * 2 ^ 16
      + get_byte p (i + 1) * 2 ^ 8
      + get_byte p i)
    % 2 ^ 32

-- The C string in a character array: what stands before the first 0.
unfoldable pub cstr : List ℕ → List ℕ
cstr [] = []
cstr (c ∷ s) = let rest = c ∷ cstr s in if c == 0 then [] else rest

-- `lh_normalize_path_seps`, on the string without its terminator.
abbrev pub normal_sep : ℕ → ℕ
normal_sep c = if c == b'\\' || c == 0xff then b'/' else c

abbrev pub normalize_path_seps : List ℕ → List ℕ
normalize_path_seps path = map normal_sep path

-- Both words read alike.
read_le16-get_word : (p : List ℕ) (i : ℕ) → IsByte (get_or p i 0) → read_le16 p i ≡ get_word p i
unfolding read_le16 get_word
read_le16-get_word p i h =
    omega
      (arith, bit_or_sum' 8 (get_or p (i + 1) 0) (get_or p (i + 1) 0 * 2 ^ 8) (get_or p i 0) refl h)

read_le32-get_longword :
    (p : List ℕ) (i : ℕ)
    → IsByte (get_or p i 0)
    → IsByte (get_or p (i + 1) 0)
    → IsByte (get_or p (i + 2) 0)
    → read_le32 p i ≡ get_longword p i
unfolding read_le32 get_longword
read_le32-get_longword p i h h' h'' =
    rw
      (
        bit_or_sum' 8 b (b * 2 ^ 8) a refl h,
        bit_or_sum' 16 c (c * 2 ^ 16) (a + b * 2 ^ 8) refl (omega arith),
        bit_or_sum' 24 d (d * 2 ^ 24) (a + b * 2 ^ 8 + c * 2 ^ 16) refl (omega arith),
      )
      (omega arith)
  where
    a : ℕ
    a = get_or p i 0

    b : ℕ
    b = get_or p (i + 1) 0

    c : ℕ
    c = get_or p (i + 2) 0

    d : ℕ
    d = get_or p (i + 3) 0

-- A word that stands behind `pre` is read back by both readers.
pub get_word-write :
    (pre post : List ℕ) (i v : ℕ)
    → i ≡ length pre
    → v < 2 ^ 16
    → get_word (pre ++ (write_le16 v ++ post)) i ≡ v
unfolding get_word
get_word-write pre post i v e h = omega (
  arith,
  get_or-append pre (write_le16 v ++ post) i 0 0 (omega arith),
  get_or-append pre (write_le16 v ++ post) (i + 1) 1 0 (omega arith),
)

pub get_longword-write :
    (pre post : List ℕ) (i v : ℕ)
    → i ≡ length pre
    → v < 2 ^ 32
    → get_longword (pre ++ (write_le32 v ++ post)) i ≡ v
unfolding get_longword
get_longword-write pre post i v e h = omega (
  arith,
  get_or-append pre (write_le32 v ++ post) i 0 0 (omega arith),
  get_or-append pre (write_le32 v ++ post) (i + 1) 1 0 (omega arith),
  get_or-append pre (write_le32 v ++ post) (i + 2) 2 0 (omega arith),
  get_or-append pre (write_le32 v ++ post) (i + 3) 3 0 (omega arith),
)

pub read_le16-write :
    (pre post : List ℕ) (i v : ℕ)
    → i ≡ length pre
    → v < 2 ^ 16
    → read_le16 (pre ++ (write_le16 v ++ post)) i ≡ v
read_le16-write pre post i v e h =
    read_le16-get_word (pre ++ (write_le16 v ++ post)) i
      (omega (arith, get_or-append pre (write_le16 v ++ post) i 0 0 (omega arith)))
    ∙ get_word-write pre post i v e h

pub read_le32-write :
    (pre post : List ℕ) (i v : ℕ)
    → i ≡ length pre
    → v < 2 ^ 32
    → read_le32 (pre ++ (write_le32 v ++ post)) i ≡ v
read_le32-write pre post i v e h =
    read_le32-get_longword (pre ++ (write_le32 v ++ post)) i
      (omega (arith, get_or-append pre (write_le32 v ++ post) i 0 0 (omega arith)))
      (omega (arith, get_or-append pre (write_le32 v ++ post) (i + 1) 1 0 (omega arith)))
      (omega (arith, get_or-append pre (write_le32 v ++ post) (i + 2) 2 0 (omega arith)))
    ∙ get_longword-write pre post i v e h

-- A string of characters is the C string of its array, whatever stands behind its terminator.
pub cstr_lem : (s post : List ℕ) → All (λ c. c ≢ 0) s → cstr (s ++ 0 ∷ post) ≡ s
unfolding cstr
cstr_lem [] post h = refl
cstr_lem (c ∷ s) post h = ground (arith, h.0, cstr_lem s post h.1)

pub cstr_self : (s : List ℕ) → All (λ c. c ≢ 0) s → cstr s ≡ s
unfolding cstr
cstr_self [] h = refl
cstr_self (c ∷ s) h = ground (arith, h.0, cstr_self s h.1)
