-- ===== src/Header/Reread/Level1.antt =====
-- Headers of level 0 and 1: what `lh_hdr_write` writes, `lh_hdr_read` reads back.
use lhassa.Base.{
  ℕ, suc, ◌+◌, ◌-◌, ◌^◌, ◌%◌, ◌≤◌, ◌<◌, ◌≡◌, refl, sym, ap, ◌∙◌, Bool, true, false, List, [], ◌∷◌,
  ◌++◌, length, take, get_or, get_or-append, append_assoc, length-append, none, some, arith, le→ltb,
  Bool-cases, inl, inr, leb, ◌==◌, if◌then◌else◌,
}
use lhassa.Method.{method_from_string}
use lhassa.Outcome.{done}
use lhassa.Stream.{Dos, Stream}
use lhassa.Bytes.{get_byte, get_word, get_longword, write_le16, write_le32, get_word-write}
use lhassa.Header.{HdrMeta, Names, slice, hdr_buf}
use lhassa.Header.Path.{finish_path}
use lhassa.Header.Chain.{read_chain}
use lhassa.Header.Read.Level1.{lhex_meta, read_lhex, read_names}
use lhassa.Header.Read.Level2.{is_lhd}
use lhassa.Header.Write.Level1.{level1_bytes, level1_body, level1_tail, sum_bytes, os_or_amiga}
use lhassa.Header.Read.{hdr_read}
use lhassa.Header.Reread.{IsMeta, slice-append, signature_shape}
use lhassa.Header.Reread.Parts.{HasDashes, Reads, Reads-level1, hdr_read-Reads}
use lhassa.Stream.Memory.{Ahead}

-- What is read back: the comment is not written at these levels, and the CRC is always there.
abbrev pub reread1 : HdrMeta → List ℕ → ℕ → HdrMeta
reread1 meta name level = record meta {
  header_level = level;
  os_id = os_or_amiga meta;
  has_crc = true;
  is_directory = is_lhd meta.method;
  filename = some name;
  comment = none;
}

-- A chain that begins with the length 0 is empty.
read_chain-empty :
    (malloc_ok : ℕ → Bool) (os fuel : ℕ) (buf : List ℕ) (p : ℕ) (names : Names) {dos : Dos}
    (s : Stream dos)
    → p + 2 ≤ hdr_buf
    → get_word buf p ≡ 0
    → read_chain malloc_ok os (suc fuel) buf p names s ≡ (done (names, p + 2), s)
unfolding read_chain
read_chain-empty malloc_ok os fuel buf p names s h e = rw (le→ltb hdr_buf (p + 2) h, e) refl

module _ (meta : HdrMeta) (name : List ℕ) (level : ℕ) (v : IsMeta meta) (short : length name ≤ 200)
    (low : level ≤ 1) where
  -- The 22 bytes before the name, and those behind it.
  prefix : List ℕ
  unfolding level1_bytes
  prefix =
      level1_body (length name) level % 2 ^ 8
      ∷ sum_bytes 0 (take (level1_body (length name) level - 2) (level1_tail meta name level))
      ∷ (slice meta.method_sig 0 5
          ++ (write_le32 meta.packed_size
              ++ (write_le32 meta.original_size
                  ++ (write_le32 meta.timestamp
                      ++ meta.attribute % 2 ^ 8 ∷ level % 2 ^ 8 ∷ length name % 2 ^ 8 ∷ []))))

  ending : List ℕ
  ending = os_or_amiga meta % 2 ^ 8 ∷ 0 ∷ (if leb 1 level then 0 ∷ 0 ∷ 0 ∷ [] else [])

  bytes_parts : level1_bytes meta name level ≡ prefix ++ (name ++ (write_le16 meta.crc ++ ending))
  unfolding level1_bytes prefix ending
  bytes_parts = refl

  length-prefix : length prefix ≡ 22
  unfolding prefix
  length-prefix = refl

  length-bytes : length (level1_bytes meta name level) ≡ level1_body (length name) level + 2
  unfolding ending
  length-bytes = ground (
    arith,
    ap length bytes_parts,
    length-append prefix (name ++ (write_le16 meta.crc ++ ending)),
    length-append name (write_le16 meta.crc ++ ending),
    length-prefix,
  )

  abbrev bytes : List ℕ
  bytes = level1_bytes meta name level

  -- The fields before the name, at their places.
  fixed_fields :
      (get_byte bytes 0 ≡ level1_body (length name) level)
      × (slice bytes 2 5 ≡ meta.method_sig)
      × (get_longword bytes 7 ≡ meta.packed_size)
      × (get_longword bytes 11 ≡ meta.original_size)
      × (get_longword bytes 15 ≡ meta.timestamp)
      × (get_byte bytes 19 ≡ meta.attribute)
      × (get_byte bytes 20 ≡ level)
      × (get_byte bytes 21 ≡ length name)
  unfolding get_longword level1_bytes
  fixed_fields = (
    ground arith,
    ap (λ (s : List ℕ). slice s 0 5) v.sig_of ∙ (signature_shape meta.method).0 ∙ sym v.sig_of,
    omega (arith, v.packed),
    omega (arith, v.original),
    omega (arith, v.stamp),
    omega (arith, v.attribute),
    omega arith,
    omega arith,
  )

  os_or_amiga-lt : os_or_amiga meta < 2 ^ 8
  os_or_amiga-lt = ground (arith, v.os)

  -- The fields behind the name.
  name_fields :
      (slice bytes 22 (length name) ≡ name)
      × (get_word bytes (22 + length name) ≡ meta.crc)
      × (get_byte bytes (22 + length name + 2) ≡ os_or_amiga meta)
  unfolding ending
  name_fields = rw bytes_parts (
    slice-append prefix name (write_le16 meta.crc ++ ending) 22 (length name) (sym length-prefix)
        refl,
    ap (λ (l : List ℕ). get_word l (22 + length name))
          (sym (append_assoc prefix name (write_le16 meta.crc ++ ending)))
        ∙ get_word-write (prefix ++ name) ending (22 + length name) meta.crc
            (omega (arith, length-append prefix name, length-prefix)) v.crc,
    omega (
      arith,
      get_or-append prefix (name ++ (write_le16 meta.crc ++ ending)) (22 + length name + 2)
          (length name + 2) 0 (omega (arith, length-prefix)),
      get_or-append name (write_le16 meta.crc ++ ending) (length name + 2) 2 0 (omega arith),
      os_or_amiga-lt,
    ),
  )

  -- Two zeros at the end of a level-1 header.
  ends_with_zero : level ≡ 1 → get_word bytes (get_byte bytes 0) ≡ 0
  unfolding get_word ending
  ends_with_zero e =
      let size : get_byte bytes 0 ≡ 27 + length name = ground (arith, fixed_fields.0) in
      let rest = name ++ (write_le16 meta.crc ++ ending) in
      rw (size, bytes_parts)
        (ground (
          arith,
          get_or-append prefix rest (27 + length name) (5 + length name) 0
              (omega (arith, length-prefix)),
          get_or-append prefix rest (27 + length name + 1) (6 + length name) 0
              (omega (arith, length-prefix)),
          get_or-append name (write_le16 meta.crc ++ ending) (5 + length name) 5 0 (omega arith),
          get_or-append name (write_le16 meta.crc ++ ending) (6 + length name) 6 0 (omega arith),
        ))

  method_field : method_from_string (some (slice bytes 2 5)) ≡ meta.method
  method_field = ap (λ (s : List ℕ). method_from_string (some s)) fixed_fields.1 ∙ v.method_of

  module _ (malloc_ok : ℕ → Bool) (room : malloc_ok (length name + 1) ≡ true)
      (named : 0 < length name) where
    lhex_meta-bytes : lhex_meta malloc_ok bytes ≡ done (reread1 meta name level)
    unfolding lhex_meta
    lhex_meta-bytes = ground (arith, fixed_fields, name_fields, method_field, room)

    module _ {dos : Dos} (s : Stream dos) where
      -- The chain behind a level-1 header is empty.
      no_chain :
          level ≡ 1
          → (names : Names)
          → read_chain malloc_ok (os_or_amiga meta) hdr_buf bytes (get_byte bytes 0) names s
            ≡ (done (names, get_byte bytes 0 + 2), s)
      no_chain e names =
          read_chain-empty malloc_ok (os_or_amiga meta) 1023 bytes (get_byte bytes 0) names s
            (ground (arith, fixed_fields.0)) (ends_with_zero e)

      read_names-bytes :
          level ≡ 1
          → read_names malloc_ok bytes (get_byte bytes 0) (reread1 meta name level) s
            ≡ (done (reread1 meta name level), s)
      unfolding read_names finish_path
      read_names-bytes e = ground (
        arith,
        no_chain e (record { filename = some name; comment = none; dirbuf = [] }),
        v.packed,
      )

      read_lhex-bytes : read_lhex malloc_ok bytes s ≡ (done (reread1 meta name level), s)
      unfolding read_lhex
      read_lhex-bytes = elim (Bool-cases (level == 0)) [
        | inl zero_level ↦ ground (arith, lhex_meta-bytes, zero_level)
        | inr one_level ↦
            ground (arith, lhex_meta-bytes, one_level, read_names-bytes (ground (arith, one_level)))
      ]

    dashes : HasDashes bytes
    unfolding level1_bytes
    dashes = (
      ap (λ (sig : List ℕ). get_or sig 0 0) v.sig_of ∙ (signature_shape meta.method).1,
      ap (λ (sig : List ℕ). get_or sig 4 0) v.sig_of ∙ (signature_shape meta.method).2,
    )

    reads :
        {dos : Dos} (s : Stream dos) (mem rest : List ℕ)
        → Ahead mem s (bytes ++ rest)
        → Reads mem rest bytes s
    unfolding level1_bytes
    reads s mem rest a =
        Reads-level1 mem s _ _ rest a (ground arith) (omega arith) (ground (arith, length-bytes))
          (omega arith)

    -- The header is read back.
    pub hdr_read-bytes :
        {dos : Dos} (s : Stream dos) (mem rest : List ℕ)
        → Ahead mem s (bytes ++ rest)
        → (s' : Stream dos) × (hdr_read malloc_ok s ≡ (done (reread1 meta name level), s'))
          × Ahead mem s' rest
    hdr_read-bytes s mem rest a =
        let r = reads s mem rest a in
        let not_two : (level == 2) ≡ false = ground arith in
        (
          r.s3,
          hdr_read-Reads malloc_ok r dashes ∙ rw (fixed_fields.6, not_two) (read_lhex-bytes r.s3),
          r.ahead,
        )
