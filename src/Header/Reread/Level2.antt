-- ===== src/Header/Reread/Level2.antt =====
-- Headers of level 2: the bytes that `lh_hdr_write` makes, taken apart by `lh_hdr_read`.
use lhassa.Base.{
  ℕ, ◌+◌, ◌^◌, ◌%◌, ◌≤◌, ◌≡◌, refl, sym, ap, ◌∙◌, arith, true, false, List, [], ◌∷◌, ◌++◌, length,
  drop, length-append, ltb, ◌==◌, if◌then◌else◌, append_assoc, append-nil, none, some,
}
use lhassa.Method.{method_from_string}
use lhassa.Outcome.{done}
use lhassa.Crc.{crc16}
use lhassa.Bytes.{
  get_byte, read_le16, read_le32, write_le16, write_le32, read_le16-write, read_le32-write,
}
use lhassa.Header.{
  HdrMeta, slice, hdr_buf, os_amiga, ext_common, ext_filename, ext_path, ext_comment,
}
use lhassa.Header.Read.Level2.{is_lhd, level2_meta}
use lhassa.Header.Write.Level1.{os_or_amiga}
use lhassa.Header.Write.Level2.{
  put_ext, put_some, put_end, seal, comment_of, level2_base, level2_fields,
}
use lhassa.Header.Reread.{IsMeta, signature_shape}
use lhassa.Header.Reread.Blocks.{block, chain_of}

-- A block that is written only if it is not empty.
abbrev pub optional : ℕ → List ℕ → List (ℕ × List ℕ)
optional ext_type [] = []
optional ext_type (c ∷ payload) = (ext_type, c ∷ payload) ∷ []

-- The blocks behind the first one.
abbrev pub blocks_of : List ℕ → List ℕ → List ℕ → List (ℕ × List ℕ)
blocks_of name dir comment =
    (ext_filename, name) ∷ optional ext_path dir ++ optional ext_comment comment

put_ext_done :
    (dest payload : List ℕ) (ext_type : ℕ)
    → length dest + 3 + length payload ≤ hdr_buf
    → put_ext dest ext_type payload ≡ some (dest ++ block ext_type payload)
unfolding put_ext
put_ext_done dest payload ext_type room =
    let fits : ltb hdr_buf (length dest + (3 + length payload)) ≡ false = ground arith in
    rw fits refl

put_some_done :
    (dest payload : List ℕ) (ext_type : ℕ)
    → length dest + length (chain_of (optional ext_type payload)) ≤ hdr_buf
    → put_some dest ext_type payload ≡ some (dest ++ chain_of (optional ext_type payload))
unfolding put_some chain_of
put_some_done dest [] ext_type room = ap some (sym (append-nil dest))
put_some_done dest (c ∷ payload) ext_type room =
    put_ext_done dest (c ∷ payload) ext_type
      (omega (arith, ap length (append-nil (block ext_type (c ∷ payload)))))
    ∙ ap (λ (l : List ℕ). some (dest ++ l)) (sym (append-nil (block ext_type (c ∷ payload))))

put_end_done :
    (dest : List ℕ)
    → length dest + 2 ≤ hdr_buf
    → 1 ≤ (length dest + 2) % 2 ^ 8
    → put_end dest ≡ some (dest ++ 0 ∷ 0 ∷ [])
unfolding put_end
put_end_done dest room low =
    let fits : ltb hdr_buf (length dest + 2) ≡ false = ground arith in
    let odd : ((length dest + 2) % 2 ^ 8 == 0) ≡ false = ground arith in rw (fits, odd) refl

-- The first 24 bytes with the size.
abbrev pub head24 : HdrMeta → ℕ → List ℕ
head24 meta size = write_le16 (size % 2 ^ 16) ++ drop 2 (level2_base meta)

-- The header before it is sealed.
abbrev pub unsealed : HdrMeta → List ℕ → List ℕ
unsealed meta rest = level2_base meta ++ (block ext_common (0 ∷ 0 ∷ []) ++ rest)

pub length-unsealed :
    (meta : HdrMeta) (rest : List ℕ) → length (unsealed meta rest) ≡ 29 + length rest
unfolding level2_base
length-unsealed meta rest = omega arith

-- The sealed header: the size, and the CRC in the first block.
abbrev pub sealed : HdrMeta → ℕ → List ℕ → List ℕ
sealed meta crc rest =
    head24 meta (length (unsealed meta rest)) ++ (block ext_common (write_le16 crc) ++ rest)

abbrev pub crc_of : HdrMeta → List ℕ → ℕ
crc_of meta rest =
    crc16 (some (write_le16 (length (unsealed meta rest) % 2 ^ 16) ++ drop 2 (unsealed meta rest)))

pub seal-unsealed :
    (meta : HdrMeta) (rest : List ℕ)
    → seal (unsealed meta rest) ≡ sealed meta (crc_of meta rest) rest
unfolding seal level2_base
seal-unsealed meta rest = refl

pub length-sealed :
    (meta : HdrMeta) (crc : ℕ) (rest : List ℕ) → length (sealed meta crc rest) ≡ 29 + length rest
unfolding level2_base
length-sealed meta crc rest = omega arith

length-level2_base : (meta : HdrMeta) → length (level2_base meta) ≡ 24
unfolding level2_base
length-level2_base meta = refl

-- The fields, from what stands at their places.
level2_meta_fields :
    (meta : HdrMeta) (buf : List ℕ) (os attribute : ℕ)
    → slice buf 2 5 ≡ meta.method_sig
    → method_from_string (some meta.method_sig) ≡ meta.method
    → read_le32 buf 7 ≡ meta.packed_size
    → read_le32 buf 11 ≡ meta.original_size
    → read_le32 buf 15 ≡ meta.timestamp
    → get_byte buf 19 ≡ attribute
    → get_byte buf 23 ≡ os
    → read_le16 buf 21 ≡ meta.crc
    → level2_meta buf ≡ record meta {
      attribute = attribute;
      header_level = 2;
      os_id = os;
      has_crc = true;
      is_directory = is_lhd meta.method;
      filename = none;
      comment = none;
    }
unfolding level2_meta
level2_meta_fields meta buf os attribute sig method p o t a system crc =
    rw (sig, method, p, o, t, a, system, crc) refl

chain_of-append : (xs ys : List (ℕ × List ℕ)) → chain_of (xs ++ ys) ≡ chain_of xs ++ chain_of ys
unfolding chain_of
chain_of-append [] ys = refl
chain_of-append (b ∷ xs) ys =
    ap (λ (l : List ℕ). block b.0 b.1 ++ l) (chain_of-append xs ys)
    ∙ sym (append_assoc (block b.0 b.1) (chain_of xs) (chain_of ys))

module _ (meta : HdrMeta) (name dir : List ℕ) where
  abbrev blocks : List (ℕ × List ℕ)
  blocks = blocks_of name dir (comment_of meta)

  abbrev pub tail : List ℕ
  tail = chain_of blocks ++ 0 ∷ 0 ∷ []

  abbrev pub dir_bytes : List ℕ
  dir_bytes = chain_of (optional ext_path dir)

  abbrev pub comment_bytes : List ℕ
  comment_bytes = chain_of (optional ext_comment (comment_of meta))

  tail_parts : tail ≡ block ext_filename name ++ (dir_bytes ++ (comment_bytes ++ 0 ∷ 0 ∷ []))
  unfolding chain_of
  tail_parts =
      ap (λ (l : List ℕ). (block ext_filename name ++ l) ++ 0 ∷ 0 ∷ [])
        (chain_of-append (optional ext_path dir) (optional ext_comment (comment_of meta)))
      ∙ append_assoc (block ext_filename name) (dir_bytes ++ comment_bytes) (0 ∷ 0 ∷ [])
      ∙ ap (λ (l : List ℕ). block ext_filename name ++ l)
          (append_assoc dir_bytes comment_bytes (0 ∷ 0 ∷ []))

  pub length-tail : length tail ≡ 3 + length name + length dir_bytes + length comment_bytes + 2
  length-tail = omega (
    arith,
    ap length tail_parts,
    length-append name (dir_bytes ++ (comment_bytes ++ 0 ∷ 0 ∷ [])),
    length-append dir_bytes (comment_bytes ++ 0 ∷ 0 ∷ []),
    length-append comment_bytes (0 ∷ 0 ∷ []),
  )

  -- All blocks fit the buffer, and the size needs no byte of padding.
  pub level2_fields_done :
      29 + length tail ≤ hdr_buf
      → 1 ≤ (29 + length tail) % 2 ^ 8
      → level2_fields meta name dir ≡ done (unsealed meta tail)
  unfolding level2_fields chain_of
  level2_fields_done room low =
      let d = dir_bytes in
      let c = comment_bytes in
      let b₁ = level2_base meta ++ block ext_common (0 ∷ 0 ∷ []) in
      let b₂ = b₁ ++ block ext_filename name in
      let b₃ = b₂ ++ d in
      let b₄ = b₃ ++ c in
      let n₀ : length (level2_base meta) ≡ 24 = length-level2_base meta in
      let n₁ = length-append (level2_base meta) (block ext_common (0 ∷ 0 ∷ [])) in
      let n₂ = length-append b₁ (block ext_filename name) in
      let n₃ = length-append b₂ d in
      let n₄ = length-append b₃ c in
      let all = length-tail in
      rw
        (
          put_ext_done (level2_base meta) (0 ∷ 0 ∷ []) ext_common (omega arith),
          put_ext_done b₁ name ext_filename (omega arith),
          put_some_done b₂ dir ext_path (omega arith),
          put_some_done b₃ (comment_of meta) ext_comment (omega arith),
          put_end_done b₄ (omega arith) (omega arith),
        )
        (ap done (
          append_assoc b₃ c (0 ∷ 0 ∷ [])
          ∙ append_assoc b₂ d (c ++ 0 ∷ 0 ∷ [])
          ∙ append_assoc b₁ (block ext_filename name) (d ++ (c ++ 0 ∷ 0 ∷ []))
          ∙ ap (λ (l : List ℕ). b₁ ++ l) (sym tail_parts)
          ∙ append_assoc (level2_base meta) (block ext_common (0 ∷ 0 ∷ [])) tail))

  -- The fields of fixed place.
  pub level2_meta-sealed :
      (crc : ℕ)
      → IsMeta meta
      → level2_meta (sealed meta crc tail) ≡ record meta {
        attribute = if os_or_amiga meta == os_amiga then meta.attribute else 0x20;
        header_level = 2;
        os_id = os_or_amiga meta;
        has_crc = true;
        is_directory = is_lhd meta.method;
        filename = none;
        comment = none;
      }
  unfolding level2_meta level2_base
  level2_meta-sealed crc v =
      let sig =
        ap (λ (t : List ℕ). slice t 0 5) v.sig_of
        ∙ (signature_shape meta.method).0
        ∙ sym v.sig_of in
      let start = write_le16 (length (unsealed meta tail) % 2 ^ 16) ++ slice meta.method_sig 0 5 in
      let p = write_le32 meta.packed_size in
      let o = write_le32 meta.original_size in
      let t = write_le32 meta.timestamp in
      let attr = if os_or_amiga meta == os_amiga then meta.attribute % 2 ^ 8 else 0x20 in
      let last = os_or_amiga meta % 2 ^ 8 ∷ (block ext_common (write_le16 crc) ++ tail) in
      let post = attr ∷ 2 ∷ (write_le16 meta.crc ++ last) in
      let attribute : meta.attribute % 2 ^ 8 ≡ meta.attribute = omega (arith, v.attribute) in
      let os : os_or_amiga meta % 2 ^ 8 ≡ os_or_amiga meta = ground (arith, v.os) in
      level2_meta_fields meta (sealed meta crc tail) (os_or_amiga meta)
        (if os_or_amiga meta == os_amiga then meta.attribute else 0x20) sig v.method_of
        (read_le32-write start (o ++ (t ++ post)) 7 meta.packed_size refl v.packed)
        (read_le32-write (start ++ p) (t ++ post) 11 meta.original_size refl v.original)
        (read_le32-write (start ++ (p ++ o)) post 15 meta.timestamp refl v.stamp)
        (ap (λ (x : ℕ). if os_or_amiga meta == os_amiga then x else 0x20) attribute) os
        (read_le16-write (start ++ (p ++ (o ++ (t ++ attr ∷ 2 ∷ [])))) last 21 meta.crc refl v.crc)
