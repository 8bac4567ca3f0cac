-- ===== src/Header/Write/Level2.antt =====
-- The bytes of a level-2 header.
use lhassa.Base.{
  ℕ, ◌+◌, ◌^◌, ◌%◌, List, [], ◌∷◌, ◌++◌, Option, none, some, drop, length, ltb, ◌==◌, if◌then◌else◌,
}
use lhassa.Method.{err_bad_header, err_filename_too_long, err_invalid_arg}
use lhassa.Outcome.{Outcome, done, failed, bind}
use lhassa.Bytes.{write_le16, write_le32, cstr}
use lhassa.Crc.{crc16}
use lhassa.Header.{
  HdrMeta, slice, put_bytes, or_fail, os_amiga, hdr_buf, ext_common, ext_filename, ext_path,
  ext_comment,
}
use lhassa.Header.Path.{split_path}
use lhassa.Header.Write.Level1.{os_or_amiga}

-- `lh_hdr_put_ext`: the buffer with one more block, or `none` where it does not fit.
unfoldable pub put_ext : List ℕ → ℕ → List ℕ → Option (List ℕ)
put_ext dest ext_type payload =
    let need = 3 + length payload in
    if ltb hdr_buf (length dest + need)
    then none
    else some (dest ++ (write_le16 (need % 2 ^ 16) ++ ext_type ∷ payload))

-- The first 24 bytes; the size stands in the first two at the end. The attribute of another
-- system is 0x20.
unfoldable pub level2_base : HdrMeta → List ℕ
level2_base meta =
    let os_id = os_or_amiga meta in
    0
    ∷ 0
    ∷ (slice meta.method_sig 0 5
        ++ (write_le32 meta.packed_size
            ++ (write_le32 meta.original_size
                ++ (write_le32 meta.timestamp
                    ++ (if os_id == os_amiga then meta.attribute % 2 ^ 8 else 0x20)
                      ∷ 2
                      ∷ (write_le16 meta.crc ++ os_id % 2 ^ 8 ∷ [])))))

-- An extension that is written only if it is not empty.
unfoldable pub put_some : List ℕ → ℕ → List ℕ → Option (List ℕ)
unfolding put_ext
put_some dest ext_type [] = some dest
put_some dest ext_type (c ∷ payload) = put_ext dest ext_type (c ∷ payload)

-- The end of the chain, and one byte more where the low byte of the size would be 0.
unfoldable pub put_end : List ℕ → Option (List ℕ)
put_end dest =
    let pos = length dest + 2 in
    if ltb hdr_buf pos
    then none
    else if pos % 2 ^ 8 == 0
    then if ltb hdr_buf (pos + 1) then none else some (dest ++ 0 ∷ 0 ∷ 0 ∷ [])
    else some (dest ++ 0 ∷ 0 ∷ [])

-- The size, and the header's own CRC at index 27, taken while its place holds 0.
unfoldable pub seal : List ℕ → List ℕ
seal buf =
    let sized = write_le16 (length buf % 2 ^ 16) ++ drop 2 buf in
    put_bytes sized 27 (write_le16 (crc16 (some sized)))

-- The comment that is written.
abbrev pub comment_of : HdrMeta → List ℕ
comment_of meta = elim meta.comment [ none ↦ [] | some c ↦ cstr c ]

-- The header without its size and CRC.
unfoldable pub level2_fields : HdrMeta → List ℕ → List ℕ → Outcome (List ℕ)
level2_fields meta basename dirpath =
    bind (or_fail (put_ext (level2_base meta) ext_common (0 ∷ 0 ∷ [])) err_bad_header) λ b₁.
      bind (or_fail (put_ext b₁ ext_filename basename) err_filename_too_long) λ b₂.
        bind (or_fail (put_some b₂ ext_path dirpath) err_filename_too_long) λ b₃.
          bind (or_fail (put_some b₃ ext_comment (comment_of meta)) err_bad_header)
            λ b₄. or_fail (put_end b₄) err_bad_header

unfoldable pub level2_bytes : HdrMeta → List ℕ → Outcome (List ℕ)
level2_bytes meta name =
    let (basename, dirpath) = split_path name in
    elim basename [
      | [] ↦ failed err_invalid_arg
      | c ∷ rest ↦ bind (level2_fields meta (c ∷ rest) dirpath) (λ buf. done (seal buf))
    ]
