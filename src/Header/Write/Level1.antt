-- ===== src/Header/Write/Level1.antt =====
-- The bytes of a header of level 0 or 1: the body counted by the first byte, and two bytes more.
use lhassa.Base.{ℕ, ◌+◌, ◌-◌, ◌^◌, ◌%◌, List, [], ◌∷◌, ◌++◌, take, length, leb, ◌==◌, if◌then◌else◌}
use lhassa.Bytes.{write_le16, write_le32}
use lhassa.Header.{HdrMeta, slice, os_amiga}

-- `hdr_body`
abbrev pub level1_body : ℕ → ℕ → ℕ
level1_body name_len level = if leb 1 level then 22 + name_len + 5 else 22 + name_len + 2

-- `meta->os_id ? meta->os_id : LH_OS_AMIGA`
abbrev pub os_or_amiga : HdrMeta → ℕ
os_or_amiga meta = if meta.os_id == 0 then os_amiga else meta.os_id

-- The checksum loop, over the bytes from index 2 on.
unfoldable pub sum_bytes : ℕ → List ℕ → ℕ
sum_bytes sum [] = sum
sum_bytes sum (b ∷ bytes) = sum_bytes ((sum + b) % 2 ^ 8) bytes

-- The bytes from index 2 on. Behind the system's letter stand the two bytes of the empty chain
-- and, as far as they are written, the zeros of the cleared buffer.
pub level1_tail : HdrMeta → List ℕ → ℕ → List ℕ
level1_tail meta name level =
    slice meta.method_sig 0 5
    ++ (write_le32 meta.packed_size
        ++ (write_le32 meta.original_size
            ++ (write_le32 meta.timestamp
                ++ meta.attribute % 2 ^ 8
                  ∷ level % 2 ^ 8
                  ∷ length name % 2 ^ 8
                  ∷ (name
                      ++ (write_le16 meta.crc
                          ++ os_or_amiga meta % 2 ^ 8
                            ∷ 0
                            ∷ (if leb 1 level then 0 ∷ 0 ∷ 0 ∷ [] else []))))))

unfoldable pub level1_bytes : HdrMeta → List ℕ → ℕ → List ℕ
unfolding level1_tail sum_bytes
level1_bytes meta name level =
    let body = level1_body (length name) level in
    let tail = level1_tail meta name level in
    body % 2 ^ 8 ∷ sum_bytes 0 (take (body - 2) tail) ∷ tail
