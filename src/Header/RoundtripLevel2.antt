-- ===== src/Header/RoundtripLevel2.antt =====
-- `lh_hdr_write` at level 2 followed by `lh_hdr_read`.
use lhassa.Base.{
  ℕ, ◌+◌, ◌-◌, ◌^◌, ◌%◌, ◌≤◌, ◌<◌, ◌≡◌, ap, ◌∙◌, arith, Bool, true, List, [], ◌∷◌, ◌++◌, length,
  some, map, if◌then◌else◌, ◌==◌, length-append,
}
use lhassa.Outcome.{Outcome, done, failed, bind}
use lhassa.Method.{err_invalid_arg}
use lhassa.Stream.{Dos, Stream}
use lhassa.Stream.Memory.{Ahead}
use lhassa.Bytes.{cstr}
use lhassa.Header.{HdrMeta, hdr_buf, os_amiga}
use lhassa.Header.Path.{to_wire}
use lhassa.Header.Paths.{IsPath, split_path-parts, finish_path-parts, length-map}
use lhassa.Header.Read.{hdr_read}
use lhassa.Header.Read.Level2.{is_lhd}
use lhassa.Header.Write.{hdr_write}
use lhassa.Header.Write.Level1.{os_or_amiga}
use lhassa.Header.Write.Level2.{comment_of, level2_bytes, level2_fields, seal}
use lhassa.Header.Reread.{Appends, Holds, IsMeta}
use lhassa.Header.Reread.Level2.{tail, sealed, crc_of, level2_fields_done, seal-unsealed}
use lhassa.Header.Reread.Sealed.{some_comment, hdr_read-sealed}
use lhassa.Header.Roundtrip.{WrittenAs}
use lhassa.Header.Written.{hdr_write-level2}

-- The directory as it stands in the header.
abbrev pub wire : List ℕ → List ℕ
wire dir = map to_wire dir ++ 0xff ∷ []

-- The size of the header.
abbrev pub level2_size : HdrMeta → List ℕ → List ℕ → ℕ
level2_size meta dir name = 29 + length (tail meta name (wire dir))

-- What is read back: the attribute is kept for the Amiga only, and the CRC is always there.
abbrev pub reread_level2 : HdrMeta → List ℕ → List ℕ → HdrMeta
reread_level2 meta dir name = record meta {
  attribute = if os_or_amiga meta == os_amiga then meta.attribute else 0x20;
  header_level = 2;
  os_id = os_or_amiga meta;
  has_crc = true;
  is_directory = is_lhd meta.method;
  filename = some (dir ++ b'/' ∷ name);
  comment = some_comment (comment_of meta);
}

module _ (meta : HdrMeta) (dir : List ℕ) (c : ℕ) (name : List ℕ) (p : IsPath dir (c ∷ name))
    (room : level2_size meta dir (c ∷ name) ≤ hdr_buf)
    (low : 1 ≤ level2_size meta dir (c ∷ name) % 2 ^ 8) where
  abbrev rest : List ℕ
  rest = tail meta (c ∷ name) (wire dir)

  pub level2_bytes-sealed :
      level2_bytes meta (dir ++ b'/' ∷ c ∷ name) ≡ done (sealed meta (crc_of meta rest) rest)
  unfolding level2_bytes
  level2_bytes-sealed =
      ap
        (λ (parts : List ℕ × List ℕ). elim parts.0 [
          | [] ↦ failed err_invalid_arg
          | x ∷ xs ↦ bind (level2_fields meta (x ∷ xs) parts.1) (λ buf. done (seal buf))
        ])
        (split_path-parts dir (c ∷ name) p)
      ∙ ap (λ (r : Outcome (List ℕ)). bind r (λ buf. done (seal buf)))
          (level2_fields_done meta (c ∷ name) (wire dir) (omega arith) (omega arith))
      ∙ ap done (seal-unsealed meta rest)

module _ (meta : HdrMeta) (dir : List ℕ) (c : ℕ) (name : List ℕ) (p : IsPath dir (c ∷ name))
    (room : level2_size meta dir (c ∷ name) < hdr_buf - 4)
    (low : 21 ≤ level2_size meta dir (c ∷ name) % 2 ^ 8) where
  hdr_read-level2 :
      (malloc_ok : ℕ → Bool) (enough : (n : ℕ) → malloc_ok n ≡ true) (v : IsMeta meta) {dos : Dos}
      (s : Stream dos) (mem after : List ℕ)
      → Ahead mem s (
          sealed meta
            (crc_of meta (tail meta (c ∷ name) (wire dir)))
            (tail meta (c ∷ name) (wire dir))
          ++ after)
      → (s' : Stream dos) × (hdr_read malloc_ok s ≡ (done (reread_level2 meta dir (c ∷ name)), s'))
        × Ahead mem s' after
  hdr_read-level2 malloc_ok enough v s mem after a =
      hdr_read-sealed malloc_ok enough meta v c name (wire dir) (dir ++ b'/' ∷ c ∷ name)
        (omega
          (arith, length-append (map to_wire dir) (0xff ∷ []), length-map to_wire dir, p.dir_short))
        (crc_of meta (tail meta (c ∷ name) (wire dir)))
        (finish_path-parts malloc_ok dir (c ∷ name) enough p) room low s mem after a

-- For an entry whose numbers fit their fields, whose signature is that of its method and is read
-- as this method, with a path of a directory and a name that fit their blocks and contain no byte
-- that means a separator on the wire, a header whose size is less than 1020 and has a low byte of
-- 21 or more, a file whose writes succeed, and where every call of `malloc` succeeds:
-- `lh_hdr_write` at level 2 or above appends a header from which `lh_hdr_read`, on an archive in
-- memory, gives back the entry with its path and its comment (level and system filled in, and the
-- attribute of another system replaced) and stops exactly behind it, whatever bytes follow.
pub hdr_read-hdr_write_level2 :
    {dos : Dos} (laws : Appends dos) (malloc_ok : ℕ → Bool) (s : Stream dos) (out : List ℕ)
    (meta : HdrMeta) (dir name : List ℕ) (level : ℕ)
    → ((n : ℕ) → malloc_ok n ≡ true)
    → IsMeta meta
    → IsPath dir name
    → meta.filename ≡ some (dir ++ b'/' ∷ name)
    → cstr (dir ++ b'/' ∷ name) ≡ dir ++ b'/' ∷ name
    → level2_size meta dir name < hdr_buf - 4
    → 21 ≤ level2_size meta dir name % 2 ^ 8
    → 2 ≤ level
    → Holds laws s out
    → WrittenAs laws malloc_ok out (reread_level2 meta dir name) (hdr_write meta level s)
hdr_read-hdr_write_level2 laws malloc_ok s out meta dir [] level enough v p e plain room low high
      h =
    absurd (omega (arith, p.some_name))
hdr_read-hdr_write_level2 laws malloc_ok s out meta dir (c ∷ name) level enough v p e plain room low
      high h =
    let rest = tail meta (c ∷ name) (wire dir) in
    let bytes = sealed meta (crc_of meta rest) rest in
    let w = hdr_write-level2 laws s out bytes meta (dir ++ b'/' ∷ c ∷ name) level h e high (
      ap (level2_bytes meta) plain
      ∙ level2_bytes-sealed meta dir c name p (omega arith) (omega arith)) in
    (
      w.0,
      w.1,
      bytes,
      w.2,
      λ reader t mem after a.
          hdr_read-level2 meta dir c name p room low malloc_ok enough v t mem after a,
    )
