-- ===== src/Header/Reread/Sealed.antt =====
-- The blocks of a level-2 header read again, and the header as a whole.
use lhassa.Base.{
  ℕ, ◌+◌, ◌-◌, ◌*◌, ◌^◌, ◌%◌, ◌≤◌, ◌<◌, ◌≡◌, refl, sym, ap, ◌∙◌, arith, Bool, true, false, List, [],
  ◌∷◌, ◌++◌, length, drop, get_or, length-append, length-drop, ltb, leb, ◌==◌, if◌then◌else◌,
  Option, none, some, map,
}
use lhassa.Outcome.{Outcome, done, bind}
use lhassa.Stream.{Dos, Stream}
use lhassa.Stream.Memory.{Ahead}
use lhassa.Bytes.{get_byte, write_le16}
use lhassa.Header.{HdrMeta, Names, hdr_buf, os_amiga, ext_common}
use lhassa.Header.Path.{finish_path, from_wire}
use lhassa.Header.Extensions.{ext_block, new_string, read_extensions}
use lhassa.Header.Read.{hdr_read}
use lhassa.Header.Read.Level2.{is_lhd, level2_names, no_names, read_level2, read_padding}
use lhassa.Header.Write.Level1.{os_or_amiga}
use lhassa.Header.Write.Level2.{comment_of, level2_base}
use lhassa.Header.Reread.{IsMeta, signature_shape}
use lhassa.Header.Reread.Parts.{HasDashes, Reads, Reads-level2, hdr_read-Reads}
use lhassa.Header.Reread.Blocks.{chain_of, AreShort, apply_blocks, read_extensions-chain_of}
use lhassa.Header.Reread.Level2.{
  blocks_of, sealed, length-unsealed, tail, length-sealed, level2_meta-sealed,
}

-- A comment of an entry, which is absent rather than empty.
abbrev pub some_comment : List ℕ → Option (List ℕ)
some_comment [] = none
some_comment (c ∷ s) = some (c ∷ s)

module _ (malloc_ok : ℕ → Bool) (enough : (n : ℕ) → malloc_ok n ≡ true) where
  -- What the blocks of a header give.
  apply_blocks-blocks_of :
      (c : ℕ) (name dir comment crc : List ℕ)
      → length dir < 512
      → apply_blocks malloc_ok ((ext_common, crc) ∷ blocks_of (c ∷ name) dir comment) no_names
        ≡ done (record {
          filename = some (c ∷ name);
          comment = some_comment comment;
          dirbuf = map from_wire dir;
        })
  unfolding apply_blocks ext_block new_string
  apply_blocks-blocks_of c name [] [] crc short = rw (enough (length (c ∷ name) + 1)) refl
  apply_blocks-blocks_of c name [] (k ∷ comment) crc short =
      rw (enough (length (c ∷ name) + 1), enough (length (k ∷ comment) + 1)) refl
  apply_blocks-blocks_of c name (d ∷ dir) [] crc short =
      let some_dir : ltb 0 (length (d ∷ dir)) ≡ true = ground arith in
      let fits : ltb (length (d ∷ dir)) 512 ≡ true = ground arith in
      rw (enough (length (c ∷ name) + 1), some_dir, fits) refl
  apply_blocks-blocks_of c name (d ∷ dir) (k ∷ comment) crc short =
      let some_dir : ltb 0 (length (d ∷ dir)) ≡ true = ground arith in
      let fits : ltb (length (d ∷ dir)) 512 ≡ true = ground arith in
      rw (enough (length (c ∷ name) + 1), some_dir, fits, enough (length (k ∷ comment) + 1)) refl

-- Each block takes a byte or more.
length-chain_of : (blocks : List (ℕ × List ℕ)) → length blocks ≤ length (chain_of blocks)
unfolding chain_of
length-chain_of [] = omega arith
length-chain_of (b ∷ blocks) =
    omega (arith, length-append b.1 (chain_of blocks), length-chain_of blocks)

short_chain : (blocks : List (ℕ × List ℕ)) → length (chain_of blocks) < 2 ^ 16 → AreShort blocks
unfolding chain_of
short_chain [] h = tt
short_chain (b ∷ blocks) h = (
  omega (arith, length-append b.1 (chain_of blocks)),
  short_chain blocks (omega (arith, length-append b.1 (chain_of blocks))),
)

module _ (malloc_ok : ℕ → Bool) (enough : (n : ℕ) → malloc_ok n ≡ true) (meta : HdrMeta)
    (v : IsMeta meta) (c : ℕ) (name dir path : List ℕ) (short : length dir < 512) (crc : ℕ)
    (joined : finish_path malloc_ok (map from_wire dir) (some (c ∷ name)) ≡ done (some path))
    (room : 29 + length (tail meta (c ∷ name) dir) < hdr_buf - 4)
    (low : 21 ≤ (29 + length (tail meta (c ∷ name) dir)) % 2 ^ 8) where
  abbrev rest : List ℕ
  rest = tail meta (c ∷ name) dir

  abbrev bytes : List ℕ
  bytes = sealed meta crc rest

  abbrev blocks : List (ℕ × List ℕ)
  blocks = (ext_common, write_le16 crc) ∷ blocks_of (c ∷ name) dir (comment_of meta)

  -- What the blocks give.
  abbrev names_of : Names
  names_of = record {
    filename = some (c ∷ name);
    comment = some_comment (comment_of meta);
    dirbuf = map from_wire dir;
  }

  drop-sealed : drop 24 bytes ≡ chain_of blocks ++ 0 ∷ 0 ∷ []
  unfolding level2_base chain_of
  drop-sealed = refl

  length-blocks : length (chain_of blocks) + 2 ≡ 5 + length rest
  length-blocks =
      sym (length-append (chain_of blocks) (0 ∷ 0 ∷ []))
      ∙ ap length (sym drop-sealed)
      ∙ length-drop 24 bytes
      ∙ omega (arith, length-sealed meta crc rest)

  read_extensions-sealed :
      (mem_len : ℕ)
      → mem_len ≡ 5 + length rest
      → read_extensions malloc_ok (drop 24 bytes) mem_len (mem_len + 1) 0 0 no_names
        ≡ done (names_of, 5 + length rest)
  read_extensions-sealed mem_len size =
      read_extensions-chain_of malloc_ok blocks [] [] (drop 24 bytes) mem_len (mem_len + 1) 0 0
        no_names (short_chain blocks (omega (arith, length-blocks))) drop-sealed
        (omega (arith, length-drop 24 bytes, length-sealed meta crc rest)) refl
        (omega (arith, length-blocks, length-chain_of blocks))
      ∙ ap (λ (r : Outcome Names). bind r (λ names. done (names, 0 + length (chain_of blocks) + 2)))
          (apply_blocks-blocks_of malloc_ok enough c name dir (comment_of meta) (write_le16 crc)
            short)
      ∙ ap (λ (n : ℕ). done (names_of, n)) {x = 0 + length (chain_of blocks) + 2}
          {y = 5 + length rest} (omega (arith, length-blocks))

  level2_names-sealed :
      level2_names malloc_ok bytes (29 + length rest)
      ≡ done (
        (record {
          filename = some path;
          comment = some_comment (comment_of meta);
          dirbuf = map from_wire dir;
        }),
        5 + length rest,
      )
  unfolding level2_names
  level2_names-sealed =
      rw (read_extensions-sealed (29 + length rest - 24) (omega arith), joined) refl

  -- The metadata that is read: the path, the comment, the system filled in, and the attribute of
  -- another system replaced.
  abbrev pub reread2 : HdrMeta
  reread2 = record meta {
    attribute = if os_or_amiga meta == os_amiga then meta.attribute else 0x20;
    header_level = 2;
    os_id = os_or_amiga meta;
    has_crc = true;
    is_directory = is_lhd meta.method;
    filename = some path;
    comment = some_comment (comment_of meta);
  }

  size_field : get_byte bytes 0 + get_byte bytes 1 * 2 ^ 8 ≡ 29 + length rest
  unfolding level2_base
  size_field = omega (arith, length-unsealed meta rest)

  read_level2-sealed :
      {dos : Dos} (s : Stream dos) → read_level2 malloc_ok bytes s ≡ (done reread2, s)
  unfolding read_level2 read_padding
  read_level2-sealed s =
      let n = 29 + length rest in
      let ext = 5 + length rest - 2 in
      let long : ltb n 26 ≡ false = ground arith in
      let more : leb 2 (5 + length rest) ≡ true = ground arith in
      let inside : ltb n (26 + ext) ≡ false = ground arith in
      let no_more : ltb 1 (n - 26 - ext) ≡ false = ground arith in
      let none_left : (n - 26 - ext == 0) ≡ true = ground arith in
      rw
        (
          size_field,
          long,
          level2_names-sealed,
          more,
          inside,
          no_more,
          none_left,
          level2_meta-sealed meta (c ∷ name) dir crc v,
        )
        refl

  dashes : HasDashes bytes
  unfolding level2_base
  dashes = (
    ap (λ (sig : List ℕ). get_or sig 0 0) v.sig_of ∙ (signature_shape meta.method).1,
    ap (λ (sig : List ℕ). get_or sig 4 0) v.sig_of ∙ (signature_shape meta.method).2,
  )

  level_field : get_byte bytes 20 ≡ 2
  unfolding level2_base
  level_field = refl

  reads :
      {dos : Dos} (s : Stream dos) (mem after : List ℕ)
      → Ahead mem s (bytes ++ after)
      → Reads mem after bytes s
  unfolding level2_base
  reads s mem after a =
      let size = length-unsealed meta rest in
      Reads-level2 mem s _ _ after a (omega (arith, size)) (omega arith) (omega (arith, size))
        (omega arith) (omega arith) refl

  -- A header of this size is read back whole, whatever follows it.
  pub hdr_read-sealed :
      {dos : Dos} (s : Stream dos) (mem after : List ℕ)
      → Ahead mem s (bytes ++ after)
      → (s' : Stream dos) × (hdr_read malloc_ok s ≡ (done reread2, s')) × Ahead mem s' after
  hdr_read-sealed s mem after a =
      let r = reads s mem after a in
      (r.s3, hdr_read-Reads malloc_ok r dashes ∙ rw level_field (read_level2-sealed r.s3), r.ahead)
