-- ===== src/Header/Chain.antt =====
-- The chain of extension blocks behind a level-1 header, the loop of `lh_hdr_read_lhex`. Its blocks
-- are read from the stream into the rest of the header buffer, through a pointer `p` that is an
-- index into the buffer here.
use lhassa.Base.{
  ℕ, zero, suc, ◌+◌, ◌-◌, Bool, ◌&&◌, List, map, Option, none, some, ltb, ◌==◌, if◌then◌else◌,
}
use lhassa.Method.{err_no_memory, err_bad_header}
use lhassa.Outcome.{Outcome, done, failed, fault, out_of_fuel, lift, fail, bind, ◌>>=◌}
use lhassa.Bytes.{get_byte, get_word}
use lhassa.Stream.{Dos, Stream, read_exact}
use lhassa.Header.{Names, slice, put_bytes, hdr_buf, ext_filename, ext_path, ext_comment}
use lhassa.Header.Path.{from_wire}

-- `n` bytes are read through the pointer and dropped: outside the buffer that is undefined.
abbrev pub skip : Names → ℕ → ℕ → Outcome (Names × ℕ)
skip names p n = if ltb hdr_buf (p + n) then fault else done (names, p + n)

module _ (malloc_ok : ℕ → Bool) (extend_type : ℕ) where
  -- The string of a block of `blk_len` bytes: the string, and the pointer behind it.
  unfoldable pub chain_string : List ℕ → ℕ → ℕ → Outcome (Option (List ℕ) × ℕ)
  chain_string buf p blk_len =
      if ltb 3 blk_len
      then if malloc_ok (blk_len - 2)
        then done (some (slice buf p (blk_len - 3)), p + (blk_len - 3))
        else failed err_no_memory
      else done (none, p)

  -- The `switch` over the type of a block, with the pointer behind the type.
  -- `lh_get_ptr + (size_t)blk_len - 3u` goes back where `blk_len` is 1 or 2.
  unfoldable pub chain_block : ℕ → List ℕ → ℕ → ℕ → Names → Outcome (Names × ℕ)
  unfolding chain_string
  chain_block blk_type buf p blk_len names =
      if blk_type == ext_filename
      then bind (chain_string buf p blk_len) (λ (s, p'). done (record names { filename = s }, p'))
      else if blk_type == ext_path
      then if ltb 3 blk_len && ltb (blk_len - 3) 512
        then done
            (record names { dirbuf = map from_wire (slice buf p (blk_len - 3)) }, p + (blk_len - 3))
        else done (names, p + blk_len - 3)
      else if blk_type == ext_comment
      then bind (chain_string buf p blk_len) (λ (s, p'). done (record names { comment = s }, p'))
      else if blk_type == 0x50 && extend_type == b'U'
      then skip names p 2
      else if blk_type == 0x51 && extend_type == b'U'
      then skip names p 4
      else if blk_type == 0x54 && extend_type == b'U'
      then skip names p 4
      else done (names, p + blk_len - 3)

  module _ {dos : Dos} where
    -- The loop: the strings found and the pointer behind the chain.
    unfoldable pub read_chain :
        ℕ → List ℕ → ℕ → Names → Stream dos → Outcome (Names × ℕ) × Stream dos
    unfolding chain_block
    read_chain zero buf p names = lift out_of_fuel
    read_chain (suc fuel) buf p names =
        let blk_len = get_word buf p in
        let block = do
          bytes ← read_exact blk_len
          let buf' = put_bytes buf (p + 2) bytes
          (names', p') ← lift (chain_block (get_byte buf' (p + 2)) buf' (p + 3) blk_len names)
          read_chain fuel buf' p' names'
        in if ltb hdr_buf (p + 2)
          then lift fault
          else if blk_len == 0
          then lift (done (names, p + 2))
          else if ltb (hdr_buf - (p + 2)) blk_len
          then fail err_bad_header
          else block
