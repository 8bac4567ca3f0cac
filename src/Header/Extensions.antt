-- ===== src/Header/Extensions.antt =====
-- `lh_hdr_read_extensions_buf`: the chain of extension blocks inside a level-2 header.
use lhassa.Base.{
  ℕ, zero, suc, ◌+◌, ◌-◌, Bool, ◌&&◌, ◌||◌, List, [], ◌∷◌, map, Option, none, some, length, get_or,
  ltb, ◌==◌, if◌then◌else◌,
}
use lhassa.Method.{err_no_memory, err_bad_header}
use lhassa.Outcome.{Outcome, done, failed, out_of_fuel, bind}
use lhassa.Bytes.{read_le16}
use lhassa.Header.{Names, slice, ext_filename, ext_path, ext_comment}
use lhassa.Header.Path.{from_wire}

module _ (malloc_ok : ℕ → Bool) where
  -- The string of a block, which replaces the one before.
  unfoldable pub new_string : List ℕ → Outcome (Option (List ℕ))
  new_string [] = done none
  new_string (c ∷ payload) =
      if malloc_ok (length (c ∷ payload) + 1)
      then done (some (c ∷ payload))
      else failed err_no_memory

  -- The directory of a block, if it is not empty and fits the array of 512.
  abbrev pub new_dir : List ℕ → List ℕ → List ℕ
  new_dir payload dirbuf =
      if ltb 0 (length payload) && ltb (length payload) 512 then map from_wire payload else dirbuf

  -- What a block of type `blk_type` does.
  unfoldable pub ext_block : ℕ → List ℕ → Names → Outcome Names
  unfolding new_string
  ext_block blk_type payload names =
      if blk_type == ext_filename
      then bind (new_string payload) (λ s. done (record names { filename = s }))
      else if blk_type == ext_path
      then done (record names { dirbuf = new_dir payload names.dirbuf })
      else if blk_type == ext_comment
      then bind (new_string payload) (λ s. done (record names { comment = s }))
      else done names

  module _ (mem : List ℕ) (mem_len : ℕ) where
    -- The loop at `pos`, with the bytes consumed so far.
    unfoldable pub read_extensions : ℕ → ℕ → ℕ → Names → Outcome (Names × ℕ)
    unfolding ext_block
    read_extensions zero pos consumed names = out_of_fuel
    read_extensions (suc fuel) pos consumed names =
        let blk_len = read_le16 mem pos in
        let payload = blk_len - 3 in
        let block =
          bind (ext_block (get_or mem (pos + 2) 0) (slice mem (pos + 3) payload) names)
            (read_extensions fuel (pos + 3 + payload) (consumed + 3 + payload)) in
        if ltb mem_len (pos + 2)
        then done (names, consumed)
        else if blk_len == 0
        then done (names, consumed + 2)
        else if ltb blk_len 3 || ltb mem_len (pos + 2 + blk_len - 3)
        then failed err_bad_header
        else block
