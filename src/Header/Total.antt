-- ===== src/Header/Total.antt =====
-- The loops of `lh_hdr_read` end: their fuel is enough. This module has the steps without a stream.
pub mod Reading
use lhassa.Base.{
  ℕ, get_or, zero, suc, ◌+◌, ◌-◌, ◌*◌, ◌^◌, ◌%◌, ◌≤◌, ◌<◌, ◌≡◌, ◌≢◌, refl, sym, ap, ◌∙◌, arith,
  Bool, true, false, List, [], ◌∷◌, Option, none, some, length, drop, ltb, leb, ◌==◌, if◌then◌else◌,
  not, ◌||◌, ◌&&◌, Bool-cases, inl, inr,
}
use lhassa.Method.{Status, err_bad_header}
use lhassa.Outcome.{
  Outcome, done, failed, fault, out_of_fuel, bind, continue, lift, pure, fail, stop_if, ◌>>=◌, ◌>>◌,
}
use lhassa.Outcome.Ends.{Ends, done-Ends, failed-Ends, fault-Ends, Ends-bind, Ends-continue}
use lhassa.Bytes.{get_byte, get_word, read_le16}
use lhassa.Stream.{Dos, Stream, read_exact}
use lhassa.Header.{HdrMeta, Names, hdr_buf, or_fail, slice, put_bytes}
use lhassa.Header.Path.{finish_path, promote_dir, strip_seps}
use lhassa.Header.Extensions.{new_string, ext_block, read_extensions}
use lhassa.Header.Chain.{chain_string, chain_block, read_chain}
use lhassa.Header.Read.{hdr_read, read_rest, read_more, check_len, len_status}
use lhassa.Header.Read.Level1.{lhex_meta, read_names, read_lhex, inline_name, crc_part}
use lhassa.Header.Read.Level2.{level2_names, read_padding, read_level2, no_names}

module _ (malloc_ok : ℕ → Bool) where
  pub promote_dir-Ends : (dir : List ℕ) → Ends (promote_dir malloc_ok dir)
  unfolding promote_dir
  promote_dir-Ends [] p = ground arith
  promote_dir-Ends (c ∷ dir) p = ground arith

  pub finish_path-Ends :
      (dir : List ℕ) (filename : Option (List ℕ)) → Ends (finish_path malloc_ok dir filename)
  unfolding finish_path
  finish_path-Ends [] filename p = ground arith
  finish_path-Ends (d ∷ dir) filename p = ground (arith, promote_dir-Ends (strip_seps (d ∷ dir)))

  pub new_string-Ends : (payload : List ℕ) → Ends (new_string malloc_ok payload)
  unfolding new_string
  new_string-Ends [] p = ground arith
  new_string-Ends (c ∷ payload) p = ground arith

  pub ext_block-Ends :
      (blk_type : ℕ) (payload : List ℕ) (names : Names)
      → Ends (ext_block malloc_ok blk_type payload names)
  unfolding ext_block
  ext_block-Ends blk_type payload names p = ground (
    arith,
    Ends-bind (new_string malloc_ok payload) {f = λ s. done (record names { filename = s })}
        (new_string-Ends payload) (λ s e. done-Ends),
    Ends-bind (new_string malloc_ok payload) {f = λ s. done (record names { comment = s })}
        (new_string-Ends payload) (λ s e. done-Ends),
  )

  -- Each block takes three bytes or more of the header.
  pub read_extensions-Ends :
      (mem : List ℕ) (mem_len fuel pos consumed : ℕ) (names : Names)
      → 1 ≤ fuel
      → mem_len < pos + fuel
      → Ends (read_extensions malloc_ok mem mem_len fuel pos consumed names)
  unfolding read_extensions
  read_extensions-Ends mem mem_len zero pos consumed names room h p = absurd (omega arith)
  read_extensions-Ends mem mem_len (suc fuel) pos consumed names room h p = ground (
    arith,
    λ (next : 3 ≤ read_le16 mem pos) (more : 1 ≤ fuel).
        Ends-bind
          (ext_block malloc_ok (get_or mem (pos + 2) 0)
            (slice mem (pos + 3) (read_le16 mem pos - 3)) names)
          {f = read_extensions malloc_ok mem mem_len fuel (pos + 3 + (read_le16 mem pos - 3))
            (consumed + 3 + (read_le16 mem pos - 3))}
          (ext_block-Ends (get_or mem (pos + 2) 0) (slice mem (pos + 3) (read_le16 mem pos - 3))
            names)
          (λ names' e.
            read_extensions-Ends mem mem_len fuel (pos + 3 + (read_le16 mem pos - 3))
              (consumed + 3 + (read_le16 mem pos - 3)) names' more (omega arith)),
  )

  pub level2_names-Ends :
      (buf : List ℕ) (header_size : ℕ) → Ends (level2_names malloc_ok buf header_size)
  unfolding level2_names
  level2_names-Ends buf header_size =
      let mem_len = header_size - 24 in
      Ends-bind (read_extensions malloc_ok (drop 24 buf) mem_len (mem_len + 1) 0 0 no_names)
        (read_extensions-Ends (drop 24 buf) mem_len (mem_len + 1) 0 0 no_names (omega arith)
          (omega arith))
        (λ (names, consumed) e.
          Ends-bind (finish_path malloc_ok names.dirbuf names.filename)
            (finish_path-Ends names.dirbuf names.filename) (λ filename e'. done-Ends))

  -- The pointer goes on by one byte or more, and stays in the buffer or right behind it.
  pub chain_block-done :
      (os blk_type p blk_len : ℕ) (buf : List ℕ) (names names' : Names) (p' : ℕ)
      → 1 ≤ blk_len
      → p + blk_len ≤ hdr_buf + 1
      → chain_block malloc_ok os blk_type buf p blk_len names ≡ done (names', p')
      → (p ≤ p' + 2) × (p' ≤ hdr_buf + 1)
  unfolding chain_block chain_string
  chain_block-done os blk_type p blk_len buf names names' p' some_bytes room e = ground arith

  pub chain_block-Ends :
      (os blk_type p blk_len : ℕ) (buf : List ℕ) (names : Names)
      → Ends (chain_block malloc_ok os blk_type buf p blk_len names)
  unfolding chain_block chain_string
  chain_block-Ends os blk_type p blk_len buf names e = ground arith

  pub lhex_meta-Ends : (buf : List ℕ) → Ends (lhex_meta malloc_ok buf)
  unfolding lhex_meta inline_name crc_part
  lhex_meta-Ends buf e = ground arith
