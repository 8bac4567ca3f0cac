-- ===== src/Header/Read.antt =====
-- `lh_hdr_read`: a header of level 0, 1 or 2 from a stream.
pub mod Level1
pub mod Level2
use lhassa.Base.{
  ℕ, suc, ◌+◌, ◌-◌, ◌*◌, ◌^◌, ◌%◌, Bool, true, false, ◌&&◌, ◌||◌, not, List, [], ◌∷◌, ◌++◌, Option,
  none, some, length, ltb, leb, ◌==◌, if◌then◌else◌,
}
use lhassa.Method.{Method, Status, err_truncated, err_bad_header}
use lhassa.Outcome.{Outcome, done, failed, lift, pure, fail, stop_if, ◌>>=◌, ◌>>◌}
use lhassa.Bytes.{get_byte}
use lhassa.Stream.{Dos, Stream, stream_read, read_exact}
use lhassa.Header.{HdrMeta, hdr_buf}
use Level1.{read_lhex}
use Level2.{read_level2}

-- The checks of `hdr_len`, the first byte.
abbrev pub len_status : ℕ → Option Status
len_status hdr_len =
    if hdr_len == 0
    then some err_truncated
    else if ltb hdr_len 20 || leb (hdr_buf - 4) hdr_len
    then some err_bad_header
    else none

module _ {dos : Dos} where
  -- The bytes of a level-2 header beyond the first `initial_size`.
  unfoldable pub read_more : List ℕ → ℕ → ℕ → Stream dos → Outcome (List ℕ) × Stream dos
  read_more buf initial_size header_size =
      if ltb initial_size header_size
      then (do rest ← read_exact (header_size - initial_size); pure (buf ++ rest))
      else pure buf

  -- The rest of the header behind its first `hdr_len` bytes: for a level-2 header by the 16-bit
  -- size, for the others the two bytes behind the body.
  unfoldable pub read_rest : List ℕ → ℕ → Stream dos → Outcome (List ℕ) × Stream dos
  read_rest buf hdr_len =
      let header_size = get_byte buf 0 + get_byte buf 1 * 2 ^ 8 in
      if get_byte buf 20 == 2
      then (do
        stop_if (ltb header_size 26 || leb (hdr_buf - 4) header_size) err_bad_header
        read_more buf hdr_len header_size)
      else (do rest ← read_exact 2; pure (buf ++ rest))

  unfoldable pub check_len : ℕ → Stream dos → Outcome (Unit {0}) × Stream dos
  check_len hdr_len = elim (len_status hdr_len) [ none ↦ pure tt | some st ↦ fail st ]

  module _ (malloc_ok : ℕ → Bool) where
    -- The buffer is cleared first, so a byte that was not read is 0. The level is taken before the
    -- rest of the header is read, so for a size of 20 it is 0.
    unfoldable pub hdr_read : Stream dos → Outcome HdrMeta × Stream dos
    hdr_read = do
      first ← read_exact 1
      let hdr_len = get_byte first 0
      check_len hdr_len
      body ← read_exact (hdr_len - 1)
      let level = get_byte (hdr_len ∷ body) 20
      buf ← read_rest (hdr_len ∷ body) hdr_len
      stop_if (not (get_byte buf 2 == b'-') || not (get_byte buf 6 == b'-')) err_bad_header
      if level == 2 then read_level2 malloc_ok buf else read_lhex malloc_ok buf
