-- ===== src/Header/Write.antt =====
-- `lh_hdr_write`: a header of level 0, 1 or 2 onto a stream. A buffer is the list of the bytes
-- written so far, and what the source's cleared buffer holds behind them is 0.
pub mod Level1
pub mod Level2
use lhassa.Base.{
  ℕ, ◌+◌, ◌-◌, ◌*◌, ◌^◌, ◌%◌, Bool, true, false, ◌&&◌, ◌||◌, List, [], ◌∷◌, ◌++◌, Option, none,
  some, length, take, drop, ltb, leb, ◌==◌, if◌then◌else◌,
}
use lhassa.Method.{Status, err_io, err_invalid_arg, err_bad_header, err_filename_too_long}
use lhassa.Outcome.{Outcome, done, failed, lift, pure, fail, stop_if, ◌>>=◌, ◌>>◌}
use lhassa.Bytes.{cstr}
use lhassa.Stream.{Dos, Stream, stream_write}
use lhassa.Header.{HdrMeta}
use Level1.{level1_bytes, level1_body}
use Level2.{level2_bytes}

-- `LH_STREAM_OPEN`
abbrev pub is_open : {dos : Dos} → Stream dos → Bool
is_open s = elim s.fh [ some f ↦ true | none ↦ elim s.mem [ some m ↦ true | none ↦ false ] ]

module _ {dos : Dos} where
  -- `if (lh_stream_write(io, bytes, n) != n) return LH_ERR_IO;`
  unfoldable pub write_all : List ℕ → Stream dos → Outcome (Unit {0}) × Stream dos
  write_all bytes s =
      let (n, s') = stream_write s bytes in
      if n == length bytes then (done tt, s') else (failed err_io, s')

  -- Level 2 and above.
  unfoldable pub write_level2 : HdrMeta → List ℕ → Stream dos → Outcome (Unit {0}) × Stream dos
  write_level2 meta name = do bytes ← lift (level2_bytes meta name); write_all bytes

  -- Level 0 and 1: the size, the rest of the body, and the two bytes behind it.
  unfoldable pub write_level1 : HdrMeta → List ℕ → ℕ → Stream dos → Outcome (Unit {0}) × Stream dos
  write_level1 meta name level = do
    stop_if (ltb 200 (length name)) err_filename_too_long
    let body = level1_body (length name) level
    stop_if (ltb 255 body) err_bad_header
    let bytes = level1_bytes meta name level
    write_all (take 1 bytes)
    write_all (take (body - 1) (drop 1 bytes))
    write_all (drop body bytes)

  -- `lh_hdr_write` behind its check of the file and the name.
  unfoldable pub write_named :
      HdrMeta → ℕ → Stream dos → Option (List ℕ) → Bool → Outcome (Unit {0}) × Stream dos
  write_named meta level s none opened = (failed err_invalid_arg, s)
  write_named meta level s (some name) false = (failed err_invalid_arg, s)
  write_named meta level s (some name) true =
      if leb 2 level then write_level2 meta (cstr name) s else write_level1 meta (cstr name) level s

  unfoldable pub hdr_write : HdrMeta → ℕ → Stream dos → Outcome (Unit {0}) × Stream dos
  hdr_write meta level s = write_named meta level s meta.filename (is_open s)
