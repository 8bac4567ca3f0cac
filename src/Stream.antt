-- ===== src/Stream.antt =====
-- `lh_stream` of Source/src/lh_archive.c, as the Amiga library builds it: an archive in memory or
-- a file of dos.library.
pub mod Memory
use lhassa.Base.{
  ℕ, ◌+◌, ◌-◌, ◌^◌, ◌%◌, Bool, true, false, ◌||◌, Option, none, some, List, [], ◌∷◌, length, take,
  drop, ltb, leb, ◌==◌, if◌then◌else◌,
}
use lhassa.Method.{Status, err_truncated}
use lhassa.Outcome.{Outcome, done, failed}

-- The calls of dos.library on an open file, which the program does not implement. `none` is the
-- negative result of `Read` and `Write` and the -1 of `Seek`.
pub record Dos : Type 1 where
  pub File : Type 0
  pub read : File → ℕ → Option (List ℕ) × File
  pub write : File → List ℕ → Option ℕ × File
  pub seek_current : File → ℕ → Bool × File
  pub seek_beginning : File → ℕ → Bool × File
  pub tell : File → Option ℕ

-- `struct lh_stream`: `fh` is the file handle, `mem` the bytes of an archive in memory.
pub record Stream (dos : Dos) : Type 0 where
  pub fh : Option dos.File
  pub mem : Option (List ℕ)
  pub mem_pos : ℕ
  pub mem_owned : Bool

module _ (dos : Dos) where
  -- `lh_stream_init`
  abbrev pub stream_init : Stream dos
  stream_init = record { fh = none; mem = none; mem_pos = 0; mem_owned = false }

  -- `lh_stream_open_mem`: `none` is the null pointer or the failure of the call.
  unfoldable pub stream_open_mem : Option (List ℕ) → Bool → Option (Stream dos)
  stream_open_mem none owned = none
  stream_open_mem (some bytes) owned =
      if length bytes == 0
      then none
      else some (record { fh = none; mem = some bytes; mem_pos = 0; mem_owned = owned })

module _ {dos : Dos} where
  -- `lh_stream_read` from a file.
  pub file_read : Stream dos → ℕ → Option dos.File → List ℕ × Stream dos
  file_read s n none = ([], s)
  file_read s n (some f) =
      let (got, f') = dos.read f n in
      (elim got [ none ↦ [] | some bytes ↦ bytes ], record s { fh = some f' })

  -- `lh_stream_read` from memory.
  pub mem_read : Stream dos → ℕ → Option (List ℕ) → List ℕ × Stream dos
  mem_read s n none = file_read s n s.fh
  mem_read s n (some mem) =
      let left = length mem - s.mem_pos in
      let count = if ltb left n then left else n in
      if leb (length mem) s.mem_pos
      then ([], s)
      else (take count (drop s.mem_pos mem), record s { mem_pos = s.mem_pos + count })

  -- `lh_stream_read`: the bytes read, whose number is the source's result.
  pub stream_read : Stream dos → ℕ → List ℕ × Stream dos
  stream_read s n = if n == 0 then ([], s) else mem_read s n s.mem

  -- The idiom `if (lh_stream_read(io, buf, n) != n) return LH_ERR_TRUNCATED;`.
  unfoldable pub read_exact : ℕ → Stream dos → Outcome (List ℕ) × Stream dos
  unfolding stream_read
  read_exact n s =
      let (bytes, s') = stream_read s n in
      if length bytes == n then (done bytes, s') else (failed err_truncated, s')

  -- `lh_stream_write`: the number of bytes written. Only a file can be written.
  pub file_write : Stream dos → List ℕ → Option dos.File → ℕ × Stream dos
  file_write s bytes none = (0, s)
  file_write s bytes (some f) =
      let (wrote, f') = dos.write f bytes in
      (elim wrote [ none ↦ 0 | some n ↦ n ], record s { fh = some f' })

  unfoldable pub stream_write : Stream dos → List ℕ → ℕ × Stream dos
  unfolding file_write
  stream_write s bytes = if length bytes == 0 then (0, s) else file_write s bytes s.fh

  pub file_seek : Stream dos → (dos.File → Bool × dos.File) → Option dos.File → Bool × Stream dos
  file_seek s seek none = (false, s)
  file_seek s seek (some f) = let (ok, f') = seek f in (ok, record s { fh = some f' })

  -- `lh_stream_seek_cur`: `delta` is the 32-bit pattern of a signed number, and a position from
  -- 2 ^ 31 on is a negative one.
  pub mem_seek_cur : Stream dos → ℕ → Option (List ℕ) → Bool × Stream dos
  mem_seek_cur s delta none = file_seek s (λ f. dos.seek_current f delta) s.fh
  mem_seek_cur s delta (some mem) =
      let np = (s.mem_pos + delta) % 2 ^ 32 in
      if leb (2 ^ 31) np || ltb (length mem) np
      then (false, s)
      else (true, record s { mem_pos = np })

  unfoldable pub stream_seek_cur : Stream dos → ℕ → Bool × Stream dos
  unfolding mem_seek_cur
  stream_seek_cur s delta = mem_seek_cur s delta s.mem

  -- `lh_stream_seek_set` to a position that is not negative.
  pub mem_seek : Stream dos → ℕ → Option (List ℕ) → Bool × Stream dos
  mem_seek s pos none = file_seek s (λ f. dos.seek_beginning f pos) s.fh
  mem_seek s pos (some mem) =
      if ltb (length mem) pos then (false, s) else (true, record s { mem_pos = pos })

  unfoldable pub stream_seek_set : Stream dos → ℕ → Bool × Stream dos
  unfolding mem_seek
  stream_seek_set s pos = mem_seek s pos s.mem

  -- `lh_stream_rewind`
  unfoldable pub stream_rewind : Stream dos → Bool × Stream dos
  unfolding stream_seek_set
  stream_rewind s = stream_seek_set s 0

  -- `lh_stream_tell`: `none` is -1.
  pub file_tell : Stream dos → Option dos.File → Option ℕ
  file_tell s none = none
  file_tell s (some f) = dos.tell f

  unfoldable pub stream_tell : Stream dos → Option ℕ
  unfolding file_tell
  stream_tell s = elim s.mem [ none ↦ file_tell s s.fh | some mem ↦ some s.mem_pos ]
