-- ===== src/Archive/Catalog.antt =====
-- A catalog walk, which leaves the packed data out, against a walk that reads it.
use lhassa.Base.{
  ℕ, ◌^◌, ◌<◌, ◌≡◌, refl, sym, ap, ◌∙◌, arith, Bool, true, false, List, ◌++◌, length, ==_refl,
  if◌then◌else◌, Bool-cases, inl, inr, length-append,
}
use lhassa.Outcome.{Outcome, done}
use lhassa.Cipher.{decrypt_buffer}
use lhassa.Stream.{Dos}
use lhassa.Stream.Memory.{Ahead, stream_seek_cur-stream_read}
use lhassa.Codec.{Coders}
use lhassa.Header.{HdrMeta}
use lhassa.Archive.{Entry}
use lhassa.Archive.Reader.{Reader, read_packed, skip_packed, next_data, set_header_only}
use lhassa.Archive.Fetched.{past, stream_read-past, next_data-unpack, next_data-skip}

module _ {dos : Dos} (mem packed rest : List ℕ) (small : length mem < 2 ^ 31)
    (some_data : 0 < length packed) where
  module _ (malloc_ok : ℕ → Bool) (enough : (n : ℕ) → malloc_ok n ≡ true) where
    -- The reader behind the packed data: the stream moves on, and so does the cipher.
    abbrev pub behind : Reader dos → Reader dos
    behind r = record r {
      io = past packed r.io;
      decrypt = if r.has_password then (decrypt_buffer r.decrypt packed).1 else r.decrypt;
    }

    read_packed-behind :
        (r : Reader dos)
        → Ahead mem r.io (packed ++ rest)
        → read_packed malloc_ok (length packed) r ≡ (
          done (if r.has_password then (decrypt_buffer r.decrypt packed).0 else packed),
          behind r,
        )
    unfolding read_packed
    read_packed-behind r ahead =
        let read = (stream_read-past mem packed rest malloc_ok enough r.io ahead).0 in
        elim (Bool-cases r.has_password) [
          | inl with_password ↦
              rw (enough (length packed), read, ==_refl (length packed), with_password) refl
          | inr open_text ↦
              rw (enough (length packed), read, ==_refl (length packed), open_text) refl
        ]

    skip_packed-behind :
        (r : Reader dos)
        → Ahead mem r.io (packed ++ rest)
        → skip_packed malloc_ok (length packed) r ≡ (done tt, behind r)
    unfolding skip_packed
    skip_packed-behind r ahead =
        let seek =
          stream_seek_cur-stream_read (length packed) ahead some_data
            (omega (arith, length-append packed rest)) small in
        elim (Bool-cases r.has_password) [
          | inl with_password ↦ rw (read_packed-behind r ahead, with_password) refl
          | inr open_text ↦ rw (seek, open_text) refl
        ]

    -- For a header with data behind it in an archive of less than 2 GB in memory, and where every
    -- call of `malloc` succeeds: `lh_reader_next` with the headers only gives the entry without
    -- data, and leaves the reader in the state in which reading the data leaves it, the position
    -- and the cipher included, whether there is a password or not.
    pub next_data-header_only :
        (coders : Coders) (fresh : ℕ → List ℕ) (meta : HdrMeta) (entry : Entry) (r : Reader dos)
        → meta.is_directory ≡ false
        → 0 < meta.original_size
        → meta.packed_size ≡ length packed
        → Ahead mem r.io (packed ++ rest)
        → next_data malloc_ok coders fresh meta entry (set_header_only true r) ≡ (
          done (record entry { crc_ok = true }),
          set_header_only true
              (next_data malloc_ok coders fresh meta entry (set_header_only false r)).1,
        )
    next_data-header_only coders fresh meta entry r file has_data size ahead =
        let on = set_header_only true r in
        let off = set_header_only false r in
        let some_packed : 0 < meta.packed_size = omega arith in
        next_data-skip malloc_ok coders fresh meta entry on (behind on) file has_data some_packed
          refl (ap (λ (n : ℕ). skip_packed malloc_ok n on) size ∙ skip_packed-behind on ahead)
        ∙ ap
            (λ (q : Outcome Entry × Reader dos).
              (done (record entry { crc_ok = true }), set_header_only true q.1))
            (sym (
              next_data-unpack malloc_ok coders fresh meta entry _ off (behind off) file has_data
                some_packed refl
                (ap (λ (n : ℕ). read_packed malloc_ok n off) size ∙ read_packed-behind off ahead)))
