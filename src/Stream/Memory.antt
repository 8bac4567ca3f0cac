-- ===== src/Stream/Memory.antt =====
-- Archives in memory: reads and seeks against the bytes that lie ahead.
use lhassa.Base.{
  ℕ, Option, true, false, ◌%◌, ◌^◌, ltb, leb, ◌+◌, ◌-◌, ◌≤◌, ◌<◌, ◌≡◌, Bool-cases, inl, inr, ==_iff,
  drop-nil, refl, ◌∙◌, ap, sym, some, List, [], ◌++◌, length, take, drop, arith, ◌==◌,
  if◌then◌else◌, take-append-drop, append_assoc, take_all, take-nil, drop_all, length_zero,
  take-append, drop-append, length-drop, length-take, drop-drop,
}
use lhassa.Method.{err_truncated}
use lhassa.Outcome.{done, failed}
use lhassa.Stream.{Dos, Stream, stream_read, mem_read, read_exact, stream_seek_cur, mem_seek_cur}

-- `s` stands in front of the bytes `ahead` of the archive `bytes` in memory.
pub record Ahead {dos : Dos} (bytes : List ℕ) (s : Stream dos) (ahead : List ℕ) : Type 0 where
  pub in_memory : s.mem ≡ some bytes
  pub rest : drop s.mem_pos bytes ≡ ahead

-- The position after `n` bytes.
abbrev pub advance : {dos : Dos} → Stream dos → ℕ → Stream dos
advance s n = record s { mem_pos = s.mem_pos + n }

module _ {dos : Dos} {bytes : List ℕ} {s : Stream dos} {ahead : List ℕ} where
  length-ahead : Ahead bytes s ahead → length ahead ≡ length bytes - s.mem_pos
  length-ahead a = ap length (sym a.rest) ∙ length-drop s.mem_pos bytes

  -- What a read does at a stream in memory.
  read_in_memory :
      (n : ℕ)
      → Ahead bytes s ahead
      → stream_read s n ≡ (if n == 0 then ([], s) else mem_read s n (some bytes))
  unfolding stream_read
  read_in_memory n a = ap (λ m. if n == 0 then ([], s) else mem_read s n m) a.in_memory

  mem_read-take : (n : ℕ) → Ahead bytes s ahead → (mem_read s n (some bytes)).0 ≡ take n ahead
  unfolding mem_read
  mem_read-take n a = ground (
    arith,
    length-ahead a,
    a.rest,
    take_all n ahead,
    take_all (length bytes - s.mem_pos) ahead,
    length_zero ahead,
    take-nil {A = ℕ} n,
  )

  mem_read-drop :
      (n : ℕ) → Ahead bytes s ahead → Ahead bytes (mem_read s n (some bytes)).1 (drop n ahead)
  unfolding mem_read
  mem_read-drop n a = record {
    in_memory = ground (arith, a.in_memory);
    rest = ground (
      arith,
      length-ahead a,
      a.rest,
      drop-drop n s.mem_pos bytes,
      drop-drop (length bytes - s.mem_pos) s.mem_pos bytes,
      drop_all n ahead,
      drop_all (length bytes - s.mem_pos) ahead,
      length_zero ahead,
      drop-nil {A = ℕ} n,
    );
  }

pub stream_read-Ahead :
    {dos : Dos} {bytes : List ℕ} {s : Stream dos} {ahead : List ℕ} (n : ℕ)
    → Ahead bytes s ahead
    → ((stream_read s n).0 ≡ take n ahead) × Ahead bytes (stream_read s n).1 (drop n ahead)
stream_read-Ahead {bytes} {s} {ahead} n a = elim (Bool-cases (n == 0)) [
  | inl none_asked ↦
      let z : n ≡ 0 = (==_iff n 0).0 none_asked in rw (read_in_memory n a, none_asked, z) (refl, a)
  | inr some_asked ↦ rw (read_in_memory n a, some_asked) (mem_read-take n a, mem_read-drop n a)
]

module _ {dos : Dos} {bytes : List ℕ} {s : Stream dos} where
  -- A read of bytes that are there.
  pub read_exact-done :
      (n : ℕ) (xs rest : List ℕ)
      → Ahead bytes s (xs ++ rest)
      → n ≡ length xs
      → (s' : Stream dos) × (read_exact n s ≡ (done xs, s')) × Ahead bytes s' rest
  unfolding read_exact
  read_exact-done n xs rest a e =
      let r = stream_read-Ahead n a in
      (
        (stream_read s n).1,
        ground (arith, r.0, take-append n xs rest e),
        rw (drop-append n xs rest e) at r.1,
      )

  -- A read past the end.
  pub read_exact-truncated :
      (n : ℕ) (ahead : List ℕ)
      → Ahead bytes s ahead
      → length ahead < n
      → (s' : Stream dos) × (read_exact n s ≡ (failed err_truncated, s')) × Ahead bytes s' []
  unfolding read_exact
  read_exact-truncated n ahead a h =
      let r = stream_read-Ahead n a in
      (
        (stream_read s n).1,
        ground (arith, r.0, length-take n ahead),
        rw (drop_all n ahead (omega arith)) at r.1,
      )

  -- A read of the first `n` of some bytes that are there.
  pub read_exact-take :
      (n : ℕ) (xs rest : List ℕ)
      → Ahead bytes s (xs ++ rest)
      → n ≤ length xs
      → (s' : Stream dos) × (read_exact n s ≡ (done (take n xs), s'))
        × Ahead bytes s' (drop n xs ++ rest)
  read_exact-take n xs rest a h =
      read_exact-done n (take n xs) (drop n xs ++ rest)
        (record {
          in_memory = a.in_memory;
          rest =
              a.rest
              ∙ ap (λ (l : List ℕ). l ++ rest) (sym (take-append-drop n xs))
              ∙ append_assoc (take n xs) (drop n xs) rest;
        })
        (omega (arith, length-take n xs))

seek_past :
    {dos : Dos} {bytes : List ℕ} {s : Stream dos} {ahead : List ℕ} (n : ℕ)
    → Ahead bytes s ahead
    → 0 < n
    → n ≤ length ahead
    → length bytes < 2 ^ 31
    → mem_seek_cur s n (some bytes) ≡ (true, (mem_read s n (some bytes)).1)
unfolding mem_seek_cur mem_read
seek_past {bytes} {s} n a some_bytes there small =
    let fits : s.mem_pos + n ≤ length bytes = omega (arith, length-ahead a) in
    let np : (s.mem_pos + n) % 2 ^ 32 ≡ s.mem_pos + n = omega arith in
    let positive : leb (2 ^ 31) (s.mem_pos + n) ≡ false = ground arith in
    let inside : ltb (length bytes) (s.mem_pos + n) ≡ false = ground arith in
    let not_end : leb (length bytes) s.mem_pos ≡ false = ground arith in
    let enough : ltb (length bytes - s.mem_pos) n ≡ false = ground arith in
    rw (np, positive, inside, not_end, enough) refl

-- In an archive of less than 2 GB, a seek forward over bytes that are there ends where a read of
-- them ends.
pub stream_seek_cur-stream_read :
    {dos : Dos} {bytes : List ℕ} {s : Stream dos} {ahead : List ℕ} (n : ℕ)
    → Ahead bytes s ahead
    → 0 < n
    → n ≤ length ahead
    → length bytes < 2 ^ 31
    → stream_seek_cur s n ≡ (true, (stream_read s n).1)
unfolding stream_seek_cur
stream_seek_cur-stream_read {dos} {bytes} {s} n a some_bytes there small =
    let not_none : (n == 0) ≡ false = ground arith in
    let read : stream_read s n ≡ mem_read s n (some bytes) =
      read_in_memory n a ∙ rw not_none refl in
    ap (λ (m : Option (List ℕ)). mem_seek_cur s n m) a.in_memory
    ∙ seek_past n a some_bytes there small
    ∙ ap (λ (r : List ℕ × Stream dos). (true, r.1)) (sym read)
