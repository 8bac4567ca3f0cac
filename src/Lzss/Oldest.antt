-- ===== src/Lzss/Oldest.antt =====
-- The first byte that a decompressor of Source/src/lh_codec.c has written stays the first one.
use mathlib.Core.List.{reverse, reverse-append}
use lhassa.Method.{err_invalid_arg}
use lhassa.Base.{
  ℕ, zero, suc, ◌+◌, ◌/◌, ◌%◌, ◌≤◌, ◌≡◌, ◌≢◌, refl, sym, ap, ◌∙◌, inl, inr, List, [], ◌∷◌, ◌++◌,
  length, get_or, arith, lt→ltb, ==-zero-false→lt, ltb, leb, ◌==◌, Bool, Bool-cases, if◌then◌else◌,
  false, true, ◌||◌,
}
use lhassa.Outcome.{Outcome, done, bind-eq-done, done-injective, unrefused}
use lhassa.Lzss.{Unpacked, start_ring, write_byte, compress_lz5}
use lhassa.Lzss.Unpack.{
  Round, after_round, unpack_loop, copy_lz5, match_lz5, literal_lz5, finish, decompress_lz5,
  match_count, match_offset,
}
use lhassa.Lzss.Broken.{compress_lzss-BeginsSmall}

abbrev Oldest : ℕ → Unpacked → Type 0
Oldest f s = (bytes : List ℕ) × (s.out ≡ bytes ++ f ∷ [])

write_byte-Oldest : (size b f : ℕ) (s : Unpacked) → Oldest f s → Oldest f (write_byte size b s)
unfolding write_byte
write_byte-Oldest size b f s (bytes, e) = (b ∷ bytes, ap (λ (l : List ℕ). b ∷ l) e)

copy_lz5-Oldest :
    (out_size n place f : ℕ) (s : Unpacked) → Oldest f s → Oldest f (copy_lz5 out_size n place s)
unfolding copy_lz5
copy_lz5-Oldest out_size zero place f s v = v
copy_lz5-Oldest out_size (suc n) place f s v = elim (Bool-cases (leb out_size (length s.out))) [
  | inl full ↦ rw full v
  | inr room ↦ rw room (
      copy_lz5-Oldest out_size n (place + 1) f (write_byte 4096 (s.ring.window (place % 4096)) s)
        (write_byte-Oldest 4096 (s.ring.window (place % 4096)) f s v))
]

abbrev state : Round → Unpacked
state (Round.go_on t) = t
state (Round.leave t) = t

match_lz5-Oldest :
    (out_size : ℕ) (rest : List ℕ) (f : ℕ) (s : Unpacked) (r : Round)
    → Oldest f s
    → match_lz5 out_size rest s ≡ done r
    → Oldest f (state r)
unfolding match_lz5
match_lz5-Oldest out_size [] f s r v e = rw (← done-injective e) v
match_lz5-Oldest out_size (low ∷ []) f s r v e = rw (← done-injective e) v
match_lz5-Oldest out_size (low ∷ high ∷ rest) f s r v e = rw (← done-injective e) (
    copy_lz5-Oldest out_size (match_count high) (match_offset low high) f (record s { rest = rest })
      v)

literal_lz5-Oldest :
    (out_size : ℕ) (rest : List ℕ) (f : ℕ) (s : Unpacked) (r : Round)
    → Oldest f s
    → literal_lz5 out_size rest s ≡ done r
    → Oldest f (state r)
unfolding literal_lz5
literal_lz5-Oldest out_size [] f s r v e = rw (← done-injective e) v
literal_lz5-Oldest out_size (b ∷ rest) f s r v e = elim (Bool-cases (ltb (length s.out) out_size)) [
  | inl room ↦
      rw (← done-injective (rw room at e)) (write_byte-Oldest 4096 b f (record s { rest = rest }) v)
  | inr full ↦ rw (← done-injective (rw full at e)) v
]

round-Oldest :
    (bit : Bool) (out_size : ℕ) (rest : List ℕ) (f : ℕ) (s : Unpacked) (r : Round)
    → Oldest f s
    → (if bit then match_lz5 else literal_lz5) out_size rest s ≡ done r
    → Oldest f (state r)
round-Oldest true out_size rest f s r v e = match_lz5-Oldest out_size rest f s r v e
round-Oldest false out_size rest f s r v e = literal_lz5-Oldest out_size rest f s r v e

after-Oldest :
    (f : ℕ) (t : Unpacked) (next : Unpacked → Outcome Unpacked)
    → ((u : Unpacked) → Oldest f u → next u ≡ done t → Oldest f t)
    → (r : Round) → Oldest f (state r)
    → after_round next r ≡ done t
    → Oldest f t
after-Oldest f t next keep (Round.go_on u) v e = keep u v e
after-Oldest f t next keep (Round.leave u) v e = rw (← done-injective e) v

unpack_loop-Oldest :
    (out_size fuel flags mask : ℕ) (bytes : List ℕ) (f : ℕ) (s t : Unpacked)
    → Oldest f s
    → unpack_loop out_size match_lz5 literal_lz5 fuel flags mask bytes s ≡ done t
    → Oldest f t
unfolding unpack_loop
unpack_loop-Oldest out_size fuel flags mask [] f s t v e = rw (← done-injective e) v
unpack_loop-Oldest out_size zero flags mask (b ∷ rest) f s t v e =
    elim (Bool-cases (ltb (length s.out) out_size)) [
      | inl room ↦ absurd (let clash = rw room at e in cc)
      | inr full ↦ rw (← done-injective (rw full at e)) v
    ]
unpack_loop-Oldest out_size (suc fuel) flags mask (b ∷ rest) f s t v e =
    elim (Bool-cases (ltb (length s.out) out_size)) [
      | inl room ↦
          let flags' = if mask == 0 then b else flags in
          let mask' = if mask == 0 then 0x80 else mask in
          let rest' = if mask == 0 then rest else b ∷ rest in
          let s' = record s { rest = rest' } in
          let bit = flags' / mask' % 2 == 1 in
          let (r, round, last) =
            bind-eq-done ((if bit then match_lz5 else literal_lz5) out_size rest' s') _
              (rw room at e) in
          after-Oldest f t
            (λ u. unpack_loop out_size match_lz5 literal_lz5 fuel flags' (mask' / 2) u.rest u)
            (λ u w d. unpack_loop-Oldest out_size fuel flags' (mask' / 2) u.rest f u t w d) r
            (round-Oldest bit out_size rest' f s' r v round) last
      | inr full ↦ rw (← done-injective (rw full at e)) v
    ]

finish-first :
    (f out_size : ℕ) (t : Unpacked) (text : List ℕ)
    → Oldest f t
    → finish out_size t ≡ done text
    → (bytes : List ℕ) × (text ≡ f ∷ bytes)
unfolding finish
finish-first f out_size t text (bytes, out) e = elim (Bool-cases (length t.out == out_size)) [
  | inl full ↦ (
    reverse bytes,
    sym (done-injective (rw full at e)) ∙ ap reverse out ∙ reverse-append bytes (f ∷ []),
  )
  | inr short ↦ absurd (let clash = rw short at e in cc)
]

first_byte-Oldest :
    (f : ℕ) (packed : List ℕ)
    → Oldest f (write_byte 4096 f (record { rest = packed; out = []; ring = start_ring }))
unfolding write_byte
first_byte-Oldest f packed = ([], refl)

-- The first byte of the text that LZ5 reads is the first byte of its input.
decompress_lz5-first :
    (f : ℕ) (packed buffer text : List ℕ)
    → decompress_lz5 (f ∷ packed) buffer ≡ done text
    → (bytes : List ℕ) × (text ≡ f ∷ bytes)
unfolding decompress_lz5 unpack_loop literal_lz5 write_byte
decompress_lz5-first f packed buffer text e =
    let out_size = length buffer in
    let start : Unpacked = record { rest = f ∷ packed; out = []; ring = start_ring } in
    let (fine, runs) = unrefused (length (f ∷ packed) == 0 || out_size == 0) err_invalid_arg e in
    let room : ltb 0 out_size ≡ true = some_room (length (f ∷ packed) == 0) out_size fine in
    let (t, loop, last) =
      bind-eq-done
        (unpack_loop out_size match_lz5 literal_lz5 (suc (length packed)) 0 0x80 (f ∷ packed) start)
        (finish out_size) runs in
    let first = write_byte 4096 f (record start { rest = packed }) in
    finish-first f out_size t text
      (unpack_loop-Oldest out_size (length packed) 0 0x40 packed f first t
        (first_byte-Oldest f packed) (rw room at loop))
      last
  where
    some_room : (bad : Bool) (n : ℕ) → (bad || n == 0) ≡ false → ltb 0 n ≡ true
    some_room true n e = absurd (cc)
    some_room false n e = lt→ltb 0 n (==-zero-false→lt n e)

-- For every text whose first byte is 16 or more: what `lh_compress_lz5` makes of it is not read back
-- by `lh_decompress_lz5`, into whatever buffer. The decompressor starts with a mask of 0x80 and so
-- takes the first flags for a byte of the text.
pub decompress_lz5-ne :
    (b room : ℕ) (rest packed buffer : List ℕ)
    → 16 ≤ b
    → compress_lz5 (b ∷ rest) room ≡ done packed
    → decompress_lz5 packed buffer ≢ done (b ∷ rest)
unfolding compress_lz5
decompress_lz5-ne b room rest packed buffer large packs reads =
    let (f, bytes, begins, small) =
      compress_lzss-BeginsSmall 4096 17 room (b ∷ rest) packed packs in
    let (tail, text) = decompress_lz5-first f bytes buffer (b ∷ rest) (rw begins at reads) in
    omega (arith, ap (λ (l : List ℕ). get_or l 0 0) text)
