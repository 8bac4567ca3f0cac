-- ===== src/Lzss/Broken.antt =====
-- `lh_compress_lz5` and `lh_decompress_lz5` of Source/src/lh_codec.c do not fit together: the
-- decompressor takes the first byte of flags for a byte of the text.
use lhassa.Base.{
  ℕ, zero, suc, ◌+◌, ◌*◌, ◌/◌, ◌%◌, ◌^◌, ◌≤◌, ◌<◌, ◌≡◌, refl, ap, inl, inr, List, [], ◌∷◌, ◌++◌,
  length, arith, ltb, leb, ◌==◌, le→ltb, ltb→lt, ltb-false→le, Bool, ◌||◌, ==-zero-false→lt,
  Bool-cases, if◌then◌else◌, false, true,
}
use lhassa.Outcome.{Outcome, done, failed, bind-eq-done, done-injective, guarded}
use lhassa.Method.{err_no_memory, err_invalid_arg}
use lhassa.Lzss.{
  Packed, Ring, start_ring, written, new_flags, pack_match, pack_literal, pack_best, pack_loop,
  best_match, compress_lzss,
}

-- The mask of the flags after the first tokens.
abbrev bit_after : ℕ → ℕ
bit_after zero = 0x80
bit_after (suc zero) = 0x40
bit_after (suc (suc zero)) = 0x20
bit_after (suc (suc (suc zero))) = 0x10
bit_after _ = 0

-- The first byte of flags is less than 16 at all times.
data SmallFlags (s : Packed) : Type 0 where
  early :
      (k : ℕ)
      → k < 4
      → s.in_pos ≡ k
      → s.flag_bit ≡ bit_after k
      → s.flags ≡ 0
      → s.before ≡ []
      → SmallFlags s
  same : s.before ≡ [] → s.flags < 16 → s.flags + 2 * s.flag_bit ≤ 16 → SmallFlags s
  later : (f : ℕ) (bytes : List ℕ) → f < 16 → s.before ≡ f ∷ bytes → SmallFlags s

-- The steps on each of the three cases; they leave the other fields open.
turned :
    (s : Packed)
    → s.flag_bit ≡ 0
    → SmallFlags s
    → SmallFlags (record s {
      before = s.before ++ s.flags ∷ s.group;
      flags = 0;
      flag_bit = 0x80;
      group = [];
    })
turned s used (early zero below at bit none empty) = absurd (omega arith)
turned s used (early (suc zero) below at bit none empty) = absurd (omega arith)
turned s used (early (suc (suc zero)) below at bit none empty) = absurd (omega arith)
turned s used (early (suc (suc (suc zero))) below at bit none empty) = absurd (omega arith)
turned s used (early (suc (suc (suc (suc k)))) below at bit none empty) = absurd (omega arith)
turned s used (same empty small room) =
    later s.flags s.group small (ap (λ (l : List ℕ). l ++ s.flags ∷ s.group) empty)
turned s used (later f bytes small e) =
    later f (bytes ++ s.flags ∷ s.group) small (ap (λ (l : List ℕ). l ++ s.flags ∷ s.group) e)

-- A literal moves the mask on.
literal_next :
    (s : Packed) (rest group : List ℕ) (ring : Ring)
    → SmallFlags s
    → SmallFlags (record s {
      in_pos = s.in_pos + 1;
      rest = rest;
      flag_bit = s.flag_bit / 2;
      group = group;
      ring = ring;
    })
literal_next s rest group ring (early zero below at bit none empty) =
    early 1 (omega arith) (omega arith) (omega arith) none empty
literal_next s rest group ring (early (suc zero) below at bit none empty) =
    early 2 (omega arith) (omega arith) (omega arith) none empty
literal_next s rest group ring (early (suc (suc zero)) below at bit none empty) =
    early 3 (omega arith) (omega arith) (omega arith) none empty
literal_next s rest group ring (early (suc (suc (suc zero))) below at bit none empty) =
    same empty (omega arith) (omega arith)
literal_next s rest group ring (early (suc (suc (suc (suc k)))) below at bit none empty) =
    absurd (omega arith)
literal_next s rest group ring (same empty small room) = same empty small (omega arith)
literal_next s rest group ring (later f bytes small e) = later f bytes small e

-- A match sets its flag, behind the first four.
match_next :
    (s : Packed) (in_pos : ℕ) (rest group : List ℕ) (ring : Ring)
    → SmallFlags s
    → 4 ≤ s.in_pos
    → 1 ≤ s.flag_bit
    → SmallFlags (record s {
      in_pos = in_pos;
      rest = rest;
      flags = s.flags + s.flag_bit;
      flag_bit = s.flag_bit / 2;
      group = group;
      ring = ring;
    })
match_next s in_pos rest group ring (early k below at bit none empty) past some =
    absurd (omega arith)
match_next s in_pos rest group ring (same empty small room) past some =
    same empty (omega arith) (omega arith)
match_next s in_pos rest group ring (later f bytes small e) past some = later f bytes small e

module _ (size room : ℕ) where
  new_flags-SmallFlags :
      (s s' : Packed)
      → SmallFlags s
      → new_flags size room s ≡ done s'
      → SmallFlags s' × (1 ≤ s'.flag_bit)
  unfolding new_flags
  new_flags-SmallFlags s s' v e = elim (Bool-cases (s.flag_bit == 0)) [
    | inl used ↦
        rw (← guarded (leb room (written size room s)) err_no_memory (rw used at e))
          (turned s (ground arith) v, omega arith)
    | inr left ↦ rw (← done-injective (rw left at e)) (v, ==-zero-false→lt s.flag_bit left)
  ]

  best_match_early : (most : ℕ) (s : Packed) → s.in_pos < 4 → best_match size most s ≡ (0, 0)
  unfolding best_match
  best_match_early most s h = rw (le→ltb 3 s.in_pos (omega arith)) refl

  pack_literal-SmallFlags :
      (b : ℕ) (rest : List ℕ) (s s' : Packed)
      → SmallFlags s
      → 1 ≤ s.flag_bit
      → pack_literal size room b rest s ≡ done s'
      → SmallFlags s'
  unfolding pack_literal
  pack_literal-SmallFlags b rest s s' v some e =
      rw (← guarded (leb room (written size room s)) err_no_memory e) (literal_next s rest _ _ v)

  pack_match-SmallFlags :
      (n i : ℕ) (s s' : Packed)
      → SmallFlags s
      → 4 ≤ s.in_pos
      → 1 ≤ s.flag_bit
      → pack_match size room n i s ≡ done s'
      → SmallFlags s'
  unfolding pack_match
  pack_match-SmallFlags n i s s' v past some e =
      rw (← guarded (leb room (written size room s + 1)) err_no_memory e)
        (match_next s _ _ _ _ v past some)

  pack_best-SmallFlags :
      (most b : ℕ) (rest : List ℕ) (s s' : Packed)
      → SmallFlags s
      → 1 ≤ s.flag_bit
      → pack_best size room most (best_match size most s) b rest s ≡ done s'
      → SmallFlags s'
  unfolding pack_best
  pack_best-SmallFlags most b rest s s' v some e = elim (Bool-cases (ltb s.in_pos 4)) [
    | inl first ↦
        pack_literal-SmallFlags b rest s s' v some
          (rw (best_match_early most s (ltb→lt s.in_pos 4 first)) at e)
    | inr past ↦ elim (Bool-cases (leb 3 (best_match size most s).0)) [
      | inl long ↦
          pack_match-SmallFlags _ _ s s' v (ltb-false→le s.in_pos 4 past) some (rw long at e)
      | inr short ↦ pack_literal-SmallFlags b rest s s' v some (rw short at e)
    ]
  ]

  pack_loop-SmallFlags :
      (most fuel : ℕ) (bytes : List ℕ) (s s' : Packed)
      → SmallFlags s
      → pack_loop size room most fuel bytes s ≡ done s'
      → SmallFlags s'
  unfolding pack_loop
  pack_loop-SmallFlags most fuel [] s s' v e = rw (← done-injective e) v
  pack_loop-SmallFlags most zero (b ∷ rest) s s' v e = absurd (cc)
  pack_loop-SmallFlags most (suc fuel) (b ∷ rest) s s' v e =
      let (t, flags, more) = bind-eq-done (new_flags size room s) _ e in
      let (ok, some) = new_flags-SmallFlags s t v flags in
      let (u, best, last) =
        bind-eq-done (pack_best size room most (best_match size most t) b rest t) _ more in
      pack_loop-SmallFlags most fuel u.rest u s' (pack_best-SmallFlags most b rest t u ok some best)
        last

-- What the compressor begins with.
abbrev pub BeginsSmall : List ℕ → Type 0
BeginsSmall packed = (f : ℕ) × (bytes : List ℕ) × (packed ≡ f ∷ bytes) × (f < 16)

first_flags : (s : Packed) → SmallFlags s → BeginsSmall (s.before ++ s.flags ∷ s.group)
first_flags s (early k below at bit none empty) = (s.flags, s.group, rw empty refl, omega arith)
first_flags s (same empty small room) = (s.flags, s.group, rw empty refl, small)
first_flags s (later f bytes small e) = (f, bytes ++ s.flags ∷ s.group, rw e refl, small)

pub compress_lzss-BeginsSmall :
    (size most room : ℕ) (input packed : List ℕ)
    → compress_lzss size most input room ≡ done packed
    → BeginsSmall packed
unfolding compress_lzss
compress_lzss-BeginsSmall size most room input packed e =
    let (s, loop, last) =
      bind-eq-done (pack_loop size room most (length input) input (start input)) _ (
        passed (length input == 0 || ltb room (length input))
          (ltb room ((length input + length input / 8 + 12) % 2 ^ 32)) e) in
    rw (← done-injective last) (
      first_flags s (
        pack_loop-SmallFlags size room most (length input) input (start input) s
          (early 0 (omega arith) refl refl refl refl) loop))
  where
    start : List ℕ → Packed
    start bytes = record {
      in_pos = 0;
      rest = bytes;
      before = [];
      flags = 0;
      flag_bit = 0x80;
      group = [];
      ring = start_ring;
    }

    passed :
        (bad small : Bool) {r : Outcome (List ℕ)}
        → (if bad then failed err_invalid_arg else if small then failed err_no_memory else r)
          ≡ done packed
        → r ≡ done packed
    passed true small e = absurd (cc)
    passed false true e = absurd (cc)
    passed false false e = e
