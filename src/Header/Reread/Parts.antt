-- ===== src/Header/Reread/Parts.antt =====
-- How `lh_hdr_read` puts a header together from its reads.
use lhassa.Base.{
  ℕ, ◌+◌, ◌-◌, ◌*◌, ◌^◌, ◌≤◌, ◌<◌, ◌≡◌, ◌≢◌, refl, ap, sym, ◌∙◌, Bool, List, [], ◌∷◌, ◌++◌, length,
  take, drop, arith, ◌==◌, if◌then◌else◌, append-nil, take-append-drop, get_or-take, take_all,
  drop_all, Bool-cases, inl, inr, ==_iff, le→ltb, lt→ltb, lt→leb, length-drop,
}
use native.Mathlib.Decide.{dec_lt}
use mathlib.Core.Path.{subst}
use lhassa.Outcome.{done}
use lhassa.Stream.{Dos, Stream, read_exact}
use lhassa.Stream.Memory.{Ahead, read_exact-done, read_exact-take}
use lhassa.Bytes.{get_byte}
use lhassa.Header.{hdr_buf}
use lhassa.Header.Read.{hdr_read, read_rest, read_more, check_len}
use lhassa.Header.Read.Level1.{read_lhex}
use lhassa.Header.Read.Level2.{read_level2}

-- What the checks behind the reads ask of a buffer.
abbrev pub HasDashes : List ℕ → Type 0
HasDashes buf = (get_byte buf 2 ≡ b'-') × (get_byte buf 6 ≡ b'-')

module _ {dos : Dos} (malloc_ok : ℕ → Bool) (s s1 s2 s3 : Stream dos) (hdr_len : ℕ)
    (b1 b2 : List ℕ) where
  check_len-none : 20 ≤ hdr_len → hdr_len < 256 → check_len hdr_len s1 ≡ (done tt, s1)
  unfolding check_len
  check_len-none lo hi = ground arith

  hdr_read-parts :
      read_exact 1 s ≡ (done (hdr_len ∷ []), s1)
      → 20 ≤ hdr_len
      → hdr_len < 256
      → read_exact (hdr_len - 1) s1 ≡ (done b1, s2)
      → read_rest (hdr_len ∷ b1) hdr_len s2 ≡ (done (hdr_len ∷ (b1 ++ b2)), s3)
      → HasDashes (hdr_len ∷ (b1 ++ b2))
      → hdr_read malloc_ok s
        ≡ (if get_byte (hdr_len ∷ b1) 20 == 2
              then read_level2 malloc_ok (hdr_len ∷ (b1 ++ b2))
              else read_lhex malloc_ok (hdr_len ∷ (b1 ++ b2)))
            s3
  unfolding hdr_read
  hdr_read-parts e1 lo hi e2 e3 d = rw (hdr_read, e1, check_len-none lo hi, e2, e3, d.0, d.1) refl

-- What the reads leave: the whole header in the buffer, and the stream in front of what follows.
pub record Reads {dos : Dos} (mem rest buf : List ℕ) (s : Stream dos) : Type 0 where
  pub s1 : Stream dos
  pub s2 : Stream dos
  pub s3 : Stream dos
  pub b1 : List ℕ
  pub b2 : List ℕ
  pub hdr_len : ℕ
  pub len_from : 20 ≤ hdr_len
  pub len_to : hdr_len < 256
  pub first : read_exact 1 s ≡ (done (hdr_len ∷ []), s1)
  pub second : read_exact (hdr_len - 1) s1 ≡ (done b1, s2)
  pub third : read_rest (hdr_len ∷ b1) hdr_len s2 ≡ (done (hdr_len ∷ (b1 ++ b2)), s3)
  pub whole : hdr_len ∷ (b1 ++ b2) ≡ buf
  pub level : get_byte (hdr_len ∷ b1) 20 ≡ get_byte buf 20
  pub ahead : Ahead mem s3 rest

-- After the reads the header is taken apart by its level.
pub hdr_read-Reads :
    {dos : Dos} {mem rest buf : List ℕ} {s : Stream dos} (malloc_ok : ℕ → Bool)
    (r : Reads mem rest buf s)
    → HasDashes buf
    → hdr_read malloc_ok s
      ≡ (if get_byte buf 20 == 2 then read_level2 malloc_ok buf else read_lhex malloc_ok buf) r.s3
hdr_read-Reads {buf} {s} malloc_ok r d =
    hdr_read-parts malloc_ok s r.s1 r.s2 r.s3 r.hdr_len r.b1 r.b2 r.first r.len_from r.len_to
      r.second r.third (subst HasDashes (sym r.whole) d)
    ∙ ap
        (λ (b : List ℕ).
          (if get_byte (r.hdr_len ∷ r.b1) 20 == 2
              then read_level2 malloc_ok b
              else read_lhex malloc_ok b)
            r.s3)
        r.whole
    ∙ ap
        (λ (level : ℕ).
          (if level == 2 then read_level2 malloc_ok buf else read_lhex malloc_ok buf) r.s3)
        r.level

module _ {dos : Dos} (s2 s3 : Stream dos) (b0 : ℕ) (b1 b2 : List ℕ) where
  read_rest-level1 :
      get_byte (b0 ∷ b1) 20 ≢ 2
      → read_exact 2 s2 ≡ (done b2, s3)
      → read_rest (b0 ∷ b1) b0 s2 ≡ (done (b0 ∷ (b1 ++ b2)), s3)
  unfolding read_rest
  read_rest-level1 low e = elim (Bool-cases (get_byte (b0 ∷ b1) 20 == 2)) [
    | inl h ↦ absurd (low ((==_iff _ 2).0 h))
    | inr h ↦ rw (h, e) refl
  ]

  -- More of a level-2 header than its first byte says is read by its size.
  read_rest-more :
      (size : ℕ)
      → get_byte (b0 ∷ b1) 20 ≡ 2
      → b0 + get_byte b1 0 * 2 ^ 8 ≡ size
      → 26 ≤ size
      → size < hdr_buf - 4
      → b0 < size
      → read_exact (size - b0) s2 ≡ (done b2, s3)
      → read_rest (b0 ∷ b1) b0 s2 ≡ (done (b0 ∷ (b1 ++ b2)), s3)
  unfolding read_rest read_more
  read_rest-more size two e lo hi more r =
      rw (two, e, le→ltb size 26 lo, lt→leb size (hdr_buf - 4) hi, lt→ltb b0 size more, r) refl

  read_rest-no_more :
      get_byte (b0 ∷ b1) 20 ≡ 2
      → get_byte b1 0 ≡ 0
      → 26 ≤ b0
      → b0 < 256
      → read_rest (b0 ∷ b1) b0 s2 ≡ (done (b0 ∷ (b1 ++ [])), s2)
  unfolding read_rest read_more
  read_rest-no_more two e lo hi =
      let size : b0 + get_byte b1 0 * 2 ^ 8 ≡ b0 = omega arith in
      rw
        (
          two,
          size,
          le→ltb b0 26 lo,
          lt→leb b0 (hdr_buf - 4) (omega arith),
          le→ltb b0 b0 (omega arith),
          append-nil,
        )
        refl

module _ {dos : Dos} (mem : List ℕ) (s : Stream dos) (b0 : ℕ) (b rest : List ℕ)
    (a : Ahead mem s (b0 ∷ (b ++ rest))) (lo : 21 ≤ b0) (hi : b0 < 256) where
  -- A level-0 or level-1 header is two bytes longer than its first byte says.
  pub Reads-level1 : length b ≡ b0 + 1 → get_byte (b0 ∷ b) 20 ≢ 2 → Reads mem rest (b0 ∷ b) s
  Reads-level1 len low =
      let n = b0 - 1 in
      let r1 = read_exact-done 1 (b0 ∷ []) (b ++ rest) a refl in
      let r2 = read_exact-take n b rest r1.2 (omega arith) in
      let r3 = read_exact-done 2 (drop n b) rest r2.2 (omega (arith, length-drop n b)) in
      record {
        s1 = r1.0;
        s2 = r2.0;
        s3 = r3.0;
        b1 = take n b;
        b2 = drop n b;
        hdr_len = b0;
        len_from = omega arith;
        len_to = hi;
        first = r1.1;
        second = r2.1;
        third =
            read_rest-level1 r2.0 r3.0 b0 (take n b) (drop n b)
              (λ e. low (sym (get_or-take n b 19 0 (omega arith)) ∙ e)) r3.1;
        whole = ap (λ l. b0 ∷ l) (take-append-drop n b);
        level = get_or-take n b 19 0 (omega arith);
        ahead = r3.2;
      }

  -- A level-2 header has the size of its first two bytes.
  pub Reads-level2 :
      length b + 1 ≡ b0 + get_byte b 0 * 2 ^ 8
      → 26 ≤ length b + 1
      → length b + 1 < hdr_buf - 4
      → get_byte (b0 ∷ b) 20 ≡ 2
      → Reads mem rest (b0 ∷ b) s
  Reads-level2 len from to two =
      let n = b0 - 1 in
      let r1 = read_exact-done 1 (b0 ∷ []) (b ++ rest) a refl in
      let r2 = read_exact-take n b rest r1.2 (omega arith) in
      let two' : get_byte (b0 ∷ take n b) 20 ≡ 2 = get_or-take n b 19 0 (omega arith) ∙ two in
      let high : get_byte (take n b) 0 ≡ get_byte b 0 = get_or-take n b 0 0 (omega arith) in
      elim (dec_lt b0 (length b + 1)) [
        | yes more ↦
            let r3 =
              read_exact-done (length b + 1 - b0) (drop n b) rest r2.2
                (omega (arith, length-drop n b)) in
            record {
              s1 = r1.0;
              s2 = r2.0;
              s3 = r3.0;
              b1 = take n b;
              b2 = drop n b;
              hdr_len = b0;
              len_from = omega arith;
              len_to = hi;
              first = r1.1;
              second = r2.1;
              third =
                  read_rest-more r2.0 r3.0 b0 (take n b) (drop n b) (length b + 1) two'
                    (omega (arith, high, len)) from to more r3.1;
              whole = ap (λ l. b0 ∷ l) (take-append-drop n b);
              level = get_or-take n b 19 0 (omega arith);
              ahead = r3.2;
            }
        | no all ↦ record {
          s1 = r1.0;
          s2 = r2.0;
          s3 = r2.0;
          b1 = take n b;
          b2 = [];
          hdr_len = b0;
          len_from = omega arith;
          len_to = hi;
          first = r1.1;
          second = r2.1;
          third =
              read_rest-no_more r2.0 r2.0 b0 (take n b) [] two' (omega (arith, high, len))
                (omega arith) hi;
          whole = ap (λ l. b0 ∷ l) (append-nil (take n b) ∙ take_all n b (omega arith));
          level = get_or-take n b 19 0 (omega arith);
          ahead = record {
            in_memory = r2.2.in_memory;
            rest = r2.2.rest ∙ ap (λ (l : List ℕ). l ++ rest) (drop_all n b (omega arith));
          };
        }
      ]
