-- ===== src/Lh5/History.antt =====
-- The ring of the text in Source/src/lh_lh5dec.c against the whole text: a match takes bytes from a
-- distance behind the end of all that has been written, with blanks before the first byte.
use native.Mathlib.Nat.{
  mod-eq_of_lt, mod-add-mod, mod_self, mod-lt, div-add-mod', mod-mod_of_dvd, add-mul, dvd-mul_left,
  div-lt_iff_lt-mul,
}
use Prim.Native.Nat.{◌∣◌}
use mathlib.Core.Path.{subst}
use lhassa.Base.{
  ℕ, zero, suc, ◌+◌, ◌-◌, ◌*◌, ◌/◌, ◌%◌, ◌^◌, ◌≤◌, ◌<◌, ◌≡◌, refl, sym, ap, ◌∙◌, inl, inr, List, [],
  ◌∷◌, get_or, length, store, arith, ltb, leb, ◌==◌, Bool, true, false, Bool-cases, if◌then◌else◌,
  low_part, ltb→lt, pow_pos, pow-add, ◌||◌,
}
use lhassa.Outcome.{
  Outcome, done, out_of_fuel, ◌>>=◌, ◌>>◌, pure, continue, continue_assoc, continue-eq,
  continue-eq-done,
}
use mathlib.Core.List.{reverse}
use lhassa.Lh5.{Lh5Dec, getbits, init_getbits}
use lhassa.Lh5.Decode.{
  Window, emit, copy_match, put_match, decode_loop, decode_c, decode_p, symbol_p, start_window,
  start_dec, sizeof_lh5_dec, decompress_lh_new,
}

-- The byte at distance `d` behind the newest one.
abbrev pub back : List ℕ → ℕ → ℕ
back h d = get_or h d b' '

module _ (out_size : ℕ) where
  -- Up to `rounds` bytes, each from distance `p`.
  unfoldable pub repeat_back : ℕ → ℕ → List ℕ → List ℕ
  repeat_back zero p h = h
  repeat_back (suc rounds) p h =
      let h' = back h p ∷ h in
      let rest = repeat_back rounds p h' in if leb out_size (length h') then h' else rest

  module _ (dicsiz : ℕ) where
    -- The loop over symbols, with the whole text in place of the ring.
    unfoldable pub history_loop : ℕ → List ℕ → Lh5Dec → Outcome (List ℕ) × Lh5Dec
    history_loop zero h d = if ltb (length h) out_size then (out_of_fuel, d) else (done h, d)
    history_loop (suc fuel) h d =
        let literal = λ (c : ℕ). history_loop fuel (c ∷ h) in
        let match = λ (c p : ℕ). history_loop fuel (repeat_back (c - 253) (p % dicsiz) h) in
        if ltb (length h) out_size
        then (do c ← decode_c; if leb c 255 then literal c else (do p ← decode_p; match c p)) d
        else (done h, d)

-- A position is an `unsigned short`.
decode_p-lt : (d : Lh5Dec) (p : ℕ) (d' : Lh5Dec) → decode_p d ≡ (done p, d') → p < 2 ^ 32
unfolding decode_p
decode_p-lt d p d' e = let (j, s, _, rest) = continue-eq-done (symbol_p d) _ e in after j s rest
  where
    wrapped :
        (q : ℕ) (s : Lh5Dec)
        → ◌≡◌ {A = Outcome ℕ × Lh5Dec} (done (q % 2 ^ 16), s) (done p, d')
        → p < 2 ^ 32
    wrapped q s e = ground arith

    after :
        (j : ℕ) (s : Lh5Dec)
        → (if j == 0
              then pure 0
              else (do low ← getbits (j - 1); pure ((2 ^ (j - 1) + low) % 2 ^ 16)))
            s
          ≡ (done p, d')
        → p < 2 ^ 32
    after j s rest = elim (Bool-cases (j == 0)) [
      | inl none ↦ wrapped 0 s (rw none at rest)
      | inr some ↦
          let (low, s', _, last) = continue-eq-done (getbits (j - 1) s) _ (rw some at rest) in
          wrapped _ s' last
    ]

-- Where a byte stands in the ring.
module _ (dicsiz : ℕ) where
  slot : ℕ → ℕ → ℕ
  slot loc d = if ltb d loc then loc - 1 - d else loc + dicsiz - 1 - d

  next : ℕ → ℕ
  next i = if i + 1 == dicsiz then 0 else i + 1

  slot-next : (loc d : ℕ) → loc < dicsiz → d < dicsiz → slot (next loc) d ≡ next (slot loc d)
  unfolding slot next
  slot-next loc d p q = ground arith

  record Holds (w : Window) (h : List ℕ) : Type 0 where
    pub same_out : w.out ≡ h
    pub counted : w.count ≡ length h
    pub inside : w.loc < dicsiz
    pub held : (d : ℕ) → d < dicsiz → w.text (slot w.loc d) ≡ back h d

  held_next :
      (w : Window) (h : List ℕ) (b d : ℕ)
      → Holds w h
      → d < dicsiz
      → store w.text w.loc b (slot (next w.loc) d) ≡ back (b ∷ h) d
  unfolding slot next
  held_next w h b zero v q = ground (arith, v.inside)
  held_next w h b (suc d) v q = ground (arith, v.inside, v.held d)

  emit-Holds : (w : Window) (h : List ℕ) (b : ℕ) → Holds w h → Holds (emit dicsiz b w) (b ∷ h)
  unfolding emit next
  emit-Holds w h b v = record {
    same_out = ap (λ (l : List ℕ). b ∷ l) v.same_out;
    counted = omega (arith, v.counted);
    inside = ground (arith, v.inside);
    held = λ d q. held_next w h b d v q;
  }

  -- Reading at a distance of at most the ring's size, while the end moves on.
  mod-next : (x : ℕ) → 0 < dicsiz → (x + 1) % dicsiz ≡ next (x % dicsiz)
  unfolding next
  mod-next x p = sym (mod-add-mod x dicsiz 1) ∙ elim (Bool-cases (x % dicsiz + 1 == dicsiz)) [
    | inl last ↦ let e : x % dicsiz + 1 ≡ dicsiz = ground arith in rw last (rw e (mod_self dicsiz))
    | inr inner ↦
        rw inner (mod-eq_of_lt {n = x % dicsiz + 1} {m = dicsiz} (ground (arith, mod-lt x p)))
  ]

  loc-emit : (w : Window) (b : ℕ) → (emit dicsiz b w).loc ≡ next w.loc
  unfolding emit next
  loc-emit w b = refl

  -- The place at distance `p` behind the end, however long the distance is.
  module _ (loc p t u r : ℕ) (inside : loc < dicsiz)
      (whole : 2 ^ 32 ≡ t * dicsiz + u * dicsiz + dicsiz) (e : p ≡ t * dicsiz + r)
      (q : r < dicsiz) where
    ahead : (loc + 2 ^ 32 - p - 1) % dicsiz ≡ slot loc r
    unfolding slot
    ahead = elim (Bool-cases (ltb r loc)) [
      | inl near ↦
          let value : loc + 2 ^ 32 - p - 1 ≡ (u + 1) * dicsiz + (loc - 1 - r) =
            omega (arith, ltb→lt r loc near, add-mul u 1 dicsiz) in
          rw (near, value) (low_part (u + 1) (loc - 1 - r) (omega arith))
      | inr far ↦
          let behind : loc ≤ r = ground arith in
          let value : loc + 2 ^ 32 - p - 1 ≡ u * dicsiz + (loc + dicsiz - 1 - r) = omega arith in
          rw (far, value) (low_part u (loc + dicsiz - 1 - r) (omega arith))
    ]

  module _ (a : ℕ) (whole : 2 ^ 32 ≡ a * dicsiz + dicsiz) (out_size : ℕ) where
    divides : dicsiz ∣ 2 ^ 32
    divides =
        let e : 2 ^ 32 ≡ (a + 1) * dicsiz = omega (arith, whole, add-mul a 1 dicsiz) in
        subst (λ (t : ℕ). dicsiz ∣ t) (sym e) (dvd-mul_left dicsiz (a + 1))

    start_slot :
        (loc p : ℕ)
        → loc < dicsiz
        → p < 2 ^ 32
        → (loc + 2 ^ 32 - p - 1) % 2 ^ 32 % dicsiz ≡ slot loc (p % dicsiz)
    start_slot loc p inside small =
        let t = p / dicsiz in
        let r = p % dicsiz in
        let cut : t * dicsiz + r ≡ p = div-add-mod' p dicsiz in
        let below : r < dicsiz = mod-lt p (omega arith) in
        let short : p < (a + 1) * dicsiz = omega (arith, whole, add-mul a 1 dicsiz) in
        let few : t ≤ a =
          omega
            (arith, (div-lt_iff_lt-mul {k = dicsiz} {x = p} {y = a + 1} (omega arith)).1 short) in
        let split : a ≡ t + (a - t) = omega (arith, few) in
        mod-mod_of_dvd dicsiz (loc + 2 ^ 32 - p - 1) divides
        ∙ ahead loc p t (a - t) r inside
            (omega (arith, whole, ap (λ (x : ℕ). x * dicsiz) split, add-mul t (a - t) dicsiz))
            (sym cut) below

    copy_match-Holds :
        (rounds i k d : ℕ) (w : Window) (h : List ℕ)
        → Holds w h
        → d < dicsiz
        → (i + k) % dicsiz ≡ slot w.loc d
        → Holds (copy_match dicsiz out_size rounds i k w) (repeat_back out_size rounds d h)
    unfolding copy_match repeat_back
    copy_match-Holds zero i k d w h v q e = v
    copy_match-Holds (suc rounds) i k d w h v q e =
        let b = back h d in
        let value : w.text ((i + k) % 2 ^ 32 % dicsiz) ≡ b =
          rw (mod-mod_of_dvd dicsiz (i + k) divides, e) (v.held d q) in
        let v' = emit-Holds w h b v in
        let step : i + (k + 1) ≡ i + k + 1 = omega arith in
        let moved : (i + (k + 1)) % dicsiz ≡ slot (emit dicsiz b w).loc d =
          rw (step, loc-emit w b)
            (mod-next (i + k) (omega (arith, v.inside))
              ∙ ap next e
              ∙ sym (slot-next w.loc d v.inside q)) in
        let more = copy_match-Holds rounds i (k + 1) d (emit dicsiz b w) (b ∷ h) v' q moved in
        elim (Bool-cases (leb out_size (length (b ∷ h)))) [
          | inl full ↦ rw (value, ap (leb out_size) v'.counted ∙ full, full) v'
          | inr room ↦ rw (value, ap (leb out_size) v'.counted ∙ room, room) more
        ]

    put_match-Holds :
        (c p : ℕ) (w : Window) (h : List ℕ)
        → Holds w h
        → p < 2 ^ 32
        → Holds (put_match dicsiz out_size c p w) (repeat_back out_size (c - 253) (p % dicsiz) h)
    unfolding put_match
    put_match-Holds c p w h v small =
        let i = (w.loc + 2 ^ 32 - p - 1) % 2 ^ 32 % dicsiz in
        let at : i ≡ slot w.loc (p % dicsiz) = start_slot w.loc p v.inside small in
        copy_match-Holds (c - 253) i 0 (p % dicsiz) w h v (mod-lt p (omega (arith, v.inside))) (
          ap (λ (t : ℕ). t % dicsiz) {x = i + 0} {y = i} (omega arith)
          ∙ mod-eq_of_lt {n = i} {m = dicsiz} (mod-lt _ (omega (arith, v.inside)))
          ∙ at)

    same_test :
        (w : Window) (h : List ℕ) → Holds w h → ltb w.count out_size ≡ ltb (length h) out_size
    same_test w h v = ap (λ (t : ℕ). ltb t out_size) v.counted

    decode_loop-history :
        (fuel : ℕ) (w : Window) (h : List ℕ) (d : Lh5Dec)
        → Holds w h
        → (do w' ← decode_loop dicsiz out_size fuel w; pure w'.out) d
          ≡ history_loop out_size dicsiz fuel h d
    unfolding decode_loop history_loop
    decode_loop-history zero w h d v = elim (Bool-cases (ltb (length h) out_size)) [
      | inl more ↦ rw (same_test w h v ∙ more, more) refl
      | inr full ↦ rw (same_test w h v ∙ full, full) (ap (λ (l : List ℕ). (done l, d)) v.same_out)
    ]
    decode_loop-history (suc fuel) w h d v = elim (Bool-cases (ltb (length h) out_size)) [
      | inl more ↦
          rw (same_test w h v ∙ more, more)
            (continue_assoc (decode_c d) _ _
              ∙ continue-eq (decode_c d) _ _ λ c s _. elim (Bool-cases (leb c 255)) [
                | inl literal ↦ rw literal (decode_loop-history fuel _ _ s (emit-Holds w h c v))
                | inr match ↦ rw match (
                    continue_assoc (decode_p s) _ _
                    ∙ continue-eq (decode_p s) _ _ λ p s' e.
                      decode_loop-history fuel _ _ s'
                        (put_match-Holds c p w h v (decode_p-lt s p s' e)))
              ])
      | inr full ↦ rw (same_test w h v ∙ full, full) (ap (λ (l : List ℕ). (done l, d)) v.same_out)
    ]

  start-Holds : 0 < dicsiz → Holds start_window []
  unfolding start_window
  start-Holds p = record { same_out = refl; counted = refl; inside = p; held = λ d q. refl }

-- Arguments that `lh_decompress_lh_new` takes, and memory for its ring and its tables.
pub record Takes (malloc_ok : ℕ → Bool) (dicbit pbit np : ℕ) (input buffer : List ℕ) : Type 0 where
  pub some_input : 1 ≤ length input
  pub some_room : 1 ≤ length buffer
  pub ring_bits : (12 ≤ dicbit) × (dicbit ≤ 20)
  pub count_bits : (4 ≤ pbit) × (pbit ≤ 5)
  pub positions : (1 ≤ np) × (np ≤ 0x80)
  pub ring : malloc_ok (2 ^ dicbit) ≡ true
  pub tables : malloc_ok sizeof_lh5_dec ≡ true

not_refused :
    (malloc_ok : ℕ → Bool) (dicbit pbit np : ℕ) (input buffer : List ℕ)
    → Takes malloc_ok dicbit pbit np input buffer
    → (length input == 0
        || length buffer == 0
        || ltb dicbit 12
        || ltb 20 dicbit
        || ltb pbit 4
        || ltb 5 pbit
        || np == 0
        || ltb 0x80 np)
      ≡ false
not_refused malloc_ok dicbit pbit np input buffer v = ground arith

ring_divides : (k : ℕ) → k ≤ 20 → 2 ^ 32 ≡ (2 ^ (32 - k) - 1) * 2 ^ k + 2 ^ k
ring_divides k h =
    let e : 32 ≡ 32 - k + k = omega arith in
    let q = 2 ^ (32 - k) in
    let split : q ≡ q - 1 + 1 = omega (arith, pow_pos (32 - k)) in
    ap (λ (t : ℕ). 2 ^ t) e
    ∙ pow-add (32 - k) k
    ∙ ap (λ (t : ℕ). t * 2 ^ k) split
    ∙ omega (arith, add-mul (q - 1) 1 (2 ^ k))

-- For arguments that `lh_decompress_lh_new` takes and any input, decoding with the ring of
-- `2 ^ dicbit` bytes gives what decoding with the whole text gives, in which a match at position `p`
-- repeats the bytes from the distance `p % 2 ^ dicbit` behind the newest one, with blanks before the
-- first byte: the same text, and undefined behaviour or no end in the same cases.
pub decompress_lh_new-history :
    (malloc_ok : ℕ → Bool) (dicbit pbit np : ℕ) (input buffer : List ℕ)
    → Takes malloc_ok dicbit pbit np input buffer
    → decompress_lh_new malloc_ok dicbit pbit np input buffer
      ≡ ((do
        init_getbits
        h ← history_loop (length buffer) (2 ^ dicbit) (length buffer) []
        pure (reverse h))
          (start_dec input np pbit)).0
unfolding decompress_lh_new
decompress_lh_new-history malloc_ok dicbit pbit np input buffer v =
    rw (not_refused malloc_ok dicbit pbit np input buffer v, v.ring, v.tables)
      (ap (λ (r : Outcome (List ℕ) × Lh5Dec). r.0)
        (continue-eq (init_getbits (start_dec input np pbit)) _ _ λ _ s _.
          sym (
            continue_assoc (decode_loop (2 ^ dicbit) (length buffer) (length buffer) start_window s)
              _ _)
          ∙ ap (λ (r : Outcome (List ℕ) × Lh5Dec). continue r (λ h. pure (reverse h)))
              (decode_loop-history (2 ^ dicbit) (2 ^ (32 - dicbit) - 1)
                (ring_divides dicbit v.ring_bits.1) (length buffer) (length buffer) start_window []
                s (start-Holds (2 ^ dicbit) (pow_pos dicbit)))))
