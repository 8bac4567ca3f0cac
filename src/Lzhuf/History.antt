-- ===== src/Lzhuf/History.antt =====
-- The ring of the text in Source/src/lh_lzhuf.c against the whole text: a match takes each byte from a
-- distance behind the end of all that has been written. Before the text there are blanks, and before
-- these what the stack held.
use lhassa.Base.{
  ℕ, zero, suc, ◌+◌, ◌-◌, ◌%◌, ◌^◌, ◌≤◌, ◌<◌, ◌≡◌, refl, ap, ◌∙◌, inl, inr, List, [], ◌∷◌, length,
  store, arith, ltb, ==_iff, ◌==◌, false, Bool-cases, if◌then◌else◌,
}
use lhassa.Lzhuf.Decode.{Text, emit, copy_match, start_text}

module _ (stack : ℕ → ℕ) where
  -- The byte at the distance `d` behind the newest one; the newest byte is the first of the list.
  unfoldable pub byte_back : List ℕ → ℕ → ℕ
  byte_back [] d = if ltb d 4036 then b' ' else stack (8131 - d)
  byte_back (c ∷ out) zero = c
  byte_back (c ∷ out) (suc d) = byte_back out d

  -- A match of up to `n` bytes, each from the distance `p`, in a text of up to `textsize` bytes.
  unfoldable pub repeat_back : ℕ → ℕ → ℕ → List ℕ → List ℕ
  unfolding byte_back
  repeat_back textsize zero p out = out
  repeat_back textsize (suc n) p out =
      let rest = repeat_back textsize n p (byte_back out p ∷ out) in
      if ltb (length out) textsize then rest else out

  -- The ring holds the last 4096 bytes.
  pub record IsRing (w : Text) (out : List ℕ) : Type 0 where
    pub same_out : w.out ≡ out
    pub inside : w.r < 4096
    pub held : (d : ℕ) → d < 4096 → w.text_buf ((w.r + 4096 - d - 1) % 4096) ≡ byte_back out d

  pub start_text-IsRing : IsRing (start_text stack) []
  unfolding start_text byte_back
  start_text-IsRing = record { same_out = refl; inside = omega arith; held = λ d h. ground arith }

  held_next :
      (w : Text) (out : List ℕ) (c : ℕ)
      → IsRing w out
      → (d : ℕ) → d < 4096
      → store w.text_buf w.r c (((w.r + 1) % 4096 + 4096 - d - 1) % 4096) ≡ byte_back (c ∷ out) d
  unfolding byte_back
  held_next w out c v zero h =
      let here : ((w.r + 1) % 4096 + 4096 - 0 - 1) % 4096 ≡ w.r = omega (arith, v.inside) in
      rw (here, (==_iff w.r w.r).1 refl) refl
  held_next w out c v (suc d) h =
      let moved : ((w.r + 1) % 4096 + 4096 - suc d - 1) % 4096 ≡ (w.r + 4096 - d - 1) % 4096 =
        omega (arith, v.inside) in
      let apart : ((w.r + 4096 - d - 1) % 4096 == w.r) ≡ false = ground (arith, v.inside) in
      rw (moved, apart) (v.held d (omega arith))

  pub emit-IsRing : (w : Text) (out : List ℕ) (c : ℕ) → IsRing w out → IsRing (emit c w) (c ∷ out)
  unfolding emit byte_back
  emit-IsRing w out c v = record {
    same_out = ap (λ (l : List ℕ). c ∷ l) v.same_out;
    inside = omega arith;
    held = held_next w out c v;
  }

  -- A match that starts at the distance `p`, whose first `k` bytes are there.
  copy_match-IsRing :
      (textsize n start p k : ℕ) (w : Text) (out : List ℕ)
      → p < 4096
      → (start + k) % 4096 ≡ (w.r + 4096 - p - 1) % 4096
      → IsRing w out
      → IsRing (copy_match textsize n start k w) (repeat_back textsize n p out)
  unfolding copy_match repeat_back
  copy_match-IsRing textsize zero start p k w out near same v = v
  copy_match-IsRing textsize (suc n) start p k w out near same v =
      let read : w.text_buf ((start + k) % 4096) ≡ byte_back out p =
        ap w.text_buf same ∙ v.held p near in
      let next = emit (byte_back out p) w in
      let size : length w.out ≡ length out = ap length v.same_out in
      let rest =
        copy_match-IsRing textsize n start p (k + 1) next (byte_back out p ∷ out) near
          (omega (arith, same, v.inside, near)) (emit-IsRing w out (byte_back out p) v) in
      elim (Bool-cases (ltb (length out) textsize)) [
        | inl room ↦ rw (size, room, read) rest
        | inr full ↦ rw (size, full) v
      ]

  -- The match of a character from 256 on, as the main loop of `lh_lzhuf_decode` copies it.
  pub match-IsRing :
      (textsize c p : ℕ) (w : Text) (out : List ℕ)
      → 256 ≤ c
      → p < 4096
      → IsRing w out
      → IsRing
          (copy_match textsize (c - 255 + 2) ((w.r + 2 ^ 32 - p - 1) % 2 ^ 32 % 4096) 0 w)
          (repeat_back textsize (c - 253) p out)
  match-IsRing textsize c p w out large near v =
      let count : c - 255 + 2 ≡ c - 253 = omega (arith, large) in
      rw count (
        copy_match-IsRing textsize (c - 253) ((w.r + 2 ^ 32 - p - 1) % 2 ^ 32 % 4096) p 0 w out near
          (omega (arith, v.inside, near)) v)
