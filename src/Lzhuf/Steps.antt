-- ===== src/Lzhuf/Steps.antt =====
-- The main loops of Source/src/lh_lzhuf.c against each other: bits that are the codes of characters and
-- of positions lead the decoder to the text of these literals and matches.
use lhassa.Bytes.{IsByte}
use lhassa.Base.{
  ℕ, zero, suc, ◌+◌, ◌-◌, ◌/◌, ◌%◌, ◌^◌, ◌≤◌, ◌<◌, ◌≡◌, ◌≢◌, ap, ◌∙◌, List, [], ◌∷◌, All, length,
  arith, lt→ltb, le→ltb, Bool, true, false, if◌then◌else◌,
}
use lhassa.Outcome.{Outcome, done, bind}
use lhassa.Lh5.Stream.{bits}
use lhassa.Lzhuf.{Tree, table_size, root, update}
use lhassa.Lzhuf.Bits.{Input, decode_position}
use lhassa.Lzhuf.Bits.Positions.{IsAt}
use lhassa.Lzhuf.PositionCode.{code_len, position_code, decode_position-code}
use lhassa.Lzhuf.Links.{IsLinked, find_char-climb}
use lhassa.Lzhuf.Invariant.{update-IsLinked}
use lhassa.Lzhuf.History.{repeat_back, IsRing, start_text-IsRing, emit-IsRing, match-IsRing}
use lhassa.Lzhuf.Encode.{climb}
use lhassa.Lzhuf.Decode.{
  Decoder, decode_char, Text, start_text, emit, copy_match, after_position, after_char, decode_loop,
}

abbrev paired : ℕ × Decoder → Outcome (ℕ × Decoder)
paired r = done r

if_holds {ℓ} : {A : Type ℓ} {b : Bool} (x y : A) → b ≡ true → (if b then x else y) ≡ x
if_holds x y e = ap (λ (b : Bool). if b then x else y) e

unless_holds {ℓ} : {A : Type ℓ} {b : Bool} (x y : A) → b ≡ false → (if b then x else y) ≡ y
unless_holds x y e = ap (λ (b : Bool). if b then x else y) e

module _ (input : List ℕ) where
  -- The `j` bits from `pos` on are the code that `lhz_encode_char` gives `c` in the tree `t`, which is
  -- `t'` once `c` is counted.
  pub record IsChar (pos : ℕ) (t : Tree) (c j : ℕ) (t' : Tree) : Type 0 where
    pub char : c < 314
    pub inner : t.prnt (c + table_size) ≢ root
    pub code : ℕ
    pub climbs : climb table_size (t.prnt (c + table_size)) 0 0 t.prnt ≡ done (code, j)
    pub few : j ≤ 16
    pub here : bits input pos j ≡ code / 2 ^ (16 - j)
    pub low : t.freq root ≢ 0x8000
    pub counted : update c t ≡ done t'

  -- Literals and matches whose codes stand in the bits: the place in the bits, the tree and the text
  -- before them, newest byte first, and the tree and the text behind them. A match of the character
  -- `c` repeats `c - 253` bytes from the distance `p` behind the newest one.
  pub data Steps (stack : ℕ → ℕ) (textsize : ℕ)
      : ℕ → ℕ → Tree → List ℕ → Tree → List ℕ → Type 0 where
    stay : {pos : ℕ} {t : Tree} {out : List ℕ} → Steps stack textsize 0 pos t out t out
    literal :
        {n pos j c : ℕ} {t t' t'' : Tree} {out out' : List ℕ}
        → c < 256
        → length out < textsize
        → IsChar pos t c j t'
        → Steps stack textsize n (pos + j) t' (c ∷ out) t'' out'
        → Steps stack textsize (suc n) pos t out t'' out'
    match :
        {n pos j c p : ℕ} {t t' t'' : Tree} {out out' : List ℕ}
        → 256 ≤ c
        → p < 4096
        → length out < textsize
        → IsChar pos t c j t'
        → bits input (pos + j) (code_len p + 6) ≡ position_code p
        → Steps stack textsize n
            (pos + j + (code_len p + 6))
            t'
            (repeat_back stack textsize (c - 253) p out)
            t''
            out'
        → Steps stack textsize (suc n) pos t out t'' out'

  module _ (bytes : All IsByte input) where
    decode_char-IsChar :
        (pos m c j : ℕ) (t t' : Tree) (d : Input)
        → IsLinked t
        → IsChar pos t c j t'
        → IsAt input pos m d
        → (m' : ℕ) × (d' : Input) × (decode_char (record { tree = t; input = d })
            ≡ done (c, record { tree = t'; input = d' }))
          × IsAt input (pos + j) m' d'
    unfolding decode_char
    decode_char-IsChar pos m c j t t' d linked char at =
        let (m', d', found, at') =
          find_char-climb input bytes t linked c char.code j pos m d char.char char.inner
            char.climbs char.few at char.here in
        (
          m',
          d',
          ap
                (λ (r : Outcome (ℕ × Input)). bind r λ (x, input').
                  bind (update x t) λ tree. paired (x, record { tree = tree; input = input' }))
                found
              ∙ ap
                  (λ (r : Outcome Tree).
                    bind r λ tree. paired (c, record { tree = tree; input = d' }))
                  char.counted,
          at',
        )

    full_text :
        (textsize fuel : ℕ) (w : Text) (d : Decoder)
        → textsize ≤ length w.out
        → decode_loop textsize fuel w d ≡ done w.out
    unfolding decode_loop
    full_text textsize zero w d h = unless_holds _ _ (le→ltb (length w.out) textsize h)
    full_text textsize (suc fuel) w d h = unless_holds _ _ (le→ltb (length w.out) textsize h)

    round_of :
        (textsize fuel c : ℕ) (w : Text) (d d' : Decoder)
        → length w.out < textsize
        → decode_char d ≡ done (c, d')
        → decode_loop textsize (suc fuel) w d
          ≡ after_char textsize (decode_loop textsize fuel) w (c, d')
    unfolding decode_loop
    round_of textsize fuel c w d d' room read =
        if_holds _ _ (lt→ltb (length w.out) textsize room)
        ∙ ap
            (λ (r : Outcome (ℕ × Decoder)).
              bind r (after_char textsize (decode_loop textsize fuel) w))
            read

    module _ (textsize : ℕ) (next : Text → Decoder → Outcome (List ℕ)) where
      literal_round :
          (c : ℕ) (w : Text) (d : Decoder)
          → c < 256
          → after_char textsize next w (c, d) ≡ next (emit c w) d
      unfolding after_char
      literal_round c w d small = if_holds _ _ (lt→ltb c 256 small)

      match_round :
          (c p : ℕ) (w : Text) (d : Decoder) (input' : Input)
          → 256 ≤ c
          → decode_position d.input ≡ (p, input')
          → after_char textsize next w (c, d)
            ≡ next
                (copy_match textsize (c - 255 + 2) ((w.r + 2 ^ 32 - p - 1) % 2 ^ 32 % 4096) 0 w)
                (record d { input = input' })
      unfolding after_char after_position
      match_round c p w d input' large place =
          unless_holds _ _ (le→ltb c 256 large) ∙ ap (after_position textsize next c w d) place

    decode_loop_from-Steps :
        (stack : ℕ → ℕ) (textsize n fuel pos m : ℕ) (t t' : Tree) (w : Text) (out out' : List ℕ)
        (d : Input)
        → IsLinked t
        → IsAt input pos m d
        → IsRing stack w out
        → Steps stack textsize n pos t out t' out'
        → textsize ≤ length out'
        → decode_loop textsize (n + fuel) w (record { tree = t; input = d }) ≡ done out'
    decode_loop_from-Steps stack textsize n fuel pos m t t' w out out' d linked at ring stay long =
        full_text textsize (0 + fuel) w (record { tree = t; input = d })
          (omega (arith, long, ap length ring.same_out))
        ∙ ap done ring.same_out
    decode_loop_from-Steps stack textsize n fuel pos m t t' w out out' d linked at ring
          (literal {n = k} {j = j} {c = c} {t' = u} small room char steps) long =
        let (m', d', read, at') = decode_char-IsChar pos m c j t u d linked char at in
        let fuel_left : suc k + fuel ≡ suc (k + fuel) = omega arith in
        ap (λ (x : ℕ). decode_loop textsize x w (record { tree = t; input = d })) fuel_left
        ∙ round_of textsize (k + fuel) c w (record { tree = t; input = d })
            (record { tree = u; input = d' }) (omega (arith, room, ap length ring.same_out)) read
        ∙ literal_round textsize (decode_loop textsize (k + fuel)) c w
            (record { tree = u; input = d' }) small
        ∙ decode_loop_from-Steps stack textsize k fuel (pos + j) m' u t' (emit c w) (c ∷ out) out'
            d' (update-IsLinked c t u char.char linked char.low char.counted) at'
            (emit-IsRing stack w out c ring) steps long
    decode_loop_from-Steps stack textsize n fuel pos m t t' w out out' d linked at ring
          (match {n = k} {j = j} {c = c} {p = p} {t' = u} large small room char here steps) long =
        let (m', d', read, at') = decode_char-IsChar pos m c j t u d linked char at in
        let (m'', d'', place, at'') =
          decode_position-code input (pos + j) m' p d' bytes at' small here in
        let fuel_left : suc k + fuel ≡ suc (k + fuel) = omega arith in
        ap (λ (x : ℕ). decode_loop textsize x w (record { tree = t; input = d })) fuel_left
        ∙ round_of textsize (k + fuel) c w (record { tree = t; input = d })
            (record { tree = u; input = d' }) (omega (arith, room, ap length ring.same_out)) read
        ∙ match_round textsize (decode_loop textsize (k + fuel)) c p w
            (record { tree = u; input = d' }) d'' large place
        ∙ decode_loop_from-Steps stack textsize k fuel (pos + j + (code_len p + 6)) m'' u t'
            (copy_match textsize (c - 255 + 2) ((w.r + 2 ^ 32 - p - 1) % 2 ^ 32 % 4096) 0 w)
            (repeat_back stack textsize (c - 253) p out) out' d''
            (update-IsLinked c t u char.char linked char.low char.counted) at''
            (match-IsRing stack textsize c p w out large small ring) steps long

    -- For an input of bytes, from a linked tree and without a rebuilding of it: where the bits
    -- from the reader's place on are the codes, of at most 16 bits, of characters, as the climb of
    -- `lhz_encode_char` gives them in the tree that has counted the characters before, and of
    -- positions below 4096 behind the characters from 256 on, the main loop of `lh_lzhuf_decode`,
    -- with a round of fuel for each character and an empty text, gives the text of these literals
    -- and matches, once it is as long as was asked for, where it is shorter than that before each
    -- character: a match of the character `c` at the position `p` repeats `c - 253` bytes from the
    -- distance `p` behind the newest one in the whole text, before which there are 4036 blanks and
    -- the sixty bytes that the stack held.
    pub decode_loop-Steps :
        (stack : ℕ → ℕ) (textsize n fuel pos m : ℕ) (t t' : Tree) (out : List ℕ) (d : Input)
        → IsLinked t
        → IsAt input pos m d
        → Steps stack textsize n pos t [] t' out
        → textsize ≤ length out
        → decode_loop textsize (n + fuel) (start_text stack) (record { tree = t; input = d })
          ≡ done out
    decode_loop-Steps stack textsize n fuel pos m t t' out d linked at steps long =
        decode_loop_from-Steps stack textsize n fuel pos m t t' (start_text stack) [] out d linked
          at (start_text-IsRing stack) steps long
