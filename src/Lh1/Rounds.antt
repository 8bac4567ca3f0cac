-- ===== src/Lh1/Rounds.antt =====
-- How often the main loop of Source/src/lh_lh1dec.c goes round: it writes a byte in each round.
use lhassa.Base.{
  ℕ, zero, suc, ◌+◌, ◌-◌, ◌%◌, ◌^◌, ◌≤◌, ◌≡◌, refl, sym, ap, ap₂, ◌∙◌, inl, inr, List, length,
  arith, ◌<◌, ltb, ltb→lt, lt→ltb, le→ltb, Bool-cases, if◌then◌else◌, Option, none, some,
}
use lhassa.Outcome.{Outcome, done, failed, fault, out_of_fuel, bind, bind-eq-done}
use lhassa.Lh1.Rebuild.{increment_for_code}
use lhassa.Lh1.Offsets.{Offsets, read_offset}
use lhassa.Lh1.Bits.{BitReader}
use lhassa.Lh1.Decode.{
  Decoder, output_byte, copy_loop, copy_match, read_code, find_leaf, count_read, after_offset,
  after_code, decode_loop,
}

bind_same {ℓ κ} :
    {A : Type ℓ} {B : Type κ} (r : Outcome A) {f g : A → Outcome B}
    → ((a : A) → r ≡ done a → f a ≡ g a)
    → bind r f ≡ bind r g
bind_same (done a) e = e a refl
bind_same (failed st) e = refl
bind_same fault e = refl
bind_same out_of_fuel e = refl

-- A match writes bytes, one at least where there is room and there are any.
length-copy_loop :
    (out_size rounds start i : ℕ) (d : Decoder)
    → length d.out ≤ length (copy_loop out_size rounds start i d).out
unfolding copy_loop output_byte
length-copy_loop out_size zero start i d = omega arith
length-copy_loop out_size (suc rounds) start i d = ground (
  arith,
  length-copy_loop out_size rounds start (i + 1)
      (output_byte (d.ringbuf ((start + i) % 2 ^ 32 % 4096)) d),
)

length-output_byte : (b : ℕ) (d : Decoder) → length (output_byte b d).out ≡ length d.out + 1
unfolding output_byte
length-output_byte b d = omega arith

length-copy_match :
    (out_size code offset : ℕ) (d : Decoder)
    → length d.out < out_size
    → length d.out + 1 ≤ length (copy_match out_size code offset d).out
unfolding copy_match copy_loop
length-copy_match out_size code offset d room =
    let some' : code - 0x100 + 3 ≡ suc (code - 0x100 + 2) = omega arith in
    let start = (d.ringbuf_pos + 2 ^ 32 - offset + 4096 - 1) % 2 ^ 32 in
    let first = output_byte (d.ringbuf ((start + 0) % 2 ^ 32 % 4096)) d in
    rw (some', lt→ltb (length d.out) out_size room)
      (omega (
        arith,
        length-output_byte (d.ringbuf ((start + 0) % 2 ^ 32 % 4096)) d,
        length-copy_loop out_size (code - 0x100 + 2) start 1 first,
      ))

-- The text that is written so far, as `lh1_read_code` gives it on.
out_of : List ℕ → Outcome (Option (ℕ × Decoder)) → List ℕ
out_of out (done (some (code, d))) = d.out
out_of out _ = out

count_read-out :
    (d d' : Decoder) (code : ℕ) (r : Option ℕ × BitReader)
    → count_read d r ≡ done (some (code, d'))
    → d'.out ≡ d.out
unfolding count_read out_of
count_read-out d d' code (none, br) e = absurd (cc)
count_read-out d d' code (some c, br) e =
    let (tree, counted, last) = bind-eq-done (increment_for_code c d.tree) _ e in
    sym (ap (out_of d.out) last)

read_code-out : (d d' : Decoder) (code : ℕ) → read_code d ≡ done (some (code, d')) → d'.out ≡ d.out
unfolding read_code
read_code-out d d' code e =
    let (r, found, rest) = bind-eq-done (find_leaf 628 0 d.tree d.br) _ e in
    count_read-out d d' code r rest

module _ (out_size : ℕ) (next next' : Decoder → Outcome (List ℕ)) where
  -- Two continuations that agree on longer texts.
  abbrev Agree : Decoder → Type 0
  Agree d = (d' : Decoder) → length d.out + 1 ≤ length d'.out → next d' ≡ next' d'

  after_offset-eq :
      (code : ℕ) (d : Decoder) (r : Option ℕ × BitReader)
      → length d.out < out_size
      → Agree d
      → after_offset out_size next code d r ≡ after_offset out_size next' code d r
  unfolding after_offset
  after_offset-eq code d (none, br) room agree = refl
  after_offset-eq code d (some offset, br) room agree =
      agree (copy_match out_size code offset (record d { br = br }))
        (length-copy_match out_size code offset (record d { br = br }) room)

  after_code-eq :
      (o : Offsets) (r : Option (ℕ × Decoder))
      → ((code : ℕ) (d : Decoder) → r ≡ some (code, d) → (length d.out < out_size) × Agree d)
      → after_code out_size next o r ≡ after_code out_size next' o r
  unfolding after_code
  after_code-eq o none ahead = refl
  after_code-eq o (some (code, d)) ahead =
      let (room, agree) = ahead code d refl in
      ap₂ (λ (a b : Outcome (List ℕ)). if ltb code 0x100 then a else b)
        (agree (output_byte code d) (omega (arith, length-output_byte code d)))
        (after_offset-eq code d (read_offset o d.br) room agree)

-- For every decoder: with a round of fuel for each byte that is missing, further fuel changes nothing,
-- since the main loop of `lh_decompress_lh1` writes a byte at least in each round.
pub decode_loop_enough :
    (out_size fuel more : ℕ) (o : Offsets) (d : Decoder)
    → out_size ≤ length d.out + fuel
    → fuel ≤ more
    → decode_loop out_size more o d ≡ decode_loop out_size fuel o d
unfolding decode_loop
decode_loop_enough out_size zero zero o d full le = refl
decode_loop_enough out_size zero (suc more) o d full le =
    rw (le→ltb (length d.out) out_size (omega arith)) refl
decode_loop_enough out_size (suc fuel) zero o d full le = absurd (omega arith)
decode_loop_enough out_size (suc fuel) (suc more) o d full le =
    elim (Bool-cases (ltb (length d.out) out_size)) [
      | inr end ↦ rw end refl
      | inl room ↦ rw room (
          bind_same (read_code d) λ r read.
            after_code-eq out_size (decode_loop out_size more o) (decode_loop out_size fuel o) o r
              λ code d' e.
                let same = read_code-out d d' code (read ∙ ap done e) in
                (
                  omega (arith, ap length same, ltb→lt (length d.out) out_size room),
                  λ d'' longer.
                      decode_loop_enough out_size fuel more o d''
                        (omega (arith, ap length same, longer)) (omega arith),
                ))
    ]
