-- ===== src/Lh5/Positions.antt =====
-- The range of the positions that `lh5_decode_p` of Source/src/lh_lh5dec.c returns.
use native.Mathlib.Nat.{pow-suc, div-lt_iff_lt-mul}
use lhassa.Base.{
  ℕ, zero, suc, ◌+◌, ◌-◌, ◌*◌, ◌/◌, ◌%◌, ◌^◌, ◌≤◌, ◌<◌, ◌≡◌, refl, ap, ◌∙◌, inl, inr, arith, ltb,
  ltb→lt, ltb-false→le, ==-zero-false→lt, ◌==◌, ◌&&◌, Bool-cases, if◌then◌else◌, pow_pos, pow-add,
}
use lhassa.Outcome.{Outcome, done, lift, continue-eq-done}
use lhassa.Lh5.{Lh5Dec, next_byte, shift_in, fill_loop, fillbuf, getbits, getbits-value}
use lhassa.Lh5.Lengths.{walk, walk_fuel}
use lhassa.Lh5.Decode.{symbol_p, decode_p}

-- What filling the buffer leaves: sixteen bits of it, and the number of position codes.
record Filled (d d' : Lh5Dec) : Type 0 where
  pub word : d'.bitbuf < 2 ^ 16
  pub same_np : d'.np ≡ d.np

np-next_byte : (d : Lh5Dec) (buf : ℕ) → (next_byte (record d { bitbuf = buf })).np ≡ d.np
unfolding next_byte
np-next_byte d buf = ground arith

shift_in-lt : (n : ℕ) (d : Lh5Dec) → shift_in n d < 2 ^ 16
unfolding shift_in
shift_in-lt n d = omega arith

done_state :
    {d d' : Lh5Dec} → ◌≡◌ {A = Outcome (Unit {0}) × Lh5Dec} (done tt, d) (done tt, d') → d ≡ d'
done_state e = ap (λ (r : Outcome (Unit {0}) × Lh5Dec). r.1) e

fill_loop-Filled : (fuel n : ℕ) (d d' : Lh5Dec) → fill_loop fuel n d ≡ (done tt, d') → Filled d d'
unfolding fill_loop
fill_loop-Filled zero n d d' e = absurd (cc)
fill_loop-Filled (suc fuel) n d d' e = elim (Bool-cases (ltb d.bitcount n)) [
  | inl more ↦
      let rest = fill_loop-Filled fuel (n - d.bitcount) _ d' (rw more at e) in
      record { word = rest.word; same_np = rest.same_np ∙ np-next_byte d (shift_in d.bitcount d) }
  | inr there ↦
      let last = done_state (rw there at e) in
      rw (← last) (record { word = shift_in-lt n d; same_np = refl })
]

fillbuf-Filled : (n : ℕ) (d d' : Lh5Dec) → fillbuf n d ≡ (done tt, d') → Filled d d'
unfolding fillbuf
fillbuf-Filled n d d' e = fill_loop-Filled (suc (suc n)) n d d' e

walk-lt :
    (fuel limit b node : ℕ) (d : Lh5Dec) (j : ℕ) → walk fuel limit b node d ≡ done j → j < limit
unfolding walk
walk-lt zero limit b node d j e = absurd (cc)
walk-lt (suc fuel) limit b node d j e =
    let next = if ltb 0 b && d.bitbuf / 2 ^ (b - 1) % 2 == 1 then d.right node else d.left node in
    elim (Bool-cases (ltb node 1019)) [
      | inr outside ↦ absurd (let clash = rw outside at e in cc)
      | inl inside ↦ elim (Bool-cases (ltb next limit)) [
        | inl leaf ↦
            let same : done next ≡ done j = rw (inside, leaf) at e in
            omega (arith, ltb→lt next limit leaf, done_value same)
        | inr inner ↦ walk-lt fuel limit (b - 1) next d j (rw (inside, inner) at e)
      ]
    ]
  where
    done_value : {x y : ℕ} → done x ≡ done y → x ≡ y
    done_value e = cc

lift-done :
    {r : Outcome ℕ} {j : ℕ} {s s' : Lh5Dec}
    → ◌≡◌ {A = Outcome ℕ × Lh5Dec} (r, s) (done j, s')
    → r ≡ done j
lift-done e = ap (λ (x : Outcome ℕ × Lh5Dec). x.0) e

-- A code of the positions, and sixteen bits behind it.
record IsCode (d : Lh5Dec) (j : ℕ) (d' : Lh5Dec) : Type 0 where
  pub code : j < d.np
  pub ahead : d'.bitbuf < 2 ^ 16

ended :
    {j j' : ℕ} {s d' : Lh5Dec}
    → ◌≡◌ {A = Outcome ℕ × Lh5Dec} (done j, s) (done j', d')
    → (j ≡ j') × (s ≡ d')
ended e = (cc, ap (λ (x : Outcome ℕ × Lh5Dec). x.1) e)

symbol_p-IsCode : (d : Lh5Dec) (j : ℕ) (d' : Lh5Dec) → symbol_p d ≡ (done j, d') → IsCode d j d'
unfolding symbol_p
symbol_p-IsCode d j d' e =
    let first = d.pt_table (d.bitbuf / 2 ^ 8) in
    elim (Bool-cases (ltb first d.np)) [
      | inl short ↦
          let (_, s, filled, last) =
            continue-eq-done (fillbuf (d.pt_len first) d) _ (rw short at e) in
          let (same, state) = ended last in
          let full = fillbuf-Filled (d.pt_len first) d s filled in
          rw (← state)
            (record { code = omega (arith, ltb→lt first d.np short, same); ahead = full.word })
      | inr long ↦
          let (_, s, filled, rest) = continue-eq-done (fillbuf 8 d) _ (rw long at e) in
          let full = fillbuf-Filled 8 d s filled in
          let (k, s', walked, rest') =
            continue-eq-done (lift (walk walk_fuel s.np 16 first s) s) _ rest in
          let below = walk-lt walk_fuel s.np 16 first s k (lift-done walked) in
          let (_, t, filled', last) =
            continue-eq-done (fillbuf ((s'.pt_len k + 2 ^ 8 - 8) % 2 ^ 8) s') _ rest' in
          let (same, state) = ended last in
          let full' = fillbuf-Filled ((s'.pt_len k + 2 ^ 8 - 8) % 2 ^ 8) s' t filled' in
          rw (← state)
            (record { code = omega (arith, below, full.same_np, same); ahead = full'.word })
    ]

getbits-few : (n : ℕ) (d : Lh5Dec) (x : ℕ) (d' : Lh5Dec) → getbits n d ≡ (done x, d') → n ≤ 16
unfolding getbits
getbits-few n d x d' e = elim (Bool-cases (ltb 16 n)) [
  | inl many ↦ absurd (let clash = rw many at e in cc)
  | inr few ↦ ltb-false→le 16 n few
]

-- The number that a code of `n + 1` bits stands for.
position-lt :
    (n buf low : ℕ)
    → n ≤ 16
    → buf < 2 ^ 16
    → buf / 2 ^ (16 - n) ≡ low
    → (2 ^ n + low) % 2 ^ 16 < 2 ^ suc n
position-lt n buf low few word e =
    let whole : n + (16 - n) ≡ 16 = omega arith in
    let product : 2 ^ n * 2 ^ (16 - n) ≡ 2 ^ 16 =
      omega (arith, pow-add n (16 - n), ap (λ (t : ℕ). 2 ^ t) whole) in
    let room : buf < 2 ^ n * 2 ^ (16 - n) = omega (arith, product) in
    let small : buf / 2 ^ (16 - n) < 2 ^ n =
      (div-lt_iff_lt-mul {k = 2 ^ (16 - n)} {x = buf} {y = 2 ^ n} (pow_pos (16 - n))).1 room in
    omega (arith, small, pow-suc 2 n)

pow_mono : (m n : ℕ) → m ≤ n → 2 ^ m ≤ 2 ^ n
pow_mono m n h =
    let e : m + (n - m) ≡ n = omega arith in
    rw (← e, pow-add m (n - m)) (grind (arith, pow_pos (n - m)))

-- The position that `lh5_decode_p` returns is less than `2 ^ (np - 1)`, where `np` is the number of
-- codes: a match of the methods LH4 to LH7, where `np` is one more than the bits of the ring, stays
-- within the ring.
pub decode_p-lt_pow : (d d' : Lh5Dec) (p : ℕ) → decode_p d ≡ (done p, d') → p < 2 ^ (d.np - 1)
unfolding decode_p
decode_p-lt_pow d d' p e =
    let (j, s, symbol, rest) = continue-eq-done (symbol_p d) _ e in
    let code = symbol_p-IsCode d j s symbol in
    elim (Bool-cases (j == 0)) [
      | inl none ↦ omega (arith, pow_pos (d.np - 1), (ended (rw none at rest)).0)
      | inr some ↦
          let (low, s', read, last) = continue-eq-done (getbits (j - 1) s) _ (rw some at rest) in
          let few = getbits-few (j - 1) s low s' read in
          let value = getbits-value (j - 1) s low s' few read in
          let below = position-lt (j - 1) s.bitbuf low few code.ahead value in
          let width : suc (j - 1) ≤ d.np - 1 = omega (arith, code.code, ==-zero-false→lt j some) in
          omega (arith, below, pow_mono (suc (j - 1)) (d.np - 1) width, (ended last).0)
    ]
