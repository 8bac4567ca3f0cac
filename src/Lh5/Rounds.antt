-- ===== src/Lh5/Rounds.antt =====
-- How often the text loop of Source/src/lh_lh5dec.c goes round: it writes a byte in each round.
use lhassa.Base.{
  ℕ, zero, suc, ◌+◌, ◌-◌, ◌%◌, ◌^◌, ◌≤◌, ◌<◌, ◌≡◌, refl, inl, inr, arith, ltb, leb, Bool-cases,
}
use lhassa.Outcome.{continue-eq}
use lhassa.Lh5.{Lh5Dec}
use lhassa.Lh5.Decode.{Window, emit, copy_match, put_match, decode_loop, decode_c, decode_p}

module _ (dicsiz out_size : ℕ) where
  count-copy_match :
      (rounds i k : ℕ) (w : Window) → w.count ≤ (copy_match dicsiz out_size rounds i k w).count
  unfolding copy_match emit
  count-copy_match zero i k w = omega arith
  count-copy_match (suc rounds) i k w = ground (
    arith,
    count-copy_match rounds i (k + 1) (emit dicsiz (w.text ((i + k) % 2 ^ 32 % dicsiz)) w),
  )

  count-copy_match-suc :
      (rounds i k : ℕ) (w : Window)
      → w.count + 1 ≤ (copy_match dicsiz out_size (suc rounds) i k w).count
  unfolding copy_match emit
  count-copy_match-suc rounds i k w = ground (
    arith,
    count-copy_match rounds i (k + 1) (emit dicsiz (w.text ((i + k) % 2 ^ 32 % dicsiz)) w),
  )

  count-put_match :
      (c p : ℕ) (w : Window) → 255 < c → w.count + 1 ≤ (put_match dicsiz out_size c p w).count
  unfolding put_match
  count-put_match c p w h =
      let e : c - 253 ≡ suc (c - 254) = omega arith in rw e (count-copy_match-suc (c - 254) _ 0 w)

  count-emit : (b : ℕ) (w : Window) → (emit dicsiz b w).count ≡ w.count + 1
  unfolding emit
  count-emit b w = refl

  -- For every decoder and ring: with a round of fuel for each byte that is missing, further fuel
  -- changes nothing, since the text loop of `lh_decompress_lh_new` writes a byte at least in each
  -- round.
  pub decode_loop_fuel :
      (fuel more : ℕ) (w : Window) (d : Lh5Dec)
      → out_size ≤ w.count + fuel
      → fuel ≤ more
      → decode_loop dicsiz out_size more w d ≡ decode_loop dicsiz out_size fuel w d
  unfolding decode_loop
  decode_loop_fuel zero zero w d full le = refl
  decode_loop_fuel zero (suc more) w d full le = ground arith
  decode_loop_fuel (suc fuel) zero w d full le = absurd (omega arith)
  decode_loop_fuel (suc fuel) (suc more) w d full le = elim (Bool-cases (ltb w.count out_size)) [
    | inr end ↦ rw end refl
    | inl room ↦ rw room (
        continue-eq (decode_c d) _ _ λ c s _. elim (Bool-cases (leb c 255)) [
          | inl literal ↦ rw literal (
              decode_loop_fuel fuel more (emit dicsiz c w) s (omega (arith, count-emit c w))
                (omega arith))
          | inr match ↦
              let long : 255 < c = ground arith in
              rw match (
                continue-eq (decode_p s) _ _ λ p s' _.
                  decode_loop_fuel fuel more (put_match dicsiz out_size c p w) s'
                    (omega (arith, count-put_match c p w long)) (omega arith))
        ])
  ]
