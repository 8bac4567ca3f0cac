-- ===== src/Method/Signatures.antt =====
-- The two conversions of Source/src/lh_error.c against one another.
use lhassa.Base.{
  ℕ, zero, suc, ◌≡◌, refl, ◌≢◌, ◌↔◌, true, false, List, [], ◌∷◌, some, take, length, All, arith,
  ◌==◌, if◌then◌else◌, ◌∙◌, sym, ap, Bool-cases, inl, inr, Bool,
}
use lhassa.Method.{
  Method, strncmp_eq, sig_len, method_to_string, method_from_string, try_method, signature,
}

-- A comparison against a string of `n` characters succeeds only on its own characters.
strncmp_eq_sound :
    (n : ℕ) (a b : List ℕ)
    → n ≡ length b
    → All (λ c. c ≢ 0) b
    → strncmp_eq n a b ≡ true
    → take n a ≡ b
unfolding strncmp_eq
strncmp_eq_sound zero a [] e nz h = refl
strncmp_eq_sound zero a (y ∷ b) e nz h = absurd (omega arith)
strncmp_eq_sound (suc n) a [] e nz h = absurd (omega arith)
strncmp_eq_sound (suc n) [] (y ∷ b) e nz h = absurd (ground (arith, nz.0))
strncmp_eq_sound (suc n) (x ∷ a) (y ∷ b) e nz h =
    ground (arith, nz.0, strncmp_eq_sound n a b (omega arith) nz.1)

-- Only the first `n` characters count.
strncmp_eq-take : (n : ℕ) (a b : List ℕ) → strncmp_eq n (take n a) b ≡ strncmp_eq n a b
unfolding strncmp_eq
strncmp_eq-take zero a b = refl
strncmp_eq-take (suc n) [] b = refl
strncmp_eq-take (suc n) (x ∷ a) [] = refl
strncmp_eq-take (suc n) (x ∷ a) (y ∷ b) =
    ap (λ (r : Bool). if x == y then (if x == 0 then true else r) else false)
      (strncmp_eq-take n a b)

signature-nonzero :
    (m : Method) → (sig_len ≡ length (method_to_string m)) × All (λ c. c ≢ 0) (method_to_string m)
unfolding method_to_string
signature-nonzero Method.lh0 = omega arith
signature-nonzero _ = omega arith

-- What is found on a line of the search was found by its comparison or on a later line.
abbrev Found : List ℕ → Method → Method → Type 0
Found sig rest k = rest ≡ k → k ≢ Method.pms → take sig_len sig ≡ method_to_string k

Found-try_method :
    (sig : List ℕ) (m rest k : Method) → Found sig rest k → Found sig (try_method sig m rest) k
unfolding try_method
Found-try_method sig m rest k later e ne =
    elim (Bool-cases (strncmp_eq sig_len sig (method_to_string m))) [
      | inl hit ↦
          strncmp_eq_sound sig_len sig (method_to_string m) (signature-nonzero m).0
            (signature-nonzero m).1 hit
          ∙ ap method_to_string (rw hit at e)
      | inr miss ↦ later (rw miss at e) ne
    ]

method_from_string_sound : (sig : List ℕ) (k : Method) → Found sig (method_from_string (some sig)) k
unfolding method_from_string
method_from_string_sound sig k = step Method.lh0 (
    step Method.lh1 (
      step Method.lh2 (
        step Method.lh3 (
          step Method.lh4 (
            step Method.lh5 (
              step Method.lh6 (
                step Method.lh7 (
                  step Method.lhx (
                    step Method.lzs (
                      step Method.lz5 (
                        step Method.lz4 (
                          step Method.lhd (
                            step Method.pm0 (
                              step Method.pm1 (
                                step Method.pm2 (
                                  step Method.pms
                                    (step Method.pc1 (λ e ne. absurd (ne (sym e))))))))))))))))))))
  where
    step : (m : Method) {rest : Method} → Found sig rest k → Found sig (try_method sig m rest) k
    step m {rest} = Found-try_method sig m rest k

-- The search sees no more than the first five characters.
method_from_string-take :
    (sig : List ℕ) → method_from_string (some (take sig_len sig)) ≡ method_from_string (some sig)
unfolding method_from_string try_method
method_from_string-take sig = simp (strncmp_eq-take sig_len)

method_from_string-to_string :
    (m : Method)
    → method_to_string m ≢ method_to_string Method.lh8
    → method_from_string (some (method_to_string m)) ≡ m
unfolding method_from_string method_to_string strncmp_eq
method_from_string-to_string Method.lh0 ne = refl
method_from_string-to_string Method.lh1 ne = refl
method_from_string-to_string Method.lh2 ne = refl
method_from_string-to_string Method.lh3 ne = refl
method_from_string-to_string Method.lh4 ne = refl
method_from_string-to_string Method.lh6 ne = refl
method_from_string-to_string Method.lh7 ne = refl
method_from_string-to_string Method.lzs ne = refl
method_from_string-to_string Method.lz5 ne = refl
method_from_string-to_string Method.lz4 ne = refl
method_from_string-to_string Method.lhd ne = refl
method_from_string-to_string Method.pc1 ne = refl
method_from_string-to_string Method.pm0 ne = refl
method_from_string-to_string Method.pm1 ne = refl
method_from_string-to_string Method.pm2 ne = refl
method_from_string-to_string Method.pms ne = refl
method_from_string-to_string Method.lhx ne = refl
method_from_string-to_string _ ne = absurd (ne refl)

-- For a method `m` that is written with a signature of its own (not "-lh5-", with which the
-- methods without one are written) and is not `pms`, `lh_method_from_string` reads `m` from a
-- string exactly when its first five characters are what `lh_method_to_string` gives for `m`.
pub method_from_string_iff :
    (sig : List ℕ) (m : Method)
    → method_to_string m ≢ method_to_string Method.lh8
    → m ≢ Method.pms
    → (method_from_string (some sig) ≡ m) ↔ (take sig_len sig ≡ method_to_string m)
method_from_string_iff sig m own ne = (
  λ e. method_from_string_sound sig m e ne,
  λ e.
      sym (method_from_string-take sig)
      ∙ ap (λ (s : List ℕ). method_from_string (some s)) e
      ∙ method_from_string-to_string m own,
)

-- A string is read as the LH5 method only if it begins with "-lh5-": an unknown signature never
-- falls through to the LH5 decoder.
pub method_from_string_lh5 :
    (sig : List ℕ)
    → method_from_string (some sig) ≡ Method.lh5
    → take sig_len sig ≡ signature b'l' b'h' b'5'
unfolding method_to_string
method_from_string_lh5 sig e = method_from_string_sound sig Method.lh5 e (λ p. cc)
