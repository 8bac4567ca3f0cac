-- ===== src/Header/Written.antt =====
-- What `lh_hdr_write` leaves in the file it writes to.
use lhassa.Base.{
  ℕ, ◌+◌, ◌-◌, ◌≤◌, ◌≡◌, refl, sym, ap, ap₂, ◌∙◌, true, false, List, [], ◌∷◌, ◌++◌, length, take,
  drop, arith, Option, none, some, ltb, leb, ◌==◌, append_assoc, append-nil, take-append-drop,
  drop-drop, ==_refl,
}
use lhassa.Outcome.{Outcome, done, continue, ◌>>◌}
use lhassa.Stream.{Dos, Stream, stream_write}
use lhassa.Bytes.{cstr}
use lhassa.Header.{HdrMeta}
use lhassa.Header.Reread.{Appends, Holds}
use lhassa.Header.Write.{hdr_write, write_named, write_level1, write_level2, write_all, is_open}
use lhassa.Header.Write.Level2.{level2_bytes}
use lhassa.Header.Write.Level1.{level1_bytes, level1_body}

module _ {dos : Dos} (laws : Appends dos) where
  -- The stream after a write of some bytes.
  abbrev pub Wrote : List ℕ → List ℕ → Outcome (Unit {0}) × Stream dos → Type 0
  Wrote out bytes r = (s' : Stream dos) × (r ≡ (done tt, s')) × Holds laws s' (out ++ bytes)

  pub write_all-Holds :
      (s : Stream dos) (out bytes : List ℕ) → Holds laws s out → Wrote out bytes (write_all bytes s)
  unfolding write_all stream_write
  write_all-Holds s out [] h = (
    s,
    refl,
    record { file = h.file; is_open = h.is_open; holds = h.holds ∙ sym (append-nil out) },
  )
  write_all-Holds s out (b ∷ bytes) h = (
    record s { fh = some (dos.write h.file (b ∷ bytes)).1 },
    rw (h.is_open, laws.writes_all h.file (b ∷ bytes), not_zero, ==_refl (length (b ∷ bytes))) refl,
    record {
      file = (dos.write h.file (b ∷ bytes)).1;
      is_open = refl;
      holds = laws.appends h.file (b ∷ bytes) ∙ ap (λ (l : List ℕ). l ++ b ∷ bytes) h.holds;
    },
  )
    where
      not_zero : (length (b ∷ bytes) == 0) ≡ false
      not_zero = ground arith

  -- One write after another.
  pub Wrote-then :
      (out xs ys : List ℕ) (r : Outcome (Unit {0}) × Stream dos)
      (k : Stream dos → Outcome (Unit {0}) × Stream dos)
      → Wrote out xs r
      → ((s : Stream dos) → Holds laws s (out ++ xs) → Wrote (out ++ xs) ys (k s))
      → Wrote out (xs ++ ys) (continue r (λ _. k))
  Wrote-then out xs ys r k w f =
      let w' = f w.0 w.2 in
      (
        w'.0,
        ap (λ (p : Outcome (Unit {0}) × Stream dos). continue p (λ _. k)) w.1 ∙ w'.1,
        record {
          file = w'.2.file;
          is_open = w'.2.is_open;
          holds = w'.2.holds ∙ append_assoc out xs ys;
        },
      )

  pieces :
      (body : ℕ) (xs : List ℕ)
      → 1 ≤ body
      → take 1 xs ++ (take (body - 1) (drop 1 xs) ++ drop body xs) ≡ xs
  pieces body xs h =
      ap (λ (l : List ℕ). take 1 xs ++ (take (body - 1) (drop 1 xs) ++ l))
        (ap (λ (n : ℕ). drop n xs) {x = body} {y = 1 + (body - 1)} (omega arith)
          ∙ sym (drop-drop (body - 1) 1 xs))
      ∙ ap (λ (l : List ℕ). take 1 xs ++ l) (take-append-drop (body - 1) (drop 1 xs))
      ∙ take-append-drop 1 xs

  write_level1-Holds :
      (s : Stream dos) (out : List ℕ) (meta : HdrMeta) (name : List ℕ) (level : ℕ)
      → Holds laws s out
      → length name ≤ 200
      → Wrote out (level1_bytes meta name level) (write_level1 meta name level s)
  unfolding write_level1
  write_level1-Holds s out meta name level h short =
      let body = level1_body (length name) level in
      let bytes = level1_bytes meta name level in
      let fits : ltb 200 (length name) ≡ false = ground arith in
      let small : ltb 255 body ≡ false = ground arith in
      rw (fits, small)
        (rw (pieces body bytes (ground arith)) at (
          Wrote-then out (take 1 bytes) (take (body - 1) (drop 1 bytes) ++ drop body bytes)
            (write_all (take 1 bytes) s)
            (write_all (take (body - 1) (drop 1 bytes)) >> write_all (drop body bytes))
            (write_all-Holds s out (take 1 bytes) h)
            (λ s₁ h₁.
              Wrote-then (out ++ take 1 bytes) (take (body - 1) (drop 1 bytes)) (drop body bytes)
                (write_all (take (body - 1) (drop 1 bytes)) s₁) (write_all (drop body bytes))
                (write_all-Holds s₁ (out ++ take 1 bytes) (take (body - 1) (drop 1 bytes)) h₁)
                (λ s₂ h₂.
                  write_all-Holds s₂ (out ++ take 1 bytes ++ take (body - 1) (drop 1 bytes))
                    (drop body bytes) h₂))))

  pub is_open-Holds : (s : Stream dos) (out : List ℕ) → Holds laws s out → is_open s ≡ true
  is_open-Holds s out h =
      ap
        (λ (f : Option dos.File). elim f [
          | some _ ↦ true
          | none ↦ elim s.mem [ some m ↦ true | none ↦ false ]
        ])
        h.is_open

  -- The call, once the file and the name are there.
  hdr_write-named :
      (s : Stream dos) (out : List ℕ) (meta : HdrMeta) (name : List ℕ) (level : ℕ)
      → Holds laws s out
      → meta.filename ≡ some name
      → hdr_write meta level s ≡ write_named meta level s (some name) true
  unfolding hdr_write
  hdr_write-named s out meta name level h e =
      ap₂ (write_named meta level s) e (is_open-Holds s out h)

  -- A header of level 0 and 1 as it stands in the file.
  pub hdr_write-level1 :
      (s : Stream dos) (out : List ℕ) (meta : HdrMeta) (name : List ℕ) (level : ℕ)
      → Holds laws s out
      → meta.filename ≡ some name
      → length (cstr name) ≤ 200
      → level ≤ 1
      → Wrote out (level1_bytes meta (cstr name) level) (hdr_write meta level s)
  unfolding write_named
  hdr_write-level1 s out meta name level h e short low =
      let low_level : leb 2 level ≡ false = ground arith in
      rw (hdr_write-named s out meta name level h e, low_level)
        (write_level1-Holds s out meta (cstr name) level h short)

  -- A header of level 2, once its bytes are known.
  pub hdr_write-level2 :
      (s : Stream dos) (out bytes : List ℕ) (meta : HdrMeta) (name : List ℕ) (level : ℕ)
      → Holds laws s out
      → meta.filename ≡ some name
      → 2 ≤ level
      → level2_bytes meta (cstr name) ≡ done bytes
      → Wrote out bytes (hdr_write meta level s)
  unfolding write_named write_level2
  hdr_write-level2 s out bytes meta name level h e high made =
      let high_level : leb 2 level ≡ true = ground arith in
      rw (hdr_write-named s out meta name level h e, high_level, made)
        (write_all-Holds s out bytes h)
