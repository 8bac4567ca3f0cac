-- ===== src/Header/Reread.antt =====
-- Headers that `lh_hdr_write` has written, read back by `lh_hdr_read`.
pub mod Parts
pub mod Blocks
pub mod Level2
pub mod Sealed
pub mod Level1
use lhassa.Base.{
  ℕ, zero, suc, ◌+◌, ◌^◌, ◌<◌, ◌≤◌, ◌≡◌, ◌≢◌, refl, ap, ◌∙◌, List, [], ◌∷◌, ◌++◌, length, get_or,
  get_or-append, append_assoc, Option, some, arith, All, ap₂,
}
use lhassa.Method.{Method, method_to_string, method_from_string, signature}
use lhassa.Stream.{Dos, Stream}
use lhassa.Bytes.{IsByte}
use lhassa.Header.{HdrMeta, slice}

-- What the program relies on of `Write` on a file: it writes all bytes, at the end.
pub record Appends (dos : Dos) : Type 0 where
  pub contents : dos.File → List ℕ
  pub writes_all : (f : dos.File) (xs : List ℕ) → (dos.write f xs).0 ≡ some (length xs)
  pub appends : (f : dos.File) (xs : List ℕ) → contents (dos.write f xs).1 ≡ contents f ++ xs

-- A stream that has been opened for writing, and the bytes of its file.
pub record Holds {dos : Dos} (laws : Appends dos) (s : Stream dos) (bytes : List ℕ) : Type 0 where
  pub file : dos.File
  pub is_open : s.fh ≡ some file
  pub holds : laws.contents file ≡ bytes

-- The metadata of an entry: numbers of the widths of `lh_hdr_meta`, and the method with its own
-- signature.
pub record IsMeta (meta : HdrMeta) : Type 0 where
  pub sig_of : meta.method_sig ≡ method_to_string meta.method
  pub method_of : method_from_string (some meta.method_sig) ≡ meta.method
  pub packed : meta.packed_size < 2 ^ 32
  pub original : meta.original_size < 2 ^ 32
  pub stamp : meta.timestamp < 2 ^ 32
  pub attribute : IsByte meta.attribute
  pub crc : meta.crc < 2 ^ 16
  pub os : IsByte meta.os_id

pub slice-append :
    (pre xs post : List ℕ) (i n : ℕ)
    → i ≡ length pre
    → n ≡ length xs
    → slice (pre ++ (xs ++ post)) i n ≡ xs
slice-append pre [] post i zero e h = refl
slice-append pre [] post i (suc n) e h = absurd (omega arith)
slice-append pre (x ∷ xs) post i zero e h = absurd (omega arith)
slice-append pre (x ∷ xs) post i (suc n) e h =
    ap₂ ◌∷◌ (get_or-append pre (x ∷ xs ++ post) i 0 0 (omega arith)) (
      ap (λ (l : List ℕ). slice l (i + 1) n) (sym_assoc pre x (xs ++ post))
      ∙ slice-append (pre ++ x ∷ []) xs post (i + 1) n (omega (arith, length-snoc pre x))
          (omega arith))
  where
    sym_assoc : (a : List ℕ) (y : ℕ) (b : List ℕ) → a ++ y ∷ b ≡ (a ++ y ∷ []) ++ b
    sym_assoc a y b = simp append_assoc

    length-snoc : (a : List ℕ) (y : ℕ) → length (a ++ y ∷ []) ≡ length a + 1
    length-snoc [] y = refl
    length-snoc (z ∷ a) y = omega (arith, length-snoc a y)

-- Every signature is five characters between two dashes.
pub signature_shape :
    (m : Method)
    → (slice (method_to_string m) 0 5 ≡ method_to_string m)
      × (get_or (method_to_string m) 0 0 ≡ b'-')
      × (get_or (method_to_string m) 4 0 ≡ b'-')
unfolding method_to_string
signature_shape Method.lh0 = (refl, refl, refl)
signature_shape _ = (refl, refl, refl)
