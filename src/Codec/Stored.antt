-- ===== src/Codec/Stored.antt =====
-- What a compressor promises, and the stored methods, which keep it.
use lhassa.Base.{ℕ, ◌≤◌, ◌≡◌, refl, ap, List, [], ◌∷◌, length, arith, Bool, true, false}
use lhassa.Method.{Method}
use lhassa.Outcome.{done}
use lhassa.Codec.{Coders, copy_over, compress_lh0, decompress_lh0, codec_compress, codec_decompress}

-- A method loses nothing: what it has written is read back into a buffer of the input's length,
-- whatever the buffer held.
abbrev pub Lossless : Coders → Method → Type 0
Lossless coders method =
    (input packed out : List ℕ) (room : ℕ)
    → codec_compress coders method input room ≡ done packed
    → length out ≡ length input
    → codec_decompress coders method packed out ≡ done input

copy_over_all : (input out : List ℕ) → length out ≡ length input → copy_over input out ≡ input
unfolding copy_over
copy_over_all [] [] e = refl
copy_over_all [] (c ∷ out) e = absurd (omega arith)
copy_over_all (b ∷ input) [] e = absurd (omega arith)
copy_over_all (b ∷ input) (c ∷ out) e =
    ap (λ (l : List ℕ). b ∷ l) (copy_over_all input out (omega arith))

-- With room for it, an input that is not empty is stored as it is.
pub codec_compress-stored :
    (coders : Coders) (input : List ℕ) (room : ℕ)
    → 1 ≤ length input
    → length input ≤ room
    → codec_compress coders Method.lh0 input room ≡ done input
unfolding codec_compress compress_lh0
codec_compress-stored coders input room h fits = ground arith

stored_back :
    (input packed out : List ℕ) (room : ℕ)
    → compress_lh0 input room ≡ done packed
    → length out ≡ length input
    → decompress_lh0 packed out ≡ done input
unfolding compress_lh0 decompress_lh0
stored_back input packed out room e same = ground (arith, copy_over_all input out same)

-- The methods that store.
abbrev pub is_stored : Method → Bool
is_stored Method.lh0 = true
is_stored Method.pc1 = true
is_stored Method.pm0 = true
is_stored _ = false

-- The methods that store lose nothing.
pub codec-Lossless :
    (coders : Coders) (method : Method) → is_stored method ≡ true → Lossless coders method
unfolding codec_compress codec_decompress
codec-Lossless coders Method.lh0 h input packed out room e same =
    stored_back input packed out room (ground arith) same
codec-Lossless coders Method.pc1 h input packed out room e same =
    stored_back input packed out room (ground arith) same
codec-Lossless coders Method.pm0 h input packed out room e same =
    stored_back input packed out room (ground arith) same
codec-Lossless coders _ h input packed out room e same = absurd (cc)
