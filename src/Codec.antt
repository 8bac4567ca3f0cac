-- ===== src/Codec.antt =====
-- `lh_codec_compress` and `lh_codec_decompress` of Source/src/lh_codec.c: the choice of a
-- compressor by the method, and the stored method. The other compressors are operations of
-- `Coders`. `failed` is a result other than `LH_OK`.
pub mod Stored
use lhassa.Base.{
  ℕ, zero, suc, List, [], ◌∷◌, ◌++◌, length, drop, ltb, ◌==◌, if◌then◌else◌, Bool, true, false,
  ◌||◌,
}
use lhassa.Method.{Method, err_invalid_arg, err_unsupported}
use lhassa.Outcome.{Outcome, done, failed}

-- The compressors that the dispatch calls: an input and the room of the output, and the bytes
-- written there; for a decompressor, an input and what the output buffer holds before the call.
pub record Coders : Type 0 where
  pub compress_lh1 : List ℕ → ℕ → Outcome (List ℕ)
  pub compress_lh2 : List ℕ → ℕ → Outcome (List ℕ)
  pub compress_lh3 : List ℕ → ℕ → Outcome (List ℕ)
  pub compress_lh4 : List ℕ → ℕ → Outcome (List ℕ)
  pub compress_lh5 : List ℕ → ℕ → Outcome (List ℕ)
  pub compress_lh6 : List ℕ → ℕ → Outcome (List ℕ)
  pub compress_lh7 : List ℕ → ℕ → Outcome (List ℕ)
  pub compress_lzs : List ℕ → ℕ → Outcome (List ℕ)
  pub compress_lz5 : List ℕ → ℕ → Outcome (List ℕ)
  pub compress_lz4 : List ℕ → ℕ → Outcome (List ℕ)
  pub decompress_lh1 : List ℕ → List ℕ → Outcome (List ℕ)
  pub decompress_lh2 : List ℕ → List ℕ → Outcome (List ℕ)
  pub decompress_lh3 : List ℕ → List ℕ → Outcome (List ℕ)
  pub decompress_lh4 : List ℕ → List ℕ → Outcome (List ℕ)
  pub decompress_lh5 : List ℕ → List ℕ → Outcome (List ℕ)
  pub decompress_lh6 : List ℕ → List ℕ → Outcome (List ℕ)
  pub decompress_lh7 : List ℕ → List ℕ → Outcome (List ℕ)
  pub decompress_lzs : List ℕ → List ℕ → Outcome (List ℕ)
  pub decompress_lz5 : List ℕ → List ℕ → Outcome (List ℕ)
  pub decompress_lz4 : List ℕ → List ℕ → Outcome (List ℕ)
  pub decompress_lhx : List ℕ → List ℕ → Outcome (List ℕ)

-- The copying loop over an output buffer, which keeps its bytes behind the input.
pub copy_over : List ℕ → List ℕ → List ℕ
copy_over [] out = out
copy_over (b ∷ input) [] = b ∷ copy_over input []
copy_over (b ∷ input) (c ∷ out) = b ∷ copy_over input out

-- `lh_compress_lh0`
unfoldable pub compress_lh0 : List ℕ → ℕ → Outcome (List ℕ)
compress_lh0 input room =
    if length input == 0 || ltb room (length input) then failed err_invalid_arg else done input

-- `lh_decompress_lh0`
unfoldable pub decompress_lh0 : List ℕ → List ℕ → Outcome (List ℕ)
unfolding copy_over
decompress_lh0 input out =
    if length input == 0 || ltb (length out) (length input)
    then failed err_invalid_arg
    else done (copy_over input out)

module _ (coders : Coders) where
  -- The `switch` of `lh_codec_compress`.
  unfoldable pub compress_by : Method → List ℕ → ℕ → Outcome (List ℕ)
  unfolding compress_lh0
  compress_by Method.lh0 = compress_lh0
  compress_by Method.lh1 = coders.compress_lh1
  compress_by Method.lh2 = coders.compress_lh2
  compress_by Method.lh3 = coders.compress_lh3
  compress_by Method.lh4 = coders.compress_lh4
  compress_by Method.lh5 = coders.compress_lh5
  compress_by Method.lh6 = coders.compress_lh6
  compress_by Method.lh7 = coders.compress_lh7
  compress_by Method.lzs = coders.compress_lzs
  compress_by Method.lz5 = coders.compress_lz5
  compress_by Method.lz4 = coders.compress_lz4
  compress_by Method.lhd = λ input room. done []
  compress_by Method.lh8 = coders.compress_lh7
  compress_by Method.lh9 = coders.compress_lh7
  compress_by Method.lha = coders.compress_lh7
  compress_by Method.lhb = coders.compress_lh7
  compress_by Method.lhc = coders.compress_lh7
  compress_by Method.lhe = coders.compress_lh7
  compress_by Method.pc1 = compress_lh0
  compress_by Method.pm0 = compress_lh0
  compress_by Method.pm1 = λ input room. failed err_unsupported
  compress_by Method.pm2 = λ input room. failed err_unsupported
  compress_by Method.pms = λ input room. failed err_unsupported
  compress_by Method.lz2 = coders.compress_lzs
  compress_by Method.lz3 = coders.compress_lzs
  compress_by Method.lz7 = coders.compress_lzs
  compress_by Method.lz8 = coders.compress_lzs
  compress_by Method.lhx = coders.compress_lh7

  -- `lh_codec_compress`
  unfoldable pub codec_compress : Method → List ℕ → ℕ → Outcome (List ℕ)
  unfolding compress_by
  codec_compress method input room =
      if length input == 0 then failed err_invalid_arg else compress_by method input room

  -- `lh_codec_decompress`
  unfoldable pub codec_decompress : Method → List ℕ → List ℕ → Outcome (List ℕ)
  unfolding decompress_lh0
  codec_decompress Method.lh0 = decompress_lh0
  codec_decompress Method.lh1 = coders.decompress_lh1
  codec_decompress Method.lh2 = coders.decompress_lh2
  codec_decompress Method.lh3 = coders.decompress_lh3
  codec_decompress Method.lh4 = coders.decompress_lh4
  codec_decompress Method.lh5 = coders.decompress_lh5
  codec_decompress Method.lh6 = coders.decompress_lh6
  codec_decompress Method.lh7 = coders.decompress_lh7
  codec_decompress Method.lzs = coders.decompress_lzs
  codec_decompress Method.lz5 = coders.decompress_lz5
  codec_decompress Method.lz4 = coders.decompress_lz4
  codec_decompress Method.lhd = λ input out. done out
  codec_decompress Method.lh8 = coders.decompress_lh7
  codec_decompress Method.lh9 = coders.decompress_lh7
  codec_decompress Method.lha = coders.decompress_lh7
  codec_decompress Method.lhb = coders.decompress_lh7
  codec_decompress Method.lhc = coders.decompress_lh7
  codec_decompress Method.lhe = coders.decompress_lh7
  codec_decompress Method.pc1 = decompress_lh0
  codec_decompress Method.pm0 = decompress_lh0
  codec_decompress Method.pm1 = λ input out. failed err_unsupported
  codec_decompress Method.pm2 = λ input out. failed err_unsupported
  codec_decompress Method.pms = λ input out. failed err_unsupported
  codec_decompress Method.lz2 = coders.decompress_lzs
  codec_decompress Method.lz3 = coders.decompress_lzs
  codec_decompress Method.lz7 = coders.decompress_lzs
  codec_decompress Method.lz8 = coders.decompress_lzs
  codec_decompress Method.lhx = coders.decompress_lhx
