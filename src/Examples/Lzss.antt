-- ===== src/Examples/Lzss.antt =====
-- Tests of the LArc methods.
use lhassa.Base.{ℕ, ◌≡◌, refl, List, [], ◌∷◌, replicate}
use lhassa.Outcome.{done, bind}
use lhassa.Lzss.{compress_lzss, add_byte, write_byte}
use lhassa.Lzss.Unpack.{decompress_lzs}

abbrev text : List ℕ
text = 1 ∷ 2 ∷ 3 ∷ 4 ∷ 5 ∷ 1 ∷ 2 ∷ 3 ∷ 4 ∷ []

-- A match of four bytes at place 0, with a window of 16 bytes.
packed_text : compress_lzss 16 253 text 100 ≡ done (4 ∷ 1 ∷ 2 ∷ 3 ∷ 4 ∷ 5 ∷ 0 ∷ 1 ∷ [])
unfolding compress_lzss add_byte
packed_text = refl

unpacked_text : decompress_lzs (4 ∷ 1 ∷ 2 ∷ 3 ∷ 4 ∷ 5 ∷ 0 ∷ 1 ∷ []) (replicate 9 0) ≡ done text
unfolding decompress_lzs write_byte
unpacked_text = refl

-- The match that the compressor finds reaches over the end of what has been written.
not_unpacked :
    bind
      (compress_lzss 16 253 (1 ∷ 2 ∷ 3 ∷ 4 ∷ 4 ∷ 0 ∷ 0 ∷ []) 100)
      (λ p. decompress_lzs p (replicate 7 0))
    ≡ done (1 ∷ 2 ∷ 3 ∷ 4 ∷ 4 ∷ 4 ∷ 4 ∷ [])
unfolding compress_lzss add_byte decompress_lzs write_byte
not_unpacked = refl
