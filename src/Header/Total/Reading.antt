-- ===== src/Header/Total/Reading.antt =====
-- `lh_hdr_read` returns from every stream.
use lhassa.Base.{
  ℕ, zero, suc, ◌+◌, ◌-◌, ◌*◌, ◌^◌, ◌%◌, ◌≤◌, ◌<◌, ◌≡◌, ◌≢◌, arith, Bool, List, [], ◌∷◌, Option,
  none, ltb, ◌==◌, if◌then◌else◌, not, ◌||◌, Bool-cases, inl, inr,
}
use lhassa.Method.{err_bad_header}
use lhassa.Outcome.{Outcome, done, out_of_fuel, lift, pure, stop_if, ◌>>=◌, ◌>>◌}
use lhassa.Outcome.Ends.{Ends, done-Ends, failed-Ends, fault-Ends, Ends-continue}
use lhassa.Bytes.{get_byte, get_word}
use lhassa.Stream.{Dos, Stream, read_exact}
use lhassa.Header.{HdrMeta, Names, hdr_buf, put_bytes}
use lhassa.Header.Path.{finish_path}
use lhassa.Header.Chain.{chain_block, read_chain}
use lhassa.Header.Read.{hdr_read, read_rest, read_more, check_len}
use lhassa.Header.Read.Level1.{lhex_meta, read_names, read_lhex}
use lhassa.Header.Read.Level2.{read_level2}
use lhassa.Header.Total.{
  finish_path-Ends, level2_names-Ends, chain_block-done, chain_block-Ends, lhex_meta-Ends,
}

module _ (malloc_ok : ℕ → Bool) where
  -- The metadata with what the chain has given.
  abbrev with_names : HdrMeta → ℕ → Option (List ℕ) → Option (List ℕ) → HdrMeta
  with_names meta extra filename comment = record meta {
    packed_size = (meta.packed_size + 2 ^ 32 - extra) % 2 ^ 32;
    filename = filename;
    comment = comment;
  }

  -- What the rounds behind a block have to show.
  abbrev ChainEnds : Dos → ℕ → ℕ → Type 0
  ChainEnds dos os fuel =
      (buf : List ℕ) (p : ℕ) (names : Names) (s : Stream dos)
      → p ≤ hdr_buf + 1
      → hdr_buf + 1 < p + fuel
      → Ends (read_chain malloc_ok os fuel buf p names s).0

  module _ {dos : Dos} where
    read_exact-Ends : (n : ℕ) (s : Stream dos) → Ends (read_exact n s).0
    unfolding read_exact
    read_exact-Ends n s e = ground arith

    -- A block at `p`, and the chain behind it.
    block_at :
        ℕ → ℕ → List ℕ → ℕ → ℕ → Names → List ℕ → Stream dos → Outcome (Names × ℕ) × Stream dos
    block_at os fuel buf p blk_len names bytes =
        let buf' = put_bytes buf (p + 2) bytes in
        ◌>>=◌ (lift (chain_block malloc_ok os (get_byte buf' (p + 2)) buf' (p + 3) blk_len names))
          (λ (names', p'). read_chain malloc_ok os fuel buf' p' names')

    block_at-Ends :
        (os fuel : ℕ) (buf : List ℕ) (p blk_len : ℕ) (names : Names) (bytes : List ℕ)
        (s₁ : Stream dos)
        → ChainEnds dos os fuel
        → 1 ≤ blk_len
        → p + 2 + blk_len ≤ hdr_buf
        → hdr_buf + 1 < p + suc fuel
        → Ends (block_at os fuel buf p blk_len names bytes s₁).0
    unfolding block_at
    block_at-Ends os fuel buf p blk_len names bytes s₁ rounds some_bytes fits room =
        let buf' = put_bytes buf (p + 2) bytes in
        let blk_type = get_byte buf' (p + 2) in
        Ends-continue (lift (chain_block malloc_ok os blk_type buf' (p + 3) blk_len names) s₁)
          (λ (names', p'). read_chain malloc_ok os fuel buf' p' names')
          (chain_block-Ends malloc_ok os blk_type (p + 3) blk_len buf' names)
          (λ (names', p') s₂ e.
            let b =
              chain_block-done malloc_ok os blk_type (p + 3) blk_len buf' names names' p' some_bytes
                (omega arith) e in
            rounds buf' p' names' s₂ b.1 (omega (arith, b.0)))

    -- Each block takes a byte or more of the buffer.
    read_chain-Ends :
        (os fuel : ℕ) (buf : List ℕ) (p : ℕ) (names : Names) (s : Stream dos)
        → p ≤ hdr_buf + 1
        → hdr_buf + 1 < p + fuel
        → Ends (read_chain malloc_ok os fuel buf p names s).0
    unfolding read_chain block_at
    read_chain-Ends os zero buf p names s low room = absurd (omega arith)
    read_chain-Ends os (suc fuel) buf p names s low room = elim (Bool-cases (ltb hdr_buf (p + 2))) [
      | inl outside ↦ rw outside fault-Ends
      | inr inside ↦ elim (Bool-cases (get_word buf p == 0)) [
        | inl end ↦ rw (inside, end) done-Ends
        | inr more ↦ elim (Bool-cases (ltb (hdr_buf - (p + 2)) (get_word buf p))) [
          | inl long ↦ rw (inside, more, long) failed-Ends
          | inr fits ↦
              rw (inside, more, fits)
                (Ends-continue (read_exact (get_word buf p) s)
                  (block_at os fuel buf p (get_word buf p) names)
                  (read_exact-Ends (get_word buf p) s)
                  (λ bytes s₁ e.
                    block_at-Ends os fuel buf p (get_word buf p) names bytes s₁
                      (read_chain-Ends os fuel) (ground arith) (ground arith) room))
        ]
      ]
    ]

    read_names-Ends :
        (buf : List ℕ) (header_size : ℕ) (meta : HdrMeta) (s : Stream dos)
        → 2 ≤ header_size
        → header_size ≤ hdr_buf
        → Ends (read_names malloc_ok buf header_size meta s).0
    unfolding read_names
    read_names-Ends buf header_size meta s low high =
        let names₀ : Names = record { filename = meta.filename; comment = none; dirbuf = [] } in
        Ends-continue (read_chain malloc_ok meta.os_id hdr_buf buf header_size names₀ s)
          (λ (names, end). do
            filename ← lift (finish_path malloc_ok names.dirbuf names.filename)
            pure (with_names meta (end - header_size - 2) filename names.comment))
          (read_chain-Ends meta.os_id hdr_buf buf header_size names₀ s (omega arith) (omega arith))
          (λ (names, end) s₁ e.
            Ends-continue (lift (finish_path malloc_ok names.dirbuf names.filename) s₁)
              (λ filename. pure (with_names meta (end - header_size - 2) filename names.comment))
              (finish_path-Ends malloc_ok names.dirbuf names.filename)
              (λ filename s₂ e'. done-Ends))

    read_lhex-Ends :
        (buf : List ℕ) (s : Stream dos)
        → 20 ≤ get_byte buf 0
        → get_byte buf 0 ≤ hdr_buf
        → Ends (read_lhex malloc_ok buf s).0
    unfolding read_lhex
    read_lhex-Ends buf s low high =
        Ends-continue (lift (lhex_meta malloc_ok buf) s)
          (λ meta.
            if meta.header_level == 0 || meta.header_level == 2
            then pure meta
            else read_names malloc_ok buf (get_byte buf 0) meta)
          (lhex_meta-Ends malloc_ok buf)
          (λ meta s₁ e. elim (Bool-cases (meta.header_level == 0 || meta.header_level == 2)) [
            | inl plain ↦ rw plain done-Ends
            | inr chained ↦
                rw chained (read_names-Ends buf (get_byte buf 0) meta s₁ (omega arith) high)
          ])

    read_level2-Ends : (buf : List ℕ) (s : Stream dos) → Ends (read_level2 malloc_ok buf s).0
    unfolding read_level2
    read_level2-Ends buf s e = ground (
      arith,
      level2_names-Ends malloc_ok buf (get_byte buf 0 + get_byte buf 1 * 2 ^ 8),
      read_exact-Ends 1 s,
    )

    -- What the checks of the first byte leave.
    check_len-done :
        (hdr_len : ℕ) (s : Stream dos)
        → (check_len hdr_len s).0 ≡ done tt
        → (20 ≤ hdr_len) × (hdr_len ≤ hdr_buf)
    unfolding check_len
    check_len-done hdr_len s e = ground arith

    check_len-Ends : (hdr_len : ℕ) (s : Stream dos) → Ends (check_len hdr_len s).0
    unfolding check_len
    check_len-Ends hdr_len s e = ground arith

    read_rest-done :
        (h : ℕ) (body : List ℕ) (hdr_len : ℕ) (buf : List ℕ) (s : Stream dos)
        → (read_rest (h ∷ body) hdr_len s).0 ≡ done buf
        → get_byte buf 0 ≡ h
    unfolding read_rest read_more
    read_rest-done h body hdr_len buf s e = ground arith

    read_rest-Ends :
        (buf : List ℕ) (hdr_len : ℕ) (s : Stream dos) → Ends (read_rest buf hdr_len s).0
    unfolding read_rest read_more
    read_rest-Ends buf hdr_len s e = ground (
      arith,
      read_exact-Ends 2 s,
      read_exact-Ends (get_byte buf 0 + get_byte buf 1 * 2 ^ 8 - hdr_len) s,
    )

    -- The steps of `lh_hdr_read` behind the first byte, from the last one on.
    abbrev parse_header : ℕ → List ℕ → Stream dos → Outcome HdrMeta × Stream dos
    parse_header level buf = do
      stop_if (not (get_byte buf 2 == b'-') || not (get_byte buf 6 == b'-')) err_bad_header
      if level == 2 then read_level2 malloc_ok buf else read_lhex malloc_ok buf

    abbrev after_body : ℕ → List ℕ → Stream dos → Outcome HdrMeta × Stream dos
    after_body hdr_len body = do
      buf ← read_rest (hdr_len ∷ body) hdr_len
      parse_header (get_byte (hdr_len ∷ body) 20) buf

    abbrev after_len : ℕ → Stream dos → Outcome HdrMeta × Stream dos
    after_len hdr_len = do body ← read_exact (hdr_len - 1); after_body hdr_len body

    parse_header-Ends :
        (level : ℕ) (buf : List ℕ) (s : Stream dos)
        → 20 ≤ get_byte buf 0
        → get_byte buf 0 ≤ hdr_buf
        → Ends (parse_header level buf s).0
    parse_header-Ends level buf s low high e =
        ground (arith, read_level2-Ends buf s, read_lhex-Ends buf s low high)

    after_len-Ends :
        (hdr_len : ℕ) (s : Stream dos)
        → 20 ≤ hdr_len
        → hdr_len ≤ hdr_buf
        → Ends (after_len hdr_len s).0
    after_len-Ends hdr_len s low high =
        Ends-continue (read_exact (hdr_len - 1) s) (after_body hdr_len)
          (read_exact-Ends (hdr_len - 1) s)
          (λ body s₁ e₁.
            Ends-continue (read_rest (hdr_len ∷ body) hdr_len s₁)
              (parse_header (get_byte (hdr_len ∷ body) 20))
              (read_rest-Ends (hdr_len ∷ body) hdr_len s₁)
              (λ buf s₂ e₂.
                let first = read_rest-done hdr_len body hdr_len buf s₁ e₂ in
                parse_header-Ends (get_byte (hdr_len ∷ body) 20) buf s₂ (omega arith)
                  (omega arith)))

    -- For every stream, whatever its bytes are and whatever its reads return, neither loop of
    -- `lh_hdr_read` over extension blocks comes to the end of its fuel: there is a header, an
    -- error status, or undefined behaviour on the way, and no run without an end.
    pub hdr_read-Ends : (s : Stream dos) → (hdr_read malloc_ok s).0 ≢ out_of_fuel
    unfolding hdr_read
    hdr_read-Ends s =
        Ends-continue (read_exact 1 s)
          (λ first. do check_len (get_byte first 0); after_len (get_byte first 0))
          (read_exact-Ends 1 s)
          (λ first s₁ e₁.
            Ends-continue (check_len (get_byte first 0) s₁) (λ ok. after_len (get_byte first 0))
              (check_len-Ends (get_byte first 0) s₁)
              (λ ok s₂ e₂.
                let b = check_len-done (get_byte first 0) s₁ e₂ in
                after_len-Ends (get_byte first 0) s₂ b.0 b.1))
