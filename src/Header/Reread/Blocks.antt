-- ===== src/Header/Reread/Blocks.antt =====
-- A chain of extension blocks inside a level-2 header, read block by block.
use lhassa.Base.{
  ℕ, zero, suc, ◌+◌, ◌-◌, ◌^◌, ◌%◌, ◌≤◌, ◌<◌, ◌≡◌, refl, sym, ap, ◌∙◌, arith, Bool, false, List, [],
  ◌∷◌, ◌++◌, length, get_or, get_or-append, length-append, ltb, ◌==◌, append_assoc,
}
use lhassa.Outcome.{Outcome, done, failed, fault, out_of_fuel, bind}
use lhassa.Bytes.{read_le16, write_le16, read_le16-write}
use lhassa.Header.{Names, slice}
use lhassa.Header.Reread.{slice-append}
use lhassa.Header.Extensions.{ext_block, read_extensions}

-- The bytes that `lh_hdr_put_ext` writes.
abbrev pub block : ℕ → List ℕ → List ℕ
block ext_type payload = write_le16 ((3 + length payload) % 2 ^ 16) ++ ext_type ∷ payload

-- The bytes of several blocks.
unfoldable pub chain_of : List (ℕ × List ℕ) → List ℕ
chain_of [] = []
chain_of (b ∷ blocks) = block b.0 b.1 ++ chain_of blocks

abbrev pub AreShort : List (ℕ × List ℕ) → Type 0
AreShort [] = Unit {0}
AreShort (b ∷ blocks) = (3 + length b.1 < 2 ^ 16) × AreShort blocks

module _ (malloc_ok : ℕ → Bool) where
  -- What the blocks do, one after another.
  unfoldable pub apply_blocks : List (ℕ × List ℕ) → Names → Outcome Names
  apply_blocks [] names = done names
  apply_blocks (b ∷ blocks) names = bind (ext_block malloc_ok b.0 b.1 names) (apply_blocks blocks)

  -- One round, by what stands at the pointer.
  round :
      (mem payload : List ℕ) (mem_len fuel pos consumed ext_type : ℕ) (names : Names)
      → read_le16 mem pos ≡ 3 + length payload
      → get_or mem (pos + 2) 0 ≡ ext_type
      → slice mem (pos + 3) (length payload) ≡ payload
      → pos + 3 + length payload ≤ mem_len
      → read_extensions malloc_ok mem mem_len (suc fuel) pos consumed names
        ≡ bind (ext_block malloc_ok ext_type payload names) (
            read_extensions malloc_ok mem mem_len fuel
              (pos + 3 + length payload)
              (consumed + 3 + length payload))
  unfolding read_extensions
  round mem payload mem_len fuel pos consumed ext_type names len typ bytes fits =
      let n = length payload in
      let sub : 3 + n - 3 ≡ n = omega arith in
      let some_len : (3 + n == 0) ≡ false = ground arith in
      let long : ltb (3 + n) 3 ≡ false = ground arith in
      let there : ltb mem_len (pos + 2) ≡ false = ground arith in
      let whole : ltb mem_len (pos + 2 + (3 + n) - 3) ≡ false = ground arith in
      rw (len, typ, sub, bytes, there, some_len, long, whole) refl

  round_end :
      (mem : List ℕ) (mem_len fuel pos consumed : ℕ) (names : Names)
      → read_le16 mem pos ≡ 0
      → pos + 2 ≤ mem_len
      → read_extensions malloc_ok mem mem_len (suc fuel) pos consumed names
        ≡ done (names, consumed + 2)
  unfolding read_extensions
  round_end mem mem_len fuel pos consumed names len fits =
      let there : ltb mem_len (pos + 2) ≡ false = ground arith in rw (len, there) refl

  bind_step :
      {A B : Type 0} (r : Outcome A) (f : A → Outcome B) (g : A → Outcome A) (k : A → Outcome B)
      → ((a : A) → f a ≡ bind (g a) k)
      → bind r f ≡ bind (bind r g) k
  bind_step (done a) f g k h = h a
  bind_step (failed st) f g k h = refl
  bind_step fault f g k h = refl
  bind_step out_of_fuel f g k h = refl

  -- A whole chain: its blocks and its end.
  pub read_extensions-chain_of :
      (blocks : List (ℕ × List ℕ)) (pre more mem : List ℕ) (mem_len fuel pos consumed : ℕ)
      (names : Names)
      → AreShort blocks
      → mem ≡ pre ++ (chain_of blocks ++ 0 ∷ 0 ∷ more)
      → mem_len ≡ length mem
      → pos ≡ length pre
      → length blocks < fuel
      → read_extensions malloc_ok mem mem_len fuel pos consumed names
        ≡ bind
            (apply_blocks blocks names)
            (λ names'. done (names', consumed + length (chain_of blocks) + 2))
  unfolding chain_of apply_blocks
  read_extensions-chain_of blocks pre more mem mem_len zero pos consumed names short e size at
        room =
      absurd (omega arith)
  read_extensions-chain_of [] pre more mem mem_len (suc fuel) pos consumed names short e size at
        room =
      round_end mem mem_len fuel pos consumed names
        (ap (λ (m : List ℕ). read_le16 m pos) e ∙ read_le16-write pre more pos 0 at (omega arith))
        (omega (arith, ap length e, length-append pre (0 ∷ 0 ∷ more)))
      ∙ ap (λ (n : ℕ). done (names, n)) {x = consumed + 2} {y = consumed + 0 + 2} (omega arith)
  read_extensions-chain_of (b ∷ blocks) pre more mem mem_len (suc fuel) pos consumed names short e
        size at room =
      let n = length b.1 in
      let start = write_le16 ((3 + n) % 2 ^ 16) in
      let behind = chain_of blocks ++ 0 ∷ 0 ∷ more in
      let split : mem ≡ pre ++ (start ++ b.0 ∷ (b.1 ++ behind)) =
        e
        ∙ ap (λ (l : List ℕ). pre ++ (start ++ b.0 ∷ l))
            (append_assoc b.1 (chain_of blocks) (0 ∷ 0 ∷ more)) in
      let total : length mem ≡ length pre + (3 + (n + length behind)) = omega (
        arith,
        ap length split,
        length-append pre (start ++ b.0 ∷ (b.1 ++ behind)),
        length-append b.1 behind,
      ) in
      let pre' = pre ++ block b.0 b.1 in
      let split' : mem ≡ pre' ++ behind = split ∙ sym (append_assoc pre (block b.0 b.1) behind) in
      round mem b.1 mem_len fuel pos consumed b.0 names
        (ap (λ (m : List ℕ). read_le16 m pos) split
          ∙ read_le16-write pre (b.0 ∷ (b.1 ++ behind)) pos ((3 + n) % 2 ^ 16) at (omega arith)
          ∙ omega arith)
        (ap (λ (m : List ℕ). get_or m (pos + 2) 0) split
          ∙ get_or-append pre (start ++ b.0 ∷ (b.1 ++ behind)) (pos + 2) 2 0 (omega arith))
        (ap (λ (m : List ℕ). slice m (pos + 3) n)
            (split ∙ sym (append_assoc pre (start ++ b.0 ∷ []) (b.1 ++ behind)))
          ∙ slice-append (pre ++ (start ++ b.0 ∷ [])) b.1 behind (pos + 3) n
              (omega (arith, length-append pre (start ++ b.0 ∷ []))) refl)
        (omega arith)
      ∙ bind_step (ext_block malloc_ok b.0 b.1 names) _ (apply_blocks blocks) _ (λ names'.
        read_extensions-chain_of blocks pre' more mem mem_len fuel (pos + 3 + n) (consumed + 3 + n)
          names' short.1 split' size (omega (arith, length-append pre (block b.0 b.1)))
          (omega arith)
        ∙ ap (λ (c : ℕ). bind (apply_blocks blocks names') (λ last. done (last, c)))
            {x = consumed + 3 + n + length (chain_of blocks) + 2}
            {y = consumed + length (block b.0 b.1 ++ chain_of blocks) + 2}
            (omega (arith, length-append b.1 (chain_of blocks))))
