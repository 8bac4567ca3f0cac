-- ===== src/Lzhuf/Links.antt =====
-- The links of the tree of Source/src/lh_lzhuf.c: a walk from the root over the bits that the encoder
-- writes for a character comes to that character.
use native.Mathlib.Nat.{
  pow-suc, div-div-eq-div-mul, mul_assoc, add-mul, mul-add-div_right, zero-div, pow-succ',
}
use lhassa.Bytes.{IsByte}
use lhassa.Base.{
  ℕ, zero, suc, ◌+◌, ◌-◌, ◌*◌, ◌/◌, ◌%◌, ◌^◌, ◌≤◌, ◌<◌, ◌≡◌, ◌≢◌, refl, sym, ap, ◌∙◌, inl, inr,
  List, All, arith, lt→ltb, le→ltb, ◌==◌, ==_iff, Bool-cases, pow-add, pow_pos, high_part, false,
}
use lhassa.Outcome.{Outcome, done}
use lhassa.Lh5.Stream.{bits, bits-add, bits-lt}
use lhassa.Lzhuf.{Tree, table_size, root}
use lhassa.Lzhuf.Bits.{Input, getbit}
use lhassa.Lzhuf.Bits.Positions.{IsAt, getbit-bits}
use lhassa.Lzhuf.Encode.{climb}
use lhassa.Lzhuf.Decode.{walk_down, find_char}

-- `son` leads to a pair of nodes or to a leaf, and `prnt` leads back from both; that of the root is 0,
-- at which `lhz_update_enc` ends.
pub record IsLinked (t : Tree) : Type 0 where
  pub node : (m : ℕ) → m < root → (t.prnt m < table_size) × (t.son (t.prnt m) ≡ m - m % 2)
  pub leaf :
      (x : ℕ)
      → x < 314
      → (t.prnt (x + table_size) < table_size) × (t.son (t.prnt (x + table_size)) ≡ x + table_size)
  pub even : (k : ℕ) → k < table_size → t.son k < table_size → (t.son k % 2 ≡ 0) × (t.son k < root)
  pub top : t.prnt root ≡ 0

module _ (prnt : ℕ → ℕ) where
  -- The bits of the way down to the node `k`, whose last `n` nodes are meant.
  path : ℕ → ℕ → ℕ
  path zero k = 0
  path (suc n) k = path n (prnt k) * 2 + k % 2

  -- The root is `n` steps above the node `k`, and not before.
  abbrev Below : ℕ → ℕ → Type 0
  Below zero k = k ≡ root
  Below (suc n) k = (k ≢ root) × Below n (prnt k)

  half_power : (n b x : ℕ) → n ≤ 15 → (x + b * 2 ^ 15) / 2 ^ n ≡ b * 2 ^ (15 - n) + x / 2 ^ n
  half_power n b x h =
      let e : 15 ≡ 15 - n + n = omega arith in
      let split : x + b * 2 ^ 15 ≡ b * 2 ^ (15 - n) * 2 ^ n + x = omega (
        arith,
        ap (λ (t : ℕ). b * 2 ^ t) e,
        ap (λ (t : ℕ). b * t) (pow-add (15 - n) n),
        mul_assoc b (2 ^ (15 - n)) (2 ^ n),
      ) in
      ap (λ (t : ℕ). t / 2 ^ n) split
      ∙ mul-add-div_right {m = 2 ^ n} (pow_pos n) (b * 2 ^ (15 - n)) x

  pair_parts :
      {a b c d : ℕ} → ◌≡◌ {A = Outcome (ℕ × ℕ)} (done (a, b)) (done (c, d)) → (a ≡ c) × (b ≡ d)
  pair_parts e = (cc, cc)

  climb-lt : (fuel k i j code jj : ℕ) → climb fuel k i j prnt ≡ done (code, jj) → j < jj
  unfolding climb
  climb-lt zero k i j code jj e = absurd (cc)
  climb-lt (suc fuel) k i j code jj e = elim (Bool-cases (prnt k == root)) [
    | inl top ↦ omega (arith, (pair_parts (rw top at e)).1)
    | inr more ↦
        omega
          (arith, climb-lt fuel (prnt k) (i / 2 + k % 2 * 2 ^ 15) (j + 1) code jj (rw more at e))
  ]

  -- One more bit at the upper end.
  add_bit :
      (n p b i code : ℕ)
      → n ≤ 15
      → code ≡ p * 2 ^ (16 - n) + (i / 2 + b * 2 ^ 15) / 2 ^ n
      → code ≡ (p * 2 + b) * 2 ^ (16 - suc n) + i / 2 ^ suc n
  add_bit n p b i code h e =
      let width : 16 - n ≡ suc (15 - n) = omega arith in
      let less : 16 - suc n ≡ 15 - n = omega arith in
      let s = 2 ^ (15 - n) in
      let double : 2 ^ (16 - n) ≡ 2 * s =
        ap (λ (t : ℕ). 2 ^ t) width ∙ pow-suc 2 (15 - n) ∙ omega arith in
      let tail : i / 2 / 2 ^ n ≡ i / 2 ^ suc n =
        div-div-eq-div-mul i 2 (2 ^ n) ∙ ap (λ (t : ℕ). i / t) (sym (pow-succ' 2 n)) in
      rw less (
        omega (
          arith,
          e,
          half_power n b (i / 2) h,
          tail,
          ap (λ (t : ℕ). p * t) double,
          mul_assoc p 2 s,
          add-mul (p * 2) b s,
        ))

  -- What the climb from `k` collects: the path's bits at the upper end, above those it began with.
  climb-path :
      (fuel k i j n code jj : ℕ)
      → climb fuel k i j prnt ≡ done (code, jj)
      → k ≢ root
      → jj ≡ j + n
      → n ≤ 16
      → Below n k × (code ≡ path n k * 2 ^ (16 - n) + i / 2 ^ n)
  unfolding climb path
  climb-path zero k i j n code jj e inner total few = absurd (cc)
  climb-path (suc fuel) k i j zero code jj e inner total few =
      absurd (omega (arith, climb-lt (suc fuel) k i j code jj e))
  climb-path (suc fuel) k i j (suc n) code jj e inner total few =
      elim (Bool-cases (prnt k == root)) [
        | inl top ↦
            let (value, count) = pair_parts (rw top at e) in
            let last : n ≡ 0 = omega (arith, count) in
            rw last (
              (inner, (==_iff (prnt k) root).0 top),
              add_bit 0 0 (k % 2) i code (omega arith) (sym value ∙ omega arith),
            )
        | inr more ↦
            let (below, rest) =
              climb-path fuel (prnt k) (i / 2 + k % 2 * 2 ^ 15) (j + 1) n code jj (rw more at e)
                (λ at. clash more at) (omega arith) (omega arith) in
            ((inner, below), add_bit n (path n (prnt k)) (k % 2) i code (omega arith) rest)
      ]
    where
      clash : {x : ℕ} → (x == root) ≡ false → x ≢ root
      clash differs same =
          absurd (let yes' = (==_iff _ root).1 same in let no' = sym differs ∙ yes' in cc)

module _ (input : List ℕ) (bytes : All IsByte input) (t : Tree) (linked : IsLinked t) where
  abbrev Walks : ℕ → ℕ → ℕ → Input → ℕ → ℕ → Type 0
  Walks fuel c pos d f k =
      (m : ℕ) × (d' : Input) × (walk_down fuel c t d ≡ walk_down f (t.son k) t d')
      × IsAt input pos m d'

  walk_step :
      (f c b : ℕ) (d d' : Input)
      → c < table_size
      → getbit d ≡ (b, d')
      → walk_down (suc f) c t d ≡ walk_down f (t.son (c + b)) t d'
  unfolding walk_down
  walk_step f c b d d' inner read = rw (lt→ltb c table_size inner, read) refl

  walk_path :
      (n k f fuel pos m : ℕ) (d : Input)
      → k < table_size
      → Below t.prnt n k
      → fuel ≡ n + f
      → bits input pos n ≡ path t.prnt n k
      → IsAt input pos m d
      → Walks fuel (t.son root) (pos + n) d f k
  unfolding path bits
  walk_path zero k f fuel pos m d inner below total same at =
      let here : pos + 0 ≡ pos = omega arith in
      let whole : fuel ≡ f = omega arith in rw (here, whole, below) (m, d, refl, at)
  walk_path (suc n) k f fuel pos m d inner below total same at =
      let (not_root, above) = below in
      let child : k < root = omega (arith, not_root) in
      let (up, back) = linked.node k child in
      let one = bits-lt input (pos + n) 1 in
      let split = bits-add input pos n 1 in
      let next : n + 1 ≡ suc n = omega arith in
      let whole : bits input pos n * 2 + bits input (pos + n) 1
          ≡ path t.prnt n (t.prnt k) * 2 + k % 2 =
        omega (arith, split, ap (bits input pos) next, same) in
      let upper : bits input pos n ≡ path t.prnt n (t.prnt k) = omega (arith, whole, one) in
      let lower : bits input (pos + n) 1 ≡ k % 2 = omega (arith, whole, one) in
      let (m', d', walked, at') =
        walk_path n (t.prnt k) (suc f) fuel pos m d up above (omega arith) upper at in
      let (m'', d'', read, at'') = getbit-bits input bytes (pos + n) m' d' at' in
      let pair : t.son (t.prnt k) + bits input (pos + n) 1 ≡ k = omega (arith, back, lower) in
      let small : t.son (t.prnt k) < table_size = omega (arith, back) in
      let place : pos + n + 1 ≡ pos + suc n = omega arith in
      rw (← place) (
        m'',
        d'',
        walked
            ∙ walk_step f (t.son (t.prnt k)) (bits input (pos + n) 1) d' d'' small read
            ∙ ap (λ (x : ℕ). walk_down f (t.son x) t d'') pair,
        at'',
      )

  walk_end : (f c : ℕ) (d : Input) → walk_down (suc f) (c + table_size) t d ≡ done (c, d)
  unfolding walk_down
  walk_end f c d =
      let back : c + table_size - table_size ≡ c = omega arith in
      rw (le→ltb (c + table_size) table_size (omega arith), back) refl

  -- In a linked tree: where the climb of `lhz_encode_char` from the leaf of a character, which is not
  -- the root, ends at the root with a code of at most 16 bits, and these bits stand at the place of
  -- the reader, the walk of `lhz_decode_char` gives this character and stops behind the bits.
  pub find_char-climb :
      (c code j pos m : ℕ) (d : Input)
      → c < 314
      → t.prnt (c + table_size) ≢ root
      → climb table_size (t.prnt (c + table_size)) 0 0 t.prnt ≡ done (code, j)
      → j ≤ 16
      → IsAt input pos m d
      → bits input pos j ≡ code / 2 ^ (16 - j)
      → (m' : ℕ) × (d' : Input) × (find_char t d ≡ done (c, d')) × IsAt input (pos + j) m' d'
  unfolding find_char
  find_char-climb c code j pos m d char inner climbs few at same =
      let k = t.prnt (c + table_size) in
      let (small, leaf) = linked.leaf c char in
      let (below, value) =
        climb-path t.prnt table_size k 0 0 j code j climbs inner (omega arith) few in
      let whole : code ≡ path t.prnt j k * 2 ^ (16 - j) + 0 =
        omega (arith, value, zero-div (2 ^ j)) in
      let bits_of : bits input pos j ≡ path t.prnt j k =
        same
        ∙ ap (λ (x : ℕ). x / 2 ^ (16 - j)) whole
        ∙ high_part (path t.prnt j k) 0 (pow_pos (16 - j)) in
      let (m', d', walked, at') =
        walk_path j k (suc (627 - j)) (table_size + 1) pos m d small below (omega arith) bits_of
          at in
      (
        m',
        d',
        walked ∙ ap (λ (x : ℕ). walk_down (suc (627 - j)) x t d') leaf ∙ walk_end (627 - j) c d',
        at',
      )
