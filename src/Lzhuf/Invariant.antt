-- ===== src/Lzhuf/Invariant.antt =====
-- Counting a character keeps the links of the tree of Source/src/lh_lzhuf.c.
use mathlib.Core.Path.{subst}
use lhassa.Base.{
  ℕ, zero, suc, ◌+◌, ◌-◌, ◌%◌, ◌^◌, ◌≤◌, ◌<◌, ◌≡◌, ◌≢◌, refl, sym, ap, ◌∙◌, inl, inr, arith, ltb,
  lt→ltb, le→ltb, ltb→lt, ltb-false→le, ◌⊎◌, ◌==◌, Bool, store, Bool-cases, if◌then◌else◌, ==_iff,
  true, false,
}
use lhassa.Outcome.{Outcome, done, bind-eq-done, done-injective}
use lhassa.Lzhuf.{
  Tree, table_size, root, set_parent, swap, place_above, count_node, update_loop, count_char,
  update,
}
use lhassa.Lzhuf.Links.{IsLinked}

-- The value of `son` that leads to a place of `prnt`: a pair of nodes shares it.
owner : ℕ → ℕ
owner m = if ltb m table_size then m - m % 2 else m

abbrev IsSon : ℕ → Type 0
IsSon i = ((i < root) × (i % 2 ≡ 0)) ⊎ (table_size ≤ i)

set_parent_lem :
    (prnt : ℕ → ℕ) (i l m : ℕ)
    → IsSon i
    → set_parent prnt i l m ≡ (if owner m == i then l else prnt m)
unfolding set_parent owner
set_parent_lem prnt i l m (inl (small, even)) =
    let here = lt→ltb i table_size (omega arith) in rw here (ground arith)
set_parent_lem prnt i l m (inr large) =
    let here = le→ltb i table_size large in rw here (ground arith)

refl_true : (n : ℕ) → (n == n) ≡ true
refl_true n = (==_iff n n).1 refl

clash : {x y : ℕ} → (x == y) ≡ false → x ≢ y
clash off same = absurd (let on = (==_iff _ _).1 same in let no = sym off ∙ on in cc)

differs : (x y : ℕ) → x ≢ y → (x == y) ≡ false
differs x y apart = elim (Bool-cases (x == y)) [
  | inl same ↦ absurd (apart ((==_iff x y).0 same))
  | inr off ↦ off
]

module _ (t : Tree) (linked : IsLinked t) where
  son-IsSon : (k : ℕ) → k < table_size → IsSon (t.son k)
  son-IsSon k h = elim (Bool-cases (ltb (t.son k) table_size)) [
    | inl small ↦
        let (even, below) = linked.even k h (ltb→lt (t.son k) table_size small) in inl (below, even)
    | inr large ↦ inr (ltb-false→le (t.son k) table_size large)
  ]

  module _ (k c l : ℕ) (c_in : c < table_size) (l_in : l < table_size) where
    prnt-swap :
        (m : ℕ)
        → (swap k c l t).prnt m
          ≡ (if owner m == t.son l then c else if owner m == t.son c then l else t.prnt m)
    unfolding swap
    prnt-swap m =
        set_parent_lem (set_parent t.prnt (t.son c) l) (t.son l) c m (son-IsSon l l_in)
        ∙ ap (λ (x : ℕ). if owner m == t.son l then c else x)
            (set_parent_lem t.prnt (t.son c) l m (son-IsSon c c_in))

    -- Where a pair or a leaf `f` hangs once the nodes `c` and `l` have changed places.
    place_of : ℕ → ℕ → ℕ
    place_of f q = if f == t.son l then c else if f == t.son c then l else q

    son-place_of :
        (f q : ℕ)
        → q < table_size
        → t.son q ≡ f
        → (place_of f q < table_size) × ((swap k c l t).son (place_of f q) ≡ f)
    unfolding place_of swap
    son-place_of f q inside back = elim (Bool-cases (f == t.son l)) [
      | inl at_l ↦ rw at_l (c_in, rw (refl_true c) (sym ((==_iff f (t.son l)).0 at_l)))
      | inr off_l ↦ elim (Bool-cases (f == t.son c)) [
        | inl at_c ↦
            let apart =
              differs l c λ e. clash off_l ((==_iff f (t.son c)).0 at_c ∙ ap t.son (sym e)) in
            rw (off_l, at_c) (l_in, rw (apart, refl_true l) (sym ((==_iff f (t.son c)).0 at_c)))
        | inr off_c ↦
            let not_c = differs q c λ e. clash off_c (sym back ∙ ap t.son e) in
            let not_l = differs q l λ e. clash off_l (sym back ∙ ap t.son e) in
            rw (off_l, off_c) (inside, rw (not_c, not_l) back)
      ]
    ]

    moved_back :
        (m f : ℕ)
        → owner m ≡ f
        → t.prnt m < table_size
        → t.son (t.prnt m) ≡ f
        → ((swap k c l t).prnt m < table_size) × ((swap k c l t).son ((swap k c l t).prnt m) ≡ f)
    unfolding place_of
    moved_back m f own inside back =
        let (small, there) = son-place_of f (t.prnt m) inside back in
        let at : (swap k c l t).prnt m ≡ place_of f (t.prnt m) =
          prnt-swap m ∙ ap (λ (x : ℕ). place_of x (t.prnt m)) own in
        rw at (small, there)

    even_moved :
        (x : ℕ)
        → x < table_size
        → (swap k c l t).son x < table_size
        → ((swap k c l t).son x % 2 ≡ 0) × ((swap k c l t).son x < root)
    unfolding swap
    even_moved x x_in small = elim (Bool-cases (x == c)) [
      | inl at_c ↦ rw at_c (linked.even l l_in (rw at_c at small))
      | inr off_c ↦ elim (Bool-cases (x == l)) [
        | inl at_l ↦ rw (off_c, at_l) (linked.even c c_in (rw (off_c, at_l) at small))
        | inr off_l ↦ rw (off_c, off_l) (linked.even x x_in (rw (off_c, off_l) at small))
      ]
    ]

    -- The root is in no pair below another node and is no leaf.
    top_stays : (swap k c l t).prnt root ≡ 0
    unfolding owner
    top_stays =
        let off = λ (n : ℕ) (n_in : n < table_size). differs root (t.son n) (off_root n n_in) in
        prnt-swap root ∙ rw (off l l_in, off c c_in) linked.top
      where
        off_root : (n : ℕ) → n < table_size → root ≢ t.son n
        off_root n n_in = elim (son-IsSon n n_in) [
          | inl (small, even) ↦ omega arith
          | inr large ↦ omega arith
        ]

    swap-IsLinked : IsLinked (swap k c l t)
    unfolding owner
    swap-IsLinked = record {
      node = λ m h.
          let (inside, back) = linked.node m h in
          moved_back m (m - m % 2) (rw (lt→ltb m table_size (omega arith)) refl) inside back;
      leaf = λ x h.
          let (inside, back) = linked.leaf x h in
          moved_back (x + table_size) (x + table_size)
            (rw (le→ltb (x + table_size) table_size (omega arith)) refl) inside back;
      even = even_moved;
      top = top_stays;
    }

place_above-le : (freq : ℕ → ℕ) (k n l p : ℕ) → place_above freq k n l ≡ done p → p ≤ l + n
unfolding place_above
place_above-le freq k zero l p e = absurd (cc)
place_above-le freq k (suc n) l p e = elim (Bool-cases (ltb (freq (l + 1)) k)) [
  | inl on ↦ omega (arith, place_above-le freq k n (l + 1) p (rw on at e))
  | inr off ↦ omega (arith, done-injective (rw off at e))
]

-- Only the links count.
recount : (t : Tree) (freq : ℕ → ℕ) → IsLinked t → IsLinked (record t { freq = freq })
recount t freq linked = record {
  node = linked.node;
  leaf = linked.leaf;
  even = linked.even;
  top = linked.top;
}

abbrev Kept : Tree × ℕ → Type 0
Kept (t, c) = IsLinked t × (c < table_size)

count_node-IsLinked :
    (c : ℕ) (t : Tree) (r : Tree × ℕ)
    → c < table_size
    → IsLinked t
    → count_node c t ≡ done r
    → Kept r
unfolding count_node
count_node-IsLinked c t r inside linked e =
    let k = (t.freq c + 1) % 2 ^ 16 in
    let freq = store t.freq c k in
    let u : Tree = record t { freq = freq } in
    let linked' = recount t freq linked in
    elim (Bool-cases (ltb (freq (c + 1)) k)) [
      | inl on ↦
          let (l, found, rest) =
            bind-eq-done (place_above freq k (table_size - c - 1) (c + 1)) _ (rw on at e) in
          let few = place_above-le freq k (table_size - c - 1) (c + 1) l found in
          let small : l - 1 < table_size = omega (arith, few, inside) in
          subst Kept (done-injective rest) (swap-IsLinked u linked' k c (l - 1) inside small, small)
      | inr off ↦ subst Kept (done-injective (rw off at e)) (linked', inside)
    ]

update_loop-IsLinked :
    (fuel c : ℕ) (t t' : Tree)
    → c < table_size
    → IsLinked t
    → update_loop fuel c t ≡ done t'
    → IsLinked t'
unfolding update_loop
update_loop-IsLinked zero c t t' inside linked e = absurd (cc)
update_loop-IsLinked (suc fuel) c t t' inside linked e =
    let (r, counted, rest) = bind-eq-done (count_node c t) _ e in
    let (linked', p_in) = count_node-IsLinked c t r inside linked counted in
    elim (Bool-cases (r.0.prnt r.1 == 0)) [
      | inl on ↦ subst IsLinked (done-injective (rw on at rest)) linked'
      | inr off ↦
          update_loop-IsLinked fuel (r.0.prnt r.1) r.0 t' (up_in r.0 r.1 linked' p_in) linked'
            (rw off at rest)
    ]
  where
    up_in : (t : Tree) (p : ℕ) → IsLinked t → p < table_size → t.prnt p < table_size
    up_in t p linked p_in = elim (Bool-cases (p == root)) [
      | inl on ↦ rw ((==_iff p root).0 on, linked.top) (omega arith)
      | inr off ↦ (linked.node p (omega (arith, clash off))).0
    ]

direct : (test : Bool) (a b : Outcome Tree) → test ≡ false → (if test then a else b) ≡ b
direct true a b off = absurd (cc)
direct false a b off = refl

-- Where `lhz_update_enc` counts a character and the root's frequency has not reached `LHZ_MAX_FREQ`,
-- so that the tree is not built again, a linked tree is linked afterwards.
pub update-IsLinked :
    (c : ℕ) (t t' : Tree)
    → c < 314
    → IsLinked t
    → t.freq root ≢ 0x8000
    → update c t ≡ done t'
    → IsLinked t'
unfolding update count_char
update-IsLinked c t t' char linked low e =
    update_loop-IsLinked table_size (t.prnt (c + table_size)) t t' (linked.leaf c char).0 linked
      (sym (direct (t.freq root == 0x8000) _ _ (differs (t.freq root) 0x8000 low)) ∙ e)
