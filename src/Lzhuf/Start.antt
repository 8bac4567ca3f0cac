-- ===== src/Lzhuf/Start.antt =====
-- The links of the first tree: `lhz_start_huff_enc` of Source/src/lh_lzhuf.c.
use lhassa.Base.{
  ℕ, ◌+◌, ◌-◌, ◌%◌, ◌<◌, ◌≡◌, refl, ltb, ltb→lt, lt→ltb, ◌==◌, ==_iff, ◌&&◌, Bool, if◌then◌else◌,
  true, false, all_below, all_below_sound,
}
use lhassa.Lzhuf.{Tree, table_size, root, start_huff}
use lhassa.Lzhuf.Links.{IsLinked}

node_ok : Tree → ℕ → Bool
node_ok t m = ltb (t.prnt m) table_size && t.son (t.prnt m) == m - m % 2

leaf_ok : Tree → ℕ → Bool
leaf_ok t x =
    ltb (t.prnt (x + table_size)) table_size && t.son (t.prnt (x + table_size)) == x + table_size

even_ok : Tree → ℕ → Bool
even_ok t k = if ltb (t.son k) table_size then (t.son k % 2 == 0 && ltb (t.son k) root) else true

nodes_ok : (t : Tree) → all_below 626 (node_ok (start_huff t)) ≡ true
unfolding node_ok start_huff all_below
nodes_ok t = refl

leaves_ok : (t : Tree) → all_below 314 (leaf_ok (start_huff t)) ≡ true
unfolding leaf_ok start_huff all_below
leaves_ok t = refl

evens_ok : (t : Tree) → all_below table_size (even_ok (start_huff t)) ≡ true
unfolding even_ok start_huff all_below
evens_ok t = refl

top_ok : (t : Tree) → (start_huff t).prnt root ≡ 0
unfolding start_huff
top_ok t = refl

both : (a b : Bool) → (a && b) ≡ true → (a ≡ true) × (b ≡ true)
both true true e = (refl, refl)
both true false e = absurd (cc)
both false b e = absurd (cc)

node_holds :
    (t : Tree) (m : ℕ)
    → node_ok t m ≡ true
    → (t.prnt m < table_size) × (t.son (t.prnt m) ≡ m - m % 2)
unfolding node_ok
node_holds t m e =
    let (inside, back) = both _ _ e in
    (ltb→lt (t.prnt m) table_size inside, (==_iff (t.son (t.prnt m)) (m - m % 2)).0 back)

leaf_holds :
    (t : Tree) (x : ℕ)
    → leaf_ok t x ≡ true
    → (t.prnt (x + table_size) < table_size) × (t.son (t.prnt (x + table_size)) ≡ x + table_size)
unfolding leaf_ok
leaf_holds t x e =
    let (inside, back) = both _ _ e in
    (
      ltb→lt (t.prnt (x + table_size)) table_size inside,
      (==_iff (t.son (t.prnt (x + table_size))) (x + table_size)).0 back,
    )

even_holds :
    (t : Tree) (k : ℕ)
    → even_ok t k ≡ true
    → t.son k < table_size
    → (t.son k % 2 ≡ 0) × (t.son k < root)
unfolding even_ok
even_holds t k e small =
    let (even, below) = both _ _ (rw (lt→ltb (t.son k) table_size small) at e) in
    ((==_iff (t.son k % 2) 0).0 even, ltb→lt (t.son k) root below)

-- Whatever the arrays held before, the tree of `lhz_start_huff_enc` is linked.
pub start_huff-IsLinked : (t : Tree) → IsLinked (start_huff t)
start_huff-IsLinked t = record {
  node = λ m h. node_holds (start_huff t) m (all_below_sound 626 _ m (nodes_ok t) h);
  leaf = λ x h. leaf_holds (start_huff t) x (all_below_sound 314 _ x (leaves_ok t) h);
  even = λ k h. even_holds (start_huff t) k (all_below_sound table_size _ k (evens_ok t) h);
  top = top_ok t;
}
