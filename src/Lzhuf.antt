-- ===== src/Lzhuf.antt =====
-- The adaptive Huffman tree of Source/src/lh_lzhuf.c (LhEncode and LhDecode): `lhz_start_huff_enc`,
-- `lhz_reconst_enc` and `lhz_update_enc`, and their twins for decoding, which have the same bodies
-- over the same arrays: `freq` has 628 elements, `prnt` 941 and `son` 627.
pub mod Table
pub mod Bits
pub mod Links
pub mod Start
pub mod Invariant
pub mod PositionCode
pub mod Dictionary
pub mod Encode
pub mod Decode
pub mod History
pub mod Steps
use lhassa.Base.{ℕ, zero, suc, ◌+◌, ◌-◌, ◌/◌, ◌%◌, ◌^◌, store, ltb, leb, ◌==◌, if◌then◌else◌, ◌&&◌}
use lhassa.Outcome.{Outcome, done, fault, out_of_fuel, bind}

-- `LHZ_N_CHAR`, `LHZ_T` and `LHZ_R`
abbrev pub n_char : ℕ
n_char = 314

abbrev pub table_size : ℕ
table_size = 627

abbrev pub root : ℕ
root = 626

pub record Tree : Type 0 where
  pub freq : ℕ → ℕ
  pub prnt : ℕ → ℕ
  pub son : ℕ → ℕ

-- `for (i = 0; i < LHZ_N_CHAR; i++)`: the leaves.
pub leaf_loop : ℕ → ℕ → Tree → Tree
leaf_loop zero i t = t
leaf_loop (suc rounds) i t = leaf_loop rounds (i + 1) (record {
  freq = store t.freq i 1;
  son = store t.son i (i + table_size);
  prnt = store t.prnt (i + table_size) i;
})

-- `while (j <= LHZ_R)`: a node over each two nodes.
pub node_loop : ℕ → ℕ → ℕ → Tree → Tree
node_loop zero i j t = t
node_loop (suc rounds) i j t = node_loop rounds (i + 2) (j + 1) (record {
  freq = store t.freq j ((t.freq i + t.freq (i + 1)) % 2 ^ 16);
  son = store t.son j i;
  prnt = store (store t.prnt i j) (i + 1) j;
})

-- `lhz_start_huff_enc`
unfoldable pub start_huff : Tree → Tree
unfolding leaf_loop node_loop
start_huff t =
    let t' = node_loop 313 0 n_char (leaf_loop n_char 0 t) in
    record t' { freq = store t'.freq table_size 0xffff; prnt = store t'.prnt root 0 }

-- The leaves to the front, with half their frequencies: `i` and `j` of the first loop of
-- `lhz_reconst_enc`.
pub gather_loop : ℕ → ℕ → ℕ → Tree → Tree
gather_loop zero i j t = t
gather_loop (suc rounds) i j t =
    let is_leaf = leb table_size (t.son i) in
    let t' : Tree = record t {
      freq = store t.freq j ((t.freq i + 1) / 2 % 2 ^ 16);
      son = store t.son j (t.son i);
    } in
    gather_loop rounds (i + 1) (if is_leaf then j + 1 else j) (if is_leaf then t' else t)

-- `while (f < freq[k]) k--;`, from `k` down.
pub place_below : (ℕ → ℕ) → ℕ → ℕ → Outcome ℕ
place_below freq f zero = if ltb f (freq zero) then fault else done zero
place_below freq f (suc k) =
    let rest = place_below freq f k in if ltb f (freq (suc k)) then rest else done (suc k)

-- `lhz_move_words(&a[k + 1], &a[k], j - k)` and `a[k] = v`
pub insert_at : (ℕ → ℕ) → ℕ → ℕ → ℕ → ℕ → ℕ
insert_at a k j v x = if x == k then v else if ltb k x && leb x j then a (x - 1) else a x

-- The nodes in the order of their frequencies: the second loop.
pub insert_loop : ℕ → ℕ → ℕ → Tree → Outcome Tree
unfolding place_below insert_at
insert_loop zero i j t = done t
insert_loop (suc rounds) i j t =
    let f = t.freq i + t.freq (i + 1) in
    let freq = store t.freq j (f % 2 ^ 16) in
    bind (place_below freq f (j - 1)) λ k.
      insert_loop rounds (i + 2) (j + 1) (record t {
        freq = insert_at freq (k + 1) j (f % 2 ^ 16);
        son = insert_at t.son (k + 1) j i;
      })

-- The parents: the third loop.
pub parent_loop : ℕ → ℕ → Tree → Tree
parent_loop zero i t = t
parent_loop (suc rounds) i t =
    let k = t.son i in
    let prnt = if leb table_size k then store t.prnt k i else store (store t.prnt k i) (k + 1) i in
    parent_loop rounds (i + 1) (record t { prnt = prnt })

-- `lhz_reconst_enc`
unfoldable pub reconst : Tree → Outcome Tree
unfolding gather_loop insert_loop parent_loop
reconst t =
    bind (insert_loop 313 0 n_char (gather_loop table_size 0 0 t))
      λ t'. done (parent_loop table_size 0 t')

-- `while (k > freq[++l])`: the first place behind `l` whose frequency is not below `k`; the array ends
-- with 0xffff.
pub place_above : (ℕ → ℕ) → ℕ → ℕ → ℕ → Outcome ℕ
place_above freq k zero l = fault
place_above freq k (suc rounds) l =
    let rest = place_above freq k rounds (l + 1) in
    if ltb (freq (l + 1)) k then rest else done (l + 1)

-- `prnt[i] = l; if (i < LHZ_T) prnt[i + 1] = l;`
unfoldable pub set_parent : (ℕ → ℕ) → ℕ → ℕ → ℕ → ℕ
set_parent prnt i l = if ltb i table_size then store (store prnt i l) (i + 1) l else store prnt i l

-- The nodes `c` and `l` change places.
unfoldable pub swap : ℕ → ℕ → ℕ → Tree → Tree
unfolding set_parent
swap k c l t =
    let i = t.son c in
    let j = t.son l in
    record {
      freq = store (store t.freq c (t.freq l)) l k;
      prnt = set_parent (set_parent t.prnt i l) j c;
      son = store (store t.son l i) c j;
    }

-- One more for the node `c`: the tree and the node's new place.
unfoldable pub count_node : ℕ → Tree → Outcome (Tree × ℕ)
unfolding place_above swap
count_node c t =
    let k = (t.freq c + 1) % 2 ^ 16 in
    let t' : Tree = record t { freq = store t.freq c k } in
    if ltb (t'.freq (c + 1)) k
    then (bind (place_above t'.freq k (table_size - c - 1) (c + 1))
        λ l. done (swap k c (l - 1) t', l - 1))
    else done (t', c)

-- `do { ... c = prnt[c]; } while (c != 0);`
unfoldable pub update_loop : ℕ → ℕ → Tree → Outcome Tree
unfolding count_node
update_loop zero c t = out_of_fuel
update_loop (suc fuel) c t = bind (count_node c t) λ (t', c').
    let up = t'.prnt c' in let rest = update_loop fuel up t' in if up == 0 then done t' else rest

-- `lhz_update_enc`, from `c = prnt[c + LHZ_T]` on
unfoldable pub count_char : ℕ → Tree → Outcome Tree
unfolding update_loop
count_char c t = update_loop table_size (t.prnt (c + table_size)) t

-- `lhz_update_enc`; 0x8000 is `LHZ_MAX_FREQ`.
unfoldable pub update : ℕ → Tree → Outcome Tree
unfolding count_char reconst
update c t =
    if t.freq root == 0x8000 then (bind (reconst t) λ t'. count_char c t') else count_char c t
