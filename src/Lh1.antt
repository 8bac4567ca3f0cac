-- ===== src/Lh1.antt =====
-- The adaptive Huffman tree of the LH1 decompressor, Source/src/lh_lh1dec.c: `struct lh1_dec` with its
-- groups of nodes of one frequency, `lh1_init_tree` and what counts a code. An array of nodes is a
-- function of the index for each field. Indices are checked where a pointer runs down an array.
pub mod Rebuild
pub mod Bits
pub mod Offsets
pub mod Decode
pub mod SameCodes
pub mod Rounds
use lhassa.Base.{ℕ, zero, suc, ◌+◌, ◌-◌, ◌%◌, ◌^◌, store, ltb, ◌==◌, if◌then◌else◌, ◌&&◌}

pub record Tree : Type 0 where
  pub leaf : ℕ → ℕ
  pub child_index : ℕ → ℕ
  pub parent : ℕ → ℕ
  pub freq : ℕ → ℕ
  pub group : ℕ → ℕ
  pub leaf_nodes : ℕ → ℕ
  pub groups : ℕ → ℕ
  pub num_groups : ℕ
  pub group_leader : ℕ → ℕ

-- `lh1_alloc_group`
unfoldable pub alloc_group : Tree → ℕ × Tree
alloc_group t = (t.groups t.num_groups, record t { num_groups = t.num_groups + 1 })

-- `lh1_free_group`
unfoldable pub free_group : ℕ → Tree → Tree
free_group group t =
    let n = t.num_groups - 1 in record t { num_groups = n; groups = store t.groups n group }

-- `lh1_init_groups`; 627 is `LH1_NUM_TREE_NODES`.
unfoldable pub init_groups : Tree → Tree
init_groups t = record t { groups = λ i. if ltb i 627 then i else t.groups i; num_groups = 0 }

-- The leaves of `lh1_init_tree`, from the end of the array.
unfoldable pub leaf_loop : ℕ → ℕ → ℕ → ℕ → Tree → Tree
leaf_loop zero leaf_group i node_index t = t
leaf_loop (suc rounds) leaf_group i node_index t =
    leaf_loop rounds leaf_group (i + 1) (node_index - 1) (record t {
      leaf = store t.leaf node_index 1;
      child_index = store t.child_index node_index i;
      freq = store t.freq node_index 1;
      group = store t.group node_index leaf_group;
      group_leader = store t.group_leader leaf_group node_index;
      leaf_nodes = store t.leaf_nodes i node_index;
    })

-- The node of a pair of children, in the group of the node behind it if their frequencies agree.
unfoldable pub join_children : ℕ → ℕ → Tree → Tree
unfolding alloc_group
join_children node_index child t =
    let freq = (t.freq child + t.freq (child - 1)) % 2 ^ 16 in
    let same = freq == t.freq (node_index + 1) in
    let (fresh, t') = alloc_group t in
    let t'' = if same then t else t' in
    let group = if same then t.group (node_index + 1) else fresh in
    record t'' {
      leaf = store t.leaf node_index 0;
      child_index = store t.child_index node_index child;
      parent = store (store t.parent child node_index) (child - 1) node_index;
      freq = store t.freq node_index freq;
      group = store t.group node_index group;
      group_leader = store t.group_leader group node_index;
    }

-- `while (node_index >= 0)`, for `node_index + 1` rounds.
unfoldable pub join_loop : ℕ → ℕ → Tree → Tree
unfolding join_children
join_loop zero child t = t
join_loop (suc node_index) child t =
    join_loop node_index (child - 2) (join_children node_index child t)

-- `lh1_init_tree`
unfoldable pub init_tree : Tree → Tree
unfolding alloc_group leaf_loop join_loop
init_tree t =
    let (leaf_group, t') = alloc_group t in join_loop 313 626 (leaf_loop 314 leaf_group 0 626 t')

-- What points back at the node `p`.
unfoldable pub link_back : ℕ → Tree → Tree
link_back p t =
    let c = t.child_index p in
    if t.leaf p == 0
    then record t { parent = store (store t.parent c p) (c - 1) p }
    else record t { leaf_nodes = store t.leaf_nodes c p }

-- `lh1_make_group_leader`
unfoldable pub make_group_leader : ℕ → Tree → ℕ × Tree
unfolding link_back
make_group_leader node_index t =
    let leader_index = t.group_leader (t.group node_index) in
    let swapped : Tree = record t {
      leaf = store (store t.leaf leader_index (t.leaf node_index)) node_index (t.leaf leader_index);
      child_index =
          store (store t.child_index leader_index (t.child_index node_index)) node_index
            (t.child_index leader_index);
    } in
    if leader_index == node_index
    then (node_index, t)
    else (leader_index, link_back leader_index (link_back node_index swapped))

-- `lh1_increment_node_freq`
unfoldable pub increment_node_freq : ℕ → Tree → Tree
unfolding alloc_group free_group
increment_node_freq node_index t =
    let count = (t.freq node_index + 1) % 2 ^ 16 in
    let mine = t.group node_index in
    let same = count == t.freq (node_index - 1) in
    let t' : Tree = record t { freq = store t.freq node_index count } in
    let t'' : Tree = record t' {
      group_leader = store t.group_leader mine ((t.group_leader mine + 1) % 2 ^ 16);
    } in
    let (fresh, alone) = alloc_group t'' in
    let joined = store t.group node_index (t.group (node_index - 1)) in
    if ltb node_index 626 && mine == t.group (node_index + 1)
    then if same then record t'' { group = joined } else record alone {
      group = store t.group node_index fresh;
      group_leader = store t''.group_leader fresh node_index;
    }
    else if same
    then record (free_group mine t') { group = joined }
    else t'
