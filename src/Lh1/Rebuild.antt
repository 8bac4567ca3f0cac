-- ===== src/Lh1/Rebuild.antt =====
-- `lh1_reconstruct_tree` and `lh1_increment_for_code` of Source/src/lh_lh1dec.c.
use lhassa.Base.{ℕ, zero, suc, ◌+◌, ◌-◌, ◌/◌, ◌%◌, ◌^◌, store, ltb, leb, ◌==◌, if◌then◌else◌, ◌||◌}
use lhassa.Outcome.{Outcome, done, fault, out_of_fuel, bind}
use lhassa.Lh1.{Tree, alloc_group, init_groups, make_group_leader, increment_node_freq}

-- The leaves to the front, with half their frequencies; `j` is `leaf - d->nodes`.
unfoldable pub gather_loop : ℕ → ℕ → ℕ → Tree → Tree
gather_loop zero i j t = t
gather_loop (suc rounds) i j t =
    let t' : Tree = record t {
      leaf = store t.leaf j 1;
      child_index = store t.child_index j (t.child_index i);
      freq = store t.freq j ((t.freq i + 1) / 2);
    } in
    if t.leaf i == 0 then gather_loop rounds (i + 1) j t else gather_loop rounds (i + 1) (j + 1) t'

-- `nodes[i] = *leaf; leaf_nodes[leaf->child_index] = i;`
unfoldable pub move_leaf : ℕ → ℕ → Tree → Tree
move_leaf i leaf t = record t {
  leaf = store t.leaf i (t.leaf leaf);
  child_index = store t.child_index i (t.child_index leaf);
  parent = store t.parent i (t.parent leaf);
  freq = store t.freq i (t.freq leaf);
  group = store t.group i (t.group leaf);
  leaf_nodes = store t.leaf_nodes (t.child_index leaf) i;
}

-- How far the reconstruction is: `i + 1` nodes are to be made, of which `leaf + 1` leaves stand at
-- the front.
pub record Progress : Type 0 where
  pub left : ℕ
  pub leaves : ℕ
  pub tree : Tree

-- `while ((int)child - i < 2)`
unfoldable pub need_children : ℕ → ℕ → ℕ → Tree → Outcome Progress
unfolding move_leaf
need_children child zero leaves t =
    if ltb child 1 then fault else done (record { left = 0; leaves = leaves; tree = t })
need_children child (suc i) zero t =
    if ltb child (i + 2) then fault else done (record { left = suc i; leaves = 0; tree = t })
need_children child (suc i) (suc leaf) t =
    let rest = need_children child i leaf (move_leaf i leaf t) in
    if ltb child (i + 2) then rest else done (record { left = suc i; leaves = suc leaf; tree = t })

-- `while (leaf >= d->nodes && freq >= leaf->freq)`
unfoldable pub take_smaller : ℕ → ℕ → ℕ → Tree → Outcome Progress
unfolding move_leaf
take_smaller freq left zero t = done (record { left = left; leaves = 0; tree = t })
take_smaller freq zero (suc leaf) t =
    if leb (t.freq leaf) freq
    then fault
    else done (record { left = 0; leaves = suc leaf; tree = t })
take_smaller freq (suc i) (suc leaf) t =
    let rest = take_smaller freq i leaf (move_leaf i leaf t) in
    if leb (t.freq leaf) freq
    then rest
    else done (record { left = suc i; leaves = suc leaf; tree = t })

-- The node over the two children `child` and `child - 1`.
unfoldable pub put_node : ℕ → ℕ → ℕ → Tree → Tree
put_node i child freq t = record t {
  leaf = store t.leaf i 0;
  freq = store t.freq i (freq % 2 ^ 16);
  child_index = store t.child_index i child;
  parent = store (store t.parent child i) (child - 1) i;
}

-- `while (i >= 0)`: each round makes a node at least.
unfoldable pub rebuild_loop : ℕ → ℕ → ℕ → ℕ → Tree → Outcome Tree
unfolding need_children take_smaller put_node
rebuild_loop fuel child zero leaves t = done t
rebuild_loop zero child (suc i) leaves t = out_of_fuel
rebuild_loop (suc fuel) child (suc i) leaves t = bind (need_children child (suc i) leaves t) λ p.
    let freq = p.tree.freq child + p.tree.freq (child - 1) in
    bind (take_smaller freq p.left p.leaves p.tree) λ q.
      let tree = put_node (q.left - 1) child freq q.tree in
      let rest = rebuild_loop fuel (child - 2) (q.left - 1) q.leaves tree in
      if q.left == 0 || child == 0 then fault else rest

-- `for (i = 1; i < LH1_NUM_TREE_NODES; i++)`: a group for the nodes of each frequency.
unfoldable pub group_loop : ℕ → ℕ → Tree → Tree
unfolding alloc_group
group_loop zero i t = t
group_loop (suc rounds) i t =
    let (group, t') = alloc_group t in
    let joined : Tree = record t { group = store t.group i (t.group (i - 1)) } in
    let alone : Tree = record t' {
      group = store t.group i group;
      group_leader = store t.group_leader group i;
    } in
    group_loop rounds (i + 1) (if t.freq i == t.freq (i - 1) then joined else alone)

-- The groups from the beginning.
unfoldable pub regroup : Tree → Tree
unfolding init_groups alloc_group group_loop
regroup t =
    let (group, t') = alloc_group (init_groups t) in
    group_loop 626 1
      (record t' { group = store t'.group 0 group; group_leader = store t'.group_leader group 0 })

-- `lh1_reconstruct_tree`; 314 is `LH1_NUM_CODES`.
unfoldable pub reconstruct_tree : Tree → Outcome Tree
unfolding gather_loop rebuild_loop regroup
reconstruct_tree t =
    bind (rebuild_loop 627 626 627 314 (gather_loop 627 0 0 t)) λ t'. done (regroup t')

-- `while (node_index != 0)`: up to the root.
unfoldable pub count_loop : ℕ → ℕ → Tree → Outcome Tree
unfolding make_group_leader increment_node_freq
count_loop zero node_index t = if node_index == 0 then done t else out_of_fuel
count_loop (suc fuel) node_index t =
    let (leader, t') = make_group_leader node_index t in
    let t'' = increment_node_freq leader t' in
    let rest = count_loop fuel (t''.parent leader) t'' in if node_index == 0 then done t else rest

-- `lh1_increment_for_code`
unfoldable pub increment_for_code : ℕ → Tree → Outcome Tree
unfolding reconstruct_tree count_loop
increment_for_code code t = bind (if leb 32768 (t.freq 0) then reconstruct_tree t else done t) λ t'.
    count_loop 627 (t'.leaf_nodes code)
      (record t' { freq = store t'.freq 0 ((t'.freq 0 + 1) % 2 ^ 16) })
