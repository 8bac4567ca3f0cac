-- ===== src/Lzhuf/Dictionary.antt =====
-- The search trees of the encoder in Source/src/lh_lzhuf.c: `lhz_init_tree`, `lhz_insert_node` and
-- `lhz_delete_node`. The indices of these arrays are not checked against their sizes.
use lhassa.Base.{
  ℕ, zero, suc, ◌+◌, ◌-◌, ◌%◌, ◌^◌, store, fill, ltb, leb, ◌==◌, if◌then◌else◌, ◌&&◌, Bool, true,
}
use lhassa.Outcome.{Outcome, done, out_of_fuel, bind}

-- `LHZ_NIL`
abbrev pub nil : ℕ
nil = 4096

pub record Dictionary : Type 0 where
  pub text_buf : ℕ → ℕ
  pub lson : ℕ → ℕ
  pub rson : ℕ → ℕ
  pub dad : ℕ → ℕ
  pub match_position : ℕ
  pub match_length : ℕ

-- `lhz_init_tree`
unfoldable pub init_tree : Dictionary → Dictionary
init_tree e = record e { rson = fill e.rson 4097 4353 nil; dad = fill e.dad 0 4096 nil }

-- `for (i = 1; i < LHZ_F; i++)`: the first `i` at which the texts at `r` and `p` differ, or 60.
pub compare_loop : ℕ → ℕ → (ℕ → ℕ) → ℕ → ℕ → ℕ
compare_loop zero i text r p = i
compare_loop (suc rounds) i text r p =
    let rest = compare_loop rounds (i + 1) text r p in
    if text (r + i) == text (p + i) then rest else i

-- `((r - p) & (LHZ_N - 1)) - 1` in `w` bits
abbrev pub distance : ℕ → ℕ → ℕ → ℕ
distance w r p = ((r + 4096 - p) % 4096 + 2 ^ w - 1) % 2 ^ w

-- A longer match, or one of the same length that is nearer.
pub note_match : ℕ → ℕ → ℕ → Dictionary → Dictionary
note_match i r p e =
    let e' : Dictionary =
      if ltb e.match_length i
      then record e { match_position = distance 16 r p; match_length = i }
      else e in
    let c = distance 32 r p in
    if i == e'.match_length && ltb c e'.match_position
    then record e' { match_position = c % 2 ^ 16 }
    else e'

-- The node `r` in the place of the node `p`.
pub replace_node : ℕ → ℕ → Dictionary → Dictionary
replace_node r p e =
    let up = e.dad p in
    let dad = store e.dad r up in
    let lson = store e.lson r (e.lson p) in
    let rson = store e.rson r (e.rson p) in
    let dad' = store (store dad (lson p) r) (rson p) r in
    let right = rson (dad' p) == p in
    record e {
      dad = store dad' p nil;
      lson = if right then lson else store lson (dad' p) r;
      rson = if right then store rson (dad' p) r else rson;
    }

-- The loop of `lhz_insert_node` at the node `p`; `right` says that the text at `r` is not before.
pub insert_loop : ℕ → ℕ → ℕ → Bool → Dictionary → Outcome Dictionary
unfolding compare_loop note_match replace_node
insert_loop zero r p right e = out_of_fuel
insert_loop (suc fuel) r p right e =
    let next = if right then e.rson p else e.lson p in
    let i = compare_loop 59 1 e.text_buf r next in
    let e' = if ltb 2 i then note_match i r next e else e in
    let onward =
      insert_loop fuel r next
        (if i == 60 then true else leb (e.text_buf (next + i)) (e.text_buf (r + i))) e' in
    if next == nil
    then done (record e {
      rson = if right then store e.rson p r else e.rson;
      lson = if right then e.lson else store e.lson p r;
      dad = store e.dad r p;
    })
    else if ltb 2 i && ltb e.match_length i && leb 60 i
    then done (replace_node r next e')
    else onward

-- `lhz_insert_node`; a path through a tree has at most one node for each place of the ring.
unfoldable pub insert_node : ℕ → Dictionary → Outcome Dictionary
unfolding insert_loop
insert_node r e =
    insert_loop 4097 r (4097 + e.text_buf r) true
      (record e { rson = store e.rson r nil; lson = store e.lson r nil; match_length = 0 })

-- `do { q = rson[q]; } while (rson[q] != LHZ_NIL);`
pub last_right : ℕ → (ℕ → ℕ) → ℕ → Outcome ℕ
last_right zero rson q = out_of_fuel
last_right (suc fuel) rson q =
    let q' = rson q in
    let rest = last_right fuel rson q' in if rson q' == nil then done q' else rest

-- `rson[q] = rson[p]; dad[rson[p]] = q;`
pub take_right : ℕ → ℕ → Dictionary → Dictionary × ℕ
take_right p q e =
    (record e { rson = store e.rson q (e.rson p); dad = store e.dad (e.rson p) q }, q)

-- What comes into the place of a node with two sons: its left son, or the last node on the right
-- below that.
pub lift_node : ℕ → Dictionary → Outcome (Dictionary × ℕ)
unfolding last_right take_right
lift_node p e =
    let q = e.lson p in
    if e.rson q == nil
    then done (take_right p q e)
    else (bind (last_right 4097 e.rson q) λ q'.
        let rson = store e.rson (e.dad q') (e.lson q') in
        let dad = store e.dad (e.lson q') (e.dad q') in
        let lson = store e.lson q' (e.lson p) in
        done (take_right p q' (record e { rson = rson; lson = lson; dad = store dad (lson p) q' })))

-- The node `q` in the place of `p`, which leaves the tree.
pub close_gap : ℕ → Dictionary × ℕ → Dictionary
close_gap p (e, q) =
    let dad = store e.dad q (e.dad p) in
    let right = e.rson (dad p) == p in
    record e {
      dad = store dad p nil;
      rson = if right then store e.rson (dad p) q else e.rson;
      lson = if right then e.lson else store e.lson (dad p) q;
    }

-- `lhz_delete_node`
unfoldable pub delete_node : ℕ → Dictionary → Outcome Dictionary
unfolding lift_node close_gap
delete_node p e =
    if e.dad p == nil
    then done e
    else if e.rson p == nil
    then done (close_gap p (e, e.lson p))
    else if e.lson p == nil
    then done (close_gap p (e, e.rson p))
    else (bind (lift_node p e) λ moved. done (close_gap p moved))
