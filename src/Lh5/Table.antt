-- ===== src/Lh5/Table.antt =====
-- `lh5_make_table` of Source/src/lh_lh5dec.c: the table of a set of code lengths, for the codes that
-- are no longer than its index, and the trees for the bits of the longer ones.
use lhassa.Base.{
  ℕ, zero, suc, ◌+◌, ◌-◌, ◌*◌, ◌/◌, ◌%◌, ◌^◌, List, [], ◌∷◌, get_or, replicate, set, store, fill,
  ltb, leb, ◌==◌, if◌then◌else◌, ◌&&◌,
}
use lhassa.Outcome.{Outcome, done, fault, bind}

-- What the function writes to.
pub record Tables : Type 0 where
  pub table : ℕ → ℕ
  pub left : ℕ → ℕ
  pub right : ℕ → ℕ
  pub avail : ℕ

-- `for (i...) count[bitlen[i]]++`, with as many rounds as `rounds`; `count` has 17 elements.
pub count_loop : ℕ → ℕ → (ℕ → ℕ) → List ℕ → Outcome (List ℕ)
count_loop zero i bitlen count = done count
count_loop (suc rounds) i bitlen count =
    let len = bitlen i in
    let rest =
      count_loop rounds (i + 1) bitlen (set count len ((get_or count len 0 + 1) % 2 ^ 16)) in
    if ltb 16 len then fault else rest

-- `weight[i]`, from 1 to 16
pub weights : List ℕ
weights =
    0 ∷ 0x8000 ∷ 0x4000 ∷ 0x2000 ∷ 0x1000 ∷ 0x800 ∷ 0x400 ∷ 0x200 ∷ 0x100 ∷ 0x80 ∷ 0x40 ∷ 0x20
    ∷ 0x10 ∷ 8 ∷ 4 ∷ 2 ∷ 1 ∷ []

-- The loop over `start[i] = total; total += weight[i] * count[i]`: the starts and the total.
pub start_loop : ℕ → ℕ → ℕ → List ℕ → List ℕ → List ℕ × ℕ
start_loop zero i total count start = (start, total)
start_loop (suc rounds) i total count start =
    start_loop rounds (i + 1) ((total + get_or weights i 0 * get_or count i 0) % 2 ^ 16) count
      (set start i total)

-- `start[i] >>= m` and `weight[i] >>= m` for `i` up to `tablebits`
pub shift_loop : ℕ → ℕ → ℕ → List ℕ → List ℕ
shift_loop zero i m a = a
shift_loop (suc rounds) i m a = shift_loop rounds (i + 1) m (set a i (get_or a i 0 / 2 ^ m))

-- What `p` points to.
pub data Cell : Type 0 where
  in_table in_left in_right : ℕ → Cell

pub read_cell : Tables → Cell → ℕ
read_cell t (Cell.in_table i) = t.table i
read_cell t (Cell.in_left i) = t.left i
read_cell t (Cell.in_right i) = t.right i

-- `*p = v`; the sizes are those of the table and of `left` and `right`.
pub write_cell : ℕ → Cell → ℕ → Tables → Outcome Tables
write_cell size (Cell.in_table i) v t =
    if ltb i size then done (record t { table = store t.table i v }) else fault
write_cell size (Cell.in_left i) v t =
    if ltb i 1019 then done (record t { left = store t.left i v }) else fault
write_cell size (Cell.in_right i) v t =
    if ltb i 1019 then done (record t { right = store t.right i v }) else fault

-- `if (*p == 0)`: a new inner node at `p`
pub grow : ℕ → Cell → Tables → Outcome Tables
unfolding read_cell write_cell
grow size p t =
    if read_cell t p == 0
    then (if ltb t.avail 1019
        then write_cell size p (t.avail % 2 ^ 16) (record t {
          right = store t.right t.avail 0;
          left = store t.left t.avail 0;
          avail = t.avail + 1;
        })
        else fault)
    else done t

-- The branch taken at bit 15 of `i`.
pub child : ℕ → ℕ → Cell
child i node = if i / 2 ^ 15 % 2 == 0 then Cell.in_left node else Cell.in_right node

-- `while (--n >= 0)` and the store of the symbol behind it.
pub descend : ℕ → ℕ → ℕ → Cell → ℕ → Tables → Outcome Tables
unfolding grow child
descend zero size i p symbol t = write_cell size p symbol t
descend (suc n) size i p symbol t =
    bind (grow size p t) λ t'. descend n size (i * 2 % 2 ^ 32) (child i (read_cell t' p)) symbol t'

-- One symbol with a code of `k` bits, `k` not 0, from `start` up to `l`.
pub assign : ℕ → ℕ → ℕ → ℕ → ℕ → Tables → Outcome Tables
unfolding descend
assign tablebits symbol k start l t =
    let size = 2 ^ tablebits in
    if leb k tablebits
    then (if ltb size l && ltb start l
        then fault
        else done (record t { table = fill t.table start l symbol }))
    else descend (k - tablebits) size (start * 2 ^ tablebits % 2 ^ 32)
        (Cell.in_table (start / 2 ^ (16 - tablebits))) symbol t

-- `for (j = 0; j < nchar; j++)`
pub assign_loop : ℕ → ℕ → (ℕ → ℕ) → ℕ → List ℕ → List ℕ → Tables → Outcome Tables
unfolding assign
assign_loop zero j bitlen tablebits weight start t = done t
assign_loop (suc rounds) j bitlen tablebits weight start t =
    let k = bitlen j in
    let from = get_or start k 0 in
    let l = from + get_or weight k 0 in
    let skip = assign_loop rounds (j + 1) bitlen tablebits weight start t in
    let next = assign_loop rounds (j + 1) bitlen tablebits weight (set start k (l % 2 ^ 16)) in
    if k == 0 then skip else bind (assign tablebits j k from l t) next

-- `lh5_make_table`; a set of lengths that is not complete leaves the tables as they are.
unfoldable pub make_table : ℕ → (ℕ → ℕ) → ℕ → Tables → Outcome Tables
unfolding count_loop weights start_loop shift_loop assign_loop
make_table nchar bitlen tablebits t = bind (count_loop nchar 0 bitlen (replicate 17 0)) λ count.
    let m = 16 - tablebits in
    let (start, total) = start_loop 16 1 0 count (replicate 17 0) in
    let starts = shift_loop tablebits 1 m start in
    let weight = shift_loop tablebits 1 m weights in
    let j = get_or start (tablebits + 1) 0 / 2 ^ m in
    let table = if j == 0 then t.table else fill t.table j (2 ^ tablebits) 0 in
    if total == 0
    then assign_loop nchar 0 bitlen tablebits weight starts
        (record t { table = table; avail = nchar })
    else done t
