-- ===== src/Lh5/Lengths.antt =====
-- `lh5_read_pt_len` and `lh5_read_c_len` of Source/src/lh_lh5dec.c: the code lengths at the head of a
-- block. `pt_len` has 128 elements, `c_len` 510, `left` and `right` 1019.
use lhassa.Base.{ℕ, zero, suc, ◌+◌, ◌-◌, ◌/◌, ◌%◌, ◌^◌, store, fill, ltb, ◌==◌, if◌then◌else◌, ◌&&◌}
use lhassa.Outcome.{Outcome, done, fault, out_of_fuel, ◌>>=◌, ◌>>◌, pure, lift, modify}
use lhassa.Lh5.{Lh5Dec, fillbuf, getbits}
use lhassa.Lh5.Table.{Tables, make_table}

-- `pt_len[i] = v`
pub write_pt_len : ℕ → ℕ → Lh5Dec → Outcome (Unit {0}) × Lh5Dec
write_pt_len i v d =
    if ltb i 128 then (done tt, record d { pt_len = store d.pt_len i v }) else (fault, d)

-- `pt_len[i++] = 0` from `i` to `upto`
pub clear_pt_len : ℕ → ℕ → Lh5Dec → Outcome (Unit {0}) × Lh5Dec
clear_pt_len i upto d =
    if ltb i upto && ltb 128 upto
    then (fault, d)
    else (done tt, record d { pt_len = fill d.pt_len i upto 0 })

-- `while (mask & bitbuf) { mask >>= 1; c++; }`, with `b` bits at and below the mask
pub long_length : ℕ → ℕ → ℕ → ℕ
long_length zero bitbuf c = c
long_length (suc b) bitbuf c =
    let rest = long_length b bitbuf (c + 1) in if bitbuf / 2 ^ b % 2 == 0 then c else rest

pub pt_code : ℕ → ℕ
unfolding long_length
pt_code bitbuf = let c = bitbuf / 2 ^ 13 in if c == 7 then long_length 13 bitbuf 7 else c

-- The test of `i_special`: up to three lengths of 0.
pub skip_special : ℕ → ℕ → Lh5Dec → Outcome ℕ × Lh5Dec
unfolding clear_pt_len
skip_special i special =
    if i == special then (do c ← getbits 2; clear_pt_len i (i + c); pure (i + c)) else pure i

-- A round of `while (i < n)`.
pub pt_step : ℕ → ℕ → Lh5Dec → Outcome ℕ × Lh5Dec
unfolding pt_code write_pt_len skip_special
pt_step i special d =
    let c = pt_code d.bitbuf in
    (do fillbuf (if ltb c 7 then 3 else c - 3); write_pt_len i c; skip_special (i + 1) special) d

pub pt_loop : ℕ → ℕ → ℕ → ℕ → Lh5Dec → Outcome ℕ × Lh5Dec
unfolding pt_step
pt_loop zero i n special d = (out_of_fuel, d)
pt_loop (suc fuel) i n special d =
    let rest = (do i' ← pt_step i special; pt_loop fuel i' n special) d in
    if ltb i n then rest else (done i, d)

-- The call of `lh5_make_table` for `pt_len`, and the one for `c_len`.
pub build_pt_table : ℕ → Lh5Dec → Outcome (Unit {0}) × Lh5Dec
build_pt_table nn d =
    let t : Tables = record { table = d.pt_table; left = d.left; right = d.right; avail = nn } in
    (do
      t' ← lift (make_table nn d.pt_len 8 t)
      modify (λ s. record s { pt_table = t'.table; left = t'.left; right = t'.right }))
      d

pub build_c_table : Lh5Dec → Outcome (Unit {0}) × Lh5Dec
build_c_table d =
    let t : Tables = record { table = d.c_table; left = d.left; right = d.right; avail = 510 } in
    (do
      t' ← lift (make_table 510 d.c_len 12 t)
      modify (λ s. record s { c_table = t'.table; left = t'.left; right = t'.right }))
      d

-- `lh5_read_pt_len`. Each round of its loop moves `i`, so `n` rounds are enough.
unfoldable pub read_pt_len : ℕ → ℕ → ℕ → Lh5Dec → Outcome (Unit {0}) × Lh5Dec
unfolding pt_loop clear_pt_len build_pt_table
read_pt_len nn nbit special = do
  n ← getbits nbit
  if n == 0
      then (do
        c ← getbits nbit
        clear_pt_len 0 nn
        modify (λ d. record d { pt_table = fill d.pt_table 0 256 c }))
      else (do i ← pt_loop (suc n) 0 n special; clear_pt_len i nn; build_pt_table nn)

-- `do { c = d->bitbuf & mask ? right[c] : left[c]; mask >>= 1; } while (c >= limit)`, with `b` bits
-- at and below the mask.
unfoldable pub walk : ℕ → ℕ → ℕ → ℕ → Lh5Dec → Outcome ℕ
walk zero limit b node d = out_of_fuel
walk (suc fuel) limit b node d =
    let next = if ltb 0 b && d.bitbuf / 2 ^ (b - 1) % 2 == 1 then d.right node else d.left node in
    let rest = walk fuel limit (b - 1) next d in
    if ltb node 1019 then (if ltb next limit then done next else rest) else fault

-- A walk meets each of the 1019 nodes at most once behind the 16 bits, or it does not end.
abbrev pub walk_fuel : ℕ
walk_fuel = 1100

-- `c_len[i++] = 0`, `c` times. The source does not look at the index: a store behind the 510 elements
-- is undefined behaviour, for which `fault` stands.
pub clear_c_len : ℕ → ℕ → Lh5Dec → Outcome ℕ × Lh5Dec
clear_c_len i c d =
    if ltb 0 c && ltb 510 (i + c)
    then (fault, d)
    else (done (i + c), record d { c_len = fill d.c_len i (i + c) 0 })

-- `c_len[i++] = v`, undefined behaviour behind the 510 elements as above.
pub write_c_len : ℕ → ℕ → Lh5Dec → Outcome ℕ × Lh5Dec
write_c_len i v d =
    if ltb i 510 then (done (i + 1), record d { c_len = store d.c_len i v }) else (fault, d)

-- What `c` stands for: a run of zeros, or a length.
pub c_entry : ℕ → ℕ → Lh5Dec → Outcome ℕ × Lh5Dec
unfolding clear_c_len write_c_len
c_entry i c =
    if c == 0
    then clear_c_len i 1
    else if c == 1
    then (do r ← getbits 4; clear_c_len i (r + 3))
    else if c == 2
    then (do r ← getbits 9; clear_c_len i (r + 20))
    else write_c_len i ((c - 2) % 2 ^ 8)

-- The symbol of a length, by the table or by a walk from its entry.
pub c_code : Lh5Dec → Outcome ℕ
unfolding walk
c_code d =
    let first = d.pt_table (d.bitbuf / 2 ^ 8) in
    if ltb first 19 then done first else walk walk_fuel 19 8 first d

-- A round of `while (i < n)`.
pub c_step : ℕ → Lh5Dec → Outcome ℕ × Lh5Dec
unfolding c_code c_entry
c_step i d = (do c ← lift (c_code d); fillbuf (d.pt_len c); c_entry i c) d

pub c_loop : ℕ → ℕ → ℕ → Lh5Dec → Outcome ℕ × Lh5Dec
unfolding c_step
c_loop zero i n d = (out_of_fuel, d)
c_loop (suc fuel) i n d =
    let rest = (do i' ← c_step i; c_loop fuel i' n) d in if ltb i n then rest else (done i, d)

-- `lh5_read_c_len` where the count is 0, one symbol without bits, and where it is not.
pub read_c_single : Lh5Dec → Outcome (Unit {0}) × Lh5Dec
read_c_single = do
  c ← getbits 9
  _ ← clear_c_len 0 510
  modify (λ d. record d { c_table = fill d.c_table 0 4096 c })

pub read_c_many : ℕ → Lh5Dec → Outcome (Unit {0}) × Lh5Dec
read_c_many n = do i ← c_loop (suc n) 0 n; _ ← clear_c_len i (510 - i); build_c_table

-- `lh5_read_c_len`
unfoldable pub read_c_len : Lh5Dec → Outcome (Unit {0}) × Lh5Dec
unfolding read_c_single read_c_many c_loop clear_c_len build_c_table
read_c_len = do n ← getbits 9; if n == 0 then read_c_single else read_c_many n
