-- ===== src/Examples/Lzhuf.antt =====
-- Tests of LZHUF.
use lhassa.Bytes.{IsByte}
use lhassa.Base.{
  ℕ, ◌+◌, ◌-◌, ◌/◌, ◌^◌, ◌≡◌, ◌≢◌, refl, List, [], ◌∷◌, All, arith, Bool, true, false,
}
use lhassa.Outcome.{Outcome, done, failed, fault, out_of_fuel, bind}
use lhassa.Lh5.Stream.{bits, bit}
use lhassa.Lzhuf.{Tree, start_huff, table_size, root, update}
use lhassa.Lzhuf.Table.{p_len, p_code}
use lhassa.Lzhuf.Bits.{Input, decode_position}
use lhassa.Lzhuf.Bits.Positions.{IsAt}
use lhassa.Lzhuf.PositionCode.{code_len, position_code, decode_position-code}
use lhassa.Lzhuf.Links.{IsLinked, find_char-climb}
use lhassa.Lzhuf.Start.{start_huff-IsLinked}
use lhassa.Lzhuf.Invariant.{update-IsLinked}
use lhassa.Lzhuf.Steps.{IsChar, Steps, literal, stay, decode_loop-Steps}
use lhassa.Lzhuf.Encode.{lzhuf_encode, climb}
use lhassa.Lzhuf.Decode.{lzhuf_decode, no_nodes, find_char, start_text, decode_loop}

abbrev blank_stack : ℕ → ℕ
blank_stack i = 0

-- Two bytes there and back.
two_back :
    bind (lzhuf_encode (65 ∷ 66 ∷ []) 100 40000) (λ p. lzhuf_decode blank_stack p 2 4500)
    ≡ done (65 ∷ 66 ∷ [])
unfolding lzhuf_encode lzhuf_decode
two_back = refl

-- A literal and a match that reaches over the end of the text.
match_back :
    bind
      (lzhuf_encode (65 ∷ 66 ∷ 65 ∷ 66 ∷ 65 ∷ 66 ∷ 65 ∷ []) 100 40000)
      (λ p. lzhuf_decode blank_stack p 7 4500)
    ≡ done (65 ∷ 66 ∷ 65 ∷ 66 ∷ 65 ∷ 66 ∷ 65 ∷ [])
unfolding lzhuf_encode lzhuf_decode
match_back = refl

abbrev first_tree : Tree
first_tree = start_huff (record { freq = no_nodes; prnt = no_nodes; son = no_nodes })

start_huff-IsLinked_example : IsLinked first_tree
start_huff-IsLinked_example =
    start_huff-IsLinked (record { freq = no_nodes; prnt = no_nodes; son = no_nodes })

abbrev tree_of : Outcome Tree → Tree
tree_of (done t) = t
tree_of _ = first_tree

abbrev is_done : Outcome Tree → Bool
is_done (done t) = true
is_done _ = false

made : (r : Outcome Tree) → is_done r ≡ true → r ≡ done (tree_of r)
made (done t) e = refl
made (failed st) e = absurd (cc)
made fault e = absurd (cc)
made out_of_fuel e = absurd (cc)

counts : is_done (update 65 first_tree) ≡ true
unfolding update start_huff
counts = refl

not_full : first_tree.freq 626 ≢ 0x8000
unfolding start_huff
not_full = omega arith

update-IsLinked_example : IsLinked (tree_of (update 65 first_tree))
update-IsLinked_example =
    update-IsLinked 65 first_tree (tree_of (update 65 first_tree)) (omega arith)
      start_huff-IsLinked_example not_full (made (update 65 first_tree) counts)

-- What the codes stand in: the code of the position 100, and that of the character 65 in the first
-- tree.
abbrev position_input : List ℕ
position_input = 0x29 ∷ 0 ∷ []

abbrev char_input : List ℕ
char_input = 0xe6 ∷ 0x80 ∷ []

position_bytes : All IsByte position_input
position_bytes = (omega arith, (omega arith, tt))

char_bytes : All IsByte char_input
char_bytes = (omega arith, (omega arith, tt))

abbrev fresh : List ℕ → Input
fresh input = record { getbuf = 0; getlen = 0; rest = input }

fresh-IsAt : (input : List ℕ) → IsAt input 0 0 (fresh input)
unfolding bits
fresh-IsAt input = record { behind = refl; few = omega arith; whole = omega arith; held = refl }

position_here : bits position_input 0 (code_len 100 + 6) ≡ position_code 100
unfolding bits bit code_len position_code p_len p_code
position_here = refl

decode_position-code_example :
    (m : ℕ) × (d : Input) × (decode_position (fresh position_input) ≡ (100, d))
    × IsAt position_input (0 + (code_len 100 + 6)) m d
decode_position-code_example =
    decode_position-code position_input 0 0 100 (fresh position_input) position_bytes
      (fresh-IsAt position_input) (omega arith) position_here

climbs_to :
    climb table_size (first_tree.prnt (65 + table_size)) 0 0 first_tree.prnt ≡ done (59008, 9)
unfolding climb start_huff
climbs_to = refl

below_root : first_tree.prnt (65 + table_size) ≢ root
unfolding start_huff
below_root = omega arith

char_here : bits char_input 0 9 ≡ 59008 / 2 ^ (16 - 9)
unfolding bits bit
char_here = refl

find_char-climb_example :
    (m : ℕ) × (d : Input) × (find_char first_tree (fresh char_input) ≡ done (65, d))
    × IsAt char_input (0 + 9) m d
find_char-climb_example =
    find_char-climb char_input char_bytes first_tree start_huff-IsLinked_example 65 59008 9 0 0
      (fresh char_input) (omega arith) below_root climbs_to (omega arith) (fresh-IsAt char_input)
      char_here

-- The text of one literal.
abbrev counted_tree : Tree
counted_tree = tree_of (update 65 first_tree)

char_input-IsChar : IsChar char_input 0 first_tree 65 9 counted_tree
char_input-IsChar = record {
  char = omega arith;
  inner = below_root;
  code = 59008;
  climbs = climbs_to;
  few = omega arith;
  here = char_here;
  low = not_full;
  counted = made (update 65 first_tree) counts;
}

one_step : Steps char_input blank_stack 1 1 0 first_tree [] counted_tree (65 ∷ [])
one_step = literal (omega arith) (omega arith) char_input-IsChar stay

decode_loop-Steps_example :
    decode_loop 1
      (1 + 0)
      (start_text blank_stack)
      (record { tree = first_tree; input = fresh char_input })
    ≡ done (65 ∷ [])
decode_loop-Steps_example =
    decode_loop-Steps char_input char_bytes blank_stack 1 1 0 0 0 first_tree counted_tree (65 ∷ [])
      (fresh char_input) start_huff-IsLinked_example (fresh-IsAt char_input) one_step (omega arith)
