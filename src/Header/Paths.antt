-- ===== src/Header/Paths.antt =====
-- A path that `lh_hdr_split_path` takes apart and `lh_hdr_read` joins again.
use lhassa.Base.{
  ℕ, zero, suc, ◌+◌, ◌-◌, ◌≤◌, ◌<◌, ◌≡◌, ◌≢◌, refl, sym, ap, ap₂, ◌∙◌, arith, Bool, true, false,
  List, [], ◌∷◌, ◌++◌, length, take, drop, get_or, get_or-append, length-append, ltb, ◌==◌, Option,
  none, some, map, All, take_all, take-append, drop-append, append_assoc,
}
use lhassa.Outcome.{done}
use lhassa.Bytes.{cstr}
use lhassa.Header.Path.{strrchr, split_dir, split_path, finish_path, join_dir, to_wire, from_wire}

strrchr-none : (s : List ℕ) → All (λ x. x ≢ b'/') s → strrchr b'/' s ≡ none
unfolding strrchr
strrchr-none [] h = refl
strrchr-none (x ∷ s) h =
    let other : (x == b'/') ≡ false = ground (arith, h.0) in rw (strrchr-none s h.1, other) refl

strrchr-last :
    (dir name : List ℕ)
    → All (λ x. x ≢ b'/') name
    → strrchr b'/' (dir ++ b'/' ∷ name) ≡ some (length dir)
unfolding strrchr
strrchr-last [] name h = rw (strrchr-none name h) refl
strrchr-last (x ∷ dir) name h = rw (strrchr-last dir name h) refl

-- The directory comes back from the wire if no character is a separator there.
map-from_wire : (dir : List ℕ) → All (λ x. x ≢ 0xff) dir → map from_wire (map to_wire dir) ≡ dir
map-from_wire [] h = refl
map-from_wire (x ∷ dir) h = ap₂ ◌∷◌ (ground (arith, h.0)) (map-from_wire dir h.1)

map-append : (f : ℕ → ℕ) (xs ys : List ℕ) → map f (xs ++ ys) ≡ map f xs ++ map f ys
map-append f [] ys = refl
map-append f (x ∷ xs) ys = ap (λ (l : List ℕ). f x ∷ l) (map-append f xs ys)

pub length-map : (f : ℕ → ℕ) (xs : List ℕ) → length (map f xs) ≡ length xs
length-map f [] = refl
length-map f (x ∷ xs) = ap suc (length-map f xs)

get_or-map :
    (f : ℕ → ℕ) (xs : List ℕ) (i : ℕ) → i < length xs → get_or (map f xs) i 0 ≡ f (get_or xs i 0)
get_or-map f [] i h = absurd (omega arith)
get_or-map f (x ∷ xs) zero h = refl
get_or-map f (x ∷ xs) (suc i) h = get_or-map f xs i (omega arith)

-- A directory of 1 to 509 characters that does not end in `/`.
pub split_dir_whole :
    (dir name : List ℕ)
    → 0 < length dir
    → length dir ≤ 509
    → get_or dir (length dir - 1) 0 ≢ b'/'
    → get_or dir (length dir - 1) 0 ≢ 0xff
    → split_dir (dir ++ b'/' ∷ name) (length dir) ≡ map to_wire dir ++ 0xff ∷ []
unfolding split_dir
split_dir_whole dir name some_dir short no_slash no_wire =
    let fits : ltb 512 (length dir + 1) ≡ false = ground arith in
    let positive : ltb 0 (length dir) ≡ true = ground arith in
    let room : ltb (length dir + 1) 512 ≡ true = ground arith in
    let last : get_or (map to_wire dir) (length dir - 1) 0
        ≡ to_wire (get_or dir (length dir - 1) 0) =
      get_or-map to_wire dir (length dir - 1) (omega arith) in
    let open_end : (get_or (map to_wire dir) (length dir - 1) 0 == 0xff) ≡ false =
      ground (arith, last) in
    rw (fits, take-append (length dir) dir (b'/' ∷ name) refl, positive, room, open_end) refl

-- A path of a directory and a name.
pub record IsPath (dir name : List ℕ) : Type 0 where
  pub some_dir : 0 < length dir
  pub dir_short : length dir ≤ 509
  pub no_slash : get_or dir (length dir - 1) 0 ≢ b'/'
  pub no_wire : All (λ x. x ≢ 0xff) dir
  pub some_name : 0 < length name
  pub name_short : length name ≤ 255
  pub plain : All (λ x. x ≢ b'/') name
  pub text : cstr name ≡ name
  pub starts : get_or name 0 0 ≢ 0

last-All :
    (dir : List ℕ) → 0 < length dir → All (λ x. x ≢ 0xff) dir → get_or dir (length dir - 1) 0 ≢ 0xff
last-All dir h all = All-get_or dir (length dir - 1) all (omega arith)
  where
    All-get_or :
        (xs : List ℕ) (i : ℕ) → All (λ x. x ≢ 0xff) xs → i < length xs → get_or xs i 0 ≢ 0xff
    All-get_or [] i a l = absurd (omega arith)
    All-get_or (x ∷ xs) zero a l = a.0
    All-get_or (x ∷ xs) (suc i) a l = All-get_or xs i a.1 (omega arith)

pub split_path-parts :
    (dir name : List ℕ)
    → IsPath dir name
    → split_path (dir ++ b'/' ∷ name) ≡ (name, map to_wire dir ++ 0xff ∷ [])
unfolding split_path
split_path-parts dir name p =
    let behind : drop (length dir + 1) (dir ++ b'/' ∷ name) ≡ name =
      ap (λ (l : List ℕ). drop (length dir + 1) l) (sym (append_assoc dir (b'/' ∷ []) name))
      ∙ drop-append (length dir + 1) (dir ++ b'/' ∷ []) name
          (omega (arith, length-append dir (b'/' ∷ []))) in
    ap
      (λ (slash : Option ℕ). elim slash [
        | none ↦ (take 255 (dir ++ b'/' ∷ name), [])
        | some i ↦ (take 255 (drop (i + 1) (dir ++ b'/' ∷ name)), split_dir (dir ++ b'/' ∷ name) i)
      ])
      (strrchr-last dir name p.plain)
    ∙ ap₂ (λ (base wire : List ℕ). (base, wire))
        (ap (take 255) behind ∙ take_all 255 name p.name_short)
        (split_dir_whole dir name p.some_dir p.dir_short p.no_slash
          (last-All dir p.some_dir p.no_wire))

join_dir-slash : (dir name : List ℕ) → join_dir (dir ++ b'/' ∷ []) name ≡ dir ++ b'/' ∷ name
unfolding join_dir
join_dir-slash dir name =
    let last : get_or (dir ++ b'/' ∷ []) (length (dir ++ b'/' ∷ []) - 1) 0 ≡ b'/' =
      get_or-append dir (b'/' ∷ []) (length (dir ++ b'/' ∷ []) - 1) 0 0
        (omega (arith, length-append dir (b'/' ∷ []))) in
    rw last (append_assoc dir (b'/' ∷ []) name)

finish_path-slash :
    (malloc_ok : ℕ → Bool) (dir : List ℕ) (c : ℕ) (name : List ℕ)
    → ((n : ℕ) → malloc_ok n ≡ true)
    → c ≢ 0
    → cstr (c ∷ name) ≡ c ∷ name
    → finish_path malloc_ok (dir ++ b'/' ∷ []) (some (c ∷ name))
      ≡ done (some (dir ++ b'/' ∷ c ∷ name))
unfolding finish_path
finish_path-slash malloc_ok [] c name enough nz text =
    let named : (c == 0) ≡ false = ground arith in
    rw (named, text, enough _) (ap (λ (l : List ℕ). done (some l)) (join_dir-slash [] (c ∷ name)))
finish_path-slash malloc_ok (d ∷ dir) c name enough nz text =
    let named : (c == 0) ≡ false = ground arith in
    rw (named, text, enough _)
      (ap (λ (l : List ℕ). done (some l)) (join_dir-slash (d ∷ dir) (c ∷ name)))

-- The path that is joined is the path that was taken apart.
pub finish_path-parts :
    (malloc_ok : ℕ → Bool) (dir name : List ℕ)
    → ((n : ℕ) → malloc_ok n ≡ true)
    → IsPath dir name
    → finish_path malloc_ok (map from_wire (map to_wire dir ++ 0xff ∷ [])) (some name)
      ≡ done (some (dir ++ b'/' ∷ name))
finish_path-parts malloc_ok dir [] enough p = absurd (omega (arith, p.some_name))
finish_path-parts malloc_ok dir (c ∷ name) enough p =
    ap (λ (wire : List ℕ). finish_path malloc_ok wire (some (c ∷ name)))
      (map-append from_wire (map to_wire dir) (0xff ∷ [])
        ∙ ap (λ (l : List ℕ). l ++ b'/' ∷ []) (map-from_wire dir p.no_wire))
    ∙ finish_path-slash malloc_ok dir c name enough p.starts p.text
