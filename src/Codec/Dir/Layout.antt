-- ===== src/Codec/Dir/Layout.antt =====
-- What `encode_dir` writes, in closed form, and where it puts each record and each name.
use arbordb.Common.{
  ℕ, zero, suc, ◌+◌, ◌*◌, ◌%◌, ◌^◌, ◌<◌, ◌≡◌, refl, sym, ap, ap₂, subst, ◌∙◌, List, [], ◌∷◌, ◌++◌,
  append_assoc, append-nil, some, length, length-append, get_elem?, arith,
}
use arbordb.Common.Be.{small_mod, be, length-be}
use arbordb.Codec.Dir.{Children, put_children, encode_dir}
use arbordb.Codec.Putters.{put_u32}
use arbordb.Codec.Read.At.{At-behind, At, At-left, At-right}
use arbordb.Data.Utf8.{Text}
use arbordb.Key.{AKey, into_bytes, length-into_bytes}

abbrev pub entry_record : ℕ → Text → AKey → List ℕ
entry_record name_off name akey = be 4 name_off ++ (be 4 (length name) ++ into_bytes akey)

length-entry_record :
    (name_off : ℕ) (name : Text) (akey : AKey) → length (entry_record name_off name akey) ≡ 24
length-entry_record name_off name akey = omega (
  arith,
  length-append (be 4 name_off) (be 4 (length name) ++ into_bytes akey),
  length-append (be 4 (length name)) (into_bytes akey),
  length-be 4 name_off,
  length-be 4 (length name),
  length-into_bytes akey,
)

-- The entry table, its first name at `base`.
abbrev pub table : ℕ → Children → List ℕ
table base [] = []
table base ((name, akey) ∷ rest) = entry_record base name akey ++ table (base + length name) rest

abbrev pub all_names : Children → List ℕ
all_names [] = []
all_names ((name, akey) ∷ rest) = name ++ all_names rest

pub length-table : (base : ℕ) (cs : Children) → length (table base cs) ≡ length cs * 24
length-table base [] = omega arith
length-table base ((name, akey) ∷ rest) = omega (
  arith,
  length-append (entry_record base name akey) (table (base + length name) rest),
  length-entry_record base name akey,
  length-table (base + length name) rest,
)

put_children-table :
    (start : ℕ) (out names : List ℕ) (cs : Children)
    → start + length names + length (all_names cs) < 2 ^ 32
    → put_children start out names cs
      ≡ (out ++ table (start + length names) cs, names ++ all_names cs)
unfolding put_children put_u32
put_children-table start out names [] small =
    ap₂ (λ a b. (a, b)) (sym (append-nil out)) (sym (append-nil names))
put_children-table start out names ((name, akey) ∷ rest) small =
    let sizes = length-append name (all_names rest) in
    let sized = length-append names name in
    let next = (out ++ be 4 (start + length names)) ++ be 4 (length name) in
    rw (small_mod (start + length names) (omega arith), small_mod (length name) (omega arith))
      (put_children-table start (next ++ into_bytes akey) (names ++ name) rest (omega arith)
        ∙ ap₂ (λ a c. (a, c)) (rw (sized, base_eq) (simp append_assoc))
            (append_assoc names name (all_names rest)))
  where
    base_eq : start + (length names + length name) ≡ start + length names + length name
    base_eq = omega arith

put_children-length :
    (start : ℕ) (out names : List ℕ) (cs : Children)
    → (length (put_children start out names cs).0 ≡ length out + length cs * 24)
      × (length (put_children start out names cs).1 ≡ length names + length (all_names cs))
unfolding put_children put_u32
put_children-length start out names [] = (omega arith, omega arith)
put_children-length start out names ((name, akey) ∷ rest) =
    let first = be 4 ((start + length names) % 2 ^ 32) in
    let second = be 4 (length name % 2 ^ 32) in
    let (outs, all) =
      put_children-length start (((out ++ first) ++ second) ++ into_bytes akey) (names ++ name)
        rest in
    (
      omega (
        arith,
        outs,
        length-append ((out ++ first) ++ second) (into_bytes akey),
        length-append (out ++ first) second,
        length-append out first,
        length-be 4 ((start + length names) % 2 ^ 32),
        length-be 4 (length name % 2 ^ 32),
        length-into_bytes akey,
      ),
      omega (arith, all, length-append names name, length-append name (all_names rest)),
    )

pub encode_dir-bytes :
    (cs : Children)
    → length (encode_dir cs) < 2 ^ 32
    → encode_dir cs ≡ be 4 (length cs) ++ (table (4 + length cs * 24) cs ++ all_names cs)
unfolding encode_dir put_u32
encode_dir-bytes cs small =
    let start = 4 + length cs * 24 in
    let head = be 4 (length cs % 2 ^ 32) in
    let (outs, all) = put_children-length start head [] cs in
    let total = length-append (put_children start head [] cs).0 (put_children start head [] cs).1 in
    let fits : start + length (all_names cs) < 2 ^ 32 =
      omega (arith, length-be 4 (length cs % 2 ^ 32)) in
    let closed = put_children-table start head [] cs (omega arith) in
    let whole : encode_dir cs ≡ (head ++ table start cs) ++ all_names cs =
      ap (λ p. p.0 ++ p.1) closed ∙ rw add_zero refl in
    whole
    ∙ rw (small_mod (length cs) (omega arith))
        (append_assoc (be 4 (length cs)) (table start cs) (all_names cs))
  where
    add_zero : 4 + length cs * 24 + 0 ≡ 4 + length cs * 24
    add_zero = omega arith

-- The record of each child stands in its place of the table, and its name where the record says.
module _ (b : List ℕ) where
  pub child_at :
      (at base i : ℕ) (cs : Children) (name : Text) (akey : AKey)
      → At b at (table base cs)
      → At b base (all_names cs)
      → get_elem? cs i ≡ some (name, akey)
      → (name_off : ℕ) × (i < length cs)
        × At b (at + i * 24) (entry_record name_off name akey)
        × At b name_off name
  child_at at base i [] name akey held names e = cc
  child_at at base zero ((n, k) ∷ rest) name akey held names e =
      let same : n ≡ name = cc in
      let same_key : k ≡ akey = cc in
      let record_at : At b at (entry_record base n k) =
        At-left b at (entry_record base n k) (table (base + length n) rest) held in
      let name_at : At b base n = At-left b base n (all_names rest) names in
      (
        base,
        omega arith,
        rw add_zero (
            subst (λ m. At b at (entry_record base m akey)) same
              (subst (λ j. At b at (entry_record base n j)) same_key record_at)),
        subst (λ m. At b base m) same name_at,
      )
    where
      add_zero : at + 0 * 24 ≡ at
      add_zero = omega arith
  child_at at base (suc i) ((n, k) ∷ rest) name akey held names e =
      let (name_off, below, record_at, name_at) =
        child_at (at + 24) (base + length n) i rest name akey
          (At-behind b at 24 (entry_record base n k) (table (base + length n) rest)
            (length-entry_record base n k) held)
          (At-right b base n (all_names rest) names) e in
      (name_off, omega arith, rw shift record_at, name_at)
    where
      shift : at + suc i * 24 ≡ at + 24 + i * 24
      shift = omega arith
