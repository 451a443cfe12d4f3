-- ===== src/Acl/RoundTrip.antt =====
-- An access-control list is read back as it was written.
use arbordb.Common.{
  ℕ, suc, ◌^◌, ◌<◌, ◌≡◌, sym, subst, ◌∙◌, List, [], ◌∷◌, ◌++◌, append_assoc, append-nil, length,
  arith, ok,
}
use arbordb.Common.Be.{small_mod, be}
use arbordb.Common.Numbered
use arbordb.Common.Numbered.{AllBelow, AllBelow-snoc, AllBelow-weaken, insert-AllBelow}
use arbordb.Codec.Reader.{u8, u32, new}
use arbordb.Codec.Reader.Reads.{
  Reads, Reads-bind, Reads-pure, Reads-u8, Reads-u32, Reads-along, Ahead-new,
}
use arbordb.Acl.{
  Acl, Groups, GroupsAbove, IsValid, put_groups, encode, read_groups, read_acl, decode,
}
use arbordb.Acl.Grades.{to_bits, from_bits-to_bits}

group_bytes : Groups → List ℕ
group_bytes [] = []
group_bytes ((gid, rights) ∷ rest) = be 4 gid ++ (to_bits rights ∷ group_bytes rest)

put_groups_lem : (out : List ℕ) (group : Groups) → put_groups out group ≡ out ++ group_bytes group
unfolding put_groups group_bytes
put_groups_lem out [] = sym (append-nil out)
put_groups_lem out ((gid, rights) ∷ rest) =
    put_groups_lem ((out ++ be 4 gid) ++ to_bits rights ∷ []) rest ∙ simp append_assoc

Reads-read_groups :
    (group done : Groups) (bound : ℕ)
    → AllBelow done bound
    → GroupsAbove bound group
    → Reads (read_groups (length group) done) (group_bytes group) (done ++ group)
unfolding read_groups group_bytes
Reads-read_groups [] done bound below up = rw (append-nil done) (Reads-pure done)
Reads-read_groups ((gid, rights) ∷ rest) done bound below up =
    let here = AllBelow-weaken bound gid done up.0 below in
    let placed : Numbered.insert gid rights done ≡ done ++ (gid, rights) ∷ [] =
      insert-AllBelow gid rights done here in
    let next =
      Reads-read_groups rest (done ++ (gid, rights) ∷ []) (suc gid)
        (AllBelow-snoc gid (suc gid) rights done (omega arith) here) up.2 in
    Reads-bind u32 _ (be 4 gid) (to_bits rights ∷ group_bytes rest) gid
      (done ++ (gid, rights) ∷ rest) (Reads-u32 gid up.1)
      (Reads-bind u8 _ (to_bits rights ∷ []) (group_bytes rest) (to_bits rights)
        (done ++ (gid, rights) ∷ rest) (Reads-u8 (to_bits rights))
        (rw (from_bits-to_bits rights, placed)
          (subst (Reads (read_groups (length rest) (done ++ (gid, rights) ∷ [])) (group_bytes rest))
            (append_assoc done ((gid, rights) ∷ []) rest) next)))

acl_bytes : Acl → List ℕ
acl_bytes acl =
    be 4 acl.owner_uid
    ++ (to_bits acl.owner
        ∷ (to_bits acl.other ∷ (be 4 (length acl.group) ++ group_bytes acl.group)))

encode_lem : (acl : Acl) → length acl.group < 2 ^ 32 → encode acl ≡ acl_bytes acl
unfolding encode acl_bytes
encode_lem acl small =
    put_groups_lem _ acl.group ∙ rw (small_mod (length acl.group) small) (simp append_assoc)

Reads-read_acl : (acl : Acl) → IsValid acl → Reads read_acl (acl_bytes acl) acl
unfolding read_acl acl_bytes
Reads-read_acl acl valid =
    Reads-bind u32 _ (be 4 acl.owner_uid) _ acl.owner_uid acl (Reads-u32 acl.owner_uid valid.0) (
      Reads-bind u8 _ (to_bits acl.owner ∷ []) _ (to_bits acl.owner) acl
        (Reads-u8 (to_bits acl.owner))
        (Reads-bind u8 _ (to_bits acl.other ∷ []) _ (to_bits acl.other) acl
          (Reads-u8 (to_bits acl.other))
          (Reads-bind u32 _ (be 4 (length acl.group)) _ (length acl.group) acl
            (Reads-u32 (length acl.group) valid.1)
            (Reads-along _ acl (append-nil (group_bytes acl.group)) (
              Reads-bind (read_groups (length acl.group) []) _ (group_bytes acl.group) [] acl.group
                acl (Reads-read_groups acl.group [] 0 tt valid.2)
                (rw (from_bits-to_bits acl.owner, from_bits-to_bits acl.other)
                  (Reads-pure acl)))))))

-- An access-control list whose groups ascend is decoded from its encoding, whatever bytes follow.
pub decode_acl-encode :
    (acl : Acl) (more : List ℕ)
    → IsValid acl
    → length (encode acl ++ more) < 2 ^ 64
    → decode (encode acl ++ more) ≡ ok acl
unfolding decode
decode_acl-encode acl more valid small =
    let e = encode_lem acl valid.1 in
    let read =
      (Reads-read_acl acl valid).at (new (acl_bytes acl ++ more)) more
        (Ahead-new (acl_bytes acl ++ more) (subst (λ b. length (b ++ more) < 2 ^ 64) e small)) in
    rw (e, decode, read)
