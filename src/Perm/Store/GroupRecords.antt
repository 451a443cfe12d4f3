-- ===== src/Perm/Store/GroupRecords.antt =====
-- The blob of groups is read back as it was written.
use arbordb.Common.{
  ℕ, ◌^◌, ◌<◌, ◌≡◌, sym, subst, ◌∙◌, List, [], ◌∷◌, ◌++◌, append_assoc, append-nil, some, length,
  ok, All,
}
use arbordb.Common.Be.{be, small_mod}
use arbordb.Data.Utf8.{IsUtf8, from_utf8_lem}
use arbordb.Codec.Putters.{put_u32, put_bytes}
use arbordb.Codec.Reader.{new, u32, bytes, repeat}
use arbordb.Codec.Reader.Reads.{
  Reads, Reads-bind, Reads-pure, Reads-u32, Reads-bytes, Reads-along, Reads-repeat, concat_map,
  Ahead-new,
}
use arbordb.Perm.Store.{
  GroupRecord, Groups, load_groups, put_group_records, encode_groups, read_group,
  read_group_records, decode_groups,
}
use arbordb.Perm.Store.RoundTrip.{run, put_run}

abbrev pub GroupIsValid : GroupRecord → Type 0
GroupIsValid group = IsUtf8 group.name × (length group.name < 2 ^ 32) × (group.gid < 2 ^ 32)

abbrev pub GroupsAreValid : Groups → Type 0
GroupsAreValid store =
    (store.next_gid < 2 ^ 32) × (length store.groups < 2 ^ 32) × All GroupIsValid store.groups

abbrev group_bytes : GroupRecord → List ℕ
group_bytes group = run group.name ++ be 4 group.gid

Reads-group :
    (group : GroupRecord) → GroupIsValid group → Reads read_group (group_bytes group) group
unfolding read_group
Reads-group group valid =
    Reads-bind bytes _ (run group.name) (be 4 group.gid) group.name group
      (Reads-bytes group.name valid.1)
      (rw (from_utf8_lem group.name valid.0) (
        Reads-along _ group (append-nil (be 4 group.gid)) (
          Reads-bind u32 _ (be 4 group.gid) [] group.gid group (Reads-u32 group.gid valid.2)
            (Reads-pure group))))

put_group_records_lem :
    (buf : List ℕ) (groups : List GroupRecord)
    → All GroupIsValid groups
    → put_group_records buf groups ≡ buf ++ concat_map group_bytes groups
unfolding put_group_records put_u32
put_group_records_lem buf [] h = sym (append-nil buf)
put_group_records_lem buf (group ∷ groups) h =
    put_group_records_lem (put_bytes buf group.name ++ be 4 group.gid) groups h.1
    ∙ rw (put_run buf group.name h.0.1) (simp append_assoc)

Reads-each_group :
    (groups : List GroupRecord)
    → All GroupIsValid groups
    → All (λ group. Reads read_group (group_bytes group) group) groups
Reads-each_group [] h = tt
Reads-each_group (group ∷ groups) h = (Reads-group group h.0, Reads-each_group groups h.1)

groups_bytes : Groups → List ℕ
groups_bytes store =
    be 4 store.next_gid ++ (be 4 (length store.groups) ++ concat_map group_bytes store.groups)

encode_groups_lem :
    (store : Groups) → GroupsAreValid store → encode_groups store ≡ groups_bytes store
unfolding encode_groups groups_bytes put_u32
encode_groups_lem store valid =
    put_group_records_lem _ store.groups valid.2
    ∙ rw (small_mod (length store.groups) valid.1) (simp append_assoc)

Reads-read_groups :
    (store : Groups) → GroupsAreValid store → Reads read_group_records (groups_bytes store) store
unfolding read_group_records groups_bytes
Reads-read_groups store valid =
    Reads-bind u32 _ (be 4 store.next_gid) _ store.next_gid store (Reads-u32 store.next_gid valid.0)
      (Reads-bind u32 _ (be 4 (length store.groups)) _ (length store.groups) store
        (Reads-u32 (length store.groups) valid.1)
        (Reads-along _ store (append-nil (concat_map group_bytes store.groups)) (
          Reads-bind (repeat read_group (length store.groups)) _
            (concat_map group_bytes store.groups) [] store.groups store
            (Reads-repeat read_group group_bytes store.groups
              (Reads-each_group store.groups valid.2))
            (Reads-pure store))))

decode_groups-encode :
    (store : Groups) (more : List ℕ)
    → GroupsAreValid store
    → length (encode_groups store ++ more) < 2 ^ 64
    → decode_groups (encode_groups store ++ more) ≡ ok store
unfolding decode_groups
decode_groups-encode store more valid small =
    let e = encode_groups_lem store valid in
    let read =
      (Reads-read_groups store valid).at (new (groups_bytes store ++ more)) more (
        Ahead-new (groups_bytes store ++ more)
          (subst (λ b. length (b ++ more) < 2 ^ 64) e small)) in
    rw (e, decode_groups, read)

-- The groups are loaded from the blob that they were stored as, when names are valid UTF-8 and lengths
-- and ids are below 2³².
pub load_groups-encode :
    (store : Groups)
    → GroupsAreValid store
    → length (encode_groups store) < 2 ^ 64
    → load_groups (some (encode_groups store)) ≡ ok store
unfolding load_groups
load_groups-encode store valid small =
    let e = append-nil (encode_groups store) in
    rw e at (decode_groups-encode store [] valid (rw e small))
