-- ===== src/Runs/Access.antt =====
-- Access-control lists and inodes.
use arbordb.Common.{
  ℕ, ◌^◌, ◌<◌, ◌≡◌, ◌≢◌, refl, ◌⊎◌, List, [], ◌∷◌, ◌++◌, Option, none, some, length, ok, arith,
}
use arbordb.Common.Be.{be}
use arbordb.Codec.Putters.{put_bytes, put_u32}
use arbordb.Data.Utf8.{Text}
use arbordb.Key.{into_bytes}
use arbordb.Acl.{
  Acl, GroupsAbove, group_rights, set_group_rights, add_group, remove_group, has_group,
  effective_rights, put_groups, default_for,
}
use arbordb.Acl
use arbordb.Acl.Grades.{Rights, to_bits}
use arbordb.Acl.Effective.{effective_rights_lem, Strongest, NoneShared}
use arbordb.Acl.Groups.{is_granted, group_rights-set_group_rights}
use arbordb.Acl.RoundTrip.{decode_acl-encode}
use arbordb.Inode.Node.{
  Inode, UnderlyingTimestamps, encode, decode, sections, put_sections, encode_timestamps,
}
use arbordb.Inode.Node
use arbordb.Inode.RoundTrip.{decode_inode-encode}
use arbordb.Inode.Functions.{
  inode_key, touched, owned, sealed, touch, stamp_and_seal, bump_access, read_meta,
}
use arbordb.Inode.Functions.Keys.{inode_key-injective}
use arbordb.Inode.Functions.Changes.{
  Storable, Held, stamped, settled_acl, list_bytes, written, visited, touch_lem, stamp_and_seal_lem,
  bump_access_lem,
}
use arbordb.Runs.Samples.{sample_store, zeros, empty_table}

seven_not_eight : ◌≢◌ {A = ℕ} 7 8
seven_not_eight e = omega arith

-- User 1 owns it; group 7 may read, group 8 may write.
abbrev sample_acl : Acl
sample_acl = record {
  owner_uid = 1;
  owner = Rights.delete;
  group = (7, Rights.access) ∷ (8, Rights.modify) ∷ [];
  other = Rights.no_access;
}

sample_acl-IsValid : Acl.IsValid sample_acl
sample_acl-IsValid =
    (omega arith, omega arith, (omega arith, omega arith, (omega arith, omega arith, tt)))

sample_acl-small : length (Acl.encode sample_acl ++ 9 ∷ []) < 2 ^ 64
unfolding Acl.encode put_groups be to_bits
sample_acl-small = omega arith

decode_acl-encode_example : Acl.decode (Acl.encode sample_acl ++ 9 ∷ []) ≡ ok sample_acl
decode_acl-encode_example =
    decode_acl-encode sample_acl (9 ∷ []) sample_acl-IsValid sample_acl-small

group_rights-set_group_rights_example :
    (group_rights (set_group_rights sample_acl 7 Rights.delete) 7 ≡ Rights.delete)
    × (group_rights (set_group_rights sample_acl 7 Rights.delete) 8 ≡ group_rights sample_acl 8)
    × (has_group (set_group_rights sample_acl 7 Rights.delete) 7 ≡ is_granted Rights.delete)
    × (has_group (set_group_rights sample_acl 7 Rights.delete) 8 ≡ has_group sample_acl 8)
    × GroupsAbove 0 (set_group_rights sample_acl 7 Rights.delete).group
group_rights-set_group_rights_example =
    group_rights-set_group_rights sample_acl 7 8 Rights.delete sample_acl-IsValid.2 (omega arith)
      seven_not_eight

effective_rights_lem_example :
    ((2 ≡ sample_acl.owner_uid) × (effective_rights sample_acl 2 (7 ∷ 8 ∷ []) ≡ sample_acl.owner))
    ⊎ ((2 ≢ sample_acl.owner_uid)
        × Strongest sample_acl.group (7 ∷ 8 ∷ []) (effective_rights sample_acl 2 (7 ∷ 8 ∷ [])))
    ⊎ ((2 ≢ sample_acl.owner_uid)
        × NoneShared sample_acl.group (7 ∷ 8 ∷ [])
        × (effective_rights sample_acl 2 (7 ∷ 8 ∷ []) ≡ sample_acl.other))
effective_rights_lem_example = effective_rights_lem sample_acl 2 (7 ∷ 8 ∷ [])

abbrev sample_times : UnderlyingTimestamps
sample_times = record { created = 1; modified = 2; accessed = 3 }

abbrev sample_inode : Inode
sample_inode = record {
  timestamps = some sample_times;
  acl = some sample_acl;
  mac = some (zeros 32);
  sig = none;
  extra = (200, 1 ∷ 2 ∷ []) ∷ [];
}

sample_inode-Storable : Storable sample_inode
unfolding encode sections put_sections encode_timestamps put_bytes put_u32 Acl.encode put_groups be
    to_bits
sample_inode-Storable = (
  (
    (omega arith, omega arith, omega arith),
    (sample_acl-IsValid, omega arith),
    refl,
    tt,
    ((omega arith, omega arith, omega arith), tt),
    omega arith,
  ),
  omega arith,
)

decode_inode-encode_example : decode (encode sample_inode) ≡ ok sample_inode
decode_inode-encode_example =
    decode_inode-encode sample_inode sample_inode-Storable.0 sample_inode-Storable.1

abbrev table_name : Text
table_name = 0x74 ∷ []

inode_key-injective_example : (table_name ≡ table_name) × ◌≡◌ {A = ℕ} 5 5
inode_key-injective_example =
    inode_key-injective table_name table_name 5 5 (omega arith) (omega arith) (omega arith)
      (omega arith) refl

key_not_empty : inode_key table_name 5 ≢ []
unfolding inode_key put_bytes put_u32 into_bytes be
key_not_empty e = cc

written-Storable : Storable (written Node.default 9)
unfolding encode sections put_sections encode_timestamps put_bytes put_u32 be
written-Storable =
    (((omega arith, omega arith, omega arith), tt, tt, tt, tt, omega arith), omega arith)

touch_lem_example :
    (changed : sample_store.Table) × (touch sample_store empty_table table_name 5 9 ≡ ok changed)
    × Held sample_store changed (inode_key table_name 5) (
        some (record Node.default {
          timestamps = some (record { created = 9; modified = 9; accessed = 9 });
        }))
    × (read_meta sample_store changed table_name 5
        ≡ read_meta sample_store empty_table table_name 5)
    × (sample_store.get changed [] ≡ sample_store.get empty_table [])
touch_lem_example =
    touch_lem sample_store empty_table table_name 5 9 none [] refl written-Storable key_not_empty

abbrev seal_with_zeros : List ℕ → List ℕ × List ℕ
seal_with_zeros bytes = (zeros 32, zeros 64)

stamped-Storable : Storable (stamped sample_store Node.default 9 (some 1) seal_with_zeros)
unfolding touched owned sealed default_for encode sections put_sections encode_timestamps put_bytes
    put_u32 Acl.encode put_groups be to_bits
stamped-Storable = (
  (
    (omega arith, omega arith, omega arith),
    ((omega arith, omega arith, tt), omega arith),
    refl,
    refl,
    tt,
    omega arith,
  ),
  omega arith,
)

stamp_and_seal_lem_example :
    (changed : sample_store.Table) × (stamp_and_seal sample_store empty_table table_name 5 9
        (some 1)
        seal_with_zeros
      ≡ ok changed)
    × (read_meta sample_store changed table_name 5
        ≡ ok (
          settled_acl none (some 1),
          some (seal_with_zeros (list_bytes (settled_acl none (some 1)))).0,
          some (seal_with_zeros (list_bytes (settled_acl none (some 1)))).1,
        ))
    × (sample_store.get changed [] ≡ sample_store.get empty_table [])
stamp_and_seal_lem_example =
    stamp_and_seal_lem sample_store empty_table table_name 5 9 (some 1) seal_with_zeros none [] refl
      stamped-Storable key_not_empty

abbrev one_inode : List ℕ → Option (List ℕ)
one_inode = sample_store.insert (inode_key table_name 5) (encode sample_inode) empty_table

bump_access_lem_example :
    (changed : sample_store.Table) × (bump_access sample_store one_inode table_name 5 9
      ≡ ok changed)
    × (sample_store.get changed (inode_key table_name 5) ≡ visited 9 (some sample_inode))
    × (sample_store.get changed [] ≡ sample_store.get one_inode [])
bump_access_lem_example =
    bump_access_lem sample_store one_inode table_name 5 9 (some sample_inode) []
      (
        sample_store.get-insert_same empty_table (inode_key table_name 5) (encode sample_inode),
        sample_inode-Storable,
      )
      key_not_empty
