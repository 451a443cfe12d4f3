-- ===== src/Runs/Indexing.antt =====
-- An index over a small tree.
use mathlib.Core.List.{Memᴰ}
use arbordb.Common.{
  ℕ, ◌≡◌, refl, sym, ap, ◌∙◌, ◌↔◌, ◌<◌, ◌^◌, inl, inr, List, [], ◌∷◌, Option, none, some, Bool,
  Bool-cases, true, false, ◌==◌, if◌then◌else◌, length, Result, ok, err, value_not_found, arith,
}
use arbordb.Common.Be.{be}
use arbordb.Common.Lex.{lex}
use arbordb.Codec.Dir.{Children, encode_dir}
use arbordb.Codec.Putters.{put_u32}
use arbordb.Data.Utf8.{is_utf8}
use arbordb.Engine.Entry.{dir_entry, file_entry}
use arbordb.Index.Definitions.{IndexDef}
use arbordb.Index.Key.{entry_key}
use arbordb.Index.Maintenance.{IndexEntry, entries_for}
use arbordb.Index.Pattern.{Pattern, star, affected_entities}
use arbordb.Index.Pattern.Below.{IsTree}
use arbordb.Index.Pattern.Target.{Target}
use arbordb.Index.Pattern.Scope.{affected_entities_lem}
use arbordb.Index.Scan.{Item}
use arbordb.Key.{AKey, root, into_bytes}
use arbordb.Path.Access.{APath}
use arbordb.Perm.Authorize.{Principal}
use arbordb.Txn.Buffer.{new}
use arbordb.Txn.Context.{Context, Action}
use arbordb.Txn.Pending.{Writable}
use arbordb.Txn.Tree.{mv_into}
use arbordb.Txn.Write.{WriteTxn, run, settle, delete_scopes, reindex_around}
use arbordb.Txn.Write.Failed.{reindex_around-failed}
use arbordb.Runs.Samples.{any_chrono, sample_store, empty_table}
use arbordb.Runs.Trees.{sample_engine}

-- "a" ↦ 7 in the root.
abbrev only_child : Children
only_child = (0x61 ∷ [], 7) ∷ []

abbrev leaf_blob : List ℕ
leaf_blob = 1 ∷ 0 ∷ 0 ∷ 0 ∷ 5 ∷ 0 ∷ 0 ∷ []

abbrev tree_table : AKey → Option (List ℕ)
tree_table k =
    if k == root
    then some (dir_entry (encode_dir only_child))
    else if k == 7
    then some (file_entry leaf_blob)
    else none

only_child-Writable : Writable only_child
unfolding is_utf8 encode_dir put_u32 into_bytes be
only_child-Writable = ((refl, omega arith, tt, tt), omega arith)

tree_table-IsTree : IsTree tree_table
tree_table-IsTree = λ k. elim (Bool-cases (k == root)) [
  | inl top ↦ inr (inr (only_child, only_child-Writable, ground (arith, top)))
  | inr other ↦ elim (Bool-cases (k == 7)) [
    | inl leaf ↦ inr (inl (leaf_blob, ground (arith, other, leaf)))
    | inr neither ↦ inl (ground (arith, other, neither))
  ]
]

abbrev every_child : Pattern
every_child = record { segs = star ∷ [] }

abbrev to_a : APath
to_a = record { names = (0x61 ∷ []) ∷ [] }

abbrev to_c : APath
to_c = record { names = (0x63 ∷ []) ∷ [] }

sample-affected : affected_entities tree_table every_child to_a ≡ ok (7 ∷ [])
unfolding affected_entities arbordb.Engine.Entry.entry_split arbordb.Engine.Entry.child_in
    arbordb.Engine.Entry.child_of arbordb.Engine.Entry.dir_entry arbordb.Engine.Entry.file_entry
    arbordb.Codec.Dir.new arbordb.Codec.Dir.get arbordb.Codec.Dir.entries
    arbordb.Codec.Dir.encode_dir arbordb.Codec.Dir.put_children arbordb.Codec.Dir.len
    arbordb.Codec.Dir.read_entries arbordb.Codec.Dir.entry_name arbordb.Codec.Dir.entry_akey
    arbordb.Codec.Read.read_u32 arbordb.Codec.Read.slice arbordb.Codec.Search.search_loop
    arbordb.Common.Be.from_be arbordb.Common.Be.be arbordb.Common.Lex.lex
sample-affected = refl

affected_entities_lem_example :
    Memᴰ {A = AKey} 7 (7 ∷ []) ↔ Target tree_table every_child.segs root to_a.names 7
affected_entities_lem_example =
    affected_entities_lem tree_table every_child to_a (7 ∷ []) 7 tree_table-IsTree sample-affected

-- A unique index of no columns, over every child of the root.
abbrev sample_index : IndexEntry
sample_index = record {
  id = 1;
  def = record { name = 0x69 ∷ []; pattern = 0x2a ∷ []; columns = []; unique = true };
}

abbrev sample_txn : WriteTxn sample_engine sample_store
sample_txn = record {
  context = record {
    entries = tree_table;
    inodes = empty_table;
    table = 0x74 ∷ [];
    now = 9;
    dirs = new false;
    principal = Principal.unrestricted;
    verified = [];
    drawn = 0;
  };
  index = sample_store.insert (entry_key 1 [] none) (into_bytes 7) empty_table;
}

abbrev sample_item : Item
sample_item = (entry_key 1 [] none, into_bytes 7)

-- "c" is not there, and "a" is.
abbrev missing_move : Action sample_engine (Unit {0})
missing_move = mv_into 2 to_c to_a

abbrev settled_txn : WriteTxn sample_engine sample_store
settled_txn = (settle sample_store any_chrono (sample_index ∷ []) 9 sample_txn).1

abbrev deleted_txn : WriteTxn sample_engine sample_store
deleted_txn =
    (delete_scopes sample_store any_chrono (sample_index ∷ []) 9 (to_c ∷ to_a ∷ []) settled_txn).1

sample-settles :
    settle sample_store any_chrono (sample_index ∷ []) 9 sample_txn ≡ (ok tt, settled_txn)
unfolding arbordb.Txn.Write.run arbordb.Txn.Write.opened arbordb.Txn.Write.settle
    arbordb.Txn.Write.delete_scopes arbordb.Txn.Write.insert_scopes arbordb.Txn.Write.bracketed
    arbordb.Txn.Write.reindex_around arbordb.Txn.Tree.flush_taken
    arbordb.Txn.Buffer.take_and_disable arbordb.Txn.Buffer.take arbordb.Txn.Buffer.file_put
    arbordb.Txn.Buffer.dir_put arbordb.Txn.Buffer.new arbordb.Txn.Buffer.file_forget
    arbordb.Txn.Buffer.dir_get arbordb.Txn.Buffer.file_get arbordb.Common.Numbered.insert
    arbordb.Common.Numbered.remove arbordb.Common.Numbered.get arbordb.Txn.Context.◌>>◌
    arbordb.Txn.Context.◌>>=◌ arbordb.Txn.Context.pure arbordb.Txn.Context.lift
    arbordb.Txn.Context.reads arbordb.Txn.Context.modify arbordb.Txn.Context.on_dirs
    arbordb.Txn.Context.on_inodes arbordb.Txn.Context.invalidate_verified
    arbordb.Txn.Context.without arbordb.Txn.Context.stamp arbordb.Txn.Context.stamp_as
    arbordb.Txn.Context.put_entry
sample-settles = refl

sample-deletes :
    delete_scopes sample_store any_chrono (sample_index ∷ []) 9 (to_c ∷ to_a ∷ []) settled_txn
    ≡ (ok tt, deleted_txn)
unfolding arbordb.Txn.Write.run arbordb.Txn.Write.opened arbordb.Txn.Write.settle
    arbordb.Txn.Write.delete_scopes arbordb.Txn.Write.insert_scopes arbordb.Txn.Write.bracketed
    arbordb.Txn.Write.reindex_around arbordb.Index.Maintenance.delete
    arbordb.Index.Maintenance.entries_for arbordb.Index.Maintenance.index_keys
    arbordb.Index.Maintenance.index_key arbordb.Index.Maintenance.column_values
    arbordb.Index.Maintenance.remove_items arbordb.Index.Pattern.parse
    arbordb.Index.Pattern.parse_segs arbordb.Index.Pattern.affected_entities
    arbordb.Index.Pattern.walk arbordb.Index.Pattern.walk_all arbordb.Index.Pattern.descend
    arbordb.Index.Pattern.children arbordb.Path.Access.split arbordb.Path.Access.split_last
    arbordb.Path.Access.pop arbordb.Index.Key.entry_key arbordb.Index.Key.id_prefix
    arbordb.Key.into_bytes arbordb.Index.Definitions.encode_columns
    arbordb.Index.Definitions.encode_zipped arbordb.Txn.Children.values arbordb.Txn.Children.collect
    arbordb.Engine.Entry.entry_split arbordb.Engine.Entry.child_in arbordb.Engine.Entry.child_of
    arbordb.Engine.Entry.dir_entry arbordb.Engine.Entry.file_entry arbordb.Engine.Entry.kind_of
    arbordb.Engine.Entry.children_in arbordb.Codec.Dir.new arbordb.Codec.Dir.get
    arbordb.Codec.Dir.entries arbordb.Codec.Dir.encode_dir arbordb.Codec.Dir.put_children
    arbordb.Codec.Dir.len arbordb.Codec.Dir.read_entries arbordb.Codec.Dir.entry_name
    arbordb.Codec.Dir.entry_akey arbordb.Codec.Read.read_u32 arbordb.Codec.Read.slice
    arbordb.Codec.Search.search_loop arbordb.Common.Be.from_be arbordb.Common.Be.be
    arbordb.Common.Lex.lex arbordb.Txn.Tree.flush_taken arbordb.Txn.Buffer.take_and_disable
    arbordb.Txn.Buffer.take arbordb.Txn.Buffer.file_put arbordb.Txn.Buffer.dir_put
    arbordb.Txn.Buffer.new arbordb.Txn.Buffer.file_forget arbordb.Txn.Buffer.dir_get
    arbordb.Txn.Buffer.file_get arbordb.Common.Numbered.insert arbordb.Common.Numbered.remove
    arbordb.Common.Numbered.get arbordb.Txn.Context.◌>>◌ arbordb.Txn.Context.◌>>=◌
    arbordb.Txn.Context.pure arbordb.Txn.Context.lift arbordb.Txn.Context.reads
    arbordb.Txn.Context.modify arbordb.Txn.Context.on_dirs arbordb.Txn.Context.on_inodes
    arbordb.Txn.Context.invalidate_verified arbordb.Txn.Context.without arbordb.Txn.Context.stamp
    arbordb.Txn.Context.stamp_as arbordb.Txn.Context.put_entry
sample-deletes = refl

sample-fails :
    (run sample_store any_chrono (sample_index ∷ []) 9 missing_move deleted_txn).0
    ≡ err value_not_found
unfolding arbordb.Txn.Write.run arbordb.Txn.Write.opened arbordb.Txn.Write.settle
    arbordb.Txn.Write.delete_scopes arbordb.Txn.Write.insert_scopes arbordb.Txn.Write.bracketed
    arbordb.Txn.Write.reindex_around arbordb.Index.Maintenance.delete
    arbordb.Index.Maintenance.entries_for arbordb.Index.Maintenance.index_keys
    arbordb.Index.Maintenance.index_key arbordb.Index.Maintenance.column_values
    arbordb.Index.Maintenance.remove_items arbordb.Index.Pattern.parse
    arbordb.Index.Pattern.parse_segs arbordb.Index.Pattern.affected_entities
    arbordb.Index.Pattern.walk arbordb.Index.Pattern.walk_all arbordb.Index.Pattern.descend
    arbordb.Index.Pattern.children arbordb.Path.Access.split arbordb.Path.Access.split_last
    arbordb.Path.Access.pop arbordb.Index.Key.entry_key arbordb.Index.Key.id_prefix
    arbordb.Key.into_bytes arbordb.Index.Definitions.encode_columns
    arbordb.Index.Definitions.encode_zipped arbordb.Txn.Children.values arbordb.Txn.Children.collect
    arbordb.Engine.Entry.entry_split arbordb.Engine.Entry.child_in arbordb.Engine.Entry.child_of
    arbordb.Engine.Entry.dir_entry arbordb.Engine.Entry.file_entry arbordb.Engine.Entry.kind_of
    arbordb.Engine.Entry.children_in arbordb.Codec.Dir.new arbordb.Codec.Dir.get
    arbordb.Codec.Dir.entries arbordb.Codec.Dir.encode_dir arbordb.Codec.Dir.put_children
    arbordb.Codec.Dir.len arbordb.Codec.Dir.read_entries arbordb.Codec.Dir.entry_name
    arbordb.Codec.Dir.entry_akey arbordb.Codec.Read.read_u32 arbordb.Codec.Read.slice
    arbordb.Codec.Search.search_loop arbordb.Common.Be.from_be arbordb.Common.Be.be
    arbordb.Common.Lex.lex arbordb.Txn.Reads.resolve arbordb.Txn.Reads.resolve_from
    arbordb.Txn.Reads.check arbordb.Txn.Reads.acl arbordb.Txn.Reads.child arbordb.Txn.Reads.with_dir
    arbordb.Txn.Reads.from_dir arbordb.Txn.Reads.with_entry arbordb.Txn.Reads.from_buffer
    arbordb.Txn.Reads.from_table arbordb.Inode.Functions.read_acl arbordb.Perm.Authorize.authorize
    arbordb.Perm.Authorize.exceeds_guest arbordb.Perm.Authorize.bypasses
    arbordb.Codec.Dir.Names.find arbordb.Txn.Tree.flush_taken arbordb.Txn.Tree.mv_into
    arbordb.Txn.Buffer.take_and_disable arbordb.Txn.Buffer.take arbordb.Txn.Buffer.file_put
    arbordb.Txn.Buffer.dir_put arbordb.Txn.Buffer.new arbordb.Txn.Buffer.file_forget
    arbordb.Txn.Buffer.dir_get arbordb.Txn.Buffer.file_get arbordb.Common.Numbered.insert
    arbordb.Common.Numbered.remove arbordb.Common.Numbered.get arbordb.Txn.Context.◌>>◌
    arbordb.Txn.Context.◌>>=◌ arbordb.Txn.Context.pure arbordb.Txn.Context.lift
    arbordb.Txn.Context.reads arbordb.Txn.Context.modify arbordb.Txn.Context.on_dirs
    arbordb.Txn.Context.on_inodes arbordb.Txn.Context.invalidate_verified
    arbordb.Txn.Context.without arbordb.Txn.Context.stamp arbordb.Txn.Context.stamp_as
    arbordb.Txn.Context.put_entry arbordb.Inode.Functions.inode_key
    arbordb.Txn.Context.verify_integrity arbordb.Txn.Context.verify_as
sample-fails = refl

sample-entries :
    entries_for any_chrono
      (sample_engine.data_store.get settled_txn.context.entries)
      sample_index
      to_a
    ≡ ok (sample_item ∷ [])
unfolding arbordb.Txn.Write.run arbordb.Txn.Write.opened arbordb.Txn.Write.settle
    arbordb.Txn.Write.delete_scopes arbordb.Txn.Write.insert_scopes arbordb.Txn.Write.bracketed
    arbordb.Txn.Write.reindex_around arbordb.Index.Maintenance.delete
    arbordb.Index.Maintenance.entries_for arbordb.Index.Maintenance.index_keys
    arbordb.Index.Maintenance.index_key arbordb.Index.Maintenance.column_values
    arbordb.Index.Maintenance.remove_items arbordb.Index.Pattern.parse
    arbordb.Index.Pattern.parse_segs arbordb.Index.Pattern.affected_entities
    arbordb.Index.Pattern.walk arbordb.Index.Pattern.walk_all arbordb.Index.Pattern.descend
    arbordb.Index.Pattern.children arbordb.Path.Access.split arbordb.Path.Access.split_last
    arbordb.Path.Access.pop arbordb.Index.Key.entry_key arbordb.Index.Key.id_prefix
    arbordb.Key.into_bytes arbordb.Index.Definitions.encode_columns
    arbordb.Index.Definitions.encode_zipped arbordb.Txn.Children.values arbordb.Txn.Children.collect
    arbordb.Engine.Entry.entry_split arbordb.Engine.Entry.child_in arbordb.Engine.Entry.child_of
    arbordb.Engine.Entry.dir_entry arbordb.Engine.Entry.file_entry arbordb.Engine.Entry.kind_of
    arbordb.Engine.Entry.children_in arbordb.Codec.Dir.new arbordb.Codec.Dir.get
    arbordb.Codec.Dir.entries arbordb.Codec.Dir.encode_dir arbordb.Codec.Dir.put_children
    arbordb.Codec.Dir.len arbordb.Codec.Dir.read_entries arbordb.Codec.Dir.entry_name
    arbordb.Codec.Dir.entry_akey arbordb.Codec.Read.read_u32 arbordb.Codec.Read.slice
    arbordb.Codec.Search.search_loop arbordb.Common.Be.from_be arbordb.Common.Be.be
    arbordb.Common.Lex.lex arbordb.Txn.Tree.flush_taken arbordb.Txn.Buffer.take_and_disable
    arbordb.Txn.Buffer.take arbordb.Txn.Buffer.file_put arbordb.Txn.Buffer.dir_put
    arbordb.Txn.Buffer.new arbordb.Txn.Buffer.file_forget arbordb.Txn.Buffer.dir_get
    arbordb.Txn.Buffer.file_get arbordb.Common.Numbered.insert arbordb.Common.Numbered.remove
    arbordb.Common.Numbered.get arbordb.Txn.Context.◌>>◌ arbordb.Txn.Context.◌>>=◌
    arbordb.Txn.Context.pure arbordb.Txn.Context.lift arbordb.Txn.Context.reads
    arbordb.Txn.Context.modify arbordb.Txn.Context.on_dirs arbordb.Txn.Context.on_inodes
    arbordb.Txn.Context.invalidate_verified arbordb.Txn.Context.without arbordb.Txn.Context.stamp
    arbordb.Txn.Context.stamp_as arbordb.Txn.Context.put_entry
sample-entries = refl

reindex_around-failed_example :
    ((reindex_around sample_store any_chrono
        (sample_index ∷ [])
        9
        (to_c ∷ to_a ∷ [])
        missing_move
        sample_txn).0
      ≡ err value_not_found)
    × (sample_store.get
          (reindex_around sample_store any_chrono
            (sample_index ∷ [])
            9
            (to_c ∷ to_a ∷ [])
            missing_move
            sample_txn).1.index
          sample_item.0
        ≡ none)
reindex_around-failed_example =
    reindex_around-failed sample_store any_chrono (sample_index ∷ []) 9 sample_item.0 sample_item.1
      (to_c ∷ to_a ∷ []) missing_move sample_txn settled_txn deleted_txn value_not_found to_a
      sample_index (sample_item ∷ []) sample-settles sample-deletes sample-fails
      (Memᴰ.tail (Memᴰ.head refl)) (Memᴰ.head refl) sample-entries (Memᴰ.head refl)
