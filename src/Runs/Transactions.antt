-- ===== src/Runs/Transactions.antt =====
-- A transaction over a small tree.
use mathlib.Core.List.{Memᴰ}
use mathlib.Core.List.Memᴰ
use arbordb.Common.{
  ℕ, ◌≡◌, ◌⊎◌, inl, inr, sym, ap, subst, ◌∙◌, Option, Result, refl, [], ◌∷◌, List, some, none, ok,
  true, length, ◌<◌, ◌^◌, arith, ◌==◌, if◌then◌else◌,
}
use arbordb.Path.Access.{APath}
use arbordb.Engine.Entry.{keys_in, entry_split, map_some}
use arbordb.Txn.Pending.Reads.{held, keys_in-encode_dir}
use arbordb.Key.{AKey, root}
use arbordb.Txn.Children.{insert}
use arbordb.Txn.Pending.{pending, pending_dir, IsSound}
use arbordb.Txn.Pending.Flush.{commit_flush_lem}
use arbordb.Txn.Pending.Walk.{walk, resolve_lem}
use arbordb.Txn.Pending.Links.{Relinked, link_child_lem}
use arbordb.Txn.Pending.Cascade.{cascade_delete-Under, cascade_delete_rest}
use arbordb.Txn.Pending.Succeeds.{cascade_delete_succeeds}
use arbordb.Txn.Pending.Removes.{Under, itself, below, Holds, Within, Readable}
use arbordb.Data.Scalar.{Scalar}
use arbordb.Runs.Samples.{any_chrono}
use arbordb.Txn.Files.{put_scalar_into}
use arbordb.Txn.Reads.{resolve, child}
use arbordb.Txn.Tree.{commit_flush, mv_into, link_child, cascade_delete}
use arbordb.Runs.Trees.{entry_store, sample_engine, sample_context, sample-IsSound, inner_children}

sample-flushes : (commit_flush sample_context).0 ≡ ok tt
unfolding arbordb.Txn.Tree.commit_flush arbordb.Txn.Tree.flush_taken arbordb.Txn.Tree.flush_buffered
    arbordb.Txn.Tree.flush_dirs arbordb.Txn.Tree.flush_files arbordb.Txn.Buffer.take
    arbordb.Txn.Buffer.file_put arbordb.Txn.Buffer.dir_put arbordb.Txn.Buffer.new
    arbordb.Txn.Buffer.file_forget arbordb.Txn.Buffer.dir_get arbordb.Txn.Buffer.file_get
    arbordb.Common.Numbered.insert arbordb.Common.Numbered.remove arbordb.Common.Numbered.get
    arbordb.Txn.Context.◌>>◌ arbordb.Txn.Context.◌>>=◌ arbordb.Txn.Context.pure
    arbordb.Txn.Context.lift arbordb.Txn.Context.reads arbordb.Txn.Context.modify
    arbordb.Txn.Context.on_dirs arbordb.Txn.Context.on_inodes
    arbordb.Txn.Context.invalidate_verified arbordb.Txn.Context.without arbordb.Txn.Context.stamp
    arbordb.Txn.Context.stamp_as arbordb.Txn.Context.put_entry arbordb.Inode.Functions.inode_key
    arbordb.Inode.Functions.load arbordb.Inode.Functions.touch arbordb.Inode.Functions.touched
    arbordb.Inode.Node.encode arbordb.Inode.Node.sections arbordb.Inode.Node.put_sections
    arbordb.Inode.Node.encode_timestamps arbordb.Common.Lex.lex arbordb.Runs.Samples.put
    arbordb.Runs.Trees.put_key arbordb.Common.Be.be
sample-flushes = refl

commit_flush_lem_example :
    entry_store.get (commit_flush sample_context).1.entries 7 ≡ pending sample_context 7
commit_flush_lem_example = commit_flush_lem sample_context 7 sample-IsSound sample-flushes

abbrev sample_path : APath
sample_path = record { names = (0x61 ∷ []) ∷ (0x62 ∷ []) ∷ [] }

sample-resolves : (resolve sample_path sample_context).0 ≡ ok (some 7)
unfolding arbordb.Txn.Reads.resolve arbordb.Txn.Reads.resolve_from arbordb.Txn.Reads.check
    arbordb.Txn.Reads.acl arbordb.Txn.Reads.child arbordb.Txn.Reads.with_dir
    arbordb.Txn.Reads.from_dir arbordb.Txn.Reads.with_entry arbordb.Txn.Reads.from_buffer
    arbordb.Txn.Reads.from_table arbordb.Inode.Functions.read_acl arbordb.Perm.Authorize.authorize
    arbordb.Perm.Authorize.exceeds_guest arbordb.Perm.Authorize.bypasses
    arbordb.Codec.Dir.Names.find arbordb.Txn.Buffer.take arbordb.Txn.Buffer.file_put
    arbordb.Txn.Buffer.dir_put arbordb.Txn.Buffer.new arbordb.Txn.Buffer.file_forget
    arbordb.Txn.Buffer.dir_get arbordb.Txn.Buffer.file_get arbordb.Common.Numbered.insert
    arbordb.Common.Numbered.remove arbordb.Common.Numbered.get arbordb.Txn.Context.◌>>◌
    arbordb.Txn.Context.◌>>=◌ arbordb.Txn.Context.pure arbordb.Txn.Context.lift
    arbordb.Txn.Context.reads arbordb.Txn.Context.modify arbordb.Txn.Context.on_dirs
    arbordb.Txn.Context.on_inodes arbordb.Txn.Context.invalidate_verified
    arbordb.Txn.Context.without arbordb.Txn.Context.stamp arbordb.Txn.Context.stamp_as
    arbordb.Txn.Context.put_entry arbordb.Inode.Functions.inode_key arbordb.Inode.Functions.load
    arbordb.Inode.Functions.touch arbordb.Inode.Functions.touched arbordb.Inode.Node.encode
    arbordb.Inode.Node.sections arbordb.Inode.Node.put_sections arbordb.Inode.Node.encode_timestamps
    arbordb.Common.Lex.lex
sample-resolves = refl

resolve_lem_example : walk (pending sample_context) root sample_path.names ≡ ok (some 7)
resolve_lem_example = resolve_lem sample_context sample_path (some 7) sample-IsSound sample-resolves

sample-links : (link_child 5 (0x63 ∷ []) 8 sample_context).0 ≡ ok tt
unfolding arbordb.Txn.Tree.link_child arbordb.Txn.Reads.dir_link arbordb.Txn.Reads.dir_change
    arbordb.Txn.Buffer.bump_structure arbordb.Txn.Children.insert arbordb.Txn.Buffer.take
    arbordb.Txn.Buffer.file_put arbordb.Txn.Buffer.dir_put arbordb.Txn.Buffer.new
    arbordb.Txn.Buffer.file_forget arbordb.Txn.Buffer.dir_get arbordb.Txn.Buffer.file_get
    arbordb.Common.Numbered.insert arbordb.Common.Numbered.remove arbordb.Common.Numbered.get
    arbordb.Txn.Context.◌>>◌ arbordb.Txn.Context.◌>>=◌ arbordb.Txn.Context.pure
    arbordb.Txn.Context.lift arbordb.Txn.Context.reads arbordb.Txn.Context.modify
    arbordb.Txn.Context.on_dirs arbordb.Txn.Context.on_inodes
    arbordb.Txn.Context.invalidate_verified arbordb.Txn.Context.without arbordb.Txn.Context.stamp
    arbordb.Txn.Context.stamp_as arbordb.Txn.Context.put_entry
sample-links = refl

link_child_lem_example :
    Relinked 5 (insert (0x63 ∷ []) 8) sample_context (link_child 5 (0x63 ∷ []) 8 sample_context).1
link_child_lem_example = link_child_lem 5 (0x63 ∷ []) 8 sample_context sample-IsSound sample-links

inner-Holds : Holds (pending sample_context 5) (7 ∷ [])
unfolding arbordb.Txn.Buffer.take arbordb.Txn.Buffer.file_put arbordb.Txn.Buffer.dir_put
    arbordb.Txn.Buffer.new arbordb.Txn.Buffer.file_forget arbordb.Txn.Buffer.dir_get
    arbordb.Txn.Buffer.file_get arbordb.Common.Numbered.insert arbordb.Common.Numbered.remove
    arbordb.Common.Numbered.get arbordb.Txn.Children.values
inner-Holds =
    ap (held keys_in) (pending_dir sample_context 5 inner_children refl)
    ∙ ap map_some
        (keys_in-encode_dir inner_children (sample-IsSound.writable 5 inner_children refl))

file-Holds : Holds (pending sample_context 7) []
unfolding keys_in entry_split arbordb.Txn.Pending.pending arbordb.Txn.Pending.pending_of
    arbordb.Txn.Pending.first_of arbordb.Txn.Buffer.take arbordb.Txn.Buffer.file_put
    arbordb.Txn.Buffer.dir_put arbordb.Txn.Buffer.new arbordb.Txn.Buffer.file_forget
    arbordb.Txn.Buffer.dir_get arbordb.Txn.Buffer.file_get arbordb.Common.Numbered.insert
    arbordb.Common.Numbered.remove arbordb.Common.Numbered.get
file-Holds = refl

Holds-unique :
    (o : Option (List ℕ)) (keys found : List AKey) → Holds o keys → Holds o found → found ≡ keys
Holds-unique o keys found h f = go (sym f ∙ h)
  where
    go : ◌≡◌ {A = Result (Option (List AKey))} (ok (some found)) (ok (some keys)) → found ≡ keys
    go e = cc

file-Within : Within (pending sample_context) 1 7
file-Within = λ keys m h mem.
    Memᴰ.not-nil (subst (Memᴰ m) (Holds-unique (pending sample_context 7) [] keys file-Holds h) mem)

inner-Within : Within (pending sample_context) 2 5
inner-Within = λ keys m h mem.
    elim (Memᴰ.cases_cons
      (subst (Memᴰ m) (Holds-unique (pending sample_context 5) (7 ∷ []) keys inner-Holds h) mem)) [
        | inl e ↦ subst (Within (pending sample_context) 1) (sym e) file-Within
        | inr more ↦ absurd (Memᴰ.not-nil more)
      ]

below-Readable :
    (e : AKey → Option (List ℕ)) (k : AKey) (keys : List AKey)
    → Holds (e k) keys
    → ((m : AKey) → Memᴰ m keys → Readable e m)
    → Readable e k
below-Readable e k keys holds each = λ j under. go k j under holds
  where
    go :
        (n j : AKey)
        → Under e n j
        → Holds (e n) keys
        → (r : Option (List AKey)) × (held keys_in (e j) ≡ ok r)
    go n j (itself m) h = (some keys, h)
    go n j (below i m l found f mem under) h =
        each m (subst (Memᴰ m) (Holds-unique (e i) keys found h f) mem) l under

file-Readable : Readable (pending sample_context) 7
file-Readable =
    below-Readable (pending sample_context) 7 [] file-Holds (λ m mem. absurd (Memᴰ.not-nil mem))

inner-Readable : Readable (pending sample_context) 5
inner-Readable = below-Readable (pending sample_context) 5 (7 ∷ []) inner-Holds (λ m mem.
    elim (Memᴰ.cases_cons mem) [
      | inl e ↦ subst (Readable (pending sample_context)) (sym e) file-Readable
      | inr more ↦ absurd (Memᴰ.not-nil more)
    ])

cascade_delete_succeeds_example : (cascade_delete 2 5 sample_context).0 ≡ ok tt
cascade_delete_succeeds_example =
    cascade_delete_succeeds 2 5 sample_context sample-IsSound refl inner-Within inner-Readable

sample-cascades : (cascade_delete 2 5 sample_context).0 ≡ ok tt
unfolding cascade_delete arbordb.Txn.Children.values arbordb.Txn.Buffer.take
    arbordb.Txn.Buffer.file_put arbordb.Txn.Buffer.dir_put arbordb.Txn.Buffer.new
    arbordb.Txn.Buffer.file_forget arbordb.Txn.Buffer.dir_get arbordb.Txn.Buffer.file_get
    arbordb.Common.Numbered.insert arbordb.Common.Numbered.remove arbordb.Common.Numbered.get
    arbordb.Txn.Context.◌>>◌ arbordb.Txn.Context.◌>>=◌ arbordb.Txn.Context.pure
    arbordb.Txn.Context.lift arbordb.Txn.Context.reads arbordb.Txn.Context.modify
    arbordb.Txn.Context.on_dirs arbordb.Txn.Context.on_inodes
    arbordb.Txn.Context.invalidate_verified arbordb.Txn.Context.without arbordb.Txn.Context.stamp
    arbordb.Txn.Context.stamp_as arbordb.Txn.Context.put_entry arbordb.Txn.Reads.resolve
    arbordb.Txn.Reads.resolve_from arbordb.Txn.Reads.check arbordb.Txn.Reads.acl
    arbordb.Txn.Reads.child arbordb.Txn.Reads.with_dir arbordb.Txn.Reads.from_dir
    arbordb.Txn.Reads.with_entry arbordb.Txn.Reads.from_buffer arbordb.Txn.Reads.from_table
    arbordb.Inode.Functions.read_acl arbordb.Perm.Authorize.authorize
    arbordb.Perm.Authorize.exceeds_guest arbordb.Perm.Authorize.bypasses
    arbordb.Codec.Dir.Names.find arbordb.Txn.Reads.cascade_children arbordb.Txn.Context.for_each
    arbordb.Txn.Context.remove_entry arbordb.Txn.Buffer.forget arbordb.Inode.Functions.forget
    arbordb.Engine.Entry.keys_in arbordb.Engine.Entry.entry_split
sample-cascades = refl

cascade_delete-Under_example : pending (cascade_delete 2 5 sample_context).1 7 ≡ none
cascade_delete-Under_example =
    cascade_delete-Under 2 5 sample_context 7 sample-IsSound sample-cascades
      (below 5 7 7 (7 ∷ []) inner-Holds (Memᴰ.head refl) (itself 7))

cascade_delete_rest_example :
    (pending (cascade_delete 2 5 sample_context).1 root ≡ pending sample_context root)
    ⊎ (Under (pending sample_context) 5 root
        × (pending (cascade_delete 2 5 sample_context).1 root ≡ none))
cascade_delete_rest_example =
    cascade_delete_rest 2 5 sample_context root sample-IsSound sample-cascades

-- Moving "a/b" to "a" removes the directory with what is to be moved in it, and links the removed a-node.
mv_into-ancestor :
    ((mv_into 3 sample_path (record { names = (0x61 ∷ []) ∷ [] }) sample_context).0 ≡ ok tt)
    × ((child root
          (0x61 ∷ [])
          (mv_into 3 sample_path (record { names = (0x61 ∷ []) ∷ [] }) sample_context).1).0
        ≡ ok (some 7))
    × (pending (mv_into 3 sample_path (record { names = (0x61 ∷ []) ∷ [] }) sample_context).1 7
        ≡ none)
unfolding arbordb.Txn.Tree.mv_into arbordb.Txn.Tree.ensure_dir arbordb.Txn.Tree.ensure_root
    arbordb.Txn.Tree.ensure_from arbordb.Txn.Tree.clear_way arbordb.Txn.Tree.cascade_delete
    arbordb.Txn.Tree.link_child arbordb.Txn.Tree.unlink_child arbordb.Txn.Tree.put_dir
    arbordb.Txn.Reads.has_entry arbordb.Txn.Reads.kind arbordb.Txn.Reads.check_deletable
    arbordb.Txn.Reads.check_below arbordb.Txn.Reads.dir_children arbordb.Txn.Reads.cascade_children
    arbordb.Txn.Reads.dir_link arbordb.Txn.Reads.dir_unlink arbordb.Txn.Reads.dir_change
    arbordb.Txn.Context.for_each arbordb.Txn.Context.remove_entry arbordb.Txn.Buffer.forget
    arbordb.Txn.Buffer.bump_structure arbordb.Inode.Functions.forget arbordb.Txn.Children.values
    arbordb.Txn.Children.insert arbordb.Txn.Children.remove arbordb.Path.Access.split_last
    arbordb.Path.Access.pop arbordb.Engine.Entry.entry_split arbordb.Engine.Entry.child_in
    arbordb.Engine.Entry.child_of arbordb.Engine.Entry.dir_entry arbordb.Engine.Entry.file_entry
    arbordb.Engine.Entry.kind_of arbordb.Engine.Entry.children_in arbordb.Engine.Entry.keys_in
    arbordb.Txn.Reads.resolve arbordb.Txn.Reads.resolve_from arbordb.Txn.Reads.check
    arbordb.Txn.Reads.acl arbordb.Txn.Reads.child arbordb.Txn.Reads.with_dir
    arbordb.Txn.Reads.from_dir arbordb.Txn.Reads.with_entry arbordb.Txn.Reads.from_buffer
    arbordb.Txn.Reads.from_table arbordb.Inode.Functions.read_acl arbordb.Perm.Authorize.authorize
    arbordb.Perm.Authorize.exceeds_guest arbordb.Perm.Authorize.bypasses
    arbordb.Codec.Dir.Names.find arbordb.Txn.Buffer.take arbordb.Txn.Buffer.file_put
    arbordb.Txn.Buffer.dir_put arbordb.Txn.Buffer.new arbordb.Txn.Buffer.file_forget
    arbordb.Txn.Buffer.dir_get arbordb.Txn.Buffer.file_get arbordb.Common.Numbered.insert
    arbordb.Common.Numbered.remove arbordb.Common.Numbered.get arbordb.Txn.Context.◌>>◌
    arbordb.Txn.Context.◌>>=◌ arbordb.Txn.Context.pure arbordb.Txn.Context.lift
    arbordb.Txn.Context.reads arbordb.Txn.Context.modify arbordb.Txn.Context.on_dirs
    arbordb.Txn.Context.on_inodes arbordb.Txn.Context.invalidate_verified
    arbordb.Txn.Context.without arbordb.Txn.Context.stamp arbordb.Txn.Context.stamp_as
    arbordb.Txn.Context.put_entry arbordb.Inode.Functions.inode_key arbordb.Txn.Pending.pending
    arbordb.Txn.Pending.pending_of arbordb.Txn.Pending.first_of arbordb.Runs.Trees.put_key
    arbordb.Common.Lex.lex
mv_into-ancestor = (refl, refl, refl)

-- A scalar that is put at a directory which only the buffer holds replaces the directory by a file.
put_scalar_into-buffered :
    ((put_scalar_into any_chrono 3
        (record { names = (0x61 ∷ []) ∷ [] })
        (record { segments = [] })
        (Scalar.u8 1)
        sample_context).0
      ≡ ok tt)
    × (pending
          (put_scalar_into any_chrono 3
            (record { names = (0x61 ∷ []) ∷ [] })
            (record { segments = [] })
            (Scalar.u8 1)
            sample_context).1
          5
        ≡ none)
unfolding put_scalar_into arbordb.Txn.Files.resolve_and_read arbordb.Txn.Files.store_value_into
    arbordb.Txn.Files.store_blob_into arbordb.Txn.Files.target_of arbordb.Txn.Files.replace_dir
    arbordb.Txn.Reads.read_verified arbordb.Txn.Context.generate arbordb.Inode.Functions.inode_key
    arbordb.Inode.Functions.load arbordb.Inode.Functions.touch arbordb.Inode.Functions.touched
    arbordb.Inode.Node.encode arbordb.Inode.Node.sections arbordb.Inode.Node.put_sections
    arbordb.Inode.Node.encode_timestamps arbordb.Common.Lex.lex arbordb.Txn.Tree.ensure_dir
    arbordb.Txn.Tree.ensure_root arbordb.Txn.Tree.ensure_from arbordb.Txn.Tree.clear_way
    arbordb.Txn.Tree.cascade_delete arbordb.Txn.Tree.link_child arbordb.Txn.Tree.unlink_child
    arbordb.Txn.Tree.put_dir arbordb.Txn.Reads.has_entry arbordb.Txn.Reads.kind
    arbordb.Txn.Reads.check_deletable arbordb.Txn.Reads.check_below arbordb.Txn.Reads.dir_children
    arbordb.Txn.Reads.cascade_children arbordb.Txn.Reads.dir_link arbordb.Txn.Reads.dir_unlink
    arbordb.Txn.Reads.dir_change arbordb.Txn.Context.for_each arbordb.Txn.Context.remove_entry
    arbordb.Txn.Buffer.forget arbordb.Txn.Buffer.bump_structure arbordb.Inode.Functions.forget
    arbordb.Txn.Children.values arbordb.Txn.Children.insert arbordb.Txn.Children.remove
    arbordb.Path.Access.split_last arbordb.Path.Access.pop arbordb.Engine.Entry.entry_split
    arbordb.Engine.Entry.child_in arbordb.Engine.Entry.child_of arbordb.Engine.Entry.dir_entry
    arbordb.Engine.Entry.file_entry arbordb.Engine.Entry.kind_of arbordb.Engine.Entry.children_in
    arbordb.Engine.Entry.keys_in arbordb.Txn.Reads.resolve arbordb.Txn.Reads.resolve_from
    arbordb.Txn.Reads.check arbordb.Txn.Reads.acl arbordb.Txn.Reads.child arbordb.Txn.Reads.with_dir
    arbordb.Txn.Reads.from_dir arbordb.Txn.Reads.with_entry arbordb.Txn.Reads.from_buffer
    arbordb.Txn.Reads.from_table arbordb.Inode.Functions.read_acl arbordb.Perm.Authorize.authorize
    arbordb.Perm.Authorize.exceeds_guest arbordb.Perm.Authorize.bypasses
    arbordb.Codec.Dir.Names.find arbordb.Txn.Buffer.take arbordb.Txn.Buffer.file_put
    arbordb.Txn.Buffer.dir_put arbordb.Txn.Buffer.new arbordb.Txn.Buffer.file_forget
    arbordb.Txn.Buffer.dir_get arbordb.Txn.Buffer.file_get arbordb.Common.Numbered.insert
    arbordb.Common.Numbered.remove arbordb.Common.Numbered.get arbordb.Txn.Context.◌>>◌
    arbordb.Txn.Context.◌>>=◌ arbordb.Txn.Context.pure arbordb.Txn.Context.lift
    arbordb.Txn.Context.reads arbordb.Txn.Context.modify arbordb.Txn.Context.on_dirs
    arbordb.Txn.Context.on_inodes arbordb.Txn.Context.invalidate_verified
    arbordb.Txn.Context.without arbordb.Txn.Context.stamp arbordb.Txn.Context.stamp_as
    arbordb.Txn.Context.put_entry arbordb.Txn.Pending.pending arbordb.Txn.Pending.pending_of
    arbordb.Txn.Pending.first_of arbordb.Runs.Trees.put_key arbordb.Runs.Samples.put
    arbordb.Common.Be.be
put_scalar_into-buffered = (refl, refl)
