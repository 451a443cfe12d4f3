-- ===== src/Runs/Trees.antt =====
-- A small tree for the runs of transactions: a directory that holds a directory and, in it, a file.
use arbordb.Common.{
  ℕ, ◌+◌, ◌≡◌, ◌≢◌, refl, sym, subst, ◌∙◌, List, [], ◌∷◌, Option, none, some, Bool, true, false,
  ◌==◌, if◌then◌else◌, arith,
}
use arbordb.Common.Be.{be}
use arbordb.Common.Numbered
use arbordb.Codec.Dir.{Children, encode_dir}
use arbordb.Codec.Putters.{put_u32}
use arbordb.Data.Utf8.{is_utf8}
use arbordb.Key.{AKey, root, into_bytes}
use arbordb.Perm.Authorize.{Principal}
use arbordb.Store.{Store}
use arbordb.Txn.Buffer.{WriteBuffer, new, dir_get, dir_put, file_get, file_put}
use arbordb.Txn.Buffer.Laws.{
  IsConsistent, new-IsConsistent, dir_put-IsConsistent, file_put-IsConsistent,
}
use arbordb.Txn.Buffer.Gets.{dir_get-dir_put}
use arbordb.Txn.Context.{Engine, Context}
use arbordb.Txn.Pending.{Writable, IsSound}
use arbordb.Runs.Samples.{sample_store, empty_table}

unfoldable pub put_key : AKey → Option (List ℕ) → (AKey → Option (List ℕ)) → AKey → Option (List ℕ)
put_key k v t j = if k == j then v else t j

pub put_key-same :
    (k : AKey) (v : Option (List ℕ)) (t : AKey → Option (List ℕ)) → put_key k v t k ≡ v
unfolding put_key
put_key-same k v t = ground arith

pub put_key-other :
    (k j : AKey) (v : Option (List ℕ)) (t : AKey → Option (List ℕ)) → k ≢ j → put_key k v t j ≡ t j
unfolding put_key
put_key-other k j v t ne = ground (arith, ne)

abbrev pub entry_store : Store AKey
entry_store = record {
  Table = AKey → Option (List ℕ);
  get = λ t k. t k;
  insert = λ k v t. put_key k (some v) t;
  remove = λ k t. put_key k none t;
  get-insert_same = λ t k v. put_key-same k (some v) t;
  get-insert_other = λ t k j v ne. put_key-other k j (some v) t ne;
  get-remove_same = λ t k. put_key-same k none t;
  get-remove_other = λ t k j ne. put_key-other k j none t ne;
}

abbrev pub sample_engine : Engine
sample_engine = record {
  data_store = entry_store;
  inode_store = sample_store;
  crypto = record {
    keyed_hash = λ key message. key;
    hash = λ message. message;
    sign = λ seed digest. seed;
    verify = λ pubkey digest sig. true;
  };
  generate = λ n. n + 100;
}

-- "a" ↦ 5 in the root, "b" ↦ 7 in 5.
abbrev pub top_children : Children
top_children = (0x61 ∷ [], 5) ∷ []

abbrev pub inner_children : Children
inner_children = (0x62 ∷ [], 7) ∷ []

abbrev pub inner_entry : List ℕ
inner_entry = 1 ∷ 0 ∷ []

abbrev pub sample_buffer : WriteBuffer
sample_buffer =
    file_put 7 inner_entry (dir_put 5 inner_children (dir_put root top_children (new true)))

abbrev pub sample_context : Context sample_engine
sample_context = record {
  entries = λ k. none;
  inodes = empty_table;
  table = 0x74 ∷ [];
  now = 9;
  dirs = sample_buffer;
  principal = Principal.unrestricted;
  verified = [];
  drawn = 0;
}

top-Writable : Writable top_children
unfolding is_utf8 encode_dir put_u32 into_bytes be
top-Writable = ((refl, omega arith, tt, tt), omega arith)

inner-Writable : Writable inner_children
unfolding is_utf8 encode_dir put_u32 into_bytes be
inner-Writable = ((refl, omega arith, tt, tt), omega arith)

AllWritable : WriteBuffer → Type 0
AllWritable b = (k : AKey) (cs : Children) → dir_get b k ≡ some cs → Writable cs

dir_put-AllWritable :
    (k : AKey) (cs : Children) (b : WriteBuffer)
    → IsConsistent b
    → Writable cs
    → AllWritable b
    → AllWritable (dir_put k cs b)
unfolding AllWritable
dir_put-AllWritable k cs b h writable all =
    λ j found e. go (k == j) j found (sym (dir_get-dir_put k b h cs j) ∙ e)
  where
    go :
        (same : Bool) (j : AKey) (found : Children)
        → (if same then some cs else dir_get b j) ≡ some found
        → Writable found
    go true j found e = subst Writable (cc) writable
    go false j found e = all j found e

pub sample-IsSound : IsSound sample_context
unfolding AllWritable file_get new dir_put Numbered.get Numbered.insert file_put dir_get
sample-IsSound = record {
  consistent = file_put-IsConsistent 7 inner_entry two two-IsConsistent refl;
  direct = λ off k. absurd (cc);
  writable = λ k cs e.
      dir_put-AllWritable 5 inner_children one one-IsConsistent inner-Writable
        (dir_put-AllWritable root top_children (new true) (new-IsConsistent true) top-Writable
          (λ k cs e. cc))
        k cs e;
}
  where
    one : WriteBuffer
    one = dir_put root top_children (new true)

    one-IsConsistent : IsConsistent one
    one-IsConsistent =
        dir_put-IsConsistent root top_children (new true) (new-IsConsistent true) refl

    two : WriteBuffer
    two = dir_put 5 inner_children one

    two-IsConsistent : IsConsistent two
    two-IsConsistent = dir_put-IsConsistent 5 inner_children one one-IsConsistent refl
