-- ===== src/Txn/Pending.antt =====
-- The abstract state of a write transaction: the entry of each a-node as it will be committed. What is
-- buffered stands for what the table holds.
pub mod Keeps
pub mod Reads
pub mod Puts
pub mod Flush
pub mod Walk
pub mod Links
pub mod Removes
pub mod Cascade
pub mod Succeeds
use arbordb.Common.{ℕ, ◌^◌, ◌<◌, ◌≡◌, List, Option, none, some, false, length}
use arbordb.Codec.Dir.{Children, encode_dir}
use arbordb.Codec.Dir.Names
use arbordb.Engine.Entry.{dir_entry}
use arbordb.Key.{AKey}
use arbordb.Txn.Buffer.{WriteBuffer, dir_get, file_get}
use arbordb.Txn.Buffer.Laws.{IsConsistent}
use arbordb.Txn.Context.{Engine, Context}

-- What can be written as a directory's blob.
abbrev pub Writable : Children → Type 0
Writable children = Names.IsValid children × (length (encode_dir children) < 2 ^ 32)

-- A buffered directory, else a buffered file, else what is stored.
unfoldable pub first_of : Option Children → Option (List ℕ) → Option (List ℕ) → Option (List ℕ)
first_of (some children) edited stored = some (dir_entry (encode_dir children))
first_of none (some entry) stored = some entry
first_of none none stored = stored

unfoldable pub pending_of : (g : Engine) → WriteBuffer → g.data_store.Table → AKey → Option (List ℕ)
pending_of g b entries k = first_of (dir_get b k) (file_get b k) (g.data_store.get entries k)

module _ {g : Engine} where
  unfoldable pub pending : Context g → AKey → Option (List ℕ)
  unfolding pending_of
  pending c k = pending_of g c.dirs c.entries k

  pub pending_dir :
      (c : Context g) (k : AKey) (children : Children)
      → dir_get c.dirs k ≡ some children
      → pending c k ≡ some (dir_entry (encode_dir children))
  unfolding pending first_of
  pending_dir c k children e = rw e

  pub pending_file :
      (c : Context g) (k : AKey) (entry : List ℕ)
      → dir_get c.dirs k ≡ none
      → file_get c.dirs k ≡ some entry
      → pending c k ≡ some entry
  unfolding pending first_of
  pending_file c k entry clear e = rw (clear, e)

  pub pending_stored :
      (c : Context g) (k : AKey)
      → dir_get c.dirs k ≡ none
      → file_get c.dirs k ≡ none
      → pending c k ≡ g.data_store.get c.entries k
  unfolding pending first_of
  pending_stored c k clear e = rw (clear, e)

  -- The buffer of a transaction in progress.
  pub record IsSound (c : Context g) : Type 0 where
    pub consistent : IsConsistent c.dirs
    -- Without the cache nothing is kept back.
    pub direct : c.dirs.buffering ≡ false → (k : AKey) → dir_get c.dirs k ≡ none
    pub writable :
        (k : AKey) (children : Children) → dir_get c.dirs k ≡ some children → Writable children
