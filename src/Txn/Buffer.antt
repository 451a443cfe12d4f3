-- ===== src/Txn/Buffer.antt =====
-- crates/arbordb/src/txn/context/write_buffer.rs: the entries that a write transaction has changed and
-- not yet written. A lock is left out, since one thread takes it. A `HashMap` is a list by its keys.
pub mod Laws
pub mod Gets
use arbordb.Common.{
  ℕ, ◌+◌, ◌%◌, ◌^◌, List, [], Option, none, some, Bool, true, false, if◌then◌else◌, ◌&&◌,
}
use arbordb.Common.Numbered
use arbordb.Codec.Dir.{Children}
use arbordb.Key.{AKey}

pub record WriteBuffer : Type 0 where
  pub buffering : Bool
  pub dirs_dirty : Bool
  pub dirs : List (AKey × Children)
  pub files_dirty : Bool
  pub files : List (AKey × List ℕ)
  pub structure : ℕ

unfoldable pub new : Bool → WriteBuffer
new buffering = record {
  buffering = buffering;
  dirs_dirty = false;
  dirs = [];
  files_dirty = false;
  files = [];
  structure = 0;
}

-- `dirty() && read(|dirs| dirs.get(&akey))`, as every caller reads the buffer.
unfoldable pub dir_get : WriteBuffer → AKey → Option Children
dir_get buffer akey = if buffer.dirs_dirty then Numbered.get buffer.dirs akey else none

-- `write(|dirs| dirs.insert(akey, children))`
unfoldable pub dir_put : AKey → Children → WriteBuffer → WriteBuffer
dir_put akey children buffer = record buffer {
  dirs_dirty = true;
  dirs = Numbered.insert akey children buffer.dirs;
}

unfoldable pub file_get : WriteBuffer → AKey → Option (List ℕ)
file_get buffer akey = if buffer.files_dirty then Numbered.get buffer.files akey else none

unfoldable pub file_contains : WriteBuffer → AKey → Bool
file_contains buffer akey =
    buffer.files_dirty && elim (Numbered.get buffer.files akey) [ none ↦ false | some entry ↦ true ]

unfoldable pub file_put : AKey → List ℕ → WriteBuffer → WriteBuffer
file_put akey entry buffer = record buffer {
  files_dirty = true;
  files = Numbered.insert akey entry buffer.files;
}

unfoldable pub file_forget : AKey → WriteBuffer → WriteBuffer
file_forget akey buffer =
    if buffer.files_dirty
    then record buffer { files = Numbered.remove akey buffer.files }
    else buffer

-- The counter is a `u64`, whose `fetch_add` wraps.
unfoldable pub bump_structure : WriteBuffer → WriteBuffer
bump_structure buffer = record buffer { structure = (buffer.structure + 1) % 2 ^ 64 }

abbrev pub drop_dir : AKey → WriteBuffer → WriteBuffer
drop_dir akey buffer =
    if buffer.dirs_dirty then record buffer { dirs = Numbered.remove akey buffer.dirs } else buffer

unfoldable pub forget : AKey → WriteBuffer → WriteBuffer
unfolding file_forget
forget akey buffer = file_forget akey (drop_dir akey buffer)

unfoldable pub take : WriteBuffer → List (AKey × Children) × List (AKey × List ℕ) × WriteBuffer
take buffer = (
  buffer.dirs,
  buffer.files,
  record buffer { dirs_dirty = false; files_dirty = false; dirs = []; files = [] },
)

unfoldable pub take_and_disable :
    WriteBuffer → List (AKey × Children) × List (AKey × List ℕ) × WriteBuffer
unfolding take
take_and_disable buffer = take (record buffer { buffering = false })
