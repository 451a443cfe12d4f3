-- ===== src/Lib.antt =====
-- ArborDb, an embedded database of typed values in a tree of files and directories, over the engine
-- redb.
--
-- The program. A stored value is a tree of scalars, lists and objects (`Value`, value.rs). It is
-- kept as a blob that is read in place (codec/archived.rs): children are written before their
-- parent, each vnode names its children by their offsets, and the names of an object stand in
-- order, so that a field is found by binary search. A directory is a blob of the same kind from
-- names to keys (codec/dir.rs). A secondary index keeps each entity under the order-preserving
-- encoding of its column values (index/ordered.rs, index/key.rs), and a query is a scan of one
-- range of keys (index/scan.rs). The metadata of an a-node, its times, its access-control list and
-- its integrity tags, are the sections of an inode (inode). All paths of this text are under
-- crates/arbordb/src.
--
-- The files. `Common` holds what all share: `Lex` the order of byte strings, with `verdict`, which
-- says how two strings compare when neither is a prefix of the other; `Be` big-endian numbers;
-- `Int` signed numbers as two's-complement patterns; `Numbered` a map from numbers; `Errors` the
-- results. `Codec` is the folder codec: `Read` and `Reader` the two ways to read bytes, `Search`
-- the binary search that both blobs run, `Dir` the directory, `Archived` the value blob with its
-- writer in `Write` (`encode`, `push_value`, `push_list`, `push_object`) and its cursors in `Node`
-- (`ArchivedNode` and `ArchivedValue`; `ArchivedValue::new` is `open_blob`). `Archived.Repr` is the
-- relation between a blob, an offset and the value that stands there; the writer establishes it and
-- every cursor reads by it. `Data` is data/scalar.rs with the UTF-8 check of the standard library,
-- `Key` is key.rs, `Path` has in `Segment` the segments of a value path, and in `Access`
-- path/a_path.rs; `Value` is value.rs (`Tree` the type, `Access` reading, `Set` writing, `Edit`
-- removal, `merge` and the mutators of the root). `Index` is the folder index: `Ordered` the
-- encoding, `Ordered.Spec` the order that it has to keep, `Definitions` and `Columns` the tuples of
-- column values, `Key` and `Scan` the entries, `Pattern` and `Maintenance` what a mutation deletes
-- and inserts around itself. `Acl` is acl.rs and inode/acl.rs; `Inode` is inode/node.rs and
-- inode/functions.rs, over `Store`, the interface of the engine's tables. `Perm` is the folder
-- perm: `Store` the users and groups with their blobs, `Admin` their administration and the login
-- (both perm/store.rs), `Authorize` the checks of access.rs, `Integrity` the messages that tags and
-- signatures bind. `Engine.Entry` is engine/entry.rs, `Engine.Features` engine/features.rs. `Txn`
-- is the folder txn, in the build with permissions: `Buffer` is txn/context/write_buffer.rs,
-- `Context` and `Reads` are txn/context/ctx.rs, `Tree`, `Files` and `Grants` are
-- txn/context/table.rs with the flush of `WriteTxn::commit`, `Write` the operations of `WriteTxn`
-- (txn/write.rs), and `Children` is the map of a directory. `Txn.Pending` is the abstract state of
-- a transaction, the entry of each a-node as it will be committed, and its children say how each
-- step reads and changes it. `Runs` applies the theorems to concrete data.
--
-- How state is modelled. A `Vec<u8>` that is appended to is a list of bytes, passed on. A `Reader`
-- is its buffer and position, and its methods are a monad of results. A `&mut Value` is the value
-- left behind. A mutation is an action on a `Context`, which holds the tables, the write buffer,
-- the caller and the marks of what was verified; it returns a result and the context left behind,
-- also after an error. A `BTreeMap` is an association list in the order of its keys, which
-- well-formedness asks for. A machine integer is a natural number with its wrap-around written out;
-- a signed one is its bit pattern.
--
-- Parameters. What chrono accepts as a date, a time or a duration is the record `Chrono`; what redb
-- does on `get`, `insert` and `remove` is the record `Store`; a range of a table is a function. The
-- keyed hash, the hash and the signature scheme are the record `Crypto`, and the wrapping of
-- secrets under a password is `Passwords`; random keys are drawn in order from a function of
-- `Engine`.
--
-- Bounds and fuel. Offsets in a blob have 32 bits, so the theorems on a blob ask for fewer than 2 ^
-- 32 bytes; a reader's buffer is below 2 ^ 64. The binary search has fuel for one round per entry
-- and one more, and it never uses it up, as `Codec.Search` shows. `to_value` has fuel for the depth
-- of nesting; `decode` gives it the length of the blob, and `Archived.Depth` shows that a value is
-- nested no deeper than its blob is long. A recursion over a tree of a-nodes has fuel for its
-- depth, and `Txn.Pending.Succeeds` shows that the depth is enough.
--
-- Not modelled. Read transactions, queries, the registry of indexes, the parsing of value paths,
-- serde, export, and the derive macros, so far; cryptography, files, caches and the engine itself,
-- which are other libraries or input and output; the optional bignum scalars.
pub mod Common
pub mod Codec
pub mod Data
pub mod Key
pub mod Path
pub mod Value
pub mod Index
pub mod Acl
pub mod Store
pub mod Engine
pub mod Inode
pub mod Perm
pub mod Txn
pub mod Runs
