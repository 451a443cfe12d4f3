-- ===== src/Inode/Functions/Keys.antt =====
-- No two a-nodes share a key of the `$inodes` table.
use arbordb.Common.{
  ◌^◌, ◌<◌, ◌≡◌, refl, sym, ap, subst, ◌∙◌, [], ◌++◌, append-nil, length, length-append, Result, ok,
  err, arith,
}
use arbordb.Common.Be.{small_mod, be, from_be, length-be, from_be-be}
use arbordb.Codec.Putters.{put_bytes, put_u32}
use arbordb.Codec.Reader.{Decoder, Reader, pure, bytes, array, new, ◌>>=◌}
use arbordb.Codec.Reader.Reads.{
  Reads, Reads-bind, Reads-pure, Reads-bytes, Reads-array, Reads-along,
}
use arbordb.Inode.RoundTrip.{run_whole}
use arbordb.Inode.Functions.{inode_key}
use arbordb.Data.Utf8.{Text}
use arbordb.Key.{AKey, IsAKey, into_bytes}

-- A reader of keys.
read_key : Decoder (Text × AKey)
read_key = do table ← bytes; akey ← array 16; pure (table, from_be akey)

key_bytes :
    (table : Text) (akey : AKey)
    → length table < 2 ^ 32
    → inode_key table akey ≡ (be 4 (length table) ++ table) ++ be 16 akey
unfolding inode_key put_bytes put_u32 into_bytes
key_bytes table akey short = rw (small_mod (length table) short) refl

Reads-read_key :
    (table : Text) (akey : AKey)
    → length table < 2 ^ 32
    → IsAKey akey
    → Reads read_key ((be 4 (length table) ++ table) ++ be 16 akey) (table, akey)
unfolding read_key
Reads-read_key table akey short sized =
    Reads-bind bytes _ (be 4 (length table) ++ table) (be 16 akey) table (table, akey)
      (Reads-bytes table short)
      (Reads-along _ (table, akey) (append-nil (be 16 akey))
        (Reads-bind (array 16) _ (be 16 akey) [] (be 16 akey) (table, akey)
          (subst (λ n. Reads (array n) (be 16 akey) (be 16 akey)) (length-be 16 akey)
            (Reads-array (be 16 akey)))
          (rw (from_be-be 16 akey sized) (Reads-pure (table, akey)))))

first : Result ((Text × AKey) × Reader) → Text × AKey → Text × AKey
first (ok (key, r)) other = key
first (err e) other = other

reads_key :
    (table : Text) (akey : AKey)
    → length table < 2 ^ 32
    → IsAKey akey
    → first (read_key (new (inode_key table akey))) ([], 0) ≡ (table, akey)
unfolding first
reads_key table akey short sized =
    let (r, e) =
      run_whole read_key ((be 4 (length table) ++ table) ++ be 16 akey) (table, akey)
        (omega (
          arith,
          length-append (be 4 (length table) ++ table) (be 16 akey),
          length-append (be 4 (length table)) table,
          length-be 4 (length table),
          length-be 16 akey,
        ))
        (Reads-read_key table akey short sized) in
    rw (key_bytes table akey short, e)

-- Two a-nodes with the same key in the `$inodes` table are the same a-node of the same table.
pub inode_key-injective :
    (table other : Text) (akey key : AKey)
    → length table < 2 ^ 32
    → length other < 2 ^ 32
    → IsAKey akey
    → IsAKey key
    → inode_key table akey ≡ inode_key other key
    → (table ≡ other) × (akey ≡ key)
inode_key-injective table other akey key short short' sized sized' e =
    let same : (table, akey) ≡ (other, key) =
      sym (reads_key table akey short sized)
      ∙ ap (λ k. first (read_key (new k)) ([], 0)) e
      ∙ reads_key other key short' sized' in
    (ap (λ (p : Text × AKey). p.0) same, ap (λ (p : Text × AKey). p.1) same)
