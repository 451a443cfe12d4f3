-- ===== src/Txn/Pending/Reads.antt =====
-- What a transaction reads is what it will commit.
use arbordb.Common.{
  ℕ, ◌≡◌, refl, ap, ◌∙◌, List, [], ◌∷◌, Option, none, some, Result, ok, err, arith,
}
use arbordb.Codec.Dir.{Children, encode_dir}
use arbordb.Codec.Dir.Names.{find}
use arbordb.Codec.Dir.RoundTrip.{get-encode_dir, entries-encode_dir}
use arbordb.Data.Utf8.{Text}
use arbordb.Engine.Entry.{
  EntryKind, entry_split, dir_entry, child_in, child_of, kind_of, children_in, keys_in, map_some,
  get_entry_kind, fetch_entry_kind,
}
use arbordb.Key.{AKey}
use arbordb.Txn.Buffer.{dir_get, file_get}
use arbordb.Txn.Context.{Engine, Context, Action, ◌>>=◌, ◌>>◌, pure, lift, reads, verify_integrity}
use arbordb.Txn.Pending.{pending, pending_dir, pending_file, pending_stored, Writable, IsSound}
use arbordb.Txn.Reads.{
  from_table, from_buffer, with_entry, from_dir, with_dir, child, kind, dir_children,
  cascade_children, flatten, or_empty,
}
use arbordb.Txn.Children.{values}
use arbordb.Txn.Children.Laws.{IsValid-Ordered, collect-Ordered_same}

-- What a read makes of an a-node that may be missing.
abbrev pub held {ℓ} : {R : Type ℓ} → (List ℕ → Result R) → Option (List ℕ) → Result (Option R)
held f none = ok none
held f (some entry) = map_some (f entry)

module _ {g : Engine} where
  verified_lem {ℓ} :
      {R : Type ℓ} (m : Action g (Unit {0})) (r : Result R) (c : Context g) (a : R)
      → ((m >> lift r) c).0 ≡ ok a
      → r ≡ ok a
  unfolding ◌>>◌ ◌>>=◌ lift
  verified_lem {R} m r c a = go (m c)
    where
      next : Result (Unit {0}) × Context g → Result R × Context g
      next s = elim s.0 [ ok done ↦ (r, s.1) | err e ↦ (err e, s.1) ]

      go : (s : Result (Unit {0}) × Context g) → (next s).0 ≡ ok a → r ≡ ok a
      go (ok done, c') h = h
      go (err e, c') h = cc

  pub with_entry_lem {ℓ} :
      {R : Type ℓ} (k : AKey) (f : List ℕ → Result R) (c : Context g) (a : Option R)
      → dir_get c.dirs k ≡ none
      → (with_entry k f c).0 ≡ ok a
      → held f (pending c k) ≡ ok a
  unfolding with_entry from_buffer from_table ◌>>=◌ reads lift pure
  with_entry_lem k f c a clear h = buffer (file_get c.dirs k) refl h
    where
      table :
          (o : Option (List ℕ))
          → g.data_store.get c.entries k ≡ o
          → file_get c.dirs k ≡ none
          → (from_table k f o c).0 ≡ ok a
          → held f (pending c k) ≡ ok a
      table none e clean h = rw (pending_stored c k clear clean, e) h
      table (some entry) e clean h =
          rw (pending_stored c k clear clean, e)
            (verified_lem (verify_integrity k entry) (map_some (f entry)) c a h)

      buffer :
          (o : Option (List ℕ))
          → file_get c.dirs k ≡ o
          → (from_buffer k f o c).0 ≡ ok a
          → held f (pending c k) ≡ ok a
      buffer none e h = table (g.data_store.get c.entries k) refl e h
      buffer (some entry) e h = rw (pending_file c k entry clear e) h

  -- What a read of a directory gives is what its pending entry gives, when the buffered children give
  -- what their blob does.
  with_dir_lem {ℓ κ} :
      {R : Type ℓ} {A : Type κ} (k : AKey) (b : Children → A) (f : List ℕ → Result R)
      (s : Option R → A) (c : Context g) (a : A)
      → ((children : Children)
          → dir_get c.dirs k ≡ some children
          → (r : Option R) × (held f (pending c k) ≡ ok r) × (s r ≡ b children))
      → (with_dir k b f s c).0 ≡ ok a
      → (r : Option R) × (held f (pending c k) ≡ ok r) × (s r ≡ a)
  unfolding with_dir from_dir ◌>>=◌ reads pure
  with_dir_lem {R = R} {A = A} k b f s c a agree h = go (dir_get c.dirs k) refl h
    where
      settle :
          (p : Result (Option R) × Context g)
          → ((r : Option R) → p.0 ≡ ok r → held f (pending c k) ≡ ok r)
          → (let q : Result A × Context g = elim p.0 [
            | ok r ↦ (ok (s r), p.1)
            | err e ↦ (err e, p.1)
          ] in
              q.0)
            ≡ ok a
          → (r : Option R) × (held f (pending c k) ≡ ok r) × (s r ≡ a)
      settle (ok r, c') found h = (r, found r refl, cc)
      settle (err e, c') found h = cc

      go :
          (o : Option Children)
          → dir_get c.dirs k ≡ o
          → (from_dir k b f s o c).0 ≡ ok a
          → (r : Option R) × (held f (pending c k) ≡ ok r) × (s r ≡ a)
      go none e h = settle (with_entry k f c) (λ r found. with_entry_lem k f c r e found) h
      go (some children) e h = let (r, found, same) = agree children e in (r, found, cc)

-- What the blob of a writable directory gives.
pub child_in-encode_dir :
    (children : Children) (name : Text)
    → Writable children
    → child_in (dir_entry (encode_dir children)) name ≡ ok (find name children)
unfolding child_in entry_split dir_entry
child_in-encode_dir children name (valid, small) =
    let (dir, opens, found) = get-encode_dir children name valid small in rw (opens, found)

pub children_in-encode_dir :
    (children : Children)
    → Writable children
    → children_in (dir_entry (encode_dir children)) ≡ ok children
unfolding children_in entry_split dir_entry
children_in-encode_dir children (valid, small) =
    let (dir, opens, listed, counted) = entries-encode_dir children valid small in
    rw (opens, listed, collect-Ordered_same children (IsValid-Ordered children valid))

pub keys_in-encode_dir :
    (children : Children)
    → Writable children
    → keys_in (dir_entry (encode_dir children)) ≡ ok (values children)
unfolding keys_in entry_split dir_entry
keys_in-encode_dir children (valid, small) =
    let (dir, opens, listed, counted) = entries-encode_dir children valid small in
    rw (opens, listed)

kind_of-dir_entry : (blob : List ℕ) → kind_of (dir_entry blob) ≡ ok EntryKind.dir
unfolding kind_of entry_split dir_entry
kind_of-dir_entry blob = refl

child_of-held :
    (o : Option (List ℕ)) (name : Text) (r : Option (Option AKey))
    → held (λ entry. child_in entry name) o ≡ ok r
    → child_of o name ≡ ok (flatten r)
unfolding child_of
child_of-held none name r h = ground (arith, h)
child_of-held (some entry) name r h = go (child_in entry name) h
  where
    go : (m : Result (Option AKey)) → map_some m ≡ ok r → m ≡ ok (flatten r)
    go (err e) h = cc
    go (ok found) h = let e : some found ≡ r = cc in rw (← e) refl

fetch_entry_kind-held :
    (o : Option (List ℕ)) (r : Option EntryKind) → held kind_of o ≡ ok r → fetch_entry_kind o ≡ ok r
unfolding fetch_entry_kind kind_of entry_split get_entry_kind
fetch_entry_kind-held none r h = h
fetch_entry_kind-held (some []) r h = cc
fetch_entry_kind-held (some (tag ∷ payload)) r h = ground (arith, h)

module _ {g : Engine} (c : Context g) (sound : IsSound c) where
  pub child_lem :
      (parent : AKey) (name : Text) (found : Option AKey)
      → (child parent name c).0 ≡ ok found
      → child_of (pending c parent) name ≡ ok found
  unfolding child
  child_lem parent name found h =
      let (r, e, same) =
        with_dir_lem parent (find name) (λ entry. child_in entry name) flatten c found
          (λ children b. (
            some (find name children),
            rw (
              pending_dir c parent children b,
              held,
              child_in-encode_dir children name (sound.writable parent children b),
            ),
            refl,
          ))
          h in
      child_of-held (pending c parent) name r e ∙ ap ok same

  pub kind_lem :
      (k : AKey) (found : Option EntryKind)
      → (kind k c).0 ≡ ok found
      → fetch_entry_kind (pending c k) ≡ ok found
  unfolding kind
  kind_lem k found h =
      let (r, e, same) =
        with_dir_lem k (λ children. some EntryKind.dir) kind_of (λ r. r) c found
          (λ children b. (
            some EntryKind.dir,
            rw (pending_dir c k children b, held, kind_of-dir_entry (encode_dir children)),
            refl,
          ))
          h in
      fetch_entry_kind-held (pending c k) r e ∙ ap ok same

  pub dir_children_lem :
      (k : AKey) (found : Children)
      → (dir_children k c).0 ≡ ok found
      → (r : Option Children) × (held children_in (pending c k) ≡ ok r) × (or_empty r ≡ found)
  unfolding dir_children
  dir_children_lem k found h =
      with_dir_lem k (λ children. children) children_in or_empty c found
        (λ children b. (
          some children,
          rw (
            pending_dir c k children b,
            held,
            children_in-encode_dir children (sound.writable k children b),
          ),
          refl,
        ))
        h

  pub cascade_children_lem :
      (k : AKey) (found : Option (List AKey))
      → (cascade_children k c).0 ≡ ok found
      → held keys_in (pending c k) ≡ ok found
  unfolding cascade_children
  cascade_children_lem k found h =
      let (r, e, same) =
        with_dir_lem k (λ children. some (values children)) keys_in (λ r. r) c found
          (λ children b. (
            some (values children),
            rw (
              pending_dir c k children b,
              held,
              keys_in-encode_dir children (sound.writable k children b),
            ),
            refl,
          ))
          h in
      e ∙ ap ok same
