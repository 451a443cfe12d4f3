-- ===== src/Txn/Pending/Succeeds.antt =====
-- A cascade that nothing stops succeeds.
use mathlib.Core.List.{Memᴰ}
use arbordb.Common.{
  ℕ, zero, suc, ◌≡◌, refl, sym, ap, subst, ◌∙◌, List, [], ◌∷◌, Option, none, some, Result, ok,
}
use arbordb.Codec.Dir.{Children}
use arbordb.Engine.Entry.{keys_in, map_some}
use arbordb.Key.{AKey}
use arbordb.Perm.Authorize.{Principal}
use arbordb.Txn.Buffer.{dir_get, file_get}
use arbordb.Txn.Children.{values}
use arbordb.Txn.Context.{
  Engine, Context, Action, ◌>>=◌, ◌>>◌, pure, lift, reads, for_each, verify_as, verify_integrity,
  remove_entry, modify, on_dirs, invalidate_verified,
}
use arbordb.Txn.Context.Steps.{bind_step, then_step}
use arbordb.Txn.Pending.{pending, pending_dir, pending_file, pending_stored, IsSound}
use arbordb.Txn.Pending.Cascade.{Law, cascade_delete-Law}
use arbordb.Txn.Pending.Reads.{held, keys_in-encode_dir}
use arbordb.Txn.Pending.Removes.{
  itself, below, Removes, Within, Readable, Within-after, Readable-after,
}
use arbordb.Txn.Reads.{from_table, from_buffer, with_entry, from_dir, with_dir, cascade_children}
use arbordb.Txn.Tree.{cascade_delete}

module _ {g : Engine} where
  cascade_children_reads :
      (k : AKey) (c : Context g) (r : Option (List AKey))
      → IsSound c
      → c.principal ≡ Principal.unrestricted
      → held keys_in (pending c k) ≡ ok r
      → cascade_children k c ≡ (ok r, c)
  unfolding cascade_children with_dir with_entry ◌>>=◌ ◌>>◌ reads lift pure from_table from_buffer
      from_dir
  cascade_children_reads k c r sound free h = dirs (dir_get c.dirs k) refl
    where
      f : List ℕ → Result (List AKey)
      f entry = keys_in entry

      verified : (entry : List ℕ) → verify_integrity k entry c ≡ (ok tt, c)
      verified entry =
          unfold verify_integrity ◌>>=◌ reads in
          ap (λ p. verify_as k entry p c) free ∙ (unfold verify_as pure in refl)

      table :
          (o : Option (List ℕ))
          → g.data_store.get c.entries k ≡ o
          → dir_get c.dirs k ≡ none
          → file_get c.dirs k ≡ none
          → from_table k f o c ≡ (ok r, c)
      table none s d e = ap (λ x. (x, c)) (sym (ap (held keys_in) (pending_stored c k d e ∙ s)) ∙ h)
      table (some entry) s d e =
          then_step (verify_integrity k entry) (lift (map_some (f entry))) c c (verified entry)
          ∙ ap (λ x. (x, c)) (sym (ap (held keys_in) (pending_stored c k d e ∙ s)) ∙ h)

      files :
          (o : Option (List ℕ))
          → file_get c.dirs k ≡ o
          → dir_get c.dirs k ≡ none
          → from_buffer k f o c ≡ (ok r, c)
      files none e d = table (g.data_store.get c.entries k) refl d e
      files (some entry) e d =
          ap (λ x. (x, c)) (sym (ap (held keys_in) (pending_file c k entry d e)) ∙ h)

      dirs :
          (o : Option Children)
          → dir_get c.dirs k ≡ o
          → from_dir k (λ cs. some (values cs)) f (λ found. found) o c ≡ (ok r, c)
      dirs none e =
          bind_step (with_entry k f) (λ found. pure found) c c r (files (file_get c.dirs k) refl e)
      dirs (some cs) e =
          ap (λ x. (x, c))
            (sym (
                ap (held keys_in) (pending_dir c k cs e)
                ∙ ap map_some (keys_in-encode_dir cs (sound.writable k cs e)))
              ∙ h)

  abbrev Done : Action g (Unit {0}) → Context g → Type 0
  Done m c = (c' : Context g) × (m c ≡ (ok tt, c')) × (c'.principal ≡ Principal.unrestricted)

  abbrev Ready : (AKey → Action g (Unit {0})) → ℕ → Type 0
  Ready body depth =
      (k : AKey) (c : Context g)
      → IsSound c
      → c.principal ≡ Principal.unrestricted
      → Within (pending c) depth k
      → Readable (pending c) k
      → Done (body k) c

  for_each-Ready :
      (body : AKey → Action g (Unit {0})) (depth : ℕ) (keys : List AKey) (c : Context g)
      → Ready body depth
      → Law body
      → IsSound c
      → c.principal ≡ Principal.unrestricted
      → ((m : AKey) → Memᴰ m keys → Within (pending c) depth m × Readable (pending c) m)
      → Done (for_each body keys) c
  unfolding for_each pure
  for_each-Ready body depth [] c ready law sound free each = (c, refl, free)
  for_each-Ready body depth (k ∷ keys) c ready law sound free each =
      let here = each k (Memᴰ.head refl) in
      let (c1, first, free1) = ready k c sound free here.0 here.1 in
      let (sound1, removed) =
        subst (λ c1. IsSound c1 × Removes (pending c) (pending c1) (λ j. j ≡ k))
          (ap (λ (r : Result (Unit {0}) × Context g). r.1) first)
          (law k c sound (ap (λ (r : Result (Unit {0}) × Context g). r.0) first)) in
      let (c2, rest, free2) = for_each-Ready body depth keys c1 ready law sound1 free1 (λ m mem.
        let there = each m (Memᴰ.tail mem) in
        (Within-after removed depth m there.0, Readable-after removed m there.1)) in
      (c2, then_step (body k) (for_each body keys) c c1 first ∙ rest, free2)

  remove_entry-Done :
      (k : AKey) (c : Context g) → c.principal ≡ Principal.unrestricted → Done (remove_entry k) c
  unfolding remove_entry ◌>>=◌ ◌>>◌ modify on_dirs invalidate_verified
  remove_entry-Done k c free = ((remove_entry k c).1, refl, free)

  cascade_delete-Ready : (depth : ℕ) → Ready (cascade_delete depth) depth
  unfolding cascade_delete pure
  cascade_delete-Ready zero k c sound free within readable = absurd within
  cascade_delete-Ready (suc depth) k c sound free within readable =
      let (r, e) = readable k (itself k) in
      let (c', whole, free') = go r e (λ keys.
        for_each-Ready (cascade_delete depth) depth keys c (cascade_delete-Ready depth)
          (cascade_delete-Law depth) sound free) in
      (
        c',
        bind_step (cascade_children k) body c c r (cascade_children_reads k c r sound free e)
            ∙ whole,
        free',
      )
    where
      body : Option (List AKey) → Action g (Unit {0})
      body found = elim found [
        | none ↦ pure tt
        | some children ↦ (for_each (cascade_delete depth) children >> remove_entry k)
      ]

      go :
          (r : Option (List AKey))
          → held keys_in (pending c k) ≡ ok r
          → ((keys : List AKey)
              → ((m : AKey) → Memᴰ m keys → Within (pending c) depth m × Readable (pending c) m)
              → Done (for_each (cascade_delete depth) keys) c)
          → Done (body r) c
      go none e deleted = (c, refl, free)
      go (some keys) e deleted =
          let (c1, first, free1) = deleted keys (λ m mem.
            (within keys m e mem, λ j under. readable j (below k m j keys e mem under))) in
          let (c2, last, free2) = remove_entry-Done k c1 free1 in
          (
            c2,
            then_step (for_each (cascade_delete depth) keys) (remove_entry k) c c1 first ∙ last,
            free2,
          )

  -- A cascade of an unrestricted handle succeeds, when its fuel is the depth of the subtree and every
  -- entry in the subtree can be read.
  pub cascade_delete_succeeds :
      (depth : ℕ) (k : AKey) (c : Context g)
      → IsSound c
      → c.principal ≡ Principal.unrestricted
      → Within (pending c) depth k
      → Readable (pending c) k
      → (cascade_delete depth k c).0 ≡ ok tt
  cascade_delete_succeeds depth k c sound free within readable =
      let (c', whole, free') = cascade_delete-Ready depth k c sound free within readable in
      ap (λ (r : Result (Unit {0}) × Context g). r.0) whole
