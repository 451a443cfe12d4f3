-- ===== src/Txn/Write/Failed.antt =====
-- What a mutation that fails leaves in the index.
use mathlib.Core.List.{Memᴰ}
use mathlib.Core.List.Memᴰ
use arbordb.Common.{
  ℕ, ◌≡◌, refl, sym, ap, subst, ◌∙◌, inl, inr, List, [], ◌∷◌, Option, none, Bool-cases, Error,
  Result, ok, err, arith,
}
use arbordb.Common.Lex.{lex, lex-eq, lex_refl, is_eq}
use arbordb.Data.Scalar.{Chrono}
use arbordb.Index.Maintenance.{IndexEntry, entries_for, remove_items, delete}
use arbordb.Index.Scan.{Item}
use arbordb.Key.{AKey}
use arbordb.Path.Access.{APath}
use arbordb.Store.{Store}
use arbordb.Txn.Context.{Engine, Context, Action}
use arbordb.Txn.Write.{
  WriteTxn, opened, run, delete_scopes, insert_scopes, settle, bracketed, reindex_around,
}

module _ (store : Store (List ℕ)) where
  remove-none :
      (k j : List ℕ) (index : store.Table)
      → store.get index j ≡ none
      → store.get (store.remove k index) j ≡ none
  remove-none k j index h = elim (Bool-cases (is_eq (lex k j))) [
    | inl same ↦
        let e : k ≡ j = lex-eq k j (ground (arith, same)) in
        subst (λ x. store.get (store.remove k index) x ≡ none) e (store.get-remove_same index k)
    | inr differ ↦ store.get-remove_other index k j (λ e. ground (arith, differ, e, lex_refl k)) ∙ h
  ]

  remove_items-none :
      (items : List Item) (j : List ℕ) (index : store.Table)
      → store.get index j ≡ none
      → store.get (remove_items store items index) j ≡ none
  unfolding remove_items
  remove_items-none [] j index h = h
  remove_items-none ((k, v) ∷ items) j index h =
      remove_items-none items j (store.remove k index) (remove-none k j index h)

  remove_items_lem :
      (items : List Item) (j w : List ℕ) (index : store.Table)
      → Memᴰ (j, w) items
      → store.get (remove_items store items index) j ≡ none
  unfolding remove_items
  remove_items_lem [] j w index mem = absurd (Memᴰ.not-nil mem)
  remove_items_lem ((k, v) ∷ items) j w index mem = elim (Memᴰ.cases_cons mem) [
    | inl e ↦ remove_items-none items j (store.remove k index) (
        subst (λ x. store.get (store.remove k index) x ≡ none) (sym (ap (λ p. p.0) e))
          (store.get-remove_same index k))
    | inr more ↦ remove_items_lem items j w (store.remove k index) more
  ]

  module _ (chrono : Chrono) (read : AKey → Option (List ℕ)) (scope : APath) (j w : List ℕ) where
    delete-none :
        (entries : List IndexEntry) (index : store.Table)
        → store.get index j ≡ none
        → store.get (delete store chrono read scope entries index).1 j ≡ none
    unfolding delete
    delete-none [] index h = h
    delete-none (entry ∷ entries) index h = go (entries_for chrono read entry scope) (λ items.
        delete-none entries (remove_items store items index) (remove_items-none items j index h))
      where
        next : Result (List Item) → Result (Unit {0}) × store.Table
        next r = elim r [
          | err e ↦ (err e, index)
          | ok items ↦ delete store chrono read scope entries (remove_items store items index)
        ]

        go :
            (r : Result (List Item))
            → ((items : List Item)
                → store.get
                    (delete store chrono read scope entries (remove_items store items index)).1
                    j
                  ≡ none)
            → store.get (next r).1 j ≡ none
        go (err e) later = h
        go (ok items) later = later items

    delete_lem :
        (entries : List IndexEntry) (entry : IndexEntry) (items : List Item) (index : store.Table)
        → Memᴰ entry entries
        → entries_for chrono read entry scope ≡ ok items
        → Memᴰ (j, w) items
        → (delete store chrono read scope entries index).0 ≡ ok tt
        → store.get (delete store chrono read scope entries index).1 j ≡ none
    unfolding delete
    delete_lem [] entry items index mem found there h = absurd (Memᴰ.not-nil mem)
    delete_lem (first ∷ entries) entry items index mem found there h =
        go (entries_for chrono read first scope) refl h (λ own more e.
          delete_lem entries entry items (remove_items store own index) more found there e)
      where
        next : Result (List Item) → Result (Unit {0}) × store.Table
        next r = elim r [
          | err e ↦ (err e, index)
          | ok own ↦ delete store chrono read scope entries (remove_items store own index)
        ]

        go :
            (r : Result (List Item))
            → entries_for chrono read first scope ≡ r
            → (next r).0 ≡ ok tt
            → ((own : List Item)
                → Memᴰ entry entries
                → (delete store chrono read scope entries (remove_items store own index)).0 ≡ ok tt
                → store.get
                    (delete store chrono read scope entries (remove_items store own index)).1
                    j
                  ≡ none)
            → store.get (next r).1 j ≡ none
        go (err e) f h later = absurd (cc)
        go (ok own) f h later = elim (Memᴰ.cases_cons mem) [
          | inr more ↦ later own more h
          | inl same ↦ delete-none entries (remove_items store own index) (
              remove_items_lem own j w index (
                subst (Memᴰ (j, w))
                  (one (sym found ∙ ap (λ x. entries_for chrono read x scope) same ∙ f)) there))
        ]
          where
            one : ◌≡◌ {A = Result (List Item)} (ok items) (ok own) → items ≡ own
            one e = cc

module _ {g : Engine} (store : Store (List ℕ)) (chrono : Chrono) (indexes : List IndexEntry)
    (now : ℕ) (j w : List ℕ) where
  delete_scopes-none :
      (scopes : List APath) (txn : WriteTxn g store)
      → store.get txn.index j ≡ none
      → store.get (delete_scopes store chrono indexes now scopes txn).1.index j ≡ none
  unfolding delete_scopes
  delete_scopes-none [] txn h = h
  delete_scopes-none (scope ∷ scopes) txn h =
      go (delete store chrono (g.data_store.get txn.context.entries) scope indexes txn.index)
        (delete-none store chrono (g.data_store.get txn.context.entries) scope j w indexes txn.index
          h)
        (λ index e. delete_scopes-none scopes (record txn { index = index }) e)
    where
      next : Result (Unit {0}) × store.Table → Result (Unit {0}) × WriteTxn g store
      next p =
          let left : WriteTxn g store = record txn { index = p.1 } in
          elim p.0 [
            | err e ↦ (err e, left)
            | ok done ↦ delete_scopes store chrono indexes now scopes left
          ]

      go :
          (p : Result (Unit {0}) × store.Table)
          → store.get p.1 j ≡ none
          → ((index : store.Table)
              → store.get index j ≡ none
              → store.get
                  (delete_scopes store chrono indexes now scopes
                    (record txn { index = index })).1.index
                  j
                ≡ none)
          → store.get (next p).1.index j ≡ none
      go (err e, index) h later = h
      go (ok done, index) h later = later index h

  delete_scopes_lem :
      (scopes : List APath) (scope : APath) (entry : IndexEntry) (items : List Item)
      (txn deleted : WriteTxn g store)
      → Memᴰ scope scopes
      → Memᴰ entry indexes
      → entries_for chrono (g.data_store.get txn.context.entries) entry scope ≡ ok items
      → Memᴰ (j, w) items
      → delete_scopes store chrono indexes now scopes txn ≡ (ok tt, deleted)
      → store.get deleted.index j ≡ none
  unfolding delete_scopes
  delete_scopes_lem [] scope entry items txn deleted mem listed found there h =
      absurd (Memᴰ.not-nil mem)
  delete_scopes_lem (first ∷ scopes) scope entry items txn deleted mem listed found there h =
      go (delete store chrono (g.data_store.get txn.context.entries) first indexes txn.index) refl h
        (λ index more e.
          delete_scopes_lem scopes scope entry items (record txn { index = index }) deleted more
            listed found there e)
    where
      next : Result (Unit {0}) × store.Table → Result (Unit {0}) × WriteTxn g store
      next p =
          let left : WriteTxn g store = record txn { index = p.1 } in
          elim p.0 [
            | err e ↦ (err e, left)
            | ok done ↦ delete_scopes store chrono indexes now scopes left
          ]

      go :
          (p : Result (Unit {0}) × store.Table)
          → delete store chrono (g.data_store.get txn.context.entries) first indexes txn.index ≡ p
          → next p ≡ (ok tt, deleted)
          → ((index : store.Table)
              → Memᴰ scope scopes
              → delete_scopes store chrono indexes now scopes (record txn { index = index })
                ≡ (ok tt, deleted)
              → store.get deleted.index j ≡ none)
          → store.get deleted.index j ≡ none
      go (err e, index) f h later = absurd (clash (ap (λ p. p.0) h))
        where
          clash : ◌≡◌ {A = Result (Unit {0})} (err e) (ok tt) → ⊥
          clash f = cc
      go (ok done, index) f h later = elim (Memᴰ.cases_cons mem) [
        | inr more ↦ later index more h
        | inl same ↦
            ap (λ (p : Result (Unit {0}) × WriteTxn g store). store.get p.1.index j) (sym h)
            ∙ delete_scopes-none scopes (record txn { index = index })
                (ap (λ (p : Result (Unit {0}) × store.Table). store.get p.1 j) (sym f)
                  ∙ delete_lem store chrono (g.data_store.get txn.context.entries) first j w indexes
                      entry items txn.index listed
                      (subst
                        (λ x.
                          entries_for chrono (g.data_store.get txn.context.entries) entry x
                          ≡ ok items)
                        same found)
                      there (ap (λ (p : Result (Unit {0}) × store.Table). p.0) f))
      ]

  bracketed-failed {ℓ} :
      {A : Type ℓ} (scopes : List APath) (apply : Action g A) (settled deleted : WriteTxn g store)
      (e : Error)
      → delete_scopes store chrono indexes now scopes settled ≡ (ok tt, deleted)
      → (run store chrono indexes now apply deleted).0 ≡ err e
      → store.get deleted.index j ≡ none
      → ((bracketed store chrono indexes now scopes apply settled).0 ≡ err e)
        × (store.get (bracketed store chrono indexes now scopes apply settled).1.index j ≡ none)
  unfolding bracketed
  bracketed-failed {A = A} scopes apply settled deleted e d r gone =
      subst (λ p. ((first p).0 ≡ err e) × (store.get (first p).1.index j ≡ none)) (sym d)
        (go (apply (opened store chrono indexes now deleted.context)) (unfold run in r))
    where
      second : Result A × WriteTxn g store → Result A × WriteTxn g store
      second p = elim p.0 [
        | err e ↦ (err e, p.1)
        | ok a ↦
            let q = insert_scopes store chrono indexes now scopes p.1 in
            elim q.0 [ err e ↦ (err e, q.1) | ok unit ↦ (ok a, q.1) ]
      ]

      first : Result (Unit {0}) × WriteTxn g store → Result A × WriteTxn g store
      first p = elim p.0 [
        | err e ↦ (err e, p.1)
        | ok done ↦ second (run store chrono indexes now apply p.1)
      ]

      go :
          (q : Result A × Context g)
          → q.0 ≡ err e
          → ((second (q.0, record deleted { context = q.1 })).0 ≡ err e)
            × (store.get (second (q.0, record deleted { context = q.1 })).1.index j ≡ none)
      go (ok a, c) f = absurd (cc)
      go (err x, c) f = (f, gone)

  -- When a mutation fails between the deletion and the insertion of what it may affect, its error is
  -- returned, and no deleted entry of the index is there any more.
  pub reindex_around-failed {ℓ} :
      {A : Type ℓ} (scopes : List APath) (apply : Action g A)
      (txn settled deleted : WriteTxn g store) (e : Error) (scope : APath) (entry : IndexEntry)
      (items : List Item)
      → settle store chrono indexes now txn ≡ (ok tt, settled)
      → delete_scopes store chrono indexes now scopes settled ≡ (ok tt, deleted)
      → (run store chrono indexes now apply deleted).0 ≡ err e
      → Memᴰ scope scopes
      → Memᴰ entry indexes
      → entries_for chrono (g.data_store.get settled.context.entries) entry scope ≡ ok items
      → Memᴰ (j, w) items
      → ((reindex_around store chrono indexes now scopes apply txn).0 ≡ err e)
        × (store.get (reindex_around store chrono indexes now scopes apply txn).1.index j ≡ none)
  unfolding reindex_around
  reindex_around-failed {A = A} scopes apply txn settled deleted e scope entry items s d r mem
        listed found there =
      go indexes listed
    where
      whole : Result (Unit {0}) × WriteTxn g store → Result A × WriteTxn g store
      whole p = elim p.0 [
        | err e ↦ (err e, p.1)
        | ok done ↦ bracketed store chrono indexes now scopes apply p.1
      ]

      step : List IndexEntry → Result A × WriteTxn g store
      step entries = elim entries [
        | [] ↦ run store chrono indexes now apply txn
        | entry ∷ entries ↦ whole (settle store chrono indexes now txn)
      ]

      failed :
          ((bracketed store chrono indexes now scopes apply settled).0 ≡ err e)
          × (store.get (bracketed store chrono indexes now scopes apply settled).1.index j ≡ none)
      failed =
          bracketed-failed scopes apply settled deleted e d r
            (delete_scopes_lem scopes scope entry items settled deleted mem listed found there d)

      go :
          (entries : List IndexEntry)
          → Memᴰ entry entries
          → ((step entries).0 ≡ err e) × (store.get (step entries).1.index j ≡ none)
      go [] mem = absurd (Memᴰ.not-nil mem)
      go (first ∷ entries) mem =
          subst (λ p. ((whole p).0 ≡ err e) × (store.get (whole p).1.index j ≡ none)) (sym s) failed
