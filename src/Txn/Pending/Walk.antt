-- ===== src/Txn/Pending/Walk.antt =====
-- The walk of a path goes along the pending entries.
use arbordb.Common.{ℕ, ◌≡◌, refl, List, [], ◌∷◌, Option, none, some, Result, ok, err, ◌>>=◌}
use arbordb.Acl.Grades.{Rights}
use arbordb.Data.Utf8.{Text}
use arbordb.Engine.Entry.{child_of}
use arbordb.Key.{AKey, root}
use arbordb.Path.Access.{APath}
use arbordb.Txn.Context.{Engine, Context, Action, pure}
use arbordb.Txn.Context
use arbordb.Txn.Pending.{pending, IsSound}
use arbordb.Txn.Pending.Keeps.{Same, Keeps, Same-trans, Keeps-check, Keeps-child}
use arbordb.Txn.Pending.Reads.{child_lem}
use arbordb.Txn.Reads.{check, child, resolve_from, resolve}

-- The a-node that is reached through names from entries.
unfoldable pub walk : (AKey → Option (List ℕ)) → AKey → List Text → Result (Option AKey)
walk entry akey [] = ok (some akey)
walk entry akey (name ∷ names) = do
  found ← child_of (entry akey) name
  elim found [ none ↦ ok none | some next ↦ walk entry next names ]

module _ {g : Engine} where
  pub pending-Same : (c c' : Context g) → Same c c' → pending c' ≡ pending c
  unfolding pending
  pending-Same c c' h = rw (h.dirs_eq, h.entries_eq)

  pub IsSound-Same : (c c' : Context g) → Same c c' → IsSound c → IsSound c'
  IsSound-Same c c' h sound = record {
    consistent = rw h.dirs_eq sound.consistent;
    direct = λ off k. rw h.dirs_eq (sound.direct (rw h.dirs_eq at off) k);
    writable = λ k cs e. sound.writable k cs (rw h.dirs_eq at e);
  }

  -- What a step that succeeds leaves behind, when it only reads.
  pub bind-Keeps {ℓ κ} :
      {A : Type ℓ} {B : Type κ} (m : Action g A) (f : A → Action g B) (c : Context g) (b : B)
      → Keeps m
      → (Context.◌>>=◌ m f c).0 ≡ ok b
      → (a : A) × (c' : Context g) × Same c c' × ((m c).0 ≡ ok a) × ((f a c').0 ≡ ok b)
  unfolding Context.◌>>=◌
  bind-Keeps {A} {B} m f c b keeps h = go (m c) (keeps.at c) h
    where
      next : Result A × Context g → Result B × Context g
      next r = elim r.0 [ ok a ↦ f a r.1 | err e ↦ (err e, r.1) ]

      go :
          (r : Result A × Context g)
          → Same c r.1
          → (next r).0 ≡ ok b
          → (a : A) × (c' : Context g) × Same c c' × (r.0 ≡ ok a) × ((f a c').0 ≡ ok b)
      go (ok a, c') same h = (a, c', same, refl, h)
      go (err e, c') same h = cc

  resolve_from_lem :
      (c : Context g) (akey : AKey) (names : List Text) (found : Option AKey)
      → IsSound c
      → (resolve_from akey names c).0 ≡ ok found
      → walk (pending c) akey names ≡ ok found
  unfolding resolve_from walk pure Context.◌>>◌
  resolve_from_lem c akey [] found sound h = h
  resolve_from_lem c akey (name ∷ names) found sound h =
      let (done, c1, same1, e1, h1) =
        bind-Keeps (check akey Rights.access) _ c found (Keeps-check akey Rights.access) h in
      let (next, c2, same2, e2, h2) =
        bind-Keeps (child akey name) _ c1 found (Keeps-child akey name) h1 in
      let step : child_of (pending c akey) name ≡ ok next =
        rw (← pending-Same c c1 same1)
          (child_lem c1 (IsSound-Same c c1 same1 sound) akey name next e2) in
      further next step c2 (Same-trans c c1 c2 same1 same2) h2 (λ k same h.
        rw (← pending-Same c c2 same)
          (resolve_from_lem c2 k names found (IsSound-Same c c2 same sound) h))
    where
      further :
          (next : Option AKey)
          → child_of (pending c akey) name ≡ ok next
          → (c2 : Context g) → Same c c2
          → (let m : Action g (Option AKey) = elim next [
            | none ↦ pure none
            | some k ↦ resolve_from k names
          ] in
              (m c2).0)
            ≡ ok found
          → ((k : AKey)
              → Same c c2
              → (resolve_from k names c2).0 ≡ ok found
              → walk (pending c) k names ≡ ok found)
          → walk (pending c) akey (name ∷ names) ≡ ok found
      further none step c2 same h again = rw step h
      further (some k) step c2 same h again = rw step (again k same h)

  -- When a path is resolved, to an a-node or to none, so it is along the pending entries.
  pub resolve_lem :
      (c : Context g) (path : APath) (found : Option AKey)
      → IsSound c
      → (resolve path c).0 ≡ ok found
      → walk (pending c) root path.names ≡ ok found
  unfolding resolve
  resolve_lem c path found sound h = resolve_from_lem c root path.names found sound h
