-- ===== src/Txn/Pending/Keeps.antt =====
-- The reads of a transaction change neither its buffer nor its tables.
use arbordb.Common.{
  ℕ, zero, suc, ◌≡◌, refl, ◌∙◌, List, [], ◌∷◌, Option, none, some, Bool, true, false, Result, Error,
  ok, err, if◌then◌else◌,
}
use arbordb.Acl.Grades.{Rights}
use arbordb.Codec.Dir.{Children}
use arbordb.Data.Utf8.{Text}
use arbordb.Engine.Entry.{EntryKind}
use arbordb.Key.{AKey}
use arbordb.Perm.Authorize.{Session, Principal}
use arbordb.Txn.Children.{values}
use arbordb.Txn.Context.{
  Engine, Context, Action, ◌>>=◌, ◌>>◌, pure, lift, fail, reads, for_each, verify_tag,
  verify_session, verify_as, verify_integrity, modify,
}
use arbordb.Txn.Reads.{
  read_verified, has_entry, from_table, from_buffer, with_entry, from_dir, with_dir, child, kind,
  dir_children, cascade_children, acl, check, check_below, check_deletable, resolve_from,
}

module _ {g : Engine} where
  pub record Same (c c' : Context g) : Type 0 where
    pub dirs_eq : c'.dirs ≡ c.dirs
    pub entries_eq : c'.entries ≡ c.entries
    pub inodes_eq : c'.inodes ≡ c.inodes
    pub drawn_eq : c'.drawn ≡ c.drawn

  pub Same-refl : (c : Context g) → Same c c
  Same-refl c = record { dirs_eq = refl; entries_eq = refl; inodes_eq = refl; drawn_eq = refl }

  pub Same-trans : (a b c : Context g) → Same a b → Same b c → Same a c
  Same-trans a b c h k = record {
    dirs_eq = k.dirs_eq ∙ h.dirs_eq;
    entries_eq = k.entries_eq ∙ h.entries_eq;
    inodes_eq = k.inodes_eq ∙ h.inodes_eq;
    drawn_eq = k.drawn_eq ∙ h.drawn_eq;
  }

  pub record Keeps {ℓ} {A : Type ℓ} (m : Action g A) : Type ℓ where
    pub at : (c : Context g) → Same c (m c).1

  pub Keeps-bind {ℓ κ} :
      {A : Type ℓ} {B : Type κ} (m : Action g A) (f : A → Action g B)
      → Keeps m
      → ((a : A) → Keeps (f a))
      → Keeps (m >>= f)
  unfolding ◌>>=◌
  Keeps-bind {A} {B} m f km kf = record { at = λ c. go (m c) (km.at c) }
    where
      next : Result A × Context g → Result B × Context g
      next r = elim r.0 [ ok a ↦ f a r.1 | err e ↦ (err e, r.1) ]

      go : {c : Context g} (r : Result A × Context g) → Same c r.1 → Same c (next r).1
      go {c} (ok a, c') h = Same-trans c c' (f a c').1 h ((kf a).at c')
      go (err e, c') h = h

  pub Keeps-reads {ℓ} : {A : Type ℓ} (f : Context g → A) → Keeps (reads f)
  unfolding reads
  Keeps-reads f = record { at = λ c. Same-refl c }

  pub Keeps-pure {ℓ} : {A : Type ℓ} (a : A) → Keeps (pure a)
  unfolding pure
  Keeps-pure a = record { at = λ c. Same-refl c }

  pub Keeps-lift {ℓ} : {A : Type ℓ} (r : Result A) → Keeps (lift r)
  unfolding lift
  Keeps-lift r = record { at = λ c. Same-refl c }

  Keeps-then {ℓ κ} :
      {A : Type ℓ} {B : Type κ} (m : Action g A) (k : Action g B)
      → Keeps m
      → Keeps k
      → Keeps (m >> k)
  unfolding ◌>>◌
  Keeps-then m k hm hk = Keeps-bind m (λ _. k) hm (λ _. hk)

  Keeps-fail {ℓ} : {A : Type ℓ} (e : Error) → Keeps (fail {A = A} e)
  unfolding fail
  Keeps-fail e = record { at = λ c. Same-refl c }

  Keeps-if {ℓ} :
      {A : Type ℓ} (b : Bool) (m n : Action g A) → Keeps m → Keeps n → Keeps (if b then m else n)
  Keeps-if true m n h k = h
  Keeps-if false m n h k = k

  Keeps-option {ℓ κ} :
      {X : Type ℓ} {A : Type κ} (o : Option X) (m : Action g A) (f : X → Action g A)
      → Keeps m
      → ((x : X) → Keeps (f x))
      → Keeps (elim o [ none ↦ m | some x ↦ f x ])
  Keeps-option none m f hm hf = hm
  Keeps-option (some x) m f hm hf = hf x

  Keeps-mark : (k : AKey) → Keeps (modify (λ c. record c { verified = k ∷ c.verified }))
  unfolding modify
  Keeps-mark k = record {
    at = λ c. record { dirs_eq = refl; entries_eq = refl; inodes_eq = refl; drawn_eq = refl };
  }

  Keeps-verify_tag :
      (session : Session) (k : AKey) (entry : List ℕ) → Keeps (verify_tag session k entry)
  unfolding verify_tag
  Keeps-verify_tag session k entry = Keeps-bind _ _ (Keeps-reads _) (λ found.
      Keeps-bind _ _ (Keeps-lift found) (λ meta.
        Keeps-bind _ _ (Keeps-reads _) (λ table. Keeps-if _ _ _ (Keeps-mark k) (Keeps-fail _))))

  Keeps-verify_session :
      (session : Session) (k : AKey) (entry : List ℕ) → Keeps (verify_session session k entry)
  unfolding verify_session
  Keeps-verify_session session k entry =
      Keeps-bind _ _ (Keeps-reads _)
        (λ seen. Keeps-if seen _ _ (Keeps-pure tt) (Keeps-verify_tag session k entry))

  Keeps-verify_as : (k : AKey) (entry : List ℕ) (p : Principal) → Keeps (verify_as k entry p)
  unfolding verify_as
  Keeps-verify_as k entry (Principal.user session) = Keeps-verify_session session k entry
  Keeps-verify_as k entry (Principal.guest pubkey) = Keeps-pure tt
  Keeps-verify_as k entry Principal.unrestricted = Keeps-pure tt

  pub Keeps-verify_integrity : (k : AKey) (entry : List ℕ) → Keeps (verify_integrity k entry)
  unfolding verify_integrity
  Keeps-verify_integrity k entry =
      Keeps-bind _ _ (Keeps-reads _) (λ principal. Keeps-verify_as k entry principal)

  -- An entry that is looked at in the buffer, else in the table and then verified.
  pub Keeps-read_verified : (k : AKey) → Keeps (read_verified k)
  unfolding read_verified
  Keeps-read_verified k = Keeps-bind _ _ (Keeps-reads _) (λ edited.
      Keeps-option edited _ _
        (Keeps-bind _ _ (Keeps-reads _) (λ held.
          Keeps-option held _ _ (Keeps-pure _)
            (λ entry. Keeps-then _ _ (Keeps-verify_integrity k entry) (Keeps-pure _))))
        (λ entry. Keeps-pure _))

  pub Keeps-has_entry : (k : AKey) → Keeps (has_entry k)
  unfolding has_entry
  Keeps-has_entry k =
      Keeps-bind _ _ (Keeps-reads _)
        (λ found. Keeps-option found _ _ (Keeps-reads _) (λ children. Keeps-pure _))

  Keeps-from_table {ℓ} :
      {R : Type ℓ} (k : AKey) (f : List ℕ → Result R) (o : Option (List ℕ))
      → Keeps (from_table k f o)
  unfolding from_table
  Keeps-from_table k f none = Keeps-pure _
  Keeps-from_table k f (some entry) = Keeps-then _ _ (Keeps-verify_integrity k entry) (Keeps-lift _)

  Keeps-from_buffer {ℓ} :
      {R : Type ℓ} (k : AKey) (f : List ℕ → Result R) (o : Option (List ℕ))
      → Keeps (from_buffer k f o)
  unfolding from_buffer
  Keeps-from_buffer k f none = Keeps-bind _ _ (Keeps-reads _) (λ held. Keeps-from_table k f held)
  Keeps-from_buffer k f (some entry) = Keeps-lift _

  pub Keeps-with_entry {ℓ} :
      {R : Type ℓ} (k : AKey) (f : List ℕ → Result R) → Keeps (with_entry k f)
  unfolding with_entry
  Keeps-with_entry k f = Keeps-bind _ _ (Keeps-reads _) (λ edited. Keeps-from_buffer k f edited)

  Keeps-from_dir {ℓ κ} :
      {R : Type ℓ} {A : Type κ} (k : AKey) (b : Children → A) (f : List ℕ → Result R)
      (s : Option R → A) (o : Option Children)
      → Keeps (from_dir k b f s o)
  unfolding from_dir
  Keeps-from_dir k b f s none = Keeps-bind _ _ (Keeps-with_entry k f) (λ r. Keeps-pure _)
  Keeps-from_dir k b f s (some children) = Keeps-pure _

  pub Keeps-with_dir {ℓ κ} :
      {R : Type ℓ} {A : Type κ} (k : AKey) (b : Children → A) (f : List ℕ → Result R)
      (s : Option R → A)
      → Keeps (with_dir k b f s)
  unfolding with_dir
  Keeps-with_dir k b f s = Keeps-bind _ _ (Keeps-reads _) (λ found. Keeps-from_dir k b f s found)

  pub Keeps-child : (parent : AKey) (name : Text) → Keeps (child parent name)
  unfolding child
  Keeps-child parent name = Keeps-with_dir parent _ _ _

  pub Keeps-kind : (k : AKey) → Keeps (kind k)
  unfolding kind
  Keeps-kind k = Keeps-with_dir k _ _ _

  pub Keeps-dir_children : (k : AKey) → Keeps (dir_children k)
  unfolding dir_children
  Keeps-dir_children k = Keeps-with_dir k _ _ _

  pub Keeps-cascade_children : (k : AKey) → Keeps (cascade_children k)
  unfolding cascade_children
  Keeps-cascade_children k = Keeps-with_dir k _ _ _

  pub Keeps-acl : (k : AKey) → Keeps (acl k)
  unfolding acl
  Keeps-acl k = Keeps-bind _ _ (Keeps-reads _) (λ found. Keeps-lift found)

  pub Keeps-check : (k : AKey) (needed : Rights) → Keeps (check k needed)
  unfolding check
  Keeps-check k needed =
      Keeps-bind _ _ (Keeps-acl k)
        (λ found. Keeps-bind _ _ (Keeps-reads _) (λ principal. Keeps-lift _))

  Keeps-for_each {ℓ} :
      {A : Type ℓ} (body : A → Action g (Unit {0})) (xs : List A)
      → ((a : A) → Keeps (body a))
      → Keeps (for_each body xs)
  unfolding for_each
  Keeps-for_each body [] h = Keeps-pure tt
  Keeps-for_each body (x ∷ xs) h = Keeps-then _ _ (h x) (Keeps-for_each body xs h)

  Keeps-check_below :
      (body : AKey → Action g (Unit {0})) (k : AKey) (found : Option EntryKind)
      → ((a : AKey) → Keeps (body a))
      → Keeps (check_below body k found)
  unfolding check_below
  Keeps-check_below body k none h = Keeps-pure tt
  Keeps-check_below body k (some EntryKind.file) h = Keeps-pure tt
  Keeps-check_below body k (some EntryKind.dir) h =
      Keeps-bind _ _ (Keeps-dir_children k) (λ cs. Keeps-for_each _ (values cs) h)

  pub Keeps-check_deletable : (depth : ℕ) (k : AKey) → Keeps (check_deletable depth k)
  unfolding check_deletable
  Keeps-check_deletable zero k = Keeps-fail _
  Keeps-check_deletable (suc depth) k = Keeps-then _ _ (Keeps-check k Rights.delete) (
      Keeps-bind _ _ (Keeps-kind k)
        (λ found. Keeps-check_below _ k found (λ a. Keeps-check_deletable depth a)))

  pub Keeps-resolve_from : (k : AKey) (names : List Text) → Keeps (resolve_from k names)
  unfolding resolve_from
  Keeps-resolve_from k [] = Keeps-pure _
  Keeps-resolve_from k (name ∷ names) = Keeps-then _ _ (Keeps-check k Rights.access) (
      Keeps-bind _ _ (Keeps-child k name)
        (λ found. Keeps-option found _ _ (Keeps-pure _) (λ next. Keeps-resolve_from next names)))
