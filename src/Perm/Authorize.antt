-- ===== src/Perm/Authorize.antt =====
-- crates/arbordb/src/perm/access.rs, with `Principal` and `Session` of principal.rs: may a caller
-- exercise a grade on an a-node? A session's signer, which its seed determines, is left out.
pub mod Granted
pub mod Chown
use arbordb.Common.{
  ℕ, List, [], ◌∷◌, Option, none, some, Bool, true, false, ◌==◌, ◌||◌, ltb, if◌then◌else◌, Result,
  ok, err, permission_denied,
}
use arbordb.Data.Utf8.{Text}
use arbordb.Key.{AKey, root}
use arbordb.Acl.{Acl, effective_rights}
use arbordb.Acl.Grades.{Rights, rank, includes}

abbrev pub master_uid : ℕ
master_uid = 0

abbrev pub guest_uid : ℕ
guest_uid = 1

abbrev pub master_gid : ℕ
master_gid = 0

pub record Session : Type 0 where
  pub name : Text
  pub uid : ℕ
  pub gids : List ℕ
  pub key : List ℕ
  pub sign_seed : List ℕ

pub data Principal : Type 0 where
  unrestricted : Principal
  guest : List ℕ → Principal
  user : Session → Principal

unfoldable pub is_master : Session → Bool
is_master session = session.uid == master_uid

-- `[u32]::contains`
unfoldable pub contains : ℕ → List ℕ → Bool
contains gid [] = false
contains gid (g ∷ gids) = (g == gid) || contains gid gids

unfoldable pub in_master_group : Session → Bool
unfolding contains
in_master_group session = contains master_gid session.gids

abbrev pub Verdict : Type 0
Verdict = Result (Unit {0})

-- The guest asks for more than `Access`.
unfoldable pub exceeds_guest : Principal → Rights → Bool
exceeds_guest unrestricted needed = false
exceeds_guest (guest pubkey) needed = ltb (rank Rights.access) (rank needed)
exceeds_guest (user session) needed = false

-- Who goes past the ACL.
unfoldable pub bypasses : Principal → Bool
unfolding is_master
bypasses unrestricted = true
bypasses (guest pubkey) = false
bypasses (user session) = is_master session

unfoldable pub by_grade : Acl → ℕ → List ℕ → Rights → Verdict
unfolding effective_rights includes
by_grade acl uid gids needed =
    if includes (effective_rights acl uid gids) needed then ok tt else err permission_denied

-- `match acl`
unfoldable pub by_acl : Principal → Option Acl → Rights → Verdict
unfolding in_master_group by_grade
by_acl unrestricted none needed = err permission_denied
by_acl (guest pubkey) none needed = err permission_denied
by_acl (user session) none needed = if in_master_group session then ok tt else err permission_denied
by_acl unrestricted (some acl) needed = ok tt
by_acl (guest pubkey) (some acl) needed = by_grade acl guest_uid [] needed
by_acl (user session) (some acl) needed = by_grade acl session.uid session.gids needed

unfoldable pub authorize : Principal → AKey → Option Acl → Rights → Verdict
unfolding exceeds_guest bypasses by_acl
authorize principal akey acl needed =
    if exceeds_guest principal needed
    then err permission_denied
    else if akey == root
    then ok tt
    else if bypasses principal
    then ok tt
    else by_acl principal acl needed

unfoldable pub may_chown : Principal → Acl → Bool
unfolding is_master in_master_group
may_chown unrestricted acl = true
may_chown (guest pubkey) acl = false
may_chown (user session) acl =
    if is_master session || in_master_group session then true else session.uid == acl.owner_uid

unfoldable pub authorize_chown : Principal → Acl → Verdict
unfolding may_chown
authorize_chown principal acl = if may_chown principal acl then ok tt else err permission_denied
