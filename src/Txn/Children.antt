-- ===== src/Txn/Children.antt =====
-- `BTreeMap<SmolStr, AKey>`: what `insert` and `remove` do to the children of a directory.
pub mod Laws
use arbordb.Common.{
  ℕ, ◌≡◌, ◌≢◌, refl, sym, ap, List, [], ◌∷◌, Option, none, some, Ordering, ◌==◌, if◌then◌else◌,
  arith, Bool, true, false, length, suc, ◌≤◌, ◌+◌,
}
use arbordb.Common.Lex.{lex, lex-eq, lex_refl, lex-reverse, lex-lt_trans, is_eq}
use arbordb.Codec.Dir.{Children}
use arbordb.Codec.Dir.Names.{find, AboveAll, IsValid}
use arbordb.Data.Utf8.{Text, IsUtf8}
use arbordb.Key.{AKey, IsAKey}

unfoldable pub insert : Text → AKey → Children → Children
insert name akey [] = (name, akey) ∷ []
insert name akey ((other, k) ∷ rest) =
    let further = insert name akey rest in
    elim (lex name other) [
      | Ordering.lt ↦ (name, akey) ∷ (other, k) ∷ rest
      | Ordering.eq ↦ (other, akey) ∷ rest
      | Ordering.gt ↦ (other, k) ∷ further
    ]

unfoldable pub remove : Text → Children → Children
remove name [] = []
remove name ((other, k) ∷ rest) =
    let further = remove name rest in
    elim (lex name other) [
      | Ordering.lt ↦ (other, k) ∷ rest
      | Ordering.eq ↦ rest
      | Ordering.gt ↦ (other, k) ∷ further
    ]

-- `values().copied().collect()`
unfoldable pub values : Children → List AKey
values [] = []
values ((name, akey) ∷ rest) = akey ∷ values rest

-- `collect` from pairs, the last of a name remaining.
unfoldable pub collect_into : Children → Children → Children
unfolding insert
collect_into done [] = done
collect_into done ((name, akey) ∷ rest) = collect_into (insert name akey done) rest

unfoldable pub collect : Children → Children
unfolding collect_into
collect pairs = collect_into [] pairs
