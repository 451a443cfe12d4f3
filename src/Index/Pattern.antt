-- ===== src/Index/Pattern.antt =====
-- crates/arbordb/src/index/pattern.rs: which entities an index covers, and which a write touched. The
-- table of entries is a function from keys. The position in the pattern and the position in the scope
-- advance together, so what is left of each is passed on.
pub mod Below
pub mod Target
pub mod Scope
use arbordb.Common.{
  ℕ, List, [], ◌∷◌, ◌++◌, length, Option, none, some, Bool, true, false, if◌then◌else◌, not, Result,
  ok, err, invalid_path, ◌>>=◌,
}
use arbordb.Codec.Dir
use arbordb.Data.Utf8.{Text}
use arbordb.Engine.Entry.{EntryKind, entry_split, child_of}
use arbordb.Key.{AKey, root}
use arbordb.Path.Access.{APath, same, split}
use arbordb.Txn.Children.{values}

pub data PatternSeg : Type 0 where
  lit : Text → PatternSeg
  star : PatternSeg

pub record Pattern : Type 0 where
  pub segs : List PatternSeg

abbrev star_token : Text
star_token = 0x2a ∷ []

-- The loop of `parse`.
unfoldable pub parse_segs : List Text → Result (List PatternSeg)
parse_segs [] = ok []
parse_segs (token ∷ tokens) = if same token [] then err invalid_path else do
  rest ← parse_segs tokens
  ok ((if same token star_token then star else lit token) ∷ rest)

unfoldable pub parse : Text → Result Pattern
unfolding parse_segs split
parse [] = ok (record { segs = [] })
parse (c ∷ cs) = do segs ← parse_segs (split (c ∷ cs)); ok (record { segs = segs })

unfoldable pub depth : Pattern → ℕ
depth pattern = length pattern.segs

-- `Pattern::children`: the children of a directory's entry; a file or nothing has none.
unfoldable pub children : Option (List ℕ) → Result (List AKey)
unfolding entry_split Dir.new Dir.entries values
children none = ok []
children (some entry) = do
  split ← entry_split entry
  elim split.0 [
    | EntryKind.file ↦ ok []
    | EntryKind.dir ↦ do blob ← Dir.new split.1; pairs ← Dir.entries blob; ok (values pairs)
  ]

-- `for child in children { self.walk(…, child, …)? }`
unfoldable pub walk_all :
    (AKey → List AKey → Result (List AKey)) → List AKey → List AKey → Result (List AKey)
walk_all visit [] out = ok out
walk_all visit (child ∷ rest) out = do further ← visit child out; walk_all visit rest further

module _ (read : AKey → Option (List ℕ)) where
  -- Into the child of a name, when there is one.
  unfoldable pub descend :
      (AKey → List AKey → Result (List AKey)) → AKey → Text → List AKey → Result (List AKey)
  unfolding child_of
  descend visit cur name out = do
    found ← child_of (read cur) name
    elim found [ none ↦ ok out | some child ↦ visit child out ]

  unfoldable pub walk : List PatternSeg → AKey → List Text → List AKey → Result (List AKey)
  unfolding descend children walk_all
  walk [] cur scope out = ok (out ++ cur ∷ [])
  walk (lit name ∷ segs) cur [] out = descend (λ child. walk segs child []) cur name out
  walk (lit name ∷ segs) cur (taken ∷ scope) out =
      if not (same taken name)
      then ok out
      else descend (λ child. walk segs child scope) cur name out
  walk (star ∷ segs) cur (taken ∷ scope) out =
      descend (λ child. walk segs child scope) cur taken out
  walk (star ∷ segs) cur [] out = do
    below ← children (read cur)
    walk_all (λ child. walk segs child []) below out

  unfoldable pub affected_entities : Pattern → APath → Result (List AKey)
  unfolding walk
  affected_entities pattern scope = walk pattern.segs root scope.names []
