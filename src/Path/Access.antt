-- ===== src/Path/Access.antt =====
-- crates/arbordb/src/path/a_path.rs and `validate_name` of functions.rs: the path of a whole value.
pub mod Parse
use arbordb.Common.{
  ℕ, List, [], ◌∷◌, ◌++◌, Option, none, some, Bool, true, false, ◌||◌, ◌&&◌, ◌==◌, if◌then◌else◌,
  Result, ok, err, invalid_path, ◌>>=◌,
}
use arbordb.Common.Lex.{lex, is_eq}
use arbordb.Data.Utf8.{Text}

pub record APath : Type 0 where
  pub names : List Text

abbrev pub slash : ℕ
slash = 0x2f

abbrev pub dot : Text
dot = 0x2e ∷ []

abbrev pub dotdot : Text
dotdot = 0x2e ∷ 0x2e ∷ []

-- `==` on strings
abbrev pub same : Text → Text → Bool
same a b = is_eq (lex a b)

-- `name.contains(['/', '[', ']'])`
unfoldable pub has_reserved : Text → Bool
has_reserved [] = false
has_reserved (c ∷ cs) = (c == slash) || ((c == 0x5b) || ((c == 0x5d) || has_reserved cs))

unfoldable pub validate_name : Text → Result (Unit {0})
unfolding has_reserved
validate_name name =
    if has_reserved name
    then err invalid_path
    else if same name dot || same name dotdot
    then err invalid_path
    else ok tt

-- `Vec::pop`, without the name that it returns.
unfoldable pub pop : List Text → Option (List Text)
pop [] = none
pop (name ∷ names) = elim (pop names) [ none ↦ some [] | some kept ↦ some (name ∷ kept) ]

-- A path on which `pop` finds nothing stays as it is.
unfoldable pub push_name : Text → APath → APath
unfolding pop
push_name name path =
    if same name dot
    then path
    else if same name dotdot
    then elim (pop path.names) [ none ↦ path | some kept ↦ record { names = kept } ]
    else record { names = path.names ++ name ∷ [] }

unfoldable pub join : APath → APath → APath
join path tail = record { names = path.names ++ tail.names }

unfoldable pub parent : APath → Option APath
unfolding pop
parent path = elim (pop path.names) [ none ↦ none | some kept ↦ some (record { names = kept }) ]

abbrev add_to_head : ℕ → List Text → List Text
add_to_head c [] = (c ∷ []) ∷ []
add_to_head c (token ∷ tokens) = (c ∷ token) ∷ tokens

-- `s.split('/')`
unfoldable pub split : Text → List Text
split [] = [] ∷ []
split (c ∷ cs) = let rest = split cs in if c == slash then [] ∷ rest else add_to_head c rest

-- The loop of `from_str`, on the names so far.
unfoldable pub parse_tokens : List Text → List Text → Result (List Text)
unfolding validate_name pop
parse_tokens [] names = ok names
parse_tokens (token ∷ tokens) names =
    if same token []
    then err invalid_path
    else if same token dot
    then parse_tokens tokens names
    else if same token dotdot
    then elim (pop names) [ none ↦ err invalid_path | some kept ↦ parse_tokens tokens kept ]
    else do checked ← validate_name token; parse_tokens tokens (names ++ token ∷ [])

-- `APath::from_str`, which `parse` calls.
unfoldable pub parse : Text → Result APath
unfolding split parse_tokens
parse [] = ok (record { names = [] })
parse (c ∷ cs) = do names ← parse_tokens (split (c ∷ cs)) []; ok (record { names = names })

-- The loop of `fmt` behind the first name.
unfoldable pub display_rest : List Text → Text
display_rest [] = []
display_rest (name ∷ names) = slash ∷ (name ++ display_rest names)

-- `Display::fmt`
unfoldable pub display : APath → Text
unfolding display_rest
display path = elim path.names [ [] ↦ [] | name ∷ names ↦ name ++ display_rest names ]

abbrev last_of : List Text → Option Text
last_of [] = none
last_of (name ∷ names) = elim (last_of names) [ none ↦ some name | some last ↦ some last ]

-- `split_last`: the parent and the last name.
unfoldable pub split_last : APath → Option (APath × Text)
unfolding pop
split_last path = elim (last_of path.names) [
  | none ↦ none
  | some name ↦ elim (pop path.names) [
    | none ↦ none
    | some kept ↦ some (record { names = kept }, name)
  ]
]

abbrev pub is_root : APath → Bool
is_root path = elim path.names [ [] ↦ true | name ∷ names ↦ false ]

-- `names().starts_with(names)`
unfoldable pub begins_with : List Text → List Text → Bool
begins_with names [] = true
begins_with [] (other ∷ others) = false
begins_with (name ∷ names) (other ∷ others) = same name other && begins_with names others
