-- ===== src/Path/Access/Parse.antt =====
-- Parsing gives normal paths only, and printing a normal path parses back to it.
use arbordb.Common.{
  ℕ, ◌≡◌, ◌≢◌, refl, sym, ap, subst, ◌∙◌, List, [], ◌∷◌, ◌++◌, append_assoc, append-nil, All,
  All-append, Option, none, some, Bool, true, false, Bool-cases, inl, inr, ◌==◌, if◌then◌else◌,
  Result, ok, err, invalid_path, ◌>>=◌, arith, Ordering,
}
use mathlib.Core.Option.{some-injective}
use arbordb.Common.Lex.{lex, lex-eq, lex_refl, is_eq}
use arbordb.Data.Utf8.{Text}
use arbordb.Path.Access.{
  APath, slash, dot, dotdot, same, has_reserved, validate_name, pop, split, parse_tokens, parse,
  display_rest, display,
}

-- A character that a name may have: no slash and no bracket.
abbrev pub IsPlain : ℕ → Type 0
IsPlain c = ◌≢◌ {A = ℕ} c 0x2f × ◌≢◌ {A = ℕ} c 0x5b × ◌≢◌ {A = ℕ} c 0x5d

-- A name that stands for itself: not empty, of plain characters, and neither a dot nor two dots.
abbrev pub IsName : Text → Type 0
IsName name = (name ≢ []) × All IsPlain name × (name ≢ 0x2e ∷ []) × (name ≢ 0x2e ∷ 0x2e ∷ [])

abbrev pub IsNormal : APath → Type 0
IsNormal path = All IsName path.names

split-slash :
    (name rest : Text)
    → has_reserved name ≡ false
    → split (name ++ slash ∷ rest) ≡ name ∷ split rest
unfolding split has_reserved
split-slash [] rest h = refl
split-slash (c ∷ cs) rest h =
    let further = split-slash cs rest (ground (arith, h)) in
    let plain : (c == slash) ≡ false = ground (arith, h) in rw (further, plain)

split-name : (name : Text) → has_reserved name ≡ false → split name ≡ name ∷ []
unfolding split has_reserved
split-name [] h = refl
split-name (c ∷ cs) h =
    let further = split-name cs (ground (arith, h)) in
    let plain : (c == slash) ≡ false = ground (arith, h) in rw (further, plain)

is_eq-eq : (o : Ordering) → is_eq o ≡ true → o ≡ Ordering.eq
is_eq-eq o h = ground (arith, h)

same_eq : (a b : Text) → same a b ≡ true → a ≡ b
same_eq a b h = lex-eq a b (is_eq-eq (lex a b) h)

same-apart : (a b : Text) → a ≢ b → same a b ≡ false
same-apart a b ne = elim (Bool-cases (same a b)) [
  | inl equal ↦ absurd (ne (same_eq a b equal))
  | inr apart ↦ apart
]

apart-same : (a b : Text) → same a b ≡ false → a ≢ b
apart-same a b apart equal = ground (arith, apart, ap (λ t. lex t b) equal, lex_refl b)

IsPlain-has_reserved : (name : Text) → All IsPlain name → has_reserved name ≡ false
unfolding has_reserved
IsPlain-has_reserved [] h = refl
IsPlain-has_reserved (c ∷ cs) h = ground (arith, h, IsPlain-has_reserved cs h.1)

has_reserved-IsPlain : (name : Text) → has_reserved name ≡ false → All IsPlain name
unfolding has_reserved
has_reserved-IsPlain [] h = tt
has_reserved-IsPlain (c ∷ cs) h = (
  (λ e. ground (arith, h, e), λ e. ground (arith, h, e), λ e. ground (arith, h, e)),
  has_reserved-IsPlain cs (ground (arith, h)),
)

-- What `validate_name` checks.
validate_name-ok :
    (name : Text)
    → validate_name name ≡ ok tt
    → (has_reserved name ≡ false) × (same name dot ≡ false) × (same name dotdot ≡ false)
unfolding validate_name
validate_name-ok name h = (ground (arith, h), ground (arith, h), ground (arith, h))

-- What `parse_tokens` asks of a name.
IsName-checked :
    (name : Text)
    → IsName name
    → (has_reserved name ≡ false)
      × (same name [] ≡ false)
      × (same name dot ≡ false)
      × (same name dotdot ≡ false)
IsName-checked name h = (
  IsPlain-has_reserved name h.1,
  same-apart name [] h.0,
  same-apart name dot h.2,
  same-apart name dotdot h.3,
)

checked-IsName : (name : Text) → same name [] ≡ false → validate_name name ≡ ok tt → IsName name
checked-IsName name full h =
    let (plain, not_dot, not_dotdot) = validate_name-ok name h in
    (
      apart-same name [] full,
      has_reserved-IsPlain name plain,
      apart-same name dot not_dot,
      apart-same name dotdot not_dotdot,
    )

split-display :
    (name : Text) (names : List Text)
    → All IsName (name ∷ names)
    → split (name ++ display_rest names) ≡ name ∷ names
unfolding display_rest
split-display name [] h =
    ap split (append-nil name) ∙ split-name name (IsPlain-has_reserved name h.0.1)
split-display name (next ∷ names) h =
    split-slash name (next ++ display_rest names) (IsPlain-has_reserved name h.0.1)
    ∙ ap (λ t. name ∷ t) (split-display next names h.1)

parse_tokens-names :
    (names done : List Text) → All IsName names → parse_tokens names done ≡ ok (done ++ names)
unfolding parse_tokens
parse_tokens-names [] done h = ap ok (sym (append-nil done))
parse_tokens-names (name ∷ names) done h =
    let (plain, full, not_dot, not_dotdot) = IsName-checked name h.0 in
    rw (full, not_dot, not_dotdot, plain)
      (parse_tokens-names names (done ++ name ∷ []) h.1
        ∙ ap ok (append_assoc done (name ∷ []) names))

ok-injective : (a b : List Text) → ok a ≡ ok b → a ≡ b
ok-injective a b e = ap (λ r. elim r [ ok x ↦ x | err _ ↦ a ]) e

pop-IsName : (names kept : List Text) → All IsName names → pop names ≡ some kept → All IsName kept
unfolding pop
pop-IsName [] kept h e = cc
pop-IsName (name ∷ names) kept h e = go (pop names) refl e (λ k f. pop-IsName names k h.1 f)
  where
    go :
        (o : Option (List Text))
        → pop names ≡ o
        → elim o [ none ↦ some [] | some k ↦ some (name ∷ k) ] ≡ some kept
        → ((k : List Text) → pop names ≡ some k → All IsName k)
        → All IsName kept
    go none f g next = subst (All IsName) (some-injective [] kept g) tt
    go (some k) f g next = subst (All IsName) (some-injective (name ∷ k) kept g) (h.0, next k f)

parse_tokens-IsName :
    (tokens done names : List Text)
    → All IsName done
    → parse_tokens tokens done ≡ ok names
    → All IsName names
unfolding parse_tokens
parse_tokens-IsName [] done names h e = subst (All IsName) (ok-injective done names e) h
parse_tokens-IsName (token ∷ tokens) done names h e =
    go (same token []) refl (same token dot) refl (same token dotdot) refl (pop done) refl
      (validate_name token) refl e (λ more k f. parse_tokens-IsName tokens more names k f)
  where
    go :
        (empty : Bool)
        → same token [] ≡ empty
        → (one : Bool) → same token dot ≡ one
        → (two : Bool) → same token dotdot ≡ two
        → (popped : Option (List Text)) → pop done ≡ popped
        → (checked : Result (Unit {0})) → validate_name token ≡ checked
        → (if empty
            then err invalid_path
            else if one
            then parse_tokens tokens done
            else if two
            then elim popped [ none ↦ err invalid_path | some kept ↦ parse_tokens tokens kept ]
            else (checked >>= λ _. parse_tokens tokens (done ++ token ∷ [])))
          ≡ ok names
        → ((more : List Text)
            → All IsName more
            → parse_tokens tokens more ≡ ok names
            → All IsName names)
        → All IsName names
    go true a one b two c popped d checked f g next = cc
    go false a true b two c popped d checked f g next = next done h g
    go false a false b true c none d checked f g next = cc
    go false a false b true c (some kept) d checked f g next =
        next kept (pop-IsName done kept h d) g
    go false a false b false c popped d (err x) f g next = cc
    go false a false b false c popped d (ok tt) f g next =
        next (done ++ token ∷ [])
          (All-append IsName done (token ∷ []) h (checked-IsName token a f, tt)) g

path-injective : (a b : APath) → ok a ≡ ok b → a ≡ b
path-injective a b e = ap (λ r. elim r [ ok x ↦ x | err _ ↦ a ]) e

-- Every path that `parse` returns is normal: no name is empty, a dot or two dots, or has a slash or a
-- bracket.
pub parse-IsNormal : (s : Text) (path : APath) → parse s ≡ ok path → IsNormal path
unfolding parse
parse-IsNormal [] path e = subst IsNormal (path-injective (record { names = [] }) path e) tt
parse-IsNormal (c ∷ cs) path e = go (parse_tokens (split (c ∷ cs)) []) refl e
  where
    go :
        (o : Result (List Text))
        → parse_tokens (split (c ∷ cs)) [] ≡ o
        → (o >>= λ names. ok (record { names = names })) ≡ ok path
        → IsNormal path
    go (err x) f g = cc
    go (ok names) f g =
        subst IsNormal (path-injective (record { names = names }) path g)
          (parse_tokens-IsName (split (c ∷ cs)) [] names tt f)

parse-display_names :
    (names : List Text)
    → All IsName names
    → parse (display (record { names = names })) ≡ ok (record { names = names })
unfolding parse display
parse-display_names [] h = refl
parse-display_names ([] ∷ names) h = absurd (h.0.0 refl)
parse-display_names ((c ∷ cs) ∷ names) h =
    rw (split-display (c ∷ cs) names h, parse_tokens-names ((c ∷ cs) ∷ names) [] h)

-- A normal path is parsed back from what it is printed as.
pub parse-display : (path : APath) → IsNormal path → parse (display path) ≡ ok path
parse-display path h = parse-display_names path.names h
