-- ===== src/Txn/Children/Laws.antt =====
-- `insert` and `remove` as changes of a map from names to keys.
use arbordb.Common.{
  ◌≡◌, refl, sym, ◌∙◌, [], ◌∷◌, ◌++◌, append_assoc, append-nil, none, some, Ordering, if◌then◌else◌,
  arith,
}
use arbordb.Common.Lex.{lex, lex-eq, lex-reverse, lex-lt_trans, is_eq}
use arbordb.Codec.Dir.{Children}
use arbordb.Codec.Dir.Names.{find, AboveAll, IsValid}
use arbordb.Data.Utf8.{Text}
use arbordb.Key.{AKey}
use arbordb.Txn.Children.{insert, remove, collect, collect_into}

-- The names stand in strict order.
abbrev pub Ordered : Children → Type 0
Ordered [] = Unit
Ordered ((name, akey) ∷ rest) = AboveAll name rest × Ordered rest

pub IsValid-Ordered : (cs : Children) → IsValid cs → Ordered cs
IsValid-Ordered [] valid = tt
IsValid-Ordered ((name, akey) ∷ rest) valid = (valid.2, IsValid-Ordered rest valid.3)

pub find-insert :
    (name : Text) (akey : AKey) (cs : Children) (j : Text)
    → find j (insert name akey cs) ≡ (if is_eq (lex name j) then some akey else find j cs)
unfolding find insert
find-insert name akey [] j = ground arith
find-insert name akey ((other, k) ∷ rest) j =
    go (lex name other) refl (find-insert name akey rest j)
  where
    go :
        (o : Ordering)
        → lex name other ≡ o
        → find j (insert name akey rest) ≡ (if is_eq (lex name j) then some akey else find j rest)
        → find j (insert name akey ((other, k) ∷ rest))
          ≡ (if is_eq (lex name j) then some akey else find j ((other, k) ∷ rest))
    go Ordering.lt e h = ground (arith, e, h)
    go Ordering.eq e h = ground (arith, e, lex-eq name other e)
    go Ordering.gt e h = ground (arith, e, h, lex-eq name j, lex-eq other j, lex-reverse name other)

AboveAll-trans :
    (name other : Text) (rest : Children)
    → lex name other ≡ Ordering.lt
    → AboveAll other rest
    → AboveAll name rest
AboveAll-trans name other [] e above = tt
AboveAll-trans name other ((next, k) ∷ rest) e above = lex-lt_trans name other next e above

pub find_above : (name : Text) (cs : Children) → AboveAll name cs → Ordered cs → find name cs ≡ none
unfolding find
find_above name [] above ordered = refl
find_above name ((other, k) ∷ rest) above ordered = ground (
  arith,
  above,
  lex-reverse name other,
  find_above name rest (AboveAll-trans name other rest above ordered.0) ordered.1,
)

pub find-remove :
    (name : Text) (cs : Children) (j : Text)
    → Ordered cs
    → find j (remove name cs) ≡ (if is_eq (lex name j) then none else find j cs)
unfolding find remove
find-remove name [] j ordered = ground arith
find-remove name ((other, k) ∷ rest) j ordered =
    go (lex name other) refl (find-remove name rest j ordered.1)
  where
    go :
        (o : Ordering)
        → lex name other ≡ o
        → find j (remove name rest) ≡ (if is_eq (lex name j) then none else find j rest)
        → find j (remove name ((other, k) ∷ rest))
          ≡ (if is_eq (lex name j) then none else find j ((other, k) ∷ rest))
    go Ordering.lt e h =
        let absent = find_above name rest (AboveAll-trans name other rest e ordered.0) ordered.1 in
        ground (arith, e, lex-eq name j, lex-reverse name other, absent)
    go Ordering.eq e h =
        let absent = find_above other rest ordered.0 ordered.1 in
        ground (arith, e, lex-eq name other e, lex-eq name j, absent)
    go Ordering.gt e h = ground (arith, e, h, lex-eq name j, lex-reverse name other)

insert-AboveAll :
    (low name : Text) (akey : AKey) (cs : Children)
    → lex low name ≡ Ordering.lt
    → AboveAll low cs
    → AboveAll low (insert name akey cs)
unfolding insert
insert-AboveAll low name akey [] e above = e
insert-AboveAll low name akey ((other, k) ∷ rest) e above = go (lex name other) refl
  where
    step : Ordering → Children
    step o = elim o [
      | Ordering.lt ↦ (name, akey) ∷ (other, k) ∷ rest
      | Ordering.eq ↦ (other, akey) ∷ rest
      | Ordering.gt ↦ (other, k) ∷ insert name akey rest
    ]

    go : (o : Ordering) → lex name other ≡ o → AboveAll low (step o)
    go Ordering.lt f = e
    go Ordering.eq f = above
    go Ordering.gt f = above

pub insert-Ordered :
    (name : Text) (akey : AKey) (cs : Children) → Ordered cs → Ordered (insert name akey cs)
unfolding insert
insert-Ordered name akey [] ordered = (tt, tt)
insert-Ordered name akey ((other, k) ∷ rest) ordered =
    go (lex name other) refl (insert-Ordered name akey rest ordered.1)
  where
    step : Ordering → Children
    step o = elim o [
      | Ordering.lt ↦ (name, akey) ∷ (other, k) ∷ rest
      | Ordering.eq ↦ (other, akey) ∷ rest
      | Ordering.gt ↦ (other, k) ∷ insert name akey rest
    ]

    go : (o : Ordering) → lex name other ≡ o → Ordered (insert name akey rest) → Ordered (step o)
    go Ordering.lt e h = (e, ordered)
    go Ordering.eq e h = (ordered.0, ordered.1)
    go Ordering.gt e h = (
      insert-AboveAll other name akey rest (ground (arith, e, lex-reverse name other)) ordered.0,
      h,
    )

remove-AboveAll :
    (low name : Text) (cs : Children) → AboveAll low cs → Ordered cs → AboveAll low (remove name cs)
unfolding remove
remove-AboveAll low name [] above ordered = tt
remove-AboveAll low name ((other, k) ∷ rest) above ordered = go (lex name other) refl
  where
    step : Ordering → Children
    step o = elim o [
      | Ordering.lt ↦ (other, k) ∷ rest
      | Ordering.eq ↦ rest
      | Ordering.gt ↦ (other, k) ∷ remove name rest
    ]

    go : (o : Ordering) → lex name other ≡ o → AboveAll low (step o)
    go Ordering.lt f = above
    go Ordering.eq f = (AboveAll-trans low other rest above ordered.0)
    go Ordering.gt f = above

pub remove-Ordered : (name : Text) (cs : Children) → Ordered cs → Ordered (remove name cs)
unfolding remove
remove-Ordered name [] ordered = tt
remove-Ordered name ((other, k) ∷ rest) ordered =
    go (lex name other) refl (remove-Ordered name rest ordered.1)
  where
    step : Ordering → Children
    step o = elim o [
      | Ordering.lt ↦ (other, k) ∷ rest
      | Ordering.eq ↦ rest
      | Ordering.gt ↦ (other, k) ∷ remove name rest
    ]

    go : (o : Ordering) → lex name other ≡ o → Ordered (remove name rest) → Ordered (step o)
    go Ordering.lt e h = ordered
    go Ordering.eq e h = ordered.1
    go Ordering.gt e h = (remove-AboveAll other name rest ordered.0 ordered.1, h)

insert_last :
    (name : Text) (akey : AKey) (done more : Children)
    → Ordered (done ++ (name, akey) ∷ more)
    → insert name akey done ≡ done ++ (name, akey) ∷ []
unfolding insert
insert_last name akey [] more ordered = refl
insert_last name akey ((other, k) ∷ rest) more ordered =
    ground (
      arith,
      lex-reverse other name,
      before rest ordered,
      insert_last name akey rest more ordered.1,
    )
  where
    before :
        (rest : Children)
        → Ordered ((other, k) ∷ (rest ++ (name, akey) ∷ more))
        → lex other name ≡ Ordering.lt
    before [] h = h.0
    before ((next, j) ∷ rest) h =
        before rest (AboveAll-trans other next (rest ++ (name, akey) ∷ more) h.0 h.1.0, h.1.1)

collect_after : (done cs : Children) → Ordered (done ++ cs) → collect_into done cs ≡ done ++ cs
unfolding collect_into
collect_after done [] ordered = sym (append-nil done)
collect_after done ((name, akey) ∷ rest) ordered = rw (insert_last name akey done rest ordered) (
    collect_after (done ++ (name, akey) ∷ []) rest
      (rw (append_assoc done ((name, akey) ∷ []) rest) ordered)
    ∙ append_assoc done ((name, akey) ∷ []) rest)

pub collect-Ordered_same : (cs : Children) → Ordered cs → collect cs ≡ cs
unfolding collect
collect-Ordered_same cs ordered = collect_after [] cs ordered

collect_into-Ordered : (done cs : Children) → Ordered done → Ordered (collect_into done cs)
unfolding collect_into
collect_into-Ordered done [] h = h
collect_into-Ordered done ((name, akey) ∷ rest) h =
    collect_into-Ordered (insert name akey done) rest (insert-Ordered name akey done h)

pub collect-Ordered : (cs : Children) → Ordered (collect cs)
unfolding collect
collect-Ordered cs = collect_into-Ordered [] cs tt
