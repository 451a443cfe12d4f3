-- ===== src/Index/Pattern/Scope.antt =====
-- The walk of a pattern, pruned to the scope of a mutation, finds what lies on the scope's line.
use mathlib.Core.List.{Memᴰ}
use mathlib.Core.List.Memᴰ
use arbordb.Common.{
  ℕ, ◌≡◌, refl, sym, ap, subst, ◌∙◌, ◌⊎◌, inl, inr, ◌↔◌, List, [], ◌∷◌, ◌++◌, Option, none, some,
  Bool, true, false, if◌then◌else◌, not, Result, ok, err, ◌>>=◌, arith,
}
use arbordb.Common.Lex.{lex_refl}
use arbordb.Data.Utf8.{Text}
use arbordb.Engine.Entry.{child_of}
use arbordb.Index.Pattern.{
  PatternSeg, lit, star, Pattern, children, walk_all, descend, affected_entities,
}
use arbordb.Index.Pattern
use arbordb.Index.Pattern.Below.{IsTree, children_lem}
use arbordb.Key.{AKey, root}
use arbordb.Path.Access.{APath, same}
use arbordb.Txn.Pending.Walk.{walk}
use arbordb.Index.Pattern.Target.{
  Target, Step, Target-Step, Target-first, along, Agrees-nil, same-eq,
}

module _ (read : AKey → Option (List ℕ)) where
  descend_lem :
      (visit : AKey → List AKey → Result (List AKey)) (cur : AKey) (name : Text)
      (out found : List AKey) (segs : List PatternSeg) (scope : List Text) (k : AKey)
      → descend read visit cur name out ≡ ok found
      → ((child : AKey)
          → visit child out ≡ ok found
          → Memᴰ k found ↔ (Memᴰ k out ⊎ Target read segs child scope k))
      → Memᴰ k found ↔ (Memᴰ k out ⊎ Step read name segs cur scope k)
  unfolding descend
  descend_lem visit cur name out found segs scope k h visited = go (child_of (read cur) name) refl h
    where
      next : Result (Option AKey) → Result (List AKey)
      next r = do o ← r; elim o [ none ↦ ok out | some child ↦ visit child out ]

      go :
          (r : Result (Option AKey))
          → child_of (read cur) name ≡ r
          → next r ≡ ok found
          → Memᴰ k found ↔ (Memᴰ k out ⊎ Step read name segs cur scope k)
      go (err e) f h = absurd (cc)
      go (ok none) f h = (
        λ mem. inl (subst (Memᴰ k) (sym (out-found h)) mem),
        λ o. elim o [
          | inl mem ↦ subst (Memᴰ k) (out-found h) mem
          | inr (child, e, target) ↦ absurd (clash child (sym f ∙ e))
        ],
      )
        where
          out-found : ◌≡◌ {A = Result (List AKey)} (ok out) (ok found) → out ≡ found
          out-found e = cc

          clash : (child : AKey) → ◌≡◌ {A = Result (Option AKey)} (ok none) (ok (some child)) → ⊥
          clash child e = cc
      go (ok (some child)) f h = (
        λ mem. elim ((visited child h).0 mem) [
          | inl there ↦ inl there
          | inr target ↦ inr (child, f, target)
        ],
        λ o. (visited child h).1 (elim o [
          | inl mem ↦ inl mem
          | inr (other, e, target) ↦
              inr (subst (λ x. Target read segs x scope k) (one other (sym e ∙ f)) target)
        ]),
      )
        where
          one :
              (other : AKey)
              → ◌≡◌ {A = Result (Option AKey)} (ok (some other)) (ok (some child))
              → other ≡ child
          one other e = cc

  walk_all_lem :
      (visit : AKey → List AKey → Result (List AKey)) (below out found : List AKey)
      (segs : List PatternSeg) (scope : List Text) (k : AKey)
      → walk_all visit below out ≡ ok found
      → ((child : AKey) (out found : List AKey)
          → visit child out ≡ ok found
          → Memᴰ k found ↔ (Memᴰ k out ⊎ Target read segs child scope k))
      → Memᴰ k found
        ↔ (Memᴰ k out ⊎ ((child : AKey) × Memᴰ child below × Target read segs child scope k))
  unfolding walk_all
  walk_all_lem visit [] out found segs scope k h visited = (
    λ mem. inl (subst (Memᴰ k) (sym (same h)) mem),
    λ o. elim o [
      | inl mem ↦ subst (Memᴰ k) (same h) mem
      | inr (child, mem, target) ↦ absurd (Memᴰ.not-nil mem)
    ],
  )
    where
      same : ◌≡◌ {A = Result (List AKey)} (ok out) (ok found) → out ≡ found
      same e = cc
  walk_all_lem visit (c ∷ below) out found segs scope k h visited =
      go (visit c out) refl h
        (λ further e. walk_all_lem visit below further found segs scope k e visited)
    where
      next : Result (List AKey) → Result (List AKey)
      next r = do further ← r; walk_all visit below further

      go :
          (r : Result (List AKey))
          → visit c out ≡ r
          → next r ≡ ok found
          → ((further : List AKey)
              → walk_all visit below further ≡ ok found
              → Memᴰ k found ↔ (
                  Memᴰ k further
                  ⊎ ((child : AKey) × Memᴰ child below × Target read segs child scope k)))
          → Memᴰ k found ↔ (
              Memᴰ k out
              ⊎ ((child : AKey) × Memᴰ child (c ∷ below) × Target read segs child scope k))
      go (err e) f h rest = absurd (cc)
      go (ok further) f h rest = (
        λ mem. elim ((rest further h).0 mem) [
          | inr (child, there, target) ↦ inr (child, Memᴰ.tail there, target)
          | inl old ↦ elim ((visited c out further f).0 old) [
            | inl older ↦ inl older
            | inr target ↦ inr (c, Memᴰ.head refl, target)
          ]
        ],
        λ o. (rest further h).1 (elim o [
          | inl old ↦ inl ((visited c out further f).1 (inl old))
          | inr (child, there, target) ↦ elim (Memᴰ.cases_cons there) [
            | inl e ↦ inl (
                (visited c out further f).1
                  (inr (subst (λ x. Target read segs x scope k) e target)))
            | inr more ↦ inr (child, more, target)
          ]
        ]),
      )

  walk_lem :
      (segs : List PatternSeg) (cur : AKey) (scope : List Text) (out found : List AKey) (k : AKey)
      → IsTree read
      → Pattern.walk read segs cur scope out ≡ ok found
      → Memᴰ k found ↔ (Memᴰ k out ⊎ Target read segs cur scope k)
  unfolding Pattern.walk
  walk_lem [] cur scope out found k tree h = (
    λ mem. elim (Memᴰ.append_cases out (subst (Memᴰ k) (sym same) mem)) [
      | inl old ↦ inl old
      | inr new ↦ inr ([], tt, tt, here (only new))
    ],
    λ o. subst (Memᴰ k) same (elim o [
      | inl old ↦ Memᴰ.append_left (cur ∷ []) old
      | inr target ↦ Memᴰ.append_right out (Memᴰ.head (at_end target))
    ]),
  )
    where
      same : out ++ cur ∷ [] ≡ found
      same = injected h
        where
          injected :
              ◌≡◌ {A = Result (List AKey)} (ok (out ++ cur ∷ [])) (ok found)
              → out ++ cur ∷ [] ≡ found
          injected e = cc

      only : Memᴰ k (cur ∷ []) → k ≡ cur
      only mem = elim (Memᴰ.cases_cons mem) [ inl e ↦ e | inr more ↦ absurd (Memᴰ.not-nil more) ]

      here : k ≡ cur → walk read cur [] ≡ ok (some k)
      here e = unfold walk in ap (λ x. ok (some x)) (sym e)

      at_end : Target read [] cur scope k → k ≡ cur
      at_end ([], m, a, w) = unfold walk in cc
      at_end (name ∷ names, m, a, w) = absurd m
  walk_lem (lit name ∷ segs) cur [] out found k tree h =
      along read segs cur [] [] out found k (lit name) name
        (descend_lem (λ child. Pattern.walk read segs child []) cur name out found segs [] k h
          (λ child e. walk_lem segs child [] out found k tree e))
        (λ names m. (refl, m)) (λ names a. tt) (λ other names m a. (m.0, m.1, Agrees-nil names))
  walk_lem (lit name ∷ segs) cur (taken ∷ scope) out found k tree h =
      go (same taken name) refl h (λ e.
        descend_lem (λ child. Pattern.walk read segs child scope) cur name out found segs scope k e
          (λ child e. walk_lem segs child scope out found k tree e))
    where
      next : Bool → Result (List AKey)
      next b =
          if not b
          then ok out
          else descend read (λ child. Pattern.walk read segs child scope) cur name out

      go :
          (b : Bool)
          → same taken name ≡ b
          → next b ≡ ok found
          → (descend read (λ child. Pattern.walk read segs child scope) cur name out ≡ ok found
              → Memᴰ k found ↔ (Memᴰ k out ⊎ Step read name segs cur scope k))
          → Memᴰ k found ↔ (Memᴰ k out ⊎ Target read (lit name ∷ segs) cur (taken ∷ scope) k)
      go true f h descended =
          let e = same-eq taken name f in
          along read segs cur (taken ∷ scope) scope out found k (lit name) name (descended h)
            (λ names m. (refl, m)) (λ names a. (sym e, a)) (λ other names m a. (m.0, m.1, a.1))
      go false f h descended = (
        λ mem. inl (subst (Memᴰ k) (sym (whole h)) mem),
        λ o. elim o [
          | inl old ↦ subst (Memᴰ k) (whole h) old
          | inr target ↦
              let (other, names, child, m, a, e, w) =
                Target-first read (lit name) segs cur (taken ∷ scope) k target in
              absurd (apart (sym a.0 ∙ m.0))
        ],
      )
        where
          whole : ◌≡◌ {A = Result (List AKey)} (ok out) (ok found) → out ≡ found
          whole e = cc

          apart : taken ≡ name → ⊥
          apart e = ground (arith, f, lex_refl taken, e)
  walk_lem (star ∷ segs) cur (taken ∷ scope) out found k tree h =
      along read segs cur (taken ∷ scope) scope out found k star taken
        (descend_lem (λ child. Pattern.walk read segs child scope) cur taken out found segs scope k
          h (λ child e. walk_lem segs child scope out found k tree e))
        (λ names m. m) (λ names a. (refl, a)) (λ other names m a. (a.0, m, a.1))
  walk_lem (star ∷ segs) cur [] out found k tree h = go (children (read cur)) refl h (λ below e.
      walk_all_lem (λ child. Pattern.walk read segs child []) below out found segs [] k e
        (λ child out found e. walk_lem segs child [] out found k tree e))
    where
      next : Result (List AKey) → Result (List AKey)
      next r = do below ← r; walk_all (λ child. Pattern.walk read segs child []) below out

      go :
          (r : Result (List AKey))
          → children (read cur) ≡ r
          → next r ≡ ok found
          → ((below : List AKey)
              → walk_all (λ child. Pattern.walk read segs child []) below out ≡ ok found
              → Memᴰ k found
                ↔ (Memᴰ k out ⊎ ((child : AKey) × Memᴰ child below × Target read segs child [] k)))
          → Memᴰ k found ↔ (Memᴰ k out ⊎ Target read (star ∷ segs) cur [] k)
      go (err e) f h visited = absurd (cc)
      go (ok below) f h visited = (
        λ mem. elim ((visited below h).0 mem) [
          | inl old ↦ inl old
          | inr (child, there, target) ↦
              let (name, e) = (children_lem read cur child below tree f).0 there in
              inr (
                Target-Step read star segs cur name [] [] k (λ names m. m) (λ names a. tt)
                  (child, e, target))
        ],
        λ o. (visited below h).1 (elim o [
          | inl old ↦ inl old
          | inr target ↦
              let (name, names, child, m, a, e, w) = Target-first read star segs cur [] k target in
              inr (
                child,
                (children_lem read cur child below tree f).1 (name, e),
                (names, m, Agrees-nil names, w),
              )
        ]),
      )

-- The a-nodes that a mutation may affect are exactly those that names from the root lead to which the
-- pattern selects and which agree with the scope as far as both go, when every entry is a file's or that
-- of a directory that can be written.
pub affected_entities_lem :
    (read : AKey → Option (List ℕ)) (pattern : Pattern) (scope : APath) (found : List AKey)
    (k : AKey)
    → IsTree read
    → affected_entities read pattern scope ≡ ok found
    → Memᴰ k found ↔ Target read pattern.segs root scope.names k
unfolding affected_entities
affected_entities_lem read pattern scope found k tree h =
    let iff = walk_lem read pattern.segs root scope.names [] found k tree h in
    (
      λ mem. elim (iff.0 mem) [ inl old ↦ absurd (Memᴰ.not-nil old) | inr target ↦ target ],
      λ target. iff.1 (inr target),
    )
