-- ===== src/Value/Set/Frame.antt =====
-- `set_in` leaves what stands at every path that parts from its own.
use arbordb.Common.{
  ℕ, zero, suc, ◌≡◌, ◌≢◌, ◌⊎◌, inl, inr, refl, sym, ap, subst, ◌∙◌, List, [], ◌∷◌, Option, none,
  some, Ordering, Bool, true, false, ◌==◌, arith,
}
use mathlib.Core.Option.{some-injective}
use arbordb.Common.Lex.{lex, lex-lt_trans, lex_refl, lex-eq}
use arbordb.Data.Utf8.{Text}
use arbordb.Data.Scalar.{Chrono}
use arbordb.Path.Segment.{Segment, VPath}
use arbordb.Value.Tree.{
  Value, Items, Entries, leaf, list, node, nil, cons, end, entry, count_items, get_item, lookup,
  insert, Above, IsValid, EntriesValid,
}
use arbordb.Value.Access.{
  subtree, subtree_segments, child_at, at, get, lookup-IsValid, get_item-IsValid,
}
use arbordb.Value.Set.Laws.{lookup-insert_same, get_item-set_item, get_item-push}
use arbordb.Value.Set.{set_item, push, build_fresh, set_in, set_value}

-- Two paths that part: neither is a prefix of the other.
abbrev pub Diverge : List Segment → List Segment → Type 0
Diverge [] q = ⊥
Diverge (s ∷ p) [] = ⊥
Diverge (Segment.name a ∷ p) (Segment.name b ∷ q) = (a ≢ b) ⊎ ((a ≡ b) × Diverge p q)
Diverge (Segment.index i ∷ p) (Segment.index j ∷ q) = (i ≢ j) ⊎ ((i ≡ j) × Diverge p q)
Diverge (Segment.name a ∷ p) (Segment.index j ∷ q) = Unit
Diverge (Segment.index i ∷ p) (Segment.name b ∷ q) = Unit

module _ (chrono : Chrono) where
  lookup-Above : (k : Text) (map : Entries) → Above k map → lookup k map ≡ none
  unfolding lookup
  lookup-Above k end above = refl
  lookup-Above k (entry j w map) above = rw (lookup, above)

  lookup-insert_other :
      (k j : Text) (v : Value) (map : Entries)
      → k ≢ j
      → EntriesValid chrono map
      → lookup j (insert k v map) ≡ lookup j map
  unfolding lookup insert
  lookup-insert_other k j v end ne h = ground (arith, ne, lex-eq j k)
  lookup-insert_other k j v (entry i w map) ne h =
      go (lex k i) refl (lookup-insert_other k j v map ne h.3)
    where
      go :
          (o : Ordering)
          → lex k i ≡ o
          → lookup j (insert k v map) ≡ lookup j map
          → lookup j (insert k v (entry i w map)) ≡ lookup j (entry i w map)
      go Ordering.lt e rest = ground (
        arith,
        e,
        λ (f : lex j k ≡ Ordering.eq). ne (sym (lex-eq j k f)),
        λ (f : lex j k ≡ Ordering.lt). lex-lt_trans j k i f e,
      )
      go Ordering.eq e rest =
          let same : k ≡ i = lex-eq k i e in
          ground (
            arith,
            e,
            same,
            ap (lex j) same,
            λ (f : lex j k ≡ Ordering.eq). ne (sym (lex-eq j k f)),
          )
      go Ordering.gt e rest = ground (arith, e, rest)

  get_item-set_item_other :
      (i j : ℕ) (x : Value) (items : Items)
      → i ≢ j
      → get_item (set_item items i x) j ≡ get_item items j
  get_item-set_item_other i j x nil ne = refl
  get_item-set_item_other zero zero x (cons y ys) ne = absurd (ne refl)
  get_item-set_item_other zero (suc j) x (cons y ys) ne = refl
  get_item-set_item_other (suc i) zero x (cons y ys) ne = refl
  get_item-set_item_other (suc i) (suc j) x (cons y ys) ne =
      get_item-set_item_other i j x ys (λ e. ne (ap suc e))

  get_item-push_other :
      (j : ℕ) (x : Value) (items : Items)
      → count_items items ≢ j
      → get_item (push items x) j ≡ get_item items j
  get_item-push_other zero x nil ne = absurd (ne refl)
  get_item-push_other (suc j) x nil ne = refl
  get_item-push_other zero x (cons y ys) ne = refl
  get_item-push_other (suc j) x (cons y ys) ne = get_item-push_other j x ys (λ e. ne (ap suc e))

-- The same child leads to the same subtree.
subtree_same :
    (t t' : Value) (s : Segment) (q : List Segment)
    → child_at t s ≡ child_at t' s
    → subtree_segments t (s ∷ q) ≡ subtree_segments t' (s ∷ q)
unfolding subtree_segments
subtree_same t t' s q e = rw (subtree_segments, e) refl

subtree_child :
    (t c : Value) (s : Segment) (q : List Segment)
    → child_at t s ≡ some c
    → subtree_segments t (s ∷ q) ≡ subtree_segments c q
unfolding subtree_segments
subtree_child t c s q e = rw (subtree_segments, e) refl

subtree_none :
    (t : Value) (s : Segment) (q : List Segment)
    → child_at t s ≡ none
    → subtree_segments t (s ∷ q) ≡ none
unfolding subtree_segments
subtree_none t s q e = rw (subtree_segments, e) refl

-- What a fresh subtree looks like.
fresh_name :
    (k : Text) (p : List Segment) (v t : Value)
    → build_fresh (Segment.name k ∷ p) v ≡ some t
    → (s : Value) × (build_fresh p v ≡ some s) × (t ≡ node (entry k s end))
unfolding build_fresh
fresh_name k p v t e = go (build_fresh p v) refl e
  where
    go :
        (o : Option Value)
        → build_fresh p v ≡ o
        → elim o [ none ↦ none | some s ↦ some (node (entry k s end)) ] ≡ some t
        → (s : Value) × (build_fresh p v ≡ some s) × (t ≡ node (entry k s end))
    go none f g = cc
    go (some s) f g = (s, f, sym (some-injective (node (entry k s end)) t g))

fresh_index :
    (p : List Segment) (v t : Value)
    → build_fresh (Segment.index 0 ∷ p) v ≡ some t
    → (s : Value) × (build_fresh p v ≡ some s) × (t ≡ list (cons s nil))
unfolding build_fresh
fresh_index p v t e = go (build_fresh p v) refl e
  where
    go :
        (o : Option Value)
        → build_fresh p v ≡ o
        → elim o [ none ↦ none | some s ↦ some (list (cons s nil)) ] ≡ some t
        → (s : Value) × (build_fresh p v ≡ some s) × (t ≡ list (cons s nil))
    go none f g = cc
    go (some s) f g = (s, f, sym (some-injective (list (cons s nil)) t g))

lookup-single : (a b : Text) (s : Value) → a ≢ b → lookup b (entry a s end) ≡ none
unfolding lookup
lookup-single a b s ne = ground (arith, λ (f : lex b a ≡ Ordering.eq). ne (sym (lex-eq b a f)))

lookup-single_same : (a b : Text) (s : Value) → a ≡ b → lookup b (entry a s end) ≡ some s
unfolding lookup
lookup-single_same a b s same = rw (sym same) (rw (lookup, lex_refl a) refl)

get_item-single : (j : ℕ) (s : Value) → ◌≢◌ {A = ℕ} 0 j → get_item (cons s nil) j ≡ none
get_item-single zero s ne = absurd (ne refl)
get_item-single (suc j) s ne = refl

-- A child, as `child_at` finds it.
child_at-name :
    (k : Text) (map : Entries) (o : Option Value)
    → lookup k map ≡ o
    → child_at (node map) (Segment.name k) ≡ o
unfolding child_at get
child_at-name k map o e = e

child_at-index :
    (i : ℕ) (items : Items) (o : Option Value)
    → get_item items i ≡ o
    → child_at (list items) (Segment.index i) ≡ o
unfolding child_at at
child_at-index i items o e = e

-- What is built afresh holds nothing beside its path.
build_fresh-Diverge :
    (p q : List Segment) (v t : Value)
    → Diverge p q
    → build_fresh p v ≡ some t
    → subtree_segments t q ≡ none
build_fresh-Diverge [] q v t apart e = absurd apart
build_fresh-Diverge (s ∷ p) [] v t apart e = absurd apart
build_fresh-Diverge (Segment.name a ∷ p) (Segment.name b ∷ q) v t apart e =
    let (s, f, g) = fresh_name a p v t e in
    rw g (elim apart [
      | inl ne ↦
          subtree_none (node (entry a s end)) (Segment.name b) q
            (child_at-name b (entry a s end) none (lookup-single a b s ne))
      | inr (same, further) ↦
          subtree_child (node (entry a s end)) s (Segment.name b) q
            (child_at-name b (entry a s end) (some s) (lookup-single_same a b s same))
          ∙ build_fresh-Diverge p q v s further f
    ])
build_fresh-Diverge (Segment.name a ∷ p) (Segment.index j ∷ q) v t apart e =
    let (s, f, g) = fresh_name a p v t e in
    rw g (
      subtree_none (node (entry a s end)) (Segment.index j) q
        (unfold child_at in unfold at in refl))
build_fresh-Diverge (Segment.index zero ∷ p) (Segment.index j ∷ q) v t apart e =
    let (s, f, g) = fresh_index p v t e in
    rw g (elim apart [
      | inl ne ↦
          subtree_none (list (cons s nil)) (Segment.index j) q
            (child_at-index j (cons s nil) none (get_item-single j s ne))
      | inr (same, further) ↦
          subtree_child (list (cons s nil)) s (Segment.index j) q
            (child_at-index j (cons s nil) (some s) (ap (get_item (cons s nil)) (sym same)))
          ∙ build_fresh-Diverge p q v s further f
    ])
build_fresh-Diverge (Segment.index zero ∷ p) (Segment.name b ∷ q) v t apart e =
    let (s, f, g) = fresh_index p v t e in
    rw g
      (subtree_none (list (cons s nil)) (Segment.name b) q (unfold child_at in unfold get in refl))
build_fresh-Diverge (Segment.index (suc i) ∷ p) (Segment.index j ∷ q) v t apart e =
    unfold build_fresh in cc
build_fresh-Diverge (Segment.index (suc i) ∷ p) (Segment.name b ∷ q) v t apart e =
    unfold build_fresh in cc

-- Under an object: the field `a` is replaced by `c'`, and below it only what was there before counts.
frame_name :
    (chrono : Chrono) (a b : Text) (p q : List Segment) (map : Entries) (c : Value)
    → (a ≢ b) ⊎ ((a ≡ b) × Diverge p q)
    → EntriesValid chrono map
    → (Diverge p q → subtree_segments c q ≡ subtree_segments (node map) (Segment.name a ∷ q))
    → subtree_segments (node (insert a c map)) (Segment.name b ∷ q)
      ≡ subtree_segments (node map) (Segment.name b ∷ q)
frame_name chrono a b p q map c (inl ne) valid below =
    subtree_same (node (insert a c map)) (node map) (Segment.name b) q (
      child_at-name b (insert a c map) (lookup b map)
        (lookup-insert_other chrono a b c map ne valid)
      ∙ sym (child_at-name b map (lookup b map) refl))
frame_name chrono a b p q map c (inr (same, further)) valid below =
    subst
      (λ n.
        subtree_segments (node (insert a c map)) (Segment.name n ∷ q)
        ≡ subtree_segments (node map) (Segment.name n ∷ q))
      same
      (subtree_child (node (insert a c map)) c (Segment.name a) q
          (child_at-name a (insert a c map) (some c) (lookup-insert_same a c map))
        ∙ below further)

-- Under a list that another takes the place of: `i` leads to `c`, any other index where it led before.
frame_index :
    (i j : ℕ) (p q : List Segment) (items items' : Items) (c : Value)
    → (i ≢ j) ⊎ ((i ≡ j) × Diverge p q)
    → (i ≢ j → get_item items' j ≡ get_item items j)
    → get_item items' i ≡ some c
    → (Diverge p q → subtree_segments c q ≡ subtree_segments (list items) (Segment.index i ∷ q))
    → subtree_segments (list items') (Segment.index j ∷ q)
      ≡ subtree_segments (list items) (Segment.index j ∷ q)
frame_index i j p q items items' c (inl ne) other here below =
    subtree_same (list items') (list items) (Segment.index j) q (
      child_at-index j items' (get_item items j) (other ne)
      ∙ sym (child_at-index j items (get_item items j) refl))
frame_index i j p q items items' c (inr (same, further)) other here below =
    subst
      (λ n.
        subtree_segments (list items') (Segment.index n ∷ q)
        ≡ subtree_segments (list items) (Segment.index n ∷ q))
      same
      (subtree_child (list items') c (Segment.index i) q (child_at-index i items' (some c) here)
        ∙ below further)

-- An index leads nowhere in an object, and a name nowhere in a list.
index_in_node :
    (map map' : Entries) (j : ℕ) (q : List Segment)
    → subtree_segments (node map) (Segment.index j ∷ q)
      ≡ subtree_segments (node map') (Segment.index j ∷ q)
index_in_node map map' j q =
    subtree_same (node map) (node map') (Segment.index j) q (unfold child_at in unfold at in refl)

name_in_list :
    (items items' : Items) (b : Text) (q : List Segment)
    → subtree_segments (list items) (Segment.name b ∷ q)
      ≡ subtree_segments (list items') (Segment.name b ∷ q)
name_in_list items items' b q =
    subtree_same (list items) (list items') (Segment.name b) q
      (unfold child_at in unfold get in refl)

fresh_below :
    (p q : List Segment) (v t before : Value) (s : Segment)
    → build_fresh p v ≡ some t
    → child_at before s ≡ none
    → Diverge p q
    → subtree_segments t q ≡ subtree_segments before (s ∷ q)
fresh_below p q v t before s f e further =
    build_fresh-Diverge p q v t further f ∙ sym (subtree_none before s q e)

module _ (chrono : Chrono) where
  set_in-Diverge :
      (p q : List Segment) (v t : Value)
      → Diverge p q
      → IsValid chrono t
      → subtree_segments (set_in p v t).0 q ≡ subtree_segments t q
  unfolding set_in
  set_in-Diverge [] q v t apart valid = absurd apart
  set_in-Diverge (s ∷ p) [] v t apart valid = absurd apart
  set_in-Diverge (Segment.name a ∷ p) (s ∷ q) v (leaf x) apart valid = refl
  set_in-Diverge (Segment.name a ∷ p) (s ∷ q) v (list items) apart valid = refl
  set_in-Diverge (Segment.index i ∷ p) (s ∷ q) v (leaf x) apart valid = refl
  set_in-Diverge (Segment.index i ∷ p) (s ∷ q) v (node map) apart valid = refl
  set_in-Diverge (Segment.name a ∷ p) (s ∷ q) v (node map) apart valid =
      go (lookup a map) refl (build_fresh p v) refl s apart (λ c h. set_in-Diverge p q v c h)
    where
      go :
          (o : Option Value)
          → lookup a map ≡ o
          → (f : Option Value) → build_fresh p v ≡ f
          → (s : Segment) → Diverge (Segment.name a ∷ p) (s ∷ q)
          → ((c : Value)
              → Diverge p q
              → IsValid chrono c
              → subtree_segments (set_in p v c).0 q ≡ subtree_segments c q)
          → subtree_segments (set_in (Segment.name a ∷ p) v (node map)).0 (s ∷ q)
            ≡ subtree_segments (node map) (s ∷ q)
      go none e none f s apart next = rw (set_in, e, f) refl
      go none e (some t) f (Segment.index j) apart next =
          rw (set_in, e, f) (index_in_node (insert a t map) map j q)
      go none e (some t) f (Segment.name b) apart next =
          rw (set_in, e, f)
            (frame_name chrono a b p q map t apart valid
              (fresh_below p q v t (node map) (Segment.name a) f (child_at-name a map none e)))
      go (some c) e g f (Segment.index j) apart next =
          rw (set_in, e) (index_in_node (insert a (set_in p v c).0 map) map j q)
      go (some c) e g f (Segment.name b) apart next =
          rw (set_in, e)
            (frame_name chrono a b p q map (set_in p v c).0 apart valid (λ further.
              next c further (lookup-IsValid chrono a map c valid e)
              ∙ sym
                  (subtree_child (node map) c (Segment.name a) q (child_at-name a map (some c) e))))
  set_in-Diverge (Segment.index i ∷ p) (s ∷ q) v (list items) apart valid =
      go (get_item items i) refl (i == count_items items) refl (build_fresh p v) refl s apart
        (λ c h. set_in-Diverge p q v c h)
    where
      go :
          (o : Option Value)
          → get_item items i ≡ o
          → (last : Bool) → (i == count_items items) ≡ last
          → (f : Option Value) → build_fresh p v ≡ f
          → (s : Segment) → Diverge (Segment.index i ∷ p) (s ∷ q)
          → ((c : Value)
              → Diverge p q
              → IsValid chrono c
              → subtree_segments (set_in p v c).0 q ≡ subtree_segments c q)
          → subtree_segments (set_in (Segment.index i ∷ p) v (list items)).0 (s ∷ q)
            ≡ subtree_segments (list items) (s ∷ q)
      go none e false l g f s apart next = rw (set_in, e, l) refl
      go none e true l none f s apart next = rw (set_in, e, l, f) refl
      go none e true l (some t) f (Segment.name b) apart next =
          rw (set_in, e, l, f) (name_in_list (push items t) items b q)
      go none e true l (some t) f (Segment.index j) apart next =
          let at_end : i ≡ count_items items = ground (arith, l) in
          rw (set_in, e, l, f)
            (frame_index i j p q items (push items t) t apart
              (λ ne. get_item-push_other chrono j t items (λ h. ne (at_end ∙ h)))
              (ap (get_item (push items t)) at_end ∙ get_item-push t items)
              (fresh_below p q v t (list items) (Segment.index i) f
                (child_at-index i items none e)))
      go (some c) e last l g f (Segment.name b) apart next =
          rw (set_in, e) (name_in_list (set_item items i (set_in p v c).0) items b q)
      go (some c) e last l g f (Segment.index j) apart next =
          rw (set_in, e)
            (frame_index i j p q items (set_item items i (set_in p v c).0) (set_in p v c).0 apart
              (get_item-set_item_other chrono i j (set_in p v c).0 items)
              (get_item-set_item i (set_in p v c).0 c items e)
              (λ further.
                next c further (get_item-IsValid chrono items i c valid e)
                ∙ sym (
                    subtree_child (list items) c (Segment.index i) q
                      (child_at-index i items (some c) e))))

-- Setting a value at a path of a valid value leaves what stands at any path that parts from it, also
-- where containers are created on the way.
pub set_value-Diverge :
    (chrono : Chrono) (target value : Value) (path other : VPath)
    → Diverge path.segments other.segments
    → IsValid chrono target
    → subtree (set_value target path value).0 other ≡ subtree target other
unfolding set_value subtree
set_value-Diverge chrono target value path other apart valid =
    set_in-Diverge chrono path.segments other.segments value target apart valid
