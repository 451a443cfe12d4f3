-- ===== src/Value/Inserts.antt =====
-- Insertion in ascending order of the keys only ever appends.
use arbordb.Common.{◌≡◌, refl, ap, Ordering, arith}
use arbordb.Common.Lex.{lex, lex-lt_trans, lex-reverse}
use arbordb.Data.Utf8.{Text}
use arbordb.Value.Tree.{Value, Entries, end, entry, insert, Above}

abbrev pub extend : Entries → Entries → Entries
extend end more = more
extend (entry k v es) more = entry k v (extend es more)

pub extend-end : (es : Entries) → extend es end ≡ es
extend-end end = refl
extend-end (entry k v es) = ap (entry k v) (extend-end es)

pub extend_assoc : (a b c : Entries) → extend (extend a b) c ≡ extend a (extend b c)
extend_assoc end b c = refl
extend_assoc (entry k v es) b c = ap (entry k v) (extend_assoc es b c)

-- Every name is below the given one.
abbrev pub Below : Entries → Text → Type 0
Below end k = Unit
Below (entry j w es) k = (lex j k ≡ Ordering.lt) × Below es k

pub insert-Below :
    (k : Text) (v : Value) (es : Entries) → Below es k → insert k v es ≡ extend es (entry k v end)
unfolding insert
insert-Below k v end h = refl
insert-Below k v (entry j w es) (less, h) =
    ground (arith, lex-reverse j k, less, insert-Below k v es h)

-- Every name of the first is below every name of the second, whose names ascend.
abbrev pub BelowAll : Entries → Entries → Type 0
BelowAll es end = Unit
BelowAll es (entry k v more) = Below es k

pub BelowAll-end : (es : Entries) → BelowAll end es
BelowAll-end end = tt
BelowAll-end (entry k v es) = tt

Below-trans : (es : Entries) (k j : Text) → Below es k → lex k j ≡ Ordering.lt → Below es j
Below-trans end k j h less = tt
Below-trans (entry i w es) k j (first, h) less =
    (lex-lt_trans i k j first less, Below-trans es k j h less)

Below-extend :
    (es : Entries) (k j : Text) (v : Value)
    → Below es j
    → lex k j ≡ Ordering.lt
    → Below (extend es (entry k v end)) j
Below-extend end k j v h less = (less, tt)
Below-extend (entry i w es) k j v (first, h) less = (first, Below-extend es k j v h less)

pub BelowAll-next :
    (es more : Entries) (k : Text) (v : Value)
    → Below es k
    → Above k more
    → BelowAll (extend es (entry k v end)) more
BelowAll-next es end k v h above = tt
BelowAll-next es (entry j w more) k v h above =
    Below-extend es k j v (Below-trans es k j h above) above
