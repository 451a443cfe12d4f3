-- ===== src/Runs/Paths.antt =====
-- Access paths.
use arbordb.Common.{◌≡◌, refl, [], ◌∷◌, ok}
use arbordb.Common.Lex.{lex}
use arbordb.Data.Utf8.{Text}
use arbordb.Path.Access.{APath, parse, display}
use arbordb.Path.Access.Parse.{IsNormal, parse-IsNormal, parse-display}

-- "a/../b/./cd"
abbrev winding : Text
winding = 97 ∷ 47 ∷ 46 ∷ 46 ∷ 47 ∷ 98 ∷ 47 ∷ 46 ∷ 47 ∷ 99 ∷ 100 ∷ []

-- "b/cd"
abbrev straight : APath
straight = record { names = (98 ∷ []) ∷ (99 ∷ 100 ∷ []) ∷ [] }

winding_parsed : parse winding ≡ ok straight
unfolding parse lex
winding_parsed = refl

parse-IsNormal_example : IsNormal straight
parse-IsNormal_example = parse-IsNormal winding straight winding_parsed

parse-display_example : parse (display straight) ≡ ok straight
parse-display_example = parse-display straight parse-IsNormal_example
