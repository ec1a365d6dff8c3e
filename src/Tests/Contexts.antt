-- ===== src/Tests/Contexts.antt =====
-- Contexts and their merges.
use fluxio.Prelude.{ℕ, String, List, [], ◌∷◌, some, true, ◌≡◌, refl, All, ◌⊎◌, ◌↔◌, ◌||◌, contains}
use fluxio.Prelude.Dict.{Dict, lookup}
use fluxio.Errors.{ok, is_ok, ok_of_is_ok}
use fluxio.Context.{Context, create, get, set, update, fork, merge}
use fluxio.Context.Merge.{IsWellFormed, Compatible, last_writer, writer_value, wrote}
use fluxio.Context.Progress.{merge-ok_iff}
use fluxio.Context.Laws.{
  IsDict, or_else, IsConflict, get-update, get-merge, merge_total, Made, created, assigned, forked,
  merged, nothing, also, Made-IsWellFormed,
}
use fluxio.Tests.Fixtures.{values}

abbrev base : Context (Dict ℕ)
base = create values (some (("seed", 7) ∷ [])) "main"

abbrev left : Context (Dict ℕ)
left = set values (fork values base "left") "x" 1

abbrev right : Context (Dict ℕ)
right = set values (fork values base "right") "y" 2

abbrev both : List (Context (Dict ℕ))
both = left ∷ right ∷ []

base-Made : Made values base
base-Made = created (some (("seed", 7) ∷ [])) "main"

left-Made : Made values left
left-Made = assigned "x" 1 (forked "left" base-Made)

right-Made : Made values right
right-Made = assigned "y" 2 (forked "right" base-Made)

both-IsWellFormed : All (IsWellFormed values) both
both-IsWellFormed = (Made-IsWellFormed left-Made, (Made-IsWellFormed right-Made, tt))

merges : is_ok (merge values base both) ≡ true
unfolding merge create set fork
merges = refl

whole : (c : Context (Dict ℕ)) × (merge values base both ≡ ok c)
whole = ok_of_is_ok (merge values base both) merges

abbrev patch : Dict ℕ
patch = ("x", 1) ∷ ("seed", 8) ∷ []

patch-IsDict : IsDict patch
unfolding lookup
patch-IsDict = (refl, (refl, tt))

get-update_example :
    get values (update values base patch) "seed"
    ≡ or_else (lookup "seed" patch) (get values base "seed")
get-update_example = get-update values base patch "seed" patch-IsDict

get-merge_example :
    ((k : String)
      → get values whole.0 k ≡ writer_value values (last_writer k both) k (get values base k))
    × ((k : String)
        → contains k (whole.0).written
          ≡ (wrote values (last_writer k both) || contains k base.written))
    × ((whole.0).name ≡ base.name)
get-merge_example = get-merge values base whole.0 both whole.1

merge-ok_iff_example : (is_ok (merge values base both) ≡ true) ↔ Compatible both
merge-ok_iff_example = merge-ok_iff values base both both-IsWellFormed

merge_total_example :
    ((c : Context (Dict ℕ)) × (merge values base both ≡ ok c))
    ⊎ IsConflict values (merge values base both)
merge_total_example = merge_total values base both both-IsWellFormed

Made-IsWellFormed_example : IsWellFormed values whole.0
Made-IsWellFormed_example =
    Made-IsWellFormed (merged both base-Made (also left-Made (also right-Made nothing)) whole.1)
