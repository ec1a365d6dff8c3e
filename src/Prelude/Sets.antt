-- ===== src/Prelude/Sets.antt =====
-- Python's `frozenset[str]` as a list with no repetition: the iteration order of a set is left
-- open by the language, and no theorem depends on it.
use Prim.Native.String.{String}
use mathlib.Core.Path.{◌≡◌, refl}
use mathlib.Core.Bool.{Bool, false, ◌||◌, ◌&&◌}
use mathlib.Core.List.{List, [], ◌∷◌, ◌++◌}
use native.Mathlib.Omega.{arith}
use text.Mathlib.Text.{◌==◌}
use text.Mathlib.TextEquality.{eq_iff}
use fluxio.Prelude.Tests.{if◌then◌else◌}

-- `k in xs`
unfoldable pub contains : String → List String → Bool
contains k [] = false
contains k (x ∷ xs) = x == k || contains k xs

-- `xs | {k}`
unfoldable pub add : String → List String → List String
unfolding contains
add k xs = if contains k xs then xs else xs ++ k ∷ []

-- `xs | ys`
unfoldable pub union : List String → List String → List String
unfolding add
union xs [] = xs
union xs (y ∷ ys) = union (add y xs) ys

-- `xs & ys`
unfoldable pub intersection : List String → List String → List String
unfolding contains
intersection [] ys = []
intersection (x ∷ xs) ys = let rest = intersection xs ys in if contains x ys then x ∷ rest else rest

pub contains-append :
    (k : String) (xs ys : List String) → contains k (xs ++ ys) ≡ (contains k xs || contains k ys)
unfolding contains
contains-append k [] ys = refl
contains-append k (x ∷ xs) ys = ground (arith, contains-append k xs ys)

pub contains-add :
    (k j : String) (xs : List String) → contains j (add k xs) ≡ (k == j || contains j xs)
unfolding add contains
contains-add k j xs = ground (arith, contains-append j xs (k ∷ []), eq_iff k j)

pub contains-union :
    (k : String) (xs ys : List String) → contains k (union xs ys) ≡ (contains k xs || contains k ys)
unfolding union contains
contains-union k xs [] = ground arith
contains-union k xs (y ∷ ys) = ground (arith, contains-union k (add y xs) ys, contains-add y k xs)

pub contains-intersection :
    (k : String) (xs ys : List String)
    → contains k (intersection xs ys) ≡ (contains k xs && contains k ys)
unfolding intersection contains
contains-intersection k [] ys = refl
contains-intersection k (x ∷ xs) ys = ground (arith, contains-intersection k xs ys, eq_iff x k)
