-- ===== src/Compiler/Grouping.antt =====
-- compiler/compiler.py, `_auto_parallelize` and `_independent`: folding runs of independent stages
-- into `Parallel` blocks.
use fluxio.Prelude.{
  ℕ, zero, suc, ◌-◌, String, List, [], ◌∷◌, ◌++◌, Option, none, some, Bool, true, false, ◌&&◌, not,
  length, if◌then◌else◌, intersection,
}
use fluxio.Errors.{Result, ok, err, type_error, ◌>>=◌}
use fluxio.Stage.{Stage, Parallel, parallel_mode}

-- A node of a pipeline. `R` is what a routing dict holds; a dict inside a route body is refused
-- whatever it holds, so there `R` is `Unit`.
pub data Node (F S R : Type 0) : Type 0 where
  stage_node : Stage F S → Node F S R
  parallel_node : Parallel F S → Node F S R
  dict_node : R → Node F S R

-- `bool(s)` of a set that may be `None`
unfoldable pub truthy : Option (List String) → Bool
truthy none = false
truthy (some []) = false
truthy (some (_ ∷ _)) = true

-- `bool(a & b)`; `&` raises if a side is `None`.
unfoldable pub overlaps : Option (List String) → Option (List String) → Result Bool
unfolding truthy intersection
overlaps none _ = err type_error
overlaps (some a) none = err type_error
overlaps (some a) (some b) = ok (truthy (some (intersection a b)))

module _ {F S : Type 0} where
  -- `e_writes & c_reads or c_writes & e_reads or e_writes & c_writes`, with the short circuits
  unfoldable pub collides : Stage F S → Stage F S → Result Bool
  unfolding overlaps
  collides e c = do
    a ← overlaps e.writes c.reads
    if a
        then ok true
        else (do b ← overlaps c.writes e.reads; if b then ok true else overlaps e.writes c.writes)

  unfoldable pub undeclared : Stage F S → Bool
  unfolding truthy
  undeclared s = not (truthy s.reads) && not (truthy s.writes)

  -- The loop over the group.
  unfoldable pub independent_of_all : List (Stage F S) → Stage F S → Result Bool
  unfolding collides undeclared
  independent_of_all [] c = ok true
  independent_of_all (e ∷ group) c =
      if undeclared e
      then ok false
      else (do hit ← collides e c; if hit then ok false else independent_of_all group c)

  unfoldable pub independent : List (Stage F S) → Stage F S → Result Bool
  unfolding independent_of_all
  independent group c = if undeclared c then ok false else independent_of_all group c

module _ {F S R : Type 0} where
  -- `isinstance(nodes[0], dict)`, false past the end
  unfoldable pub starts_with_dict : List (Node F S R) → Bool
  starts_with_dict (dict_node r ∷ rest) = true
  starts_with_dict _ = false

  -- The inner loop: the group that starts with `group` and goes on with the nodes given.
  unfoldable pub grow_group : List (Stage F S) → List (Node F S R) → Result (List (Stage F S))
  unfolding independent starts_with_dict
  grow_group group [] = ok group
  grow_group group (parallel_node p ∷ rest) = ok group
  grow_group group (dict_node r ∷ rest) = ok group
  grow_group group (stage_node c ∷ rest) = if starts_with_dict rest then ok group else (do
    free ← independent group c
    if free then grow_group (group ++ c ∷ []) rest else ok group)

  -- What is appended for a group: a block, or the one stage itself.
  unfoldable pub group_node : Stage F S → List (Stage F S) → Node F S R
  group_node current (a ∷ b ∷ more) =
      parallel_node (record { branches = a ∷ b ∷ more; mode = parallel_mode; block_name = none })
  group_node current _ = stage_node current

  -- The outer loop. After a group of `n` stages, the next `n - 1` nodes are passed over: `skip`
  -- is the number of nodes still to pass over.
  unfoldable pub auto_parallelize_from : ℕ → List (Node F S R) → Result (List (Node F S R))
  unfolding grow_group group_node starts_with_dict
  auto_parallelize_from skip [] = ok []
  auto_parallelize_from (suc skip) (n ∷ rest) = auto_parallelize_from skip rest
  auto_parallelize_from zero (parallel_node p ∷ rest) = do
    tail ← auto_parallelize_from zero rest
    ok (parallel_node p ∷ tail)
  auto_parallelize_from zero (dict_node r ∷ rest) = do
    tail ← auto_parallelize_from zero rest
    ok (dict_node r ∷ tail)
  auto_parallelize_from zero (stage_node s ∷ rest) = elim (starts_with_dict rest) [
    | true ↦ do tail ← auto_parallelize_from zero rest; ok (stage_node s ∷ tail)
    | false ↦ do
      group ← grow_group (s ∷ []) rest
      tail ← auto_parallelize_from (length group - 1) rest
      ok (group_node s group ∷ tail)
  ]

  unfoldable pub auto_parallelize : List (Node F S R) → Result (List (Node F S R))
  unfolding auto_parallelize_from
  auto_parallelize nodes = auto_parallelize_from zero nodes
