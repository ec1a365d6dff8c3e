-- ===== src/Pipeline/Explain.antt =====
-- api/pipeline.py, `Pipeline`: the text of `explain`, with `_route_items` and `_describe`.
--
-- The order of strings, `repr` of a list of strings, and `repr` of what is no stage are parameters.
use Prim.Native.String.{◌++◌ as str_append}
use fluxio.Prelude.{String, List, [], ◌∷◌, ◌++◌, map, Option, none, some, Bool, length}
use fluxio.Prelude.Decimal.{decimal}
use fluxio.Prelude.Dict.{Dict}
use fluxio.Stage.{NodeType, sync, async, stream, ForkMode, parallel_mode, fire_forget, Stage}
use fluxio.Compiler.Grouping.{Node, stage_node, parallel_node, dict_node}
use fluxio.Compiler.Build.{RouteBody, nested, listed, single, Nodes}
use fluxio.Runtime.Executor.{or_async}
use fluxio.Pipeline.Diff.{sorted}

-- `sep.join(parts)`
unfoldable pub join_with : String → List String → String
join_with sep [] = ""
join_with sep (p ∷ []) = p
join_with sep (p ∷ q ∷ parts) = str_append p (str_append sep (join_with sep (q ∷ parts)))

-- The values of the enums.
abbrev pub type_value : NodeType → String
type_value sync = "sync"
type_value async = "async"
type_value stream = "stream"

abbrev pub mode_value : ForkMode → String
mode_value parallel_mode = "parallel"
mode_value fire_forget = "fire_forget"

module _ (before : String → String → Bool) (repr_list : List String → String) where
  -- `if reads: parts.append(f"reads={sorted(reads)}")`
  unfoldable pub set_part : String → Option (List String) → List String
  unfolding sorted
  set_part label none = []
  set_part label (some []) = []
  set_part label (some (x ∷ xs)) =
      str_append label (str_append "=" (repr_list (sorted before (x ∷ xs)))) ∷ []

  unfoldable pub described :
      String → Option NodeType → Option (List String) → Option (List String) → String
  unfolding join_with set_part
  described name node_type reads writes = join_with " " (
      str_append name (str_append " (" (str_append (type_value (or_async node_type)) ")"))
        ∷ set_part "reads" reads
      ++ set_part "writes" writes)

  module _ {F S : Type 0} where
    -- `_describe` of a stage
    unfoldable pub describe : Stage F S → String
    unfolding described
    describe fn =
        described (elim fn.func_name [ none ↦ fn.repr | some name ↦ name ]) fn.node_type fn.reads
          fn.writes

    -- `_route_items`
    unfoldable pub route_items : RouteBody F S → List (Node F S (Unit {0}))
    route_items (nested nodes) = nodes
    route_items (listed nodes) = nodes
    route_items (single node) = node ∷ []

    module _ (repr_node : Node F S (Unit {0}) → String) where
      -- `_describe` of what stands in a route; only a stage has the attributes.
      unfoldable pub describe_sub : Node F S (Unit {0}) → String
      unfolding describe described
      describe_sub (stage_node fn) = describe fn
      describe_sub node = described (repr_node node) none none none

      abbrev route_lines : String × RouteBody F S → List String
      route_lines (name, body) =
          str_append "     ├─ " (str_append name ":")
          ∷ map (λ sub. str_append "     │   → " (describe_sub sub)) (route_items body)

      abbrev all_route_lines : Dict (RouteBody F S) → List String
      all_route_lines [] = []
      all_route_lines (entry ∷ routes) = route_lines entry ++ all_route_lines routes

      unfoldable pub node_lines : Node F S (Dict (RouteBody F S)) → List String
      unfolding describe describe_sub route_items
      node_lines (parallel_node block) =
          str_append "  ⇉ parallel (" (str_append (mode_value block.mode) ")")
          ∷ map (λ br. str_append "     └─ " (describe br)) block.branches
      node_lines (dict_node routes) = "  ⌥ routes:" ∷ all_route_lines routes
      node_lines (stage_node fn) = str_append "  → " (describe fn) ∷ []

      abbrev all_lines : Nodes F S → List String
      all_lines [] = []
      all_lines (n ∷ ns) = node_lines n ++ all_lines ns

      -- `explain`
      unfoldable pub explain : String → Nodes F S → String
      unfolding join_with node_lines decimal
      explain version nodes = join_with "\n" (
          str_append "Pipeline [version=" (
            str_append version
              (str_append ", " (str_append (decimal (length nodes)) " top-level nodes]")))
          ∷ all_lines nodes)
