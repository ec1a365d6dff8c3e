-- ===== src/Meaning/Objects.antt =====
-- Pipelines whose stages are objects: two stages with the same identity are the same stage.
use fluxio.Prelude.{ℕ, String, List, [], ◌∷◌, Bool, ◌≡◌, All}
use fluxio.Prelude.Dict.{Dict}
use fluxio.Stage.{Stage}
use fluxio.Compiler.Grouping.{Node, stage_node, parallel_node, dict_node}
use fluxio.Compiler.Build.{RouteBody, Nodes, unwrap_route_body}
use fluxio.Meaning.{grouped}

module _ {F S : Type 0} (object : ℕ → Stage F S) where
  abbrev pub AllOwn : List (Stage F S) → Type 0
  AllOwn = All (λ fn. object fn.ident ≡ fn)

  abbrev pub SubOwn : Node F S (Unit {0}) → Type 0
  SubOwn (stage_node fn) = object fn.ident ≡ fn
  SubOwn (parallel_node block) = AllOwn block.branches
  SubOwn (dict_node r) = Unit

  abbrev pub BodyOwn : Bool → RouteBody F S → Type 0
  BodyOwn auto body = All SubOwn (grouped auto (unwrap_route_body body))

  abbrev pub RoutesOwn : Bool → Dict (RouteBody F S) → Type 0
  RoutesOwn auto routes = All (λ (e : String × RouteBody F S). BodyOwn auto e.1) routes

  abbrev pub IsRouting : Dict (RouteBody F S) → Type 0
  IsRouting [] = ⊥
  IsRouting (e ∷ routes) = Unit

  -- A stage is the object of its identity, and a router has at least one route.
  abbrev pub NodeOwn : Bool → Node F S (Dict (RouteBody F S)) → Type 0
  NodeOwn auto (stage_node fn) = object fn.ident ≡ fn
  NodeOwn auto (parallel_node block) = AllOwn block.branches
  NodeOwn auto (dict_node routes) = IsRouting routes × RoutesOwn auto routes

  -- The nodes, after auto-parallelism.
  abbrev pub NodesOwn : Bool → Nodes F S → Type 0
  NodesOwn auto nodes = All (NodeOwn auto) (grouped auto nodes)
