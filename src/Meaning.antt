-- ===== src/Meaning.antt =====
-- What a pipeline means, without instructions: the stages run one after the other, a block runs its
-- branches and merges them, and a router's message picks the route to run.
--
-- It is the reference that compiled code is compared with. Names are given to stages as the
-- compiler gives them; the table in the arguments holds the names that are taken.
pub mod Machine
pub mod Instructions
pub mod Forks
pub mod Objects
pub mod Tables
pub mod Parts
pub mod Stages
pub mod Blocks
pub mod Pairs
pub mod Patches
pub mod Routes
pub mod Routers
pub mod RouterBlocks
pub mod Program
use fluxio.Prelude.{
  ℕ, String, List, [], ◌∷◌, map, Option, none, some, Bool, true, false, ◌==◌, if◌then◌else◌,
}
use fluxio.Prelude.Dict.{Dict, insert}
use fluxio.Errors.{Result, ok, err, ◌>>=◌ as and_result, fluxio_error, validation_error}
use fluxio.Context.{Context, update, fork, merge, snapshot}
use fluxio.Stage.{Stage, Parallel, ForkMode, parallel_mode, fire_forget}
use fluxio.Compiler.Naming.{node_id}
use fluxio.Compiler.Grouping.{Node, stage_node, parallel_node, dict_node}
use fluxio.Compiler.Build.{RouteBody, Nodes, unwrap_route_body, normalize}
use fluxio.Runtime.Act.{Act, pure, raise, lift, ◌>>=◌}
use fluxio.Runtime.Types.{Outcome, context, send, Body, Schema, StageFunc, Session}
use fluxio.Runtime.Executor.{run_parallel}
use fluxio.Runtime.Interpreter.{call_stage, no_send}

-- Between two nodes: the context, and the route that the last message asked for.
pub record Place (M : Type 0) : Type 0 where
  pub ctx : Context M
  pub pending : Option String

module _ {F S : Type 0} where
  abbrev pub after_stage : Stage F S → Dict (Stage F S) → Dict (Stage F S)
  after_stage fn table = insert (node_id fn table) fn table

  abbrev pub name_branches : List (Stage F S) → Dict (Stage F S) → List (String × Stage F S)
  name_branches [] table = []
  name_branches (fn ∷ fns) table = (node_id fn table, fn) ∷ name_branches fns (after_stage fn table)

  abbrev pub after_branches : List (Stage F S) → Dict (Stage F S) → Dict (Stage F S)
  after_branches [] table = table
  after_branches (fn ∷ fns) table = after_branches fns (after_stage fn table)

  abbrev pub after_sub : Node F S (Unit {0}) → Dict (Stage F S) → Dict (Stage F S)
  after_sub (stage_node fn) table = after_stage fn table
  after_sub (parallel_node block) table = after_branches block.branches table
  after_sub (dict_node r) table = table

  abbrev pub after_subs : List (Node F S (Unit {0})) → Dict (Stage F S) → Dict (Stage F S)
  after_subs [] table = table
  after_subs (n ∷ ns) table = after_subs ns (after_sub n table)

  -- The nodes after auto-parallelism, where that does not raise.
  abbrev pub grouped : {R : Type 0} → Bool → List (Node F S R) → List (Node F S R)
  grouped auto nodes = elim (normalize auto nodes) [ ok out ↦ out | err e ↦ [] ]

  abbrev pub after_body : Bool → RouteBody F S → Dict (Stage F S) → Dict (Stage F S)
  after_body auto body table = after_subs (grouped auto (unwrap_route_body body)) table

  abbrev pub after_routes : Bool → Dict (RouteBody F S) → Dict (Stage F S) → Dict (Stage F S)
  after_routes auto [] table = table
  after_routes auto ((name, body) ∷ rest) table =
      after_routes auto rest (after_body auto body table)

module _ {M V W : Type 0} (s : Session M V W) where
  abbrev Table : Type 0
  Table = Dict (StageFunc M V W)

  unfoldable pub check : String → Option (Schema V) → Context M → Result (Unit {0})
  check id none ctx = ok tt
  check id (some schema) ctx =
      if schema (snapshot s.pmap ctx) then ok tt else err (validation_error id)

  unfoldable pub settled_by : Place M → Outcome M V → Place M
  settled_by p (context c) = record p { ctx = c }
  settled_by p (send r) = record { ctx = update s.pmap p.ctx r.patch; pending = some r.route }

  unfoldable pub check_output : String → StageFunc M V W → Place M → Act W (Place M)
  check_output id fn p = lift (check id fn.output_schema p.ctx) >>= λ valid. pure p

  unfoldable pub stage_meaning : String → StageFunc M V W → Place M → Act W (Place M)
  unfolding check_output
  stage_meaning id fn p = do
    valid ← lift (check id fn.input_schema p.ctx)
    outcome ← call_stage s id fn p.ctx
    check_output id fn (settled_by p outcome)

  unfoldable pub branch_meaning : StageFunc M V W → Context M → String → Act W (Context M)
  branch_meaning fn c id = do
    valid ← lift (check id fn.input_schema c)
    outcome ← call_stage s id fn c
    result ← lift (no_send outcome)
    valid ← lift (check id fn.output_schema result)
    pure result

  unfoldable pub joined : ForkMode → Place M → List (Context M) → Result (Place M)
  joined parallel_mode p results = elim (merge s.pmap p.ctx results) [
    | ok c ↦ ok (record p { ctx = c })
    | err e ↦ err e
  ]
  joined fire_forget p results = ok p

  abbrev pub forked :
      Context M → List (String × StageFunc M V W) → List (String × StageFunc M V W × Context M)
  forked ctx named = map (λ (e : String × StageFunc M V W). (e.0, e.1, fork s.pmap ctx e.0)) named

  unfoldable pub parallel_meaning :
      List (String × StageFunc M V W) → ForkMode → Place M → Act W (Place M)
  unfolding branch_meaning joined
  parallel_meaning named mode p = do
    results ← run_parallel (forked p.ctx named) mode branch_meaning
    lift (joined mode p results)

  unfoldable pub sub_meaning :
      Node (Body M V W) (Schema V) (Unit {0}) → Table → Place M → Act W (Place M)
  unfolding stage_meaning parallel_meaning
  sub_meaning (stage_node fn) table p = stage_meaning (node_id fn table) fn p
  sub_meaning (parallel_node block) table p =
      parallel_meaning (name_branches block.branches table) block.mode p
  sub_meaning (dict_node r) table p = pure p

  unfoldable pub subs_meaning :
      List (Node (Body M V W) (Schema V) (Unit {0})) → Table → Place M → Act W (Place M)
  unfolding sub_meaning
  subs_meaning [] table p = pure p
  subs_meaning (n ∷ ns) table p = sub_meaning n table p >>= subs_meaning ns (after_sub n table)

  unfoldable pub body_meaning :
      Bool → RouteBody (Body M V W) (Schema V) → Table → Place M → Act W (Place M)
  unfolding subs_meaning
  body_meaning auto body table p = subs_meaning (grouped auto (unwrap_route_body body)) table p

  -- The route of a name. A dict has a name only once; the last one would count.
  unfoldable pub chosen :
      Bool
      → String
      → Dict (RouteBody (Body M V W) (Schema V))
      → Table
      → Option (Place M → Act W (Place M))
      → Option (Place M → Act W (Place M))
  unfolding body_meaning
  chosen auto name [] table best = best
  chosen auto name ((r, body) ∷ rest) table best =
      chosen auto name rest (after_body auto body table)
        (if r == name then some (body_meaning auto body table) else best)

  unfoldable pub follow : Option (Place M → Act W (Place M)) → Place M → Act W (Place M)
  follow none p = raise fluxio_error
  follow (some m) p = m (record p { pending = none })

  unfoldable pub routes_meaning :
      Bool → Dict (RouteBody (Body M V W) (Schema V)) → Table → Place M → Act W (Place M)
  unfolding chosen follow
  routes_meaning auto routes table p = elim p.pending [
    | none ↦ raise fluxio_error
    | some name ↦ follow (chosen auto name routes table none) p
  ]

  -- A dict that follows no stage is refused by the compiler, and means nothing.
  unfoldable pub nodes_meaning :
      Bool → Nodes (Body M V W) (Schema V) → Table → Place M → Act W (Place M)
  unfolding routes_meaning stage_meaning parallel_meaning
  nodes_meaning auto [] table p = pure p
  nodes_meaning auto (parallel_node block ∷ rest) table p =
      parallel_meaning (name_branches block.branches table) block.mode p
      >>= nodes_meaning auto rest (after_branches block.branches table)
  nodes_meaning auto (dict_node r ∷ rest) table p = pure p
  nodes_meaning auto (stage_node fn ∷ dict_node routes ∷ rest) table p =
      (stage_meaning (node_id fn table) fn p >>= routes_meaning auto routes (after_stage fn table))
      >>= nodes_meaning auto rest (after_routes auto routes (after_stage fn table))
  nodes_meaning auto (stage_node fn ∷ rest) table p =
      stage_meaning (node_id fn table) fn p >>= nodes_meaning auto rest (after_stage fn table)

  unfoldable pub context_of : Place M → Act W (Context M)
  context_of p = pure p.ctx

  unfoldable pub pipeline_meaning :
      Bool → Nodes (Body M V W) (Schema V) → Context M → Act W (Context M)
  unfolding nodes_meaning context_of
  pipeline_meaning auto nodes ctx =
      nodes_meaning auto (grouped auto nodes) [] (record { ctx = ctx; pending = none })
      >>= context_of
