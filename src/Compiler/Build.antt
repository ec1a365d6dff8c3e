-- ===== src/Compiler/Build.antt =====
-- compiler/compiler.py, `Compiler.compile`: the code for stages, `Parallel` blocks and routers, and
-- the tables that go with it.
use fluxio.Prelude.{
  String, List, [], ◌∷◌, ◌++◌, Option, none, some, Bool, true, false, if◌then◌else◌, intersection,
}
use fluxio.Prelude.Dict.{Dict, insert, member}
use fluxio.Errors.{Result, ok, err, ◌>>=◌, compilation_error, not_a_stage, write_conflict}
use fluxio.Stage.{Stage, Parallel, ForkMode, parallel_mode, fire_forget}
use fluxio.Bytecode.{
  OpCode, call, fork, join, validate_input, validate_output, emit, checkpoint, EventType,
  step_start, step_end, branch, Instruction, bare,
}
use fluxio.Compiler.Naming.{node_id}
use fluxio.Compiler.Grouping.{Node, truthy, auto_parallelize}

-- The local variables of `compile`, which its helpers share and extend.
pub record Build (F S : Type 0) : Type 0 where
  pub instructions : List Instruction
  pub symbol_table : Dict (Stage F S)
  pub writes_map : Dict (List String)
  pub reads_map : Dict (List String)
  pub input_schemas : Dict S
  pub output_schemas : Dict S

-- A route's body: a nested pipeline (its `_nodes`), a list, or one node.
pub data RouteBody (F S : Type 0) : Type 0 where
  nested : List (Node F S Unit) → RouteBody F S
  listed : List (Node F S Unit) → RouteBody F S
  single : Node F S Unit → RouteBody F S

abbrev pub Nodes : Type 0 → Type 0 → Type 0
Nodes F S = List (Node F S (Dict (RouteBody F S)))

-- `if s: d[k] = s` for a set, and for a schema
unfoldable pub put_set : String → Option (List String) → Dict (List String) → Dict (List String)
unfolding insert
put_set k none d = d
put_set k (some []) d = d
put_set k (some (x ∷ xs)) d = insert k (x ∷ xs) d

unfoldable pub put_schema {ℓ} : {S : Type ℓ} → String → Option S → Dict S → Dict S
unfolding insert
put_schema k none d = d
put_schema k (some s) d = insert k s d

abbrev pub event : EventType → Instruction
event e = record (bare emit) { event_type = some e }

abbrev pub on_node : OpCode → String → Instruction
on_node op id = record (bare op) { node_id = some id }

abbrev pub step_event : EventType → String → Instruction
step_event e id = record (bare emit) { event_type = some e; node_id = some id }

abbrev pub is_parallel_mode : ForkMode → Bool
is_parallel_mode parallel_mode = true
is_parallel_mode fire_forget = false

unfoldable pub check_against : String → List String → Dict (List String) → Result (Unit {0})
unfolding intersection truthy
check_against a_id a_w [] = ok tt
check_against a_id a_w ((b_id, b_w) ∷ items) =
    let rest = check_against a_id a_w items in
    if truthy (some (intersection a_w b_w))
    then err (compilation_error (write_conflict a_id b_id (intersection a_w b_w)))
    else rest

unfoldable pub check_write_conflicts : Dict (List String) → Result (Unit {0})
unfolding check_against
check_write_conflicts [] = ok tt
check_write_conflicts ((a_id, a_w) ∷ items) = do
  checked ← check_against a_id a_w items
  check_write_conflicts items

module _ {F S : Type 0} where
  -- `instructions.append(i)`
  unfoldable pub append : Instruction → Build F S → Build F S
  append i b = record b { instructions = b.instructions ++ i ∷ [] }

  unfoldable pub append_if : Bool → Instruction → Build F S → Build F S
  unfolding append
  append_if true i b = append i b
  append_if false i b = b

  unfoldable pub register : String → Stage F S → Build F S → Result (Build F S)
  unfolding put_set put_schema insert
  register id fn b = elim fn.node_type [
    | none ↦ err (compilation_error not_a_stage)
    | some t ↦ ok (record b {
      symbol_table = insert id fn b.symbol_table;
      writes_map = put_set id fn.writes b.writes_map;
      reads_map = put_set id fn.reads b.reads_map;
      input_schemas = put_schema id fn.input_schema b.input_schemas;
      output_schemas = put_schema id fn.output_schema b.output_schemas;
    })
  ]

  unfoldable pub stage_code : String → Build F S → Build F S
  unfolding append append_if member
  stage_code id b = append (step_event step_end id) (
      append_if (member id b.output_schemas) (on_node validate_output id) (
        append (on_node call id) (
          append_if (member id b.input_schemas) (on_node validate_input id)
            (append (step_event step_start id) (append (on_node checkpoint id) b)))))

  unfoldable pub compile_stage : Stage F S → Build F S → Result (Build F S)
  unfolding register stage_code node_id
  compile_stage fn b = do
    registered ← register (node_id fn b.symbol_table) fn b
    ok (stage_code (node_id fn b.symbol_table) registered)

  -- The loop over the branches, with `branch_ids` and `declared_writes`.
  unfoldable pub register_branches :
      List (Stage F S)
      → Build F S
      → List String
      → Dict (List String)
      → Result (Build F S × List String × Dict (List String))
  unfolding register node_id put_set
  register_branches [] b ids declared = ok (b, ids, declared)
  register_branches (fn ∷ rest) b ids declared = do
    registered ← register (node_id fn b.symbol_table) fn b
    register_branches rest registered (ids ++ node_id fn b.symbol_table ∷ [])
        (put_set (node_id fn b.symbol_table) fn.writes declared)

  unfoldable pub parallel_code : List String → ForkMode → Build F S → Build F S
  unfolding append append_if
  parallel_code ids mode b = append_if (is_parallel_mode mode) (bare join) (
      append (record (bare fork) { branch_ids = some ids; mode = some mode })
        (append (record (event branch) { branch_ids = some ids }) b))

  unfoldable pub compile_parallel : Parallel F S → Build F S → Result (Build F S)
  unfolding register_branches check_write_conflicts parallel_code
  compile_parallel block b = do
    (registered, ids, declared) ← register_branches block.branches b [] []
    checked ← check_write_conflicts declared
    ok (parallel_code ids block.mode registered)

  unfoldable pub unwrap_route_body : RouteBody F S → List (Node F S Unit)
  unwrap_route_body (nested nodes) = nodes
  unwrap_route_body (listed nodes) = nodes
  unwrap_route_body (single node) = node ∷ []

  unfoldable pub normalize : {R : Type 0} → Bool → List (Node F S R) → Result (List (Node F S R))
  normalize auto_parallel nodes = if auto_parallel then auto_parallelize nodes else ok nodes
