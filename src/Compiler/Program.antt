-- ===== src/Compiler/Program.antt =====
-- compiler/compiler.py, `_compile_router_block` and `compile`: the code for routers, and whole
-- pipelines.
use fluxio.Prelude.{ℕ, String, List, [], ◌∷◌, ◌++◌, some, Bool, length, set}
use fluxio.Prelude.Dict.{Dict, insert}
use fluxio.Prelude.Int.{pos, negsuc}
use fluxio.Errors.{
  Result, ok, err, ◌>>=◌, compilation_error, misplaced_route_dict, empty_route, not_a_stage,
}
use fluxio.Stage.{Stage}
use fluxio.Bytecode.{route, jump, pipeline_start, pipeline_end, Instruction, bare, CompiledPipeline}
use fluxio.Compiler.Grouping.{Node, stage_node, parallel_node, dict_node}
use fluxio.Compiler.Build.{
  Build, RouteBody, Nodes, event, append, compile_stage, compile_parallel, unwrap_route_body,
  normalize,
}

abbrev pub jump_to_nowhere : Instruction
jump_to_nowhere = record (bare jump) { target_ip = some (negsuc 0) }

abbrev pub route_with : Dict ℕ → Instruction
route_with ips = record (bare route) { route_map = some ips }

abbrev pub jump_to : ℕ → Instruction
jump_to ip = record (bare jump) { target_ip = some (pos ip) }

module _ {F S : Type 0} where
  -- A dict in a route body goes to `_compile_stage`, where `_register` refuses it.
  unfoldable pub compile_sub : Node F S Unit → Build F S → Result (Build F S)
  unfolding compile_parallel compile_stage
  compile_sub (parallel_node p) b = compile_parallel p b
  compile_sub (stage_node s) b = compile_stage s b
  compile_sub (dict_node r) b = err (compilation_error not_a_stage)

  unfoldable pub compile_subs : List (Node F S Unit) → Build F S → Result (Build F S)
  unfolding compile_sub
  compile_subs [] b = ok b
  compile_subs (n ∷ ns) b = do b' ← compile_sub n b; compile_subs ns b'

  -- The body of one route, without its jump.
  unfoldable pub compile_body : Bool → String → RouteBody F S → Build F S → Result (Build F S)
  unfolding unwrap_route_body normalize compile_subs
  compile_body auto_parallel route_name body b = elim (unwrap_route_body body) [
    | [] ↦ err (compilation_error (empty_route route_name))
    | n ∷ ns ↦ do nodes ← normalize auto_parallel (n ∷ ns); compile_subs nodes b
  ]

  -- The loop over the routes, with `route_map_ips` and `jump_positions`.
  unfoldable pub compile_routes :
      Bool
      → Dict (RouteBody F S)
      → Build F S
      → Dict ℕ
      → List ℕ
      → Result (Build F S × Dict ℕ × List ℕ)
  unfolding compile_body append insert
  compile_routes auto_parallel [] b ips jumps = ok (b, ips, jumps)
  compile_routes auto_parallel ((route_name, body) ∷ rest) b ips jumps = do
    b' ← compile_body auto_parallel route_name body b
    compile_routes auto_parallel rest (append jump_to_nowhere b')
        (insert route_name (length b.instructions) ips) (jumps ++ length b'.instructions ∷ [])

  -- `instructions[p] = i`
  unfoldable pub patch : ℕ → Instruction → Build F S → Build F S
  patch p i b = record b { instructions = set b.instructions p i }

  unfoldable pub patch_jumps : List ℕ → ℕ → Build F S → Build F S
  unfolding patch
  patch_jumps [] continuation b = b
  patch_jumps (p ∷ ps) continuation b =
      patch_jumps ps continuation (patch p (jump_to continuation) b)

  unfoldable pub compile_router_block :
      Bool → Stage F S → Dict (RouteBody F S) → Build F S → Result (Build F S)
  unfolding compile_stage compile_routes append patch patch_jumps
  compile_router_block auto_parallel router routes b = do
    called ← compile_stage router b
    let placeholder = length called.instructions
    (bodies, ips, jumps) ← compile_routes auto_parallel routes (append (route_with []) called) [] []
    let continuation = length bodies.instructions
    ok (patch_jumps jumps continuation (patch placeholder (route_with ips) bodies))

  -- The `while` loop of `compile`.
  unfoldable pub compile_nodes : Bool → Nodes F S → Build F S → Result (Build F S)
  unfolding compile_parallel compile_router_block compile_stage
  compile_nodes auto_parallel [] b = ok b
  compile_nodes auto_parallel (parallel_node p ∷ rest) b = do
    b' ← compile_parallel p b
    compile_nodes auto_parallel rest b'
  compile_nodes auto_parallel (dict_node r ∷ rest) b = err (compilation_error misplaced_route_dict)
  compile_nodes auto_parallel (stage_node s ∷ dict_node r ∷ rest) b = do
    b' ← compile_router_block auto_parallel s r b
    compile_nodes auto_parallel rest b'
  compile_nodes auto_parallel (stage_node s ∷ rest) b = do
    b' ← compile_stage s b
    compile_nodes auto_parallel rest b'

  abbrev pub no_code : Build F S
  no_code = record {
    instructions = [];
    symbol_table = [];
    writes_map = [];
    reads_map = [];
    input_schemas = [];
    output_schemas = [];
  }

  -- `version` stands for the digest of the instructions' text.
  unfoldable pub compile :
      (List Instruction → String) → Bool → Nodes F S → Result (CompiledPipeline F S)
  unfolding normalize compile_nodes append
  compile version auto_parallel nodes = do
    normalized ← normalize auto_parallel nodes
    b ← compile_nodes auto_parallel normalized (append (event pipeline_start) no_code)
    let code = b.instructions ++ event pipeline_end ∷ []
    ok (record {
      instructions = code;
      symbol_table = b.symbol_table;
      writes_map = b.writes_map;
      reads_map = b.reads_map;
      input_schemas = b.input_schemas;
      output_schemas = b.output_schemas;
      version = version code;
    })
