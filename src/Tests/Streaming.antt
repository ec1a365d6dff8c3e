-- ===== src/Tests/Streaming.antt =====
-- A pipeline whose stage yields two chunks, as a stream.
use fluxio.Prelude.{contains, ℕ, String, List, [], ◌∷◌, none, some, true, false, ◌≡◌, refl, length}
use fluxio.Prelude.Dict.{Dict}
use fluxio.Errors.{ok, is_ok, ok_of_is_ok}
use fluxio.Context.{Context}
use fluxio.Stage.{async, stream, async_generator, Callable, Declared, stage, decorate, marked}
use fluxio.Bytecode.{CompiledPipeline}
use fluxio.Compiler.Grouping.{stage_node, auto_parallelize}
use fluxio.Compiler.Build.{Nodes}
use fluxio.Compiler.Program.{compile}
use fluxio.Runtime.Cell.{Cell}
use fluxio.Runtime.Types.{generator, Schema, StageFunc, Stream, Session}
use fluxio.Runtime.Executor.{execute, run_stream}
use fluxio.Runtime.Typed.{kind_of, execute-stage}
use fluxio.Pipeline.{or_new, invoke, as_dict}
use fluxio.Pipeline.Lock.{Released, invoke-Released}
use fluxio.Tests.Fixtures.{TestBody, plain_stage, values, an_empty_context}
use fluxio.Tests.Compiling.{no_version}

-- The runs that are active, and what stands in the queue.
abbrev Desk : Type 0
Desk = List String × List ℕ

abbrev active : Cell (List String) Desk
active = record { read = λ w. w.0; write = λ r w. (r, w.1); read-write = λ r w. refl }

abbrev queued : Cell (List ℕ) Desk
queued = record { read = λ w. w.1; write = λ q w. (w.0, q); read-write = λ q w. refl }

abbrev counting : Context (Dict ℕ) → Desk → Stream ℕ × Desk
counting c w = (record { chunks = 1 ∷ 2 ∷ []; ending = none }, w)

abbrev counter : StageFunc (Dict ℕ) ℕ Desk
counter = record (plain_stage 1 "count" none none) {
  node_type = some stream;
  body = generator counting;
}

abbrev counter_nodes : Nodes (TestBody Desk) (Schema ℕ)
counter_nodes = stage_node counter ∷ []

counter_compiles : is_ok (compile no_version true counter_nodes) ≡ true
unfolding compile auto_parallelize
counter_compiles = refl

abbrev counter_code :
    (c : CompiledPipeline (TestBody Desk) (Schema ℕ)) × (compile no_version true counter_nodes
      ≡ ok c)
counter_code = ok_of_is_ok (compile no_version true counter_nodes) counter_compiles

abbrev counting_session : Session (Dict ℕ) ℕ Desk
counting_session = record {
  pmap = values;
  services = record {
    monotonic = λ w. 0;
    time = λ w. 0;
    with_timeout = λ limit m. m;
    of_list = length;
  };
  middlewares = [];
  compiled = counter_code.0;
  run_id = "";
  callbacks = [];
  store = none;
  durable = false;
}

-- The same function before it is decorated, with the default node type.
abbrev count_func : Callable (TestBody Desk)
count_func = record {
  ident = 1;
  func_name = some "count";
  repr = "<function>";
  qualname = some "count";
  kind = async_generator;
  body = generator counting;
}

abbrev no_options : Declared (Schema ℕ)
no_options = record {
  node_type = async;
  reads = none;
  writes = none;
  input_schema = none;
  output_schema = none;
  timeout = none;
}

counter_decorated : stage no_options count_func ≡ ok counter
unfolding stage decorate marked
counter_decorated = refl

count_kind : count_func.kind ≡ kind_of count_func.body
count_kind = refl

execute-stage_example :
    execute values counting_session.services "count" counter an_empty_context none
    ≡ run_stream values counting_session.services "count" counting an_empty_context none
execute-stage_example =
    execute-stage values counting_session.services "count" an_empty_context none no_options
      count_func counter counter_decorated count_kind

abbrev durable_counting : Session (Dict ℕ) ℕ Desk
durable_counting = record counting_session { durable = true }

nobody_runs : contains (or_new (some "a") "new") ("other" ∷ []) ≡ false
unfolding contains or_new
nobody_runs = refl

invoke-Released_example :
    Released active
      (or_new (some "a") "new")
      (invoke durable_counting active (as_dict []) (some "a") "new" false ("other" ∷ [], []))
invoke-Released_example =
    invoke-Released durable_counting active no_version true counter_nodes counter_code.1 refl
      (as_dict []) "a" "new" false ("other" ∷ [], []) nobody_runs λ resumed. absurd (cc resumed)
