-- ===== src/Tests/Operations.antt =====
-- Replay, comparison and single steps of a pipeline, and a Redis server that is a function.
use fluxio.Prelude.{
  contains, ℕ, String, List, [], ◌∷◌, Option, none, some, Bool, true, false, not, ◌≡◌, refl, ◌==◌,
  eqb, if◌then◌else◌, contains,
}
use fluxio.Prelude.Dict.{Dict, lookup}
use fluxio.Prelude.Int.{pos}
use fluxio.Errors.{Result, ok}
use fluxio.Context.{Context, get}
use fluxio.Stage.{stream}
use fluxio.Bytecode.{CompiledPipeline, call, step_start}
use fluxio.Compiler.Build.{step_event, on_node}
use fluxio.Runtime.Cell.{Cell}
use fluxio.Runtime.Types.{Checkpoint, StageFunc, Session, Body, Schema, Stream, generator}
use fluxio.Runtime.Loop.{loop, frame_at}
use fluxio.Store.{memory_store, load}
use fluxio.Store.Redis.{
  RedisStore, IsServed, Change, saving, deleting, redis_load, redis_exists, perform_all, latest,
  redis_load-perform_all,
}
use fluxio.Pipeline.{as_dict, find_from, release, enough_fuel}
use fluxio.Pipeline.Operations.{run_step, resuming, replay}
use fluxio.Pipeline.Replay.{rewound, replay-resumes}
use fluxio.Pipeline.Diff.{diff, change, diff_lem}
use fluxio.Testing.Harness.{
  harness_run, harness_run_stream, run_step-harness_run, harness_run_stream-chunks,
}
use fluxio.Tests.Fixtures.{values, whole_world, plain_stage}

abbrev a_checkpoint : String → ℕ → Checkpoint ℕ
a_checkpoint run_id price = record {
  run_id = run_id;
  pipeline_version = "v1";
  ip = pos 1;
  ctx_snapshot = ("price", price) ∷ [];
  created_at = 0;
  meta = [];
}

abbrev checkpoints : Dict (Checkpoint ℕ)
checkpoints = ("a", a_checkpoint "a" 3) ∷ ("b", a_checkpoint "b" 4) ∷ []

abbrev differ : ℕ → ℕ → Bool
differ x y = not (eqb x y)

abbrev any_order : String → String → Bool
any_order j k = true

diff_lem_example :
    (changes : Dict (ℕ × ℕ)) × (diff differ 0 any_order
        (some (memory_store (whole_world (Dict (Checkpoint ℕ)))))
        "a"
        "b"
        checkpoints
      ≡ (ok changes, checkpoints))
    × ((k : String)
        → lookup k changes ≡ change differ 0 any_order (("price", 3) ∷ []) (("price", 4) ∷ []) k)
unfolding load lookup
diff_lem_example =
    diff_lem differ 0 any_order (memory_store (whole_world (Dict (Checkpoint ℕ)))) "a" "b"
      (a_checkpoint "a" 3) (a_checkpoint "b" 4) checkpoints checkpoints checkpoints refl refl refl

-- The run ids in use, and the checkpoints.
abbrev World : Type 0
World = List String × Dict (Checkpoint ℕ)

abbrev active : Cell (List String) World
active = record { read = λ w. w.0; write = λ runs w. (runs, w.1); read-write = λ runs w. refl }

abbrev data_cell : Cell (Dict (Checkpoint ℕ)) World
data_cell = record { read = λ w. w.1; write = λ d w. (w.0, d); read-write = λ d w. refl }

abbrev fetch : {W : Type 0} → StageFunc (Dict ℕ) ℕ W
fetch = plain_stage 1 "fetch" none none

abbrev one_step : {W : Type 0} → CompiledPipeline (Body (Dict ℕ) ℕ W) (Schema ℕ)
one_step = record {
  instructions = step_event step_start "fetch" ∷ on_node call "fetch" ∷ [];
  symbol_table = ("fetch", fetch) ∷ [];
  writes_map = [];
  reads_map = [];
  input_schemas = [];
  output_schemas = [];
  version = "v2";
}

abbrev kept_session : Session (Dict ℕ) ℕ World
kept_session = record {
  pmap = values;
  services = record {
    monotonic = λ w. 0;
    time = λ w. 0;
    with_timeout = λ limit m. m;
    of_list = λ chunks. 0;
  };
  middlewares = [];
  compiled = one_step;
  run_id = "";
  callbacks = [];
  store = some (memory_store data_cell);
  durable = true;
}

nobody_runs : contains "a" [] ≡ false
unfolding contains
nobody_runs = refl

a_is_kept : lookup "a" checkpoints ≡ some (a_checkpoint "a" 3)
unfolding lookup
a_is_kept = refl

fetch_is_first : find_from "fetch" 0 (kept_session.compiled).instructions ≡ ok 0
unfolding find_from
fetch_is_first = refl

replay-resumes_example :
    (w' : World) × (ctx : Context (Dict ℕ)) × (replay kept_session active "a"
        (some "fetch")
        ([], checkpoints)
      ≡ release active "a" (
          loop
            (resuming kept_session active "a")
            (enough_fuel kept_session active)
            0
            (frame_at (resuming kept_session active "a") (pos 0) ctx)
            w'))
    × ((k : String) → get values ctx k ≡ lookup k (("price", 3) ∷ []))
    × (ctx.written ≡ [])
    × (lookup "a" (w'.1) ≡ some (rewound kept_session active data_cell "a" 0 (a_checkpoint "a" 3)))
    × ((r : Result (Context (Dict ℕ))) (after : World)
        → replay kept_session active "a" (some "fetch") ([], checkpoints) ≡ some (r, after)
        → contains "a" (active.read after) ≡ false)
replay-resumes_example =
    replay-resumes kept_session active data_cell "a" "fetch" (a_checkpoint "a" 3) 0
      ([], checkpoints) refl (λ runs w. refl) nobody_runs a_is_kept fetch_is_first

fetch_is_known : lookup "fetch" (kept_session.compiled).symbol_table ≡ some fetch
unfolding lookup
fetch_is_known = refl

run_step-harness_run_example :
    run_step kept_session active "fetch" (as_dict []) ≡ harness_run kept_session fetch (as_dict [])
run_step-harness_run_example =
    run_step-harness_run kept_session fetch active "fetch" (as_dict []) fetch_is_known refl

-- A world that is the list of chunks alone.
abbrev ticks : Context (Dict ℕ) → List ℕ → Stream ℕ × List ℕ
ticks c w = (record { chunks = 1 ∷ 2 ∷ []; ending = none }, w)

abbrev ticking : StageFunc (Dict ℕ) ℕ (List ℕ)
ticking = record fetch { node_type = some stream; body = generator ticks }

abbrev harness_session : Session (Dict ℕ) ℕ (List ℕ)
harness_session = record {
  pmap = values;
  services = record {
    monotonic = λ w. 0;
    time = λ w. 0;
    with_timeout = λ limit m. m;
    of_list = λ chunks. 0;
  };
  middlewares = [];
  compiled = one_step;
  run_id = "";
  callbacks = [];
  store = none;
  durable = false;
}

harness_run_stream-chunks_example :
    (harness_run_stream harness_session ticking (whole_world (List ℕ)) (as_dict []) (7 ∷ [])).0
    ≡ ok (1 ∷ 2 ∷ [])
harness_run_stream-chunks_example =
    harness_run_stream-chunks harness_session ticking (whole_world (List ℕ)) ticks (as_dict [])
      (7 ∷ []) refl refl refl (λ c w. refl)

-- A server whose state is a function from keys to texts.
abbrev Server : Type 0
Server = String → Option String

abbrev redis : RedisStore ℕ Server
redis = record {
  client = record {
    set = λ k v ttl w. (ok tt, λ j. if k == j then some v else w j);
    get = λ k w. (ok (w k), w);
    delete = λ k w. (ok tt, λ j. if k == j then none else w j);
    exists = λ k w. (ok (elim (w k) [ none ↦ 0 | some _ ↦ 1 ]), w);
  };
  ttl = 86400;
  key_prefix = "fluxio:checkpoint";
  dumps = λ c. some c.run_id;
  loads = λ raw. ok (a_checkpoint raw 3);
}

abbrev redis_served : IsServed redis
redis_served = record {
  held = λ w. w;
  get_held = λ k w. refl;
  set_held = λ k v ttl w. ((λ j. if k == j then some v else w j), refl, λ j. refl);
  delete_held = λ k w. ((λ j. if k == j then none else w j), refl, λ j. refl);
  exists_held = λ k w. refl;
}

abbrev changes : List (Change redis)
changes = saving (a_checkpoint "b" 3) ∷ saving (a_checkpoint "a" 3) ∷ deleting "b" ∷ []

abbrev nothing_held : Server
nothing_held k = none

redis_load-perform_all_example :
    let w' = perform_all redis changes nothing_held in
    (redis_load redis "a" w' ≡ (ok (latest redis "a" changes none), w'))
    × (redis_exists redis "a" w'
        ≡ (ok (elim (latest redis "a" changes none) [ none ↦ false | some _ ↦ true ]), w'))
redis_load-perform_all_example =
    redis_load-perform_all redis redis_served "a" changes nothing_held
      (("b", refl, refl), (("a", refl, refl), (tt, tt))) refl
