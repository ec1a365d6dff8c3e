-- ===== src/Tests/Running.antt =====
-- Runs of the compiled pipeline, and requests to the in-memory store.
use fluxio.Prelude.{ℕ, zero, suc, String, List, [], ◌∷◌, none, some, true, false, ◌≡◌, length}
use fluxio.Prelude.Int.{pos}
use fluxio.Prelude.Dict.{Dict, lookup}
use fluxio.Errors.{ok}
use fluxio.Stage.{sync, coroutine, decorate, decorate_lem}
use fluxio.Errors.{err, type_error}
use fluxio.Runtime.Types.{Session, Checkpoint}
use fluxio.Runtime.Interpreter.{Frame}
use fluxio.Runtime.Loop.{begin, run}
use fluxio.Runtime.Termination.{ended, ended-run, begin-fresh}
use fluxio.Store.{load, exists, Request, saving, deleting, perform_all, latest, load-perform_all}
use fluxio.Tests.Fixtures.{values, whole_world, an_empty_context}
use fluxio.Pipeline.{find_from}
use fluxio.Pipeline.Steps.{Finds, find_from-Finds}
use fluxio.Tests.Compiling.{short_code, shop, shop_code, no_version}

abbrev pub session : Session (Dict ℕ) ℕ ℕ
session = record {
  pmap = values;
  services = record {
    monotonic = λ w. w;
    time = λ w. w;
    with_timeout = λ limit m. m;
    of_list = λ chunks. 0;
  };
  middlewares = [];
  compiled = shop_code.0;
  run_id = "run";
  callbacks = [];
  store = none;
  durable = false;
}

starts_at_zero :
    (f : Frame (Dict ℕ)) (w' : ℕ)
    → begin session false an_empty_context 0 ≡ (ok f, w')
    → (i : ℕ) × (f.ip ≡ pos i)
starts_at_zero f w' e = (zero, begin-fresh session an_empty_context 0 w' f e)

ended-run_example :
    ended (run session (suc (length session.compiled.instructions)) false an_empty_context 0) ≡ true
ended-run_example =
    ended-run session no_version true shop shop_code.1 false an_empty_context 0 starts_at_zero

abbrev checkpoint_of : String → ℕ → Checkpoint ℕ
checkpoint_of run_id ip = record {
  run_id = run_id;
  pipeline_version = "v1";
  ip = pos ip;
  ctx_snapshot = [];
  created_at = 0;
  meta = [];
}

abbrev requests : List (Request {V = ℕ} (whole_world (Dict (Checkpoint ℕ))))
requests =
    saving (checkpoint_of "a" 1)
    ∷ saving (checkpoint_of "b" 2)
    ∷ deleting "a"
    ∷ saving (checkpoint_of "b" 3)
    ∷ []

load-perform_all_example :
    let cell = whole_world (Dict (Checkpoint ℕ)) in
    let w' = perform_all cell requests [] in
    (load cell "b" w' ≡ (ok (latest cell "b" requests (lookup "b" [])), w'))
    × (exists cell "b" w' ≡ (
      ok (elim (latest cell "b" requests (lookup "b" [])) [ none ↦ false | some _ ↦ true ]),
      w',
    ))
load-perform_all_example = load-perform_all (whole_world (Dict (Checkpoint ℕ))) "b" requests []

decorate_lem_example : decorate sync coroutine ≡ err type_error
decorate_lem_example = decorate_lem sync coroutine

find_from-Finds_example :
    Finds "reply" 0 (short_code.0).instructions (find_from "reply" 0 (short_code.0).instructions)
find_from-Finds_example = find_from-Finds "reply" 0 (short_code.0).instructions
