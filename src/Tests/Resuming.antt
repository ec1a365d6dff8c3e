-- ===== src/Tests/Resuming.antt =====
-- A durable run that fails.
use fluxio.Prelude.{ℕ, suc, [], some, true, false, ◌≡◌, refl, length}
use fluxio.Prelude.Dict.{Dict}
use fluxio.Errors.{Result}
use fluxio.Context.{Context}
use fluxio.Runtime.Cell.{Cell}
use fluxio.Runtime.Types.{Checkpoint, Session}
use fluxio.Runtime.Loop.{run}
use fluxio.Runtime.Keeps.{After}
use fluxio.Store.{memory_store}
use fluxio.Store.Resumable.{IsDurable, Resumable, Finished}
use fluxio.Store.Resumable.Attempts.{run-Resumable}
use fluxio.Tests.Fixtures.{values, whole_world, an_empty_context}
use fluxio.Tests.Compiling.{no_version}
use fluxio.Tests.Failing.{failing_nodes, failing_code, failing-BodyStays}

abbrev Saved : Type 0
Saved = Dict (Checkpoint ℕ)

abbrev cell : Cell Saved Saved
cell = whole_world Saved

abbrev lasting : Session (Dict ℕ) ℕ Saved
lasting = record {
  pmap = values;
  services = record {
    monotonic = λ w. 0;
    time = λ w. 0;
    with_timeout = λ limit m. m;
    of_list = λ chunks. 0;
  };
  middlewares = [];
  compiled = (failing_code Saved).0;
  run_id = "a";
  callbacks = [];
  store = some (memory_store cell);
  durable = true;
}

lasting-IsDurable : IsDurable lasting cell
lasting-IsDurable = record {
  in_memory = refl;
  durable = refl;
  confined = λ v. record {
    bodies = failing-BodyStays Saved (λ w. w ≡ v);
    middlewares = tt;
    streams = tt;
    timeouts = λ t m h. h;
  };
  heard = λ v. tt;
}

run-Resumable_example :
    (q : Result (Context (Dict ℕ)) × Saved) × (run lasting
        (suc (length ((failing_code Saved).0).instructions))
        false
        an_empty_context
        []
      ≡ some q)
    × After (λ c. Finished lasting cell) (λ e. Resumable lasting cell 0) q
run-Resumable_example =
    run-Resumable lasting cell lasting-IsDurable 0 no_version true (failing_nodes Saved)
      (failing_code Saved).1 false an_empty_context [] refl
