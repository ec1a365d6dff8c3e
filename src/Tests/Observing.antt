-- ===== src/Tests/Observing.antt =====
-- The spans of a run that fails in its step, and of another one that has only begun.
use fluxio.Prelude.{ℕ, String, List, [], ◌∷◌, ◌≡◌, refl}
use fluxio.Prelude.Dict.{Dict}
use fluxio.Errors.{ok, runtime_error}
use fluxio.Runtime.Types.{Notice, on_pipeline_start, on_step_start, on_error}
use fluxio.Observability.Langfuse.{Tracer, SpanKey}
use fluxio.Observability.Langfuse.Spans.{IsObliging, is_open}
use fluxio.Tests.Fixtures.{whole_world, an_empty_context}
use fluxio.Prelude.{eqb, ◌||◌, Bool, none, true, false, Option}
use fluxio.Runtime.Types.{Session}
use fluxio.Tests.Fixtures.{values}
use fluxio.Tests.Compiling.{no_version}
use fluxio.Prelude.{some, suc, length, ◌⊎◌}
use fluxio.Context.{Context}
use fluxio.Errors.{Result, is_exception, ok_of_is_ok}
use fluxio.Runtime.Loop.{run}
use fluxio.Runtime.Termination.{begin-fresh}
use fluxio.Runtime.Keeps.{After, Triple-pure}
use fluxio.Runtime.Keeps.Calls.{IsConfined}
use fluxio.Observability.Langfuse.{observe, find_span}
use fluxio.Observability.Langfuse.Notify.{IsObserved}
use fluxio.Observability.Langfuse.Runs.{has_fork, run-closes}
use fluxio.Runtime.Cell.{Cell}
use fluxio.Compiler.Program.{compile}
use fluxio.Compiler.Grouping.{auto_parallelize}
use fluxio.Tests.Failing.{failing_nodes, failing_code, failing-BodyStays}

abbrev Spans : Type 0
Spans = List (SpanKey × ℕ)

-- A client whose spans are all the same.
abbrev tracer : Tracer ℕ Spans
tracer = record {
  start_root = λ name w. (ok 0, w);
  start_child = λ parent name w. (ok 1, w);
  update = λ span detail w. (ok tt, w);
  finish = λ span w. (ok tt, w);
}

abbrev tracer_obliges : IsObliging tracer (whole_world Spans)
tracer_obliges = record {
  roots = λ name w. (0, w, refl, refl);
  children = λ parent name w. (1, w, refl, refl);
  updates = λ span detail w. (tt, w, refl, refl);
  finishes = λ span w. (tt, w, refl, refl);
}

-- A client that knows which of its spans have ended: 0 for a root, 1 for a step.
abbrev Ledger : Type 0
Ledger = Spans × (ℕ → Bool)

abbrev held : Cell Spans Ledger
held = record { read = λ w. w.0; write = λ l w. (l, w.1); read-write = λ l w. refl }

abbrev ledger : Tracer ℕ Ledger
ledger = record {
  start_root = λ name w. (ok 0, w);
  start_child = λ parent name w. (ok 1, w);
  update = λ span detail w. (ok tt, w);
  finish = λ span w. (ok tt, (w.0, λ s. eqb span s || w.1 s));
}

abbrev ledger_obliges : IsObliging ledger held
ledger_obliges = record {
  roots = λ name w. (0, w, refl, refl);
  children = λ parent name w. (1, w, refl, refl);
  updates = λ span detail w. (tt, w, refl, refl);
  finishes = λ span w. (tt, (w.0, λ s. eqb span s || w.1 s), refl, refl);
}

abbrev fetching : Ledger
fetching = ((("a", none), 0) ∷ (("a", some "fetch"), 1) ∷ [], λ s. false)

-- Another run starts, and the step fails.
abbrev notices : List (String × Notice (Dict ℕ) ℕ)
notices =
    ("b", on_pipeline_start an_empty_context)
    ∷ ("b", on_step_start "fetch" an_empty_context)
    ∷ ("a", on_error "fetch" runtime_error)
    ∷ []

abbrev watched : Session (Dict ℕ) ℕ Spans
watched = record {
  pmap = values;
  services = record {
    monotonic = λ w. 0;
    time = λ w. 0;
    with_timeout = λ limit m. m;
    of_list = λ chunks. 0;
  };
  middlewares = [];
  compiled = (failing_code Spans).0;
  run_id = "a";
  callbacks = observe tracer (whole_world Spans) "a" ∷ [];
  store = none;
  durable = false;
}

watched-IsObserved : IsObserved watched tracer (whole_world Spans)
watched-IsObserved = record { obliging = tracer_obliges; others = []; callbacks = refl; apart = tt }

watched-IsConfined : (v : Spans) → IsConfined (λ w. w ≡ v) watched
unfolding observe
watched-IsConfined v = record {
  bodies = failing-BodyStays Spans (λ w. w ≡ v);
  middlewares = tt;
  streams = (λ id v. Triple-pure tt λ w p. p, tt);
  timeouts = λ t m h. h;
}

failing_single : has_fork ((failing_code Spans).0).instructions ≡ false
unfolding compile auto_parallelize ok_of_is_ok
failing_single = refl

run-closes_example :
    (q : Result (Context (Dict ℕ)) × Spans) × (run watched
        (suc (length ((failing_code Spans).0).instructions))
        false
        an_empty_context
        []
      ≡ some q)
    × After
        (λ c w. Unit {0})
        (λ e w.
          (is_exception e ≡ false)
          ⊎ ((step : Option String) → is_open tracer (whole_world Spans) w ("a", step) ≡ false))
        q
unfolding find_span
run-closes_example =
    run-closes watched tracer (whole_world Spans) watched-IsObserved watched-IsConfined
      (λ v store present. absurd (cc)) no_version true (failing_nodes Spans) (failing_code Spans).1
      failing_single false an_empty_context []
      (λ f w' e. (0, begin-fresh watched an_empty_context [] w' f e)) λ step. refl
