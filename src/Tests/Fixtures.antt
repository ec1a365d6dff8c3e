-- ===== src/Tests/Fixtures.antt =====
-- What the tests run on: maps are dicts, values are numbers, and the world is a number too.
use fluxio.Prelude.{ℕ, String, List, [], Option, none, some, refl}
use fluxio.Prelude.Dict.{Dict, lookup, insert, lookup-nil, lookup-insert}
use fluxio.Errors.{ok}
use fluxio.Context.{Pmap, Context}
use fluxio.Stage.{async}
use fluxio.Runtime.Cell.{Cell}
use fluxio.Runtime.Types.{context, Body, coroutine_function, StageFunc}

abbrev pub values : Pmap (Dict ℕ) ℕ
values = record {
  empty = [];
  get = λ d k. lookup k d;
  set = λ d k v. insert k v d;
  of_dict = λ d. d;
  to_dict = λ d. d;
  deepcopy = λ d. d;
  get-empty = lookup-nil;
  get-set = λ d k j v. lookup-insert k j v d;
  get-of_dict = λ d k. refl;
  lookup-to_dict = λ d k. refl;
  lookup-deepcopy = λ d k. refl;
}

-- A world that is one cell.
abbrev pub whole_world : (S : Type 0) → Cell S S
whole_world S = record { read = λ w. w; write = λ s w. s; read-write = λ s w. refl }

abbrev pub TestBody : Type 0 → Type 0
TestBody W = Body (Dict ℕ) ℕ W

abbrev pub an_empty_context : Context (Dict ℕ)
an_empty_context = record { entries = []; written = []; name = "main" }

-- A stage that gives its context back.
abbrev pub plain_stage :
    {W : Type 0} → ℕ → String → Option (List String) → Option (List String) → StageFunc (Dict ℕ) ℕ W
plain_stage ident name reads writes = record {
  ident = ident;
  func_name = some name;
  repr = "<function>";
  qualname = some name;
  node_type = some async;
  reads = reads;
  writes = writes;
  input_schema = none;
  output_schema = none;
  timeout = none;
  body = coroutine_function (λ c w. (ok (context c), w));
}
