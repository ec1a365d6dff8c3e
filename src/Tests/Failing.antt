-- ===== src/Tests/Failing.antt =====
-- A pipeline whose stage raises, over any world.
use fluxio.Prelude.{ℕ, String, [], ◌∷◌, none, some, true, ◌≡◌, refl, arith, subst}
use fluxio.Prelude.Dict.{Dict, lookup}
use fluxio.Errors.{ok, err, runtime_error, is_ok, ok_of_is_ok}
use fluxio.Bytecode.{CompiledPipeline}
use fluxio.Compiler.Grouping.{stage_node, auto_parallelize}
use fluxio.Compiler.Build.{Nodes}
use fluxio.Compiler.Program.{compile}
use fluxio.Runtime.Types.{StageFunc, coroutine_function, Schema}
use fluxio.Runtime.Keeps.Calls.{BodyStays}
use fluxio.Tests.Fixtures.{TestBody, plain_stage}
use fluxio.Tests.Compiling.{no_version}

module _ (W : Type 0) where
  abbrev failing : StageFunc (Dict ℕ) ℕ W
  failing = record (plain_stage 1 "fetch" none none) {
    body = coroutine_function (λ c w. (err runtime_error, w));
  }

  abbrev pub failing_nodes : Nodes (TestBody W) (Schema ℕ)
  failing_nodes = stage_node failing ∷ []

  pub failing_compiles : is_ok (compile no_version true failing_nodes) ≡ true
  unfolding compile auto_parallelize
  failing_compiles = refl

  abbrev pub failing_code :
      (c : CompiledPipeline (TestBody W) (Schema ℕ)) × (compile no_version true failing_nodes
        ≡ ok c)
  failing_code = ok_of_is_ok (compile no_version true failing_nodes) failing_compiles

  failing_table : (failing_code.0).symbol_table ≡ ("fetch", failing) ∷ []
  unfolding compile auto_parallelize ok_of_is_ok
  failing_table = refl

only_entry : {A : Type 0} (k id : String) (a b : A) → lookup id ((k, a) ∷ []) ≡ some b → a ≡ b
unfolding lookup
only_entry k id a b known = ground arith

pub failing-BodyStays :
    (W : Type 0) (P : W → Type 0) (id : String) (fn : StageFunc (Dict ℕ) ℕ W)
    → lookup id ((failing_code W).0).symbol_table ≡ some fn
    → BodyStays P fn.body
failing-BodyStays W P id fn known =
    subst (λ (fn : StageFunc (Dict ℕ) ℕ W). BodyStays P fn.body)
      (only_entry "fetch" id (failing W) fn
        (subst (λ t. lookup id t ≡ some fn) (failing_table W) known))
      λ c. record { at = λ w p. p }
