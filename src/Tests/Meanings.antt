-- ===== src/Tests/Meanings.antt =====
-- A run of compiled code and what the pipeline means.
use fluxio.Prelude.{ℕ, suc, true, false, some, ◌≡◌, refl, length, eqb, if◌then◌else◌, arith}
use fluxio.Compiler.Grouping.{auto_parallelize}
use fluxio.Compiler.Build.{normalize, unwrap_route_body}
use fluxio.Runtime.Loop.{run}
use fluxio.Meaning.{pipeline_meaning}
use fluxio.Meaning.Machine.{IsQuiet}
use fluxio.Meaning.Objects.{NodesOwn}
use fluxio.Meaning.Program.{compile-meaning}
use fluxio.Tests.Fixtures.{an_empty_context}
use fluxio.Tests.Compiling.{
  TestStage, fetch_user, fetch_cart, router, reply, shop, shop_code, no_version,
}
use fluxio.Tests.Running.{session}

abbrev object : ℕ → TestStage
object i =
    if eqb i 1
    then fetch_user
    else if eqb i 2
    then fetch_cart
    else if eqb i 3
    then router
    else reply

session-IsQuiet : IsQuiet session
session-IsQuiet = record { unheard = refl; unsaved = refl }

shop-NodesOwn : NodesOwn object true shop
unfolding auto_parallelize normalize unwrap_route_body
shop-NodesOwn = ((refl, (refl, tt)), (refl, ((tt, ((refl, tt), ((refl, tt), tt))), tt)))

compile-meaning_example :
    run session (suc (length session.compiled.instructions)) false an_empty_context 0
    ≡ some (pipeline_meaning session true shop an_empty_context 0)
compile-meaning_example =
    compile-meaning session session-IsQuiet object no_version true shop
      (suc (length session.compiled.instructions)) an_empty_context 0 shop_code.1 shop-NodesOwn
      (omega arith)
