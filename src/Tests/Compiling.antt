-- ===== src/Tests/Compiling.antt =====
-- A pipeline with two independent stages, a router and a route, compiled.
use fluxio.Prelude.{ℕ, String, List, [], ◌∷◌, none, some, true, false, ◌≡◌, refl, All}
use fluxio.Prelude.Dict.{Dict, member}
use fluxio.Errors.{ok, is_ok, ok_of_is_ok}
use fluxio.Stage.{Stage}
use fluxio.Bytecode.{Instruction, CompiledPipeline}
use fluxio.Runtime.Types.{Schema}
use fluxio.Compiler.Naming.{
  suffixed, free_suffix, node_id, suffixed-free, FreeOrSame, node_id-FreeOrSame,
}
use fluxio.Compiler.Grouping.{stage_node, dict_node, auto_parallelize, undeclared}
use fluxio.Compiler.Build.{Nodes, RouteBody, nested, single}
use fluxio.Compiler.Program.{compile}
use fluxio.Compiler.Order.{Folds, auto_parallelize-Folds}
use fluxio.Compiler.Declared.{IsSettled, auto_parallelize_total}
use fluxio.Tests.Fixtures.{TestBody, plain_stage}

abbrev pub TestStage : Type 0
TestStage = Stage (TestBody ℕ) (Schema ℕ)

abbrev pub fetch_user : TestStage
fetch_user = plain_stage 1 "fetch" (some ("id" ∷ [])) (some ("user" ∷ []))

abbrev pub fetch_cart : TestStage
fetch_cart = plain_stage 2 "fetch" (some ("id" ∷ [])) (some ("cart" ∷ []))

abbrev pub router : TestStage
router = plain_stage 3 "router" none none

abbrev pub reply : TestStage
reply = plain_stage 4 "reply" none none

abbrev routes : Dict (RouteBody (TestBody ℕ) (Schema ℕ))
routes = ("yes", single (stage_node reply)) ∷ ("no", nested (stage_node router ∷ [])) ∷ []

abbrev pub shop : Nodes (TestBody ℕ) (Schema ℕ)
shop = stage_node fetch_user ∷ stage_node fetch_cart ∷ stage_node router ∷ dict_node routes ∷ []

abbrev pub no_version : List Instruction → String
no_version code = "v1"

shop-IsSettled : All IsSettled shop
unfolding undeclared
shop-IsSettled = (refl, (refl, (refl, (tt, tt))))

shop_grouped : (out : Nodes (TestBody ℕ) (Schema ℕ)) × (auto_parallelize shop ≡ ok out)
shop_grouped = ok_of_is_ok (auto_parallelize shop) (auto_parallelize_total shop shop-IsSettled)

auto_parallelize_total_example : is_ok (auto_parallelize shop) ≡ true
auto_parallelize_total_example = auto_parallelize_total shop shop-IsSettled

auto_parallelize-Folds_example : Folds shop shop_grouped.0
auto_parallelize-Folds_example = auto_parallelize-Folds shop shop_grouped.0 shop_grouped.1

shop_compiles : is_ok (compile no_version true shop) ≡ true
unfolding compile auto_parallelize
shop_compiles = refl

pub shop_code :
    (c : CompiledPipeline (TestBody ℕ) (Schema ℕ)) × (compile no_version true shop ≡ ok c)
shop_code = ok_of_is_ok (compile no_version true shop) shop_compiles

abbrev table : Dict TestStage
table = ("fetch", fetch_user) ∷ ("fetch#2", reply) ∷ []

suffixed-free_example : member (suffixed "fetch" (free_suffix 2 2 "fetch" table)) table ≡ false
suffixed-free_example = suffixed-free "fetch" table

node_id-FreeOrSame_example : FreeOrSame (node_id fetch_cart table) fetch_cart table
node_id-FreeOrSame_example = node_id-FreeOrSame fetch_cart table

-- Two stages over another world.
abbrev pub short : Nodes (TestBody (List String)) (Schema ℕ)
short =
    stage_node (plain_stage 1 "fetch" none none) ∷ stage_node (plain_stage 2 "reply" none none) ∷ []

short_compiles : is_ok (compile no_version true short) ≡ true
unfolding compile auto_parallelize
short_compiles = refl

pub short_code :
    (c : CompiledPipeline (TestBody (List String)) (Schema ℕ)) × (compile no_version true short
      ≡ ok c)
short_code = ok_of_is_ok (compile no_version true short) short_compiles
