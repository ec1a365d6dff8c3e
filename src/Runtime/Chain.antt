-- ===== src/Runtime/Chain.antt =====
-- The order of the middlewares of runtime/middleware.py, `MiddlewareChain`.
use mathlib.Core.List.{reverse, reverse-cons}
use fluxio.Prelude.{List, [], ◌∷◌, ◌++◌, ◌≡◌, refl, ap, ◌∙◌}
use fluxio.Context.{Context}
use fluxio.Runtime.Types.{StageFunc, Next, Middleware}
use fluxio.Runtime.Executor.{wrap, wrap_each, chain_run}

module _ {M V W : Type 0} where
  wrap_each-append :
      (xs ys : List (Middleware M V W)) (chain : Next M V W)
      → wrap_each (xs ++ ys) chain ≡ wrap_each ys (wrap_each xs chain)
  unfolding wrap_each
  wrap_each-append [] ys chain = refl
  wrap_each-append (mw ∷ xs) ys chain = wrap_each-append xs ys (wrap mw chain)

  -- The first middleware of a chain is the outermost: it is called with the stage and the context,
  -- and the rest of the chain, which ends in the stage's execution, is its `next`.
  pub chain_run-cons :
      (mw : Middleware M V W) (mws : List (Middleware M V W)) (fn : StageFunc M V W)
      (ctx : Context M) (terminal : Next M V W)
      → chain_run (mw ∷ mws) fn ctx terminal ≡ mw fn ctx (λ f c. chain_run mws f c terminal)
  unfolding chain_run wrap_each wrap
  chain_run-cons mw mws fn ctx terminal =
      ap (λ chain. wrap_each chain terminal fn ctx) (reverse-cons mw mws)
      ∙ ap (λ (chain : Next M V W). chain fn ctx)
          (wrap_each-append (reverse mws) (mw ∷ []) terminal)
