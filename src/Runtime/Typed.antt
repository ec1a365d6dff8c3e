-- ===== src/Runtime/Typed.antt =====
-- The node type that api/stage.py gives a function, against the one that runtime/executor.py acts on.
use fluxio.Prelude.{String, Option, ◌≡◌, refl, ◌∙◌, ap, inl, inr, arith, subst}
use fluxio.Errors.{ok, ok_inj, Result-cases}
use fluxio.Context.{Pmap, Context}
use fluxio.Stage.{
  NodeType, sync, async, stream, FunctionKind, coroutine, async_generator, plain, Callable,
  Declared, decorate, fitting, marked, stage, detect, check_kind, is_coroutine, is_async_generator,
}
use fluxio.Runtime.Act.{Act}
use fluxio.Runtime.Types.{
  Outcome, Body, function, coroutine_function, generator, Schema, StageFunc, Services,
}
use fluxio.Runtime.Executor.{run_stream, execute, execute_body}

-- What `inspect` says of a callable.
abbrev pub kind_of : {M V W : Type 0} → Body M V W → FunctionKind
kind_of (function f) = plain
kind_of (coroutine_function f) = coroutine
kind_of (generator g) = async_generator

-- A function is only accepted at the node type that fits it.
decorate-fitting :
    (given t : NodeType) (kind : FunctionKind) → decorate given kind ≡ ok t → t ≡ fitting kind
unfolding decorate detect check_kind is_coroutine is_async_generator
decorate-fitting async t coroutine e = ground arith
decorate-fitting async t async_generator e = ground arith
decorate-fitting async t plain e = ground arith
decorate-fitting sync t coroutine e = ground arith
decorate-fitting sync t async_generator e = ground arith
decorate-fitting sync t plain e = ground arith
decorate-fitting stream t coroutine e = ground arith
decorate-fitting stream t async_generator e = ground arith
decorate-fitting stream t plain e = ground arith

module _ {M V W : Type 0} (P : Pmap M V) (services : Services M V W) (id : String) (c : Context M)
    (emit : Option (String → V → Act W (Unit {0}))) where
  -- The call that a body is made for.
  abbrev pub body_call : Body M V W → Act W (Outcome M V)
  body_call (function f) = f c
  body_call (coroutine_function f) = f c
  body_call (generator g) = run_stream P services id g c emit

  execute_body-typed :
      (t : NodeType) (body : Body M V W)
      → t ≡ fitting (kind_of body)
      → execute_body P services t id body c emit ≡ body_call body
  unfolding execute_body
  execute_body-typed t (function f) e = rw e refl
  execute_body-typed t (coroutine_function f) e = rw e refl
  execute_body-typed t (generator g) e = rw e refl

  -- A stage that the decorator accepts, whatever node type it was given, is run as the function that
  -- it is: the executor reads the chunks of an async generator, awaits a coroutine function and calls
  -- a plain one, and a failure for a function of the wrong kind is out of reach. `inspect` is taken to
  -- tell the three kinds apart.
  pub execute-stage :
      (d : Declared (Schema V)) (func : Callable (Body M V W)) (fn : StageFunc M V W)
      → stage d func ≡ ok fn
      → func.kind ≡ kind_of func.body
      → execute P services id fn c emit ≡ body_call func.body
  unfolding stage marked execute
  execute-stage d func fn e known = elim (Result-cases (decorate d.node_type func.kind)) [
    | inl (e', refused) ↦ absurd (cc (rw (stage, refused) at e))
    | inr (t, accepted) ↦
        subst (λ (fn : StageFunc M V W). execute P services id fn c emit ≡ body_call func.body)
          (ok_inj (rw (stage, accepted) at e))
          (execute_body-typed t func.body
            (decorate-fitting d.node_type t func.kind accepted ∙ ap fitting known))
  ]
