-- ===== src/Runtime/Keeps/Calls.antt =====
-- A call of a stage leaves what its body, the middlewares and the callbacks leave.
use mathlib.Core.List.{reverse, reverse-cons}
use fluxio.Prelude.{
  ℕ, String, List, [], ◌∷◌, ◌++◌, Option, none, some, false, ◌≡◌, sym, subst, All, Option-cases,
  inl, inr,
}
use fluxio.Prelude.Dict.{lookup}
use fluxio.Errors.{Exn, is_exception}
use fluxio.Context.{Context, Pmap}
use fluxio.Stage.{NodeType, async, sync, stream}
use fluxio.Runtime.Act.{Act}
use fluxio.Runtime.Types.{
  Outcome, Stream, Body, function, coroutine_function, generator, StageFunc, Next, Middleware,
  Callback, on_step_stream, Services, Session, CheckpointStore, Checkpoint,
}
use fluxio.Runtime.Executor.{
  deliver, end_of, run_stream, execute_body, execute, wrap, wrap_each, chain_run, or_async,
}
use fluxio.Runtime.Interpreter.{emit_stream, call_chain, call_stage, branch_body}
use fluxio.Runtime.Keeps.{Triple, Stays, Triple-pure, Triple-raise, Triple-lift, Triple-bind}

module _ {A : Type 0} (Q : A → Type 0) where
  All-append : (xs ys : List A) → All Q xs → All Q ys → All Q (xs ++ ys)
  All-append [] ys h h' = h'
  All-append (x ∷ xs) ys h h' = (h.0, All-append xs ys h.1 h')

  All-reverse : (xs : List A) → All Q xs → All Q (reverse xs)
  All-reverse [] h = h
  All-reverse (x ∷ xs) h =
      subst (All Q) (sym (reverse-cons x xs))
        (All-append (reverse xs) (x ∷ []) (All-reverse xs h.1) (h.0, tt))

module _ {W : Type 0} (P : W → Type 0) where
  end_of-Stays : (o : Option Exn) → Stays P (end_of o)
  end_of-Stays none = Triple-pure tt λ w p. p
  end_of-Stays (some e) = Triple-raise e λ w p. p

module _ {V W : Type 0} (P : W → Type 0) where
  abbrev EmitStays : Option (String → V → Act W (Unit {0})) → Type 0
  EmitStays none = Unit {0}
  EmitStays (some emit) = (id : String) (v : V) → Stays P (emit id v)

  deliver-Stays :
      (emit : Option (String → V → Act W (Unit {0}))) (id : String) (chunks : List V)
      → EmitStays emit
      → Stays P (deliver emit id chunks)
  unfolding deliver
  deliver-Stays none id chunks h = Triple-pure tt λ w p. p
  deliver-Stays (some emit) id [] h = Triple-pure tt λ w p. p
  deliver-Stays (some emit) id (c ∷ chunks) h =
      Triple-bind _ _ (h id c) λ done. deliver-Stays (some emit) id chunks h

module _ {M V W : Type 0} (P : W → Type 0) where
  abbrev pub BodyStays : Body M V W → Type 0
  BodyStays (function f) = (c : Context M) → Stays P (f c)
  BodyStays (coroutine_function f) = (c : Context M) → Stays P (f c)
  BodyStays (generator g) = (c : Context M) (w : W) → P w → P (g c w).1

  abbrev pub NextStays : Next M V W → Type 0
  NextStays next = (f : StageFunc M V W) (c : Context M) → BodyStays f.body → Stays P (next f c)

  abbrev pub MiddlewareStays : Middleware M V W → Type 0
  MiddlewareStays mw =
      (f : StageFunc M V W) (c : Context M) (next : Next M V W)
      → BodyStays f.body
      → NextStays next
      → Stays P (mw f c next)

  wrap-NextStays :
      (mw : Middleware M V W) (next : Next M V W)
      → MiddlewareStays mw
      → NextStays next
      → NextStays (wrap mw next)
  unfolding wrap
  wrap-NextStays mw next hm hn f c hf = hm f c next hf hn

  wrap_each-NextStays :
      (mws : List (Middleware M V W)) (next : Next M V W)
      → All MiddlewareStays mws
      → NextStays next
      → NextStays (wrap_each mws next)
  unfolding wrap_each
  wrap_each-NextStays [] next h hn = hn
  wrap_each-NextStays (mw ∷ mws) next h hn =
      wrap_each-NextStays mws (wrap mw next) h.1 (wrap-NextStays mw next h.0 hn)

  module _ (pmap : Pmap M V) (services : Services M V W) where
    run_stream-Stays :
        (id : String) (g : Context M → W → Stream V × W) (c : Context M)
        (emit : Option (String → V → Act W (Unit {0})))
        → BodyStays (generator g)
        → EmitStays P emit
        → Stays P (run_stream pmap services id g c emit)
    unfolding run_stream
    run_stream-Stays id g c emit hg he = record {
      at = λ w p.
          (Triple-bind {P = P} {Q = λ a. P} _ _ (deliver-Stays P emit id (g c w).0.chunks he)
              λ done.
                Triple-bind {Q = λ a. P} _ _ (end_of-Stays P (g c w).0.ending)
                  λ done'. Triple-pure _ λ w p. p).at
            (g c w).1 (hg c w p);
    }

    execute_body-Stays :
        (t : NodeType) (id : String) (body : Body M V W) (c : Context M)
        (emit : Option (String → V → Act W (Unit {0})))
        → BodyStays body
        → EmitStays P emit
        → Stays P (execute_body pmap services t id body c emit)
    unfolding execute_body
    execute_body-Stays stream id (generator g) c emit hb he = run_stream-Stays id g c emit hb he
    execute_body-Stays stream id (function f) c emit hb he = Triple-raise _ λ w p. p
    execute_body-Stays sync id (function f) c emit hb he = hb c
    execute_body-Stays async id (function f) c emit hb he =
        Triple-bind _ _ (hb c) λ result. Triple-raise _ λ w p. p
    execute_body-Stays stream id (coroutine_function f) c emit hb he = Triple-raise _ λ w p. p
    execute_body-Stays sync id (coroutine_function f) c emit hb he = Triple-raise _ λ w p. p
    execute_body-Stays async id (coroutine_function f) c emit hb he = hb c
    execute_body-Stays sync id (generator g) c emit hb he = Triple-raise _ λ w p. p
    execute_body-Stays async id (generator g) c emit hb he = Triple-raise _ λ w p. p

  emit_stream-Stays :
      (cbs : List (Callback M V W)) (id : String) (v : V)
      → All
          (λ (cb : Callback M V W). (id : String) (v : V) → Stays P (cb (on_step_stream id v)))
          cbs
      → Stays P (emit_stream cbs id v)
  unfolding emit_stream
  emit_stream-Stays [] id v h = Triple-pure tt λ w p. p
  emit_stream-Stays (cb ∷ cbs) id v h =
      Triple-bind _ _ (h.0 id v) λ done. emit_stream-Stays cbs id v h.1

  -- The code that a session calls for a stage leaves `P` as it is.
  pub record IsConfined (s : Session M V W) : Type 0 where
    pub bodies :
        (id : String) (fn : StageFunc M V W)
        → lookup id s.compiled.symbol_table ≡ some fn
        → BodyStays fn.body
    pub middlewares : All MiddlewareStays s.middlewares
    pub streams :
        All
          (λ (cb : Callback M V W). (id : String) (v : V) → Stays P (cb (on_step_stream id v)))
          s.callbacks
    pub timeouts :
        (t : ℕ) (m : Act W (Outcome M V)) → Stays P m → Stays P (s.services.with_timeout t m)

  module _ (s : Session M V W) (confined : IsConfined s) where
    call_chain-Stays :
        (id : String) (fn : StageFunc M V W) (c : Context M)
        → BodyStays fn.body
        → Stays P (call_chain s id fn c)
    unfolding call_chain chain_run execute
    call_chain-Stays id fn c hb =
        wrap_each-NextStays (reverse s.middlewares) _
          (All-reverse MiddlewareStays s.middlewares confined.middlewares)
          (λ f c' hf.
            execute_body-Stays s.pmap s.services (or_async f.node_type) id f.body c' _ hf
              λ nid v. emit_stream-Stays s.callbacks nid v confined.streams)
          fn c hb

    pub call_stage-Stays :
        (id : String) (fn : StageFunc M V W) (c : Context M)
        → lookup id s.compiled.symbol_table ≡ some fn
        → Stays P (call_stage s id fn c)
    unfolding call_stage
    call_stage-Stays id fn c known = elim (Option-cases fn.timeout) [
      | inl untimed ↦
          rw (untimed, call_stage) (call_chain-Stays id fn c (confined.bodies id fn known))
      | inr (t, timed) ↦
          rw (timed, call_stage)
            (confined.timeouts t _ (call_chain-Stays id fn c (confined.bodies id fn known)))
    ]

module _ {M V W : Type 0} (P : W → Type 0) (s : Session M V W) where
  -- Whatever stage of the pipeline is called, `P` stays.
  abbrev pub CallsStay : Type 0
  CallsStay =
      (id : String) (fn : StageFunc M V W) (c : Context M)
      → lookup id s.compiled.symbol_table ≡ some fn
      → Stays P (call_stage s id fn c)

module _ {M V W : Type 0} (P : W → Type 0) (s : Session M V W) (calls : CallsStay P s) where
  pub branch_body-Stays :
      (fn : StageFunc M V W) (c : Context M) (id : String)
      → lookup id s.compiled.symbol_table ≡ some fn
      → Stays P (branch_body s fn c id)
  unfolding branch_body
  branch_body-Stays fn c id known =
      Triple-bind {Q = λ a. P} _ _ (Triple-lift _ (λ a e w p. p) λ e w p. p) λ valid.
        Triple-bind {Q = λ a. P} _ _ (calls id fn c known) λ outcome.
          Triple-bind {Q = λ a. P} _ _ (Triple-lift _ (λ a e w p. p) λ e w p. p) λ result.
            Triple-bind {Q = λ a. P} _ _ (Triple-lift _ (λ a e w p. p) λ e w p. p)
              λ valid'. Triple-pure _ λ w p. p

-- The store leaves `P` as it is, and to delete raises no `Exception`.
pub record IsConfinedStore {V W : Type 0} (P : W → Type 0) (store : CheckpointStore V W)
    : Type 0 where
  pub saves : (c : Checkpoint V) → Stays P (store.save c)
  pub loads : (run_id : String) → Stays P (store.load run_id)
  pub deletes :
      (run_id : String)
      → Triple P (store.delete run_id) (λ done. P) (λ e w. (is_exception e ≡ false) × P w)
