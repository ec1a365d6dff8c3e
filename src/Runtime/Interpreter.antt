-- ===== src/Runtime/Interpreter.antt =====
-- runtime/interpreter.py: one instruction, the loop, and `Interpreter.run`.
use fluxio.Prelude.{
  ℕ, suc, ◌-◌, String, List, [], ◌∷◌, Option, none, some, Bool, true, false, ◌==◌, leb, length,
  get_elem?, if◌then◌else◌,
}
use fluxio.Prelude.Int.{ℤ, pos, negsuc}
use fluxio.Prelude.Dict.{Dict, lookup, insert, remove}
use fluxio.Errors.{
  Result, ok, err, is_exception, fluxio_error, validation_error, key_error, assertion_error,
}
use fluxio.Context.{Context, fork, snapshot}
use fluxio.Bytecode.{pipeline_start, pipeline_end, step_start, step_end, branch, Instruction}
use fluxio.Runtime.Act.{Act, pure, raise, lift, gets, catching, finally, ◌>>=◌, ◌>>◌}
use fluxio.Runtime.Types.{
  Outcome, context, send, StageFunc, Notice, on_pipeline_start, on_pipeline_end, on_step_start,
  on_step_end, on_step_stream, on_branch, Callback, Session,
}
use fluxio.Runtime.Executor.{execute, chain_run}

-- The local variables of `run`.
pub record Frame (M : Type 0) : Type 0 where
  pub ip : ℤ
  pub ctx : Context M
  pub pending_route : Option String
  pub pending_route_step : Option String
  pub step_timers : Dict ℕ

-- `instructions[ip]`, where the loop's test `ip < len(instructions)` holds; a negative index counts
-- from the end.
pub data Fetched : Type 0 where
  past_end : Fetched
  found : Instruction → Fetched
  out_of_range : Fetched

unfoldable pub fetch : List Instruction → ℤ → Fetched
fetch code (pos n) = elim (get_elem? code n) [ none ↦ past_end | some x ↦ found x ]
fetch code (negsuc n) =
    if leb (suc n) (length code)
    then elim (get_elem? code (length code - suc n)) [ none ↦ out_of_range | some x ↦ found x ]
    else out_of_range

-- `text or "?"`, and `bool(text)`
unfoldable pub or_unknown : Option String → String
or_unknown none = "?"
or_unknown (some t) = if t == "" then "?" else t

-- `_current_step`
unfoldable pub current_step : List Instruction → ℤ → String
current_step code (negsuc n) = "<pipeline>"
current_step code (pos n) = elim (get_elem? code n) [
  | none ↦ "<pipeline>"
  | some x ↦ elim x.node_id [
    | none ↦ "<pipeline>"
    | some id ↦ if id == "" then "<pipeline>" else id
  ]
]

-- `_resolve_route_map`; a repeated key would count with its last value.
unfoldable pub of_pairs : {A : Type 0} → List (String × A) → Dict A → Dict A
of_pairs [] d = d
of_pairs ((k, v) ∷ rest) d = of_pairs rest (insert k v d)

unfoldable pub resolve_route_map : Instruction → String → Result ℕ
resolve_route_map instr name = elim instr.route_map [
  | none ↦ err fluxio_error
  | some m ↦ elim (lookup name (of_pairs m [])) [ none ↦ err fluxio_error | some ip ↦ ok ip ]
]

-- `step_timers.pop(node_id, now)`
abbrev pub or_now : Option ℕ → ℕ → ℕ
or_now none now = now
or_now (some t) now = t

module _ {M V W : Type 0} where
  -- `_safe_dispatch`: what `except Exception` catches is logged and dropped.
  unfoldable pub safe_dispatch : List (Callback M V W) → Notice M V → Act W (Unit {0})
  safe_dispatch [] notice = pure tt
  safe_dispatch (cb ∷ cbs) notice = do
    catching (cb notice) (λ e. if is_exception e then pure tt else raise e)
    safe_dispatch cbs notice

  -- `emit_stream` calls the callbacks with no such guard.
  unfoldable pub emit_stream : List (Callback M V W) → String → V → Act W (Unit {0})
  emit_stream [] nid chunk = pure tt
  emit_stream (cb ∷ cbs) nid chunk = do cb (on_step_stream nid chunk); emit_stream cbs nid chunk

module _ {M : Type 0} where
  abbrev pub final_ctx : Context M → Result (Context M) → Context M
  final_ctx c (ok result) = result
  final_ctx c (err e) = c

module _ {M V : Type 0} where
  -- What a branch may give back.
  unfoldable pub no_send : Outcome M V → Result (Context M)
  no_send (context c) = ok c
  no_send (send r) = err fluxio_error

module _ {M V W : Type 0} (s : Session M V W) where
  unfoldable pub notify : Notice M V → Act W (Unit {0})
  notify notice = safe_dispatch s.callbacks notice

  -- `_emit`, with the step timers before and after.
  unfoldable pub emit_event : Instruction → Context M → Dict ℕ → ℕ → Act W (Dict ℕ)
  emit_event instr ctx timers started = elim instr.event_type [
    | none ↦ pure timers
    | some pipeline_start ↦ do notify (on_pipeline_start ctx); pure timers
    | some pipeline_end ↦ do
      now ← gets s.services.monotonic
      notify (on_pipeline_end ctx (now - started))
      pure timers
    | some step_start ↦ elim instr.node_id [
      | none ↦ pure timers
      | some id ↦ do
        now ← gets s.services.monotonic
        notify (on_step_start id ctx)
        pure (insert id now timers)
    ]
    | some step_end ↦ elim instr.node_id [
      | none ↦ pure timers
      | some id ↦ do
        now ← gets s.services.monotonic
        notify (on_step_end id ctx (now - or_now (lookup id timers) now))
        pure (remove id timers)
    ]
    | some branch ↦ elim instr.branch_ids [
      | none ↦ pure timers
      | some ids ↦ do notify (on_branch ids); pure timers
    ]
  ]

  -- `_run_validation`
  unfoldable pub run_validation : String → Context M → Bool → Result (Unit {0})
  run_validation node_id ctx is_input =
      elim (lookup node_id
        (if is_input then s.compiled.input_schemas else s.compiled.output_schemas)) [
          | none ↦ ok tt
          | some schema ↦
              if schema (snapshot s.pmap ctx) then ok tt else err (validation_error node_id)
        ]

  -- `_validate`
  unfoldable pub validate : Instruction → Context M → Bool → Result (Unit {0})
  validate instr ctx is_input = elim instr.node_id [
    | none ↦ err assertion_error
    | some id ↦ run_validation id ctx is_input
  ]

  unfoldable pub call_chain : String → StageFunc M V W → Context M → Act W (Outcome M V)
  call_chain node_id fn ctx =
      chain_run s.middlewares fn ctx
        (λ f c. execute s.pmap s.services node_id f c (some (emit_stream s.callbacks)))

  -- `_call`
  unfoldable pub call_stage : String → StageFunc M V W → Context M → Act W (Outcome M V)
  call_stage node_id fn ctx = elim fn.timeout [
    | none ↦ call_chain node_id fn ctx
    | some t ↦ s.services.with_timeout t (call_chain node_id fn ctx)
  ]

  -- The `try` block of `runner`, and the context of its `finally` block.
  unfoldable pub branch_body : StageFunc M V W → Context M → String → Act W (Context M)
  branch_body fn c nid = do
    lift (run_validation nid c true)
    outcome ← call_stage nid fn c
    result ← lift (no_send outcome)
    lift (run_validation nid result false)
    pure result

  -- `on_step_end` with the branch's context, or the forked one if the branch failed.
  unfoldable pub close_branch :
      Context M → String → ℕ → Result (Context M) × W → Result (Context M) × W
  close_branch c nid start (r, w) =
      finally (λ w'. (r, w'))
        (do now ← gets s.services.monotonic; notify (on_step_end nid (final_ctx c r) (now - start)))
        w

  unfoldable pub runner : StageFunc M V W → Context M → String → Act W (Context M)
  runner fn c nid = do
    notify (on_step_start nid c)
    start ← gets s.services.monotonic
    (λ w. close_branch c nid start (branch_body fn c nid w))

  -- The branches of a fork: `compiled.symbol_table[bid]` and `ctx.fork(bid)`.
  unfoldable pub fork_branches :
      List String → Context M → Result (List (String × StageFunc M V W × Context M))
  fork_branches [] ctx = ok []
  fork_branches (bid ∷ bids) ctx = elim (lookup bid s.compiled.symbol_table) [
    | none ↦ err (key_error bid)
    | some fn ↦ elim (fork_branches bids ctx) [
      | err e ↦ err e
      | ok rest ↦ ok ((bid, fn, fork s.pmap ctx bid) ∷ rest)
    ]
  ]
