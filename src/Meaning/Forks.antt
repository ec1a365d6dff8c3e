-- ===== src/Meaning/Forks.antt =====
-- What the fork of a block does to the place in a pipeline.
use mathlib.Core.Path.{fun_ext}
use fluxio.Prelude.{ℕ, ◌+◌, String, List, [], ◌∷◌, map, some, ◌≡◌, refl, ◌⊎◌, get_elem?, inl, inr}
use fluxio.Prelude.Int.{pos}
use fluxio.Prelude.Dict.{lookup}
use fluxio.Errors.{Exn, Result, ok, err}
use fluxio.Context.{Context, fork, merge}
use fluxio.Stage.{ForkMode, parallel_mode, fire_forget}
use fluxio.Bytecode.{Instruction, bare, join}
use fluxio.Bytecode
use fluxio.Runtime.Act.{lift, gets, ◌>>=◌, and_then, finally}
use fluxio.Runtime.Types.{StageFunc, Session}
use fluxio.Runtime.Executor.{run_parallel}
use fluxio.Runtime.Interpreter.{Frame, fetch, branch_body, close_branch, runner, fork_branches}
use fluxio.Runtime.Loop.{exec, exec_op, handle_fork, after_fork}
use fluxio.Meaning.{branch_meaning, forked, joined, parallel_meaning}
use fluxio.Meaning.Machine.{IsQuiet, notify-quiet, Agrees, Does, place}
use fluxio.Meaning.Instructions.{run_validation-input, run_validation-output}

abbrev pub fork_of : List String → ForkMode → Instruction
fork_of ids mode = record (bare Bytecode.fork) { branch_ids = some ids; mode = some mode }

module _ {M V W : Type 0} where
  abbrev pub ids_of : List (String × StageFunc M V W) → List String
  ids_of = map (λ (e : String × StageFunc M V W). e.0)

module _ {M V W : Type 0} (s : Session M V W) where
  -- The compiled pipeline knows a stage by a name.
  pub record Known (id : String) (fn : StageFunc M V W) : Type 0 where
    pub stage : lookup id s.compiled.symbol_table ≡ some fn
    pub input : lookup id s.compiled.input_schemas ≡ fn.input_schema
    pub output : lookup id s.compiled.output_schemas ≡ fn.output_schema

  abbrev pub AllKnown : List (String × StageFunc M V W) → Type 0
  AllKnown [] = Unit
  AllKnown ((id, fn) ∷ named) = Known id fn × AllKnown named

module _ {M V W : Type 0} (s : Session M V W) (quiet : IsQuiet s) where
  fork_branches-forked :
      (named : List (String × StageFunc M V W)) (ctx : Context M)
      → AllKnown s named
      → fork_branches s (ids_of named) ctx ≡ ok (forked s ctx named)
  unfolding fork_branches
  fork_branches-forked [] ctx known = refl
  fork_branches-forked ((id, fn) ∷ named) ctx (k, known) =
      rw (k.stage, fork_branches, fork_branches-forked named ctx known) refl

  branch_body-meaning :
      (id : String) (fn : StageFunc M V W) (c : Context M)
      → Known s id fn
      → branch_body s fn c id ≡ branch_meaning s fn c id
  unfolding branch_body branch_meaning
  branch_body-meaning id fn c k =
      simp (run_validation-input s quiet, run_validation-output s quiet, k.input, k.output)

  close_branch-quiet :
      (c : Context M) (id : String) (start : ℕ) (r : Result (Context M)) (w : W)
      → close_branch s c id start (r, w) ≡ (r, w)
  unfolding close_branch finally ◌>>=◌ gets
  close_branch-quiet c id start r w = rw (notify-quiet s quiet) refl

  runner-meaning :
      (id : String) (fn : StageFunc M V W) (c : Context M) (w : W)
      → Known s id fn
      → runner s fn c id w ≡ branch_meaning s fn c id w
  unfolding runner ◌>>=◌ gets
  runner-meaning id fn c w k =
      rw (notify-quiet s quiet, branch_body-meaning id fn c k)
        (close_branch-quiet c id (s.services.monotonic w) (branch_meaning s fn c id w).0
          (branch_meaning s fn c id w).1)

  branches-meaning :
      (named : List (String × StageFunc M V W)) (ctx : Context M)
      → AllKnown s named
      → map
          (λ (e : String × StageFunc M V W × Context M). runner s e.1 e.2 e.0)
          (forked s ctx named)
        ≡ map
            (λ (e : String × StageFunc M V W × Context M). branch_meaning s e.1 e.2 e.0)
            (forked s ctx named)
  branches-meaning [] ctx known = refl
  branches-meaning ((id, fn) ∷ named) ctx (k, known) =
      let first : runner s fn (fork s.pmap ctx id) id
          ≡ branch_meaning s fn (fork s.pmap ctx id) id =
        fun_ext (λ w. runner-meaning id fn (fork s.pmap ctx id) w k) in
      rw (first, branches-meaning named ctx known) refl

  run_parallel-meaning :
      (named : List (String × StageFunc M V W)) (ctx : Context M) (mode : ForkMode) (w : W)
      → AllKnown s named
      → run_parallel (forked s ctx named) mode (runner s) w
        ≡ run_parallel (forked s ctx named) mode (branch_meaning s) w
  unfolding run_parallel
  run_parallel-meaning named ctx mode w known = rw (branches-meaning named ctx known) refl

  module _ (started : ℕ) where
    handle_fork-meaning :
        (named : List (String × StageFunc M V W)) (mode : ForkMode) (f : Frame M) (w : W)
        → AllKnown s named
        → handle_fork s (fork_of (ids_of named) mode) f w
          ≡ and_then
              (run_parallel (forked s f.ctx named) mode (branch_meaning s) w)
              (λ results. lift (after_fork s (fork_of (ids_of named) mode) f results))
    unfolding handle_fork ◌>>=◌ lift
    handle_fork-meaning named mode f w known =
        rw (fork_branches-forked named f.ctx known, run_parallel-meaning named f.ctx mode w known)
          refl

    merged : (r : Result (Context M)) → ((c : Context M) × (r ≡ ok c)) ⊎ ((e : Exn) × (r ≡ err e))
    merged (ok c) = inl (c, refl)
    merged (err e) = inr (e, refl)

    joined-Agrees :
        (ids : List String) (r : Result (List (Context M)) × W) (f : Frame M) (i : ℕ)
        → f.ip ≡ pos i
        → get_elem? s.compiled.instructions (i + 1) ≡ some (bare join)
        → Agrees s quiet started
            (i + 1 + 1)
            (and_then r (λ results. lift (after_fork s (fork_of ids parallel_mode) f results)))
            (and_then r (λ results. lift (joined s parallel_mode (place s quiet f) results)))
    unfolding lift after_fork joined fetch
    joined-Agrees ids (err e, w) f i at here = refl
    joined-Agrees ids (ok results, w) f i at here = elim (merged (merge s.pmap f.ctx results)) [
      | inl (c, fine) ↦ rw (fine, joined, at, after_fork, fetch, here) (refl, refl)
      | inr (e, wrong) ↦ rw (wrong, joined, at, after_fork, fetch, here) refl
    ]

    unjoined-Agrees :
        (ids : List String) (r : Result (List (Context M)) × W) (f : Frame M) (i : ℕ)
        → f.ip ≡ pos i
        → Agrees s quiet started
            (i + 1)
            (and_then r (λ results. lift (after_fork s (fork_of ids fire_forget) f results)))
            (and_then r (λ results. lift (joined s fire_forget (place s quiet f) results)))
    unfolding lift after_fork joined
    unjoined-Agrees ids (err e, w) f i at = refl
    unjoined-Agrees ids (ok results, w) f i at = (rw at refl, refl)

    pub fork-Does :
        (named : List (String × StageFunc M V W)) (i : ℕ)
        → AllKnown s named
        → get_elem? s.compiled.instructions (i + 1) ≡ some (bare join)
        → Does s quiet started
            (fork_of (ids_of named) parallel_mode)
            i
            (i + 1 + 1)
            (parallel_meaning s named parallel_mode)
    unfolding exec exec_op parallel_meaning ◌>>=◌
    fork-Does named i known here f w at = rw (handle_fork-meaning named parallel_mode f w known) (
        joined-Agrees (ids_of named)
          (run_parallel (forked s f.ctx named) parallel_mode (branch_meaning s) w) f i at here)

    pub fire-Does :
        (named : List (String × StageFunc M V W)) (i : ℕ)
        → AllKnown s named
        → Does s quiet started
            (fork_of (ids_of named) fire_forget)
            i
            (i + 1)
            (parallel_meaning s named fire_forget)
    unfolding exec exec_op parallel_meaning ◌>>=◌
    fire-Does named i known f w at = rw (handle_fork-meaning named fire_forget f w known) (
        unjoined-Agrees (ids_of named)
          (run_parallel (forked s f.ctx named) fire_forget (branch_meaning s) w) f i at)
