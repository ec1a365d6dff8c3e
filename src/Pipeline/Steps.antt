-- ===== src/Pipeline/Steps.antt =====
-- Where `_find_step_ip` of api/pipeline.py finds a step.
use fluxio.Prelude.{
  ℕ, zero, suc, ◌+◌, ◌<◌, String, List, [], ◌∷◌, Option, none, some, true, false, ◌≡◌, refl,
  get_elem?, arith, Bool-cases, inl, inr, All, subst, eq_refl, eq_iff,
}
use fluxio.Errors.{Result, ok, err, key_error}
use fluxio.Bytecode.{
  OpCode, call, fork, join, route, jump, validate_input, validate_output, emit, checkpoint,
  EventType, pipeline_start, pipeline_end, step_start, step_end, branch, Instruction,
}
use fluxio.Pipeline.{is_emit, is_step_start, is_named, starts_step, find_from}

-- The instruction that tells of the start of a step: an EMIT of `step_start` for that step.
pub record StepStart (name : String) (x : Instruction) : Type 0 where
  pub op_emit : x.op ≡ emit
  pub event_step_start : x.event_type ≡ some step_start
  pub node_name : x.node_id ≡ some name

is_emit-emit : (op : OpCode) → is_emit op ≡ true → op ≡ emit
is_emit-emit emit h = refl
is_emit-emit call h = cc
is_emit-emit fork h = cc
is_emit-emit join h = cc
is_emit-emit route h = cc
is_emit-emit jump h = cc
is_emit-emit validate_input h = cc
is_emit-emit validate_output h = cc
is_emit-emit checkpoint h = cc

is_step_start-start : (e : Option EventType) → is_step_start e ≡ true → e ≡ some step_start
is_step_start-start (some step_start) h = refl
is_step_start-start (some step_end) h = cc
is_step_start-start (some branch) h = cc
is_step_start-start (some pipeline_start) h = cc
is_step_start-start (some pipeline_end) h = cc
is_step_start-start none h = cc

is_named-some : (name : String) (o : Option String) → is_named name o ≡ true → o ≡ some name
is_named-some name none h = cc
is_named-some name (some id) h = ground (arith, eq_iff id name)

starts_step-StepStart :
    (name : String) (x : Instruction) → starts_step name x ≡ true → StepStart name x
starts_step-StepStart name x h =
    ground
      (arith, is_emit-emit x.op, is_step_start-start x.event_type, is_named-some name x.node_id)

StepStart-starts_step :
    (name : String) (x : Instruction) → StepStart name x → starts_step name x ≡ true
StepStart-starts_step name x h = rw (h.op_emit, h.event_step_start, h.node_name, eq_refl name) refl

no_StepStart : (name : String) (x : Instruction) → starts_step name x ≡ false → ¬ StepStart name x
no_StepStart name x h s = cc (h, StepStart-starts_step name x s)

-- What `_find_step_ip` answers, for code whose first index is `i`.
abbrev pub Finds : String → ℕ → List Instruction → Result ℕ → Type 0
Finds name i code (ok ip) =
    (j : ℕ) × (ip ≡ i + j)
    × ((x : Instruction) × (get_elem? code j ≡ some x) × StepStart name x)
    × ((k : ℕ) (y : Instruction) → k < j → get_elem? code k ≡ some y → ¬ StepStart name y)
Finds name i code (err e) = (e ≡ key_error name) × All (λ y. ¬ StepStart name y) code

-- No instruction before the one found starts the step.
not_before :
    (name : String) (x : Instruction) (code : List Instruction) (j : ℕ)
    → ¬ StepStart name x
    → ((k : ℕ) (y : Instruction) → k < j → get_elem? code k ≡ some y → ¬ StepStart name y)
    → (k : ℕ) (y : Instruction) → k < suc j
    → get_elem? (x ∷ code) k ≡ some y
    → ¬ StepStart name y
not_before name x code j other first zero y below at =
    let same : x ≡ y = cc at in subst (λ z. ¬ StepStart name z) same other
not_before name x code j other first (suc k) y below at = first k y (omega (arith, below)) at

-- One instruction more, that does not start the step.
later-Finds :
    (name : String) (i : ℕ) (x : Instruction) (code : List Instruction) (r : Result ℕ)
    → ¬ StepStart name x
    → Finds name (suc i) code r
    → Finds name i (x ∷ code) r
later-Finds name i x code (ok ip) other (j, same, found, first) =
    (suc j, omega (arith, same), found, not_before name x code j other first)
later-Finds name i x code (err e) other (same, none_found) = (same, (other, none_found))

-- `_find_step_ip` answers with the index of the first EMIT of `step_start` for the step, and raises
-- `KeyError` with the step's name exactly where there is none.
pub find_from-Finds :
    (name : String) (i : ℕ) (code : List Instruction) → Finds name i code (find_from name i code)
unfolding find_from
find_from-Finds name i [] = (refl, tt)
find_from-Finds name i (x ∷ code) = elim (Bool-cases (starts_step name x)) [
  | inl here ↦ rw here (
    0,
    omega arith,
    (x, refl, starts_step-StepStart name x here),
    (λ k y below at. absurd (omega (arith, below))),
  )
  | inr other ↦ rw other (
      later-Finds name i x code (find_from name (suc i) code) (no_StepStart name x other)
        (find_from-Finds name (suc i) code))
]
