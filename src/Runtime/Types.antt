-- ===== src/Runtime/Types.antt =====
-- What a run of a pipeline works with: stage bodies, callbacks, checkpoint stores and the services
-- of the standard library, over a type `W` for the world that coroutines act on.
use fluxio.Prelude.{ℕ, String, List, Option, Bool}
use fluxio.Prelude.Int.{ℤ}
use fluxio.Prelude.Dict.{Dict}
use fluxio.Errors.{Exn}
use fluxio.Context.{Pmap, Context}
use fluxio.Stage.{Send, Stage}
use fluxio.Bytecode.{CompiledPipeline}
use fluxio.Runtime.Act.{Act}

-- What a stage gives back.
pub data Outcome (M V : Type 0) : Type 0 where
  context : Context M → Outcome M V
  send : Send V → Outcome M V

-- An async generator: the chunks that it yields, and the exception that ends it, if one does.
pub record Stream (V : Type 0) : Type 0 where
  pub chunks : List V
  pub ending : Option Exn

-- The callable behind a stage: a plain function, a coroutine function (`async def`), or an async
-- generator.
pub data Body (M V W : Type 0) : Type 0 where
  function coroutine_function : (Context M → Act W (Outcome M V)) → Body M V W
  generator : (Context M → W → Stream V × W) → Body M V W

-- A pydantic model: whether `model_validate` accepts a snapshot.
abbrev pub Schema : Type 0 → Type 0
Schema V = Dict V → Bool

abbrev pub StageFunc : Type 0 → Type 0 → Type 0 → Type 0
StageFunc M V W = Stage (Body M V W) (Schema V)

-- A call of a callback's method, the run's id left out.
pub data Notice (M V : Type 0) : Type 0 where
  on_pipeline_start : Context M → Notice M V
  on_pipeline_end : Context M → ℕ → Notice M V
  on_step_start : String → Context M → Notice M V
  on_step_end : String → Context M → ℕ → Notice M V
  on_step_stream : String → V → Notice M V
  on_branch : List String → Notice M V
  on_route : String → String → Notice M V
  on_error : String → Exn → Notice M V
  on_checkpoint : String → ℤ → Notice M V

abbrev pub Callback : Type 0 → Type 0 → Type 0 → Type 0
Callback M V W = Notice M V → Act W (Unit {0})

-- store/base.py
pub record Checkpoint (V : Type 0) : Type 0 where
  pub run_id : String
  pub pipeline_version : String
  pub ip : ℤ
  pub ctx_snapshot : Dict V
  pub created_at : ℕ
  pub meta : Dict V

pub record CheckpointStore (V W : Type 0) : Type 0 where
  pub save : Checkpoint V → Act W (Unit {0})
  pub load : String → Act W (Option (Checkpoint V))
  pub delete : String → Act W (Unit {0})

abbrev pub Next : Type 0 → Type 0 → Type 0 → Type 0
Next M V W = StageFunc M V W → Context M → Act W (Outcome M V)

abbrev pub Middleware : Type 0 → Type 0 → Type 0 → Type 0
Middleware M V W = StageFunc M V W → Context M → Next M V W → Act W (Outcome M V)

-- Clocks in milliseconds, `asyncio.timeout`, and a list as a value of a context.
pub record Services (M V W : Type 0) : Type 0 where
  pub monotonic : W → ℕ
  pub time : W → ℕ
  pub with_timeout : ℕ → Act W (Outcome M V) → Act W (Outcome M V)
  pub of_list : List V → V

-- The arguments of `Interpreter.run`, and what the interpreter and its scheduler hold.
pub record Session (M V W : Type 0) : Type 0 where
  pub pmap : Pmap M V
  pub services : Services M V W
  pub middlewares : List (Middleware M V W)
  pub compiled : CompiledPipeline (Body M V W) (Schema V)
  pub run_id : String
  pub callbacks : List (Callback M V W)
  pub store : Option (CheckpointStore V W)
  pub durable : Bool
