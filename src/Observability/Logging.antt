-- ===== src/Observability/Logging.antt =====
-- observability/logging.py, `LoggingCallback`: the record that each notice writes to the logger.
--
-- The logger of the package `logging` is a parameter, which takes a level, a format and its
-- arguments.
use fluxio.Prelude.{ℕ, String, List, [], ◌∷◌, Option, none, some, Bool, if◌then◌else◌}
use fluxio.Prelude.Int.{ℤ}
use fluxio.Errors.{Exn}
use fluxio.Runtime.Act.{Act, pure}
use fluxio.Runtime.Types.{
  Notice, on_pipeline_start, on_pipeline_end, on_step_start, on_step_end, on_step_stream, on_branch,
  on_route, on_error, on_checkpoint, Callback,
}

pub data Level : Type 0 where
  debug info error : Level

-- An argument of a format.
pub data Arg (V : Type 0) : Type 0 where
  text : String → Arg V
  number : ℕ → Arg V
  index : ℤ → Arg V
  names : List String → Arg V
  value : V → Arg V
  exception : Exn → Arg V

pub record Message (V : Type 0) : Type 0 where
  pub level : Level
  pub format : String
  pub args : List (Arg V)

abbrev message : {V : Type 0} → Level → String → List (Arg V) → Option (Message V)
message level format args = some (record { level = level; format = format; args = args })

module _ {M V : Type 0} where
  -- The methods of the class, one for each kind of notice.
  unfoldable pub message_of : Bool → String → Notice M V → Option (Message V)
  message_of chunk_logging run_id (on_pipeline_start ctx) =
      message info "pipeline_start run_id=%s" (text run_id ∷ [])
  message_of chunk_logging run_id (on_pipeline_end ctx duration_ms) =
      message info "pipeline_end run_id=%s duration_ms=%d" (text run_id ∷ number duration_ms ∷ [])
  message_of chunk_logging run_id (on_step_start step ctx) =
      message debug "step_start run_id=%s step=%s" (text run_id ∷ text step ∷ [])
  message_of chunk_logging run_id (on_step_end step ctx duration_ms) =
      message debug "step_end run_id=%s step=%s duration_ms=%d"
        (text run_id ∷ text step ∷ number duration_ms ∷ [])
  message_of chunk_logging run_id (on_step_stream step chunk) =
      if chunk_logging
      then message debug "step_stream run_id=%s step=%s chunk=%r"
          (text run_id ∷ text step ∷ value chunk ∷ [])
      else none
  message_of chunk_logging run_id (on_branch branches) =
      message debug "branch run_id=%s branches=%s" (text run_id ∷ names branches ∷ [])
  message_of chunk_logging run_id (on_route step route) =
      message debug "route run_id=%s step=%s route=%s" (text run_id ∷ text step ∷ text route ∷ [])
  message_of chunk_logging run_id (on_error step raised) =
      message error "error run_id=%s step=%s: %r" (text run_id ∷ text step ∷ exception raised ∷ [])
  message_of chunk_logging run_id (on_checkpoint step ip) =
      message debug "checkpoint run_id=%s step=%s ip=%d" (text run_id ∷ text step ∷ index ip ∷ [])

module _ {M V W : Type 0} (logger : Message V → Act W (Unit {0})) where
  -- `LoggingCallback(chunk_logging)` for a run
  unfoldable pub log_notice : Bool → String → Callback M V W
  unfolding message_of
  log_notice chunk_logging run_id notice = elim (message_of chunk_logging run_id notice) [
    | none ↦ pure tt
    | some m ↦ logger m
  ]
