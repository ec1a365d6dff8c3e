-- ===== src/Tests/Streams.antt =====
-- A stream of three chunks over a queue of size one.
use fluxio.Prelude.{
  ℕ, ◌≤◌, ◌<◌, List, [], ◌∷◌, ◌++◌, Option, none, some, true, ◌≡◌, ◌⊎◌, refl, length, arith,
}
use fluxio.Errors.{Exn, runtime_error}
use fluxio.Runtime.Streaming.{
  Streaming, start, passing_on, cancelling, returned, raised, Step, put_chunk, take_chunk, Reach,
  here, then_step,
}
use fluxio.Runtime.Streaming.Queue.{chunks_of}
use fluxio.Runtime.Streaming.Fifo.{Reach-in_order}
use fluxio.Runtime.Streaming.Progress.{work, IsOver, Reach-progress}
use fluxio.Runtime.Streaming.Deadlock.{Reach-IsDeadlock}

abbrev chunks : List ℕ
chunks = 1 ∷ 2 ∷ 3 ∷ []

abbrev no_failure : Option Exn
no_failure = none

-- One chunk has been put and taken.
abbrev taken : Streaming ℕ
taken = record (start (2 ∷ 3 ∷ []) none) { accumulated = 1 ∷ []; consumer = passing_on }

takes : Reach 1 true (start chunks none) taken
takes =
    then_step (then_step here (put_chunk 1 (2 ∷ 3 ∷ []) refl refl (omega arith) refl))
      (take_chunk 1 [] refl refl refl)

Reach-in_order_example :
    (length taken.queue ≤ 1)
    × (taken.accumulated ++ (chunks_of taken.queue ++ taken.pending) ≡ chunks)
    × (taken.consumer ≡ returned → (taken.accumulated ≡ chunks) × (no_failure ≡ none))
    × ((e : Exn) → taken.consumer ≡ raised e → (taken.accumulated ≡ chunks) × (no_failure ≡ some e))
Reach-in_order_example = Reach-in_order 1 true chunks none taken takes

Reach-progress_example :
    ((t : Streaming ℕ) → Step 1 true taken t → work t < work taken)
    × (IsOver taken.consumer ⊎ ((t : Streaming ℕ) × Step 1 true taken t))
Reach-progress_example = Reach-progress 1 true chunks none taken (omega arith) takes

Reach-IsDeadlock_example :
    (s : Streaming ℕ) × Reach 1 true (start chunks none) s
    × (s.consumer ≡ cancelling runtime_error)
    × ((t : Streaming ℕ) → Step 1 true s t → ⊥)
Reach-IsDeadlock_example = Reach-IsDeadlock true 0 chunks none runtime_error (omega arith)
