-- ===== src/Runtime/Streaming.antt =====
-- The tasks of `Executor._run_stream` in runtime/executor.py and of `Pipeline.stream` in
-- api/pipeline.py: a producer and a consumer over a bounded queue, interleaved in any order.
--
-- A chunk of `stream` is one that a stage hands to the collecting callback. A generator does not
-- suppress its cancellation; a consumer that is cancelled while it awaits its producer is left out.
pub mod Queue
pub mod Fifo
pub mod Progress
pub mod Deadlock
use fluxio.Prelude.{
  ℕ, ◌<◌, List, [], ◌∷◌, ◌++◌, Option, none, some, Bool, ◌≡◌, length, if◌then◌else◌,
}
use fluxio.Errors.{Exn, cancelled_error}

-- What stands in the queue.
pub data Item (V : Type 0) : Type 0 where
  chunk : V → Item V
  sentinel : Item V

-- The producer: in its `try` block; in its `finally` block, about to put the sentinel; or over. An
-- exception is the one that it ends with.
pub data Producer : Type 0 where
  producing : Producer
  closing : Option Exn → Producer
  finished : Option Exn → Producer

-- The consumer: at `await queue.get()`; passing a chunk on; at `await task` after the sentinel; at
-- `await task` after it failed and cancelled the producer; and the three ways in which it ends.
pub data Consumer : Type 0 where
  reading passing_on awaiting : Consumer
  cancelling : Exn → Consumer
  returned : Consumer
  raised abandoned : Exn → Consumer

pub record Streaming (V : Type 0) : Type 0 where
  pub pending : List V  -- the chunks still to come
  pub ending : Option Exn  -- what ends the generator after them
  pub queue : List (Item V)
  pub producer : Producer
  pub accumulated : List V
  pub consumer : Consumer

abbrev pub start : {V : Type 0} → List V → Option Exn → Streaming V
start chunks ending = record {
  pending = chunks;
  ending = ending;
  queue = [];
  producer = producing;
  accumulated = [];
  consumer = reading;
}

-- `task.cancel()`: the exception comes up where the producer waits. At the put of the sentinel
-- `stream` suppresses it, and `_run_stream` does not.
unfoldable pub cancel : Bool → Producer → Producer
cancel suppressed producing = closing (some cancelled_error)
cancel suppressed (closing r) = finished (if suppressed then r else some cancelled_error)
cancel suppressed (finished r) = finished r

-- One step of either task, over a queue of size `maxsize`.
pub data Step {V : Type 0} (maxsize : ℕ) (suppressed : Bool) (s t : Streaming V) : Type 0 where
  put_chunk :
      (v : V) (rest : List V)
      → s.producer ≡ producing
      → s.pending ≡ v ∷ rest
      → length s.queue < maxsize
      → t ≡ record s { pending = rest; queue = s.queue ++ chunk v ∷ [] }
      → Step maxsize suppressed s t
  generator_ends :
      s.producer ≡ producing
      → s.pending ≡ []
      → t ≡ record s { producer = closing s.ending }
      → Step maxsize suppressed s t
  put_sentinel :
      (r : Option Exn)
      → s.producer ≡ closing r
      → length s.queue < maxsize
      → t ≡ record s { queue = s.queue ++ sentinel ∷ []; producer = finished r }
      → Step maxsize suppressed s t
  take_chunk :
      (v : V) (q : List (Item V))
      → s.consumer ≡ reading
      → s.queue ≡ chunk v ∷ q
      → t ≡ record s { queue = q; accumulated = s.accumulated ++ v ∷ []; consumer = passing_on }
      → Step maxsize suppressed s t
  passed_on :
      s.consumer ≡ passing_on → t ≡ record s { consumer = reading } → Step maxsize suppressed s t
  take_sentinel :
      (q : List (Item V))
      → s.consumer ≡ reading
      → s.queue ≡ sentinel ∷ q
      → t ≡ record s { queue = q; consumer = awaiting }
      → Step maxsize suppressed s t
  -- the chunk's receiver raises, or closes the stream
  receiver_fails :
      (e : Exn)
      → s.consumer ≡ passing_on
      → t ≡ record s { consumer = cancelling e; producer = cancel suppressed s.producer }
      → Step maxsize suppressed s t
  -- the consumer is cancelled while it waits for an item
  interrupted :
      (e : Exn)
      → s.consumer ≡ reading
      → t ≡ record s { consumer = cancelling e; producer = cancel suppressed s.producer }
      → Step maxsize suppressed s t
  task_returned :
      s.consumer ≡ awaiting
      → s.producer ≡ finished none
      → t ≡ record s { consumer = returned }
      → Step maxsize suppressed s t
  task_raised :
      (e : Exn)
      → s.consumer ≡ awaiting
      → s.producer ≡ finished (some e)
      → t ≡ record s { consumer = raised e }
      → Step maxsize suppressed s t
  gives_up :
      (e : Exn) (r : Option Exn)
      → s.consumer ≡ cancelling e
      → s.producer ≡ finished r
      → t ≡ record s { consumer = abandoned e }
      → Step maxsize suppressed s t

pub data Reach {V : Type 0} (maxsize : ℕ) (suppressed : Bool) (s : Streaming V)
    : Streaming V → Type 0 where
  here : Reach maxsize suppressed s s
  then_step :
      {t u : Streaming V}
      → Reach maxsize suppressed s t
      → Step maxsize suppressed t u
      → Reach maxsize suppressed s u

module _ {V : Type 0} {maxsize : ℕ} {suppressed : Bool} {s : Streaming V} where
  pub Reach-Reach :
      {t u : Streaming V}
      → Reach maxsize suppressed s t
      → Reach maxsize suppressed t u
      → Reach maxsize suppressed s u
  Reach-Reach r here = r
  Reach-Reach r (then_step r' st) = then_step (Reach-Reach r r') st
