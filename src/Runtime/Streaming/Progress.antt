-- ===== src/Runtime/Streaming/Progress.antt =====
-- A stream that nobody cancels comes to its end.
use fluxio.Prelude.{
  ℕ, ◌+◌, ◌*◌, ◌≤◌, ◌<◌, List, [], ◌∷◌, Option, none, some, Bool, ◌≡◌, refl, ◌⊎◌, inl, inr, length,
  length-append, arith,
}
use fluxio.Errors.{Exn}
use fluxio.Runtime.Streaming.{
  Item, chunk, sentinel, Producer, producing, closing, finished, Consumer, reading, passing_on,
  awaiting, cancelling, returned, raised, abandoned, Streaming, start, cancel, Step, put_chunk,
  generator_ends, put_sentinel, take_chunk, passed_on, take_sentinel, receiver_fails, interrupted,
  task_returned, task_raised, gives_up, Reach,
}
use fluxio.Runtime.Streaming.Queue.{Flows, Shape, closes}
use fluxio.Runtime.Streaming.Fifo.{Reach-Inv}

-- What is left to do.
abbrev pub producer_work : Producer → ℕ
producer_work producing = 5
producer_work (closing r) = 4
producer_work (finished r) = 0

abbrev pub consumer_work : Consumer → ℕ
consumer_work passing_on = 4
consumer_work reading = 3
consumer_work awaiting = 2
consumer_work (cancelling e) = 2
consumer_work returned = 0
consumer_work (raised e) = 0
consumer_work (abandoned e) = 0

cancel-work :
    (suppressed : Bool) (p : Producer) → producer_work (cancel suppressed p) ≤ producer_work p
unfolding cancel
cancel-work suppressed producing = omega arith
cancel-work suppressed (closing r) = omega arith
cancel-work suppressed (finished r) = omega arith

-- The consumer is over, or is about to give the stream up.
abbrev pub IsOver : Consumer → Type 0
IsOver returned = Unit
IsOver (raised e) = Unit
IsOver (abandoned e) = Unit
IsOver (cancelling e) = Unit
IsOver _ = ⊥

module _ {V : Type 0} where
  abbrev pub work : Streaming V → ℕ
  work s =
      3 * length s.pending
      + (2 * length s.queue + (producer_work s.producer + consumer_work s.consumer))

  module _ (maxsize : ℕ) (suppressed : Bool) where
    Step-work : (s t : Streaming V) → Step maxsize suppressed s t → work t < work s
    Step-work s t (put_chunk v rest p e room same) =
        ground (arith, length-append s.queue (chunk v ∷ []))
    Step-work s t (put_sentinel r p room same) =
        ground (arith, length-append {A = Item V} s.queue (sentinel ∷ []))
    Step-work s t (take_chunk v q c e same) = ground arith
    Step-work s t (take_sentinel q c e same) = ground arith
    Step-work s t (generator_ends p e same) = ground arith
    Step-work s t (passed_on c same) = ground arith
    Step-work s t (receiver_fails e c same) = ground (arith, cancel-work suppressed s.producer)
    Step-work s t (interrupted e c same) = ground (arith, cancel-work suppressed s.producer)
    Step-work s t (task_returned c p same) = ground arith
    Step-work s t (task_raised e c p same) = ground arith
    Step-work s t (gives_up e r c p same) = ground arith

    abbrev CanStep : Streaming V → Type 0
    CanStep s = (t : Streaming V) × Step maxsize suppressed s t

    -- With room in the queue the producer goes on.
    produces :
        (p : Producer) (pending : List V) (s : Streaming V)
        → s.producer ≡ p
        → s.pending ≡ pending
        → length s.queue < maxsize
        → CanStep s ⊎ ((r : Option Exn) × (p ≡ finished r))
    produces producing (v ∷ rest) s p e room = inl (_, put_chunk v rest p e room refl)
    produces producing [] s p e room = inl (_, generator_ends p e refl)
    produces (closing r) pending s p e room = inl (_, put_sentinel r p room refl)
    produces (finished r) pending s p e room = inr (r, refl)

    not_closed :
        (r : Option Exn) {pending : List V} {ending : Option Exn}
        → Flows (finished r) [] pending ending
        → ⊥
    unfolding closes
    not_closed r h = cc

    reads :
        (q : List (Item V)) (s : Streaming V)
        → 0 < maxsize
        → s.consumer ≡ reading
        → s.queue ≡ q
        → Flows s.producer q s.pending s.ending
        → CanStep s
    unfolding closes
    reads (chunk v ∷ q) s some_room c e h = (_, take_chunk v q c e refl)
    reads (sentinel ∷ q) s some_room c e h = (_, take_sentinel q c e refl)
    reads [] s some_room c e h = elim (produces s.producer s.pending s refl refl (ground arith)) [
      | inl st ↦ st
      | inr (r, over) ↦ absurd (not_closed r (rw over at h))
    ]

    awaits :
        (p : Option Exn) (s : Streaming V)
        → s.consumer ≡ awaiting
        → s.producer ≡ finished p
        → CanStep s
    awaits none s c p = (_, task_returned c p refl)
    awaits (some e) s c p = (_, task_raised e c p refl)

    goes_on :
        (k : Consumer) (s : Streaming V)
        → 0 < maxsize
        → s.consumer ≡ k
        → Shape k s.producer s.queue s.pending s.ending
        → IsOver k ⊎ CanStep s
    goes_on reading s some_room c h = inr (reads s.queue s some_room c refl h)
    goes_on passing_on s some_room c h = inr (_, passed_on c refl)
    goes_on awaiting s some_room c h = inr (awaits s.ending s c h.2)
    goes_on (cancelling e) s some_room c h = inl tt
    goes_on returned s some_room c h = inl tt
    goes_on (raised e) s some_room c h = inl tt
    goes_on (abandoned e) s some_room c h = inl tt

  -- Every step of either task leaves less to do, so every interleaving of a stream is finite; and as
  -- long as the consumer has neither ended nor cancelled the producer, one of the two tasks can step:
  -- over a queue with room for an item, no stream that is read to its end comes to a standstill.
  pub Reach-progress :
      (maxsize : ℕ) (suppressed : Bool) (chunks : List V) (ending : Option Exn) (s : Streaming V)
      → 0 < maxsize
      → Reach maxsize suppressed (start chunks ending) s
      → ((t : Streaming V) → Step maxsize suppressed s t → work t < work s)
        × (IsOver s.consumer ⊎ ((t : Streaming V) × Step maxsize suppressed s t))
  Reach-progress maxsize suppressed chunks ending s some_room r =
      let inv = Reach-Inv maxsize suppressed chunks ending s r in
      (
        Step-work maxsize suppressed s,
        goes_on maxsize suppressed s.consumer s some_room refl inv.shape,
      )
