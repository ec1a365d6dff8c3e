-- ===== src/Runtime/Streaming/Queue.antt =====
-- What is known of the queue of a stream in each state of its two tasks.
use fluxio.Prelude.{
  ℕ, ◌≤◌, List, [], ◌∷◌, ◌++◌, Option, none, some, Bool, true, false, ◌≡◌, refl, ap, length,
}
use fluxio.Errors.{Exn}
use fluxio.Runtime.Streaming.{
  Item, chunk, sentinel, Producer, producing, closing, finished, Consumer, reading, passing_on,
  awaiting, cancelling, returned, raised, abandoned, Streaming,
}

module _ {V : Type 0} where
  -- The chunks in a queue.
  unfoldable pub chunks_of : List (Item V) → List V
  chunks_of [] = []
  chunks_of (chunk v ∷ q) = v ∷ chunks_of q
  chunks_of (sentinel ∷ q) = chunks_of q

  unfoldable pub has_sentinel : List (Item V) → Bool
  has_sentinel [] = false
  has_sentinel (chunk v ∷ q) = has_sentinel q
  has_sentinel (sentinel ∷ q) = true

  -- The sentinel is the last item, and the only one.
  unfoldable pub closes : List (Item V) → Bool
  closes [] = false
  closes (chunk v ∷ q) = closes q
  closes (sentinel ∷ []) = true
  closes (sentinel ∷ i ∷ q) = false

  pub chunks_of-append : (q q' : List (Item V)) → chunks_of (q ++ q') ≡ chunks_of q ++ chunks_of q'
  unfolding chunks_of
  chunks_of-append [] q' = refl
  chunks_of-append (chunk v ∷ q) q' = ap (λ l. v ∷ l) (chunks_of-append q q')
  chunks_of-append (sentinel ∷ q) q' = chunks_of-append q q'

  pub has_sentinel-snoc :
      (q : List (Item V)) (v : V) → has_sentinel (q ++ chunk v ∷ []) ≡ has_sentinel q
  unfolding has_sentinel
  has_sentinel-snoc [] v = refl
  has_sentinel-snoc (chunk w ∷ q) v = has_sentinel-snoc q v
  has_sentinel-snoc (sentinel ∷ q) v = refl

  pub closes-snoc :
      (q : List (Item V)) → has_sentinel q ≡ false → closes (q ++ sentinel ∷ []) ≡ true
  unfolding closes has_sentinel
  closes-snoc [] h = refl
  closes-snoc (chunk w ∷ q) h = closes-snoc q h
  closes-snoc (sentinel ∷ q) h = cc

  pub closes-sentinel : (q : List (Item V)) → closes (sentinel ∷ q) ≡ true → q ≡ []
  unfolding closes
  closes-sentinel [] h = refl
  closes-sentinel (i ∷ q) h = cc

  -- What is known of the queue, what is pending and what ends the generator, by the states of the
  -- producer and of the consumer.
  abbrev pub Flows : Producer → List (Item V) → List V → Option Exn → Type 0
  Flows producing q pending ending = has_sentinel q ≡ false
  Flows (closing r) q pending ending = (has_sentinel q ≡ false) × (pending ≡ []) × (r ≡ ending)
  Flows (finished r) q pending ending = (closes q ≡ true) × (pending ≡ []) × (r ≡ ending)

  abbrev pub Drained : Producer → List (Item V) → List V → Option Exn → Type 0
  Drained p q pending ending = (q ≡ []) × (pending ≡ []) × (p ≡ finished ending)

  abbrev pub Shape : Consumer → Producer → List (Item V) → List V → Option Exn → Type 0
  Shape reading p q pending ending = Flows p q pending ending
  Shape passing_on p q pending ending = Flows p q pending ending
  Shape awaiting p q pending ending = Drained p q pending ending
  Shape (cancelling e) p q pending ending = Unit
  Shape returned p q pending ending = Drained p q pending ending × (ending ≡ none)
  Shape (raised e) p q pending ending = Drained p q pending ending × (ending ≡ some e)
  Shape (abandoned e) p q pending ending = Unit

  pub record Inv (maxsize : ℕ) (chunks : List V) (s : Streaming V) : Type 0 where
    pub in_order : s.accumulated ++ (chunks_of s.queue ++ s.pending) ≡ chunks
    pub bounded : length s.queue ≤ maxsize
    pub shape : Shape s.consumer s.producer s.queue s.pending s.ending
