-- ===== src/Runtime/Streaming/Fifo.antt =====
-- What the queue of a stream keeps: order, bound, and nothing lost.
use mathlib.Core.List.{append_assoc, append-nil}
use fluxio.Prelude.{
  ℕ, ◌≤◌, List, [], ◌∷◌, ◌++◌, Option, none, some, Bool, ◌≡◌, refl, ap, sym, ◌∙◌, length,
  length-append, arith,
}
use fluxio.Errors.{Exn}
use fluxio.Runtime.Streaming.{
  Item, chunk, sentinel, Producer, producing, closing, finished, Consumer, reading, passing_on,
  awaiting, cancelling, returned, raised, abandoned, Streaming, start, Step, put_chunk,
  generator_ends, put_sentinel, take_chunk, passed_on, take_sentinel, receiver_fails, interrupted,
  task_returned, task_raised, gives_up, Reach, here, then_step,
}
use fluxio.Runtime.Streaming.Queue.{
  chunks_of, has_sentinel, closes, Flows, Drained, Shape, Inv, chunks_of-append, has_sentinel-snoc,
  closes-snoc, closes-sentinel,
}

module _ {V : Type 0} where
  module _ (maxsize : ℕ) (suppressed : Bool) (chunks : List V) where
    Step-in_order :
        (s t : Streaming V)
        → Step maxsize suppressed s t
        → Inv maxsize chunks s
        → t.accumulated ++ (chunks_of t.queue ++ t.pending) ≡ chunks
    unfolding chunks_of
    Step-in_order s t (put_chunk v rest p e room same) h = ground (
      arith,
      h.in_order,
      chunks_of-append s.queue (chunk v ∷ []),
      append_assoc (chunks_of s.queue) (v ∷ []) rest,
    )
    Step-in_order s t (generator_ends p e same) h = ground (arith, h.in_order)
    Step-in_order s t (put_sentinel r p room same) h = ground (
      arith,
      h.in_order,
      chunks_of-append s.queue (sentinel ∷ []),
      append-nil (chunks_of s.queue),
    )
    Step-in_order s t (take_chunk v q c e same) h =
        ground (arith, h.in_order, append_assoc s.accumulated (v ∷ []) (chunks_of q ++ s.pending))
    Step-in_order s t (passed_on c same) h = ground (arith, h.in_order)
    Step-in_order s t (take_sentinel q c e same) h = ground (arith, h.in_order)
    Step-in_order s t (receiver_fails e c same) h = ground (arith, h.in_order)
    Step-in_order s t (interrupted e c same) h = ground (arith, h.in_order)
    Step-in_order s t (task_returned c p same) h = ground (arith, h.in_order)
    Step-in_order s t (task_raised e c p same) h = ground (arith, h.in_order)
    Step-in_order s t (gives_up e r c p same) h = ground (arith, h.in_order)

    Step-bounded :
        (s t : Streaming V)
        → Step maxsize suppressed s t
        → Inv maxsize chunks s
        → length t.queue ≤ maxsize
    Step-bounded s t (put_chunk v rest p e room same) h =
        ground (arith, length-append s.queue (chunk v ∷ []))
    Step-bounded s t (put_sentinel r p room same) h =
        ground (arith, length-append s.queue (sentinel ∷ []))
    Step-bounded s t (take_chunk v q c e same) h = ground (arith, h.bounded)
    Step-bounded s t (take_sentinel q c e same) h = ground (arith, h.bounded)
    Step-bounded s t (generator_ends p e same) h = ground (arith, h.bounded)
    Step-bounded s t (passed_on c same) h = ground (arith, h.bounded)
    Step-bounded s t (receiver_fails e c same) h = ground (arith, h.bounded)
    Step-bounded s t (interrupted e c same) h = ground (arith, h.bounded)
    Step-bounded s t (task_returned c p same) h = ground (arith, h.bounded)
    Step-bounded s t (task_raised e c p same) h = ground (arith, h.bounded)
    Step-bounded s t (gives_up e r c p same) h = ground (arith, h.bounded)

    Shape-put_chunk :
        (k : Consumer) (q : List (Item V)) (v : V) (rest : List V) (ending : Option Exn)
        → Shape k producing q (v ∷ rest) ending
        → Shape k producing (q ++ chunk v ∷ []) rest ending
    Shape-put_chunk reading q v rest ending h = has_sentinel-snoc q v ∙ h
    Shape-put_chunk passing_on q v rest ending h = has_sentinel-snoc q v ∙ h
    Shape-put_chunk awaiting q v rest ending h = cc
    Shape-put_chunk (cancelling e) q v rest ending h = tt
    Shape-put_chunk returned q v rest ending h = cc
    Shape-put_chunk (raised e) q v rest ending h = cc
    Shape-put_chunk (abandoned e) q v rest ending h = tt

    Shape-put_sentinel :
        (k : Consumer) (q : List (Item V)) (r : Option Exn) (pending : List V) (ending : Option Exn)
        → Shape k (closing r) q pending ending
        → Shape k (finished r) (q ++ sentinel ∷ []) pending ending
    Shape-put_sentinel reading q r pending ending h = (closes-snoc q h.0, h.1, h.2)
    Shape-put_sentinel passing_on q r pending ending h = (closes-snoc q h.0, h.1, h.2)
    Shape-put_sentinel awaiting q r pending ending h = absurd (cc)
    Shape-put_sentinel (cancelling e) q r pending ending h = tt
    Shape-put_sentinel returned q r pending ending h = absurd (cc)
    Shape-put_sentinel (raised e) q r pending ending h = absurd (cc)
    Shape-put_sentinel (abandoned e) q r pending ending h = tt

    Shape-generator_ends :
        (k : Consumer) (q : List (Item V)) (ending : Option Exn)
        → Shape k producing q [] ending
        → Shape k (closing ending) q [] ending
    Shape-generator_ends reading q ending h = (h, refl, refl)
    Shape-generator_ends passing_on q ending h = (h, refl, refl)
    Shape-generator_ends awaiting q ending h = absurd (cc)
    Shape-generator_ends (cancelling e) q ending h = tt
    Shape-generator_ends returned q ending h = absurd (cc)
    Shape-generator_ends (raised e) q ending h = absurd (cc)
    Shape-generator_ends (abandoned e) q ending h = tt

    Flows-take_chunk :
        (p : Producer) (v : V) (q : List (Item V)) (pending : List V) (ending : Option Exn)
        → Flows p (chunk v ∷ q) pending ending
        → Flows p q pending ending
    unfolding has_sentinel closes
    Flows-take_chunk producing v q pending ending h = h
    Flows-take_chunk (closing r) v q pending ending h = h
    Flows-take_chunk (finished r) v q pending ending h = h

    Flows-take_sentinel :
        (p : Producer) (q : List (Item V)) (pending : List V) (ending : Option Exn)
        → Flows p (sentinel ∷ q) pending ending
        → Drained p q pending ending
    unfolding has_sentinel
    Flows-take_sentinel producing q pending ending h = cc
    Flows-take_sentinel (closing r) q pending ending h = cc
    Flows-take_sentinel (finished r) q pending ending h =
        (closes-sentinel q h.0, h.1, ap finished h.2)

    Step-Shape :
        (s t : Streaming V)
        → Step maxsize suppressed s t
        → Inv maxsize chunks s
        → Shape t.consumer t.producer t.queue t.pending t.ending
    Step-Shape s t (put_chunk v rest p e room same) h =
        rw same (rw p (Shape-put_chunk s.consumer s.queue v rest s.ending (rw (p, e) at h.shape)))
    Step-Shape s t (put_sentinel r p room same) h =
        rw same (Shape-put_sentinel s.consumer s.queue r s.pending s.ending (rw p at h.shape))
    Step-Shape s t (take_chunk v q c e same) h =
        rw same (Flows-take_chunk s.producer v q s.pending s.ending (rw (c, e) at h.shape))
    Step-Shape s t (take_sentinel q c e same) h =
        rw same (Flows-take_sentinel s.producer q s.pending s.ending (rw (c, e) at h.shape))
    Step-Shape s t (generator_ends p e same) h =
        rw same (rw e (Shape-generator_ends s.consumer s.queue s.ending (rw (p, e) at h.shape)))
    Step-Shape s t (passed_on c same) h = rw same (rw c at h.shape)
    Step-Shape s t (receiver_fails e c same) h = rw same tt
    Step-Shape s t (interrupted e c same) h = rw same tt
    Step-Shape s t (task_returned c p same) h =
        let d = rw c at h.shape in rw same (d, ground (arith, d.2))
    Step-Shape s t (task_raised e c p same) h =
        let d = rw c at h.shape in rw same (d, ground (arith, d.2))
    Step-Shape s t (gives_up e r c p same) h = rw same tt

    Step-Inv :
        (s t : Streaming V)
        → Step maxsize suppressed s t
        → Inv maxsize chunks s
        → Inv maxsize chunks t
    Step-Inv s t st h = record {
      in_order = Step-in_order s t st h;
      bounded = Step-bounded s t st h;
      shape = Step-Shape s t st h;
    }

    pub Reach-Inv :
        (ending : Option Exn) (s : Streaming V)
        → Reach maxsize suppressed (start chunks ending) s
        → Inv maxsize chunks s
    unfolding chunks_of has_sentinel
    Reach-Inv ending s here = record { in_order = refl; bounded = omega arith; shape = refl }
    Reach-Inv ending s (then_step {t = t} r st) = Step-Inv t s st (Reach-Inv ending t r)

  Step-ending :
      (maxsize : ℕ) (suppressed : Bool) (s t : Streaming V)
      → Step maxsize suppressed s t
      → t.ending ≡ s.ending
  Step-ending maxsize suppressed s t (put_chunk v rest p e room same) = cc
  Step-ending maxsize suppressed s t (put_sentinel r p room same) = cc
  Step-ending maxsize suppressed s t (take_chunk v q c e same) = cc
  Step-ending maxsize suppressed s t (take_sentinel q c e same) = cc
  Step-ending maxsize suppressed s t (generator_ends p e same) = cc
  Step-ending maxsize suppressed s t (passed_on c same) = cc
  Step-ending maxsize suppressed s t (receiver_fails e c same) = cc
  Step-ending maxsize suppressed s t (interrupted e c same) = cc
  Step-ending maxsize suppressed s t (task_returned c p same) = cc
  Step-ending maxsize suppressed s t (task_raised e c p same) = cc
  Step-ending maxsize suppressed s t (gives_up e r c p same) = cc

  Reach-ending :
      (maxsize : ℕ) (suppressed : Bool) (s t : Streaming V)
      → Reach maxsize suppressed s t
      → t.ending ≡ s.ending
  Reach-ending maxsize suppressed s t here = refl
  Reach-ending maxsize suppressed s t (then_step {t = u} r st) =
      Step-ending maxsize suppressed u t st ∙ Reach-ending maxsize suppressed s u r

  all_taken :
      (acc : List V) (q : List (Item V)) (pending : List V) {chunks : List V}
      → acc ++ (chunks_of q ++ pending) ≡ chunks
      → q ≡ []
      → pending ≡ []
      → acc ≡ chunks
  unfolding chunks_of
  all_taken acc q pending h e e' = ground (arith, append-nil acc)

  -- However the two tasks interleave, the queue never holds more than `maxsize` items; what the
  -- consumer has taken, what is queued and what is still to come make up the chunks in their order;
  -- the stream returns only where the generator ends with no exception, and raises the generator's
  -- exception only where it ends with that one, in both cases after all the chunks.
  pub Reach-in_order :
      (maxsize : ℕ) (suppressed : Bool) (chunks : List V) (ending : Option Exn) (s : Streaming V)
      → Reach maxsize suppressed (start chunks ending) s
      → (length s.queue ≤ maxsize)
        × (s.accumulated ++ (chunks_of s.queue ++ s.pending) ≡ chunks)
        × (s.consumer ≡ returned → (s.accumulated ≡ chunks) × (ending ≡ none))
        × ((e : Exn) → s.consumer ≡ raised e → (s.accumulated ≡ chunks) × (ending ≡ some e))
  Reach-in_order maxsize suppressed chunks ending s r =
      let inv = Reach-Inv maxsize suppressed chunks ending s r in
      let kept = Reach-ending maxsize suppressed (start chunks ending) s r in
      (
        inv.bounded,
        inv.in_order,
        (λ c.
            let d = rw c at inv.shape in
            (all_taken s.accumulated s.queue s.pending inv.in_order d.0.0 d.0.1, sym kept ∙ d.1)),
        (λ e c.
            let d = rw c at inv.shape in
            (all_taken s.accumulated s.queue s.pending inv.in_order d.0.0 d.0.1, sym kept ∙ d.1)),
      )
