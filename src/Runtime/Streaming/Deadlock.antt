-- ===== src/Runtime/Streaming/Deadlock.antt =====
-- How a stream that is given up can hang: the producer waits for room in a queue that nobody reads.
use mathlib.Core.List.{append_assoc, append-nil}
use fluxio.Prelude.{
  ℕ, zero, suc, ◌+◌, ◌≤◌, ◌<◌, List, [], ◌∷◌, ◌++◌, map, Option, some, Bool, ◌≡◌, refl, ap, sym,
  subst, length, length-append, arith,
}
use fluxio.Errors.{Exn, cancelled_error}
use fluxio.Runtime.Streaming.{
  chunk, closing, cancelling, Streaming, start, cancel, Step, put_chunk, generator_ends,
  put_sentinel, take_chunk, passed_on, take_sentinel, receiver_fails, interrupted, task_returned,
  task_raised, gives_up, Reach, here, then_step, Reach-Reach,
}

module _ {V : Type 0} (maxsize : ℕ) (suppressed : Bool) where
  -- The consumer waits for the producer, and the producer for room.
  pub record IsDeadlock (e : Exn) (s : Streaming V) : Type 0 where
    pub waits : s.consumer ≡ cancelling e
    pub blocked : s.producer ≡ closing (some cancelled_error)
    pub full : length s.queue ≡ maxsize

  IsDeadlock-Step : (e : Exn) (s t : Streaming V) → IsDeadlock e s → Step maxsize suppressed s t → ⊥
  IsDeadlock-Step e s t d (put_chunk v rest p q room same) = cc (p, d.blocked)
  IsDeadlock-Step e s t d (put_sentinel r p room same) = omega (arith, d.full)
  IsDeadlock-Step e s t d (take_chunk v q c i same) = cc (c, d.waits)
  IsDeadlock-Step e s t d (take_sentinel q c i same) = cc (c, d.waits)
  IsDeadlock-Step e s t d (generator_ends p q same) = cc (p, d.blocked)
  IsDeadlock-Step e s t d (passed_on c same) = cc (c, d.waits)
  IsDeadlock-Step e s t d (receiver_fails x c same) = cc (c, d.waits)
  IsDeadlock-Step e s t d (interrupted x c same) = cc (c, d.waits)
  IsDeadlock-Step e s t d (task_returned c p same) = cc (c, d.waits)
  IsDeadlock-Step e s t d (task_raised x c p same) = cc (c, d.waits)
  IsDeadlock-Step e s t d (gives_up x r c p same) = cc (p, d.blocked)

  abbrev filled : List V → List V → Option Exn → Streaming V
  filled xs ys ending = record (start ys ending) { queue = map chunk xs }

  length-map : (xs : List V) → length (map (λ (v : V). chunk v) xs) ≡ length xs
  length-map [] = refl
  length-map (x ∷ xs) = ap suc (length-map xs)

  map-snoc :
      (xs : List V) (v : V)
      → map (λ (w : V). chunk w) (xs ++ v ∷ []) ≡ map (λ (w : V). chunk w) xs ++ chunk v ∷ []
  map-snoc [] v = refl
  map-snoc (x ∷ xs) v = ap (λ q. chunk x ∷ q) (map-snoc xs v)

  -- While there is room, the producer may run ahead.
  fills :
      (xs ys zs : List V) (ending : Option Exn)
      → length xs + length ys ≤ maxsize
      → Reach maxsize suppressed (filled xs (ys ++ zs) ending) (filled (xs ++ ys) zs ending)
  fills xs [] zs ending room =
      subst (λ l. Reach maxsize suppressed (filled xs zs ending) (filled l zs ending))
        (sym (append-nil xs)) here
  fills xs (y ∷ ys) zs ending room =
      let put : Step maxsize suppressed (filled xs (y ∷ (ys ++ zs)) ending)
          (filled (xs ++ y ∷ []) (ys ++ zs) ending) =
        put_chunk y (ys ++ zs) refl refl (omega (arith, length-map xs))
          (ap (λ q. record (start (ys ++ zs) ending) { queue = q }) (map-snoc xs y)) in
      let rest = fills (xs ++ y ∷ []) ys zs ending (omega (arith, length-append xs (y ∷ []))) in
      subst (λ l. Reach maxsize suppressed (filled xs (y ∷ (ys ++ zs)) ending) (filled l zs ending))
        (append_assoc xs (y ∷ []) ys) (Reach-Reach (then_step here put) rest)

-- A list that is longer than `n` at its `n`-th element.
split_at {ℓ} :
    {A : Type ℓ} (n : ℕ) (l : List A)
    → n < length l
    → (xs : List A) × (y : A) × (zs : List A) × (l ≡ xs ++ y ∷ zs) × (length xs ≡ n)
split_at n [] h = absurd (omega arith)
split_at zero (x ∷ l) h = ([], x, l, refl, refl)
split_at (suc n) (x ∷ l) h =
    let (xs, y, zs, e, len) = split_at n l (omega arith) in
    (x ∷ xs, y, zs, ap (λ t. x ∷ t) e, ap suc len)

module _ {V : Type 0} (suppressed : Bool) (m : ℕ) where
  -- The first chunk is taken from a full queue, another takes its place, and the receiver fails.
  hung : List V → V → V → List V → Option Exn → Exn → Streaming V
  hung xs x y zs ending e = record {
    pending = zs;
    ending = ending;
    queue = map (λ v. chunk v) xs ++ chunk y ∷ [];
    producer = closing (some cancelled_error);
    accumulated = x ∷ [];
    consumer = cancelling e;
  }

  hangs :
      (xs : List V) (x y : V) (zs : List V) (ending : Option Exn) (e : Exn)
      → length xs ≡ m
      → Reach (suc m) suppressed (start (x ∷ (xs ++ y ∷ zs)) ending) (hung xs x y zs ending e)
  unfolding hung cancel
  hangs xs x y zs ending e len =
      let full = fills (suc m) suppressed [] (x ∷ xs) (y ∷ zs) ending (omega (arith, len)) in
      then_step
        (then_step (then_step full (take_chunk x (map (λ v. chunk v) xs) refl refl refl))
          (put_chunk y zs refl refl (omega (arith, length-map (suc m) suppressed xs, len)) refl))
        (receiver_fails e refl refl)

  -- Where a generator yields more chunks than the queue holds, there is an order of the steps of the
  -- two tasks that ends in a deadlock: the receiver of a chunk raises, or the stream is closed, while
  -- the queue is full, the producer is cancelled and waits in its `finally` block for room for the
  -- sentinel, and the consumer waits for the producer; no step is possible from there. This is so
  -- whether or not the cancellation is suppressed at the put of the sentinel.
  pub Reach-IsDeadlock :
      (chunks : List V) (ending : Option Exn) (e : Exn)
      → suc m < length chunks
      → (s : Streaming V) × Reach (suc m) suppressed (start chunks ending) s
        × (s.consumer ≡ cancelling e)
        × ((t : Streaming V) → Step (suc m) suppressed s t → ⊥)
  unfolding hung
  Reach-IsDeadlock [] ending e h = absurd (omega arith)
  Reach-IsDeadlock (x ∷ chunks) ending e h =
      let (xs, y, zs, same, len) = split_at m chunks (omega arith) in
      let d : IsDeadlock (suc m) suppressed e (hung xs x y zs ending e) = record {
        waits = refl;
        blocked = refl;
        full = omega (
          arith,
          length-append (map (λ (v : V). chunk v) xs) (chunk y ∷ []),
          length-map (suc m) suppressed xs,
          len,
        );
      } in
      (
        hung xs x y zs ending e,
        subst (λ l. Reach (suc m) suppressed (start (x ∷ l) ending) (hung xs x y zs ending e))
            (sym same) (hangs xs x y zs ending e len),
        refl,
        (λ t st. IsDeadlock-Step (suc m) suppressed e (hung xs x y zs ending e) t d st),
      )
