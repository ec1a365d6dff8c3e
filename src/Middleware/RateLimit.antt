-- ===== src/Middleware/RateLimit.antt =====
-- runtime/middleware.py, `RateLimitMiddleware`: a sliding window of one second.
--
-- Times are in milliseconds, and the rate is a fraction: `rps` stands for `rate / per`.
pub mod Window
use fluxio.Prelude.{
  ℕ, zero, suc, ◌+◌, ◌-◌, ◌*◌, List, [], ◌∷◌, ◌++◌, Option, none, some, Bool, true, false, leb, ltb,
  length, if◌then◌else◌,
}

pub record Rate : Type 0 where
  pub rate : ℕ
  pub per : ℕ

abbrev pub second : ℕ
second = 1000

-- `while self._window and now - self._window[0] >= 1.0: self._window.popleft()`
unfoldable pub prune : ℕ → List ℕ → List ℕ
prune now [] = []
prune now (t ∷ window) =
    let rest = prune now window in if leb second (now - t) then rest else t ∷ window

-- `len(self._window) < self.rps`
unfoldable pub has_room : Rate → List ℕ → Bool
has_room r window = ltb (length window * r.per) r.rate

abbrev max_ℕ : ℕ → ℕ → ℕ
max_ℕ a b = if leb a b then b else a

-- The time to sleep, at least a millisecond; `self._window[0]` is there whenever the rate is positive.
unfoldable pub wait_for : ℕ → List ℕ → ℕ
wait_for now [] = 1
wait_for now (t ∷ window) = max_ℕ (second - (now - t)) 1

-- One pass through the critical section: the new window, and the time to sleep if there was no room.
unfoldable pub attempt : Rate → ℕ → List ℕ → List ℕ × Option ℕ
unfolding prune has_room wait_for
attempt r now window =
    let kept = prune now window in
    if has_room r kept then (kept ++ now ∷ [], none) else (kept, some (wait_for now kept))

-- The passes of all callers in the order in which they take the lock, at the times given: the
-- window after them, and the times of the calls that were let through.
unfoldable pub passes : Rate → List ℕ → List ℕ → List ℕ → List ℕ × List ℕ
unfolding attempt
passes r [] window let_through = (window, let_through)
passes r (now ∷ times) window let_through =
    let (window', waiting) = attempt r now window in
    elim waiting [
      | none ↦ passes r times window' (let_through ++ now ∷ [])
      | some t ↦ passes r times window' let_through
    ]
