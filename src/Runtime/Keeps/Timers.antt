-- ===== src/Runtime/Keeps/Timers.antt =====
-- The dict of the open steps' timers, and what listeners do with the notices that go with it.
use fluxio.Prelude.{ℕ, String, ◌∷◌, Bool, true, false, ◌≡◌, ◌==◌, ◌||◌, ◌&&◌, not, arith}
use fluxio.Prelude.Dict.{Dict, insert, remove, member, lookup, lookup-insert, lookup-remove}
use fluxio.Errors.{Exn}
use fluxio.Context.{Context}
use fluxio.Runtime.Types.{Notice, on_step_start, on_step_end, Session}
use fluxio.Runtime.Interpreter.{notify}
use fluxio.Runtime.Keeps.{Triple}

-- `timers'` has every name of `timers` but `id`.
abbrev pub Lacks : String → Dict ℕ → Dict ℕ → Type 0
Lacks id timers timers' =
    (step : String) → member step timers ≡ true → (id == step) ≡ false → member step timers' ≡ true

pub member-insert :
    (k j : String) (v : ℕ) (d : Dict ℕ) → member j (insert k v d) ≡ (k == j || member j d)
unfolding member
member-insert k j v d = ground (arith, lookup-insert k j v d)

member-remove : (k j : String) (d : Dict ℕ) → member j (remove k d) ≡ (not (k == j) && member j d)
unfolding member
member-remove k j d = ground (arith, lookup-remove k j d)

pub insert-Lacks : (id : String) (t : ℕ) (timers : Dict ℕ) → Lacks id (insert id t timers) timers
insert-Lacks id t timers step known other = ground (arith, member-insert id step t timers)

pub remove-Lacks : (id : String) (timers : Dict ℕ) → Lacks id timers (remove id timers)
remove-Lacks id timers step known other = ground (arith, member-remove id step timers)

pub tail-Lacks : (id : String) (t : ℕ) (timers : Dict ℕ) → Lacks id ((id, t) ∷ timers) timers
unfolding member lookup
tail-Lacks id t timers step known other = ground arith

abbrev pub is_step : {M V : Type 0} → Notice M V → Bool
is_step (on_step_start id ctx) = true
is_step (on_step_end id ctx t) = true
is_step _ = false

-- `I timers` is kept up while the callbacks are told of the steps that the timers stand for. Where
-- they fail, `Fails` is left, which is not less.
pub record Listens {M V W : Type 0} (s : Session M V W) (I : Dict ℕ → W → Type 0)
    (Fails : Exn → W → Type 0) : Type 0 where
  pub step_starts :
      (timers : Dict ℕ) (id : String) (ctx : Context M)
      → Triple
          (I timers)
          (notify s (on_step_start id ctx))
          (λ done w. (t : ℕ) → I (insert id t timers) w)
          Fails
  pub step_ends :
      (timers timers' : Dict ℕ) (id : String) (ctx : Context M) (t : ℕ)
      → Lacks id timers timers'
      → Triple (I timers) (notify s (on_step_end id ctx t)) (λ done. I timers') Fails
  pub others :
      (timers : Dict ℕ) (n : Notice M V)
      → is_step n ≡ false
      → Triple (I timers) (notify s n) (λ done. I timers) Fails
  pub recovers : (timers : Dict ℕ) (e : Exn) (w : W) → Fails e w → I timers w
