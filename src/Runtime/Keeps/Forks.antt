-- ===== src/Runtime/Keeps/Forks.antt =====
-- The branches of a fork leave what their stages and the callbacks leave.
use fluxio.Prelude.{
  ℕ, ◌-◌, String, List, [], ◌∷◌, map, some, ◌≡◌, subst, All, inl, inr, Option-cases,
}
use fluxio.Prelude.Dict.{Dict, lookup, insert}
use fluxio.Errors.{Exn, Result, ok, err, ok_inj, Result-cases}
use fluxio.Context.{Context, fork}
use fluxio.Stage.{ForkMode}
use fluxio.Runtime.Act.{Act}
use fluxio.Runtime.Types.{StageFunc, Session}
use fluxio.Runtime.Executor.{run_parallel}
use fluxio.Runtime.Interpreter.{runner, branch_body, close_branch, fork_branches, final_ctx}
use fluxio.Runtime.Keeps.{
  Stays, After, Triple-gets, Triple-bind, Triple-weaken, Triple-finally, Stays-gather, After-any,
}
use fluxio.Runtime.Keeps.Calls.{CallsStay, branch_body-Stays}
use fluxio.Runtime.Keeps.Timers.{insert-Lacks, Listens}

module _ {M V W : Type 0} (s : Session M V W) (I : Dict ℕ → W → Type 0) (Fails : Exn → W → Type 0)
    (calls : (timers : Dict ℕ) → CallsStay (I timers) s) (listens : Listens s I Fails) where
  -- A branch has a span of its own, which ends with it.
  close_branch-After :
      (timers : Dict ℕ) (c : Context M) (id : String) (start : ℕ) (r : Result (Context M)) (w : W)
      → I (insert id start timers) w
      → After (λ a. I timers) (λ e. I timers) (close_branch s c id start (r, w))
  unfolding close_branch
  close_branch-After timers c id start r w h =
      (Triple-finally (I (insert id start timers)) (I timers) r _ (
          Triple-bind {Q = λ now. I (insert id start timers)} _ _ (Triple-gets _ λ w p. p) λ now.
            Triple-weaken (λ w p. p) (λ a w p. p) (listens.recovers timers)
              (listens.step_ends (insert id start timers) timers id (final_ctx c r) (now - start)
                (insert-Lacks id start timers)))).at
        w h

  closed-After :
      (timers : Dict ℕ) (c : Context M) (id : String) (start : ℕ) (q : Result (Context M) × W)
      → After (λ a. I (insert id start timers)) (λ e. I (insert id start timers)) q
      → After (λ a. I timers) (λ e. I timers) (close_branch s c id start q)
  closed-After timers c id start (ok a, w) p = close_branch-After timers c id start (ok a) w p
  closed-After timers c id start (err e, w) p = close_branch-After timers c id start (err e) w p

  runner-Stays :
      (timers : Dict ℕ) (fn : StageFunc M V W) (c : Context M) (id : String)
      → lookup id s.compiled.symbol_table ≡ some fn
      → Stays (I timers) (runner s fn c id)
  unfolding runner
  runner-Stays timers fn c id known =
      Triple-bind _ _
        (Triple-weaken (λ w p. p) (λ a w p. p) (listens.recovers timers)
          (listens.step_starts timers id c))
        λ told.
          Triple-bind {Q = λ start. I (insert id start timers)} _ _
            (Triple-gets _ λ w p. p (s.services.monotonic w))
            λ start. record {
              at = λ w p. closed-After timers c id start (branch_body s fn c id w) (
                  (branch_body-Stays (I (insert id start timers)) s (calls (insert id start timers))
                      fn c id known).at
                    w p);
            }

  abbrev runs : List (String × StageFunc M V W × Context M) → List (Act W (Context M))
  runs branches = map (λ (nid, fn, ctx). runner s fn ctx nid) branches

  fork_branches-Stays :
      (timers : Dict ℕ) (ids : List String) (ctx : Context M)
      (branches : List (String × StageFunc M V W × Context M))
      → fork_branches s ids ctx ≡ ok branches
      → All (λ m. Stays (I timers) m) (runs branches)
  unfolding fork_branches
  fork_branches-Stays timers [] ctx branches e =
      subst (λ b. All (λ m. Stays (I timers) m) (runs b)) (ok_inj e) tt
  fork_branches-Stays timers (id ∷ ids) ctx branches e =
      elim (Option-cases (lookup id s.compiled.symbol_table)) [
        | inl unknown ↦ absurd (cc (rw (fork_branches, unknown) at e))
        | inr (fn, known) ↦ elim (Result-cases (fork_branches s ids ctx)) [
          | inl (e', failed) ↦ absurd (cc (rw (fork_branches, known, failed) at e))
          | inr (rest, forked) ↦
              subst (λ b. All (λ m. Stays (I timers) m) (runs b))
                (ok_inj (rw (fork_branches, known, forked) at e))
                (
                  runner-Stays timers fn (fork s.pmap ctx id) id known,
                  fork_branches-Stays timers ids ctx rest forked,
                )
        ]
      ]

  pub run_parallel-Stays :
      (timers : Dict ℕ) (ids : List String) (ctx : Context M)
      (branches : List (String × StageFunc M V W × Context M)) (mode : ForkMode)
      → fork_branches s ids ctx ≡ ok branches
      → Stays (I timers) (run_parallel branches mode (runner s))
  unfolding run_parallel
  run_parallel-Stays timers ids ctx branches mode e = record {
    at = λ w p. After-any (I timers) _ _ (
        Stays-gather (I timers) (runs branches) w (fork_branches-Stays timers ids ctx branches e)
          p);
  }
