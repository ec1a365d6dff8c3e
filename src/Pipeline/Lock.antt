-- ===== src/Pipeline/Lock.antt =====
-- The lock on run ids of api/pipeline.py.
use fluxio.Prelude.{
  ℕ, suc, length, String, List, [], ◌∷◌, Option, none, add, subst, some, Bool, true, false, ◌≡◌,
  refl, ap, sym, ◌∙◌, if◌then◌else◌, eq_iff, contains, arith,
}
use fluxio.Errors.{Result, ok, err, run_id_in_use_error}
use fluxio.Context.{Context}
use fluxio.Bytecode.{Instruction}
use fluxio.Compiler.Build.{Nodes}
use fluxio.Compiler.Program.{compile}
use fluxio.Runtime.Cell.{Cell}
use fluxio.Runtime.Types.{Body, Schema, Session}
use fluxio.Runtime.Interpreter.{Frame}
use fluxio.Runtime.Loop.{begin, run}
use fluxio.Runtime.Termination.{ended, ended-run, begin-fresh}
use fluxio.Prelude.Int.{pos}
use fluxio.Pipeline.{
  discard, Initial, or_new, release, acquire_run_forced, acquire_run, coerce_ctx, with_run_id,
  invoke,
}

contains-discard : (rid : String) (runs : List String) → contains rid (discard rid runs) ≡ false
unfolding contains discard
contains-discard rid [] = refl
contains-discard rid (r ∷ runs) = ground (arith, eq_iff r rid, contains-discard rid runs)

module _ {W A : Type 0} (active : Cell (List String) W) where
  -- The computation gives a result, and the run id is not in use after it.
  abbrev pub Released : String → Option (Result A × W) → Type 0
  Released rid o =
      (r : Result A) × (w' : W) × (o ≡ some (r, w')) × (contains rid (active.read w') ≡ false)

  release-Released :
      (rid : String) (o : Option (Result A × W))
      → ended o ≡ true
      → Released rid (release active rid o)
  unfolding release
  release-Released rid none e = absurd (cc e)
  release-Released rid (some (r, w)) e = (
    r,
    active.write (discard rid (active.read w)) w,
    refl,
    ap (contains rid) (active.read-write (discard rid (active.read w)) w)
        ∙ contains-discard rid (active.read w),
  )

  -- Whatever comes out of `release`, the run id is not in use after it.
  pub contains-release :
      (rid : String) (o : Option (Result A × W)) (r : Result A) (w' : W)
      → release active rid o ≡ some (r, w')
      → contains rid (active.read w') ≡ false
  unfolding release
  contains-release rid none r w' h = absurd (cc h)
  contains-release rid (some (r₀, w)) r w' h =
      let same : active.write (discard rid (active.read w)) w ≡ w' = cc h in
      subst (λ v. contains rid (active.read v) ≡ false) same
        (ap (contains rid) (active.read-write (discard rid (active.read w)) w)
          ∙ contains-discard rid (active.read w))

  -- What a free id is taken for.
  pub acquire_run_forced-free :
      (rid : String) (body : W → Option (Result A × W)) (w : W)
      → contains rid (active.read w) ≡ false
      → acquire_run_forced active rid body w
        ≡ release active rid (body (active.write (add rid (active.read w)) w))
  unfolding acquire_run_forced
  acquire_run_forced-free rid body w free =
      ap
        (λ b.
          if b
          then some (err (run_id_in_use_error rid), w)
          else release active rid (body (active.write (add rid (active.read w)) w)))
        free

  acquire_run-Released :
      (durable : Bool) (rid : String) (body : W → Option (Result A × W)) (w : W)
      → durable ≡ true
      → contains rid (active.read w) ≡ false
      → ended (body (active.write (add rid (active.read w)) w)) ≡ true
      → Released rid (acquire_run active durable rid body w)
  unfolding acquire_run
  acquire_run-Released durable rid body w is_durable free ends = rw is_durable (
      subst (Released rid) (sym (acquire_run_forced-free rid body w free))
        (release-Released rid _ ends))

module _ {M V W : Type 0} (s : Session M V W) where
  -- Where a run asks to start, given that a resumed one asks for an index that is not negative.
  starts_at :
      (resume : Bool) (ctx : Context M) (w : W)
      → (resume ≡ true
          → (f : Frame M) (w' : W) → begin s true ctx w ≡ (ok f, w')
          → (i : ℕ) × (f.ip ≡ pos i))
      → (f : Frame M) (w' : W) → begin s resume ctx w ≡ (ok f, w')
      → (i : ℕ) × (f.ip ≡ pos i)
  starts_at true ctx w resumed = resumed refl
  starts_at false ctx w resumed = λ f w' e. (0, begin-fresh s ctx w w' f e)

module _ {M V W : Type 0} (s : Session M V W) (active : Cell (List String) W) where
  -- A durable run that `invoke` starts or resumes under an id that is not in use ends, and whether it
  -- returns or raises, its id is free again. A resumed run is asked to start at an index that is not
  -- negative.
  pub invoke-Released :
      (version : List Instruction → String) (auto : Bool) (nodes : Nodes (Body M V W) (Schema V))
      → compile version auto nodes ≡ ok s.compiled
      → s.durable ≡ true
      → (initial : Initial M V) (rid fresh : String) (resume : Bool) (w : W)
      → let id = or_new (some rid) fresh in
        contains id (active.read w) ≡ false
        → (resume ≡ true
            → (f : Frame M) (w' : W)
            → begin
                (with_run_id s active id)
                true
                (coerce_ctx s active initial)
                (active.write (add id (active.read w)) w)
              ≡ (ok f, w')
            → (i : ℕ) × (f.ip ≡ pos i))
        → Released active id (invoke s active initial (some rid) fresh resume w)
  unfolding invoke
  invoke-Released version auto nodes compiled durable initial rid fresh resume w free resumed =
      let id = or_new (some rid) fresh in
      let taken = active.write (add id (active.read w)) w in
      let body =
        run (with_run_id s active id) (suc (length s.compiled.instructions)) resume
          (coerce_ctx s active initial) in
      acquire_run-Released active s.durable id body w durable free (
        ended-run (with_run_id s active id) version auto nodes compiled resume
          (coerce_ctx s active initial) taken
          (starts_at (with_run_id s active id) resume (coerce_ctx s active initial) taken resumed))
