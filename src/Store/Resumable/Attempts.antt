-- ===== src/Store/Resumable/Attempts.antt =====
-- The attempts of a durable run over store/memory.py.
use fluxio.Prelude.{
  ◌≤◌, arith, ℕ, zero, suc, String, List, Option, none, some, Bool, true, false, ◌≡◌, refl, sym, ap,
  ◌∙◌, subst, length, get_elem?, inl, inr, Option-cases, Bool-cases, ◌==◌,
}
use fluxio.Prelude.Int.{pos}
use fluxio.Prelude.Dict.{Dict}
use fluxio.Errors.{Result, ok, err, ok_inj}
use fluxio.Context.{Context}
use fluxio.Bytecode.{Instruction}
use fluxio.Compiler.Build.{Nodes}
use fluxio.Compiler.Program.{compile}
use fluxio.Compiler.Routers.{IsSoundCode, compile-IsSoundCode}
use fluxio.Runtime.Cell.{Cell}
use fluxio.Runtime.Types.{Body, Schema, Checkpoint, Session}
use fluxio.Runtime.Interpreter.{Frame, fetch}
use fluxio.Runtime.Loop.{exec, handle, loop, begin, resume_from, run}
use fluxio.Runtime.Termination.{exec-AtLeast, ended, ended-run}
use fluxio.Runtime.Keeps.{Triple, After, Triple-pure, Triple-lift, Triple-bind}
use fluxio.Runtime.Keeps.Instructions.{exec_op-Executes}
use fluxio.Runtime.Keeps.Steady.{steady-Listens, handle-raises}
use fluxio.Store.{load}
use fluxio.Store.Resumable.{
  IsUsable, stored, Resumable, Finished, IsDurable, calls, heard, save_checkpoint-Resumable,
  delete-Finished, finish-Finished,
}

module _ {M V W : Type 0} (s : Session M V W) (data_cell : Cell (Dict (Checkpoint V)) W)
    (durable : IsDurable s data_cell) (first : ℕ) where
  resume_from-ip :
      (existing : Option (Checkpoint V)) (ctx : Context M) (f : Frame M)
      → IsUsable s first existing
      → resume_from s existing ctx ≡ ok f
      → (i : ℕ) × (f.ip ≡ pos i) × (first ≤ i)
  unfolding resume_from
  resume_from-ip none ctx f p e = absurd (cc)
  resume_from-ip (some c) ctx f (version, i, at, le, x, here, is_checkpoint) e =
      elim (Bool-cases (c.pipeline_version == s.compiled.version)) [
        | inl same ↦
            (i, sym (ap (λ (f : Frame M). f.ip) (ok_inj (rw (resume_from, same) at e))) ∙ at, le)
        | inr other ↦ absurd (cc (rw (resume_from, other) at e))
      ]

  -- What an attempt asks for: a resumed one that the checkpoint, if there is one, is usable; a fresh
  -- one makes its checkpoints from the first instruction on.
  abbrev pub Ready : Bool → W → Type 0
  Ready true w = Resumable s data_cell first w
  Ready false w = first ≡ 0

  abbrev Begun : Frame M → W → Type 0
  Begun f w = ((i : ℕ) × (f.ip ≡ pos i) × (first ≤ i)) × Resumable s data_cell first w

  loaded :
      Triple
        (Resumable s data_cell first)
        (load data_cell s.run_id)
        (λ existing w. (existing ≡ stored s data_cell w) × Resumable s data_cell first w)
        (λ e. Resumable s data_cell first)
  unfolding load
  loaded = record { at = λ w p. (refl, p) }

  Finished-Resumable : (w : W) → Finished s data_cell w → Resumable s data_cell first w
  Finished-Resumable w gone = subst (IsUsable s first) (sym gone) tt

  fresh-Begun :
      (ctx : Context M)
      → first ≡ 0
      → Triple (λ w. Unit {0}) (begin s false ctx) Begun (λ e. Resumable s data_cell first)
  unfolding begin
  fresh-Begun ctx from_start =
      simp (durable.in_memory, begin, durable.durable)
        (Triple-bind _ _ (delete-Finished s data_cell durable first)
          λ done. Triple-pure _ λ w p. ((0, refl, omega arith), Finished-Resumable w p))

  begin-Begun :
      (resume : Bool) (ctx : Context M)
      → Triple (Ready resume) (begin s resume ctx) Begun (λ e. Resumable s data_cell first)
  unfolding begin
  begin-Begun true ctx =
      simp (durable.in_memory, begin)
        (Triple-bind _ _ loaded λ existing.
          Triple-lift _
            (λ f e w (same, p).
              (resume_from-ip existing ctx f (subst (IsUsable s first) (sym same) p) e, p))
            λ e w (same, p). p)
  begin-Begun false ctx = record { at = λ w from_start. (fresh-Begun ctx from_start).at w tt }

  abbrev AfterRun : Option (Result (Context M) × W) → Type 0
  AfterRun none = Unit {0}
  AfterRun (some q) = After (λ c. Finished s data_cell) (λ e. Resumable s data_cell first) q

  rest-AfterRun :
      (fuel started : ℕ) (f : Frame M) (r : Result (Frame M)) (w : W)
      → After (λ f'. Resumable s data_cell first) (λ e. Resumable s data_cell first) (r, w)
      → ((f' : Frame M)
          → r ≡ ok f'
          → Resumable s data_cell first w
          → AfterRun (loop s fuel started f' w))
      → AfterRun (elim r [ ok f' ↦ loop s fuel started f' w | err e ↦ some (handle s e f w) ])
  rest-AfterRun fuel started f (ok f') w p h = h f' refl p
  rest-AfterRun fuel started f (err e) w p h =
      (handle-raises (Resumable s data_cell first) s (heard s data_cell durable first) e f
          (calls s data_cell durable first)).at
        w p

  loop-AfterRun :
      IsSoundCode s.compiled
      → (fuel started : ℕ) (f : Frame M) (w : W) (i : ℕ) → f.ip ≡ pos i
      → first ≤ i
      → Resumable s data_cell first w
      → AfterRun (loop s fuel started f w)
  unfolding loop fetch exec
  loop-AfterRun sound zero started f w i at from p = tt
  loop-AfterRun sound (suc fuel) started f w i at from p =
      elim (Option-cases (get_elem? (s.compiled.instructions) i)) [
        | inl past ↦ rw (at, loop, past) ((finish-Finished s data_cell durable first f).at w p)
        | inr (x, here) ↦
            let (r, w') = exec s started x f w in
            let q =
              (exec_op-Executes s (λ timers. Resumable s data_cell first)
                  (λ e. Resumable s data_cell first) (λ timers. calls s data_cell durable first)
                  (steady-Listens (Resumable s data_cell first) s (heard s data_cell durable first))
                  x.op started x f
                  λ e. save_checkpoint-Resumable s data_cell durable first x f i at here e from).at
                w p in
            rw (at, loop, here)
              (rest-AfterRun fuel started f r w' q λ f' e p'.
                let (m, at', le) =
                  exec-AtLeast s started x f f' i _ w w' at (sound i x here) (cc) in
                loop-AfterRun sound fuel started f' w' m at' (omega arith) p')
      ]

  started-AfterRun :
      IsSoundCode s.compiled
      → (fuel : ℕ) (q : Result (Frame M) × W) → After Begun (λ e. Resumable s data_cell first) q
      → AfterRun (elim q.0 [
        | err e ↦ some (err e, q.1)
        | ok f ↦ loop s fuel (s.services.monotonic q.1) f q.1
      ])
  started-AfterRun sound fuel (ok f, w) ((i, at, from), p) =
      loop-AfterRun sound fuel (s.services.monotonic w) f w i at from p
  started-AfterRun sound fuel (err e, w) p = p

  ended-AfterRun :
      (o : Option (Result (Context M) × W))
      → ended o ≡ true
      → AfterRun o
      → (q : Result (Context M) × W) × (o ≡ some q)
        × After (λ c. Finished s data_cell) (λ e. Resumable s data_cell first) q
  ended-AfterRun none e p = absurd (cc)
  ended-AfterRun (some q) e p = (q, refl, p)

  begun_at :
      (resume : Bool) (ctx : Context M) (w w' : W) (f : Frame M)
      → Ready resume w
      → begin s resume ctx w ≡ (ok f, w')
      → (i : ℕ) × (f.ip ≡ pos i) × (first ≤ i)
  begun_at resume ctx w w' f p e =
      (subst (After Begun (λ e. Resumable s data_cell first)) e ((begin-Begun resume ctx).at w p)).0

  run-AfterRun :
      IsSoundCode s.compiled
      → (fuel : ℕ) (resume : Bool) (ctx : Context M) (w : W) → Ready resume w
      → AfterRun (run s fuel resume ctx w)
  unfolding run
  run-AfterRun sound fuel resume ctx w p =
      started-AfterRun sound fuel (begin s resume ctx w) ((begin-Begun resume ctx).at w p)

  -- An attempt of a durable run over the in-memory store ends, if it is a fresh one, or a resumed one
  -- that finds no checkpoint, or a checkpoint of this version at a `CHECKPOINT` of the code at or after
  -- the index `first`; a resume from a checkpoint of another version, or from one that a replay has
  -- moved to another instruction, is left out. Where the attempt returns, the run has no checkpoint any
  -- more; where it raises anything, a cancellation included, the checkpoint that is left, if any, is
  -- again of this version and stands at a `CHECKPOINT` at or after `first`, which is 0 for a fresh
  -- attempt. The stages, middlewares, timeouts and callbacks do not write to the store.
  pub run-Resumable :
      (version : List Instruction → String) (auto : Bool) (nodes : Nodes (Body M V W) (Schema V))
      → compile version auto nodes ≡ ok s.compiled
      → (resume : Bool) (ctx : Context M) (w : W) → Ready resume w
      → (q : Result (Context M) × W) × (run s (suc (length s.compiled.instructions)) resume ctx w
          ≡ some q)
        × After (λ c. Finished s data_cell) (λ e. Resumable s data_cell first) q
  run-Resumable version auto nodes compiled resume ctx w ready =
      let sound = compile-IsSoundCode version auto nodes s.compiled compiled in
      ended-AfterRun _
        (ended-run s version auto nodes compiled resume ctx w
          λ f w' e. let (i, at, le) = begun_at resume ctx w w' f ready e in (i, at))
        (run-AfterRun sound _ resume ctx w ready)
