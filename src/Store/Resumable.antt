-- ===== src/Store/Resumable.antt =====
-- Checkpoints of a durable pipeline over store/memory.py: what runtime/interpreter.py leaves for a
-- later attempt of a run.
pub mod Attempts
use fluxio.Prelude.{
  ◌≤◌, ℕ, zero, suc, String, List, [], ◌∷◌, Option, none, some, Bool, true, false, ◌≡◌, refl, sym,
  ap, ◌∙◌, subst, All, length, get_elem?, inl, inr, Option-cases, Bool-cases, ◌==◌, eq_refl,
}
use fluxio.Prelude.Int.{pos}
use fluxio.Prelude.Dict.{Dict, lookup, insert, remove, lookup-insert, lookup-remove}
use fluxio.Errors.{Result, ok, err, ok_inj}
use fluxio.Context.{Context}
use fluxio.Bytecode.{checkpoint, Instruction}
use fluxio.Compiler.Build.{Nodes}
use fluxio.Compiler.Program.{compile}
use fluxio.Compiler.Routers.{IsSoundCode, compile-IsSoundCode}
use fluxio.Runtime.Cell.{Cell}
use fluxio.Runtime.Types.{Body, Schema, Callback, Checkpoint, Session}
use fluxio.Runtime.Interpreter.{Frame, fetch}
use fluxio.Runtime.Loop.{exec, save_checkpoint, handle, finish, loop, begin, resume_from, run}
use fluxio.Runtime.Termination.{exec-AtLeast, ended, ended-run}
use fluxio.Runtime.Keeps.{
  Triple, Stays, After, Triple-pure, Triple-lift, Triple-gets, Triple-bind, Stays-read,
}
use fluxio.Runtime.Keeps.Calls.{IsConfined, CallsStay, call_stage-Stays}
use fluxio.Runtime.Keeps.Instructions.{exec_op-Executes}
use fluxio.Runtime.Keeps.Steady.{CallbackStays, notify-Stays, steady-Listens, handle-raises}
use fluxio.Store.{save, load, delete, memory_store}

module _ {M V W : Type 0} (s : Session M V W) (first : ℕ) where
  -- A checkpoint that a resumed run can go on from: of this version, at a `CHECKPOINT` whose index is
  -- not less than `first`.
  abbrev pub IsUsable : Option (Checkpoint V) → Type 0
  IsUsable none = Unit {0}
  IsUsable (some c) =
      (c.pipeline_version ≡ s.compiled.version)
      × (i : ℕ) × (c.ip ≡ pos i)
      × (first ≤ i)
      × (x : Instruction) × (get_elem? s.compiled.instructions i ≡ some x)
      × (x.op ≡ checkpoint)

module _ {M V W : Type 0} (s : Session M V W) (data_cell : Cell (Dict (Checkpoint V)) W) where
  abbrev pub stored : W → Option (Checkpoint V)
  stored w = lookup s.run_id (data_cell.read w)

  abbrev pub Resumable : ℕ → W → Type 0
  Resumable first w = IsUsable s first (stored w)

  abbrev pub Finished : W → Type 0
  Finished w = stored w ≡ none

  -- A durable session over this store, whose code does not touch the store itself.
  pub record IsDurable : Type 0 where
    pub in_memory : s.store ≡ some (memory_store data_cell)
    pub durable : s.durable ≡ true
    pub confined : (v : Dict (Checkpoint V)) → IsConfined (λ w. data_cell.read w ≡ v) s
    pub heard :
        (v : Dict (Checkpoint V)) → All (CallbackStays (λ w. data_cell.read w ≡ v)) s.callbacks

  module _ (durable : IsDurable) (first : ℕ) where
    abbrev Usable : Dict (Checkpoint V) → Type 0
    Usable d = IsUsable s first (lookup s.run_id d)

    pub calls : CallsStay (Resumable first) s
    calls id fn c known =
        Stays-read data_cell.read Usable _
          λ v. call_stage-Stays (λ w. data_cell.read w ≡ v) s (durable.confined v) id fn c known

    All-heard :
        (cbs : List (Callback M V W))
        → ((v : Dict (Checkpoint V)) → All (CallbackStays (λ w. data_cell.read w ≡ v)) cbs)
        → All (CallbackStays (Resumable first)) cbs
    All-heard [] h = tt
    All-heard (cb ∷ cbs) h =
        (λ n. Stays-read data_cell.read Usable (cb n) λ v. (h v).0 n, All-heard cbs λ v. (h v).1)

    pub heard : All (CallbackStays (Resumable first)) s.callbacks
    heard = All-heard s.callbacks durable.heard

    save-Resumable :
        (c : Checkpoint V) (i : ℕ) (x : Instruction)
        → c.run_id ≡ s.run_id
        → c.pipeline_version ≡ s.compiled.version
        → c.ip ≡ pos i
        → get_elem? s.compiled.instructions i ≡ some x
        → x.op ≡ checkpoint
        → first ≤ i
        → Stays (Resumable first) (save data_cell c)
    unfolding save
    save-Resumable c i x own version at here is_checkpoint le = record {
      at = λ w p.
          subst (IsUsable s first) (sym (saved w)) (version, i, at, le, x, here, is_checkpoint);
    }
      where
        saved : (w : W) → stored (data_cell.write (insert c.run_id c (data_cell.read w)) w) ≡ some c
        saved w =
            ap (lookup s.run_id) (data_cell.read-write (insert c.run_id c (data_cell.read w)) w)
            ∙ lookup-insert c.run_id s.run_id c (data_cell.read w)
            ∙ rw own (rw (eq_refl s.run_id) refl)

    deleted : (w : W) → Finished (data_cell.write (remove s.run_id (data_cell.read w)) w)
    deleted w =
        ap (lookup s.run_id) (data_cell.read-write (remove s.run_id (data_cell.read w)) w)
        ∙ lookup-remove s.run_id s.run_id (data_cell.read w)
        ∙ rw (eq_refl s.run_id) refl

    pub save_checkpoint-Resumable :
        (x : Instruction) (f : Frame M) (i : ℕ)
        → f.ip ≡ pos i
        → get_elem? s.compiled.instructions i ≡ some x
        → x.op ≡ checkpoint
        → first ≤ i
        → Stays (Resumable first) (save_checkpoint s x f)
    unfolding save_checkpoint
    save_checkpoint-Resumable x f i at here is_checkpoint le =
        simp (durable.in_memory, save_checkpoint, durable.durable)
          (Triple-bind {Q = λ now. (Resumable first)} _ _ (Triple-gets _ λ w p. p) λ now.
            Triple-bind {Q = λ done. (Resumable first)} _ _
              (save-Resumable _ i x refl refl at here is_checkpoint le)
              λ done. notify-Stays (Resumable first) s heard _)

    pub delete-Finished :
        {P E : W → Type 0} → Triple P (delete data_cell s.run_id) (λ done. Finished) (λ e. E)
    unfolding delete
    delete-Finished = record { at = λ w p. deleted w }

    pub finish-Finished :
        (f : Frame M)
        → Triple (Resumable first) (finish s f) (λ c. Finished) (λ e. (Resumable first))
    unfolding finish
    finish-Finished f =
        simp (durable.in_memory, finish, durable.durable)
          (Triple-bind _ _ delete-Finished λ done. Triple-pure _ λ w p. p)
