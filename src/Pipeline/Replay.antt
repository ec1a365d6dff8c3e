-- ===== src/Pipeline/Replay.antt =====
-- Replay of a run from one of its steps, over the in-memory store.
use fluxio.Prelude.{
  ℕ, String, List, [], Option, none, some, true, false, ◌≡◌, refl, ap, sym, ◌∙◌, eq_refl,
  if◌then◌else◌, contains, add,
}
use fluxio.Prelude.Dict.{Dict, lookup, insert, lookup-insert}
use fluxio.Prelude.Int.{pos}
use fluxio.Errors.{Result, ok, err, runtime_error}
use fluxio.Context.{Context, get, snapshot, from_snapshot}
use fluxio.Context.Laws.{get-from_snapshot}
use fluxio.Runtime.Interpreter.{Frame}
use fluxio.Runtime.Act.{pure, lift, ◌>>=◌}
use fluxio.Runtime.Cell.{Cell}
use fluxio.Runtime.Types.{Checkpoint, CheckpointStore, Session}
use fluxio.Runtime.Loop.{run, begin, resume_from, loop, frame_at}
use fluxio.Store.{memory_store, save, load}
use fluxio.Pipeline.{find_from, release, acquire_run_forced, enough_fuel}
use fluxio.Pipeline.Lock.{contains-release, acquire_run_forced-free}
use fluxio.Pipeline.Operations.{
  or_missing, rewind, replayed, prepare, resuming, replay_locked, replay,
}

module _ {M V W : Type 0} (s : Session M V W) (active : Cell (List String) W)
    (data_cell : Cell (Dict (Checkpoint V)) W) where
  -- The checkpoint that a replay from index `ip` leaves in the store.
  abbrev pub rewound : String → ℕ → Checkpoint V → Checkpoint V
  rewound run_id ip c = record {
    run_id = run_id;
    pipeline_version = s.compiled.version;
    ip = pos ip;
    ctx_snapshot = snapshot s.pmap (replayed s active c);
    created_at = c.created_at;
    meta = [];
  }

  prepare-rewinds :
      (run_id step : String) (c : Checkpoint V) (ip : ℕ) (w : W)
      → lookup run_id (data_cell.read w) ≡ some c
      → find_from step 0 s.compiled.instructions ≡ ok ip
      → prepare s active (memory_store data_cell) run_id (some step) w ≡ (
        ok (replayed s active c),
        data_cell.write (insert run_id (rewound run_id ip c) (data_cell.read w)) w,
      )
  unfolding prepare rewind or_missing save load ◌>>=◌ lift pure
  prepare-rewinds run_id step c ip w found at = simp (found, at, or_missing, rewind)

  -- The context that the interpreter goes on with.
  abbrev restored : Checkpoint V → Context M
  restored c = from_snapshot s.pmap (snapshot s.pmap (replayed s active c)) "replay" none

  restored-get :
      (c : Checkpoint V) (k : String) → get s.pmap (restored c) k ≡ lookup k c.ctx_snapshot
  unfolding get from_snapshot snapshot
  restored-get c k =
      (get-from_snapshot s.pmap (replayed s active c) "replay" k).0
      ∙ s.pmap.get-of_dict (s.pmap.deepcopy c.ctx_snapshot) k
      ∙ s.pmap.lookup-deepcopy c.ctx_snapshot k

  begin-rewound :
      (run_id : String) (c : Checkpoint V) (ip : ℕ) (w : W)
      → s.store ≡ some (memory_store data_cell)
      → lookup run_id (data_cell.read w) ≡ some (rewound run_id ip c)
      → begin (resuming s active run_id) true (replayed s active c) w
        ≡ (ok (frame_at (resuming s active run_id) (pos ip) (restored c)), w)
  unfolding begin resume_from ◌>>=◌ lift load from_snapshot
  begin-rewound run_id c ip w stored found =
      simp (stored, begin, found, resume_from, eq_refl s.compiled.version)

  replay_locked-resumes :
      (run_id step : String) (c : Checkpoint V) (ip : ℕ) (w : W)
      → s.store ≡ some (memory_store data_cell)
      → lookup run_id (data_cell.read w) ≡ some c
      → find_from step 0 s.compiled.instructions ≡ ok ip
      → (w' : W) × (replay_locked s active (memory_store data_cell) run_id (some step) w
          ≡ loop
              (resuming s active run_id)
              (enough_fuel s active)
              (s.services.monotonic w')
              (frame_at (resuming s active run_id) (pos ip) (restored c))
              w')
        × (lookup run_id (data_cell.read w') ≡ some (rewound run_id ip c))
  unfolding replay_locked run
  replay_locked-resumes run_id step c ip w stored found at =
      let w' : W = data_cell.write (insert run_id (rewound run_id ip c) (data_cell.read w)) w in
      let kept : lookup run_id (data_cell.read w') ≡ some (rewound run_id ip c) =
        ap (lookup run_id)
          (data_cell.read-write (insert run_id (rewound run_id ip c) (data_cell.read w)) w)
        ∙ lookup-insert run_id run_id (rewound run_id ip c) (data_cell.read w)
        ∙ ap (λ b. if b then some (rewound run_id ip c) else lookup run_id (data_cell.read w))
            (eq_refl run_id) in
      (
        w',
        ap
              (λ (q : Result (Context M) × W). elim q.0 [
                | err e ↦ some (err e, q.1)
                | ok ctx ↦ run (resuming s active run_id) (enough_fuel s active) true ctx q.1
              ])
              (prepare-rewinds run_id step c ip w found at)
            ∙ ap
                (λ (q : Result (Frame M) × W). elim q.0 [
                  | err e ↦ some (err e, q.1)
                  | ok f ↦
                      loop (resuming s active run_id) (enough_fuel s active)
                        (s.services.monotonic q.1) f q.1
                ])
                (begin-rewound run_id c ip w' stored kept),
        kept,
      )

  replay-store :
      (run_id : String) (from_step : Option String) (w : W)
      → s.store ≡ some (memory_store data_cell)
      → replay s active run_id from_step w
        ≡ acquire_run_forced active run_id
            (replay_locked s active (memory_store data_cell) run_id from_step)
            w
  unfolding replay
  replay-store run_id from_step w stored =
      ap
        (λ (o : Option (CheckpointStore V W)). elim o [
          | none ↦ some (err runtime_error, w)
          | some store ↦
              acquire_run_forced active run_id (replay_locked s active store run_id from_step) w
        ])
        stored

  -- Over the in-memory store, a replay from a step that is in the code, of a run that has a checkpoint
  -- and whose id is not in use, puts a checkpoint of that step in the store, and then runs the loop of
  -- the interpreter from the step's first instruction in a context with the values of the checkpoint
  -- that it found and no pending writes, whatever version that one had. After it, whether it returns
  -- or raises, the id is not in use.
  pub replay-resumes :
      (run_id step : String) (c : Checkpoint V) (ip : ℕ) (w : W)
      → s.store ≡ some (memory_store data_cell)
      → ((runs : List String) (w : W) → data_cell.read (active.write runs w) ≡ data_cell.read w)
      → contains run_id (active.read w) ≡ false
      → lookup run_id (data_cell.read w) ≡ some c
      → find_from step 0 s.compiled.instructions ≡ ok ip
      → (w' : W) × (ctx : Context M) × (replay s active run_id (some step) w
          ≡ release active run_id (
              loop
                (resuming s active run_id)
                (enough_fuel s active)
                (s.services.monotonic w')
                (frame_at (resuming s active run_id) (pos ip) ctx)
                w'))
        × ((k : String) → get s.pmap ctx k ≡ lookup k c.ctx_snapshot)
        × (ctx.written ≡ [])
        × (lookup run_id (data_cell.read w') ≡ some (rewound run_id ip c))
        × ((r : Result (Context M)) (after : W)
            → replay s active run_id (some step) w ≡ some (r, after)
            → contains run_id (active.read after) ≡ false)
  unfolding from_snapshot
  replay-resumes run_id step c ip w stored apart free found at =
      let taken = active.write (add run_id (active.read w)) w in
      let (w', same, kept) =
        replay_locked-resumes run_id step c ip taken stored (ap (lookup run_id) (apart _ w) ∙ found)
          at in
      let path =
        replay-store run_id (some step) w stored
        ∙ acquire_run_forced-free active run_id _ w free
        ∙ ap (release active run_id) same in
      (
        w',
        restored c,
        path,
        restored-get c,
        refl,
        kept,
        λ r after e. contains-release active run_id _ r after (sym path ∙ e),
      )
