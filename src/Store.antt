-- ===== src/Store.antt =====
-- store/memory.py, `InMemoryStore`: a checkpoint store that lives as long as the process.
--
-- A method holds the lock from its first statement to its last, and is one step here.
pub mod Redis
pub mod Resumable
use fluxio.Prelude.{
  String, List, [], ◌∷◌, Option, none, some, Bool, true, false, ◌≡◌, refl, ◌==◌, if◌then◌else◌, ap,
  ◌∙◌,
}
use fluxio.Prelude.Dict.{Dict, lookup, insert, remove, member, lookup-insert, lookup-remove}
use fluxio.Errors.{ok}
use fluxio.Runtime.Act.{Act}
use fluxio.Runtime.Cell.{Cell}
use fluxio.Runtime.Types.{Checkpoint, CheckpointStore}

module _ {V W : Type 0} (data_cell : Cell (Dict (Checkpoint V)) W) where
  unfoldable pub save : Checkpoint V → Act W (Unit {0})
  save checkpoint w =
      (ok tt, data_cell.write (insert checkpoint.run_id checkpoint (data_cell.read w)) w)

  unfoldable pub load : String → Act W (Option (Checkpoint V))
  load run_id w = (ok (lookup run_id (data_cell.read w)), w)

  unfoldable pub delete : String → Act W (Unit {0})
  delete run_id w = (ok tt, data_cell.write (remove run_id (data_cell.read w)) w)

  unfoldable pub exists : String → Act W Bool
  exists run_id w = (ok (member run_id (data_cell.read w)), w)

  abbrev pub memory_store : CheckpointStore V W
  memory_store = record { save = save; load = load; delete = delete }

  -- What a client does to the store.
  pub data Request : Type 0 where
    saving : Checkpoint V → Request
    deleting : String → Request

  abbrev perform : Request → W → W
  perform (saving c) w = (save c w).1
  perform (deleting run_id) w = (delete run_id w).1

  abbrev pub perform_all : List Request → W → W
  perform_all [] w = w
  perform_all (r ∷ rs) w = perform_all rs (perform r w)

  -- The checkpoint that the last request on a run leaves, given the one before all requests.
  abbrev pub latest : String → List Request → Option (Checkpoint V) → Option (Checkpoint V)
  latest run_id [] before = before
  latest run_id (saving c ∷ rs) before =
      latest run_id rs (if c.run_id == run_id then some c else before)
  latest run_id (deleting other ∷ rs) before =
      latest run_id rs (if other == run_id then none else before)

  lookup-perform_all :
      (run_id : String) (rs : List Request) (w : W)
      → lookup run_id (data_cell.read (perform_all rs w))
        ≡ latest run_id rs (lookup run_id (data_cell.read w))
  unfolding save delete
  lookup-perform_all run_id [] w = refl
  lookup-perform_all run_id (saving c ∷ rs) w =
      lookup-perform_all run_id rs (perform (saving c) w)
      ∙ ap (latest run_id rs) (
          ap (lookup run_id) (data_cell.read-write (insert c.run_id c (data_cell.read w)) w)
          ∙ lookup-insert c.run_id run_id c (data_cell.read w))
  lookup-perform_all run_id (deleting other ∷ rs) w =
      lookup-perform_all run_id rs (perform (deleting other) w)
      ∙ ap (latest run_id rs) (
          ap (lookup run_id) (data_cell.read-write (remove other (data_cell.read w)) w)
          ∙ lookup-remove other run_id (data_cell.read w))

  -- After any sequence of saves and deletes, `load` of a run gives the checkpoint of the last of
  -- them that concerns the run, nothing where that is a delete, and `exists` tells the two apart.
  pub load-perform_all :
      (run_id : String) (rs : List Request) (w : W)
      → let before = lookup run_id (data_cell.read w) in
        let w' = perform_all rs w in
        (load run_id w' ≡ (ok (latest run_id rs before), w'))
        × (exists run_id w'
            ≡ (ok (elim (latest run_id rs before) [ none ↦ false | some _ ↦ true ]), w'))
  unfolding load exists member
  load-perform_all run_id rs w =
      let same = lookup-perform_all run_id rs w in
      let after : W = perform_all rs w in
      (
        ap (λ (c : Option (Checkpoint V)). (ok c, after)) same,
        ap (λ (c : Option (Checkpoint V)). (ok (elim c [ none ↦ false | some _ ↦ true ]), after))
            same,
      )
