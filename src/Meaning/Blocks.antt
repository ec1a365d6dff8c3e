-- ===== src/Meaning/Blocks.antt =====
-- What the code of a `Parallel` block does, and that of a list of stages and blocks.
use fluxio.Prelude.{
  ℕ, String, List, [], ◌∷◌, ◌++◌, some, ◌≡◌, refl, sym, ap, ◌∙◌, subst, length, arith, All,
}
use fluxio.Prelude.Dict.{Dict}
use fluxio.Errors.{Result, ok, >>=-eq-ok}
use fluxio.Stage.{Parallel, ForkMode, parallel_mode, fire_forget}
use fluxio.Bytecode.{join, branch, bare}
use fluxio.Compiler.Naming.{node_id}
use fluxio.Compiler.Grouping.{Node, stage_node, parallel_node, dict_node}
use fluxio.Compiler.Build.{
  Build, event, append, append_if, register, put_set, register_branches, check_write_conflicts,
  parallel_code, compile_parallel,
}
use fluxio.Compiler.Program.{compile_sub, compile_subs}
use fluxio.Runtime.Act.{pure, ◌>>=◌}
use fluxio.Runtime.Types.{Body, Schema, StageFunc, Session}
use fluxio.Meaning.{
  after_branches, name_branches, after_sub, after_subs, parallel_meaning, sub_meaning, subs_meaning,
}
use fluxio.Meaning.Machine.{IsQuiet}
use fluxio.Meaning.Instructions.{emit-Does}
use fluxio.Meaning.Forks.{AllKnown, ids_of, fork_of, fork-Does, fire-Does}
use fluxio.Meaning.Objects.{AllOwn, SubOwn}
use fluxio.Meaning.Tables.{Sound, register-Registered}
use fluxio.Meaning.Stages.{lookup-after, register-Part, compile_stage-Part}
use fluxio.Meaning.Parts.{
  Fits, Part, Part-refl, Part-trans, append-Part, append_both-Part, append-Fits, Part-table,
  Part-idle,
}

ids-nil : (ids : List String) → ids ++ [] ≡ ids
ids-nil [] = refl
ids-nil (i ∷ ids) = ap (λ r. i ∷ r) (ids-nil ids)

ids-snoc :
    (ids : List String) (id : String) (more : List String)
    → (ids ++ id ∷ []) ++ more ≡ ids ++ id ∷ more
ids-snoc [] id more = refl
ids-snoc (i ∷ ids) id more = ap (λ r. i ∷ r) (ids-snoc ids id more)

module _ {M V W : Type 0} (s : Session M V W) (quiet : IsQuiet s) (object : ℕ → StageFunc M V W)
    (started : ℕ) where
  -- What the loop over the branches gives.
  record Branches (fns : List (StageFunc M V W)) (ids ids' : List String)
      (b b' : Build (Body M V W) (Schema V)) : Type 0 where
    part : Part s quiet object started b b' (after_branches fns b.symbol_table) pure
    names : ids' ≡ ids ++ ids_of (name_branches fns b.symbol_table)
    known : Fits s b' → AllKnown s (name_branches fns b.symbol_table)

  register_branches-Branches :
      (fns : List (StageFunc M V W)) (b b' : Build (Body M V W) (Schema V)) (ids ids' : List String)
      (declared declared' : Dict (List String))
      → register_branches fns b ids declared ≡ ok (b', ids', declared')
      → AllOwn object fns
      → Sound object b
      → Branches fns ids ids' b b'
  unfolding register_branches
  register_branches-Branches [] b b' ids ids' declared declared' h own sound =
      let same : b ≡ b' = ground arith in
      let names : ids ≡ ids' = ground arith in
      subst (λ c. Branches [] ids ids' b c) same
        (record {
          part = Part-refl s quiet object started b sound;
          names = sym names ∙ sym (ids-nil ids);
          known = λ f. tt;
        })
  register_branches-Branches (fn ∷ fns) b b' ids ids' declared declared' h own sound =
      let id = node_id fn b.symbol_table in
      let (r, e, k) = >>=-eq-ok (register id fn b) _ h in
      let first = register-Part s quiet object started fn b r e own.0 sound in
      let known =
        lookup-after s quiet object started fn b r (register-Registered object id fn b r e) in
      let more =
        register_branches-Branches fns r b' (ids ++ id ∷ []) ids' (put_set id fn.writes declared)
          declared' k own.1 first.sound in
      record {
        part =
            Part-table s quiet object started (Part-idle s quiet object started first more.part)
              (ap (after_branches fns) first.table_is);
        names =
            more.names
            ∙ ids-snoc ids id _
            ∙ ap (λ t. ids ++ id ∷ ids_of (name_branches fns t)) first.table_is;
        known = λ f. (
          (more.part.fits f).known id fn known,
          subst (λ t. AllKnown s (name_branches fns t)) first.table_is (more.known f),
        );
      }

  parallel_code-Part :
      (named : List (String × StageFunc M V W)) (mode : ForkMode)
      (b : Build (Body M V W) (Schema V))
      → (Fits s b → AllKnown s named)
      → Sound object b
      → Part s quiet object started b
          (parallel_code (ids_of named) mode b)
          b.symbol_table
          (parallel_meaning s named mode)
  unfolding parallel_code append append_if pure ◌>>=◌
  parallel_code-Part named parallel_mode b known sound =
      let announce = record (event branch) { branch_ids = some (ids_of named) } in
      let b₁ = append announce b in
      let p₁ =
        append-Part s quiet object started announce pure b refl
          (λ f. emit-Does s quiet started announce (length b.instructions) refl) sound in
      let p₂ =
        append_both-Part s quiet object started (fork_of (ids_of named) parallel_mode) (bare join)
          (parallel_meaning s named parallel_mode) b₁ refl refl
          (λ f here.
            fork-Does s quiet started named (length b₁.instructions)
              (known (p₁.fits (append-Fits s quiet object started _ b₁ f))) here)
          p₁.sound in
      Part-trans s quiet object started p₁ p₂
  parallel_code-Part named fire_forget b known sound =
      let announce = record (event branch) { branch_ids = some (ids_of named) } in
      let b₁ = append announce b in
      let p₁ =
        append-Part s quiet object started announce pure b refl
          (λ f. emit-Does s quiet started announce (length b.instructions) refl) sound in
      let p₂ =
        append-Part s quiet object started (fork_of (ids_of named) fire_forget)
          (parallel_meaning s named fire_forget) b₁ refl
          (λ f.
            fire-Does s quiet started named (length b₁.instructions)
              (known (p₁.fits (append-Fits s quiet object started _ b₁ f))))
          p₁.sound in
      Part-trans s quiet object started p₁ p₂

  pub compile_parallel-Part :
      (block : Parallel (Body M V W) (Schema V)) (b b' : Build (Body M V W) (Schema V))
      → compile_parallel block b ≡ ok b'
      → AllOwn object block.branches
      → Sound object b
      → Part s quiet object started b b'
          (after_branches block.branches b.symbol_table)
          (parallel_meaning s (name_branches block.branches b.symbol_table) block.mode)
  unfolding compile_parallel pure ◌>>=◌
  compile_parallel-Part block b b' h own sound =
      let ((r, ids, declared), e, k) = >>=-eq-ok (register_branches block.branches b [] []) _ h in
      let (checked, e', k') = >>=-eq-ok (check_write_conflicts declared) _ k in
      let reg = register_branches-Branches block.branches b r [] ids [] declared e own sound in
      let done : Result.ok (parallel_code ids block.mode r) ≡ ok b' = k' in
      let named = name_branches block.branches b.symbol_table in
      let same : parallel_code (ids_of named) block.mode r ≡ b' = rw (← reg.names) cc in
      let coded =
        Part-table s quiet object started
          (parallel_code-Part named block.mode r reg.known reg.part.sound) reg.part.table_is in
      subst
        (λ c.
          Part s quiet object started b c (after_branches block.branches b.symbol_table)
            (parallel_meaning s named block.mode))
        same (Part-trans s quiet object started reg.part coded)

  compile_sub-Part :
      (n : Node (Body M V W) (Schema V) (Unit {0})) (b b' : Build (Body M V W) (Schema V))
      → compile_sub n b ≡ ok b'
      → SubOwn object n
      → Sound object b
      → Part s quiet object started b b'
          (after_sub n b.symbol_table)
          (sub_meaning s n b.symbol_table)
  unfolding compile_sub sub_meaning
  compile_sub-Part (stage_node fn) b b' h own sound =
      compile_stage-Part s quiet object started fn b b' h own sound
  compile_sub-Part (parallel_node block) b b' h own sound =
      compile_parallel-Part block b b' h own sound
  compile_sub-Part (dict_node r) b b' h own sound = absurd (cc h)

  pub compile_subs-Part :
      (ns : List (Node (Body M V W) (Schema V) (Unit {0}))) (b b' : Build (Body M V W) (Schema V))
      → compile_subs ns b ≡ ok b'
      → All (SubOwn object) ns
      → Sound object b
      → Part s quiet object started b b'
          (after_subs ns b.symbol_table)
          (subs_meaning s ns b.symbol_table)
  unfolding compile_subs subs_meaning
  compile_subs-Part [] b b' h own sound =
      let same : b ≡ b' = ground arith in
      subst (λ c. Part s quiet object started b c b.symbol_table pure) same
        (Part-refl s quiet object started b sound)
  compile_subs-Part (n ∷ ns) b b' h own sound =
      let (r, e, k) = >>=-eq-ok (compile_sub n b) _ h in
      let first = compile_sub-Part n b r e own.0 sound in
      let rest = compile_subs-Part ns r b' k own.1 first.sound in
      Part-trans s quiet object started first (
        subst (λ t. Part s quiet object started r b' (after_subs ns t) (subs_meaning s ns t))
          first.table_is rest)
