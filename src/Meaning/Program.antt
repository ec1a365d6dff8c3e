-- ===== src/Meaning/Program.antt =====
-- Compiled code against the meaning of the pipeline it was compiled from.
use fluxio.Prelude.{
  ℕ, ◌<◌, String, List, [], ◌∷◌, none, some, Bool, false, ◌≡◌, refl, sym, ap, ◌∙◌, subst, length,
  All, arith, Option-cases, inl, inr,
}
use fluxio.Prelude.Int.{pos}
use fluxio.Prelude.Dict.{Dict, lookup-nil}
use fluxio.Errors.{Result, ok, err, >>=-eq-ok}
use fluxio.Context.{Context}
use fluxio.Bytecode.{Instruction, pipeline_start, pipeline_end}
use fluxio.Compiler.Grouping.{stage_node, parallel_node, dict_node}
use fluxio.Compiler.Build.{Build, Nodes, event, append, compile_stage, compile_parallel, normalize}
use fluxio.Compiler.Program.{compile_router_block, compile_nodes, no_code, compile}
use fluxio.Runtime.Act.{Act, pure, ◌>>=◌}
use fluxio.Runtime.Types.{Body, Schema, StageFunc, Session}
use fluxio.Runtime.Interpreter.{Frame}
use fluxio.Runtime.Loop.{begin, run, frame_at, loop}
use fluxio.Meaning.{Place, grouped, nodes_meaning, context_of, pipeline_meaning}
use fluxio.Meaning.Machine.{IsQuiet, Goes, Goes-end}
use fluxio.Meaning.Instructions.{emit-Does}
use fluxio.Meaning.Objects.{NodeOwn, NodesOwn}
use fluxio.Meaning.Tables.{Sound}
use fluxio.Meaning.Parts.{Fits, Part, Part-refl, Part-trans, Part-idle, append-Part}
use fluxio.Meaning.Stages.{compile_stage-Part}
use fluxio.Meaning.Blocks.{compile_parallel-Part}
use fluxio.Meaning.Routes.{normalize-grouped}
use fluxio.Meaning.RouterBlocks.{compile_router_block-Part}

module _ {M V W : Type 0} (s : Session M V W) (quiet : IsQuiet s) (object : ℕ → StageFunc M V W)
    (started : ℕ) where
  NodesPart :
      Bool
      → Nodes (Body M V W) (Schema V)
      → Build (Body M V W) (Schema V)
      → Build (Body M V W) (Schema V)
      → Type 0
  NodesPart auto nodes b b' =
      (table : Dict (StageFunc M V W)) × Part s quiet object started b b' table
        (nodes_meaning s auto nodes b.symbol_table)

  and_rest :
      (auto : Bool) (rest : Nodes (Body M V W) (Schema V)) (b r b' : Build (Body M V W) (Schema V))
      (t : Dict (StageFunc M V W)) (m : Place M → Act W (Place M))
      → Part s quiet object started b r t m
      → NodesPart auto rest r b'
      → (table : Dict (StageFunc M V W)) × Part s quiet object started b b' table
          (λ p. m p >>= nodes_meaning s auto rest t)
  unfolding NodesPart
  and_rest auto rest b r b' t m first (table, more) = (
    table,
    Part-trans s quiet object started first (
        subst (λ t. Part s quiet object started r b' table (nodes_meaning s auto rest t))
          first.table_is more),
  )

  compile_nodes-Part :
      (auto : Bool) (nodes : Nodes (Body M V W) (Schema V)) (b b' : Build (Body M V W) (Schema V))
      → compile_nodes auto nodes b ≡ ok b'
      → All (NodeOwn object auto) nodes
      → Sound object b
      → NodesPart auto nodes b b'
  unfolding compile_nodes nodes_meaning NodesPart
  compile_nodes-Part auto [] b b' h own sound =
      let same : b ≡ b' = ground arith in
      (
        b.symbol_table,
        subst (λ c. Part s quiet object started b c b.symbol_table pure) same
            (Part-refl s quiet object started b sound),
      )
  compile_nodes-Part auto (parallel_node block ∷ rest) b b' h own sound =
      let (r, e, k) = >>=-eq-ok (compile_parallel block b) _ h in
      let first = compile_parallel-Part s quiet object started block b r e own.0 sound in
      and_rest auto rest b r b' _ _ first (compile_nodes-Part auto rest r b' k own.1 first.sound)
  compile_nodes-Part auto (dict_node routes ∷ rest) b b' h own sound = absurd (cc h)
  compile_nodes-Part auto (stage_node fn ∷ dict_node routes ∷ rest) b b' h own sound =
      let (r, e, k) = >>=-eq-ok (compile_router_block auto fn routes b) _ h in
      let first =
        compile_router_block-Part s quiet object started auto fn routes b r e own.0 own.1.0.0
          own.1.0.1 sound in
      and_rest auto rest b r b' _ _ first (compile_nodes-Part auto rest r b' k own.1.1 first.sound)
  compile_nodes-Part auto (stage_node fn ∷ []) b b' h own sound =
      let (r, e, k) = >>=-eq-ok (compile_stage fn b) _ h in
      let first = compile_stage-Part s quiet object started fn b r e own.0 sound in
      and_rest auto [] b r b' _ _ first (compile_nodes-Part auto [] r b' k own.1 first.sound)
  compile_nodes-Part auto (stage_node fn ∷ stage_node g ∷ more) b b' h own sound =
      let (r, e, k) = >>=-eq-ok (compile_stage fn b) _ h in
      let first = compile_stage-Part s quiet object started fn b r e own.0 sound in
      and_rest auto (stage_node g ∷ more) b r b' _ _ first
        (compile_nodes-Part auto (stage_node g ∷ more) r b' k own.1 first.sound)
  compile_nodes-Part auto (stage_node fn ∷ parallel_node g ∷ more) b b' h own sound =
      let (r, e, k) = >>=-eq-ok (compile_stage fn b) _ h in
      let first = compile_stage-Part s quiet object started fn b r e own.0 sound in
      and_rest auto (parallel_node g ∷ more) b r b' _ _ first
        (compile_nodes-Part auto (parallel_node g ∷ more) r b' k own.1 first.sound)

module _ {M V W : Type 0} (s : Session M V W) (quiet : IsQuiet s)
    (object : ℕ → StageFunc M V W) where
  no_code-Sound : Sound object (no_code {F = Body M V W} {S = Schema V})
  no_code-Sound = record {
    identified = λ id fn e. absurd (cc (e, lookup-nil {V = StageFunc M V W} id));
    inputs = λ id fn e. absurd (cc (e, lookup-nil {V = StageFunc M V W} id));
    outputs = λ id fn e. absurd (cc (e, lookup-nil {V = StageFunc M V W} id));
    no_input = λ id e. lookup-nil id;
    no_output = λ id e. lookup-nil id;
  }

  begin-quiet : (ctx : Context M) (w : W) → begin s false ctx w ≡ (ok (frame_at s (pos 0) ctx), w)
  unfolding begin pure
  begin-quiet ctx w = elim (Option-cases s.store) [
    | inl absent ↦ rw (absent, begin) refl
    | inr (store, present) ↦ rw (present, begin, quiet.unsaved) refl
  ]

  -- The build that holds the whole code.
  abbrev whole : Build (Body M V W) (Schema V) → Build (Body M V W) (Schema V)
  whole b = append (event pipeline_end) b

  record IsCompiledFrom (b : Build (Body M V W) (Schema V)) : Type 0 where
    instructions : s.compiled.instructions ≡ b.instructions
    table : s.compiled.symbol_table ≡ b.symbol_table
    inputs : s.compiled.input_schemas ≡ b.input_schemas
    outputs : s.compiled.output_schemas ≡ b.output_schemas

  IsCompiledFrom-Fits :
      (b : Build (Body M V W) (Schema V)) → IsCompiledFrom b → Sound object b → Fits s b
  IsCompiledFrom-Fits b c sound = record {
    kept = λ i x e settled. rw (c.instructions) e;
    known = λ id fn e. record {
      stage = rw (c.table) e;
      input = rw (c.inputs) (sound.inputs id fn e);
      output = rw (c.outputs) (sound.outputs id fn e);
    };
  }

  compiled-Goes :
      (started : ℕ) (auto : Bool) (nodes : Nodes (Body M V W) (Schema V))
      (b : Build (Body M V W) (Schema V))
      → compile_nodes auto nodes (append (event pipeline_start) no_code) ≡ ok b
      → All (NodeOwn object auto) nodes
      → IsCompiledFrom (whole b)
      → Goes s quiet started (λ p. nodes_meaning s auto nodes [] p >>= context_of s) 0
  unfolding append context_of pure ◌>>=◌ NodesPart
  compiled-Goes started auto nodes b h own c =
      let first = append (event pipeline_start) no_code in
      let p₁ =
        append-Part s quiet object started (event pipeline_start) pure no_code refl
          (λ f. emit-Does s quiet started (event pipeline_start) 0 refl) no_code-Sound in
      let (table, p₂) =
        compile_nodes-Part s quiet object started auto nodes first b h own p₁.sound in
      let p₃ =
        append-Part s quiet object started (event pipeline_end) pure b refl
          (λ f. emit-Does s quiet started (event pipeline_end) (length b.instructions) refl)
          p₂.sound in
      let all = Part-trans s quiet object started p₁ (Part-idle s quiet object started p₂ p₃) in
      all.goes (IsCompiledFrom-Fits (whole b) c all.sound) (context_of s) (
        subst (λ (code : List Instruction). Goes s quiet started (context_of s) (length code))
          c.instructions (Goes-end s quiet started))

  ran :
      (fuel : ℕ) (ctx : Context M) (w : W) (m : Place M → Act W (Place M))
      → Goes s quiet (s.services.monotonic w) (λ p. m p >>= context_of s) 0
      → length s.compiled.instructions < fuel
      → run s fuel false ctx w
        ≡ some ((m (record { ctx = ctx; pending = none }) >>= context_of s) w)
  unfolding run context_of ◌>>=◌
  ran fuel ctx w m goes enough =
      ap
        (λ (q : Result (Frame M) × W). elim q.0 [
          | err e ↦ some (err e, q.1)
          | ok f ↦ loop s fuel (s.services.monotonic q.1) f q.1
        ])
        (begin-quiet ctx w)
      ∙ goes fuel (frame_at s (pos 0) ctx) w refl (omega arith)

  -- A fresh run of compiled code, without callbacks and without checkpoints, with more fuel than
  -- there are instructions, ends, and gives the result and the world that the reference semantics of the nodes gives: in every world, whatever
  -- the stages do or raise, with routers, blocks and auto-parallelism. Two stages with the same
  -- identity have to be the same stage, and a router has at least one route.
  pub compile-meaning :
      (version : List Instruction → String) (auto : Bool) (nodes : Nodes (Body M V W) (Schema V))
      (fuel : ℕ) (ctx : Context M) (w : W)
      → compile version auto nodes ≡ ok s.compiled
      → NodesOwn object auto nodes
      → length s.compiled.instructions < fuel
      → run s fuel false ctx w ≡ some (pipeline_meaning s auto nodes ctx w)
  unfolding compile pipeline_meaning append
  compile-meaning version auto nodes fuel ctx w h own enough =
      let started = s.services.monotonic w in
      let (normalized, e₁, k) = >>=-eq-ok (normalize auto nodes) _ h in
      let first = append (event pipeline_start) (no_code {F = Body M V W} {S = Schema V}) in
      let (b, e₂, k') = >>=-eq-ok (compile_nodes auto normalized first) _ k in
      let done : IsCompiledFrom (whole b) = record {
        instructions = ground arith;
        table = ground arith;
        inputs = ground arith;
        outputs = ground arith;
      } in
      let same = normalize-grouped auto nodes normalized e₁ in
      let goes =
        compiled-Goes started auto normalized b e₂ (subst (All (NodeOwn object auto)) same own)
          done in
      ran fuel ctx w (nodes_meaning s auto (grouped auto nodes) [])
        (subst (λ ns. Goes s quiet started (λ p. nodes_meaning s auto ns [] p >>= context_of s) 0)
          (sym same) goes)
        enough
