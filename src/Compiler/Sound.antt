-- ===== src/Compiler/Sound.antt =====
-- The compiled code relies on nothing that the compiler has not set up.
use fluxio.Prelude.{
  String, List, [], ◌∷◌, ◌++◌, some, Bool, true, ◌≡◌, refl, subst, All, All-weaken, All-snoc, arith,
}
use fluxio.Prelude.Dict.{Dict, member}
use fluxio.Errors.{Result, ok, err, ◌>>=◌, >>=-eq-ok, compilation_error, empty_route}
use fluxio.Stage.{Stage, Parallel, ForkMode}
use fluxio.Bytecode.{
  call, fork, join, validate_input, validate_output, checkpoint, step_start, step_end, branch, bare,
}
use fluxio.Compiler.Naming.{node_id}
use fluxio.Compiler.Grouping.{Node, stage_node, parallel_node, dict_node}
use fluxio.Compiler.Build.{
  Build, RouteBody, event, on_node, step_event, append, append_if, register, stage_code,
  compile_stage, put_set, register_branches, check_write_conflicts, is_parallel_mode, parallel_code,
  compile_parallel, unwrap_route_body, normalize,
}
use fluxio.Compiler.Program.{compile_sub, compile_subs, compile_body}
use fluxio.Compiler.Targets.{
  Grows, Grows-refl, Grows-trans, append-Grows, append_if-Grows, register-Grows,
}

module _ {F S : Type 0} where
  stage_code-Grows :
      (id : String) (b : Build F S) → member id b.symbol_table ≡ true → Grows b (stage_code id b)
  unfolding stage_code
  stage_code-Grows id b m =
      let b₁ = append (on_node checkpoint id) b in
      let b₂ = append (step_event step_start id) b₁ in
      let b₃ = append_if (member id b.input_schemas) (on_node validate_input id) b₂ in
      let b₄ = append (on_node call id) b₃ in
      let b₅ = append_if (member id b.output_schemas) (on_node validate_output id) b₄ in
      let g₁ = append-Grows (on_node checkpoint id) b tt in
      let g₂ = Grows-trans g₁ (append-Grows (step_event step_start id) b₁ tt) in
      let g₃ =
        Grows-trans g₂
          (append_if-Grows (member id b.input_schemas) (on_node validate_input id) b₂ (id, refl)) in
      let g₄ = Grows-trans g₃ (append-Grows (on_node call id) b₃ (id, refl, g₃.extends id m)) in
      let g₅ =
        Grows-trans g₄ (
          append_if-Grows (member id b.output_schemas) (on_node validate_output id) b₄
            (id, refl)) in
      Grows-trans g₅ (append-Grows (step_event step_end id) b₅ tt)

  pub compile_stage-Grows :
      (fn : Stage F S) (b b' : Build F S) → compile_stage fn b ≡ ok b' → Grows b b'
  unfolding compile_stage
  compile_stage-Grows fn b b' h =
      let id = node_id fn b.symbol_table in
      let (r, e, k) = >>=-eq-ok (register id fn b) _ h in
      let (grown, m) = register-Grows id fn b r e in
      let done : Result.ok (stage_code id r) ≡ ok b' = k in
      subst (Grows b) (cc) (Grows-trans grown (stage_code-Grows id r m))

  -- What the loop over the branches gives.
  record Registered (b b' : Build F S) (ids : List String) : Type 0 where
    grows : Grows b b'
    named : All (λ id. member id b'.symbol_table ≡ true) ids

  register_branches-Registered :
      (fns : List (Stage F S)) (b b' : Build F S) (ids ids' : List String)
      (declared declared' : Dict (List String))
      → register_branches fns b ids declared ≡ ok (b', ids', declared')
      → All (λ id. member id b.symbol_table ≡ true) ids
      → Registered b b' ids'
  unfolding register_branches
  register_branches-Registered [] b b' ids ids' declared declared' h m =
      let same : b ≡ b' = ground arith in
      let names : ids ≡ ids' = ground arith in
      rw (← same, ← names) (record { grows = Grows-refl b; named = m })
  register_branches-Registered (fn ∷ fns) b b' ids ids' declared declared' h m =
      let id = node_id fn b.symbol_table in
      let (r, e, k) = >>=-eq-ok (register id fn b) _ h in
      let (grown, new) = register-Grows id fn b r e in
      let more =
        register_branches-Registered fns r b' (ids ++ id ∷ []) ids' (put_set id fn.writes declared)
          declared' k
          (All-snoc (λ id. member id r.symbol_table ≡ true) ids id (All-weaken ids grown.extends m)
            new) in
      record { grows = Grows-trans grown more.grows; named = more.named }

  parallel_code-Grows :
      (ids : List String) (mode : ForkMode) (b : Build F S)
      → All (λ id. member id b.symbol_table ≡ true) ids
      → Grows b (parallel_code ids mode b)
  unfolding parallel_code
  parallel_code-Grows ids mode b m =
      let announce = record (event branch) { branch_ids = some ids } in
      let forked = record (bare fork) { branch_ids = some ids; mode = some mode } in
      let b₁ = append announce b in
      let b₂ = append forked b₁ in
      let g₁ = append-Grows announce b tt in
      let g₂ = Grows-trans g₁ (append-Grows forked b₁ (ids, refl, All-weaken ids g₁.extends m)) in
      Grows-trans g₂ (append_if-Grows (is_parallel_mode mode) (bare join) b₂ tt)

  pub compile_parallel-Grows :
      (block : Parallel F S) (b b' : Build F S) → compile_parallel block b ≡ ok b' → Grows b b'
  unfolding compile_parallel
  compile_parallel-Grows block b b' h =
      let ((r, ids, declared), e, k) = >>=-eq-ok (register_branches block.branches b [] []) _ h in
      let (checked, e', k') = >>=-eq-ok (check_write_conflicts declared) _ k in
      let reg = register_branches-Registered block.branches b r [] ids [] declared e tt in
      let done : Result.ok (parallel_code ids block.mode r) ≡ ok b' = k' in
      subst (Grows b) (cc) (Grows-trans reg.grows (parallel_code-Grows ids block.mode r reg.named))

  compile_subs-Grows :
      (nodes : List (Node F S Unit)) (b b' : Build F S) → compile_subs nodes b ≡ ok b' → Grows b b'
  unfolding compile_subs compile_sub
  compile_subs-Grows [] b b' h = subst (Grows b) (cc) (Grows-refl b)
  compile_subs-Grows (stage_node s ∷ nodes) b b' h =
      let (r, e, k) = >>=-eq-ok (compile_stage s b) _ h in
      Grows-trans (compile_stage-Grows s b r e) (compile_subs-Grows nodes r b' k)
  compile_subs-Grows (parallel_node p ∷ nodes) b b' h =
      let (r, e, k) = >>=-eq-ok (compile_parallel p b) _ h in
      Grows-trans (compile_parallel-Grows p b r e) (compile_subs-Grows nodes r b' k)
  compile_subs-Grows (dict_node d ∷ nodes) b b' h = cc

  pub compile_body-Grows :
      (auto : Bool) (name : String) (body : RouteBody F S) (b b' : Build F S)
      → compile_body auto name body b ≡ ok b'
      → Grows b b'
  unfolding compile_body
  compile_body-Grows auto name body b b' h = given (unwrap_route_body body) h
    where
      given :
          (nodes : List (Node F S Unit))
          → (elim nodes [
            | [] ↦ err (compilation_error (empty_route name))
            | n ∷ ns ↦ normalize auto (n ∷ ns) >>= (λ nodes. compile_subs nodes b)
          ])
            ≡ ok b'
          → Grows b b'
      given [] h = cc
      given (n ∷ ns) h =
          let (nodes, e, k) = >>=-eq-ok (normalize auto (n ∷ ns)) _ h in
          compile_subs-Grows nodes b b' k
