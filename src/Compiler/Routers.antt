-- ===== src/Compiler/Routers.antt =====
-- The patched instructions of a router block, and the soundness of whole compiled pipelines.
use fluxio.Prelude.{
  ℕ, ◌≤◌, ◌<◌, String, List, [], ◌∷◌, ◌++◌, some, Bool, ◌||◌, ◌≡◌, refl, subst, inl, inr, ◌==◌, All,
  All-weaken, All-snoc, length, get_elem?, length-append, length-set, get_elem?-set, arith,
  Bool-cases,
}
use fluxio.Prelude.Dict.{Dict, insert}
use fluxio.Errors.{Result, ok, >>=-eq-ok}
use fluxio.Stage.{Stage}
use fluxio.Bytecode.{pipeline_start, pipeline_end, Instruction, CompiledPipeline}
use fluxio.Compiler.Grouping.{stage_node, parallel_node, dict_node}
use fluxio.Compiler.Build.{
  Build, RouteBody, Nodes, event, append, compile_stage, compile_parallel, normalize,
}
use fluxio.Compiler.Program.{
  compile_body, compile_routes, jump_to_nowhere, route_with, jump_to, patch, patch_jumps,
  compile_router_block, compile_nodes, no_code, compile,
}
use fluxio.Compiler.Targets.{IsSound, holds, CodeOk, Grows, append-CodeOk}
use fluxio.Compiler.Sound.{compile_stage-Grows, compile_parallel-Grows, compile_body-Grows}

holds-append : (i : ℕ) (xs ys : List ℕ) → holds i (xs ++ ys) ≡ (holds i xs || holds i ys)
holds-append i [] ys = refl
holds-append i (x ∷ xs) ys = ground (arith, holds-append i xs ys)

All-insert {ℓ} :
    (P : ℕ → Type ℓ) (k : String) (v : ℕ) (d : Dict ℕ)
    → P v
    → All (λ (e : String × ℕ). P e.1) d
    → All (λ (e : String × ℕ). P e.1) (insert k v d)
unfolding insert
All-insert P k v [] p h = (p, tt)
All-insert P k v ((j, w) ∷ d) p h = elim (Bool-cases (j == k)) [
  | inl same ↦ rw (same, insert) (p, h.1)
  | inr other ↦ rw (other, insert) (h.0, All-insert P k v d p h.1)
]

module _ {F S : Type 0} where
  -- Overwriting an instruction by one that is sound there closes a hole.
  patch-CodeOk :
      (p : ℕ) (x : Instruction) (b : Build F S) (holes : List ℕ)
      → IsSound (length b.instructions) b.symbol_table p x
      → CodeOk (p ∷ holes) b
      → CodeOk holes (patch p x b)
  unfolding patch
  patch-CodeOk p x b holes good h = record {
    code = λ i y e. elim (get_elem?-set b.instructions p x i e) [
      | inl (here, new) ↦ inl (rw (new, here, length-set) good)
      | inr (away, old) ↦ elim (h.code i y old) [
        | inl sound ↦ inl (rw length-set sound)
        | inr hole ↦ inr (ground (arith, hole))
      ]
    ];
  }

  patch_jumps-CodeOk :
      (jumps : List ℕ) (end : ℕ) (b : Build F S)
      → length b.instructions ≡ end
      → All (λ p. p < end) jumps
      → CodeOk jumps b
      → CodeOk [] (patch_jumps jumps end b)
  unfolding patch_jumps patch
  patch_jumps-CodeOk [] end b e below h = h
  patch_jumps-CodeOk (p ∷ ps) end b e below h =
      patch_jumps-CodeOk ps end (patch p (jump_to end) b) (rw (length-set, e) refl) below.1
        (patch-CodeOk p (jump_to end) b ps (end, refl, below.0, omega (arith, e)) h)

  -- The loop over the routes keeps this: the holes are the placeholder and the jumps so far, and
  -- the routes so far lead behind the placeholder.
  record Routing (p : ℕ) (b : Build F S) (ips : Dict ℕ) (jumps : List ℕ) : Type 0 where
    sound : CodeOk (p ∷ jumps) b
    routes : All (λ (e : String × ℕ). (p < e.1) × (e.1 ≤ length b.instructions)) ips
    ends : All (λ j. j < length b.instructions) jumps
    start : p < length b.instructions

  Routing-more :
      (p : ℕ) (b b' : Build F S) (name : String) (ips : Dict ℕ) (jumps : List ℕ)
      → Grows b b'
      → Routing p b ips jumps
      → Routing p
          (append jump_to_nowhere b')
          (insert name (length b.instructions) ips)
          (jumps ++ length b'.instructions ∷ [])
  unfolding append
  Routing-more p b b' name ips jumps g r =
      let longer = g.longer in
      let one_more = length-append b'.instructions (jump_to_nowhere ∷ []) in
      record {
        sound =
            append-CodeOk jump_to_nowhere b' (p ∷ jumps) (p ∷ jumps ++ length b'.instructions ∷ [])
              (λ i m. ground (arith, m, holds-append i jumps (length b'.instructions ∷ [])))
              (inr (
                ground (
                  arith,
                  holds-append (length b'.instructions) jumps (length b'.instructions ∷ []),
                )))
              (g.keeps (p ∷ jumps) r.sound);
        routes =
            All-insert (λ t. (p < t) × (t ≤ length (b'.instructions ++ jump_to_nowhere ∷ []))) name
              (length b.instructions) ips (r.start, omega (arith, longer, one_more))
              (All-weaken ips (λ e h. (h.0, omega (arith, h.1, longer, one_more))) r.routes);
        ends =
            All-snoc _ jumps (length b'.instructions)
              (All-weaken jumps (λ j h. omega (arith, h, longer, one_more)) r.ends)
              (omega (arith, one_more));
        start = omega (arith, r.start, longer, one_more);
      }

  compile_routes-Routing :
      (auto : Bool) (p : ℕ) (routes : Dict (RouteBody F S)) (b b' : Build F S) (ips ips' : Dict ℕ)
      (jumps jumps' : List ℕ)
      → compile_routes auto routes b ips jumps ≡ ok (b', ips', jumps')
      → Routing p b ips jumps
      → Routing p b' ips' jumps'
  unfolding compile_routes
  compile_routes-Routing auto p [] b b' ips ips' jumps jumps' h r =
      let e₁ : b ≡ b' = ground arith in
      let e₂ : ips ≡ ips' = ground arith in
      let e₃ : jumps ≡ jumps' = ground arith in rw (← e₁, ← e₂, ← e₃) r
  compile_routes-Routing auto p ((name, body) ∷ rest) b b' ips ips' jumps jumps' h r =
      let (c, e, k) = >>=-eq-ok (compile_body auto name body b) _ h in
      compile_routes-Routing auto p rest (append jump_to_nowhere c) b' _ ips' _ jumps' k
        (Routing-more p b c name ips jumps (compile_body-Grows auto name body b c e) r)

  compile_router_block-CodeOk :
      (auto : Bool) (router : Stage F S) (routes : Dict (RouteBody F S)) (b b' : Build F S)
      → compile_router_block auto router routes b ≡ ok b'
      → CodeOk [] b
      → CodeOk [] b'
  unfolding compile_router_block append patch
  compile_router_block-CodeOk auto router routes b b' h c =
      let (called, e, k) = >>=-eq-ok (compile_stage router b) _ h in
      let p = length called.instructions in
      let start = append (route_with []) called in
      let ((bodies, ips, jumps), e', k') = >>=-eq-ok (compile_routes auto routes start [] []) _ k in
      let sound = (compile_stage-Grows router b called e).keeps [] c in
      let r = compile_routes-Routing auto p routes start bodies [] ips [] jumps e' (record {
        sound =
            append-CodeOk (route_with []) called [] (p ∷ []) (λ i m. cc) (inr (ground arith)) sound;
        routes = tt;
        ends = tt;
        start = omega (arith, length-append called.instructions (route_with [] ∷ []));
      }) in
      let patched = patch p (route_with ips) bodies in
      let closed = patch-CodeOk p (route_with ips) bodies jumps (ips, refl, r.routes) r.sound in
      let done : Result.ok (patch_jumps jumps (length bodies.instructions) patched) ≡ ok b' = k' in
      subst (CodeOk []) (cc) (
        patch_jumps-CodeOk jumps (length bodies.instructions) patched (rw length-set refl) r.ends
          closed)

  compile_nodes-CodeOk :
      (auto : Bool) (nodes : Nodes F S) (b b' : Build F S)
      → compile_nodes auto nodes b ≡ ok b'
      → CodeOk [] b
      → CodeOk [] b'
  unfolding compile_nodes
  compile_nodes-CodeOk auto [] b b' h c = subst (CodeOk []) (cc) c
  compile_nodes-CodeOk auto (parallel_node p ∷ rest) b b' h c =
      let (r, e, k) = >>=-eq-ok (compile_parallel p b) _ h in
      compile_nodes-CodeOk auto rest r b' k ((compile_parallel-Grows p b r e).keeps [] c)
  compile_nodes-CodeOk auto (dict_node d ∷ rest) b b' h c = cc
  compile_nodes-CodeOk auto (stage_node s ∷ []) b b' h c =
      let (r, e, k) = >>=-eq-ok (compile_stage s b) _ h in
      compile_nodes-CodeOk auto [] r b' k ((compile_stage-Grows s b r e).keeps [] c)
  compile_nodes-CodeOk auto (stage_node s ∷ dict_node d ∷ rest) b b' h c =
      let (r, e, k) = >>=-eq-ok (compile_router_block auto s d b) _ h in
      compile_nodes-CodeOk auto rest r b' k (compile_router_block-CodeOk auto s d b r e c)
  compile_nodes-CodeOk auto (stage_node s ∷ stage_node t ∷ rest) b b' h c =
      let (r, e, k) = >>=-eq-ok (compile_stage s b) _ h in
      compile_nodes-CodeOk auto (stage_node t ∷ rest) r b' k
        ((compile_stage-Grows s b r e).keeps [] c)
  compile_nodes-CodeOk auto (stage_node s ∷ parallel_node t ∷ rest) b b' h c =
      let (r, e, k) = >>=-eq-ok (compile_stage s b) _ h in
      compile_nodes-CodeOk auto (parallel_node t ∷ rest) r b' k
        ((compile_stage-Grows s b r e).keeps [] c)

  abbrev pub IsSoundCode : CompiledPipeline F S → Type 0
  IsSoundCode c =
      (i : ℕ) (x : Instruction)
      → get_elem? c.instructions i ≡ some x
      → IsSound (length c.instructions) c.symbol_table i x

  CodeOk-no_holes :
      (b : Build F S)
      → CodeOk [] b
      → (i : ℕ) (x : Instruction) → get_elem? b.instructions i ≡ some x
      → IsSound (length b.instructions) b.symbol_table i x
  CodeOk-no_holes b c i x e = elim (c.code i x e) [
    | inl sound ↦ sound
    | inr hole ↦ absurd (cc hole)
  ]

  pub compile-IsSoundCode :
      (version : List Instruction → String) (auto : Bool) (nodes : Nodes F S)
      (c : CompiledPipeline F S)
      → compile version auto nodes ≡ ok c
      → IsSoundCode c
  unfolding compile append
  compile-IsSoundCode version auto nodes c h i x e =
      let (normalized, e₁, k) = >>=-eq-ok (normalize auto nodes) _ h in
      let first = append (event pipeline_start) no_code in
      let (b, e₂, k') = >>=-eq-ok (compile_nodes auto normalized first) _ k in
      let start : CodeOk [] first =
        append-CodeOk (event pipeline_start) no_code [] [] (λ i m. m) (inl tt)
          (record { code = λ i x e. cc }) in
      let body = compile_nodes-CodeOk auto normalized first b e₂ start in
      let all = append-CodeOk (event pipeline_end) b [] [] (λ i m. m) (inl tt) body in
      let code : c.instructions ≡ b.instructions ++ event pipeline_end ∷ [] = ground arith in
      let table : c.symbol_table ≡ b.symbol_table = ground arith in
      rw (code, table) (CodeOk-no_holes (append (event pipeline_end) b) all i x (rw code at e))
