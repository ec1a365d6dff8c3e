-- ===== src/Meaning/RouterBlocks.antt =====
-- What the code of a router block does, once it is patched.
use fluxio.Prelude.{
  ℕ, ◌<◌, String, List, [], ◌∷◌, none, some, Bool, true, ◌≡◌, refl, sym, ap, ◌∙◌, inl, inr, subst,
  length, length-set, get_elem?, get_elem?-last, get_elem?-lt, All-weaken, arith, Bool-cases, eqb,
  eqb→eq, get_elem?-set_other,
}
use fluxio.Prelude.Dict.{Dict, lookup}
use fluxio.Errors.{Result, ok, >>=-eq-ok}
use fluxio.Context.{Context}
use fluxio.Bytecode.{Instruction}
use fluxio.Compiler.Naming.{node_id}
use fluxio.Compiler.Build.{Build, RouteBody, append, compile_stage}
use fluxio.Compiler.Program.{
  compile_routes, compile_router_block, jump_to_nowhere, jump_to, route_with, patch, patch_jumps,
}
use fluxio.Runtime.Act.{Act, ◌>>=◌}
use fluxio.Runtime.Types.{Body, Schema, StageFunc, Session}
use fluxio.Meaning.{Place, after_stage, after_routes, routes_meaning, stage_meaning}
use fluxio.Meaning.Machine.{IsQuiet, Goes}
use fluxio.Meaning.Objects.{RoutesOwn, IsRouting}
use fluxio.Meaning.Tables.{Sound}
use fluxio.Meaning.Parts.{
  is_settled, Part, Part-trans, append-Sound, append-Fits, append-kept, length-append_code,
}
use fluxio.Meaning.Stages.{compile_stage-Part}
use fluxio.Meaning.Patches.{
  Awaits, patch-Fits, patch-here, patch-Sound, patch_jumps-Fits, patch_jumps-same,
  patch_jumps-below, patch_jumps-Sound,
}
use fluxio.Meaning.Routers.{route-Goes}
use fluxio.Meaning.Routes.{Leads, Routed, compile_routes-Routed, compile_routes-filled_some}

module _ {M V W : Type 0} (s : Session M V W) (quiet : IsQuiet s) (object : ℕ → StageFunc M V W)
    (started : ℕ) where
  -- What is known of a build whose routes are compiled, but not patched.
  record Patching (auto : Bool) (routes : Dict (RouteBody (Body M V W) (Schema V)))
      (called bodies : Build (Body M V W) (Schema V)) (ips : Dict ℕ) (jumps : List ℕ) : Type 0 where
    more :
        Routed s quiet object started auto
          (length called.instructions)
          routes
          (append (route_with []) called)
          bodies
          []
          ips
          []
          jumps
    filled : is_settled (route_with ips) ≡ true

  abbrev patched :
      Dict ℕ
      → Build (Body M V W) (Schema V)
      → Build (Body M V W) (Schema V)
      → Build (Body M V W) (Schema V)
  patched ips called bodies = patch (length called.instructions) (route_with ips) bodies

  placeholders_differ : some (route_with []) ≡ some jump_to_nowhere → ⊥
  placeholders_differ same = cc

  placed : (x : Instruction) → some (route_with []) ≡ some x → x ≡ route_with []
  placed x same = cc

  nothing-Leads :
      (p : ℕ) (k : Place M → Act W (Context M)) (name : String)
      → Leads s quiet object started p k (lookup name []) none
  unfolding lookup
  nothing-Leads p k name = tt

  holes-Await :
      (ips : Dict ℕ) (called bodies : Build (Body M V W) (Schema V)) (j : ℕ)
      → get_elem? bodies.instructions (length called.instructions) ≡ some (route_with [])
      → get_elem? bodies.instructions j ≡ some jump_to_nowhere
      → (j < length (patched ips called bodies).instructions)
        × Awaits s (patched ips called bodies) (jump_to (length bodies.instructions)) j
  unfolding patch
  holes-Await ips called bodies j start hole = (
    rw length-set (get_elem?-lt bodies.instructions j hole),
    λ x e. elim (Bool-cases (eqb j (length called.instructions))) [
      | inl same ↦ absurd (
          placeholders_differ
            (sym start ∙ ap (get_elem? bodies.instructions) (sym (eqb→eq j _ same)) ∙ hole))
      | inr other ↦
          let old =
            get_elem?-set_other bodies.instructions (length called.instructions) (route_with ips) j
              (λ same. ground (arith, same, other)) in
          let here : x ≡ jump_to_nowhere = cc in inl (rw here refl)
    ],
  )

  patched-Part :
      (auto : Bool) (routes : Dict (RouteBody (Body M V W) (Schema V)))
      (called bodies : Build (Body M V W) (Schema V)) (ips : Dict ℕ) (jumps : List ℕ)
      → Patching auto routes called bodies ips jumps
      → Part s quiet object started called
          (patch_jumps jumps (length bodies.instructions) (patched ips called bodies))
          (after_routes auto routes called.symbol_table)
          (routes_meaning s auto routes called.symbol_table)
  unfolding append patch
  patched-Part auto routes called bodies ips jumps h =
      let p = length called.instructions in
      let end = length bodies.instructions in
      let size = length-append_code s quiet object started (route_with []) called in
      let longer = h.more.longer in
      let start =
        h.more.kept p (route_with []) (get_elem?-last called.instructions (route_with [])) in
      let same = patch_jumps-same s jumps end (patched ips called bodies) in
      let same_size = same.1 ∙ length-set bodies.instructions p (route_with ips) in
      let waiting =
        All-weaken jumps (λ j hole. holes-Await ips called bodies j start hole) (h.more.holes tt) in
      let awaits : Awaits s bodies (route_with ips) p =
        λ x e. inl (rw (placed x (sym start ∙ e)) refl) in
      record {
        sound =
            patch_jumps-Sound s object jumps end (patched ips called bodies)
              (patch-Sound s object p (route_with ips) bodies h.more.sound);
        table_is = same.0 ∙ h.more.table_is;
        longer = omega (arith, size, longer, same_size);
        kept = λ i x e.
            let lt = get_elem?-lt called.instructions i e in
            patch_jumps-below s jumps end (patched ips called bodies) p i
              (h.more.beyond p (omega (arith, size)) tt) lt
            ∙ get_elem?-set_other bodies.instructions p (route_with ips) i
                (λ eq. omega (arith, eq, lt))
            ∙ h.more.kept i x (append-kept s quiet object started (route_with []) called i x e);
        fits = λ f. append-Fits s quiet object started (route_with []) called (
            h.more.fits (
              patch-Fits s p (route_with ips) bodies awaits
                (patch_jumps-Fits s jumps end (patched ips called bodies) waiting f).0));
        goes = λ f k g.
            let (inside, jumped) =
              patch_jumps-Fits s jumps end (patched ips called bodies) waiting f in
            let here =
              patch-here s p (route_with ips) bodies (omega (arith, size, longer)) h.filled
                inside in
            let whole = patch-Fits s p (route_with ips) bodies awaits inside in
            route-Goes s quiet object started auto routes called.symbol_table ips p k here
              (h.more.distinct tt)
              (λ name.
                h.more.leads whole k end (omega arith) (subst (Goes s quiet started k) same_size g)
                  jumped name none (omega (arith, size)) (nothing-Leads p k name));
      }

  pub compile_router_block-Part :
      (auto : Bool) (router : StageFunc M V W) (routes : Dict (RouteBody (Body M V W) (Schema V)))
      (b b' : Build (Body M V W) (Schema V))
      → compile_router_block auto router routes b ≡ ok b'
      → object router.ident ≡ router
      → IsRouting object routes
      → RoutesOwn object auto routes
      → Sound object b
      → Part s quiet object started b b'
          (after_routes auto routes (after_stage router b.symbol_table))
          (λ q.
            stage_meaning s (node_id router b.symbol_table) router q
            >>= routes_meaning s auto routes (after_stage router b.symbol_table))
  unfolding compile_router_block
  compile_router_block-Part auto router [] b b' h own some_route owns sound = absurd some_route
  compile_router_block-Part auto router ((name, body) ∷ rest) b b' h own some_route owns sound =
      let routes = (name, body) ∷ rest in
      let (called, e, k) = >>=-eq-ok (compile_stage router b) _ h in
      let first = compile_stage-Part s quiet object started router b called e own sound in
      let start = append (route_with []) called in
      let ((bodies, ips, jumps), e', k') = >>=-eq-ok (compile_routes auto routes start [] []) _ k in
      let more =
        compile_routes-Routed s quiet object started auto (length called.instructions) routes start
          bodies [] ips [] jumps e' owns
          (append-Sound s quiet object started (route_with []) called first.sound) in
      let filled = compile_routes-filled_some auto name body rest start bodies [] ips [] jumps e' in
      let done : Result.ok
            (patch_jumps jumps (length bodies.instructions) (patched ips called bodies))
          ≡ ok b' =
        k' in
      let same : patch_jumps jumps (length bodies.instructions) (patched ips called bodies) ≡ b' =
        cc in
      let last =
        patched-Part auto routes called bodies ips jumps
          (record { more = more; filled = filled }) in
      subst
        (λ c.
          Part s quiet object started b c
            (after_routes auto routes (after_stage router b.symbol_table))
            (λ q.
              stage_meaning s (node_id router b.symbol_table) router q
              >>= routes_meaning s auto routes (after_stage router b.symbol_table)))
        same
        (Part-trans s quiet object started first (
          subst
            (λ t.
              Part s quiet object started called
                (patch_jumps jumps (length bodies.instructions) (patched ips called bodies))
                (after_routes auto routes t) (routes_meaning s auto routes t))
            first.table_is last))
