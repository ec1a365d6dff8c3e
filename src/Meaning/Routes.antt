-- ===== src/Meaning/Routes.antt =====
-- What the code of a router and its routes does.
use fluxio.Prelude.{
  ℕ, ◌<◌, ◌≤◌, String, List, [], ◌∷◌, ◌++◌, Option, none, some, Bool, true, ◌≡◌, refl, sym, ap, ◌∙◌,
  subst, length, get_elem?, get_elem?-last, All-snoc, if◌then◌else◌, arith, All, ◌==◌, Bool-cases,
  inl, inr,
}
use fluxio.Prelude.Dict.{Dict, lookup, insert, lookup-insert}
use fluxio.Errors.{ok, err, >>=-eq-ok, compilation_error, empty_route, ◌>>=◌ as and_result}
use fluxio.Context.{Context}
use fluxio.Bytecode.{Instruction}
use fluxio.Compiler.Grouping.{Node}
use fluxio.Compiler.Build.{Build, append, RouteBody, unwrap_route_body, normalize}
use fluxio.Compiler.Program.{
  compile_subs, compile_body, compile_routes, jump_to_nowhere, jump_to, route_with,
}
use fluxio.Runtime.Act.{Act, pure, ◌>>=◌}
use fluxio.Runtime.Types.{Body, Schema, StageFunc, Session}
use fluxio.Meaning.{
  grouped, after_body, after_routes, body_meaning, chosen, Place, after_subs, subs_meaning,
}
use fluxio.Meaning.Machine.{IsQuiet, Goes, Goes-Does}
use fluxio.Meaning.Instructions.{jump-Does}
use fluxio.Meaning.Objects.{SubOwn, BodyOwn, RoutesOwn}
use fluxio.Meaning.Tables.{Sound}
use fluxio.Meaning.Parts.{
  is_settled, Fits, Part, append-Fits, append-kept, append-Sound, length-append_code,
}
use fluxio.Meaning.Blocks.{compile_subs-Part}
use fluxio.Meaning.Pairs.{IsDistinct, insert-IsDistinct}

All-init : (P : ℕ → Type 0) (js : List ℕ) (j : ℕ) → All P (js ++ j ∷ []) → All P js × P j
All-init P [] j h = (tt, h.0)
All-init P (i ∷ js) j h = let (more, last) = All-init P js j h.1 in ((h.0, more), last)

module _ {F S R : Type 0} where
  pub normalize-grouped :
      (auto : Bool) (nodes out : List (Node F S R))
      → normalize auto nodes ≡ ok out
      → grouped auto nodes ≡ out
  normalize-grouped auto nodes out e = rw (grouped, e) refl

module _ {M V W : Type 0} (s : Session M V W) (quiet : IsQuiet s) (object : ℕ → StageFunc M V W)
    (started : ℕ) where
  pub compile_body-Part :
      (auto : Bool) (name : String) (body : RouteBody (Body M V W) (Schema V))
      (b c : Build (Body M V W) (Schema V))
      → compile_body auto name body b ≡ ok c
      → BodyOwn object auto body
      → Sound object b
      → Part s quiet object started b c
          (after_body auto body b.symbol_table)
          (body_meaning s auto body b.symbol_table)
  unfolding compile_body body_meaning
  compile_body-Part auto name body b c h own sound = given (unwrap_route_body body) h own
    where
      given :
          (nodes : List (Node (Body M V W) (Schema V) (Unit {0})))
          → (elim nodes [
            | [] ↦ err (compilation_error (empty_route name))
            | n ∷ ns ↦ and_result (normalize auto (n ∷ ns)) (λ nodes. compile_subs nodes b)
          ])
            ≡ ok c
          → All (SubOwn object) (grouped auto nodes)
          → Part s quiet object started b c
              (after_subs (grouped auto nodes) b.symbol_table)
              (subs_meaning s (grouped auto nodes) b.symbol_table)
      given [] h own = absurd (cc h)
      given (n ∷ ns) h own =
          let (nodes, e, k) = >>=-eq-ok (normalize auto (n ∷ ns)) _ h in
          let same = normalize-grouped auto (n ∷ ns) nodes e in
          subst
            (λ ns.
              Part s quiet object started b c (after_subs ns b.symbol_table)
                (subs_meaning s ns b.symbol_table))
            (sym same)
            (compile_subs-Part s quiet object started nodes b c k
              (subst (All (SubOwn object)) same own) sound)

  -- A route's index in the code, and what the route means.
  abbrev pub Leads :
      ℕ → (Place M → Act W (Context M)) → Option ℕ → Option (Place M → Act W (Place M)) → Type 0
  Leads p k none none = Unit
  Leads p k (some i) (some m) = (p < i) × Goes s quiet started (λ q. m q >>= k) i
  Leads p k _ _ = ⊥

  -- What the loop over the routes gives, behind a placeholder at `p`.
  pub record Routed (auto : Bool) (p : ℕ) (routes : Dict (RouteBody (Body M V W) (Schema V)))
      (b b' : Build (Body M V W) (Schema V)) (ips ips' : Dict ℕ) (jumps jumps' : List ℕ)
      : Type 0 where
    pub sound : Sound object b'
    pub table_is : b'.symbol_table ≡ after_routes auto routes b.symbol_table
    pub longer : length b.instructions ≤ length b'.instructions
    pub fits : Fits s b' → Fits s b
    pub kept :
        (i : ℕ) (x : Instruction)
        → get_elem? b.instructions i ≡ some x
        → get_elem? b'.instructions i ≡ some x
    pub distinct : IsDistinct ips → IsDistinct ips'
    pub jumps_kept :
        (end : ℕ)
        → All (λ j. get_elem? s.compiled.instructions j ≡ some (jump_to end)) jumps'
        → All (λ j. get_elem? s.compiled.instructions j ≡ some (jump_to end)) jumps
    pub beyond :
        (n : ℕ) → n ≤ length b.instructions → All (λ j. n ≤ j) jumps → All (λ j. n ≤ j) jumps'
    pub holes :
        All (λ j. get_elem? b'.instructions j ≡ some jump_to_nowhere) jumps
        → All (λ j. get_elem? b'.instructions j ≡ some jump_to_nowhere) jumps'
    pub leads :
        Fits s b'
        → (k : Place M → Act W (Context M)) (end : ℕ) → length b'.instructions ≤ end
        → Goes s quiet started k end
        → All (λ j. get_elem? s.compiled.instructions j ≡ some (jump_to end)) jumps'
        → (name : String) (best : Option (Place M → Act W (Place M))) → p < length b.instructions
        → Leads p k (lookup name ips) best
        → Leads p k (lookup name ips') (chosen s auto name routes b.symbol_table best)

  routes-nil :
      (auto : Bool) (p : ℕ) (b : Build (Body M V W) (Schema V)) (ips : Dict ℕ) (jumps : List ℕ)
      → Sound object b
      → Routed auto p [] b b ips ips jumps jumps
  unfolding chosen
  routes-nil auto p b ips jumps sound = record {
    sound = sound;
    table_is = refl;
    longer = omega arith;
    fits = λ f. f;
    kept = λ i x e. e;
    distinct = λ d. d;
    jumps_kept = λ end all. all;
    beyond = λ n le all. all;
    holes = λ all. all;
    leads = λ f k end le goes all name best lt l. l;
  }

  -- The entry of one more route.
  more-Leads :
      (p i : ℕ) (k : Place M → Act W (Context M)) (m : Place M → Act W (Place M)) (r name : String)
      (ips : Dict ℕ) (best : Option (Place M → Act W (Place M)))
      → p < i
      → Goes s quiet started (λ q. m q >>= k) i
      → Leads p k (lookup name ips) best
      → Leads p k (lookup name (insert r i ips)) (if r == name then some m else best)
  more-Leads p i k m r name ips best lt goes l = elim (Bool-cases (r == name)) [
    | inl same ↦ rw (lookup-insert, same) (lt, goes)
    | inr other ↦ rw (lookup-insert, other) l
  ]

  routes-cons :
      (auto : Bool) (p : ℕ) (name : String) (body : RouteBody (Body M V W) (Schema V))
      (rest : Dict (RouteBody (Body M V W) (Schema V))) (b c b' : Build (Body M V W) (Schema V))
      (ips ips' : Dict ℕ) (jumps jumps' : List ℕ)
      → Part s quiet object started b c
          (after_body auto body b.symbol_table)
          (body_meaning s auto body b.symbol_table)
      → Routed auto p rest
          (append jump_to_nowhere c)
          b'
          (insert name (length b.instructions) ips)
          ips'
          (jumps ++ length c.instructions ∷ [])
          jumps'
      → Routed auto p ((name, body) ∷ rest) b b' ips ips' jumps jumps'
  unfolding chosen append pure ◌>>=◌
  routes-cons auto p name body rest b c b' ips ips' jumps jumps' part more =
      let size = length-append_code s quiet object started jump_to_nowhere c in
      record {
        sound = more.sound;
        table_is = more.table_is ∙ ap (after_routes auto rest) part.table_is;
        longer = omega (arith, part.longer, size, more.longer);
        fits = λ f. part.fits (append-Fits s quiet object started jump_to_nowhere c (more.fits f));
        kept = λ i x e.
            more.kept i x
              (append-kept s quiet object started jump_to_nowhere c i x (part.kept i x e));
        distinct = λ d. more.distinct (insert-IsDistinct name (length b.instructions) ips d);
        jumps_kept =
            λ end all. (All-init _ jumps (length c.instructions) (more.jumps_kept end all)).0;
        beyond = λ n le all. more.beyond n (omega (arith, le, part.longer, size)) (
            All-snoc (λ j. n ≤ j) jumps (length c.instructions) all
              (omega (arith, le, part.longer)));
        holes = λ all. more.holes (
            All-snoc _ jumps (length c.instructions) all (
              more.kept (length c.instructions) jump_to_nowhere
                (get_elem?-last c.instructions jump_to_nowhere)));
        leads = λ f k end le goes all label best lt l.
            let here = (All-init _ jumps (length c.instructions) (more.jumps_kept end all)).1 in
            let inside = append-Fits s quiet object started jump_to_nowhere c (more.fits f) in
            let jumped =
              Goes-Does s quiet started (jump_to end) (length c.instructions) end pure k here
                (jump-Does s quiet started (length c.instructions) end)
                (omega (arith, size, more.longer, le)) goes in
            let entry = part.goes inside k jumped in
            subst
              (λ t. Leads p k (lookup label ips') (
                chosen s auto label rest t
                  (if name == label then some (body_meaning s auto body b.symbol_table) else best)))
              part.table_is
              (more.leads f k end le goes all label
                (if name == label then some (body_meaning s auto body b.symbol_table) else best)
                (omega (arith, lt, part.longer, size))
                (more-Leads p (length b.instructions) k (body_meaning s auto body b.symbol_table)
                  name label ips best lt entry l));
      }

  pub compile_routes-Routed :
      (auto : Bool) (p : ℕ) (routes : Dict (RouteBody (Body M V W) (Schema V)))
      (b b' : Build (Body M V W) (Schema V)) (ips ips' : Dict ℕ) (jumps jumps' : List ℕ)
      → compile_routes auto routes b ips jumps ≡ ok (b', ips', jumps')
      → RoutesOwn object auto routes
      → Sound object b
      → Routed auto p routes b b' ips ips' jumps jumps'
  unfolding compile_routes
  compile_routes-Routed auto p [] b b' ips ips' jumps jumps' h own sound =
      let e₁ : b ≡ b' = ground arith in
      let e₂ : ips ≡ ips' = ground arith in
      let e₃ : jumps ≡ jumps' = ground arith in
      rw (← e₁, ← e₂, ← e₃) (routes-nil auto p b ips jumps sound)
  compile_routes-Routed auto p ((name, body) ∷ rest) b b' ips ips' jumps jumps' h own sound =
      let (c, e, k) = >>=-eq-ok (compile_body auto name body b) _ h in
      let part = compile_body-Part auto name body b c e own.0 sound in
      routes-cons auto p name body rest b c b' ips ips' jumps jumps' part (
        compile_routes-Routed auto p rest (append jump_to_nowhere c) b' _ ips' _ jumps' k own.1
          (append-Sound s quiet object started jump_to_nowhere c part.sound))

insert-filled : (k : String) (v : ℕ) (d : Dict ℕ) → is_settled (route_with (insert k v d)) ≡ true
unfolding insert
insert-filled k v [] = refl
insert-filled k v ((j, w) ∷ d) = elim (Bool-cases (j == k)) [
  | inl same ↦ rw (same, insert) refl
  | inr other ↦ rw (other, insert) refl
]

module _ {F S : Type 0} where
  compile_routes-filled :
      (auto : Bool) (routes : Dict (RouteBody F S)) (b b' : Build F S) (ips ips' : Dict ℕ)
      (jumps jumps' : List ℕ)
      → compile_routes auto routes b ips jumps ≡ ok (b', ips', jumps')
      → is_settled (route_with ips) ≡ true
      → is_settled (route_with ips') ≡ true
  unfolding compile_routes
  compile_routes-filled auto [] b b' ips ips' jumps jumps' h filled =
      let same : ips ≡ ips' = ground arith in rw (← same) filled
  compile_routes-filled auto ((name, body) ∷ rest) b b' ips ips' jumps jumps' h filled =
      let (c, e, k) = >>=-eq-ok (compile_body auto name body b) _ h in
      compile_routes-filled auto rest (append jump_to_nowhere c) b' _ ips' _ jumps' k
        (insert-filled name (length b.instructions) ips)

  pub compile_routes-filled_some :
      (auto : Bool) (name : String) (body : RouteBody F S) (rest : Dict (RouteBody F S))
      (b b' : Build F S) (ips ips' : Dict ℕ) (jumps jumps' : List ℕ)
      → compile_routes auto ((name, body) ∷ rest) b ips jumps ≡ ok (b', ips', jumps')
      → is_settled (route_with ips') ≡ true
  unfolding compile_routes
  compile_routes-filled_some auto name body rest b b' ips ips' jumps jumps' h =
      let (c, e, k) = >>=-eq-ok (compile_body auto name body b) _ h in
      compile_routes-filled auto rest (append jump_to_nowhere c) b' _ ips' _ jumps' k
        (insert-filled name (length b.instructions) ips)
