-- ===== src/Meaning/Routers.antt =====
-- What a route instruction does.
use fluxio.Prelude.{
  ℕ, zero, suc, ◌+◌, ◌<◌, String, Option, none, some, Bool, ◌≡◌, refl, sym, ap, ◌∙◌, inl, inr,
  length, get_elem?, get_elem?-lt, arith, Option-cases,
}
use fluxio.Prelude.Int.{pos}
use fluxio.Prelude.Dict.{Dict, lookup}
use fluxio.Errors.{Result, ok, err, fluxio_error}
use fluxio.Context.{Context}
use fluxio.Bytecode.{Instruction}
use fluxio.Compiler.Build.{RouteBody}
use fluxio.Compiler.Program.{route_with}
use fluxio.Runtime.Act.{Act, pure, raise, lift, ◌>>=◌, and_then}
use fluxio.Runtime.Types.{Body, Schema, StageFunc, Session}
use fluxio.Runtime.Interpreter.{Frame, fetch, resolve_route_map}
use fluxio.Runtime.Loop.{exec, exec_op, exec_route, handle, loop}
use fluxio.Meaning.{Place, chosen, follow, routes_meaning}
use fluxio.Meaning.Machine.{IsQuiet, Goes, notify-quiet, handle-quiet, code, place}
use fluxio.Meaning.Pairs.{IsDistinct, lookup-of_pairs_nil}
use fluxio.Meaning.Routes.{Leads}

module _ {M V W : Type 0} (s : Session M V W) (quiet : IsQuiet s) (object : ℕ → StageFunc M V W)
    (started : ℕ) where
  abbrev routed : Option ℕ → Frame M → W → Result (Frame M) × W
  routed none f w = (err fluxio_error, w)
  routed (some i) f w =
      (ok (record f { ip = pos i; pending_route = none; pending_route_step = none }), w)

  resolved :
      (ips : Dict ℕ) (name : String) (o : Option ℕ)
      → IsDistinct ips
      → lookup name ips ≡ o
      → resolve_route_map (route_with ips) name ≡ elim o [ none ↦ err fluxio_error | some i ↦ ok i ]
  unfolding resolve_route_map
  resolved ips name o d at =
      ap (λ r. elim r [ none ↦ err fluxio_error | some i ↦ ok i ])
        (lookup-of_pairs_nil name ips d ∙ at)

  exec_route-routed :
      (ips : Dict ℕ) (name : String) (o : Option ℕ) (f : Frame M) (w : W)
      → IsDistinct ips
      → f.pending_route ≡ some name
      → lookup name ips ≡ o
      → exec s started (route_with ips) f w ≡ routed o f w
  unfolding exec exec_op exec_route ◌>>=◌ lift pure
  exec_route-routed ips name none f w d asked at =
      simp (asked, exec_route, notify-quiet s quiet, resolved ips name none d at)
  exec_route-routed ips name (some i) f w d asked at =
      simp (asked, exec_route, notify-quiet s quiet, resolved ips name (some i) d at)

  exec_route-missing :
      (ips : Dict ℕ) (f : Frame M) (w : W)
      → f.pending_route ≡ none
      → exec s started (route_with ips) f w ≡ (err fluxio_error, w)
  unfolding exec exec_op exec_route raise
  exec_route-missing ips f w missing = simp (missing, exec_route)

  abbrev going : ℕ → Frame M → Result (Frame M) × W → Option (Result (Context M) × W)
  going fuel f r = elim r.0 [ ok f' ↦ loop s fuel started f' r.1 | err e ↦ some (handle s e f r.1) ]

  after_route :
      (p fuel : ℕ) (k : Place M → Act W (Context M)) (o : Option ℕ)
      (best : Option (Place M → Act W (Place M))) (f : Frame M) (w : W)
      → Leads s quiet object started p k o best
      → length (code s quiet) < p + suc fuel
      → going fuel f (routed o f w) ≡ some (and_then (follow s best (place s quiet f) w) k)
  unfolding follow raise ◌>>=◌
  after_route p fuel k none none f w l enough = rw (handle-quiet s quiet) refl
  after_route p fuel k (some i) (some m) f w l enough =
      l.1 fuel (record f { ip = pos i; pending_route = none; pending_route_step = none }) w refl
        (omega (arith, l.0))
  after_route p fuel k none (some m) f w l enough = absurd l
  after_route p fuel k (some i) none f w l enough = absurd l

  asked_for :
      (auto : Bool) (routes : Dict (RouteBody (Body M V W) (Schema V)))
      (table : Dict (StageFunc M V W)) (q : Place M) (o : Option String)
      → q.pending ≡ o
      → routes_meaning s auto routes table q ≡ elim o [
        | none ↦ raise fluxio_error
        | some name ↦ follow s (chosen s auto name routes table none) q
      ]
  unfolding routes_meaning
  asked_for auto routes table q o same =
      ap
        (λ o. elim o [
          | none ↦ raise fluxio_error
          | some name ↦ follow s (chosen s auto name routes table none) q
        ])
        same

  loop-found :
      (x : Instruction) (p fuel : ℕ) (f : Frame M) (w : W)
      → get_elem? s.compiled.instructions p ≡ some x
      → f.ip ≡ pos p
      → loop s (suc fuel) started f w ≡ going fuel f (exec s started x f w)
  unfolding loop fetch
  loop-found x p fuel f w here at = simp (at, loop, fetch, here)

  pub route-Goes :
      (auto : Bool) (routes : Dict (RouteBody (Body M V W) (Schema V)))
      (table : Dict (StageFunc M V W)) (ips : Dict ℕ) (p : ℕ) (k : Place M → Act W (Context M))
      → get_elem? s.compiled.instructions p ≡ some (route_with ips)
      → IsDistinct ips
      → ((name : String)
          → Leads s quiet object started p k
              (lookup name ips)
              (chosen s auto name routes table none))
      → Goes s quiet started (λ q. routes_meaning s auto routes table q >>= k) p
  unfolding ◌>>=◌ raise
  route-Goes auto routes table ips p k here d leads zero f w at enough =
      absurd (omega (arith, get_elem?-lt s.compiled.instructions p here))
  route-Goes auto routes table ips p k here d leads (suc fuel) f w at enough =
      elim (Option-cases f.pending_route) [
        | inl missing ↦
            loop-found (route_with ips) p fuel f w here at
            ∙ ap (going fuel f) (exec_route-missing ips f w missing)
            ∙ ap some (handle-quiet s quiet fluxio_error f w)
            ∙ ap (λ (m : Act W (Place M)). some (and_then (m w) k))
                (sym (asked_for auto routes table (place s quiet f) none missing))
        | inr (name, asked) ↦
            loop-found (route_with ips) p fuel f w here at
            ∙ ap (going fuel f) (exec_route-routed ips name (lookup name ips) f w d asked refl)
            ∙ after_route p fuel k (lookup name ips) (chosen s auto name routes table none) f w
                (leads name) enough
            ∙ ap (λ (m : Act W (Place M)). some (and_then (m w) k))
                (sym (asked_for auto routes table (place s quiet f) (some name) asked))
      ]
