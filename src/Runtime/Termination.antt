-- ===== src/Runtime/Termination.antt =====
-- A run of a compiled pipeline ends: every instruction leads forward.
use fluxio.Prelude.{
  ℕ, zero, suc, ◌+◌, ◌≤◌, ◌<◌, String, List, [], ◌∷◌, Option, none, some, Bool, true, false, ◌≡◌,
  refl, subst, ◌⊎◌, inl, inr, ◌==◌, All, length, get_elem?, get_elem?-lt, arith, Bool-cases,
  Option-cases,
}
use fluxio.Prelude.Int.{pos, succ_ℤ}
use fluxio.Prelude.Dict.{Dict, lookup, insert, lookup-nil, lookup-insert}
use fluxio.Errors.{Result, ok, err}
use fluxio.Context.{Context}
use fluxio.Bytecode.{
  OpCode, call, fork, join, route, jump, validate_input, validate_output, emit, checkpoint,
  Instruction,
}
use fluxio.Compiler.Targets.{IsSound, Relies}
use fluxio.Compiler.Build.{Nodes}
use fluxio.Compiler.Program.{compile}
use fluxio.Compiler.Routers.{IsSoundCode, compile-IsSoundCode}
use fluxio.Runtime.Lands.{
  Lands, Lands-pure, Lands-raise, Lands-lift, Lands-bind, Lands-bind-lift, Lands-if,
}
use fluxio.Runtime.Types.{Outcome, context, send, Body, Schema, Session}
use fluxio.Runtime.Interpreter.{Frame, fetch, of_pairs, resolve_route_map}
use fluxio.Runtime.Loop.{
  next, exec_op, exec, after_fork, handle_fork, exec_call, exec_route, apply_outcome, handle, loop,
  begin, run,
}

-- The value that a dict built from pairs has at a key stands in one of the pairs.
lookup-of_pairs {ℓ} :
    (P : ℕ → Type ℓ) (k : String) (m : List (String × ℕ)) (d : Dict ℕ) (v : ℕ)
    → All (λ (e : String × ℕ). P e.1) m
    → ((v : ℕ) → lookup k d ≡ some v → P v)
    → lookup k (of_pairs m d) ≡ some v
    → P v
unfolding of_pairs
lookup-of_pairs P k [] d v h hd e = hd v e
lookup-of_pairs P k ((j, u) ∷ m) d v h hd e = lookup-of_pairs P k m (insert j u d) v h.1 inserted e
  where
    inserted : (v : ℕ) → lookup k (insert j u d) ≡ some v → P v
    inserted v e' = elim (Bool-cases (j == k)) [
      | inl here ↦ subst P (cc (rw (lookup-insert, here) at e')) h.0
      | inr away ↦ hd v (rw (lookup-insert, away) at e')
    ]

resolve_route_map-forward :
    (x : Instruction) (name : String) (ip i n : ℕ) (m : List (String × ℕ))
    → x.route_map ≡ some m
    → All (λ (e : String × ℕ). (i < e.1) × (e.1 ≤ n)) m
    → resolve_route_map x name ≡ ok ip
    → i < ip
unfolding resolve_route_map
resolve_route_map-forward x name ip i n m given forward e =
    (lookup-of_pairs (λ t. (i < t) × (t ≤ n)) name m [] ip forward
      (λ v e'. absurd (cc (rw lookup-nil at e'))) (ground (arith, given))).0

-- The fuel was enough.
abbrev pub ended : {A W : Type 0} → Option (Result A × W) → Bool
ended none = false
ended (some r) = true

module _ {M V W : Type 0} (s : Session M V W) where
  -- The frame stands at an index from `n` on.
  abbrev pub AtLeast : ℕ → Frame M → Type 0
  AtLeast n f = (m : ℕ) × (f.ip ≡ pos m) × (n ≤ m)

  next-AtLeast : (f : Frame M) (i : ℕ) → f.ip ≡ pos i → AtLeast (suc i) (next f)
  next-AtLeast f i at = (i + 1, rw at refl, omega arith)

  after_fork-ip :
      (x : Instruction) (f f' : Frame M) (results : List (Context M)) (i : ℕ)
      → f.ip ≡ pos i
      → after_fork s x f results ≡ ok f'
      → (f'.ip ≡ pos (i + 1)) ⊎ (f'.ip ≡ pos (i + 1 + 1))
  unfolding after_fork
  after_fork-ip x f f' results i at h = ground arith

  after_fork-AtLeast :
      (x : Instruction) (f f' : Frame M) (results : List (Context M)) (i : ℕ)
      → f.ip ≡ pos i
      → after_fork s x f results ≡ ok f'
      → AtLeast (suc i) f'
  after_fork-AtLeast x f f' results i at h = elim (after_fork-ip x f f' results i at h) [
    | inl e ↦ (i + 1, e, omega arith)
    | inr e ↦ (i + 1 + 1, e, omega arith)
  ]

  handle_fork-Lands :
      (x : Instruction) (f : Frame M) (i : ℕ)
      → f.ip ≡ pos i
      → Lands (AtLeast (suc i)) (handle_fork s x f)
  unfolding handle_fork
  handle_fork-Lands x f i at = elim (Option-cases x.branch_ids) [
    | inl missing ↦ rw (missing, handle_fork) (Lands-raise _)
    | inr (ids, given) ↦
        rw (given, handle_fork)
          (Lands-bind _ _ λ branches.
            Lands-bind _ _ λ results. Lands-lift _ λ f' e. after_fork-AtLeast x f f' results i at e)
  ]

  apply_outcome-ip :
      (id : String) (outcome : Outcome M V) (f : Frame M)
      → (apply_outcome s id outcome f).ip ≡ succ_ℤ f.ip
  unfolding apply_outcome
  apply_outcome-ip id (context c) f = refl
  apply_outcome-ip id (send r) f = refl

  apply_outcome-AtLeast :
      (id : String) (outcome : Outcome M V) (f : Frame M) (i : ℕ)
      → f.ip ≡ pos i
      → AtLeast (suc i) (apply_outcome s id outcome f)
  apply_outcome-AtLeast id outcome f i at =
      (i + 1, rw (apply_outcome-ip id outcome f, at) refl, omega arith)

  exec_call-Lands :
      (x : Instruction) (f : Frame M) (i : ℕ)
      → f.ip ≡ pos i
      → Lands (AtLeast (suc i)) (exec_call s x f)
  unfolding exec_call
  exec_call-Lands x f i at = elim (Option-cases x.node_id) [
    | inl missing ↦ rw (missing, exec_call) (Lands-raise _)
    | inr (id, given) ↦ elim (Option-cases (lookup id s.compiled.symbol_table)) [
      | inl unknown ↦ rw (given, exec_call, unknown) (Lands-raise _)
      | inr (fn, known) ↦
          rw (given, exec_call, known)
            (Lands-bind _ _ λ outcome. Lands-pure _ (apply_outcome-AtLeast id outcome f i at))
    ]
  ]

  exec_route-Lands :
      (x : Instruction) (f : Frame M) (i n : ℕ)
      → Relies route n s.compiled.symbol_table i x
      → Lands (AtLeast (suc i)) (exec_route s x f)
  unfolding exec_route
  exec_route-Lands x f i n (m, given, forward) = elim (Option-cases f.pending_route) [
    | inl missing ↦ rw (missing, exec_route) (Lands-raise _)
    | inr (name, pending) ↦
        rw (pending, exec_route)
          (Lands-bind _ _ λ told. Lands-bind-lift _ _ λ ip e.
            Lands-pure _ (ip, refl, resolve_route_map-forward x name ip i n m given forward e))
  ]

  exec_op-Lands :
      (op : OpCode) (started : ℕ) (x : Instruction) (f : Frame M) (i n : ℕ)
      → f.ip ≡ pos i
      → Relies op n s.compiled.symbol_table i x
      → Lands (AtLeast (suc i)) (exec_op s op started x f)
  unfolding exec_op
  exec_op-Lands emit started x f i n at r =
      Lands-bind _ _ λ timers. Lands-pure _ (next-AtLeast f i at)
  exec_op-Lands checkpoint started x f i n at r =
      Lands-bind _ _ λ saved. Lands-pure _ (next-AtLeast f i at)
  exec_op-Lands validate_input started x f i n at r =
      Lands-bind _ _ λ valid. Lands-pure _ (next-AtLeast f i at)
  exec_op-Lands validate_output started x f i n at r =
      Lands-bind _ _ λ valid. Lands-pure _ (next-AtLeast f i at)
  exec_op-Lands call started x f i n at r = exec_call-Lands x f i at
  exec_op-Lands fork started x f i n at r = handle_fork-Lands x f i at
  exec_op-Lands join started x f i n at r = Lands-pure _ (next-AtLeast f i at)
  exec_op-Lands route started x f i n at r = exec_route-Lands x f i n r
  exec_op-Lands jump started x f i n at (t, e, lo, hi) =
      Lands-bind-lift _ _ λ ip e'. Lands-pure _ (t, ground arith, lo)

  pub exec-AtLeast :
      (started : ℕ) (x : Instruction) (f f' : Frame M) (i n : ℕ) (w w' : W)
      → f.ip ≡ pos i
      → IsSound n s.compiled.symbol_table i x
      → exec s started x f w ≡ (ok f', w')
      → AtLeast (suc i) f'
  unfolding exec
  exec-AtLeast started x f f' i n w w' at r h =
      (exec_op-Lands x.op started x f i n at r).at w w' f' h

  -- What follows an instruction ends, if the rest of the loop does.
  rest_ended :
      (r : Result (Frame M)) (fuel started : ℕ) (f : Frame M) (w : W)
      → ((f' : Frame M) → r ≡ ok f' → ended (loop s fuel started f' w) ≡ true)
      → ended (elim r [ ok f' ↦ loop s fuel started f' w | err e ↦ some (handle s e f w) ]) ≡ true
  rest_ended (ok f') fuel started f w h = h f' refl
  rest_ended (err e) fuel started f w h = refl

  -- From index `i`, fuel for each instruction from there on, and one more, is enough.
  pub ended-loop :
      IsSoundCode s.compiled
      → (fuel started : ℕ) (f : Frame M) (w : W) (i : ℕ) → f.ip ≡ pos i
      → length s.compiled.instructions < i + fuel
      → 0 < fuel
      → ended (loop s fuel started f w) ≡ true
  unfolding loop fetch
  ended-loop sound zero started f w i at enough some_fuel = absurd (omega arith)
  ended-loop sound (suc fuel) started f w i at enough some_fuel =
      elim (Option-cases (get_elem? s.compiled.instructions i)) [
        | inl past ↦ rw (at, loop, past) refl
        | inr (x, here) ↦
            let (r, w') = exec s started x f w in
            rw (at, loop, here)
              (rest_ended r fuel started f w' λ f' e.
                let (m, at', le) = exec-AtLeast started x f f' i _ w w' at (sound i x here) (cc) in
                ended-loop sound fuel started f' w' m at' (omega arith)
                  (omega (arith, get_elem?-lt s.compiled.instructions i here)))
      ]

  ended-begin :
      (r : Result (Frame M)) (fuel : ℕ) (w : W)
      → ((f : Frame M) → r ≡ ok f → ended (loop s fuel (s.services.monotonic w) f w) ≡ true)
      → ended (elim r [ err e ↦ some (err e, w) | ok f ↦ loop s fuel (s.services.monotonic w) f w ])
        ≡ true
  ended-begin (ok f) fuel w h = h f refl
  ended-begin (err e) fuel w h = refl

  -- A run of a compiled pipeline, fresh or resumed, ends: it returns a context or raises, with fuel
  -- for each instruction and one more. A resumed run is asked to start at an index that is not
  -- negative.
  pub ended-run :
      (version : List Instruction → String) (auto : Bool) (nodes : Nodes (Body M V W) (Schema V))
      → compile version auto nodes ≡ ok s.compiled
      → (resume : Bool) (ctx : Context M) (w : W)
      → ((f : Frame M) (w' : W) → begin s resume ctx w ≡ (ok f, w') → (i : ℕ) × (f.ip ≡ pos i))
      → ended (run s (suc (length s.compiled.instructions)) resume ctx w) ≡ true
  unfolding run
  ended-run version auto nodes compiled resume ctx w start =
      let (r, w') = begin s resume ctx w in
      ended-begin r (suc (length s.compiled.instructions)) w' λ f e.
        let (i, at) = start f w' (cc) in
        ended-loop (compile-IsSoundCode version auto nodes s.compiled compiled) _ _ f w' i at
          (omega arith) (omega arith)

  begin-Lands : (ctx : Context M) → Lands (λ f. f.ip ≡ pos 0) (begin s false ctx)
  unfolding begin
  begin-Lands ctx = elim (Option-cases s.store) [
    | inl absent ↦ rw (absent, begin) (Lands-pure _ refl)
    | inr (store, present) ↦
        rw (present, begin)
          (Lands-if s.durable _ _ (λ d. Lands-bind _ _ λ gone. Lands-pure _ refl)
            (λ d. Lands-pure _ refl))
  ]

  -- A fresh run starts at the first instruction.
  pub begin-fresh :
      (ctx : Context M) (w w' : W) (f : Frame M) → begin s false ctx w ≡ (ok f, w') → f.ip ≡ pos 0
  begin-fresh ctx w w' f h = (begin-Lands ctx).at w w' f h
