-- ===== src/Meaning/Stages.antt =====
-- What the code of a stage does.
use mathlib.Core.Path.{fun_ext}
use fluxio.Prelude.{
  ℕ, String, Option, none, some, Bool, true, false, ◌≡◌, refl, sym, ap, ◌∙◌, subst, length, arith,
  eq_refl, eq_iff, ◌==◌, Option-cases, Bool-cases, inl, inr,
}
use fluxio.Prelude.Dict.{Dict, lookup, member, lookup-insert}
use fluxio.Errors.{Result, ok, err, >>=-eq-ok}
use fluxio.Bytecode.{call, validate_input, validate_output, checkpoint, step_start, step_end}
use fluxio.Compiler.Naming.{node_id}
use fluxio.Compiler.Build.{
  Build, on_node, step_event, append, append_if, register, stage_code, compile_stage,
}
use fluxio.Runtime.Act.{pure, lift, ◌>>=◌, and_then}
use fluxio.Runtime.Types.{Outcome, Body, Schema, StageFunc, Session}
use fluxio.Runtime.Interpreter.{call_stage}
use fluxio.Meaning.{Place, after_stage, check, settled_by, check_output, stage_meaning}
use fluxio.Meaning.Machine.{IsQuiet, Goes}
use fluxio.Meaning.Instructions.{
  emit-Does, checkpoint-Does, checking, validate_input-Does, validate_output-Does, calling,
  call-Does,
}
use fluxio.Meaning.Tables.{Sound, Registered, register-Registered, register-Sound, named_already}
use fluxio.Meaning.Parts.{
  Part, Part-trans, append-Part, append_if-Part, append_if-table, Part-table, Part-idle,
}

module _ {M V W : Type 0} (s : Session M V W) (quiet : IsQuiet s) (object : ℕ → StageFunc M V W)
    (started : ℕ) where
  pub lookup-after :
      (fn : StageFunc M V W) (b r : Build (Body M V W) (Schema V))
      → Registered object (node_id fn b.symbol_table) fn b r
      → lookup (node_id fn b.symbol_table) r.symbol_table ≡ some fn
  lookup-after fn b r reg =
      let id = node_id fn b.symbol_table in
      let at = lookup-insert id id fn b.symbol_table in rw (reg.table, at, eq_refl id) refl

  register-keeps :
      (fn : StageFunc M V W) (b r : Build (Body M V W) (Schema V))
      → Registered object (node_id fn b.symbol_table) fn b r
      → object fn.ident ≡ fn
      → Sound object b
      → (j : String) (g : StageFunc M V W) → lookup j b.symbol_table ≡ some g
      → lookup j r.symbol_table ≡ some g
  register-keeps fn b r reg own sound j g e =
      let id = node_id fn b.symbol_table in
      let at = ap (lookup j) reg.table ∙ lookup-insert id j fn b.symbol_table in
      elim (Bool-cases (id == j)) [
        | inr other ↦ rw (at, other) e
        | inl same ↦ elim (named_already object fn b sound own) [
          | inl free ↦ absurd (cc (free, e, (eq_iff id j).0 same))
          | inr known ↦ rw (at, same) (cc (known, e, (eq_iff id j).0 same))
        ]
      ]

  pub register-Part :
      (fn : StageFunc M V W) (b r : Build (Body M V W) (Schema V))
      → register (node_id fn b.symbol_table) fn b ≡ ok r
      → object fn.ident ≡ fn
      → Sound object b
      → Part s quiet object started b r (after_stage fn b.symbol_table) pure
  unfolding pure ◌>>=◌
  register-Part fn b r h own sound =
      let id = node_id fn b.symbol_table in
      let reg = register-Registered object id fn b r h in
      record {
        sound = register-Sound object fn b r own sound h;
        table_is = reg.table;
        longer = rw (reg.same_code) (omega arith);
        kept = λ i x e. rw (reg.same_code) e;
        fits = λ f. record {
          kept = λ i x e. f.kept i x (rw (reg.same_code) e);
          known = λ j g e. f.known j g (register-keeps fn b r reg own sound j g e);
        };
        goes = λ f k g. subst (Goes s quiet started k) (ap (λ c. length c) reg.same_code) g;
      }

  -- The four steps of a stage in sequence.
  after_call :
      (id : String) (fn : StageFunc M V W) (p : Place M) (r : Result (Outcome M V) × W)
      → and_then
          (and_then r (λ outcome. pure (settled_by s p outcome)))
          (checking s quiet started id fn false)
        ≡ and_then r (λ outcome. check_output s id fn (settled_by s p outcome))
  unfolding pure check_output
  after_call id fn p (ok outcome, w) = refl
  after_call id fn p (err e, w) = refl

  after_input :
      (id : String) (fn : StageFunc M V W) (p : Place M) (r : Result (Unit {0})) (w : W)
      → and_then
          (and_then (and_then (r, w) (λ valid. pure p)) (calling s quiet started id fn))
          (checking s quiet started id fn false)
        ≡ and_then
            (r, w)
            (λ valid.
              call_stage s id fn p.ctx >>= λ outcome. check_output s id fn (settled_by s p outcome))
  unfolding pure ◌>>=◌
  after_input id fn p (ok u) w = after_call id fn p (call_stage s id fn p.ctx w)
  after_input id fn p (err e) w = refl

  chained :
      (id : String) (fn : StageFunc M V W)
      → (λ p.
          (checking s quiet started id fn true p >>= calling s quiet started id fn)
          >>= checking s quiet started id fn false)
        ≡ stage_meaning s id fn
  unfolding stage_meaning ◌>>=◌ lift
  chained id fn =
      fun_ext (λ p. fun_ext (λ w. after_input id fn p (check s id fn.input_schema p.ctx) w))

  unchecked :
      (id : String) (fn : StageFunc M V W) (is_input : Bool)
      → elim is_input [ true ↦ fn.input_schema | false ↦ fn.output_schema ] ≡ none
      → checking s quiet started id fn is_input ≡ pure
  unfolding check lift pure ◌>>=◌
  unchecked id fn is_input missing = fun_ext (λ p. rw (missing, check) refl)

  not_a_member :
      (id : String) (d : Dict (Schema V)) (o : Option (Schema V))
      → lookup id d ≡ o
      → member id d ≡ false
      → o ≡ none
  unfolding member
  not_a_member id d o known out = elim (Option-cases (lookup id d)) [
    | inl missing ↦ sym known ∙ missing
    | inr (v, given) ↦ absurd (cc (rw (given, member) at out))
  ]

  stage_code-Part :
      (id : String) (fn : StageFunc M V W) (r : Build (Body M V W) (Schema V))
      → lookup id r.symbol_table ≡ some fn
      → Sound object r
      → Part s quiet object started r (stage_code id r) r.symbol_table (stage_meaning s id fn)
  unfolding stage_code pure ◌>>=◌ append append_if
  stage_code-Part id fn r known sound =
      let b₁ = append (on_node checkpoint id) r in
      let b₂ = append (step_event step_start id) b₁ in
      let b₃ = append_if (member id r.input_schemas) (on_node validate_input id) b₂ in
      let b₄ = append (on_node call id) b₃ in
      let b₅ = append_if (member id r.output_schemas) (on_node validate_output id) b₄ in
      let in₃ : b₃.symbol_table ≡ r.symbol_table =
        append_if-table s quiet object started (member id r.input_schemas)
          (on_node validate_input id) b₂ in
      let in₅ : b₅.symbol_table ≡ r.symbol_table =
        append_if-table s quiet object started (member id r.output_schemas)
          (on_node validate_output id) b₄
        ∙ in₃ in
      let known₃ : lookup id b₃.symbol_table ≡ some fn = ap (lookup id) in₃ ∙ known in
      let p₁ =
        append-Part s quiet object started (on_node checkpoint id) pure r refl
          (λ f. checkpoint-Does s quiet started id (length r.instructions)) sound in
      let p₂ =
        append-Part s quiet object started (step_event step_start id) pure b₁ refl
          (λ f. emit-Does s quiet started (step_event step_start id) (length b₁.instructions) refl)
          p₁.sound in
      let p₃ =
        append_if-Part s quiet object started (member id r.input_schemas)
          (on_node validate_input id) (checking s quiet started id fn true) b₂ refl
          (λ f.
            validate_input-Does s quiet started id fn (length b₂.instructions)
              (f.known id fn known).input)
          (λ out.
            unchecked id fn true
              (not_a_member id r.input_schemas fn.input_schema (sound.inputs id fn known) out))
          p₂.sound in
      let p₄ =
        append-Part s quiet object started (on_node call id) (calling s quiet started id fn) b₃ refl
          (λ f.
            call-Does s quiet started id fn (length b₃.instructions) (f.known id fn known₃).stage)
          p₃.sound in
      let p₅ =
        append_if-Part s quiet object started (member id r.output_schemas)
          (on_node validate_output id) (checking s quiet started id fn false) b₄ refl
          (λ f.
            validate_output-Does s quiet started id fn (length b₄.instructions)
              (f.known id fn known₃).output)
          (λ out.
            unchecked id fn false
              (not_a_member id r.output_schemas fn.output_schema (sound.outputs id fn known) out))
          p₄.sound in
      let p₆ =
        append-Part s quiet object started (step_event step_end id) pure b₅ refl
          (λ f. emit-Does s quiet started (step_event step_end id) (length b₅.instructions) refl)
          p₅.sound in
      let p₁₃ = Part-trans s quiet object started (Part-idle s quiet object started p₁ p₂) p₃ in
      let p₁₅ = Part-trans s quiet object started (Part-trans s quiet object started p₁₃ p₄) p₅ in
      subst (Part s quiet object started r (stage_code id r) r.symbol_table) (chained id fn)
        (Part-table s quiet object started (Part-idle s quiet object started p₁₅ p₆) in₅)

  pub compile_stage-Part :
      (fn : StageFunc M V W) (b b' : Build (Body M V W) (Schema V))
      → compile_stage fn b ≡ ok b'
      → object fn.ident ≡ fn
      → Sound object b
      → Part s quiet object started b b'
          (after_stage fn b.symbol_table)
          (stage_meaning s (node_id fn b.symbol_table) fn)
  unfolding compile_stage pure ◌>>=◌
  compile_stage-Part fn b b' h own sound =
      let id = node_id fn b.symbol_table in
      let (r, e, k) = >>=-eq-ok (register id fn b) _ h in
      let done : Result.ok (stage_code id r) ≡ ok b' = k in
      let same : stage_code id r ≡ b' = cc in
      let reg = register-Part fn b r e own sound in
      let known = lookup-after fn b r (register-Registered object id fn b r e) in
      let coded =
        Part-table s quiet object started (stage_code-Part id fn r known reg.sound) reg.table_is in
      subst
        (λ c.
          Part s quiet object started b c (after_stage fn b.symbol_table) (stage_meaning s id fn))
        same (Part-trans s quiet object started reg coded)
