-- ===== src/Meaning/Tables.antt =====
-- The tables that the compiler fills: the schemas under a name are those of the stage of that name.
use fluxio.Prelude.{
  ℕ, String, Option, none, some, ◌≡◌, refl, sym, ap, ◌∙◌, ◌⊎◌, inl, inr, ◌==◌, eq_iff,
  if◌then◌else◌, arith, Option-cases, Bool-cases,
}
use fluxio.Prelude.Dict.{Dict, lookup, insert, lookup-insert}
use fluxio.Errors.{ok}
use fluxio.Stage.{Stage}
use fluxio.Compiler.Naming.{node_id, node_id-FreeOrSame}
use fluxio.Compiler.Build.{Build, register, put_schema}

lookup-put_schema {ℓ} :
    {S : Type ℓ} (id j : String) (o : Option S) (d : Dict S)
    → (lookup id d ≡ none) ⊎ (lookup id d ≡ o)
    → lookup j (put_schema id o d) ≡ (if id == j then o else lookup j d)
unfolding put_schema
lookup-put_schema id j none d h = elim (Bool-cases (id == j)) [
  | inl same ↦ rw (same, ← (eq_iff id j).0 same) (elim h [ inl e ↦ e | inr e ↦ e ])
  | inr other ↦ rw other refl
]
lookup-put_schema id j (some x) d h = lookup-insert id j x d

module _ {F S : Type 0} (object : ℕ → Stage F S) where
  pub record Sound (b : Build F S) : Type 0 where
    pub identified :
        (id : String) (fn : Stage F S) → lookup id b.symbol_table ≡ some fn → object fn.ident ≡ fn
    pub inputs :
        (id : String) (fn : Stage F S)
        → lookup id b.symbol_table ≡ some fn
        → lookup id b.input_schemas ≡ fn.input_schema
    pub outputs :
        (id : String) (fn : Stage F S)
        → lookup id b.symbol_table ≡ some fn
        → lookup id b.output_schemas ≡ fn.output_schema
    pub no_input :
        (id : String) → lookup id b.symbol_table ≡ none → lookup id b.input_schemas ≡ none
    pub no_output :
        (id : String) → lookup id b.symbol_table ≡ none → lookup id b.output_schemas ≡ none

  -- What `register` has changed.
  pub record Registered (id : String) (fn : Stage F S) (b b' : Build F S) : Type 0 where
    pub same_code : b'.instructions ≡ b.instructions
    pub table : b'.symbol_table ≡ insert id fn b.symbol_table
    pub input : b'.input_schemas ≡ put_schema id fn.input_schema b.input_schemas
    pub output : b'.output_schemas ≡ put_schema id fn.output_schema b.output_schemas

  pub register-Registered :
      (id : String) (fn : Stage F S) (b b' : Build F S)
      → register id fn b ≡ ok b'
      → Registered id fn b b'
  unfolding register
  register-Registered id fn b b' h = elim (Option-cases fn.node_type) [
    | inl missing ↦ absurd (cc (h, missing))
    | inr (t, given) ↦ record {
      same_code = ground (arith, given);
      table = ground (arith, given);
      input = ground (arith, given);
      output = ground (arith, given);
    }
  ]

  -- The name of a stage is free, or it is the name of that same stage.
  pub named_already :
      (fn : Stage F S) (b : Build F S)
      → Sound b
      → object fn.ident ≡ fn
      → (lookup (node_id fn b.symbol_table) b.symbol_table ≡ none)
        ⊎ (lookup (node_id fn b.symbol_table) b.symbol_table ≡ some fn)
  named_already fn b sound own = elim (node_id-FreeOrSame fn b.symbol_table) [
    | inl free ↦ inl free
    | inr (other, taken, same) ↦
        inr (taken ∙ ap some (sym (sound.identified _ other taken) ∙ ap object same ∙ own))
  ]

  pub register-Sound :
      (fn : Stage F S) (b b' : Build F S)
      → object fn.ident ≡ fn
      → Sound b
      → register (node_id fn b.symbol_table) fn b ≡ ok b'
      → Sound b'
  register-Sound fn b b' own sound h =
      let id = node_id fn b.symbol_table in
      let r = register-Registered id fn b b' h in
      let at_table = λ (j : String). ap (lookup j) r.table ∙ lookup-insert id j fn b.symbol_table in
      let at_input = λ (j : String).
        ap (lookup j) r.input
        ∙ lookup-put_schema id j fn.input_schema b.input_schemas
            (elim (named_already fn b sound own) [
              | inl free ↦ inl (sound.no_input id free)
              | inr same ↦ inr (sound.inputs id fn same)
            ]) in
      let at_output = λ (j : String).
        ap (lookup j) r.output
        ∙ lookup-put_schema id j fn.output_schema b.output_schemas
            (elim (named_already fn b sound own) [
              | inl free ↦ inl (sound.no_output id free)
              | inr same ↦ inr (sound.outputs id fn same)
            ]) in
      record {
        identified = λ j g e. ground (arith, at_table j, sound.identified j g);
        inputs = λ j g e. ground (arith, at_table j, at_input j, sound.inputs j g);
        outputs = λ j g e. ground (arith, at_table j, at_output j, sound.outputs j g);
        no_input = λ j e. ground (arith, at_table j, at_input j, sound.no_input j);
        no_output = λ j e. ground (arith, at_table j, at_output j, sound.no_output j);
      }
