-- ===== src/Meaning/Patches.antt =====
-- The instructions that a router block overwrites once its routes are compiled.
use fluxio.Prelude.{
  ℕ, ◌<◌, ◌≤◌, List, [], ◌∷◌, some, true, false, ◌≡◌, refl, sym, ◌∙◌, ◌⊎◌, inl, inr, eqb, eqb→eq,
  Bool-cases, All, All-weaken, length, length-set, get_elem?, get_elem?-lt, get_elem?-set_here,
  get_elem?-set_other, arith,
}
use fluxio.Bytecode.{Instruction}
use fluxio.Compiler.Build.{Build}
use fluxio.Compiler.Program.{jump_to, patch, patch_jumps}
use fluxio.Runtime.Types.{Body, Schema, StageFunc, Session}
use fluxio.Meaning.Tables.{Sound}
use fluxio.Meaning.Parts.{Fits, is_settled}

module _ {M V W : Type 0} (s : Session M V W) where
  pub patch-Sound :
      (object : ℕ → StageFunc M V W) (p : ℕ) (x : Instruction) (b : Build (Body M V W) (Schema V))
      → Sound object b
      → Sound object (patch p x b)
  unfolding patch
  patch-Sound object p x b sound = record {
    identified = sound.identified;
    inputs = sound.inputs;
    outputs = sound.outputs;
    no_input = sound.no_input;
    no_output = sound.no_output;
  }

  -- An index that waits for an instruction, or has it.
  abbrev pub Awaits : Build (Body M V W) (Schema V) → Instruction → ℕ → Type 0
  Awaits b y p =
      (x : Instruction) → get_elem? b.instructions p ≡ some x → (is_settled x ≡ false) ⊎ (x ≡ y)

  patch-kept :
      (p : ℕ) (y : Instruction) (b : Build (Body M V W) (Schema V))
      → Awaits b y p
      → (i : ℕ) (x : Instruction) → get_elem? b.instructions i ≡ some x
      → is_settled x ≡ true
      → get_elem? (patch p y b).instructions i ≡ some x
  unfolding patch
  patch-kept p y b waits i x e settled = elim (Bool-cases (eqb i p)) [
    | inr other ↦ get_elem?-set_other b.instructions p y i (λ same. ground (arith, same, other)) ∙ e
    | inl same ↦
        let here = eqb→eq i p same in
        let lt = get_elem?-lt b.instructions i e in
        elim (waits x (rw (← here) e)) [
          | inl waiting ↦ absurd (cc (waiting, settled))
          | inr given ↦ rw (here, given) (get_elem?-set_here b.instructions p y (rw (← here) lt))
        ]
  ]

  pub patch-Fits :
      (p : ℕ) (y : Instruction) (b : Build (Body M V W) (Schema V))
      → Awaits b y p
      → Fits s (patch p y b)
      → Fits s b
  unfolding patch
  patch-Fits p y b waits f = record {
    kept = λ i x e settled. f.kept i x (patch-kept p y b waits i x e settled) settled;
    known = f.known;
  }

  pub patch-here :
      (p : ℕ) (y : Instruction) (b : Build (Body M V W) (Schema V))
      → p < length b.instructions
      → is_settled y ≡ true
      → Fits s (patch p y b)
      → get_elem? s.compiled.instructions p ≡ some y
  unfolding patch
  patch-here p y b lt settled f = f.kept p y (get_elem?-set_here b.instructions p y lt) settled

  patch-Awaits :
      (p q : ℕ) (y : Instruction) (b : Build (Body M V W) (Schema V))
      → p < length b.instructions
      → Awaits b y q
      → Awaits (patch p y b) y q
  unfolding patch
  patch-Awaits p q y b lt waits x e = elim (Bool-cases (eqb q p)) [
    | inr other ↦
        waits x
          (sym (get_elem?-set_other b.instructions p y q (λ same. ground (arith, same, other))) ∙ e)
    | inl same ↦
        let at = get_elem?-set_here b.instructions p y lt in
        let here = eqb→eq q p same in inr (cc (at, here, e))
  ]

  pub patch_jumps-Fits :
      (jumps : List ℕ) (end : ℕ) (b : Build (Body M V W) (Schema V))
      → All (λ j. (j < length b.instructions) × Awaits b (jump_to end) j) jumps
      → Fits s (patch_jumps jumps end b)
      → Fits s b × All (λ j. get_elem? s.compiled.instructions j ≡ some (jump_to end)) jumps
  unfolding patch_jumps patch
  patch_jumps-Fits [] end b waits f = (f, tt)
  patch_jumps-Fits (j ∷ js) end b waits f =
      let (inside, rest) =
        patch_jumps-Fits js end (patch j (jump_to end) b)
          (All-weaken js
            (λ q h. (rw length-set h.0, patch-Awaits j q (jump_to end) b waits.0.0 h.1)) waits.1)
          f in
      (
        patch-Fits j (jump_to end) b waits.0.1 inside,
        (patch-here j (jump_to end) b waits.0.0 refl inside, rest),
      )

  pub patch_jumps-below :
      (jumps : List ℕ) (end : ℕ) (b : Build (Body M V W) (Schema V)) (n i : ℕ)
      → All (λ j. n ≤ j) jumps
      → i < n
      → get_elem? (patch_jumps jumps end b).instructions i ≡ get_elem? b.instructions i
  unfolding patch_jumps patch
  patch_jumps-below [] end b n i above lt = refl
  patch_jumps-below (j ∷ js) end b n i above lt =
      patch_jumps-below js end (patch j (jump_to end) b) n i above.1 lt
      ∙ get_elem?-set_other b.instructions j (jump_to end) i (λ same. omega (arith, same, above.0))

  pub patch_jumps-Sound :
      (object : ℕ → StageFunc M V W) (jumps : List ℕ) (end : ℕ) (b : Build (Body M V W) (Schema V))
      → Sound object b
      → Sound object (patch_jumps jumps end b)
  unfolding patch_jumps
  patch_jumps-Sound object [] end b sound = sound
  patch_jumps-Sound object (j ∷ js) end b sound =
      patch_jumps-Sound object js end (patch j (jump_to end) b)
        (patch-Sound object j (jump_to end) b sound)

  pub patch_jumps-same :
      (jumps : List ℕ) (end : ℕ) (b : Build (Body M V W) (Schema V))
      → ((patch_jumps jumps end b).symbol_table ≡ b.symbol_table)
        × (length (patch_jumps jumps end b).instructions ≡ length b.instructions)
  unfolding patch_jumps patch
  patch_jumps-same [] end b = (refl, refl)
  patch_jumps-same (j ∷ js) end b =
      let more = patch_jumps-same js end (patch j (jump_to end) b) in
      (more.0, more.1 ∙ length-set b.instructions j (jump_to end))
