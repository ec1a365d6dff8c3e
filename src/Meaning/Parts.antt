-- ===== src/Meaning/Parts.antt =====
-- Parts of compiled code: what the code that one call of the compiler appends does when it runs,
-- where the rest of the code has been appended and patched too.
use mathlib.Core.Path.{fun_ext}
use fluxio.Prelude.{
  ℕ, ◌+◌, ◌≤◌, String, [], ◌∷◌, Option, some, Bool, true, false, ◌≡◌, refl, sym, ap, ◌∙◌, subst,
  length, length-append, get_elem?, get_elem?-append, get_elem?-last, arith,
}
use fluxio.Prelude.Int.{ℤ, pos}
use fluxio.Prelude.Dict.{Dict, lookup}
use fluxio.Errors.{Result, ok, err}
use fluxio.Context.{Context}
use fluxio.Bytecode.{OpCode, jump, route, Instruction}
use fluxio.Compiler.Build.{Build, append, append_if}
use fluxio.Runtime.Act.{Act, pure, ◌>>=◌, and_then}
use fluxio.Runtime.Types.{Body, Schema, StageFunc, Session}
use fluxio.Meaning.{Place}
use fluxio.Meaning.Machine.{IsQuiet, Does, Goes, Goes-Does}
use fluxio.Meaning.Forks.{Known}
use fluxio.Meaning.Tables.{Sound}

-- Not a jump or a route that is still to be patched.
abbrev settles : OpCode → Option ℤ → Option (Dict ℕ) → Bool
settles jump (some (pos n)) m = true
settles jump _ m = false
settles route t (some (e ∷ d)) = true
settles route t _ = false
settles _ t m = true

abbrev pub is_settled : Instruction → Bool
is_settled x = settles x.op x.target_ip x.route_map

module _ {W A B C : Type 0} where
  and_then_assoc :
      (r : Result A × W) (m : A → Act W B) (k : B → Act W C)
      → and_then (and_then r m) k ≡ and_then r (λ a. m a >>= k)
  unfolding ◌>>=◌
  and_then_assoc (ok a, w) m k = refl
  and_then_assoc (err e, w) m k = refl

  pub >>=_assoc :
      (m : Act W A) (f : A → Act W B) (k : B → Act W C) → ((m >>= f) >>= k) ≡ (m >>= λ a. f a >>= k)
  unfolding ◌>>=◌
  >>=_assoc m f k = fun_ext (λ w. and_then_assoc (m w) f k)

module _ {M V W : Type 0} (s : Session M V W) where
  -- The compiled pipeline has all that a build has, but for what is still to be patched.
  pub record Fits (b : Build (Body M V W) (Schema V)) : Type 0 where
    pub kept :
        (i : ℕ) (x : Instruction)
        → get_elem? b.instructions i ≡ some x
        → is_settled x ≡ true
        → get_elem? s.compiled.instructions i ≡ some x
    pub known :
        (id : String) (fn : StageFunc M V W) → lookup id b.symbol_table ≡ some fn → Known s id fn

module _ {M V W : Type 0} (s : Session M V W) (quiet : IsQuiet s) (object : ℕ → StageFunc M V W)
    (started : ℕ) where
  -- From `b` to `b'` the compiler appends code that does `m`, and registers stages.
  pub record Part (b b' : Build (Body M V W) (Schema V)) (table : Dict (StageFunc M V W))
      (m : Place M → Act W (Place M)) : Type 0 where
    pub sound : Sound object b'
    pub table_is : b'.symbol_table ≡ table
    pub longer : length b.instructions ≤ length b'.instructions
    pub kept :
        (i : ℕ) (x : Instruction)
        → get_elem? b.instructions i ≡ some x
        → get_elem? b'.instructions i ≡ some x
    pub fits : Fits s b' → Fits s b
    pub goes :
        Fits s b'
        → (k : Place M → Act W (Context M)) → Goes s quiet started k (length b'.instructions)
        → Goes s quiet started (λ p. m p >>= k) (length b.instructions)

  pub Part-refl :
      (b : Build (Body M V W) (Schema V)) → Sound object b → Part b b b.symbol_table pure
  unfolding pure ◌>>=◌
  Part-refl b sound = record {
    sound = sound;
    table_is = refl;
    longer = omega arith;
    kept = λ i x e. e;
    fits = λ f. f;
    goes = λ f k g. g;
  }

  pub Part-trans :
      {b b' b'' : Build (Body M V W) (Schema V)} {t t' : Dict (StageFunc M V W)}
      {m n : Place M → Act W (Place M)}
      → Part b b' t m
      → Part b' b'' t' n
      → Part b b'' t' (λ p. m p >>= n)
  Part-trans {b = b} {m = m} {n = n} first second = record {
    sound = second.sound;
    table_is = second.table_is;
    longer = omega (arith, first.longer, second.longer);
    kept = λ i x e. second.kept i x (first.kept i x e);
    fits = λ f. first.fits (second.fits f);
    goes = λ f k g.
        subst (λ h. Goes s quiet started h (length b.instructions))
          (sym (fun_ext (λ p. >>=_assoc (m p) n k)))
          (first.goes (second.fits f) (λ p. n p >>= k) (second.goes f k g));
  }

  pub Part-table :
      {b b' : Build (Body M V W) (Schema V)} {t t' : Dict (StageFunc M V W)}
      {m : Place M → Act W (Place M)}
      → Part b b' t m
      → t ≡ t'
      → Part b b' t' m
  Part-table {b = b} {b' = b'} {m = m} part same = subst (λ t. Part b b' t m) same part

  and_then-pure : (r : Result (Place M) × W) → and_then r pure ≡ r
  unfolding pure
  and_then-pure (ok p, w) = refl
  and_then-pure (err e, w) = refl

  -- Code that does nothing may follow.
  pub Part-idle :
      {b b' b'' : Build (Body M V W) (Schema V)} {t t' : Dict (StageFunc M V W)}
      {m : Place M → Act W (Place M)}
      → Part b b' t m
      → Part b' b'' t' pure
      → Part b b'' t' m
  unfolding ◌>>=◌
  Part-idle {b = b} {b'' = b''} {t' = t'} {m = m} first second =
      subst (Part b b'' t') (fun_ext (λ p. fun_ext (λ w. and_then-pure (m p w))))
        (Part-trans first second)

  pub append-Sound :
      (x : Instruction) (b : Build (Body M V W) (Schema V))
      → Sound object b
      → Sound object (append x b)
  unfolding append
  append-Sound x b sound = record {
    identified = sound.identified;
    inputs = sound.inputs;
    outputs = sound.outputs;
    no_input = sound.no_input;
    no_output = sound.no_output;
  }

  pub append-kept :
      (x : Instruction) (b : Build (Body M V W) (Schema V)) (i : ℕ) (y : Instruction)
      → get_elem? b.instructions i ≡ some y
      → get_elem? (append x b).instructions i ≡ some y
  unfolding append
  append-kept x b i y e = get_elem?-append b.instructions (x ∷ []) i e

  pub append-Fits :
      (x : Instruction) (b : Build (Body M V W) (Schema V)) → Fits s (append x b) → Fits s b
  unfolding append
  append-Fits x b f = record { kept = λ i y e. f.kept i y (append-kept x b i y e); known = f.known }

  Fits-last :
      (x : Instruction) (b : Build (Body M V W) (Schema V))
      → is_settled x ≡ true
      → Fits s (append x b)
      → get_elem? s.compiled.instructions (length b.instructions) ≡ some x
  unfolding append
  Fits-last x b settled f =
      f.kept (length b.instructions) x (get_elem?-last b.instructions x) settled

  pub length-append_code :
      (x : Instruction) (b : Build (Body M V W) (Schema V))
      → length (append x b).instructions ≡ length b.instructions + 1
  unfolding append
  length-append_code x b = length-append b.instructions (x ∷ [])

  pub append-Part :
      (x : Instruction) (m : Place M → Act W (Place M)) (b : Build (Body M V W) (Schema V))
      → is_settled x ≡ true
      → (Fits s (append x b)
          → Does s quiet started x (length b.instructions) (length b.instructions + 1) m)
      → Sound object b
      → Part b (append x b) (append x b).symbol_table m
  append-Part x m b settled does sound =
      let size = length-append_code x b in
      record {
        sound = append-Sound x b sound;
        table_is = refl;
        longer = omega (arith, size);
        kept = append-kept x b;
        fits = append-Fits x b;
        goes = λ f k g.
            Goes-Does s quiet started x (length b.instructions) (length b.instructions + 1) m k
              (Fits-last x b settled f) (does f) (omega arith)
              (subst (Goes s quiet started k) size g);
      }

  -- Two instructions, of which the first skips the second.
  pub append_both-Part :
      (x y : Instruction) (m : Place M → Act W (Place M)) (b : Build (Body M V W) (Schema V))
      → is_settled x ≡ true
      → is_settled y ≡ true
      → (Fits s (append x b)
          → get_elem? s.compiled.instructions (length b.instructions + 1) ≡ some y
          → Does s quiet started x (length b.instructions) (length b.instructions + 1 + 1) m)
      → Sound object b
      → Part b (append y (append x b)) (append y (append x b)).symbol_table m
  append_both-Part x y m b sx sy does sound =
      let one = length-append_code x b in
      let two = length-append_code y (append x b) in
      record {
        sound = append-Sound y (append x b) (append-Sound x b sound);
        table_is = refl;
        longer = omega (arith, one, two);
        kept = λ i z e. append-kept y (append x b) i z (append-kept x b i z e);
        fits = λ f. append-Fits x b (append-Fits y (append x b) f);
        goes = λ f k g.
            let before = append-Fits y (append x b) f in
            let next =
              subst (λ i. get_elem? s.compiled.instructions i ≡ some y) one
                (Fits-last y (append x b) sy f) in
            Goes-Does s quiet started x (length b.instructions) (length b.instructions + 1 + 1) m k
              (Fits-last x b sx before) (does before next) (omega arith)
              (subst (Goes s quiet started k) (two ∙ ap (λ i. i + 1) one) g);
      }

  -- An instruction that is left out where it would do nothing.
  pub append_if-Part :
      (c : Bool) (x : Instruction) (m : Place M → Act W (Place M))
      (b : Build (Body M V W) (Schema V))
      → is_settled x ≡ true
      → (Fits s (append x b)
          → Does s quiet started x (length b.instructions) (length b.instructions + 1) m)
      → (c ≡ false → m ≡ pure)
      → Sound object b
      → Part b (append_if c x b) (append_if c x b).symbol_table m
  unfolding append_if
  append_if-Part true x m b settled does idle sound = append-Part x m b settled does sound
  append_if-Part false x m b settled does idle sound =
      subst (Part b b b.symbol_table) (sym (idle refl)) (Part-refl b sound)

  pub append_if-table :
      (c : Bool) (x : Instruction) (b : Build (Body M V W) (Schema V))
      → (append_if c x b).symbol_table ≡ b.symbol_table
  unfolding append_if append
  append_if-table true x b = refl
  append_if-table false x b = refl
