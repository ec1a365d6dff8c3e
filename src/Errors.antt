-- ===== src/Errors.antt =====
-- errors.py, and the exception classes that the other modules of fluxio/ define. An exception is a
-- value; its message is kept only as far as it is data (the names and keys that it reports).
use fluxio.Prelude.{ℕ, String, List, Bool, true, false, ◌≡◌, refl, ◌⊎◌, inl, inr}

-- Why the compiler refuses a pipeline.
pub data CompileIssue : Type 0 where
  misplaced_route_dict : CompileIssue
  empty_route : String → CompileIssue
  not_a_stage : CompileIssue
  write_conflict : String → String → List String → CompileIssue

pub data Exn : Type 0 where
  -- fluxio's own: `FluxioError` itself, and its subclasses
  fluxio_error : Exn
  no_checkpoint_error : String → Exn
  validation_error : String → Exn
  merge_conflict_error : List String → List String → Exn
  compilation_error : CompileIssue → Exn
  checkpoint_version_error : Exn
  circuit_open_error : Exn
  run_id_in_use_error : String → Exn
  -- Python's, raised by an operation of the language or by an explicit `raise`
  type_error : Exn
  key_error : String → Exn
  index_error : Exn
  attribute_error : Exn
  runtime_error : Exn
  assertion_error : Exn
  timeout_error : Exn
  -- a `BaseException` that is no `Exception`
  cancelled_error : Exn
  -- any exception class of the user's
  user_error : ℕ → Exn

-- `isinstance(e, FluxioError)`
unfoldable pub is_fluxio_error : Exn → Bool
is_fluxio_error fluxio_error = true
is_fluxio_error (no_checkpoint_error _) = true
is_fluxio_error (validation_error _) = true
is_fluxio_error (merge_conflict_error _ _) = true
is_fluxio_error (compilation_error _) = true
is_fluxio_error checkpoint_version_error = true
is_fluxio_error circuit_open_error = true
is_fluxio_error (run_id_in_use_error _) = true
is_fluxio_error _ = false

-- `isinstance(e, Exception)`: what `except Exception` catches
unfoldable pub is_exception : Exn → Bool
is_exception cancelled_error = false
is_exception _ = true

-- What a fallible computation gives: a value, or the exception that it raises.
pub data Result {ℓ} (T : Type ℓ) : Type ℓ where
  err : Exn → Result T
  ok : T → Result T

module _ {ℓ} {T : Type ℓ} where
  abbrev pub is_ok : Result T → Bool
  is_ok (err x) = false
  is_ok (ok v) = true

  unfoldable pub ok_of_is_ok : (r : Result T) → is_ok r ≡ true → (v : T) × (r ≡ ok v)
  ok_of_is_ok (err x) good = cc
  ok_of_is_ok (ok v) good = (v, refl)

  pub Result-cases : (r : Result T) → ((e : Exn) × (r ≡ err e)) ⊎ ((v : T) × (r ≡ ok v))
  Result-cases (err e) = inl (e, refl)
  Result-cases (ok v) = inr (v, refl)

  pub ok_inj : {u v : T} → ok u ≡ ok v → u ≡ v
  ok_inj e = cc

module _ {ℓ κ} {T : Type ℓ} {U : Type κ} where
  infixl 10 ◌>>=◌
  -- Statements in sequence.
  abbrev pub ◌>>=◌ : Result T → (T → Result U) → Result U
  err x >>= rest = err x
  ok v >>= rest = rest v

  pub >>=-eq-ok :
      (r : Result T) (rest : T → Result U) {u : U}
      → (r >>= rest) ≡ ok u
      → (v : T) × (r ≡ ok v) × (rest v ≡ ok u)
  >>=-eq-ok (err x) rest same = cc
  >>=-eq-ok (ok v) rest same = (v, refl, same)
