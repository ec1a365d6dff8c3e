-- ===== src/Stage.antt =====
-- api/primitives.py, api/stage.py and api/parallel.py: stages, `Send` and `Parallel`.
use fluxio.Prelude.{ℕ, String, List, Option, some, Bool, true, false, ◌≡◌, arith, if◌then◌else◌}
use fluxio.Prelude.Dict.{Dict}
use fluxio.Errors.{Result, ok, err, type_error}

pub data NodeType : Type 0 where
  sync async stream : NodeType

pub data ForkMode : Type 0 where
  parallel_mode fire_forget : ForkMode

pub record Send (V : Type 0) : Type 0 where
  pub route : String
  pub patch : Dict V

-- A decorated callable: its attributes, and its body of a type `F` that the compiler never looks
-- into. `ident` is the object's identity, for `is`; `S` is the type of the schemas. `node_type` is
-- missing on a callable that `@stage` has not marked.
pub record Stage (F S : Type 0) : Type 0 where
  pub ident : ℕ
  pub func_name : Option String  -- `__name__`
  pub repr : String
  pub qualname : Option String
  pub node_type : Option NodeType
  pub reads : Option (List String)
  pub writes : Option (List String)
  pub input_schema : Option S
  pub output_schema : Option S
  pub timeout : Option ℕ
  pub body : F

pub record Parallel (F S : Type 0) : Type 0 where
  pub branches : List (Stage F S)
  pub mode : ForkMode
  pub block_name : Option String

-- What `inspect` says of a function: `async def`, `async def` with `yield`, or plain `def`.
pub data FunctionKind : Type 0 where
  coroutine async_generator plain : FunctionKind

unfoldable pub is_coroutine : FunctionKind → Bool
is_coroutine coroutine = true
is_coroutine _ = false

unfoldable pub is_async_generator : FunctionKind → Bool
is_async_generator async_generator = true
is_async_generator _ = false

-- The first lines of `decorate`.
unfoldable pub detect : NodeType → FunctionKind → NodeType
unfolding is_coroutine is_async_generator
detect async kind =
    if is_async_generator kind then stream else if is_coroutine kind then async else sync
detect given kind = given

unfoldable pub check_kind : NodeType → FunctionKind → Result NodeType
unfolding is_coroutine is_async_generator
check_kind stream kind = if is_async_generator kind then ok stream else err type_error
check_kind async kind = if is_coroutine kind then ok async else err type_error
check_kind sync kind =
    if is_coroutine kind
    then err type_error
    else if is_async_generator kind
    then err type_error
    else ok sync

-- The node type that `@stage(node_type=given)` stores on a function, or its refusal.
unfoldable pub decorate : NodeType → FunctionKind → Result NodeType
unfolding detect check_kind
decorate given kind = check_kind (detect given kind) kind

-- The node type that fits a function.
abbrev pub fitting : FunctionKind → NodeType
fitting coroutine = async
fitting async_generator = stream
fitting plain = sync

-- With the default node type every function is accepted, at the node type that fits it; with
-- another node type a function is accepted exactly when that type fits it.
pub decorate_lem :
    (given : NodeType) (kind : FunctionKind)
    → decorate given kind ≡ elim given [
      | async ↦ ok (fitting kind)
      | sync ↦ elim kind [ plain ↦ ok sync | _ ↦ err type_error ]
      | stream ↦ elim kind [ async_generator ↦ ok stream | _ ↦ err type_error ]
    ]
unfolding decorate
decorate_lem given kind = ground arith

-- A function of the user's, and what `inspect` says of it.
pub record Callable (F : Type 0) : Type 0 where
  pub ident : ℕ
  pub func_name : Option String
  pub repr : String
  pub qualname : Option String
  pub kind : FunctionKind
  pub body : F

-- The arguments of `stage`; `node_type` is `ASYNC` by default, and the others `None`.
pub record Declared (S : Type 0) : Type 0 where
  pub node_type : NodeType
  pub reads : Option (List String)
  pub writes : Option (List String)
  pub input_schema : Option S
  pub output_schema : Option S
  pub timeout : Option ℕ

module _ {F S : Type 0} where
  -- The attributes that the decorator sets.
  unfoldable pub marked : Declared S → Callable F → NodeType → Stage F S
  marked d func resolved = record {
    ident = func.ident;
    func_name = func.func_name;
    repr = func.repr;
    qualname = func.qualname;
    node_type = some resolved;
    reads = d.reads;
    writes = d.writes;
    input_schema = d.input_schema;
    output_schema = d.output_schema;
    timeout = d.timeout;
    body = func.body;
  }

  -- `stage(...)(func)`
  unfoldable pub stage : Declared S → Callable F → Result (Stage F S)
  unfolding decorate marked
  stage d func = elim (decorate d.node_type func.kind) [
    | err e ↦ err e
    | ok resolved ↦ ok (marked d func resolved)
  ]
