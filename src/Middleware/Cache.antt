-- ===== src/Middleware/Cache.antt =====
-- runtime/middleware.py, `CacheMiddleware`, and runtime/cache.py.
--
-- Times are in milliseconds.
pub mod Hits
use Prim.Native.String.{◌++◌ as str_append}
use fluxio.Prelude.{ℕ, ◌+◌, ◌*◌, String, List, Option, none, some, ltb, if◌then◌else◌}
use fluxio.Prelude.Dict.{Dict, lookup, insert, remove}
use fluxio.Errors.{Result, ok, err, attribute_error}
use fluxio.Context.{Pmap, Context, snapshot, from_snapshot}
use fluxio.Runtime.Act.{Act, pure, lift, gets, ◌>>=◌}
use fluxio.Runtime.Cell.{Cell}
use fluxio.Runtime.Types.{Outcome, context, send, StageFunc, Middleware}
use fluxio.Runtime.Executor.{is_stream}

pub record CacheEntry (V : Type 0) : Type 0 where
  pub value : Dict V
  pub created_at : ℕ
  pub written : List String

pub record CacheStore (V W : Type 0) : Type 0 where
  pub get_entry : String → Act W (Option (CacheEntry V))
  pub set_entry : String → CacheEntry V → Act W (Unit {0})
  pub delete_entry : String → Act W (Unit {0})

-- `InMemoryCache`
module _ {V W : Type 0} (data_cell : Cell (Dict (CacheEntry V)) W) where
  unfoldable pub memory_get : String → Act W (Option (CacheEntry V))
  memory_get key w = (ok (lookup key (data_cell.read w)), w)

  unfoldable pub memory_set : String → CacheEntry V → Act W (Unit {0})
  memory_set key entry w = (ok tt, data_cell.write (insert key entry (data_cell.read w)) w)

  unfoldable pub memory_delete : String → Act W (Unit {0})
  memory_delete key w = (ok tt, data_cell.write (remove key (data_cell.read w)) w)

  abbrev pub memory_cache : CacheStore V W
  memory_cache = record {
    get_entry = memory_get;
    set_entry = memory_set;
    delete_entry = memory_delete;
  }

-- `key_fn`, the JSON text of a snapshot where `json.dumps` does not raise, `repr` of a snapshot, and
-- the hexadecimal SHA-256 digest of a text.
pub record KeyServices (M V W : Type 0) : Type 0 where
  pub key_fn : Option (StageFunc M V W → Context M → String)
  pub dumps : Dict V → Option String
  pub repr : Dict V → String
  pub sha256 : String → String

pub record CacheSettings (M V W : Type 0) : Type 0 where
  pub store : CacheStore V W
  pub ttl : ℕ  -- in seconds
  pub key_services : KeyServices M V W
  pub time : W → ℕ

or_unnamed : Option String → String
or_unnamed none = "?"
or_unnamed (some name) = name

module _ {M V : Type 0} (P : Pmap M V) where
  -- `result.snapshot()`; a `Send` has no such attribute.
  unfoldable pub entry_of : Outcome M V → ℕ → Result (CacheEntry V)
  unfolding snapshot
  entry_of (context c) now =
      ok record { value = snapshot P c; created_at = now; written = c.written }
  entry_of (send _) now = err attribute_error

module _ {M V W : Type 0} (P : Pmap M V) where
  digest_key : KeyServices M V W → String → Dict V → String
  digest_key k node_id d =
      let payload : String = elim (k.dumps d) [ none ↦ k.repr d | some text ↦ text ] in
      str_append "cache:" (
        str_append node_id
          (str_append ":" (k.sha256 (str_append (str_append node_id "|") payload))))

  unfoldable pub build_key : KeyServices M V W → StageFunc M V W → Context M → String
  unfolding digest_key snapshot or_unnamed
  build_key k fn ctx = elim k.key_fn [
    | none ↦ digest_key k (or_unnamed fn.func_name) (snapshot P ctx)
    | some f ↦ f fn ctx
  ]

  unfoldable pub keep : CacheSettings M V W → String → ℕ → Outcome M V → Act W (Outcome M V)
  unfolding entry_of
  keep s key now result = do
    entry ← lift (entry_of P result now)
    done ← s.store.set_entry key entry
    pure result

  unfoldable pub answer :
      CacheSettings M V W
      → Context M
      → String
      → ℕ
      → Option (CacheEntry V)
      → Act W (Outcome M V)
      → Act W (Outcome M V)
  unfolding keep from_snapshot
  answer s ctx key now none run = run >>= keep s key now
  answer s ctx key now (some entry) run =
      if ltb now (entry.created_at + s.ttl * 1000)
      then pure (context (from_snapshot P entry.value ctx.name (some entry.written)))
      else run >>= keep s key now

  -- `__call__`
  unfoldable pub call_cache : CacheSettings M V W → Middleware M V W
  unfolding is_stream build_key answer
  call_cache s fn ctx next = if is_stream fn then next fn ctx else do
    let key = build_key s.key_services fn ctx
    existing ← s.store.get_entry key
    now ← gets s.time
    answer s ctx key now existing (next fn ctx)
