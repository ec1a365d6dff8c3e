-- ===== src/Store/Redis.antt =====
-- store/redis.py, `RedisStore`: checkpoints as JSON texts under keys that expire.
--
-- The client of the package `redis` and `json` are parameters. `dumps` gives nothing where
-- `json.dumps` raises `TypeError` or `ValueError`; `loads` is `Checkpoint(**json.loads(raw))`.
use Prim.Native.String.{◌++◌ as str_append}
use text.Mathlib.TextLemmas.{append_cancel_left}
use fluxio.Prelude.{
  ℕ, String, List, [], ◌∷◌, Option, none, some, Bool, true, false, not, ◌≡◌, refl, ap, ◌∙◌, sym,
  subst, ◌==◌, eq_iff, eqb, if◌then◌else◌, All, inl, inr, Bool-cases,
}
use fluxio.Errors.{Result, ok, err, type_error}
use fluxio.Runtime.Act.{Act, pure, raise, lift, ◌>>=◌}
use fluxio.Runtime.Types.{Checkpoint, CheckpointStore}

pub record RedisClient (W : Type 0) : Type 0 where
  pub set : String → String → ℕ → Act W (Unit {0})
  pub get : String → Act W (Option String)
  pub delete : String → Act W (Unit {0})
  pub exists : String → Act W ℕ

pub record RedisStore (V W : Type 0) : Type 0 where
  pub client : RedisClient W
  pub ttl : ℕ
  pub key_prefix : String
  pub dumps : Checkpoint V → Option String
  pub loads : String → Result (Checkpoint V)

module _ {V W : Type 0} (r : RedisStore V W) where
  -- f"{self._prefix}:{run_id}"
  unfoldable pub key : String → String
  key run_id = str_append r.key_prefix (str_append ":" run_id)

  unfoldable pub redis_save : Checkpoint V → Act W (Unit {0})
  unfolding key
  redis_save checkpoint = elim (r.dumps checkpoint) [
    | none ↦ raise type_error
    | some payload ↦ r.client.set (key checkpoint.run_id) payload r.ttl
  ]

  unfoldable pub decoded : Option String → Result (Option (Checkpoint V))
  decoded none = ok none
  decoded (some raw) = elim (r.loads raw) [ err e ↦ err e | ok checkpoint ↦ ok (some checkpoint) ]

  unfoldable pub redis_load : String → Act W (Option (Checkpoint V))
  unfolding key decoded
  redis_load run_id = do raw ← r.client.get (key run_id); lift (decoded raw)

  unfoldable pub redis_delete : String → Act W (Unit {0})
  unfolding key
  redis_delete run_id = r.client.delete (key run_id)

  unfoldable pub redis_exists : String → Act W Bool
  unfolding key
  redis_exists run_id = do n ← r.client.exists (key run_id); pure (not (eqb n 0))

  abbrev pub redis_store : CheckpointStore V W
  redis_store = record { save = redis_save; load = redis_load; delete = redis_delete }

  -- What the documentation of Redis says of the four commands, as long as no key expires.
  pub record IsServed : Type 0 where
    pub held : W → String → Option String
    pub get_held : (k : String) (w : W) → r.client.get k w ≡ (ok (held w k), w)
    pub set_held :
        (k v : String) (ttl : ℕ) (w : W)
        → (w' : W) × (r.client.set k v ttl w ≡ (ok tt, w'))
          × ((j : String) → held w' j ≡ (if k == j then some v else held w j))
    pub delete_held :
        (k : String) (w : W)
        → (w' : W) × (r.client.delete k w ≡ (ok tt, w'))
          × ((j : String) → held w' j ≡ (if k == j then none else held w j))
    pub exists_held :
        (k : String) (w : W)
        → r.client.exists k w ≡ (ok (elim (held w k) [ none ↦ 0 | some _ ↦ 1 ]), w)

  pub data Change : Type 0 where
    saving : Checkpoint V → Change
    deleting : String → Change

  abbrev perform : Change → W → W
  perform (saving c) w = (redis_save c w).1
  perform (deleting run_id) w = (redis_delete run_id w).1

  abbrev pub perform_all : List Change → W → W
  perform_all [] w = w
  perform_all (c ∷ cs) w = perform_all cs (perform c w)

  -- The checkpoint that the last change of a run leaves, given the one before all changes.
  abbrev pub latest : String → List Change → Option (Checkpoint V) → Option (Checkpoint V)
  latest run_id [] before = before
  latest run_id (saving c ∷ cs) before =
      latest run_id cs (if c.run_id == run_id then some c else before)
  latest run_id (deleting other ∷ cs) before =
      latest run_id cs (if other == run_id then none else before)

  -- A checkpoint that JSON keeps.
  abbrev pub IsJsonSafe : Change → Type 0
  IsJsonSafe (saving c) = (payload : String) × (r.dumps c ≡ some payload) × (r.loads payload ≡ ok c)
  IsJsonSafe (deleting run_id) = Unit

module _ {V W : Type 0} (r : RedisStore V W) (served : IsServed r) where
  -- A text that stands for a checkpoint.
  abbrev pub Stands : Option String → Option (Checkpoint V) → Type 0
  Stands none none = Unit
  Stands (some payload) (some c) = r.loads payload ≡ ok c
  Stands _ _ = ⊥

  key_inj : (a b : String) → key r a ≡ key r b → a ≡ b
  unfolding key
  key_inj a b same = append_cancel_left ":" _ _ (append_cancel_left r.key_prefix _ _ same)

  key_test : (a b : String) → (key r a == key r b) ≡ (a == b)
  key_test a b = elim (Bool-cases (a == b)) [
    | inl same ↦ rw (same) ((eq_iff _ _).1 (ap (key r) ((eq_iff a b).0 same)))
    | inr other ↦ elim (Bool-cases (key r a == key r b)) [
      | inr apart ↦ rw (other, apart) refl
      | inl same ↦ absurd (cc (other, (eq_iff a b).1 (key_inj a b ((eq_iff _ _).0 same))))
    ]
  ]

  choose-Stands :
      (b : Bool) (text text' : Option String) (o o' : Option (Checkpoint V))
      → Stands text o
      → Stands text' o'
      → Stands (if b then text else text') (if b then o else o')
  choose-Stands true text text' o o' h h' = h
  choose-Stands false text text' o o' h h' = h'

  perform-Stands :
      (run_id : String) (change : Change r) (w : W) (o : Option (Checkpoint V))
      → IsJsonSafe r change
      → Stands (served.held w (key r run_id)) o
      → Stands (served.held (perform r change w) (key r run_id)) (latest r run_id (change ∷ []) o)
  unfolding redis_save redis_delete
  perform-Stands run_id (saving c) w o (payload, dumped, loaded) stands =
      let k = key r run_id in
      let (w', done, after) = served.set_held (key r c.run_id) payload r.ttl w in
      let saved : redis_save r c w ≡ (ok tt, w') =
        ap
          (λ (p : Option String).
            (elim p as (λ p. Act W (Unit {0})) [
              | none ↦ raise type_error
              | some payload ↦ r.client.set (key r c.run_id) payload r.ttl
            ])
              w)
          dumped
        ∙ done in
      let path =
        ap (λ (q : Result (Unit {0}) × W). served.held q.1 k) saved
        ∙ after k
        ∙ ap (λ b. if b then some payload else served.held w k) (key_test c.run_id run_id) in
      subst (λ text. Stands text (if c.run_id == run_id then some c else o)) (sym path)
        (choose-Stands (c.run_id == run_id) (some payload) (served.held w k) (some c) o loaded
          stands)
  perform-Stands run_id (deleting other) w o safe stands =
      let k = key r run_id in
      let (w', done, after) = served.delete_held (key r other) w in
      let path =
        ap (λ (q : Result (Unit {0}) × W). served.held q.1 k) done
        ∙ after k
        ∙ ap (λ b. if b then none else served.held w k) (key_test other run_id) in
      subst (λ text. Stands text (if other == run_id then none else o)) (sym path)
        (choose-Stands (other == run_id) none (served.held w k) none o tt stands)

  perform_all-Stands :
      (run_id : String) (changes : List (Change r)) (w : W) (o : Option (Checkpoint V))
      → All (IsJsonSafe r) changes
      → Stands (served.held w (key r run_id)) o
      → Stands (served.held (perform_all r changes w) (key r run_id)) (latest r run_id changes o)
  perform_all-Stands run_id [] w o safe stands = stands
  perform_all-Stands run_id (saving c ∷ changes) w o safe stands =
      perform_all-Stands run_id changes (perform r (saving c) w) _ safe.1
        (perform-Stands run_id (saving c) w o safe.0 stands)
  perform_all-Stands run_id (deleting other ∷ changes) w o safe stands =
      perform_all-Stands run_id changes (perform r (deleting other) w) _ safe.1
        (perform-Stands run_id (deleting other) w o safe.0 stands)

  decoded-Stands :
      (text : Option String) (o : Option (Checkpoint V))
      → Stands text o
      → (decoded r text ≡ ok o)
        × (not (eqb (elim text [ none ↦ 0 | some _ ↦ 1 ]) 0)
            ≡ elim o [ none ↦ false | some _ ↦ true ])
  unfolding decoded
  decoded-Stands none none h = (refl, refl)
  decoded-Stands (some payload) (some c) h = (rw (decoded, h) refl, refl)
  decoded-Stands none (some c) h = absurd h
  decoded-Stands (some payload) none h = absurd h

  -- Over a server that keeps what it is given and lets no key expire, and for checkpoints that
  -- `json.dumps` and `json.loads` give back as they were, which is assumed of each one that is saved:
  -- after any sequence of saves and deletes from a database without the run's key, `load` of the run
  -- gives the checkpoint of the last of them that concerns the run, nothing where that is a delete
  -- or there is none, and `exists` tells the two apart. Keys of different runs do not meet.
  pub redis_load-perform_all :
      (run_id : String) (changes : List (Change r)) (w : W)
      → All (IsJsonSafe r) changes
      → served.held w (key r run_id) ≡ none
      → let w' = perform_all r changes w in
        (redis_load r run_id w' ≡ (ok (latest r run_id changes none), w'))
        × (redis_exists r run_id w'
            ≡ (ok (elim (latest r run_id changes none) [ none ↦ false | some _ ↦ true ]), w'))
  unfolding redis_load redis_exists ◌>>=◌ lift pure
  redis_load-perform_all run_id changes w safe absent =
      let w' = perform_all r changes w in
      let k = key r run_id in
      let stands =
        perform_all-Stands run_id changes w none safe
          (subst (λ text. Stands text none) (sym absent) tt) in
      let (loaded, there) =
        decoded-Stands (served.held w' k) (latest r run_id changes none) stands in
      (rw (served.get_held k w', loaded) refl, rw (served.exists_held k w', there) refl)
