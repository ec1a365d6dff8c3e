-- ===== src/Middleware/Cache/Hits.antt =====
-- What `CacheMiddleware` of runtime/middleware.py keeps, over an `InMemoryCache`.
use fluxio.Prelude.{
  ℕ, ◌+◌, ◌*◌, ◌<◌, String, Option, none, some, true, false, ◌≡◌, refl, ap, sym, ◌∙◌, subst,
  eq_refl, arith, ltb, if◌then◌else◌, Bool-cases, inl, inr,
}
use fluxio.Prelude.Dict.{Dict, lookup, insert, lookup-insert}
use fluxio.Errors.{Result, ok, err}
use fluxio.Context.{Pmap, Context, get, snapshot, from_snapshot}
use fluxio.Runtime.Act.{Act, pure, lift, gets, ◌>>=◌, and_then}
use fluxio.Runtime.Cell.{Cell}
use fluxio.Runtime.Types.{Outcome, context, send, StageFunc, Next}
use fluxio.Runtime.Executor.{is_stream}
use fluxio.Middleware.Cache.{
  CacheEntry, CacheSettings, KeyServices, memory_get, memory_set, memory_cache, build_key, entry_of,
  keep, answer, call_cache,
}

module _ {M V W : Type 0} (P : Pmap M V) (data_cell : Cell (Dict (CacheEntry V)) W) (ttl : ℕ)
    (k : KeyServices M V W) (time : W → ℕ) where
  abbrev settings : CacheSettings M V W
  settings = record { store = memory_cache data_cell; ttl = ttl; key_services = k; time = time }

  abbrev restored : CacheEntry V → Context M → Context M
  restored entry ctx = from_snapshot P entry.value ctx.name (some entry.written)

  -- The cache holds a live entry with what a context holds.
  record Held (key : String) (c : Context M) (w : W) : Type 0 where
    entry : CacheEntry V
    found : lookup key (data_cell.read w) ≡ some entry
    live : time w < entry.created_at + ttl * 1000
    same : (j : String) → lookup j entry.value ≡ get P c j
    same_written : entry.written ≡ c.written

  answer-hit :
      (fn : StageFunc M V W) (ctx : Context M) (key : String) (now : ℕ) (entry : CacheEntry V)
      (run : Act W (Outcome M V)) (w : W)
      → now < entry.created_at + ttl * 1000
      → answer P settings ctx key now (some entry) run w ≡ (ok (context (restored entry ctx)), w)
  unfolding answer pure
  answer-hit fn ctx key now entry run w live =
      let yes_live : ltb now (entry.created_at + ttl * 1000) ≡ true = ground (arith) in
      rw yes_live refl

  stored :
      (key : String) (entry : CacheEntry V) (w : W)
      → lookup key (data_cell.read (data_cell.write (insert key entry (data_cell.read w)) w))
        ≡ some entry
  stored key entry w =
      ap (lookup key) (data_cell.read-write (insert key entry (data_cell.read w)) w)
      ∙ lookup-insert key key entry (data_cell.read w)
      ∙ ap (λ b. if b then some entry else lookup key (data_cell.read w)) (eq_refl key)

  get-restored :
      (entry : CacheEntry V) (ctx : Context M) (j : String)
      → get P (restored entry ctx) j ≡ lookup j entry.value
  unfolding get from_snapshot
  get-restored entry ctx j =
      P.get-of_dict (P.deepcopy entry.value) j ∙ P.lookup-deepcopy entry.value j

  hit :
      (fn : StageFunc M V W) (ctx : Context M) (next : Next M V W) (w : W) (entry : CacheEntry V)
      → is_stream fn ≡ false
      → lookup (build_key P k fn ctx) (data_cell.read w) ≡ some entry
      → time w < entry.created_at + ttl * 1000
      → call_cache P settings fn ctx next w ≡ (ok (context (restored entry ctx)), w)
  unfolding call_cache ◌>>=◌ gets pure memory_get
  hit fn ctx next w entry plain found live =
      rw (plain, found)
        (answer-hit fn ctx (build_key P k fn ctx) (time w) entry (next fn ctx) w live)

  keep-Held :
      (key : String) (now : ℕ) (r : Result (Outcome M V) × W) (c : Context M) (w' : W)
      → and_then r (keep P settings key now) ≡ (ok (context c), w')
      → time w' < now + ttl * 1000
      → Held key c w'
  unfolding keep ◌>>=◌ lift pure memory_set entry_of get snapshot
  keep-Held key now (ok (context d), w) c w' e live =
      let entry : CacheEntry V = record {
        value = snapshot P d;
        created_at = now;
        written = d.written;
      } in
      let same_context : d ≡ c = cc e in
      let same_world : data_cell.write (insert key entry (data_cell.read w)) w ≡ w' = cc e in
      subst (Held key c) same_world (
        subst (λ x. Held key x (data_cell.write (insert key entry (data_cell.read w)) w))
          same_context
          record {
            entry = entry;
            found = stored key entry w;
            live = rw same_world live;
            same = λ j. P.lookup-deepcopy (P.to_dict d.entries) j ∙ P.lookup-to_dict d.entries j;
            same_written = refl;
          })
  keep-Held key now (ok (send s), w) c w' e live = absurd (cc e)
  keep-Held key now (err x, w) c w' e live = absurd (cc e)

  restored-Held :
      (ctx : Context M) (key : String) (entry : CacheEntry V) (w : W)
      → lookup key (data_cell.read w) ≡ some entry
      → time w < entry.created_at + ttl * 1000
      → Held key (restored entry ctx) w
  unfolding from_snapshot get
  restored-Held ctx key entry w found live = record {
    entry = entry;
    found = found;
    live = live;
    same = λ j. sym (P.get-of_dict (P.deepcopy entry.value) j ∙ P.lookup-deepcopy entry.value j);
    same_written = refl;
  }

  answer-Held :
      (fn : StageFunc M V W) (ctx : Context M) (key : String) (run : Act W (Outcome M V)) (w : W)
      (c : Context M) (w' : W) (existing : Option (CacheEntry V))
      → lookup key (data_cell.read w) ≡ existing
      → answer P settings ctx key (time w) existing run w ≡ (ok (context c), w')
      → time w' < time w + ttl * 1000
      → Held key c w'
  unfolding answer pure ◌>>=◌
  answer-Held fn ctx key run w c w' none found e live = keep-Held key (time w) (run w) c w' e live
  answer-Held fn ctx key run w c w' (some entry) found e live =
      elim (Bool-cases (ltb (time w) (entry.created_at + ttl * 1000))) [
        | inl fresh ↦
            let e' = rw fresh at e in
            subst (Held key c) (cc e') (
              subst (λ x. Held key x w) (cc e')
                (restored-Held ctx key entry w found (ground (arith))))
        | inr old ↦ keep-Held key (time w) (run w) c w' (rw old at e) live
      ]

  kept_or_run :
      (fn : StageFunc M V W) (ctx : Context M) (next : Next M V W) (w : W) (c : Context M) (w' : W)
      → is_stream fn ≡ false
      → call_cache P settings fn ctx next w ≡ (ok (context c), w')
      → time w' < time w + ttl * 1000
      → Held (build_key P k fn ctx) c w'
  unfolding call_cache ◌>>=◌ gets memory_get
  kept_or_run fn ctx next w c w' plain e live =
      answer-Held fn ctx (build_key P k fn ctx) (next fn ctx) w c w'
        (lookup (build_key P k fn ctx) (data_cell.read w)) refl (rw plain at e) live

  -- Let a call of a stage that is no stream return a context, and let less than the time to live
  -- have passed since. Then the same call made next returns, without running the stage, a context
  -- with the same values and the same pending writes, and leaves the world as it is.
  pub call_cache-hit :
      (fn : StageFunc M V W) (ctx : Context M) (next next' : Next M V W) (w : W) (c : Context M)
      (w' : W)
      → is_stream fn ≡ false
      → call_cache P settings fn ctx next w ≡ (ok (context c), w')
      → time w' < time w + ttl * 1000
      → (d : Context M) × (call_cache P settings fn ctx next' w' ≡ (ok (context d), w'))
        × ((j : String) → get P d j ≡ get P c j)
        × (d.written ≡ c.written)
  unfolding from_snapshot
  call_cache-hit fn ctx next next' w c w' plain e live =
      let h = kept_or_run fn ctx next w c w' plain e live in
      (
        restored h.entry ctx,
        hit fn ctx next' w' h.entry plain h.found h.live,
        (λ j. get-restored h.entry ctx j ∙ h.same j),
        h.same_written,
      )
