-- ===== src/Meaning/Machine.antt =====
-- How the interpreter's loop runs single instructions, where nobody listens and nothing is saved.
use fluxio.Prelude.{
  ℕ, zero, suc, ◌+◌, ◌<◌, List, [], ◌∷◌, some, false, ◌≡◌, refl, ap, length, get_elem?,
  get_elem?-lt, get_elem?-length, arith, Bool-cases, Option-cases, inl, inr,
}
use fluxio.Prelude.Int.{pos}
use fluxio.Prelude.Dict.{Dict}
use fluxio.Errors.{Exn, Result, ok, err, is_exception}
use fluxio.Context.{Context}
use fluxio.Bytecode.{Instruction}
use fluxio.Runtime.Act.{Act, pure, ◌>>=◌, and_then}
use fluxio.Runtime.Types.{Notice, Session}
use fluxio.Runtime.Interpreter.{Frame, fetch, safe_dispatch, notify}
use fluxio.Runtime.Loop.{exec, close_spans, handle, finish, loop}
use fluxio.Meaning.{Place}

module _ {M V W : Type 0} (s : Session M V W) where
  -- No callbacks, and no checkpoints.
  pub record IsQuiet : Type 0 where
    pub unheard : s.callbacks ≡ []
    pub unsaved : s.durable ≡ false

module _ {M V W : Type 0} (s : Session M V W) (quiet : IsQuiet s) where
  pub notify-quiet : (notice : Notice M V) (w : W) → notify s notice w ≡ (ok tt, w)
  unfolding notify safe_dispatch pure
  notify-quiet notice w = rw (quiet.unheard) refl

  close_spans-quiet :
      (timers : Dict ℕ) (ctx : Context M) (w : W) → close_spans s timers ctx w ≡ (ok tt, w)
  unfolding close_spans ◌>>=◌
  close_spans-quiet [] ctx w = refl
  close_spans-quiet ((id, started) ∷ timers) ctx w =
      rw (notify-quiet) (close_spans-quiet timers ctx w)

  pub handle-quiet : (e : Exn) (f : Frame M) (w : W) → handle s e f w ≡ (err e, w)
  unfolding handle ◌>>=◌
  handle-quiet e f w = elim (Bool-cases (is_exception e)) [
    | inl caught ↦ rw (caught, close_spans-quiet, notify-quiet) refl
    | inr other ↦ rw other refl
  ]

  finish-quiet : (f : Frame M) (w : W) → finish s f w ≡ (ok f.ctx, w)
  unfolding finish pure
  finish-quiet f w = elim (Option-cases s.store) [
    | inl absent ↦ rw (absent, finish) refl
    | inr (store, present) ↦ rw (present, finish, quiet.unsaved) refl
  ]

  abbrev pub code : List Instruction
  code = s.compiled.instructions

  abbrev pub place : Frame M → Place M
  place f = record { ctx = f.ctx; pending = f.pending_route }

  module _ (started : ℕ) where
    -- From index `i`, with enough fuel, the loop does what `k` does.
    abbrev pub Goes : (Place M → Act W (Context M)) → ℕ → Type 0
    Goes k i =
        (fuel : ℕ) (f : Frame M) (w : W)
        → f.ip ≡ pos i
        → length code < i + fuel
        → loop s fuel started f w ≡ some (k (place f) w)

    -- One instruction: it raises what `m` raises, or leads to index `j` with what `m` returns.
    abbrev pub Agrees : ℕ → Result (Frame M) × W → Result (Place M) × W → Type 0
    Agrees j (ok f, w) r = (f.ip ≡ pos j) × (r ≡ (ok (place f), w))
    Agrees j (err e, w) r = r ≡ (err e, w)

    abbrev pub Does : Instruction → ℕ → ℕ → (Place M → Act W (Place M)) → Type 0
    Does x i j m =
        (f : Frame M) (w : W) → f.ip ≡ pos i → Agrees j (exec s started x f w) (m (place f) w)

    -- What follows an instruction.
    after_exec :
        (r : Result (Frame M) × W) (q : Result (Place M) × W) (k : Place M → Act W (Context M))
        (f : Frame M) (fuel i j : ℕ)
        → Agrees j r q
        → i < j
        → length code < i + suc fuel
        → Goes k j
        → (elim r.0 [ ok f' ↦ loop s fuel started f' r.1 | err e ↦ some (handle s e f r.1) ])
          ≡ some (and_then q k)
    after_exec (ok f', w') q k f fuel i j (at, same) lt enough goes =
        rw same (goes fuel f' w' at (omega arith))
    after_exec (err e, w') q k f fuel i j same lt enough goes = rw (same, handle-quiet) refl

    pub Goes-Does :
        (x : Instruction) (i j : ℕ) (m : Place M → Act W (Place M))
        (k : Place M → Act W (Context M))
        → get_elem? code i ≡ some x
        → Does x i j m
        → i < j
        → Goes k j
        → Goes (λ p. m p >>= k) i
    unfolding loop fetch ◌>>=◌
    Goes-Does x i j m k here does lt goes zero f w at enough =
        absurd (omega (arith, get_elem?-lt code i here))
    Goes-Does x i j m k here does lt goes (suc fuel) f w at enough =
        rw (at, loop, here)
          (after_exec (exec s started x f w) (m (place f) w) k f fuel i j (does f w at) lt enough
            goes)

    -- At the end of the code the run returns.
    pub Goes-end : Goes (λ p. pure p.ctx) (length code)
    unfolding loop fetch pure
    Goes-end zero f w at enough = absurd (omega arith)
    Goes-end (suc fuel) f w at enough =
        rw (at, loop, get_elem?-length code) (ap some (finish-quiet f w))
