-- ===== src/Middleware/RateLimit/Window.antt =====
-- How many calls `RateLimitMiddleware` of runtime/middleware.py lets through in a second.
use fluxio.Prelude.{
  ℕ, suc, ◌+◌, ◌-◌, ◌*◌, ◌≤◌, ◌<◌, List, [], ◌∷◌, ◌++◌, none, some, true, false, ◌≡◌, refl, ap, ◌∙◌,
  sym, subst, leb, length, if◌then◌else◌, arith, Bool-cases, inl, inr, length-append,
}
use fluxio.Middleware.RateLimit.{Rate, second, prune, has_room, wait_for, attempt, passes}

-- The calls of a history within the second up to `now`.
abbrev pub recent : ℕ → List ℕ → List ℕ
recent now [] = []
recent now (t ∷ history) =
    let rest = recent now history in if leb second (now - t) then rest else t ∷ rest

-- Times that do not decrease, from a time on.
abbrev pub Ascends : ℕ → List ℕ → Type 0
Ascends t [] = Unit
Ascends t (u ∷ times) = (t ≤ u) × Ascends u times

abbrev pub AllBefore : ℕ → List ℕ → Type 0
AllBefore now [] = Unit
AllBefore now (t ∷ times) = (t ≤ now) × AllBefore now times

recent-late :
    (now u : ℕ) (window : List ℕ) → now - u < second → Ascends u window → recent now window ≡ window
recent-late now u [] late h = refl
recent-late now u (t ∷ window) late (le, h) =
    let rest = recent-late now t window (omega arith) h in ground (arith)

prune-eq-recent :
    (now t : ℕ) (window : List ℕ) → Ascends t window → prune now window ≡ recent now window
unfolding prune
prune-eq-recent now t [] h = refl
prune-eq-recent now t (u ∷ window) (le, h) =
    let rest = prune-eq-recent now u window h in
    elim (Bool-cases (leb second (now - u))) [
      | inl old ↦ ground (arith)
      | inr fresh ↦
          let late : now - u < second = ground (arith) in
          let same = recent-late now u window late h in ground (arith)
    ]

recent-recent :
    (u now : ℕ) (history : List ℕ) → u ≤ now → recent now (recent u history) ≡ recent now history
recent-recent u now [] le = refl
recent-recent u now (t ∷ history) le = let rest = recent-recent u now history le in ground (arith)

length-recent :
    (u now : ℕ) (history : List ℕ)
    → u ≤ now
    → length (recent now history) ≤ length (recent u history)
length-recent u now [] le = ground (arith)
length-recent u now (t ∷ history) le = let rest = length-recent u now history le in ground (arith)

recent-snoc :
    (now : ℕ) (history : List ℕ) → recent now (history ++ now ∷ []) ≡ recent now history ++ now ∷ []
recent-snoc now [] = ground (arith)
recent-snoc now (t ∷ history) = let rest = recent-snoc now history in ground (arith)

Ascends-earlier : (s t : ℕ) (history : List ℕ) → s ≤ t → Ascends t history → Ascends s history
Ascends-earlier s t [] le h = tt
Ascends-earlier s t (u ∷ history) le (le', h) = (ground (arith), h)

Ascends-recent : (now t : ℕ) (history : List ℕ) → Ascends t history → Ascends t (recent now history)
Ascends-recent now t [] h = h
Ascends-recent now t (u ∷ history) (le, h) =
    elim (leb second (now - u))
      as (λ b. Ascends t (if b then recent now history else u ∷ recent now history)) [
        | true ↦ Ascends-earlier t u (recent now history) le (Ascends-recent now u history h)
        | false ↦ (le, Ascends-recent now u history h)
      ]

Ascends-snoc :
    (now t : ℕ) (history : List ℕ)
    → t ≤ now
    → AllBefore now history
    → Ascends t history
    → Ascends t (history ++ now ∷ [])
Ascends-snoc now t [] le before h = (le, tt)
Ascends-snoc now t (u ∷ history) le (b, before) (le', h) =
    (le', Ascends-snoc now u history b before h)

AllBefore-snoc :
    (now : ℕ) (history : List ℕ) → AllBefore now history → AllBefore now (history ++ now ∷ [])
AllBefore-snoc now [] h = (ground (arith), tt)
AllBefore-snoc now (t ∷ history) (le, h) = (le, AllBefore-snoc now history h)

AllBefore-later :
    (u now : ℕ) (history : List ℕ) → u ≤ now → AllBefore u history → AllBefore now history
AllBefore-later u now [] le h = tt
AllBefore-later u now (t ∷ history) le (le', h) =
    (ground (arith), AllBefore-later u now history le h)

-- What holds of the window after a pass at `u`, and of the times `history` that were let through.
record Inv (r : Rate) (u : ℕ) (window history : List ℕ) : Type 0 where
  is_recent : window ≡ recent u history
  ascends : Ascends 0 history
  before : AllBefore u history
  few : length (recent u history) * r.per < r.rate + r.per

few_mul : (r : Rate) {a b : ℕ} → a ≤ b → b * r.per < r.rate + r.per → a * r.per < r.rate + r.per
few_mul r le few = grind arith

suc_eq : (n : ℕ) → n + 1 ≡ suc n
suc_eq n = omega arith

few_suc : (r : Rate) {a : ℕ} (b : ℕ) → b ≡ suc a → a * r.per < r.rate → b * r.per < r.rate + r.per
few_suc r {a} b same few = subst (λ n. n * r.per < r.rate + r.per) (sym same) (grind arith)

attempt-room :
    (r : Rate) (now : ℕ) (window kept : List ℕ)
    → prune now window ≡ kept
    → has_room r kept ≡ true
    → attempt r now window ≡ (kept ++ now ∷ [], none)
unfolding attempt
attempt-room r now window kept same room = ground (arith)

attempt-full :
    (r : Rate) (now : ℕ) (window kept : List ℕ)
    → prune now window ≡ kept
    → has_room r kept ≡ false
    → attempt r now window ≡ (kept, some (wait_for now kept))
unfolding attempt
attempt-full r now window kept same full = ground (arith)

passes-nil : (r : Rate) (window history : List ℕ) → passes r [] window history ≡ (window, history)
unfolding passes
passes-nil r window history = refl

passes-room :
    (r : Rate) (now : ℕ) (times window kept history : List ℕ)
    → attempt r now window ≡ (kept, none)
    → passes r (now ∷ times) window history ≡ passes r times kept (history ++ now ∷ [])
unfolding passes
passes-room r now times window kept history same = ground (arith)

passes-full :
    (r : Rate) (now wait : ℕ) (times window kept history : List ℕ)
    → attempt r now window ≡ (kept, some wait)
    → passes r (now ∷ times) window history ≡ passes r times kept history
unfolding passes
passes-full r now wait times window kept history same = ground (arith)

kept_lem :
    (r : Rate) (u now : ℕ) (window history : List ℕ)
    → u ≤ now
    → Inv r u window history
    → prune now window ≡ recent now history
kept_lem r u now window history le inv =
    ap (prune now) inv.is_recent
    ∙ prune-eq-recent now 0 (recent u history) (Ascends-recent u 0 history inv.ascends)
    ∙ recent-recent u now history le

let_in :
    (r : Rate) (u now : ℕ) (window history : List ℕ)
    → u ≤ now
    → has_room r (recent now history) ≡ true
    → Inv r u window history
    → Inv r now (recent now history ++ now ∷ []) (history ++ now ∷ [])
unfolding has_room
let_in r u now window history le room inv = record {
  is_recent = sym (recent-snoc now history);
  ascends =
      Ascends-snoc now 0 history (ground (arith)) (AllBefore-later u now history le inv.before)
        inv.ascends;
  before = AllBefore-snoc now history (AllBefore-later u now history le inv.before);
  few =
      few_suc r _
        (ap length (recent-snoc now history)
          ∙ length-append (recent now history) (now ∷ [])
          ∙ suc_eq (length (recent now history)))
        (ground (arith));
}

kept_out :
    (r : Rate) (u now : ℕ) (window history : List ℕ)
    → u ≤ now
    → Inv r u window history
    → Inv r now (recent now history) history
kept_out r u now window history le inv = record {
  is_recent = refl;
  ascends = inv.ascends;
  before = AllBefore-later u now history le inv.before;
  few = few_mul r (length-recent u now history le) inv.few;
}

passes-few :
    (r : Rate) (u : ℕ) (times window history : List ℕ) (now : ℕ)
    → Ascends u times
    → AllBefore now times
    → u ≤ now
    → Inv r u window history
    → length (recent now (passes r times window history).1) * r.per < r.rate + r.per
passes-few r u [] window history now h before le inv =
    rw (passes-nil r window history) (few_mul r (length-recent u now history le) inv.few)
passes-few r u (t ∷ times) window history now (le', h) (b, before) le inv =
    let kept = kept_lem r u t window history le' inv in
    elim (Bool-cases (has_room r (recent t history))) [
      | inl room ↦
          let rest =
            passes-few r t times (recent t history ++ t ∷ []) (history ++ t ∷ []) now h before b
              (let_in r u t window history le' room inv) in
          rw
            (passes-room r t times window (recent t history ++ t ∷ []) history
              (attempt-room r t window (recent t history) kept room))
            rest
      | inr full ↦
          let rest =
            passes-few r t times (recent t history) history now h before b
              (kept_out r u t window history le' inv) in
          rw
            (passes-full r t (wait_for t (recent t history)) times window (recent t history) history
              (attempt-full r t window (recent t history) kept full))
            rest
    ]

-- Let calls take the lock of a fresh `RateLimitMiddleware` at times that do not decrease, and let
-- its rate be positive. Then, of the calls let through by a time `now` that none of these passes
-- comes after, fewer than `rps + 1` were let through in the second up to `now`.
pub let_through-few :
    (r : Rate) (times : List ℕ) (now : ℕ)
    → 0 < r.rate
    → Ascends 0 times
    → AllBefore now times
    → length (recent now (passes r times [] []).1) * r.per < r.rate + r.per
let_through-few r times now positive h before =
    passes-few r 0 times [] [] now h before (ground (arith))
      record { is_recent = refl; ascends = tt; before = tt; few = ground (arith) }
