-- ===== src/Prelude/Decimal.antt =====
-- `str(n)` of a natural number, and that it is injective.
use Prim.Native.Nat.{ℕ, zero, suc, ◌+◌, ◌/◌, ◌%◌, ◌≤◌, ◌<◌}
use Prim.Native.Char.{code}
use Prim.Native.String.{String, ◌++◌, count}
use mathlib.Core.Path.{◌≡◌, refl, sym, ap}
use mathlib.Core.Logic.{inl, inr}
use native.Mathlib.Omega.{arith}
use text.Mathlib.TextLemmas.{length-append, append_inj}
use fluxio.Prelude.Tests.{ltb, ltb→lt, if◌then◌else◌, Bool-cases}

abbrev digit : ℕ → String
digit zero = "0"
digit (suc zero) = "1"
digit (suc (suc zero)) = "2"
digit (suc (suc (suc zero))) = "3"
digit (suc (suc (suc (suc zero)))) = "4"
digit (suc (suc (suc (suc (suc zero))))) = "5"
digit (suc (suc (suc (suc (suc (suc zero)))))) = "6"
digit (suc (suc (suc (suc (suc (suc (suc zero))))))) = "7"
digit (suc (suc (suc (suc (suc (suc (suc (suc zero)))))))) = "8"
digit _ = "9"

-- The digits of `n`; one more unit of fuel than `n` is enough, since each round divides by ten.
digits : ℕ → ℕ → String
digits zero n = ""
digits (suc fuel) n =
    let front = digits fuel (n / 10) in if ltb n 10 then digit n else front ++ digit (n % 10)

unfoldable pub decimal : ℕ → String
unfolding digits
decimal n = digits (suc n) n

-- The number of the first character.
abbrev head_code : String → ℕ
head_code String.[] = 0
head_code (String.◌∷◌ c s) = code c

digit_lem : (d : ℕ) → d < 10 → (count (digit d) ≡ 1) × (head_code (digit d) ≡ 48 + d)
digit_lem zero h = (refl, refl)
digit_lem (suc zero) h = (refl, refl)
digit_lem (suc (suc zero)) h = (refl, refl)
digit_lem (suc (suc (suc zero))) h = (refl, refl)
digit_lem (suc (suc (suc (suc zero)))) h = (refl, refl)
digit_lem (suc (suc (suc (suc (suc zero))))) h = (refl, refl)
digit_lem (suc (suc (suc (suc (suc (suc zero)))))) h = (refl, refl)
digit_lem (suc (suc (suc (suc (suc (suc (suc zero))))))) h = (refl, refl)
digit_lem (suc (suc (suc (suc (suc (suc (suc (suc zero)))))))) h = (refl, refl)
digit_lem (suc (suc (suc (suc (suc (suc (suc (suc (suc zero))))))))) h = (refl, refl)
digit_lem (suc (suc (suc (suc (suc (suc (suc (suc (suc (suc d)))))))))) h = absurd (omega arith)

digits_pos : (fuel n : ℕ) → 0 < fuel → 1 ≤ count (digits fuel n)
unfolding digits
digits_pos zero n h = absurd (omega arith)
digits_pos (suc fuel) n h = elim (Bool-cases (ltb n 10)) [
  | inl small ↦ rw small (omega (arith, (digit_lem n (ltb→lt n 10 small)).0))
  | inr large ↦ rw large (rw length-append (omega (arith, (digit_lem (n % 10) (omega arith)).0)))
]

module _ (front rest : String) (d e : ℕ) (hd : d < 10) (he : e < 10) where
  -- A short text is not a long one.
  digit-ne-append : 1 ≤ count rest → digit d ≡ rest ++ digit e → ⊥
  digit-ne-append h eq =
      omega
        (arith, ap count eq, length-append rest (digit e), (digit_lem d hd).0, (digit_lem e he).0)

  append-digit_inj : front ++ digit d ≡ rest ++ digit e → (front ≡ rest) × (d ≡ e)
  append-digit_inj eq =
      let counts : count front ≡ count rest = omega (
        arith,
        ap count eq,
        length-append front (digit d),
        length-append rest (digit e),
        (digit_lem d hd).0,
        (digit_lem e he).0,
      ) in
      let (fronts, last) = append_inj eq counts in
      (fronts, omega (arith, ap head_code last, (digit_lem d hd).1, (digit_lem e he).1))

digits_inj : (f g n m : ℕ) → n < f → m < g → digits f n ≡ digits g m → n ≡ m
unfolding digits
digits_inj zero g n m hn hm e = absurd (omega arith)
digits_inj (suc f) zero n m hn hm e = absurd (omega arith)
digits_inj (suc f) (suc g) n m hn hm e = elim (Bool-cases (ltb n 10)) [
  | inl small ↦ elim (Bool-cases (ltb m 10)) [
    | inl tiny ↦ omega (
      arith,
      ap head_code (rw (small, tiny) at e),
      (digit_lem n (ltb→lt n 10 small)).1,
      (digit_lem m (ltb→lt m 10 tiny)).1,
    )
    | inr large ↦ absurd (
        digit-ne-append "" (digits g (m / 10)) n (m % 10) (ltb→lt n 10 small) (omega arith)
          (digits_pos g (m / 10) (ground arith)) (rw (small, large) at e))
  ]
  | inr large ↦ elim (Bool-cases (ltb m 10)) [
    | inl tiny ↦ absurd (
        digit-ne-append "" (digits f (n / 10)) m (n % 10) (ltb→lt m 10 tiny) (omega arith)
          (digits_pos f (n / 10) (ground arith)) (sym (rw (large, tiny) at e)))
    | inr huge ↦
        let (fronts, last) =
          append-digit_inj (digits f (n / 10)) (digits g (m / 10)) (n % 10) (m % 10) (omega arith)
            (omega arith) (rw (large, huge) at e) in
        omega (arith, digits_inj f g (n / 10) (m / 10) (ground arith) (ground arith) fronts, last)
  ]
]

-- `str` is injective on the natural numbers.
pub decimal_inj : (n m : ℕ) → decimal n ≡ decimal m → n ≡ m
unfolding decimal
decimal_inj n m = digits_inj (suc n) (suc m) n m (omega arith) (omega arith)

decimal_runs : decimal 1207 ≡ "1207"
unfolding decimal
decimal_runs = refl
