-- ===== src/Prelude/Result.antt =====
-- Code that may raise: the value, or the exception as a value.
use mathlib.Core.Path.{◌≡◌, refl}
use mathlib.Core.Logic.{◌⊎◌, inl, inr}
use mathlib.Core.Bool.{Bool, true, false}
use mathlib.Core.Option.{Option, none, some}

pub data Result {ℓ} (E A : Type ℓ) : Type ℓ where
  ok : A → Result E A
  err : E → Result E A

-- `if not b: raise x`
abbrev pub guard {ℓ} : {E : Type ℓ} → Bool → E → Result E Unit
guard false problem = err problem
guard true problem = ok tt

-- A read that raises where there is nothing.
abbrev pub or_raise {ℓ} : {E A : Type ℓ} → Option A → E → Result E A
or_raise none x = err x
or_raise (some a) x = ok a

infixl 5 ◌>>=◌ ◌>>◌
abbrev pub ◌>>=◌ {ℓ} : {E A B : Type ℓ} → Result E A → (A → Result E B) → Result E B
err problem >>= next = err problem
ok value >>= next = next value

abbrev pub is_ok {ℓ} : {E A : Type ℓ} → Result E A → Bool
is_ok (ok _) = true
is_ok (err _) = false

abbrev pub ◌>>◌ {ℓ} : {E A B : Type ℓ} → Result E A → Result E B → Result E B
first >> second = first >>= λ _. second

-- A value behind a bind comes from a value before it.
pub >>=-eq-ok {ℓ} :
    {E A B : Type ℓ} (action : Result E A) (next : A → Result E B) {out : B}
    → (action >>= next) ≡ ok out
    → (value : A) × (action ≡ ok value) × (next value ≡ ok out)
>>=-eq-ok (err problem) next h = cc
>>=-eq-ok (ok value) next h = (value, refl, h)

pub Result-cases {ℓ} :
    {E A : Type ℓ} (m : Result E A) → ((x : E) × (m ≡ err x)) ⊎ ((a : A) × (m ≡ ok a))
Result-cases (err x) = inl (x, refl)
Result-cases (ok a) = inr (a, refl)
