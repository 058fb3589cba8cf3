-- ===== src/Prelude/Decimal.antt =====
-- Python's `str` of a number, and the digits that a regular expression's `\d+` takes.
use Prim.Native.Nat.{ℕ, zero, suc, ◌+◌, ◌*◌, ◌/◌, ◌%◌, ◌^◌, ◌<◌, ◌≤◌}
use mathlib.Core.Path.{◌≡◌, refl, ◌∙◌, ap}
use mathlib.Core.Bool.{Bool, true, false}
use mathlib.Core.Logic.{inl, inr}
use mathlib.Core.Option.{Option, none, some}
use mathlib.Core.List.{[], ◌∷◌, ◌++◌, append_assoc}
use native.Mathlib.Omega.{arith}
use portwyrm.Prelude.Tests.{if◌then◌else◌, ltb, Bool-cases}
use portwyrm.Prelude.Lists.{length, length-append, All, All-append}
use portwyrm.Prelude.Int.{ℤ, pos, negsuc}
use portwyrm.Prelude.Text.{Text}

-- Each round writes the last digit.
digits_of : ℕ → ℕ → Text
digits_of zero n = []
digits_of (suc rounds) n =
    let before = digits_of rounds (n / 10) in
    (if ltb n 10 then [] else before) ++ (48 + n % 10) ∷ []

-- A number has fewer digits than its successor.
unfoldable pub str : ℕ → Text
unfolding digits_of
str n = digits_of (suc n) n

-- The value of a decimal digit; the digits of other scripts come from outside.
pub record Digits : Type 0 where
  pub decimal : ℕ → Option ℕ

-- `0` to `9` are digits, and the full stop is none.
pub record IsDecimal (d : Digits) : Type 0 where
  pub ascii : (n : ℕ) → n < 10 → d.decimal (48 + n) ≡ some n
  pub stop : d.decimal b'.' ≡ none

-- Whether there was a digit, the number, and the text behind the digits.
unfoldable pub read_digits : Digits → Bool → ℕ → Text → Bool × ℕ × Text
read_digits d found n [] = (found, n, [])
read_digits d found n (c ∷ s) = elim (d.decimal c) [
  | none ↦ (found, n, c ∷ s)
  | some k ↦ read_digits d true (n * 10 + k) s
]

module _ (d : Digits) (decimal : IsDecimal d) where
  read_digits-cons :
      (found : Bool) (n k : ℕ) (s : Text)
      → k < 10
      → read_digits d found n ((48 + k) ∷ s) ≡ read_digits d true (n * 10 + k) s
  unfolding read_digits
  read_digits-cons found n k s h = rw (decimal.ascii k h, read_digits) refl

  read_digits-digits_of :
      (rounds n : ℕ) (found : Bool) (s : Text)
      → n < rounds
      → read_digits d found 0 (digits_of rounds n ++ s) ≡ read_digits d true n s
  unfolding digits_of
  read_digits-digits_of zero n found s h = elim h [ ]
  read_digits-digits_of (suc rounds) n found s h = elim (Bool-cases (ltb n 10)) [
    | inl small ↦
        let e : 0 * 10 + n % 10 ≡ n = ground arith in
        rw small
          (read_digits-cons found 0 (n % 10) s (omega arith) ∙ ap (λ k. read_digits d true k s) e)
    | inr large ↦
        let e : n / 10 * 10 + n % 10 ≡ n = omega arith in
        let less : n / 10 < rounds = ground arith in
        rw large (
          ap (read_digits d found 0) (append_assoc (digits_of rounds (n / 10)) _ s)
          ∙ read_digits-digits_of rounds (n / 10) found ((48 + n % 10) ∷ s) less
          ∙ read_digits-cons true (n / 10) (n % 10) s (omega arith)
          ∙ ap (λ k. read_digits d true k s) e)
  ]

  -- The digits that `str` writes are read back, also before other text.
  pub read_digits-str :
      (n : ℕ) (s : Text) → read_digits d false 0 (str n ++ s) ≡ read_digits d true n s
  unfolding str
  read_digits-str n s = read_digits-digits_of (suc n) n false s (omega arith)

length-digits_of : (rounds n k : ℕ) → n < 10 ^ suc k → length (digits_of rounds n) ≤ suc k
unfolding digits_of
length-digits_of zero n k h = omega arith
length-digits_of (suc rounds) n zero h =
    let small : ltb n 10 ≡ true = ground arith in rw small (omega arith)
length-digits_of (suc rounds) n (suc k) h = elim (Bool-cases (ltb n 10)) [
  | inl small ↦ rw small (omega arith)
  | inr large ↦
      let rest = length-digits_of rounds (n / 10) k (omega arith) in
      let added = length-append (digits_of rounds (n / 10)) ((48 + n % 10) ∷ []) in
      rw large (omega (arith, rest, added))
]

-- A number below a power of ten has no more digits than the exponent.
pub length-str : (n k : ℕ) → n < 10 ^ suc k → length (str n) ≤ suc k
unfolding str
length-str n k h = length-digits_of (suc n) n k h

digits_of-digits : (rounds n : ℕ) → All (λ c. (48 ≤ c) × (c ≤ 57)) (digits_of rounds n)
unfolding digits_of
digits_of-digits zero n = tt
digits_of-digits (suc rounds) n =
    All-append (λ c. (48 ≤ c) × (c ≤ 57)) _ ((48 + n % 10) ∷ [])
      (before (ltb n 10) (digits_of-digits rounds (n / 10))) (omega arith, tt)
  where
    before :
        (b : Bool)
        → All (λ c. (48 ≤ c) × (c ≤ 57)) (digits_of rounds (n / 10))
        → All (λ c. (48 ≤ c) × (c ≤ 57)) (if b then [] else digits_of rounds (n / 10))
    before true h = tt
    before false h = h

-- All of them are digits.
pub str-digits : (n : ℕ) → All (λ c. (48 ≤ c) × (c ≤ 57)) (str n)
unfolding str
str-digits n = digits_of-digits (suc n) n

-- `str(n)` of an `int`.
unfoldable pub str_int : ℤ → Text
unfolding str
str_int (pos n) = str n
str_int (negsuc n) = b'-' ∷ str (suc n)
