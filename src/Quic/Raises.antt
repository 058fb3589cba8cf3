-- ===== src/Quic/Raises.antt =====
-- Which exceptions the parser of src/portwyrm/runtime/quic_router.py can raise.
use portwyrm.Prelude.{
  ℕ, ◌<◌, ◌≡◌, refl, Bool, true, false, arith, Option, none, some, get_elem?, length,
  get_elem?_of_lt,
}
use portwyrm.Prelude.Result.{ok, err, ◌>>=◌, ◌>>◌, guard, or_raise}
use portwyrm.Quic.Bytes.{Bytes, Parsed, parse, index}
use portwyrm.Quic.Varint.{varint}

-- The only exception that a result can be is `QuicParseError`.
abbrev pub OnlyParse : {A : Type 0} → Parsed A → Type 0
OnlyParse (ok _) = Unit
OnlyParse (err x) = x ≡ parse

pub OnlyParse-bind :
    {A B : Type 0} (m : Parsed A) (f : A → Parsed B)
    → OnlyParse m
    → ((a : A) → m ≡ ok a → OnlyParse (f a))
    → OnlyParse (m >>= f)
OnlyParse-bind (ok a) f h k = k a refl
OnlyParse-bind (err x) f h k = h

pub OnlyParse-guard :
    {A : Type 0} (b : Bool) (m : Parsed A)
    → (b ≡ true → OnlyParse m)
    → OnlyParse (guard b parse >> m)
OnlyParse-guard true m h = h refl
OnlyParse-guard false m h = refl

-- A read within the list does not raise.
pub OnlyParse-read :
    {A : Type 0} (xs : Bytes) (i : ℕ) (f : ℕ → Parsed A)
    → i < length xs
    → ((a : ℕ) → OnlyParse (f a))
    → OnlyParse (or_raise (get_elem? xs i) index >>= f)
OnlyParse-read xs i f h k = let (x, found) = get_elem?_of_lt xs i h in rw found (k x)

pub OnlyParse-or_raise : {A : Type 0} (o : Option A) → OnlyParse (or_raise o parse)
OnlyParse-or_raise none = refl
OnlyParse-or_raise (some a) = tt

pub OnlyParse-varint : (input : Bytes) (offset : ℕ) → OnlyParse (varint input offset)
unfolding varint
OnlyParse-varint input offset = ground arith
