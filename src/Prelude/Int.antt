-- ===== src/Prelude/Int.antt =====
-- Python's `int` where it may be negative; `negsuc n` is -(n + 1).
use Prim.Native.Nat.{ℕ}
use mathlib.Core.Bool.{Bool, true, false, not, ◌&&◌}
use portwyrm.Prelude.Tests.{leb, nat_beq}
use portwyrm.Prelude.Classes.{Eq, list_eq}
use mathlib.Core.Path.{◌≡◌}
use mathlib.Core.Logic.{◌↔◌}
use native.Mathlib.Omega.{arith}

pub data ℤ : Type 0 where
  pos : ℕ → ℤ
  negsuc : ℕ → ℤ

-- `lo <= n <= hi`
abbrev pub is_between : ℕ → ℕ → ℤ → Bool
is_between lo hi (pos n) = leb lo n && leb n hi
is_between lo hi (negsuc n) = false

-- `n > 0`
abbrev pub is_positive : ℤ → Bool
is_positive (pos n) = not (nat_beq n 0)
is_positive (negsuc n) = false

abbrev pub is_negative : ℤ → Bool
is_negative (pos n) = false
is_negative (negsuc n) = true

abbrev pub int_beq : ℤ → ℤ → Bool
int_beq (pos a) (pos b) = nat_beq a b
int_beq (negsuc a) (negsuc b) = nat_beq a b
int_beq _ _ = false

pub int_beq_iff : (a b : ℤ) → (int_beq a b ≡ true) ↔ (a ≡ b)
int_beq_iff (pos a) (pos b) = ground arith
int_beq_iff (pos a) (negsuc b) = ground arith
int_beq_iff (negsuc a) (pos b) = ground arith
int_beq_iff (negsuc a) (negsuc b) = ground arith

instance unfoldable pub int_eq : Eq ℤ
int_eq = record { beq = int_beq; beq_iff = int_beq_iff }
