-- ===== src/Mfa/Table/Calls.antt =====
-- Calls of the operations of src/portwyrm/tables/mfa.py one after the other.
use portwyrm.Prelude.{ℕ, Bool, true, false, List, [], ◌∷◌}
use portwyrm.Prelude.Result.{Result, ok, err}
use portwyrm.Prelude.Text.{Text}
use portwyrm.Mfa.Table.{
  State, World, Generated, MfaError, begin, confirm, verify, disable, regenerate_backup_codes,
}

-- A call by a principal, with the code that it gives and the time.
pub data Call : Type 0 where
  beginning : ℕ → Generated → Call
  confirming verifying disabling : ℕ → Text → ℕ → Call
  regenerating : ℕ → Text → ℕ → Generated → Call

abbrev pub caller : Call → ℕ
caller (beginning p fresh) = p
caller (confirming p code now) = p
caller (verifying p code now) = p
caller (disabling p code now) = p
caller (regenerating p code now fresh) = p

-- Whether the call is one of those that neither make codes nor delete them.
abbrev pub is_check : Call → Bool
is_check (beginning p fresh) = false
is_check (confirming p code now) = true
is_check (verifying p code now) = true
is_check (disabling p code now) = false
is_check (regenerating p code now fresh) = false

-- What fails leaves the tables alone.
abbrev pub settle : {A : Type 0} → State → Result MfaError (A × State) → State
settle s (err _) = s
settle s (ok r) = r.1

unfoldable pub call : World → Call → State → State
call w (beginning p fresh) s = (begin w p fresh s).1
call w (confirming p code now) s = settle s (confirm w p code now s)
call w (verifying p code now) s = settle s (verify w p code now s)
call w (disabling p code now) s = settle s (disable w p code now s)
call w (regenerating p code now fresh) s = settle s (regenerate_backup_codes w p code now fresh s)

unfoldable pub calls : World → List Call → State → State
unfolding call
calls w [] s = s
calls w (c ∷ rest) s = calls w rest (call w c s)
