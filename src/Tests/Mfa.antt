-- ===== src/Tests/Mfa.antt =====
-- src/portwyrm/identity/mfa.py and src/portwyrm/tables/mfa.py at concrete inputs.
use portwyrm.Prelude.{
  string_eq, ℕ, ◌+◌, ◌/◌, ◌≤◌, ◌≡◌, ◌↔◌, refl, arith, true, false, ◌&&◌, List, [], ◌∷◌, ◌++◌, none,
  some, ◌==◌, nat_eq, leb, length, slice, All, any, inl, inr,
}
use portwyrm.Prelude.Result.{ok}
use portwyrm.Prelude.Decimal.{str}
use portwyrm.Prelude.Text.{Text, text_eq, is_space, codes}
use portwyrm.Quic.Bytes.{from_bytes_acc}
use portwyrm.Mfa.Base32.{decode_base32}
use portwyrm.Backup.{consume_backup_code}
use portwyrm.Mfa.Totp.{Crypto, zfill, totp_code, verify_totp}
use portwyrm.Mfa.Totp.Shape.{IsDigit, totp_code-shape}
use portwyrm.Mfa.Totp.Window.{verify_totp_iff}
use portwyrm.Mfa.Table.{
  Recovery, State, World, Generated, verify, regenerate_backup_codes, codes_of, enrollment,
  time_code,
}
use portwyrm.Mfa.Table.Calls.{
  Call, caller, call, calls, beginning, verifying, disabling, regenerating,
}
use portwyrm.Mfa.Table.Ways.{needs_recovery}
use portwyrm.Mfa.Table.Others.{SameFor, calls_other}
use portwyrm.Mfa.Table.Spend.{left, spent, calls_spend}
use portwyrm.Mfa.Table.Fresh.{regenerate_backup_codes-verify}

-- A digest whose first four bytes are the last of the counter, and whose last is zero.
abbrev crypto : Crypto
crypto = record {
  hmac = λ key counter. slice counter 4 8 ++ 0 ∷ [];
  upper = λ t. t;
  is_digit = λ ch. leb b'0' ch && leb ch b'9';
}

-- The time is in period 3, the code that of period 4.
verify_totp_iff_example :
    (verify_totp crypto (codes "ABCD") (codes "000004") 100 1 30 6 ≡ ok true) ↔ (
      (t : ℕ) × (totp_code crypto (codes "ABCD") t 30 6 ≡ ok (codes "000004"))
      × (t / 30 ≤ 100 / 30 + 1)
      × (100 / 30 ≤ t / 30 + 1))
unfolding decode_base32 is_space
verify_totp_iff_example =
    verify_totp_iff crypto (codes "ABCD") (0 ∷ 68 ∷ []) refl (codes "000004") 100 refl refl
      (omega arith)

test_code : totp_code crypto (codes "ABCD") 120 30 6 ≡ ok (codes "000004")
unfolding totp_code zfill str from_bytes_acc decode_base32 is_space
test_code = refl

test_verify : verify_totp crypto (codes "ABCD") (codes "000004") 100 1 30 6 ≡ ok true
unfolding verify_totp totp_code text_eq zfill str from_bytes_acc decode_base32 is_space
test_verify = refl

test_verify_late : verify_totp crypto (codes "ABCD") (codes "000004") 60 1 30 6 ≡ ok false
unfolding verify_totp totp_code text_eq zfill str from_bytes_acc decode_base32 is_space
test_verify_late = refl

totp_code-shape_example : (length (codes "000004") ≡ 6) × All IsDigit (codes "000004")
unfolding totp_code zfill str from_bytes_acc decode_base32 is_space
totp_code-shape_example = totp_code-shape crypto (codes "ABCD") 120 30 6 (codes "000004") refl

-- "foo", and two faults.
test_decode : decode_base32 (λ t. t) (codes "MZXW 6") ≡ some (102 ∷ 111 ∷ 111 ∷ [])
unfolding decode_base32 is_space
test_decode = refl

test_decode_length : decode_base32 (λ t. t) (codes "MZX") ≡ none
unfolding decode_base32 is_space
test_decode_length = refl

test_decode_digit : decode_base32 (λ t. t) (codes "MZX1") ≡ none
unfolding decode_base32 is_space
test_decode_digit = refl

abbrev w : World
w = record {
  crypto = crypto;
  verifies = λ stored code. stored == code;
  encrypt = λ t. t;
  decrypt = λ t. some t;
}

abbrev fresh : Generated
fresh = record {
  secret = codes "DEFG";
  codes = (codes "new1", codes "new1") ∷ (codes "new2", codes "new2") ∷ [];
}

abbrev recovery : ℕ → Text → Recovery
recovery p digest = record { principal_id = p; code_digest = digest; used_at = none }

abbrev enrolled : State
enrolled = record {
  enrollments =
      record { principal_id = 1; encrypted_secret = codes "ABCD"; confirmed = true }
      ∷ record { principal_id = 2; encrypted_secret = codes "ABCD"; confirmed = true }
      ∷ [];
  recoveries = recovery 1 (codes "aa") ∷ recovery 2 (codes "aa") ∷ recovery 1 (codes "bb") ∷ [];
}

-- The other principal verifies, replaces its codes and starts again.
abbrev by_others : List Call
by_others =
    verifying 2 (codes "aa") 100
    ∷ regenerating 2 (codes "000003") 100 fresh
    ∷ disabling 2 (codes "no") 101
    ∷ beginning 2 fresh
    ∷ []

harmless_others : All (λ c. (caller c == 1) ≡ false) by_others
harmless_others = (refl, (refl, (refl, (refl, tt))))

calls_other_example : SameFor w 1 enrolled (calls w by_others enrolled)
calls_other_example = calls_other w 1 by_others enrolled harmless_others

-- The same code twice, once with success, between calls of the other principal.
abbrev attempts : List Call
attempts =
    verifying 1 (codes "aa") 100 ∷ verifying 2 (codes "aa") 101 ∷ verifying 1 (codes "aa") 102 ∷ []

calls_spend_example :
    spent w 1 attempts enrolled + left w 1 (calls w attempts enrolled) ≡ left w 1 enrolled
calls_spend_example = calls_spend w 1 attempts enrolled (inr refl, (inl refl, (inr refl, tt)))

test_spent : spent w 1 attempts enrolled ≡ 1
unfolding spent call needs_recovery verify consume_backup_code verify_totp totp_code text_eq zfill
    str from_bytes_acc enrollment time_code
test_spent = refl

abbrev renewed : State
renewed = record enrolled {
  recoveries = recovery 2 (codes "aa") ∷ recovery 1 (codes "new1") ∷ recovery 1 (codes "new2") ∷ [];
}

-- The code that was good before is no good after.
regenerate_backup_codes-verify_example :
    ((codes "new1" ∷ codes "new2" ∷ []) ≡ codes_of fresh.codes)
    × (after : State) × (verify w 1 (codes "bb") 130 (calls w by_others renewed)
        ≡ ok (any (λ c. w.verifies c.1 (codes "bb")) fresh.codes, after))
unfolding regenerate_backup_codes codes_of needs_recovery verify_totp totp_code text_eq zfill str
    decode_base32 is_space from_bytes_acc enrollment time_code
regenerate_backup_codes-verify_example =
    regenerate_backup_codes-verify w 1 (codes "000003") (codes "bb") 100 130 fresh enrolled renewed
      (codes "new1" ∷ codes "new2" ∷ []) by_others refl harmless_others refl
