-- ===== src/Mfa/Table.antt =====
-- `MFAEnrollmentStore` and `MFARecoveryCodeStore` of src/portwyrm/tables/mfa.py.
use portwyrm.Prelude.{
  ℕ, Bool, true, false, not, ◌&&◌, ◌||◌, List, [], ◌∷◌, ◌++◌, Option, none, some, if◌then◌else◌,
  ◌==◌, nat_eq, map, is_some,
}
use portwyrm.Prelude.Result.{Result, ok, err, ◌>>=◌, or_raise}
use portwyrm.Prelude.Text.{Text}
use portwyrm.Backup.{consume_backup_code}
use portwyrm.Mfa.Totp.{Crypto, TotpError, verify_totp}
pub mod Calls
pub mod Rows
pub mod Ways
pub mod Others
pub mod Spend
pub mod Fresh

pub record Enrollment : Type 0 where
  pub principal_id : ℕ
  pub encrypted_secret : Text
  pub confirmed : Bool

pub record Recovery : Type 0 where
  pub principal_id : ℕ
  pub code_digest : Text
  pub used_at : Option ℕ

-- The rows of both tables; the principals of the enrollments are all different.
pub record State : Type 0 where
  pub enrollments : List Enrollment
  pub recoveries : List Recovery

-- Cryptography: of time-based codes, of the hasher (a digest, a code), and of the cipher.
pub record World : Type 0 where
  pub crypto : Crypto
  pub verifies : Text → Text → Bool
  pub encrypt : Text → Text
  pub decrypt : Text → Option Text

-- What `generate_totp_secret` and `generate_backup_codes` give: each code has its digest beside it.
pub record Generated : Type 0 where
  pub secret : Text
  pub codes : List (Text × Text)

pub data MfaError : Type 0 where
  undecryptable : MfaError
  totp : TotpError → MfaError

-- `_enrollment`
unfoldable pub enrollment : ℕ → List Enrollment → Option Enrollment
enrollment p [] = none
enrollment p (row ∷ rows) = if row.principal_id == p then some row else enrollment p rows

unfoldable pub without_enrollment : ℕ → List Enrollment → List Enrollment
without_enrollment p [] = []
without_enrollment p (row ∷ rows) =
    let rest = without_enrollment p rows in if row.principal_id == p then rest else row ∷ rest

unfoldable pub without_recoveries : ℕ → List Recovery → List Recovery
without_recoveries p [] = []
without_recoveries p (row ∷ rows) =
    let rest = without_recoveries p rows in if row.principal_id == p then rest else row ∷ rest

-- `_delete_enrollment`
unfoldable pub delete_enrollment : ℕ → State → State
delete_enrollment p s = elim (enrollment p s.enrollments) [
  | none ↦ s
  | some row ↦ record {
    enrollments = without_enrollment p s.enrollments;
    recoveries = without_recoveries p s.recoveries;
  }
]

-- The new rows of generated codes.
unfoldable pub new_recoveries : ℕ → List (Text × Text) → List Recovery
new_recoveries p [] = []
new_recoveries p (c ∷ cs) =
    record { principal_id = p; code_digest = c.1; used_at = none } ∷ new_recoveries p cs

unfoldable pub codes_of : List (Text × Text) → List Text
codes_of cs = map (λ c. c.0) cs

unfoldable pub set_confirmed : ℕ → List Enrollment → List Enrollment
set_confirmed p [] = []
set_confirmed p (row ∷ rows) =
    if row.principal_id == p
    then record row { confirmed = true } ∷ rows
    else row ∷ set_confirmed p rows

unfoldable pub enabled : ℕ → State → Bool
enabled p s = elim (enrollment p s.enrollments) [ none ↦ false | some row ↦ row.confirmed ]

-- What a regeneration does after the verification, whose answer and tables it takes.
unfoldable pub replace_codes :
    ℕ → Generated → Bool × State → Result MfaError (Option (List Text) × State)
unfolding enabled without_recoveries new_recoveries
replace_codes p fresh (verified, s) =
    if not verified || not (enabled p s)
    then ok (none, s)
    else ok (
      some (codes_of fresh.codes),
      record s { recoveries = without_recoveries p s.recoveries ++ new_recoveries p fresh.codes },
    )

module _ (w : World) where
  -- The secret that is returned, the codes, and the tables.
  unfoldable pub begin : ℕ → Generated → State → (Text × List Text) × State
  unfolding delete_enrollment
  begin p fresh s =
      let t = delete_enrollment p s in
      let row : Enrollment = record {
        principal_id = p;
        encrypted_secret = w.encrypt fresh.secret;
        confirmed = false;
      } in
      (
        (fresh.secret, codes_of fresh.codes),
        record {
          enrollments = t.enrollments ++ row ∷ [];
          recoveries = t.recoveries ++ new_recoveries p fresh.codes;
        },
      )

  -- `_secret`
  unfoldable pub secret_of : Enrollment → Result MfaError Text
  secret_of row = or_raise (w.decrypt row.encrypted_secret) undecryptable

  unfoldable pub raise_totp : Result TotpError Bool → Result MfaError Bool
  raise_totp (ok b) = ok b
  raise_totp (err e) = err (totp e)

  -- `verify_totp(cls._secret(ctx, row), code)`
  unfoldable pub time_code : Enrollment → Text → ℕ → Result MfaError Bool
  unfolding secret_of raise_totp
  time_code row code now =
      secret_of row >>= λ secret. raise_totp (verify_totp w.crypto secret code now 1 30 6)

  unfoldable pub confirm : ℕ → Text → ℕ → State → Result MfaError (Bool × State)
  confirm p code now s = elim (enrollment p s.enrollments) [
    | none ↦ ok (false, s)
    | some row ↦
        if row.confirmed
        then ok (false, s)
        else (time_code row code now >>= λ confirmed. ok (
          confirmed,
          if confirmed then record s { enrollments = set_confirmed p s.enrollments } else s,
        ))
  ]

  -- Whether the row is an unused code of the principal, and the code is that one.
  unfoldable pub fits : ℕ → Text → Recovery → Bool
  fits p code r =
      r.principal_id == p
      && not (is_some r.used_at)
      && (consume_backup_code w.verifies code (r.code_digest ∷ [])).0

  unfoldable pub use_recovery : ℕ → Text → ℕ → List Recovery → Bool × List Recovery
  unfolding fits
  use_recovery p code now [] = (false, [])
  use_recovery p code now (r ∷ rs) =
      let rest = use_recovery p code now rs in
      if fits p code r then (true, record r { used_at = some now } ∷ rs) else (rest.0, r ∷ rest.1)

  unfoldable pub verify : ℕ → Text → ℕ → State → Result MfaError (Bool × State)
  unfolding use_recovery
  verify p code now s = elim (enrollment p s.enrollments) [
    | none ↦ ok (true, s)
    | some row ↦
        if not row.confirmed
        then ok (true, s)
        else (time_code row code now >>= λ good.
            let r = use_recovery p code now s.recoveries in
            if good then ok (true, s) else ok (r.0, record s { recoveries = r.1 }))
  ]

  unfoldable pub disable : ℕ → Text → ℕ → State → Result MfaError (Bool × State)
  unfolding verify
  disable p code now s =
      verify p code now s >>= λ r. ok (r.0, if r.0 then delete_enrollment p r.1 else r.1)

  unfoldable pub regenerate_backup_codes :
      ℕ → Text → ℕ → Generated → State → Result MfaError (Option (List Text) × State)
  unfolding verify replace_codes
  regenerate_backup_codes p code now fresh s = verify p code now s >>= λ r. replace_codes p fresh r
