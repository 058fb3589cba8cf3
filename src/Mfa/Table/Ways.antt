-- ===== src/Mfa/Table/Ways.antt =====
-- The ways that `verify` of src/portwyrm/tables/mfa.py ends.
use portwyrm.Prelude.{
  ℕ, ◌≡◌, ◌⊎◌, refl, Bool, true, false, not, ◌&&◌, none, some, Bool-cases, Option-cases, inl, inr,
}
use portwyrm.Prelude.Result.{Result, ok, err, Result-cases}
use portwyrm.Prelude.Text.{Text}
use portwyrm.Mfa.Table.{State, World, MfaError, enrollment, time_code, use_recovery, verify}

abbrev pub is_no : Result MfaError Bool → Bool
is_no (err _) = false
is_no (ok good) = not good

module _ (w : World) (p : ℕ) (code : Text) (now : ℕ) (s : State) where
  -- Whether the principal is enrolled, and the code is not the one of the time.
  unfoldable pub needs_recovery : Bool
  needs_recovery = elim (enrollment p s.enrollments) [
    | none ↦ false
    | some row ↦ row.confirmed && is_no (time_code w row code now)
  ]

  -- The answer and the tables where a recovery code is tried.
  abbrev pub after_recovery : Bool × State
  after_recovery =
      let r = use_recovery w p code now s.recoveries in (r.0, record s { recoveries = r.1 })

  -- Nothing is changed and nothing is refused, or a recovery code is tried.
  abbrev pub Ways : Type 0
  Ways =
      ((x : MfaError) × (verify w p code now s ≡ err x) × (needs_recovery ≡ false))
      ⊎ (((verify w p code now s ≡ ok (true, s)) × (needs_recovery ≡ false))
          ⊎ ((verify w p code now s ≡ ok after_recovery) × (needs_recovery ≡ true)))

  pub verify-cases : Ways
  unfolding verify needs_recovery time_code
  verify-cases = elim (Option-cases (enrollment p s.enrollments)) [
    | inl absent ↦ rw (absent, verify, needs_recovery) (inr (inl (refl, refl)))
    | inr (row, there) ↦ elim (Bool-cases row.confirmed) [
      | inr off ↦ rw (there, off, verify, needs_recovery) (inr (inl (refl, refl)))
      | inl on ↦ elim (Result-cases (time_code w row code now)) [
        | inl (x, fails) ↦ rw (there, on, fails, verify, needs_recovery) (inl (x, refl, refl))
        | inr (true, good) ↦ rw (there, on, good, verify, needs_recovery) (inr (inl (refl, refl)))
        | inr (false, bad) ↦ rw (there, on, bad, verify, needs_recovery) (inr (inr (refl, refl)))
      ]
    ]
  ]
