-- ===== src/Mfa/Table/Others.antt =====
-- What calls of src/portwyrm/tables/mfa.py by other principals do to a principal.
use portwyrm.Prelude.{
  ℕ, ◌≡◌, ◌∙◌, refl, true, false, not, ◌||◌, List, [], ◌∷◌, ◌==◌, nat_eq, All, Bool-cases,
  Option-cases, inl, inr,
}
use portwyrm.Prelude.Result.{Result-cases}
use portwyrm.Prelude.Text.{Text}
use portwyrm.Mfa.Table.{
  State, World, Generated, enrollment, enabled, delete_enrollment, begin, time_code, confirm,
  verify, disable, regenerate_backup_codes,
}
use portwyrm.Mfa.Table.Calls.{
  Call, caller, settle, call, calls, beginning, confirming, verifying, disabling, regenerating,
}
use portwyrm.Mfa.Table.Rows.{
  codes_held, codes_held-append_new, codes_held-without, enrollment-append,
  enrollment-set_confirmed_other, delete_enrollment_other, use_recovery_other,
}
use portwyrm.Mfa.Table.Ways.{verify-cases}

module _ (w : World) (p : ℕ) where
  -- The enrollment and the codes of the principal are the same.
  abbrev pub SameFor : State → State → Type 0
  SameFor s t =
      (enrollment p t.enrollments ≡ enrollment p s.enrollments)
      × (codes_held p t.recoveries ≡ codes_held p s.recoveries)

  module _ (q : ℕ) (other : (q == p) ≡ false) where
    begin_other : (fresh : Generated) (s : State) → SameFor s (begin w q fresh s).1
    unfolding begin
    begin_other fresh s =
        let d = delete_enrollment_other p q other s in
        (
          enrollment-append p q other (delete_enrollment q s).enrollments _ refl ∙ d.0,
          codes_held-append_new p q other (delete_enrollment q s).recoveries fresh.codes ∙ d.1,
        )

    confirm_other :
        (code : Text) (now : ℕ) (s : State) → SameFor s (settle s (confirm w q code now s))
    unfolding confirm time_code
    confirm_other code now s = elim (Option-cases (enrollment q s.enrollments)) [
      | inl absent ↦ rw (absent, confirm) (refl, refl)
      | inr (row, there) ↦ elim (Bool-cases row.confirmed) [
        | inl done ↦ rw (there, done, confirm) (refl, refl)
        | inr off ↦ elim (Result-cases (time_code w row code now)) [
          | inl (x, fails) ↦ rw (there, off, fails, confirm) (refl, refl)
          | inr (true, good) ↦
              rw (there, off, good, confirm)
                (enrollment-set_confirmed_other p q s.enrollments other, refl)
          | inr (false, bad) ↦ rw (there, off, bad, confirm) (refl, refl)
        ]
      ]
    ]

    verify_other :
        (code : Text) (now : ℕ) (s : State) → SameFor s (settle s (verify w q code now s))
    verify_other code now s = elim (verify-cases w q code now s) [
      | inl (x, fails, _) ↦ rw fails (refl, refl)
      | inr (inl (same, _)) ↦ rw same (refl, refl)
      | inr (inr (tried, _)) ↦ rw tried (refl, use_recovery_other p w code now q s.recoveries other)
    ]

    disable_other :
        (code : Text) (now : ℕ) (s : State) → SameFor s (settle s (disable w q code now s))
    unfolding disable
    disable_other code now s = elim (Result-cases (verify w q code now s)) [
      | inl (x, fails) ↦ rw (fails, disable) (refl, refl)
      | inr ((false, t), no_code) ↦ rw (no_code, disable) (rw no_code at (verify_other code now s))
      | inr ((true, t), good) ↦
          let v : SameFor s t = rw good at (verify_other code now s) in
          let d = delete_enrollment_other p q other t in rw (good, disable) (d.0 ∙ v.0, d.1 ∙ v.1)
    ]

    regenerate_other :
        (code : Text) (now : ℕ) (fresh : Generated) (s : State)
        → SameFor s (settle s (regenerate_backup_codes w q code now fresh s))
    unfolding regenerate_backup_codes
    regenerate_other code now fresh s = elim (Result-cases (verify w q code now s)) [
      | inl (x, fails) ↦ rw (fails, regenerate_backup_codes) (refl, refl)
      | inr (r, done) ↦ elim (Bool-cases (not r.0 || not (enabled q r.1))) [
        | inl refused ↦
            rw (done, refused, regenerate_backup_codes) (rw done at (verify_other code now s))
        | inr fine ↦
            let v : SameFor s (r.1) = rw done at (verify_other code now s) in
            rw (done, fine, regenerate_backup_codes)
              (
                v.0,
                codes_held-append_new p q other _ fresh.codes
                    ∙ codes_held-without p q other (r.1.recoveries)
                    ∙ v.1,
              )
      ]
    ]

  pub call_other : (c : Call) (s : State) → (caller c == p) ≡ false → SameFor s (call w c s)
  unfolding call
  call_other (beginning q fresh) s other = begin_other q other fresh s
  call_other (confirming q code now) s other = confirm_other q other code now s
  call_other (verifying q code now) s other = verify_other q other code now s
  call_other (disabling q code now) s other = disable_other q other code now s
  call_other (regenerating q code now fresh) s other = regenerate_other q other code now fresh s

  -- Calls by other principals leave the enrollment of a principal and its codes as they are, whatever
  -- they give and whether they fail.
  pub calls_other :
      (cs : List Call) (s : State)
      → All (λ c. (caller c == p) ≡ false) cs
      → SameFor s (calls w cs s)
  unfolding calls
  calls_other [] s others = (refl, refl)
  calls_other (c ∷ cs) s (other, others) =
      let first = call_other c s other in
      let rest = calls_other cs (call w c s) others in (rest.0 ∙ first.0, rest.1 ∙ first.1)
