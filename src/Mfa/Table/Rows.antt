-- ===== src/Mfa/Table/Rows.antt =====
-- The rows of one principal, of src/portwyrm/tables/mfa.py, and what the writes do to them.
use portwyrm.Prelude.{
  ℕ, ◌+◌, ◌≡◌, refl, arith, false, suc, List, [], ◌∷◌, ◌++◌, if◌then◌else◌, ◌==◌, nat_eq, is_some,
  any, Option-cases, inl, inr,
}
use mathlib.Core.List.{append-nil}
use portwyrm.Prelude.Text.{Text}
use portwyrm.Backup.{consume_backup_code}
use portwyrm.Mfa.Table.{
  Enrollment, Recovery, State, World, enrollment, without_enrollment, without_recoveries,
  delete_enrollment, new_recoveries, set_confirmed, fits, use_recovery,
}

-- The recovery codes of a principal.
unfoldable pub codes_held : ℕ → List Recovery → List Recovery
codes_held p [] = []
codes_held p (r ∷ rs) = let rest = codes_held p rs in if r.principal_id == p then r ∷ rest else rest

-- How many codes are not used.
unfoldable pub unused : List Recovery → ℕ
unused [] = 0
unused (r ∷ rs) = let rest = unused rs in if is_some r.used_at then rest else suc rest

module _ (p : ℕ) where
  pub codes_held-append :
      (xs ys : List Recovery) → codes_held p (xs ++ ys) ≡ codes_held p xs ++ codes_held p ys
  unfolding codes_held
  codes_held-append [] ys = refl
  codes_held-append (x ∷ xs) ys = ground (arith, codes_held-append xs ys)

  pub codes_held-without_self : (rs : List Recovery) → codes_held p (without_recoveries p rs) ≡ []
  unfolding codes_held without_recoveries
  codes_held-without_self [] = refl
  codes_held-without_self (r ∷ rs) = ground (arith, codes_held-without_self rs)

  pub codes_held-new_self :
      (cs : List (Text × Text)) → codes_held p (new_recoveries p cs) ≡ new_recoveries p cs
  unfolding codes_held new_recoveries
  codes_held-new_self [] = refl
  codes_held-new_self (c ∷ cs) = ground (arith, codes_held-new_self cs)

  pub enrollment-set_confirmed_other :
      (q : ℕ) (rows : List Enrollment)
      → (q == p) ≡ false
      → enrollment p (set_confirmed q rows) ≡ enrollment p rows
  unfolding enrollment set_confirmed
  enrollment-set_confirmed_other q [] other = refl
  enrollment-set_confirmed_other q (r ∷ rows) other =
      ground (arith, enrollment-set_confirmed_other q rows other)

  module _ (q : ℕ) (other : (q == p) ≡ false) where
    pub codes_held-without :
        (rs : List Recovery) → codes_held p (without_recoveries q rs) ≡ codes_held p rs
    unfolding codes_held without_recoveries
    codes_held-without [] = refl
    codes_held-without (r ∷ rs) = ground (arith, codes_held-without rs)

    codes_held-new : (cs : List (Text × Text)) → codes_held p (new_recoveries q cs) ≡ []
    unfolding codes_held new_recoveries
    codes_held-new [] = refl
    codes_held-new (c ∷ cs) = ground (arith, codes_held-new cs)

    enrollment-without :
        (rows : List Enrollment) → enrollment p (without_enrollment q rows) ≡ enrollment p rows
    unfolding enrollment without_enrollment
    enrollment-without [] = refl
    enrollment-without (r ∷ rows) = ground (arith, enrollment-without rows)

    pub enrollment-append :
        (rows : List Enrollment) (row : Enrollment)
        → row.principal_id ≡ q
        → enrollment p (rows ++ row ∷ []) ≡ enrollment p rows
    unfolding enrollment
    enrollment-append [] row of_q = ground arith
    enrollment-append (r ∷ rows) row of_q = ground (arith, enrollment-append rows row of_q)

    -- Where another principal is given codes.
    pub codes_held-append_new :
        (rs : List Recovery) (cs : List (Text × Text))
        → codes_held p (rs ++ new_recoveries q cs) ≡ codes_held p rs
    codes_held-append_new rs cs =
        rw (codes_held-append, codes_held-new) (append-nil (codes_held p rs))

    pub delete_enrollment_other :
        (s : State)
        → (enrollment p (delete_enrollment q s).enrollments ≡ enrollment p s.enrollments)
          × (codes_held p (delete_enrollment q s).recoveries ≡ codes_held p s.recoveries)
    unfolding delete_enrollment
    delete_enrollment_other s = elim (Option-cases (enrollment q s.enrollments)) [
      | inl absent ↦ rw (absent, delete_enrollment) (refl, refl)
      | inr (row, there) ↦
          rw (there, delete_enrollment)
            (enrollment-without s.enrollments, codes_held-without s.recoveries)
    ]

  module _ (w : World) (code : Text) (now : ℕ) where
    pub use_recovery_other :
        (q : ℕ) (rs : List Recovery)
        → (q == p) ≡ false
        → codes_held p (use_recovery w q code now rs).1 ≡ codes_held p rs
    unfolding use_recovery codes_held fits
    use_recovery_other q [] other = refl
    use_recovery_other q (r ∷ rs) other = ground (arith, use_recovery_other q rs other)

    -- A use takes one code of the principal, or none.
    pub use_recovery_own :
        (rs : List Recovery)
        → (if (use_recovery w p code now rs).0 then 1 else 0)
            + unused (codes_held p (use_recovery w p code now rs).1)
          ≡ unused (codes_held p rs)
    unfolding use_recovery codes_held unused fits
    use_recovery_own [] = refl
    use_recovery_own (r ∷ rs) = ground (arith, use_recovery_own rs)

    -- Some code of the principal fits where one is used.
    pub use_recovery-any :
        (rs : List Recovery)
        → (use_recovery w p code now rs).0 ≡ any (fits w p code) (codes_held p rs)
    unfolding use_recovery codes_held fits
    use_recovery-any [] = refl
    use_recovery-any (r ∷ rs) = ground (arith, use_recovery-any rs)

    pub any-fits :
        (cs : List (Text × Text))
        → any (fits w p code) (new_recoveries p cs) ≡ any (λ c. w.verifies c.1 code) cs
    unfolding new_recoveries fits consume_backup_code
    any-fits [] = refl
    any-fits (c ∷ cs) = ground (arith, any-fits cs)
