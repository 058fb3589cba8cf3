-- ===== src/Backup.antt =====
-- The backup codes of src/portwyrm/identity/mfa.py. The Argon2 hasher is a parameter.
use portwyrm.Prelude.{
  ℕ, suc, ◌≡◌, refl, arith, Bool, true, false, List, [], ◌∷◌, if◌then◌else◌, length, Bool-cases,
  inl, inr,
}
use portwyrm.Prelude.Text.{Text}

module _ (verifies : Text → Text → Bool) where
  -- Whether a hash fitted, and the hashes that are left.
  unfoldable pub consume_backup_code : Text → List Text → Bool × List Text
  consume_backup_code code [] = (false, [])
  consume_backup_code code (stored ∷ hashes) =
      let rest = consume_backup_code code hashes in
      if verifies stored code then (true, hashes) else (rest.0, stored ∷ rest.1)

  -- How many hashes the code fits.
  unfoldable pub count_fitting : Text → List Text → ℕ
  count_fitting code [] = 0
  count_fitting code (stored ∷ hashes) =
      let rest = count_fitting code hashes in if verifies stored code then suc rest else rest

  -- A code is accepted exactly as often as hashes fit it: it is accepted if some hash does, and then one
  -- hash that fits it is gone and no other; and else the hashes stay.
  pub consume_backup_code_once :
      (code : Text) (hashes : List Text)
      → let r = consume_backup_code code hashes in
        ((r.0 ≡ true)
          → (length hashes ≡ suc (length r.1))
            × (count_fitting code hashes ≡ suc (count_fitting code r.1)))
        × ((r.0 ≡ false) → (r.1 ≡ hashes) × (count_fitting code hashes ≡ 0))
  unfolding consume_backup_code count_fitting
  consume_backup_code_once code [] = ((λ h. cc), (λ h. (refl, refl)))
  consume_backup_code_once code (stored ∷ hashes) = elim (Bool-cases (verifies stored code)) [
    | inl fits ↦ rw fits ((λ h. (refl, refl)), (λ h. cc))
    | inr other ↦
        let rest = consume_backup_code_once code hashes in
        rw other (
          (λ h. let k = rest.0 h in (omega (arith, k.0), ground (arith, k.1, other))),
          (λ h. let k = rest.1 h in (rw (k.0), k.1)),
        )
  ]
