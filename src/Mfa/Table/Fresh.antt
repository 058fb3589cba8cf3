-- ===== src/Mfa/Table/Fresh.antt =====
-- Which codes are good after `regenerate_backup_codes` of src/portwyrm/tables/mfa.py.
use portwyrm.Prelude.{
  ℕ, ◌≡◌, ◌∙◌, refl, ap, Bool, true, false, not, ◌||◌, List, ◌++◌, some, ◌==◌, nat_eq, any, All,
  Bool-cases, inl, inr,
}
use portwyrm.Prelude.Result.{ok, >>=-eq-ok}
use portwyrm.Prelude.Text.{Text}
use portwyrm.Mfa.Table.{
  State, World, Generated, enrollment, enabled, verify, regenerate_backup_codes, replace_codes,
  codes_of, without_recoveries, new_recoveries, fits,
}
use portwyrm.Mfa.Table.Rows.{
  codes_held, codes_held-append, codes_held-without_self, codes_held-new_self, use_recovery-any,
  any-fits,
}
use portwyrm.Mfa.Table.Ways.{needs_recovery, after_recovery, verify-cases}
use portwyrm.Mfa.Table.Others.{calls_other}
use portwyrm.Mfa.Table.Calls.{Call, caller, calls}

module _ (w : World) (p : ℕ) where
  -- The answer where a recovery code is needed and the principal has these codes only.
  verify_held :
      (code : Text) (now : ℕ) (s : State) (cs : List (Text × Text))
      → codes_held p s.recoveries ≡ new_recoveries p cs
      → needs_recovery w p code now s ≡ true
      → (after : State) × (verify w p code now s ≡ ok (any (λ c. w.verifies c.1 code) cs, after))
  verify_held code now s cs held need = elim (verify-cases w p code now s) [
    | inl (x, fails, no_need) ↦ cc
    | inr (inl (same, no_need)) ↦ cc
    | inr (inr (tried, _)) ↦
        let answer =
          use_recovery-any p w code now s.recoveries
          ∙ ap (any (fits w p code)) held
          ∙ any-fits p w code now cs in
        (_, tried ∙ ap (λ b. ok (b, (after_recovery w p code now s).1)) answer)
  ]

  needs_same :
      (code : Text) (now : ℕ) (s t : State)
      → enrollment p t.enrollments ≡ enrollment p s.enrollments
      → needs_recovery w p code now t ≡ needs_recovery w p code now s
  unfolding needs_recovery
  needs_same code now s t same = rw (same, needs_recovery) refl

  regenerate_held :
      (code : Text) (now : ℕ) (fresh : Generated) (s t : State) (codes : List Text)
      → regenerate_backup_codes w p code now fresh s ≡ ok (some codes, t)
      → (codes ≡ codes_of fresh.codes) × (codes_held p t.recoveries ≡ new_recoveries p fresh.codes)
  unfolding regenerate_backup_codes replace_codes
  regenerate_held code now fresh s t codes h =
      let (r, done, rest) = >>=-eq-ok (verify w p code now s) _ h in replaced r rest
    where
      replaced :
          (r : Bool × State)
          → replace_codes p fresh r ≡ ok (some codes, t)
          → (codes ≡ codes_of fresh.codes)
            × (codes_held p t.recoveries ≡ new_recoveries p fresh.codes)
      replaced r rest = elim (Bool-cases (not r.0 || not (enabled p r.1))) [
        | inl refused ↦ cc (rw (refused, replace_codes) at rest)
        | inr fine ↦
            let done = rw (fine, replace_codes) at rest in
            let e : codes ≡ codes_of fresh.codes = cc done in
            let e' : t.recoveries
                ≡ without_recoveries p (r.1.recoveries) ++ new_recoveries p fresh.codes =
              cc done in
            (e, rw (e', codes_held-append, codes_held-without_self, codes_held-new_self) refl)
      ]

  -- After a regeneration that gave codes, and whatever others called since: where enrollment is on and
  -- the code is not the one of the time, a verification ends, and accepts the code exactly if it fits
  -- the digest of one of the new codes.
  pub regenerate_backup_codes-verify :
      (code given : Text) (now later : ℕ) (fresh : Generated) (s t : State) (codes : List Text)
      (cs : List Call)
      → regenerate_backup_codes w p code now fresh s ≡ ok (some codes, t)
      → All (λ c. (caller c == p) ≡ false) cs
      → needs_recovery w p given later t ≡ true
      → (codes ≡ codes_of fresh.codes)
        × (after : State) × (verify w p given later (calls w cs t)
            ≡ ok (any (λ c. w.verifies c.1 given) fresh.codes, after))
  regenerate_backup_codes-verify code given now later fresh s t codes cs h others need =
      let (made, held) = regenerate_held code now fresh s t codes h in
      let same = calls_other w p cs t others in
      let answered =
        verify_held given later (calls w cs t) fresh.codes (same.1 ∙ held)
          (needs_same given later t (calls w cs t) same.0 ∙ need) in
      (made, answered.0, answered.1)
