-- ===== src/Mfa/Table/Spend.antt =====
-- Recovery codes of src/portwyrm/tables/mfa.py are spent: one for each answer that one of them gave.
use portwyrm.Prelude.{
  ℕ, suc, ◌+◌, ◌≡◌, ◌⊎◌, refl, sym, subst, ap, arith, Bool, true, false, ◌&&◌, List, [], ◌∷◌,
  if◌then◌else◌, ◌==◌, nat_eq, All, Bool-cases, Option-cases, inl, inr,
}
use portwyrm.Prelude.Result.{Result, ok, err, Result-cases}
use portwyrm.Prelude.Text.{Text}
use portwyrm.Mfa.Table.{State, World, MfaError, enrollment, time_code, confirm, verify}
use portwyrm.Mfa.Table.Calls.{
  Call, caller, is_check, settle, call, calls, beginning, confirming, verifying, disabling,
  regenerating,
}
use portwyrm.Mfa.Table.Rows.{codes_held, unused, use_recovery_own}
use portwyrm.Mfa.Table.Ways.{needs_recovery, verify-cases}
use portwyrm.Mfa.Table.Others.{call_other}

abbrev pub is_yes : Result MfaError (Bool × State) → Bool
is_yes (err _) = false
is_yes (ok r) = r.0

module _ (w : World) (p : ℕ) where
  -- Whether the call is one by the principal that is answered with yes, with enrollment on and a code that is
  -- not the one of the time.
  unfoldable pub spends : Call → State → Bool
  spends (beginning q fresh) s = false
  spends (confirming q code now) s = false
  spends (verifying q code now) s =
      q == p && needs_recovery w q code now s && is_yes (verify w q code now s)
  spends (disabling q code now) s = false
  spends (regenerating q code now fresh) s = false

  -- How many of the calls are.
  unfoldable pub spent : List Call → State → ℕ
  unfolding spends
  spent [] s = 0
  spent (c ∷ cs) s = let rest = spent cs (call w c s) in if spends c s then suc rest else rest

  -- The codes that a principal may still use.
  abbrev pub left : State → ℕ
  left s = unused (codes_held p s.recoveries)

  verify_spends :
      (code : Text) (now : ℕ) (s : State)
      → (if needs_recovery w p code now s && is_yes (verify w p code now s) then 1 else 0)
          + left (settle s (verify w p code now s))
        ≡ left s
  verify_spends code now s = elim (verify-cases w p code now s) [
    | inl (x, fails, no_need) ↦ rw (fails, no_need) (omega arith)
    | inr (inl (same, no_need)) ↦ rw (same, no_need) (omega arith)
    | inr (inr (tried, need)) ↦ rw (tried, need) (use_recovery_own p w code now s.recoveries)
  ]

  confirm_keeps :
      (q : ℕ) (code : Text) (now : ℕ) (s : State)
      → (settle s (confirm w q code now s)).recoveries ≡ s.recoveries
  unfolding confirm time_code
  confirm_keeps q code now s = elim (Option-cases (enrollment q s.enrollments)) [
    | inl absent ↦ rw (absent, confirm) refl
    | inr (row, there) ↦ elim (Bool-cases row.confirmed) [
      | inl done ↦ rw (there, done, confirm) refl
      | inr off ↦ elim (Result-cases (time_code w row code now)) [
        | inl (x, fails) ↦ rw (there, off, fails, confirm) refl
        | inr (true, good) ↦ rw (there, off, good, confirm) refl
        | inr (false, bad) ↦ rw (there, off, bad, confirm) refl
      ]
    ]
  ]

  spends_other : (c : Call) (s : State) → (caller c == p) ≡ false → spends c s ≡ false
  unfolding spends
  spends_other (beginning q fresh) s other = refl
  spends_other (confirming q code now) s other = refl
  spends_other (verifying q code now) s other = rw other refl
  spends_other (disabling q code now) s other = refl
  spends_other (regenerating q code now fresh) s other = refl

  -- A call by another principal, or one that only checks a code.
  abbrev pub IsHarmless : Call → Type 0
  IsHarmless c = ((caller c == p) ≡ false) ⊎ (is_check c ≡ true)

  others_one :
      (c : Call) (s : State)
      → (caller c == p) ≡ false
      → (if spends c s then 1 else 0) + left (call w c s) ≡ left s
  others_one c s other =
      let same = call_other w p c s other in
      rw (spends_other c s other) (omega (arith, ap unused same.1))

  spends_one :
      (c : Call) (s : State)
      → IsHarmless c
      → (if spends c s then 1 else 0) + left (call w c s) ≡ left s
  unfolding spends call
  spends_one c s (inl other) = others_one c s other
  spends_one (beginning q fresh) s (inr check) = cc
  spends_one (confirming q code now) s (inr check) =
      omega (arith, ap (λ rs. unused (codes_held p rs)) (confirm_keeps q code now s))
  spends_one (verifying q code now) s (inr check) = elim (Bool-cases (q == p)) [
    | inr other ↦ others_one (verifying q code now) s other
    | inl same ↦
        let e : q ≡ p = ground (arith, nat_eq.beq_iff q p) in
        subst
          (λ r.
            (if (r == p && needs_recovery w r code now s && is_yes (verify w r code now s))
                then 1
                else 0)
              + left (settle s (verify w r code now s))
            ≡ left s)
          (sym e) (ground (arith, verify_spends code now s))
  ]
  spends_one (disabling q code now) s (inr check) = cc
  spends_one (regenerating q code now fresh) s (inr check) = cc

  -- While others do anything and the principal only confirms and verifies, the verifications that a
  -- recovery code answered and the codes that are not used are together as many as the codes
  -- that were not used before: a code is good for one answer.
  pub calls_spend :
      (cs : List Call) (s : State) → All IsHarmless cs → spent cs s + left (calls w cs s) ≡ left s
  unfolding spent calls
  calls_spend [] s harmless = omega arith
  calls_spend (c ∷ cs) s (first, others) =
      ground (arith, spends_one c s first, calls_spend cs (call w c s) others)
