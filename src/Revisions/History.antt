-- ===== src/Revisions/History.antt =====
-- The deployment state of a host after any history of recorded generations, in
-- src/portwyrm/tables/routing.py.
use portwyrm.Prelude.{
  ℕ, ◌≡◌, ◌↔◌, ◌∙◌, ◌⊎◌, refl, sym, ap, true, false, not, List, Option, none, some, if◌then◌else◌,
  ◌==◌, nat_eq, is_empty, contains, Bool-cases, inl, inr,
}
use portwyrm.Prelude.Text.{Text, text_eq}
use portwyrm.Health.{DeploymentState, pending, applied, drifted, rolled_back}
use portwyrm.Revisions.{Revision, latest_revision, Runtime, revision_state, deployment_state}
use portwyrm.Revisions.Recorded.{Recorded, history, newest, IsRowOf, latest-history}

module _ (runtime : Runtime) (host : ℕ) (g : Text)
    (idle : contains runtime.applying_hosts host ≡ false)
    (served : runtime.active_generation ≡ some g) (named : is_empty g ≡ false) where
  -- The generation is what is deployed.
  abbrev pub IsServed : DeploymentState → Type 0
  IsServed s = (s ≡ applied) ⊎ (s ≡ drifted)

  -- Of a row, when a generation is active and nothing is being applied.
  state_of_row :
      (r : Revision)
      → revision_state (some runtime) r ≡ (
          if not r.is_applied
          then rolled_back
          else if not (r.generation == g)
          then pending
          else if runtime.has_drifted r
          then drifted
          else applied)
  unfolding revision_state
  state_of_row r = simp (served, named)

  state-IsServed :
      (r : Revision)
      → IsServed (revision_state (some runtime) r) ↔ ((r.generation ≡ g) × (r.is_applied ≡ true))
  state-IsServed r = (there, back)
    where
      there :
          IsServed (revision_state (some runtime) r) → (r.generation ≡ g) × (r.is_applied ≡ true)
      there h = elim (Bool-cases r.is_applied) [
        | inr off ↦ elim h [
          | inl e ↦ cc (sym (simp off at (state_of_row r)) ∙ e)
          | inr e ↦ cc (sym (simp off at (state_of_row r)) ∙ e)
        ]
        | inl on ↦ elim (Bool-cases (r.generation == g)) [
          | inr other ↦ elim h [
            | inl e ↦ cc (sym (simp (on, other) at (state_of_row r)) ∙ e)
            | inr e ↦ cc (sym (simp (on, other) at (state_of_row r)) ∙ e)
          ]
          | inl same ↦ ((text_eq.beq_iff r.generation g).0 same, on)
        ]
      ]

      back : (r.generation ≡ g) × (r.is_applied ≡ true) → IsServed (revision_state (some runtime) r)
      back (e, on) =
          let same : (r.generation == g) ≡ true = (text_eq.beq_iff r.generation g).1 e in
          elim (Bool-cases (runtime.has_drifted r)) [
            | inl moved ↦ inr (simp (on, same, moved) at (state_of_row r))
            | inr still ↦ inl (simp (on, same, still) at (state_of_row r))
          ]

  -- While nothing is being applied to a host and a generation with a name is active, the host's
  -- deployment counts as applied or drifted exactly if, of the generations that were ever recorded
  -- for the host, that generation is the one whose first record came last, and this first record
  -- says that it was applied; later records of a generation do not count.
  pub deployment_state-history :
      (cs : List Recorded)
      → IsServed (deployment_state (some runtime) host (history cs).rows)
        ↔ ((c : Recorded) × (newest host cs ≡ some c) × (c.generation ≡ g) × (c.is_applied ≡ true))
  unfolding deployment_state
  deployment_state-history cs =
      rw (idle, deployment_state)
        (by_row (newest host cs) (latest_revision host (history cs).rows) (latest-history host cs))
    where
      by_row :
          (n : Option Recorded) (l : Option Revision)
          → IsRowOf n l
          → IsServed (elim l [ none ↦ pending | some r ↦ revision_state (some runtime) r ])
            ↔ ((c : Recorded) × (n ≡ some c) × (c.generation ≡ g) × (c.is_applied ≡ true))
      by_row none none fit = ((λ h. elim h [ inl e ↦ cc | inr e ↦ cc ]), (λ given. cc (given.1)))
      by_row none (some r) fit = absurd fit
      by_row (some c) none fit = absurd fit
      by_row (some c) (some r) fit =
          let (there, back) = state-IsServed r in
          (
            (λ h. let found = there h in (c, refl, sym fit.0 ∙ found.0, sym fit.1 ∙ found.1)),
            (λ given.
                let e : c ≡ given.0 = cc (given.1) in
                back (
                  fit.0 ∙ (ap (λ (k : Recorded). k.generation) e ∙ given.2),
                  fit.1 ∙ (ap (λ (k : Recorded). k.is_applied) e ∙ given.3),
                )),
          )
