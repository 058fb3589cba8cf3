-- ===== src/Controller/Agreement.antt =====
-- The table of generations and the disk agree on the active generation through every reconciliation of
-- src/portwyrm/runtime/controller.py.
use portwyrm.Prelude.{
  ◌≡◌, ◌∙◌, refl, sym, ap, subst, arith, Bool, true, false, Option, none, some, if◌then◌else◌, ◌==◌,
  Bool-cases, inl, inr, Option-cases,
}
use mathlib.Core.Path.{fun_ext}
use portwyrm.Prelude.Result.{Result, ok, err, Result-cases}
use portwyrm.Prelude.Dict.{Dict}
use portwyrm.Prelude.Text.{Text, text_eq}
use portwyrm.Reconcile.Store.{ReconcileError, generation_id, active_id}
use portwyrm.Reconcile.Run.{
  ReconcileResult, same_id, reconcile, World, apply_candidate, switch, roll_back, fail_with,
}
use portwyrm.Reconcile.Safety.{IsSound, IsDigest, reconcile-Settles}
use portwyrm.Generations.Rows.{IsValid, Marks}
use portwyrm.Generations.Active.{Has, Leaves}
use portwyrm.Leases.{Leases, seconds, acquire, release}
use portwyrm.Controller.Persist.{State, Environment, Clock, describe, persist}
use portwyrm.Controller.{
  ControllerError, active_generation, lease_name, record_failure, report_of, reconcile_held,
  reconcile_files, held_by,
}
use portwyrm.Controller.Reports.{Applies, reported, persist_applied, persist_refused}

-- The rows are distinct, those that are active are exactly that of the generation which is active on
-- the disk, that generation has a row, and its files are there.
pub record Agrees (s : State) : Type 0 where
  pub valid : IsValid s.generations
  pub marks : Marks (same_id (active_generation s)) s.generations.rows
  pub listed : (g : Text) → active_generation s ≡ some g → Has g s.generations.rows
  pub sound : IsSound s.disk.store

-- The reconciler fails only with a generation that is not the active one.
fails_apart :
    (env : Environment) (files : Dict Text Text) (s : State) (id : Text) (problem : ReconcileError)
    → generation_id env.callbacks.hexdigest files ≡ ok id
    → (reconcile env.callbacks files s.disk).0 ≡ err problem
    → same_id (active_id s.disk.store) id ≡ false
unfolding reconcile
fails_apart env files s id problem good failed =
    elim (Bool-cases (same_id (active_id s.disk.store) id)) [
      | inl current ↦ cc (rw (good, current, reconcile) at failed)
      | inr other ↦ other
    ]

-- The rows say the same as the disk, which stays as it is.
disk-Agrees :
    (before after : State) (q : Text → Bool)
    → Leaves before.generations after.generations q
    → after.disk ≡ before.disk
    → ((g : Text) → q g ≡ same_id (active_generation before) g)
    → ((g : Text) → active_generation before ≡ some g → Has g after.generations.rows)
    → IsSound before.disk.store
    → Agrees after
unfolding active_generation
disk-Agrees before after q leaves same test listed sound = record {
  valid = leaves.valid;
  marks = rw same (subst (λ p. Marks p after.generations.rows) (fun_ext test) (leaves.marks));
  listed = λ g h. listed g (ap (λ (d : World). active_id d.store) (sym same) ∙ h);
  sound = rw same sound;
}

excluded :
    (active : Option Text) (id g : Text)
    → same_id active id ≡ false
    → (if g == id then false else same_id active g) ≡ same_id active g
excluded none id g h = ground arith
excluded (some a) id g h = ground (arith, text_eq.beq_iff g id)

-- The failure of a generation that is not the active one.
record_failure-Agrees :
    (env : Environment) (clock : Clock) (files : Dict Text Text) (problem : ReconcileError)
    (s : State)
    → ((id : Text)
        → generation_id env.callbacks.hexdigest files ≡ ok id
        → same_id (active_generation s) id ≡ false)
    → Agrees s
    → Agrees (record_failure env clock files problem s).1
unfolding record_failure active_generation
record_failure-Agrees env clock files problem s apart agrees =
    elim (Result-cases (generation_id env.callbacks.hexdigest files)) [
      | inl (other, bad) ↦ rw (bad, record_failure) agrees
      | inr (id, good) ↦
          let refused =
            persist_refused env clock files id (active_generation s) true
              (some (describe env problem)) s (same_id (active_generation s)) agrees.valid
              agrees.marks in
          rw (good, record_failure)
            (disk-Agrees s _ (λ g. if g == id then false else same_id (active_generation s) g)
              refused.leaves refused.same (λ g. excluded (active_generation s) id g (apart id good))
              (λ g h. refused.leaves.kept g (agrees.listed g h)) agrees.sound)
    ]

-- A reconciler that returns has applied the generation.
reconcile_applied :
    (env : Environment) (files : Dict Text Text) (s : State) (result : ReconcileResult)
    → (reconcile env.callbacks files s.disk).0 ≡ ok result
    → result.applied ≡ true
unfolding reconcile apply_candidate switch roll_back fail_with
reconcile_applied env files s result h = ground arith

module _ (env : Environment) (clock : Clock) (digests : IsDigest env.callbacks) where
  held_failed :
      (files : Dict Text Text) (s : State) (problem : ReconcileError)
      → Agrees s
      → (reconcile env.callbacks files s.disk).0 ≡ err problem
      → Agrees
          (record_failure env clock files problem
            (record s { disk = (reconcile env.callbacks files s.disk).1 })).1
  unfolding active_generation
  held_failed files s problem agrees failed =
      let settles = reconcile-Settles env.callbacks files s.disk digests agrees.sound in
      let disk = (reconcile env.callbacks files s.disk).1 in
      let moved : State = record s { disk = disk } in
      let stays : active_id disk.store ≡ active_id s.disk.store =
        rw failed at (settles.active_lem) in
      record_failure-Agrees env clock files problem moved
        (λ id good. rw stays (fails_apart env files s id problem good failed))
        (record {
          valid = agrees.valid;
          marks = rw stays (agrees.marks);
          listed = λ g h. agrees.listed g (sym stays ∙ h);
          sound = settles.sound;
        })

  -- The report of a reconciler that returned is applied.
  held_persisted :
      (files : Dict Text Text) (s moved : State) (result : ReconcileResult) (p : Text → Bool)
      → (reconcile env.callbacks files s.disk).0 ≡ ok result
      → IsValid moved.generations
      → Marks p moved.generations.rows
      → Applies moved result.generation (persist env clock files (report_of result) moved)
  held_persisted files s moved result p returned valid marks =
      subst
        (λ b. Applies moved result.generation (
          persist env clock files
            (reported result.generation result.previous_generation result.changed none b) moved))
        (sym (reconcile_applied env files s result returned))
        (persist_applied env clock files result.generation result.previous_generation result.changed
          none moved p valid marks)

  held_applied :
      (files : Dict Text Text) (s : State) (result : ReconcileResult)
      → Agrees s
      → (reconcile env.callbacks files s.disk).0 ≡ ok result
      → let moved : State = record s { disk = (reconcile env.callbacks files s.disk).1 } in
        let out = persist env clock files (report_of result) moved in
        (out.0 ≡ none) × Agrees out.1 × (active_generation out.1 ≡ some result.generation)
  unfolding active_generation
  held_applied files s result agrees returned =
      let settles = reconcile-Settles env.callbacks files s.disk digests agrees.sound in
      let disk = (reconcile env.callbacks files s.disk).1 in
      let moved : State = record s { disk = disk } in
      let active : active_id disk.store ≡ some result.generation =
        rw returned at (settles.active_lem) in
      let applied =
        held_persisted files s moved result (same_id (active_generation s)) returned agrees.valid
          agrees.marks in
      let after = (persist env clock files (report_of result) moved).1 in
      (
        applied.returned,
        disk-Agrees moved after (λ g. result.generation == g) applied.leaves applied.same
            (λ g. rw active refl)
            (λ g h.
              let e : result.generation ≡ g = cc (sym active ∙ h) in
              subst (λ k. Has k after.generations.rows) e (applied.has))
            settles.sound,
        ap (λ (d : World). active_id d.store) applied.same ∙ active,
      )

  -- What a reconciliation leaves: agreement, and the generation that it returned active.
  pub record Reconciles (out : Result ControllerError ReconcileResult × State) : Type 0 where
    pub agrees : Agrees out.1
    pub active : (r : ReconcileResult) → out.0 ≡ ok r → active_generation out.1 ≡ some r.generation

  reconcile_held-Reconciles :
      (files : Dict Text Text) (s : State)
      → Agrees s
      → Reconciles (reconcile_held env clock files s)
  unfolding reconcile_held
  reconcile_held-Reconciles files s agrees =
      elim (Result-cases (reconcile env.callbacks files s.disk).0) [
        | inl (problem, failed) ↦
            rw (failed, reconcile_held)
              (record { agrees = held_failed files s problem agrees failed; active = λ r h. cc })
        | inr (result, returned) ↦
            let (fine, kept, active) = held_applied files s result agrees returned in
            rw (returned, reconcile_held, fine)
              (record {
                agrees = kept;
                active = λ r h. let e : result ≡ r = cc h in rw (← e) active;
              })
      ]

  leased-Agrees : (s : State) (leases : Leases) → Agrees s → Agrees (record s { leases = leases })
  unfolding active_generation
  leased-Agrees s leases agrees = record {
    valid = agrees.valid;
    marks = agrees.marks;
    listed = agrees.listed;
    sound = agrees.sound;
  }

  released-Reconciles :
      (holder : Text) (s : State) (out : Result ControllerError ReconcileResult × State)
      → Reconciles out
      → Reconciles (out.0, record out.1 { leases = (release lease_name holder out.1.leases).1 })
  unfolding active_generation
  released-Reconciles holder s out done = record {
    agrees = leased-Agrees out.1 (release lease_name holder out.1.leases).1 done.agrees;
    active = done.active;
  }

  -- With a SHA-256 that gives 64 hexadecimal digits: where the table of generations agrees with the
  -- disk, it does so after a call of `reconcile_files`, whether that returns, finds the lease taken, or
  -- fails in the reconciler. The active rows are then exactly that of the generation that is active on
  -- the disk, which has a row, and whose files are there. If the call returned, that is the generation
  -- that it returned.
  pub reconcile_files-Reconciles :
      (holder : Text) (files : Dict Text Text) (s : State)
      → Agrees s
      → Reconciles (reconcile_files env clock holder files s)
  unfolding reconcile_files
  reconcile_files-Reconciles holder files s agrees =
      let taken = acquire clock.acquired_at lease_name holder (seconds 120) s.leases in
      let began : State = record s { leases = taken.1 } in
      elim (Option-cases (held_by taken.0)) [
        | inl ours ↦
            rw (ours, reconcile_files)
              (released-Reconciles holder began (reconcile_held env clock files began)
                (reconcile_held-Reconciles files began (leased-Agrees s taken.1 agrees)))
        | inr (other, theirs) ↦
            rw (theirs, reconcile_files)
              (record { agrees = leased-Agrees s taken.1 agrees; active = λ r h. cc })
      ]
