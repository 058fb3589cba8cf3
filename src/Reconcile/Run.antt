-- ===== src/Reconcile/Run.antt =====
-- `Reconciler.reconcile` of src/portwyrm/runtime/reconcile.py.
use portwyrm.Prelude.{
  ℕ, Bool, true, false, List, [], ◌∷◌, ◌++◌, Option, none, some, if◌then◌else◌, ◌==◌,
}
use portwyrm.Prelude.Result.{Result, ok, err}
use portwyrm.Prelude.Text.{Text, text_eq, codes}
use portwyrm.Reconcile.Store.{
  ReconcileError, failure, Store, generation_id, stage, active_id, activate, clear_active,
  record_failure,
}

-- `sha256(...).hexdigest()`, and the two callbacks: the message of the exception that they raise, if
-- any. What the reloader does may depend on the calls before.
pub record Callbacks : Type 0 where
  pub hexdigest : List ℕ → Text
  pub validator : Text → Option Text
  pub reloader : List Text → Text → Option Text

-- `diagnostic` of the source is never set.
pub record ReconcileResult : Type 0 where
  pub generation : Text
  pub previous_generation : Option Text
  pub changed : Bool
  pub applied : Bool

-- The store, and the generations that the reloader was called with.
pub record World : Type 0 where
  pub store : Store
  pub reloads : List Text

-- What `reconcile` returns or raises, and the world it leaves.
abbrev pub Outcome : Type 0
Outcome = Result ReconcileError ReconcileResult × World

abbrev pub same_id : Option Text → Text → Bool
same_id none id = false
same_id (some previous) id = previous == id

unfoldable pub fail_with : Text → Text → World → Outcome
fail_with id diagnostic w =
    (err (failure diagnostic), record w { store = record_failure id diagnostic w.store })

module _ (c : Callbacks) where
  -- What the message of a failed reload says of the reload of the previous generation.
  unfoldable pub rollback_diagnostic : Text → Option Text → Text
  rollback_diagnostic diagnostic none = diagnostic
  rollback_diagnostic diagnostic (some message) =
      diagnostic ++ (codes "; rollback reload failed: " ++ message)

  -- The `except` behind the reload of the candidate.
  unfoldable pub roll_back : Text → Option Text → Text → World → Outcome
  unfolding fail_with rollback_diagnostic
  roll_back id none diagnostic w =
      fail_with id diagnostic (record w { store = clear_active w.store })
  roll_back id (some previous) diagnostic w = elim (activate previous w.store) [
    | err x ↦ (err x, w)
    | ok restored ↦
        fail_with id (rollback_diagnostic diagnostic (c.reloader w.reloads previous))
          (record { store = restored; reloads = w.reloads ++ previous ∷ [] })
  ]

  -- The candidate has been validated.
  unfoldable pub switch : Text → Option Text → World → Outcome
  unfolding roll_back
  switch id previous w = elim (activate id w.store) [
    | err x ↦ (err x, w)
    | ok active ↦
        let switched : World = record { store = active; reloads = w.reloads ++ id ∷ [] } in
        elim (c.reloader w.reloads id) [
          | none ↦ (
            ok (record {
              generation = id;
              previous_generation = previous;
              changed = true;
              applied = true;
            }),
            switched,
          )
          | some message ↦ roll_back id previous (codes "reload failed: " ++ message) switched
        ]
  ]

  -- The candidate is not the active generation.
  unfoldable pub apply_candidate : Text → Option Text → List (Text × Text) → World → Outcome
  unfolding switch fail_with
  apply_candidate id previous files w = elim (stage id files w.store) [
    | err x ↦ (err x, w)
    | ok staged ↦
        let candidate = record w { store = staged.0 } in
        elim (c.validator id) [
          | some message ↦ fail_with id (codes "validation failed: " ++ message) candidate
          | none ↦ switch id previous candidate
        ]
  ]

  unfoldable pub reconcile : List (Text × Text) → World → Outcome
  unfolding apply_candidate
  reconcile files w = elim (generation_id c.hexdigest files) [
    | err x ↦ (err x, w)
    | ok id ↦
        let previous = active_id w.store in
        if same_id previous id
        then (
          ok (record {
            generation = id;
            previous_generation = previous;
            changed = false;
            applied = true;
          }),
          w,
        )
        else apply_candidate id previous files w
  ]
