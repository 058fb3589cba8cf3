-- ===== src/Controller/Persist.antt =====
-- `TableRuntimeController._persist` of src/portwyrm/runtime/controller.py: what one attempt leaves in the
-- tables.
use portwyrm.Prelude.{ℕ, Bool, false, List, [], ◌∷◌, ◌++◌, Option, none, some, if◌then◌else◌}
use portwyrm.Prelude.Result.{ok, err}
use portwyrm.Prelude.Dict.{Dict}
use portwyrm.Prelude.Decimal.{Digits}
use portwyrm.Prelude.Text.{Text, codes, encode}
use portwyrm.Reconcile.Store.{ReconcileError, unsafe_path, no_generation, failure, os_error}
use portwyrm.Reconcile.Run
use portwyrm.Reconcile.Run.{Callbacks}
use portwyrm.Generations
use portwyrm.Generations.{Values, GenerationError, record_generation}
use portwyrm.Revisions.{Revisions, record_revision}
use portwyrm.Leases.{Leases}
use portwyrm.Controller.Names.{host_id}

-- A row of `ReconcileStore`.
pub record Attempt : Type 0 where
  pub generation_id : ℕ
  pub previous_generation : Option Text
  pub changed : Bool
  pub applied : Bool
  pub status : Text
  pub diagnostic : Option Text

-- The disk, the tables, and the hosts that are being applied.
pub record State : Type 0 where
  pub disk : Run.World
  pub generations : Generations.Table
  pub attempts : List Attempt
  pub revisions : Revisions
  pub leases : Leases
  pub applying_host_ids : List ℕ

-- SHA-256 and the callbacks of the reconciler, the decimal digits, `repr` of a text, and the message
-- of an `OSError`.
pub record Environment : Type 0 where
  pub callbacks : Callbacks
  pub digits : Digits
  pub repr : Text → Text
  pub os_message : Text

-- The readings of the clock in one call.
pub record Clock : Type 0 where
  pub acquired_at : ℕ
  pub activated_at : ℕ
  pub applied_at : ℕ

-- `str(exc)`
unfoldable pub describe : Environment → ReconcileError → Text
describe env (unsafe_path name) = codes "unsafe generated path: " ++ env.repr name
describe env (no_generation id) = codes "generation does not exist: " ++ id
describe env (failure message) = message
describe env os_error = env.os_message

-- A `ReconcileResult`.
pub record Report : Type 0 where
  pub generation : Text
  pub previous_generation : Option Text
  pub changed : Bool
  pub applied : Bool
  pub diagnostic : Option Text

-- The loop over the files.
unfoldable pub record_files :
    Environment → Text → Bool → Option ℕ → Dict Text Text → Revisions → Revisions
record_files env generation applied applied_at [] revisions = revisions
record_files env generation applied applied_at ((path, config_text) ∷ files) revisions =
    let recorded : Revisions = elim (host_id env.digits path) [
      | none ↦ revisions
      | some host ↦
          record_revision host generation config_text (env.callbacks.hexdigest (encode config_text))
            applied applied_at revisions
    ] in
    record_files env generation applied applied_at files recorded

-- The rows behind that of the generation, whose id is given.
unfoldable pub persist_attempt :
    Environment → Clock → Dict Text Text → Report → ℕ → Generations.Table → State → State
unfolding record_files
persist_attempt env clock files report id generations s = record s {
  generations = generations;
  attempts =
      s.attempts
      ++ record {
        generation_id = id;
        previous_generation = report.previous_generation;
        changed = report.changed;
        applied = report.applied;
        status = (if report.applied then codes "applied" else codes "failed");
        diagnostic = report.diagnostic;
      }
        ∷ [];
  revisions =
      record_files env report.generation report.applied
        (if report.applied then some clock.applied_at else none) files s.revisions;
}

unfoldable pub values_of : Dict Text Text → Report → Values
values_of files report = record {
  generation = report.generation;
  previous_generation = report.previous_generation;
  files = files;
  state = (if report.applied then codes "active" else codes "failed");
  is_active = false;
  diagnostic = report.diagnostic;
}

-- What is raised, if anything, and the state.
unfoldable pub persist :
    Environment → Clock → Dict Text Text → Report → State → Option GenerationError × State
unfolding values_of persist_attempt
persist env clock files report s =
    let (id, recorded) = record_generation (values_of files report) s.generations in
    if report.applied
    then elim (Generations.activate clock.activated_at report.generation recorded) [
      | err x ↦ (some x, record s { generations = recorded })
      | ok activated ↦ (none, persist_attempt env clock files report id activated.1 s)
    ]
    else (none, persist_attempt env clock files report id recorded s)
