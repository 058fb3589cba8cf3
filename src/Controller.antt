-- ===== src/Controller.antt =====
-- `TableRuntimeController` of src/portwyrm/runtime/controller.py: a reconciliation under its lease, and
-- its traces in the tables.
use portwyrm.Prelude.{
  ℕ, Bool, true, false, not, List, [], ◌∷◌, Option, none, some, if◌then◌else◌, ◌==◌, nat_eq,
  contains,
}
use portwyrm.Prelude.Result.{Result, ok, err}
use portwyrm.Prelude.Dict
use portwyrm.Prelude.Dict.{Dict}
use portwyrm.Prelude.Text.{Text, text_eq, texts_eq, codes, encode}
use portwyrm.Reconcile.Store.{ReconcileError, generation_id, active_id}
use portwyrm.Reconcile.Run.{ReconcileResult, reconcile}
use portwyrm.Generations.{GenerationError}
use portwyrm.Revisions.{Revision}
use portwyrm.Leases.{Reply, acquired, refused, seconds, acquire, release}
use portwyrm.Controller.Names.{Family, proxy, redirection, dead, host_ids, file_name}
use portwyrm.Controller.Persist.{State, Environment, Clock, describe, Report, persist}
pub mod Names
pub mod Persist
pub mod Reports
pub mod Agreement

-- What a reconciliation raises.
pub data ControllerError : Type 0 where
  lease_held : Text → ControllerError
  not_reconciled : ReconcileError → ControllerError
  not_activated : GenerationError → ControllerError

unfoldable pub active_generation : State → Option Text
active_generation s = active_id s.disk.store

unfoldable pub lease_name : Text
lease_name = codes "nginx-reconcile"

-- What is raised behind `_persist`: its own exception first.
abbrev pub raise_after : Option GenerationError → ControllerError → ControllerError
raise_after none problem = problem
raise_after (some x) problem = not_activated x

-- The `except BaseException` around the reconciler; the generation may have no name.
unfoldable pub record_failure :
    Environment → Clock → Dict Text Text → ReconcileError → State → ControllerError × State
unfolding active_generation
record_failure env clock files problem s = elim (generation_id env.callbacks.hexdigest files) [
  | err other ↦ (not_reconciled other, s)
  | ok generation ↦
      let (raised, after) =
        persist env clock files
          (record {
            generation = generation;
            previous_generation = active_generation s;
            changed = true;
            applied = false;
            diagnostic = some (describe env problem);
          })
          s in
      (raise_after raised (not_reconciled problem), after)
]

-- The report of a reconciler that returned.
abbrev pub report_of : ReconcileResult → Report
report_of result = record {
  generation = result.generation;
  previous_generation = result.previous_generation;
  changed = result.changed;
  applied = result.applied;
  diagnostic = none;
}

-- The body under the lease.
unfoldable pub reconcile_held :
    Environment → Clock → Dict Text Text → State → Result ControllerError ReconcileResult × State
unfolding record_failure
reconcile_held env clock files s =
    let (outcome, disk) = reconcile env.callbacks files s.disk in
    let moved = record s { disk = disk } in
    elim outcome [
      | err problem ↦
          let (raised, after) = record_failure env clock files problem moved in (err raised, after)
      | ok result ↦
          let (raised, after) = persist env clock files (report_of result) moved in
          elim raised [ none ↦ (ok result, after) | some x ↦ (err (not_activated x), after) ]
    ]

-- `if not lease["acquired"]`: who holds the lease then.
abbrev pub held_by : Reply → Option Text
held_by (refused other _) = some other
held_by _ = none

-- `reconcile_files`
unfoldable pub reconcile_files :
    Environment
    → Clock
    → Text
    → Dict Text Text
    → State
    → Result ControllerError ReconcileResult × State
unfolding reconcile_held lease_name
reconcile_files env clock holder files s =
    let (reply, leases) = acquire clock.acquired_at lease_name holder (seconds 120) s.leases in
    elim (held_by reply) [
      | some other ↦ (err (lease_held other), record s { leases = leases })
      | none ↦
          let (outcome, after) = reconcile_held env clock files (record s { leases = leases }) in
          (outcome, record after { leases = (release lease_name holder after.leases).1 })
    ]

-- `reconcile` with the files that were rendered: their hosts are being applied during the call.
unfoldable pub reconcile_rendered :
    Environment
    → Clock
    → Text
    → Dict Text Text
    → State
    → Result ControllerError ReconcileResult × State
reconcile_rendered env clock holder files s =
    let began = record s { applying_host_ids = host_ids env.digits files } in
    let (outcome, after) = reconcile_files env clock holder files began in
    (outcome, record after { applying_host_ids = [] })

unfoldable pub is_host_applying : ℕ → State → Bool
is_host_applying host s = contains s.applying_host_ids host

-- The loop over the families: the first file that is there is compared.
unfoldable pub drifted_from : Environment → Dict (List Text) Text → Revision → List Family → Bool
drifted_from env tree revision [] = true
drifted_from env tree revision (family ∷ families) =
    let other = drifted_from env tree revision families in
    elim (Dict.get tree (codes "http" ∷ file_name family revision.routing_host_id ∷ [])) [
      | none ↦ other
      | some config_text ↦
          not (env.callbacks.hexdigest (encode config_text) == revision.config_digest)
    ]

unfoldable pub host_revision_drifted : Environment → Revision → State → Bool
unfolding drifted_from active_generation
host_revision_drifted env revision s = elim (active_generation s) [
  | none ↦ false
  | some active ↦ elim (Dict.get s.disk.store.generations active) [
    | none ↦ true
    | some tree ↦ drifted_from env tree revision (proxy ∷ redirection ∷ dead ∷ [])
  ]
]
