-- ===== src/Revisions.antt =====
-- `HostConfigRevisionStore` of src/portwyrm/tables/routing.py, and the states of a host that
-- `RoutingHostStore` derives from it.
use portwyrm.Prelude.{
  ℕ, ◌+◌, Bool, true, false, not, ◌&&◌, ◌||◌, List, [], ◌∷◌, ◌++◌, Option, none, some,
  if◌then◌else◌, ◌==◌, nat_eq, suc, leb, ltb, is_empty, is_some, contains, String,
}
use portwyrm.Prelude.Text.{Text, text_eq}
use portwyrm.Health.{
  AdministrativeState, enabled, disabled, DeploymentState, pending, applying, applied, failed,
  drifted, rolled_back, ReachabilityState, unknown, stale, derive_host_summary,
}
pub mod State
pub mod Recorded
pub mod History

pub record Revision : Type 0 where
  pub id : ℕ
  pub routing_host_id : ℕ
  pub generation : Text
  pub config_text : Text
  pub config_digest : Text
  pub is_applied : Bool
  pub applied_at : Option ℕ

-- The rows, and the id of the next one.
pub record Revisions : Type 0 where
  pub rows : List Revision
  pub next_id : ℕ

abbrev pub is_of : ℕ → Text → Revision → Bool
is_of host generation r = r.routing_host_id == host && r.generation == generation

unfoldable pub find_revision : ℕ → Text → List Revision → Option Revision
find_revision host generation [] = none
find_revision host generation (r ∷ rows) =
    if is_of host generation r then some r else find_revision host generation rows

-- A generation of a host that has a row keeps the row as it is.
unfoldable pub record_revision : ℕ → Text → Text → Text → Bool → Option ℕ → Revisions → Revisions
record_revision host generation config_text config_digest is_applied applied_at t =
    if is_some (find_revision host generation t.rows) then t else record {
      rows =
          t.rows
          ++ record {
            id = t.next_id;
            routing_host_id = host;
            generation = generation;
            config_text = config_text;
            config_digest = config_digest;
            is_applied = is_applied;
            applied_at = applied_at;
          }
            ∷ [];
      next_id = suc t.next_id;
    }

-- `order_by(id.desc()).limit(1)` of a host's revisions.
unfoldable pub latest_revision : ℕ → List Revision → Option Revision
latest_revision host [] = none
latest_revision host (r ∷ rows) =
    let later = latest_revision host rows in
    if r.routing_host_id == host
    then elim later [ none ↦ some r | some s ↦ if ltb s.id r.id then some r else some s ]
    else later

-- What the table asks of the runtime controller.
pub record Runtime : Type 0 where
  pub applying_hosts : List ℕ
  pub active_generation : Option Text
  pub has_drifted : Revision → Bool

-- Where a text stands, and is not empty.
abbrev pub truthy : Option Text → Bool
truthy none = false
truthy (some t) = not (is_empty t)

abbrev pub active_of : Option Runtime → Option Text
active_of none = none
active_of (some runtime) = runtime.active_generation

-- The state of a host that is not just being applied, by its latest revision.
unfoldable pub revision_state : Option Runtime → Revision → DeploymentState
revision_state runtime revision =
    let active = active_of runtime in
    let other : Bool = elim active [
      | none ↦ false
      | some g ↦ not (is_empty g) && not (revision.generation == g)
    ] in
    let moved : Bool = elim runtime [ none ↦ false | some r ↦ r.has_drifted revision ] in
    if not revision.is_applied
    then (if truthy active then rolled_back else failed)
    else if other
    then pending
    else if moved
    then drifted
    else applied

abbrev pub is_applying : Option Runtime → ℕ → Bool
is_applying none host = false
is_applying (some runtime) host = contains runtime.applying_hosts host

-- `_deployment_state`
unfoldable pub deployment_state : Option Runtime → ℕ → List Revision → DeploymentState
unfolding latest_revision revision_state
deployment_state runtime host rows =
    if is_applying runtime host then applying else elim (latest_revision host rows) [
      | none ↦ pending
      | some revision ↦ revision_state runtime revision
    ]

-- A row of `ProxyHostHealthObservationStore`, by what the summary reads.
pub record Observation : Type 0 where
  pub id : ℕ
  pub routing_host_id : ℕ
  pub status : ReachabilityState
  pub checked_at : ℕ
  pub expires_at : ℕ

abbrev pub is_later : Observation → Observation → Bool
is_later a b = ltb b.checked_at a.checked_at || a.checked_at == b.checked_at && ltb b.id a.id

-- `_latest_observation`
unfoldable pub latest_observation : ℕ → List Observation → Option Observation
latest_observation host [] = none
latest_observation host (o ∷ rows) =
    let later = latest_observation host rows in
    if o.routing_host_id == host
    then elim later [ none ↦ some o | some p ↦ if is_later o p then some o else some p ]
    else later

unfoldable pub reachability : ℕ → Option Observation → ReachabilityState
reachability now none = unknown
reachability now (some o) = if leb o.expires_at now then stale else o.status

-- What `_health_status` returns of the states.
pub record HealthStatus : Type 0 where
  pub administrative_state : AdministrativeState
  pub deployment : DeploymentState
  pub reachability_state : ReachabilityState
  pub summary_status : String
  pub observation : Option Observation

unfoldable pub health_status :
    Option Runtime → ℕ → ℕ → Bool → List Revision → List Observation → HealthStatus
unfolding latest_observation deployment_state reachability
health_status runtime now host is_enabled revisions observations =
    let observation = latest_observation host observations in
    let administrative : AdministrativeState = if is_enabled then enabled else disabled in
    let deployment = deployment_state runtime host revisions in
    let reached = reachability now observation in
    record {
      administrative_state = administrative;
      deployment = deployment;
      reachability_state = reached;
      summary_status = derive_host_summary administrative deployment reached;
      observation = observation;
    }
