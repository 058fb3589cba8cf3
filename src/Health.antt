-- ===== src/Health.antt =====
-- The states of a host and their summary: src/portwyrm/health.py.
use portwyrm.Prelude.{◌≡◌, ◌↔◌, arith, String, true, ◌==◌, string_eq}

pub data AdministrativeState : Type 0 where
  enabled disabled : AdministrativeState

pub data DeploymentState : Type 0 where
  pending applying applied failed drifted rolled_back : DeploymentState

pub data ReachabilityState : Type 0 where
  unknown probing online offline stale : ReachabilityState

unfoldable pub deployment_value : DeploymentState → String
deployment_value pending = "pending"
deployment_value applying = "applying"
deployment_value applied = "applied"
deployment_value failed = "failed"
deployment_value drifted = "drifted"
deployment_value rolled_back = "rolled_back"

unfoldable pub reachability_value : ReachabilityState → String
reachability_value unknown = "unknown"
reachability_value probing = "probing"
reachability_value online = "online"
reachability_value offline = "offline"
reachability_value stale = "stale"

-- Only an applied deployment lets the reachability show.
unfoldable pub derive_host_summary :
    AdministrativeState → DeploymentState → ReachabilityState → String
unfolding deployment_value reachability_value
derive_host_summary disabled deployment reachability = "disabled"
derive_host_summary enabled applied reachability = reachability_value reachability
derive_host_summary enabled deployment reachability = deployment_value deployment

-- A host is summarised as online exactly when it is enabled, its deployment is applied and it was
-- reached.
pub derive_host_summary_online :
    (a : AdministrativeState) (d : DeploymentState) (r : ReachabilityState)
    → ((derive_host_summary a d r == "online") ≡ true)
      ↔ ((a ≡ enabled) × (d ≡ applied) × (r ≡ online))
unfolding derive_host_summary
derive_host_summary_online disabled d r = ground arith
derive_host_summary_online enabled pending r = ground arith
derive_host_summary_online enabled applying r = ground arith
derive_host_summary_online enabled failed r = ground arith
derive_host_summary_online enabled drifted r = ground arith
derive_host_summary_online enabled rolled_back r = ground arith
derive_host_summary_online enabled applied unknown = ground arith
derive_host_summary_online enabled applied probing = ground arith
derive_host_summary_online enabled applied online = ground arith
derive_host_summary_online enabled applied offline = ground arith
derive_host_summary_online enabled applied stale = ground arith
