-- ===== src/Revisions/State.antt =====
-- The deployment state of a host after a generation was recorded, in src/portwyrm/tables/routing.py.
use portwyrm.Prelude.{
  ℕ, ◌<◌, ◌≡◌, refl, arith, Bool, false, List, [], ◌∷◌, ◌++◌, none, some, if◌then◌else◌, nat_eq,
  is_empty, contains, All,
}
use portwyrm.Prelude.Text.{Text, text_eq}
use portwyrm.Health.{applied, drifted, rolled_back}
use portwyrm.Revisions.{
  Revision, Revisions, find_revision, record_revision, latest_revision, Runtime, revision_state,
  deployment_state,
}

-- The next id is above those of the rows.
abbrev pub IsBelow : Revisions → Type 0
IsBelow t = All (λ r. r.id < t.next_id) t.rows

pub latest_revision-append :
    (host : ℕ) (new : Revision) (rows : List Revision)
    → new.routing_host_id ≡ host
    → All (λ r. r.id < new.id) rows
    → latest_revision host (rows ++ new ∷ []) ≡ some new
unfolding latest_revision
latest_revision-append host new [] own below = ground arith
latest_revision-append host new (r ∷ rows) own below =
    ground (arith, latest_revision-append host new rows own below.1, below.0)

module _ (runtime : Runtime) (host : ℕ) (generation config_text config_digest : Text) (at : ℕ)
    (t : Revisions) (idle : contains runtime.applying_hosts host ≡ false)
    (served : runtime.active_generation ≡ some generation)
    (named : is_empty generation ≡ false) where
  -- A generation that is recorded as applied for the first time while it is active and nothing is being
  -- applied to the host makes the host's deployment applied, or drifted if its file is not the one
  -- that was recorded; one recorded as not applied makes it rolled back.
  pub deployment_state-record_new :
      (is_applied : Bool)
      → IsBelow t
      → find_revision host generation t.rows ≡ none
      → let new : Revision = record {
        id = t.next_id;
        routing_host_id = host;
        generation = generation;
        config_text = config_text;
        config_digest = config_digest;
        is_applied = is_applied;
        applied_at = some at;
      } in
        deployment_state
          (some runtime)
          host
          (record_revision host generation config_text config_digest is_applied (some at) t).rows
        ≡ (if is_applied
            then (if runtime.has_drifted new then drifted else applied)
            else rolled_back)
  unfolding deployment_state record_revision revision_state
  deployment_state-record_new is_applied below absent =
      let new : Revision = record {
        id = t.next_id;
        routing_host_id = host;
        generation = generation;
        config_text = config_text;
        config_digest = config_digest;
        is_applied = is_applied;
        applied_at = some at;
      } in
      ground (
        arith,
        latest_revision-append host new t.rows refl below,
        text_eq.beq_iff generation generation,
      )
