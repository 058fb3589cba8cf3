-- ===== src/Lifecycle/Commit.antt =====
-- `_details`, `audit_mutation` and `reconcile_committed_change` of src/portwyrm/tables/lifecycle.py.
use portwyrm.Prelude.{
  Bool, true, false, ◌&&◌, ◌||◌, not, List, [], ◌∷◌, ◌++◌, Option, none, some, String, string_eq,
  ◌==◌, if◌then◌else◌, contains,
}
use portwyrm.Prelude.Text.{codes}
use portwyrm.Lifecycle.Context.{Value, text, mapping, Entries, no_entry, entry, has_key}
use portwyrm.Lifecycle.Own.{mutations}

-- `payload[key] = v`
unfoldable pub set_value : Entries → String → Value → Entries
set_value no_entry key v = entry key v no_entry
set_value (entry k w rest) key v =
    if k == key then entry k v rest else entry k w (set_value rest key v)

abbrev pub secrets : List String
secrets =
    "password" ∷ "old_password" ∷ "new_password" ∷ "secret" ∷ "token" ∷ "private_key"
    ∷ "certificate" ∷ "certificate_key" ∷ []

abbrev pub redacted : Value
redacted = text (codes "[redacted]")

unfoldable pub redact : List String → Entries → Entries
unfolding set_value
redact [] payload = payload
redact (secret ∷ rest) payload =
    redact rest (if has_key payload secret then set_value payload secret redacted else payload)

-- The arguments are the payload, the attribution of the audit if it is a mapping, and the deleted
-- resource if there is one.
unfoldable pub details : Entries → Option Entries → Option Entries → Entries
unfolding redact
details payload attribution deleted =
    let hidden = redact secrets payload in
    let attributed : Entries = elim attribution [
      | none ↦ hidden
      | some a ↦ set_value hidden "attribution" (mapping a)
    ] in
    elim deleted [
      | none ↦ attributed
      | some d ↦ set_value attributed "deleted_resource" (mapping d)
    ]

-- A row of the audit, by its action and the type of its object.
pub record AuditEvent : Type 0 where
  pub action : String
  pub object_type : String

-- What the hooks mark in `temp`, the rows staged, and the collections that the runtime was told of.
pub record Marks : Type 0 where
  pub audit_staged : Bool
  pub events : List AuditEvent
  pub reconciled : Bool
  pub changed : List String

-- What the hooks read: the operation, the type of its object, whether a probe has a result, the
-- statuses of the host's observations, newest first, and whether there is a runtime.
pub record Operation : Type 0 where
  pub alias : String
  pub table : String
  pub object_type : String
  pub has_result : Bool
  pub observations : List String
  pub has_runtime : Bool

-- `_ACTION.get(alias, alias)`
unfoldable pub past_action : String → String
past_action alias =
    if alias == "create"
    then "created"
    else if alias == "update"
    then "updated"
    else if alias == "replace"
    then "replaced"
    else if alias == "delete"
    then "deleted"
    else if alias == "enable"
    then "enabled"
    else if alias == "disable"
    then "disabled"
    else alias

-- The two newest statuses differ, and the older one is known.
unfoldable pub health_changed : List String → Bool
health_changed (current ∷ previous ∷ _) =
    contains ("online" ∷ "offline" ∷ []) previous && not (current == previous)
health_changed _ = false

unfoldable pub stage_event : String → String → Marks → Marks
stage_event action object_type m = record m {
  audit_staged = true;
  events = m.events ++ (record { action = action; object_type = object_type }) ∷ [];
}

unfoldable pub audit_mutation : Operation → Marks → Marks
unfolding past_action health_changed stage_event
audit_mutation op m =
    if m.audit_staged
    then m
    else if op.alias == "probe" && op.table == "routing_hosts"
    then (if op.has_result && health_changed op.observations
        then stage_event "proxy_host.health.changed" "proxy_hosts" m
        else m)
    else if not (contains mutations op.alias)
        || contains ("audit_events" ∷ "runtime_leases" ∷ []) op.table
    then m
    else stage_event (past_action op.alias) op.object_type m

abbrev pub access_tables : List String
access_tables =
    "access_lists" ∷ "access_rules" ∷ "access_list_rules" ∷ "access_credentials"
    ∷ "access_list_credentials" ∷ "access_principals" ∷ "access_list_principals" ∷ []

abbrev pub certificate_tables : List String
certificate_tables = "certificates" ∷ "certificate_domains" ∷ "certificate_challenges" ∷ []

abbrev pub routing_tables : List String
routing_tables =
    "routing_hosts" ∷ "routing_sources" ∷ "routing_upstreams" ∷ "routing_locations"
    ∷ "routing_host_access_lists" ∷ []

-- `_RECONCILE_TABLES`, and `_RECONCILE_COLLECTION.get(table, object_type)`.
unfoldable pub is_reconciled : String → Bool
is_reconciled table =
    contains access_tables table
    || contains certificate_tables table
    || contains routing_tables table
    || contains ("stream_routes" ∷ "quic_passthrough_routes" ∷ "settings" ∷ []) table

unfoldable pub collection_of : String → String → String
collection_of table object_type =
    if contains access_tables table
    then "access_lists"
    else if contains certificate_tables table
    then "certificates"
    else if table == "stream_routes"
    then "streams"
    else if table == "quic_passthrough_routes"
    then "quic_passthrough_hosts"
    else if table == "settings"
    then "settings"
    else object_type

-- An exception of the runtime is logged, and the write stands.
unfoldable pub reconcile_committed_change : Operation → Marks → Marks
unfolding is_reconciled collection_of
reconcile_committed_change op m =
    if not (contains mutations op.alias) || not (is_reconciled op.table)
    then m
    else if m.reconciled
    then m
    else record m {
      reconciled = true;
      changed =
          if op.has_runtime
          then m.changed ++ collection_of op.table op.object_type ∷ []
          else m.changed;
    }
