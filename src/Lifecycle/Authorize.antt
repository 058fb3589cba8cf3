-- ===== src/Lifecycle/Authorize.antt =====
-- `enforce_authorization` and `enforce_raw_nginx_policy` of src/portwyrm/tables/lifecycle.py.
use portwyrm.Prelude.{
  ℕ, Bool, true, false, ◌&&◌, ◌||◌, not, [], ◌∷◌, Option, none, some, String, string_eq, ◌==◌,
  nat_eq, if◌then◌else◌, contains, is_empty, get_or_else,
}
use portwyrm.Prelude.Result.{Result, ok, err, ◌>>=◌}
use portwyrm.Prelude.Dict
use portwyrm.Prelude.Dict.{Dict}
use portwyrm.Prelude.Text.{Text, text_eq, codes, strip}
use portwyrm.Tokens.Permissions.{Grant, hidden, permission_allows}
use portwyrm.Lifecycle.Context.{
  Value, null, text, mapping, sequence, Entries, no_entry, entry, Values, no_value, value, Issue,
  administrator_required, permission_denied, advanced_config, Principal, Row, Context, Rows,
  payload_value, to_int, principal_id,
}

-- `_ACTION_BY_ALIAS.get(alias)`
unfoldable pub action_by_alias : String → Option String
action_by_alias alias =
    if contains ("create" ∷ "issue" ∷ []) alias
    then some "create"
    else if contains ("read" ∷ "list" ∷ "health_read" ∷ "health_list" ∷ []) alias
    then some "read"
    else if contains
        ("update" ∷ "replace" ∷ "enable" ∷ "disable" ∷ "probe" ∷ "refresh" ∷ "rotate" ∷ []) alias
    then some "update"
    else if contains ("delete" ∷ "revoke" ∷ []) alias
    then some "delete"
    else none

-- `_SECTION_BY_TABLE.get(table_name)`
unfoldable pub section_by_table : String → Option String
section_by_table table =
    if table == "access_lists"
    then some "access_lists"
    else if table == "certificates"
    then some "certificates"
    else if table == "personal_access_tokens"
    then some "access_tokens"
    else if table == "routing_hosts"
    then some "proxy_hosts"
    else if contains ("stream_routes" ∷ "quic_passthrough_routes" ∷ []) table
    then some "streams"
    else none

-- The section of a host by the text of its kind.
unfoldable pub section_by_kind : Text → String
section_by_kind kind =
    if kind == codes "redirect"
    then "redirection_hosts"
    else if kind == codes "dead"
    then "dead_hosts"
    else "proxy_hosts"

-- The kind as a text; a value that is no text is none of the kinds.
abbrev pub kind_text : Value → Text
kind_text (text t) = t
kind_text _ = []

abbrev pub row_kind : Option Row → Text
row_kind none = []
row_kind (some row) = get_or_else row.kind []

-- `permissions.get(section, "hidden")` of the caller.
abbrev pub caller_grant : Principal → String → Grant
caller_grant p section = elim p.permissions [
  | none ↦ hidden
  | some permissions ↦ get_or_else (Dict.get permissions section) hidden
]

unfoldable pub require : Bool → Issue → Result Issue Unit
require true issue = ok tt
require false issue = err issue

module _ (parse_int : Text → Option ℕ) (rows : Rows) where
  -- The branch of `personal_access_tokens`.
  unfoldable pub authorize_token : Principal → String → Context → Result Issue Unit
  unfolding require
  authorize_token p action ctx =
      let named : Result Issue (Option ℕ) = elim ctx.target_principal_id [
        | some n ↦ ok (some n)
        | none ↦ to_int parse_int (payload_value ctx "principal_id")
      ] in
      principal_id parse_int ctx >>= λ caller. named >>= λ target. elim target [
        | none ↦ ok tt
        | some n ↦
            require
              (elim caller [
                | none ↦ p.may_access_tokens action
                | some i ↦ i == n || p.may_access_tokens action
              ])
              permission_denied
      ]

  -- The section of a routing host: by the kind of the payload, or of the stored row.
  unfoldable pub host_section : Context → Result Issue String
  unfolding section_by_kind
  host_section ctx = elim (payload_value ctx "kind") [
    | null ↦ to_int parse_int (payload_value ctx "id") >>= λ id.
        ok (section_by_kind (elim id [ none ↦ [] | some n ↦ row_kind (rows n) ]))
    | kind ↦ ok (section_by_kind (kind_text kind))
  ]

  unfoldable pub authorize_section : Principal → String → String → Result Issue Unit
  unfolding require
  authorize_section p action section =
      require (permission_allows (caller_grant p section) (codes action)) permission_denied

  -- The part behind the caller and the action.
  unfoldable pub authorize_action : Principal → String → Context → Result Issue Unit
  unfolding authorize_token host_section authorize_section section_by_table
  authorize_action p action ctx =
      if contains ("principals" ∷ "settings" ∷ []) ctx.table
      then err administrator_required
      else elim (section_by_table ctx.table) [
        | none ↦ ok tt
        | some section ↦
            if ctx.table == "personal_access_tokens"
            then authorize_token p action ctx
            else if ctx.table == "routing_hosts"
            then (host_section ctx >>= λ found. authorize_section p action found)
            else authorize_section p action section
      ]

  unfoldable pub enforce_authorization : Context → Result Issue Unit
  unfolding authorize_action action_by_alias
  enforce_authorization ctx = elim ctx.principal [
    | none ↦ ok tt
    | some p ↦ if p.is_admin then ok tt else elim (action_by_alias ctx.alias) [
      | none ↦ ok tt
      | some action ↦ authorize_action p action ctx
    ]
  ]

-- `_contains_advanced_config`: the text of a value that is no text is never blank.
abbrev pub is_blank : Value → Bool
is_blank (text t) = is_empty (strip t)
is_blank _ = false

unfoldable mutual
  pub contains_advanced_config : Value → Bool
  contains_advanced_config (mapping entries) = entries_contain entries
  contains_advanced_config (sequence values) = values_contain values
  contains_advanced_config _ = false

  pub entries_contain : Entries → Bool
  entries_contain no_entry = false
  entries_contain (entry key v rest) =
      key == "advanced_config" && not (is_blank v)
      || contains_advanced_config v
      || entries_contain rest

  pub values_contain : Values → Bool
  values_contain no_value = false
  values_contain (value v rest) = contains_advanced_config v || values_contain rest

unfoldable pub enforce_raw_nginx_policy : Context → Result Issue Unit
unfolding require
enforce_raw_nginx_policy ctx =
    if contains ("create" ∷ "update" ∷ "replace" ∷ "validate" ∷ []) ctx.alias
      && contains ("routing_hosts" ∷ "routing_locations" ∷ []) ctx.table
    then elim ctx.principal [
      | none ↦ ok tt
      | some p ↦ elim ctx.payload [
        | none ↦ ok tt
        | some entries ↦
            require (p.is_admin || not (contains_advanced_config (mapping entries))) advanced_config
      ]
    ]
    else ok tt
