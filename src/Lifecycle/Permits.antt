-- ===== src/Lifecycle/Permits.antt =====
-- Which permissions the authorization hook of src/portwyrm/tables/lifecycle.py asks for.
use portwyrm.Prelude.{
  ℕ, ◌≡◌, ◌↔◌, ◌∙◌, refl, sym, ap, true, false, List, [], ◌∷◌, Option, some, String, string_eq,
  ◌==◌, nat_eq, contains, All, All-map,
}
use portwyrm.Prelude.Result.{ok, err}
use portwyrm.Prelude.Text.{Text, text_eq, codes}
use portwyrm.Lifecycle.Context.{
  text, administrator_required, permission_denied, Principal, Context, Rows, payload_value,
}
use portwyrm.Lifecycle.Authorize.{
  action_by_alias, section_by_table, section_by_kind, authorize_action, authorize_section,
  host_section, enforce_authorization,
}
use portwyrm.Lifecycle.Guarded.{require-ok, granted, decided}
use portwyrm.Lifecycle.Grants.{Grants, caller_grant-Grants}

-- The operations, each with the action that it needs.
abbrev pub needed : List (String × String)
needed =
    ("create", "create")
    ∷ ("issue", "create")
    ∷ ("read", "read")
    ∷ ("list", "read")
    ∷ ("health_read", "read")
    ∷ ("health_list", "read")
    ∷ ("update", "update")
    ∷ ("replace", "update")
    ∷ ("enable", "update")
    ∷ ("disable", "update")
    ∷ ("probe", "update")
    ∷ ("refresh", "update")
    ∷ ("rotate", "update")
    ∷ ("delete", "delete")
    ∷ ("revoke", "delete")
    ∷ []

-- The tables, each with its section.
abbrev pub section_tables : List (String × String)
section_tables =
    ("access_lists", "access_lists")
    ∷ ("certificates", "certificates")
    ∷ ("stream_routes", "streams")
    ∷ ("quic_passthrough_routes", "streams")
    ∷ []

-- The kinds of routing hosts, each with its section.
abbrev pub kinds : List (Text × String)
kinds =
    (codes "proxy", "proxy_hosts")
    ∷ (codes "redirect", "redirection_hosts")
    ∷ (codes "dead", "dead_hosts")
    ∷ []

needed-action_by_alias : All (λ n. action_by_alias n.0 ≡ some n.1) needed
unfolding action_by_alias
needed-action_by_alias = (
  refl,
  (
    refl,
    (
      refl,
      (
        refl,
        (refl, (refl, (refl, (refl, (refl, (refl, (refl, (refl, (refl, (refl, (refl, tt))))))))))),
      ),
    ),
  ),
)

-- What `authorize_action` reads of a table.
abbrev IsPlainSection : String × String → Type 0
IsPlainSection s =
    (section_by_table s.0 ≡ some s.1)
    × (contains ("principals" ∷ "settings" ∷ []) s.0 ≡ false)
    × ((s.0 == "personal_access_tokens") ≡ false)
    × ((s.0 == "routing_hosts") ≡ false)

section_tables-section_by_table : All IsPlainSection section_tables
unfolding section_by_table
section_tables-section_by_table = (
  (refl, refl, refl, refl),
  ((refl, refl, refl, refl), ((refl, refl, refl, refl), ((refl, refl, refl, refl), tt))),
)

kinds-section_by_kind : All (λ k. section_by_kind k.0 ≡ k.1) kinds
unfolding section_by_kind text_eq
kinds-section_by_kind = (refl, (refl, (refl, tt)))

module _ (parse_int : Text → Option ℕ) (rows : Rows) (ctx : Context) (p : Principal)
    (caller : ctx.principal ≡ some p) (plain : p.is_admin ≡ false) where
  abbrev pub Permits : String → String → Type 0
  Permits section action =
      (enforce_authorization parse_int rows ctx ≡ ok tt) ↔ Grants p section action

  Permits-section :
      (section action : String)
      → enforce_authorization parse_int rows ctx ≡ authorize_section parse_int rows p action section
      → Permits section action
  unfolding authorize_section
  Permits-section section action same =
      let (there, back) = caller_grant-Grants p section action in
      (
        (λ h. there (require-ok _ permission_denied (sym same ∙ h))),
        (λ grants. same ∙ granted _ permission_denied (back grants)),
      )

  host_section_lem :
      (section : String) (kind : Text)
      → payload_value ctx "kind" ≡ text kind
      → section_by_kind kind ≡ section
      → host_section parse_int rows ctx ≡ ok section
  unfolding host_section
  host_section_lem section kind given named = rw (given, named, host_section) refl

  decided_host :
      (action section : String) (kind : Text)
      → action_by_alias ctx.alias ≡ some action
      → ctx.table ≡ "routing_hosts"
      → payload_value ctx "kind" ≡ text kind
      → section_by_kind kind ≡ section
      → enforce_authorization parse_int rows ctx ≡ authorize_section parse_int rows p action section
  unfolding enforce_authorization authorize_action section_by_table
  decided_host action section kind acts table given named = simp (
    caller,
    plain,
    acts,
    table,
    host_section_lem section kind given named,
    enforce_authorization,
    authorize_action,
  )

  reserved :
      (action : String)
      → action_by_alias ctx.alias ≡ some action
      → contains ("principals" ∷ "settings" ∷ []) ctx.table ≡ true
      → enforce_authorization parse_int rows ctx ≡ err administrator_required
  unfolding enforce_authorization authorize_action
  reserved action acts table =
      rw (caller, plain, acts, table, enforce_authorization, authorize_action)

  -- What the hook says to an operation with an action.
  abbrev pub IsAnswered : String → Type 0
  IsAnswered action =
      (contains ("principals" ∷ "settings" ∷ []) ctx.table ≡ true
        → enforce_authorization parse_int rows ctx ≡ err administrator_required)
      × All (λ s. ctx.table ≡ s.0 → Permits s.1 action) section_tables
      × All
          (λ k.
            ctx.table ≡ "routing_hosts" → payload_value ctx "kind" ≡ text k.0 → Permits k.1 action)
          kinds

  answered : (action : String) → action_by_alias ctx.alias ≡ some action → IsAnswered action
  answered action acts = (
    reserved action acts,
    All-map {P = IsPlainSection} {Q = λ s. ctx.table ≡ s.0 → Permits s.1 action}
        (λ s facts table. Permits-section s.1 action (
          decided parse_int rows ctx p action s.1 caller plain acts
            (ap (contains ("principals" ∷ "settings" ∷ [])) table ∙ facts.1)
            (ap section_by_table table ∙ facts.0)
            (ap (λ t. t == "personal_access_tokens") table ∙ facts.2)
            (ap (λ t. t == "routing_hosts") table ∙ facts.3)))
        section_tables section_tables-section_by_table,
    All-map {P = λ k. section_by_kind k.0 ≡ k.1}
        {Q = λ k.
          ctx.table ≡ "routing_hosts" → payload_value ctx "kind" ≡ text k.0 → Permits k.1 action}
        (λ k named table given.
          Permits-section k.1 action (decided_host action k.1 k.0 acts table given named))
        kinds kinds-section_by_kind,
  )

  -- For a caller that is no administrator and each operation that needs an action: the authorization hook
  -- refuses it on the principals and the settings; on the tables of access lists, certificates,
  -- streams and QUIC routes, and on routing hosts whose kind the payload names, it lets the operation
  -- through exactly when the caller's permissions hold a grant of the action for the section of
  -- the table or of the kind, where a section that they do not hold grants nothing.
  pub enforce_authorization_permits : All (λ n. ctx.alias ≡ n.0 → IsAnswered n.1) needed
  enforce_authorization_permits =
      All-map {P = λ n. action_by_alias n.0 ≡ some n.1} {Q = λ n. ctx.alias ≡ n.0 → IsAnswered n.1}
        (λ n acts alias. answered n.1 (ap action_by_alias alias ∙ acts)) needed
        needed-action_by_alias
