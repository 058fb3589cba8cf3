-- ===== src/Lifecycle/Audit.antt =====
-- The audit and the reconciliation of an operation, in src/portwyrm/tables/lifecycle.py.
use portwyrm.Prelude.{
  ◌+◌, ◌≤◌, ◌≡◌, ◌⊎◌, ◌∙◌, refl, sym, ap, arith, true, false, ◌&&◌, ◌||◌, not, List, [], ◌∷◌,
  Option, none, some, String, string_eq, ◌==◌, if◌then◌else◌, contains, length, length-append,
  Bool-cases, inl, inr, All, All-map,
}
use mathlib.Core.Path.{subst}
use portwyrm.Lifecycle.Context.{Value, mapping, Entries, no_entry, entry, get_value, has_key}
use portwyrm.Lifecycle.Own.{mutations}
use portwyrm.Lifecycle.Commit.{
  set_value, secrets, redacted, redact, details, Marks, Operation, health_changed, past_action,
  stage_event, audit_mutation,
}

get-set :
    (payload : Entries) (key k : String) (v : Value)
    → get_value (set_value payload key v) k ≡ (if key == k then v else get_value payload k)
unfolding set_value get_value
get-set no_entry key k v = ground arith
get-set (entry j w rest) key k v = ground (
  arith,
  get-set rest key k v,
  string_eq.beq_iff j key,
  string_eq.beq_iff key k,
  string_eq.beq_iff j k,
)

has-set :
    (payload : Entries) (key k : String) (v : Value)
    → has_key payload k ≡ true
    → has_key (set_value payload key v) k ≡ true
unfolding set_value has_key
has-set no_entry key k v h = cc
has-set (entry j w rest) key k v h = ground (arith, has-set rest key k v, string_eq.beq_iff j key)

-- A value that is hidden stays so.
get-redact_hidden :
    (keys : List String) (payload : Entries) (k : String)
    → get_value payload k ≡ redacted
    → get_value (redact keys payload) k ≡ redacted
unfolding redact
get-redact_hidden [] payload k h = h
get-redact_hidden (key ∷ keys) payload k h =
    get-redact_hidden keys _ k (ground (arith, get-set payload key k redacted))

get-redact_listed :
    (keys : List String) (payload : Entries) (k : String)
    → contains keys k ≡ true
    → has_key payload k ≡ true
    → get_value (redact keys payload) k ≡ redacted
unfolding redact
get-redact_listed [] payload k h there = cc
get-redact_listed (key ∷ keys) payload k h there = elim (Bool-cases (key == k)) [
  | inl same ↦
      get-redact_hidden keys _ k
        (ground (arith, get-set payload key k redacted, string_eq.beq_iff key k))
  | inr other ↦
      get-redact_listed keys _ k (ground arith) (ground (arith, has-set payload key k redacted))
]

-- A key of the list is not one that is not.
not_listed :
    (keys : List String) (a k : String)
    → contains keys a ≡ false
    → contains keys k ≡ true
    → (a == k) ≡ false
not_listed keys a k without there = elim (Bool-cases (a == k)) [
  | inr other ↦ other
  | inl same ↦
      let e = (string_eq.beq_iff a k).0 same in
      let moved : contains keys k ≡ false = subst (λ x. contains keys x ≡ false) e without in
      cc (sym there ∙ moved)
]

-- The keys whose values the audit must not show.
abbrev pub hidden_keys : List String
hidden_keys =
    "password" ∷ "old_password" ∷ "new_password" ∷ "secret" ∷ "token" ∷ "private_key"
    ∷ "certificate" ∷ "certificate_key" ∷ []

hidden_keys-secrets : All (λ key. contains secrets key ≡ true) hidden_keys
hidden_keys-secrets = (refl, (refl, (refl, (refl, (refl, (refl, (refl, (refl, tt))))))))

-- Whatever attribution and deleted resource the audit adds to the details of a payload, a password, an
-- old or new password, a secret, a token, a private key, a certificate and a certificate key that
-- stand at the top of the payload are hidden there.
pub details-redacted :
    (payload : Entries) (attribution deleted : Option Entries)
    → All
        (λ key.
          has_key payload key ≡ true
          → get_value (details payload attribution deleted) key ≡ redacted)
        hidden_keys
unfolding details
details-redacted payload attribution deleted =
    All-map {P = λ key. contains secrets key ≡ true}
      {Q = λ key.
        has_key payload key ≡ true → get_value (details payload attribution deleted) key ≡ redacted}
      (λ key secret there.
        added attribution deleted key (apart key secret)
        ∙ get-redact_listed secrets payload key secret there)
      hidden_keys hidden_keys-secrets
  where
    apart :
        (k : String)
        → contains secrets k ≡ true
        → contains ("attribution" ∷ "deleted_resource" ∷ []) k ≡ false
    apart k secret =
        let first = not_listed secrets "attribution" k refl secret in
        let second = not_listed secrets "deleted_resource" k refl secret in rw (first, second)

    added :
        (a d : Option Entries) (key : String)
        → contains ("attribution" ∷ "deleted_resource" ∷ []) key ≡ false
        → get_value (details payload a d) key ≡ get_value (redact secrets payload) key
    added none none key h = refl
    added (some a) none key h =
        ground (arith, get-set (redact secrets payload) "attribution" key (mapping a))
    added none (some d) key h =
        ground (arith, get-set (redact secrets payload) "deleted_resource" key (mapping d))
    added (some a) (some d) key h = ground (
      arith,
      get-set (redact secrets payload) "attribution" key (mapping a),
      get-set (set_value (redact secrets payload) "attribution" (mapping a)) "deleted_resource" key
          (mapping d),
    )

audit_staged_lem : (op : Operation) (m : Marks) → m.audit_staged ≡ true → audit_mutation op m ≡ m
unfolding audit_mutation
audit_staged_lem op m staged = rw (staged, audit_mutation)

-- The audit stages nothing or one row.
audit_cases :
    (op : Operation) (m : Marks)
    → (audit_mutation op m ≡ m)
      ⊎ ((a : String) × (o : String) × (audit_mutation op m ≡ stage_event a o m))
unfolding audit_mutation
audit_cases op m = elim (Bool-cases m.audit_staged) [
  | inl staged ↦ inl (rw (staged, audit_mutation))
  | inr new ↦ elim (Bool-cases (op.alias == "probe" && op.table == "routing_hosts")) [
    | inl probes ↦ elim (Bool-cases (op.has_result && health_changed op.observations)) [
      | inl differs ↦
          inr
            ("proxy_host.health.changed", "proxy_hosts", rw (new, probes, differs, audit_mutation))
      | inr same ↦ inl (rw (new, probes, same, audit_mutation))
    ]
    | inr other ↦
        elim (Bool-cases (
          not (contains mutations op.alias)
          || contains ("audit_events" ∷ "runtime_leases" ∷ []) op.table)) [
            | inl skipped ↦ inl (rw (new, other, skipped, audit_mutation))
            | inr audited ↦
                inr (past_action op.alias, op.object_type, rw (new, other, audited, audit_mutation))
          ]
  ]
]

-- A second run of the audit for the same operation changes nothing, and the first stages at most one row.
pub audit_mutation_once :
    (op : Operation) (m : Marks)
    → (audit_mutation op (audit_mutation op m) ≡ audit_mutation op m)
      × (length (audit_mutation op m).events ≤ length m.events + 1)
unfolding stage_event
audit_mutation_once op m = elim (audit_cases op m) [
  | inl same ↦ (ap (audit_mutation op) same, rw same (omega arith))
  | inr (a, o, e) ↦ (
    ap (audit_mutation op) e ∙ (audit_staged_lem op (stage_event a o m) refl ∙ sym e),
    rw e (omega (arith, length-append m.events ((record { action = a; object_type = o }) ∷ []))),
  )
]
