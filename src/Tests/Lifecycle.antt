-- ===== src/Tests/Lifecycle.antt =====
-- src/portwyrm/tables/lifecycle.py at concrete inputs.
use portwyrm.Prelude.{
  ℕ, ◌≡◌, refl, true, false, [], ◌∷◌, Option, none, some, string_eq, All, inl, inr,
}
use portwyrm.Prelude.Result.{ok}
use portwyrm.Prelude.Dict
use portwyrm.Prelude.Text.{Text, text_eq, codes, strip, is_space}
use portwyrm.Tokens.Permissions.{Grant, view, permission_allows}
use portwyrm.Lifecycle.Context.{
  number, text, mapping, Entries, no_entry, entry, Principal, Row, Context, Rows, get_value,
  has_key, to_int, principal_id, sequence, value, no_value,
}
use portwyrm.Lifecycle.Authorize.{
  enforce_authorization, enforce_raw_nginx_policy, contains_advanced_config, host_section,
  authorize_section,
}
use portwyrm.Lifecycle.Own.{pre_handler, enforce_ownership}
use portwyrm.Lifecycle.Nested.{IsUnder, IsWhite}
use portwyrm.Lifecycle.Guarded.{pre_handler-own, pre_handler-plain}
use portwyrm.Lifecycle.Permits.{needed, IsAnswered, enforce_authorization_permits}
use portwyrm.Lifecycle.Show.{
  Shown, page, shown_of, visible_to, IsOpenTo, enforce_visibility, enforce_visibility-IsOpenTo,
}
use portwyrm.Lifecycle.Commit.{redacted, details, Marks, Operation}
use portwyrm.Lifecycle.Audit.{hidden_keys, details-redacted}

-- The user 5 may do anything with proxy hosts, and see streams.
abbrev user : Principal
user = record {
  id = some 5;
  is_admin = false;
  visibility = "user";
  owner = none;
  permissions = some (("proxy_hosts", Grant.manage) ∷ ("streams", view) ∷ []);
  may_access_tokens = λ action. false;
}

abbrev no_texts : Text → Option ℕ
no_texts t = none

-- The host 3 belongs to the user.
abbrev host : Row
host = record { kind = some (codes "proxy"); owner_principal_id = some 5; meta = none }

abbrev rows : Rows
rows id = some host

-- The locations of the change have a blank configuration.
abbrev change : Entries
change = entry "id" (number 3) (
    entry "locations"
      (sequence (value (mapping (entry "advanced_config" (text (codes " ")) no_entry)) no_value))
      no_entry)

abbrev update : Context
update = record {
  alias = "update";
  table = "routing_hosts";
  has_owner = true;
  principal = some user;
  payload = some change;
  target_principal_id = none;
}

passes : pre_handler no_texts rows update ≡ ok update
unfolding pre_handler enforce_authorization authorize_section host_section permission_allows
    Dict.get enforce_raw_nginx_policy contains_advanced_config enforce_ownership principal_id
    get_value strip is_space text_eq
passes = refl

pre_handler-own_example : ◌≡◌ {A = ℕ} 5 5
unfolding get_value to_int
pre_handler-own_example =
    pre_handler-own no_texts rows update update user change 3 5 5 host passes refl refl refl refl
      refl refl refl refl refl

pre_handler-plain_example : IsWhite (text (codes " "))
unfolding IsUnder
pre_handler-plain_example =
    pre_handler-plain no_texts rows update update user change (text (codes " ")) passes refl refl
      refl refl refl (inr (inr (inr (inl (inl (inl (refl, refl)))))))

-- The configuration is found where it is nested.
test_nested :
    contains_advanced_config (
      mapping (
        entry "a"
          (sequence
            (value (mapping (entry "advanced_config" (text (codes "x")) no_entry)) no_value))
          no_entry))
    ≡ true
unfolding contains_advanced_config strip is_space
test_nested = refl

abbrev stream_read : Context
stream_read = record update { alias = "read"; table = "stream_routes" }

enforce_authorization_permits_example :
    All
      (λ n. stream_read.alias ≡ n.0 → IsAnswered no_texts rows stream_read user refl refl n.1)
      needed
enforce_authorization_permits_example =
    enforce_authorization_permits no_texts rows stream_read user refl refl

abbrev mine : Shown
mine = record { key = 1; owner_id = some 5 }

abbrev theirs : Shown
theirs = record { key = 2; owner_id = some 6 }

enforce_visibility-IsOpenTo_example : All (IsOpenTo 5) (shown_of (page (mine ∷ [])))
unfolding enforce_visibility visible_to
enforce_visibility-IsOpenTo_example =
    enforce_visibility-IsOpenTo "list" user 5 (page (mine ∷ theirs ∷ [])) (page (mine ∷ [])) refl
      refl refl refl

abbrev login : Entries
login = entry "email" (text (codes "a@b")) (entry "password" (text (codes "pw")) no_entry)

details-redacted_example :
    All
      (λ key.
        has_key login key ≡ true → get_value (details login none (some no_entry)) key ≡ redacted)
      hidden_keys
details-redacted_example = details-redacted login none (some no_entry)

-- The credentials of a DNS provider are shown.
test_shown :
    get_value
      (details (entry "dns_credentials" (text (codes "key")) no_entry) none none)
      "dns_credentials"
    ≡ text (codes "key")
unfolding details get_value has_key
test_shown = refl

abbrev probe : Operation
probe = record {
  alias = "probe";
  table = "routing_hosts";
  object_type = "proxy_hosts";
  has_result = true;
  observations = "offline" ∷ "online" ∷ [];
  has_runtime = true;
}

abbrev unmarked : Marks
unmarked = record { audit_staged = false; events = []; reconciled = false; changed = [] }
