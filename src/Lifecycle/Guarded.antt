-- ===== src/Lifecycle/Guarded.antt =====
-- What the hooks before a handler let through, in src/portwyrm/tables/lifecycle.py.
use portwyrm.Prelude.{
  ℕ, ◌≡◌, refl, arith, Bool, true, false, not, [], ◌∷◌, Option, some, String, string_eq, ◌==◌,
  nat_eq, contains,
}
use portwyrm.Prelude.Result.{ok, >>=-eq-ok}
use portwyrm.Prelude.Text.{Text, text_eq}
use portwyrm.Lifecycle.Context.{
  Value, mapping, Entries, get_value, Issue, foreign_owner, advanced_config, Principal, Row,
  Context, Rows, to_int, principal_id,
}
use portwyrm.Lifecycle.Authorize.{
  action_by_alias, section_by_table, authorize_action, authorize_section, contains_advanced_config,
  enforce_authorization, enforce_raw_nginx_policy, require,
}
use portwyrm.Lifecycle.Nested.{IsUnder, IsWhite, IsWhite-under}
use portwyrm.Lifecycle.Own.{
  ownership_mutations, check_row, check_target, enforce_ownership, pre_handler,
}

pub require-ok : (b : Bool) (issue : Issue) → require b issue ≡ ok tt → b ≡ true
unfolding require
require-ok true issue h = refl
require-ok false issue h = cc

pub granted : (b : Bool) (issue : Issue) → b ≡ true → require b issue ≡ ok tt
unfolding require
granted true issue h = refl
granted false issue h = cc

-- The checks of a row let its owner through, and nobody else.
check_row-own :
    (i o : ℕ) (actor : Option Text) (row : Row)
    → row.owner_principal_id ≡ some o
    → check_row (some i) actor row ≡ ok tt
    → o ≡ i
unfolding check_row
check_row-own i o actor row owned h =
    let (u, first, rest) = >>=-eq-ok _ _ (rw (owned, check_row) at h) in
    let mine = require-ok (not (not (o == i))) foreign_owner first in ground arith

module _ (parse_int : Text → Option ℕ) (rows : Rows) where
  -- All three hooks let it through.
  pre_handler_all :
      (ctx out : Context)
      → pre_handler parse_int rows ctx ≡ ok out
      → (enforce_authorization parse_int rows ctx ≡ ok tt)
        × (enforce_raw_nginx_policy ctx ≡ ok tt)
        × (enforce_ownership parse_int rows ctx ≡ ok out)
  unfolding pre_handler
  pre_handler_all ctx out h =
      let (u, first, rest) = >>=-eq-ok (enforce_authorization parse_int rows ctx) _ h in
      let (v, second, last) = >>=-eq-ok (enforce_raw_nginx_policy ctx) _ rest in
      (first, second, last)

  check_target-own :
      (ctx : Context) (p : Principal) (entries : Entries) (n i o : ℕ) (row : Row)
      → ctx.principal ≡ some p
      → p.is_admin ≡ false
      → ctx.payload ≡ some entries
      → to_int parse_int (get_value entries "id") ≡ ok (some n)
      → rows n ≡ some row
      → row.owner_principal_id ≡ some o
      → check_target parse_int rows (some i) ctx ≡ ok tt
      → o ≡ i
  unfolding check_target
  check_target-own ctx p entries n i o row caller plain payload named stored owned h =
      check_row-own i o p.owner row owned
        (rw (payload, named, stored, caller, plain, check_target) at h)

  -- A caller that has an id and is no administrator gets a mutation, other than a creation, of the stored
  -- row that the id in its payload names past the hooks only if the row has no owner or is the
  -- caller's own.
  pub pre_handler-own :
      (ctx out : Context) (p : Principal) (entries : Entries) (n i o : ℕ) (row : Row)
      → pre_handler parse_int rows ctx ≡ ok out
      → ctx.principal ≡ some p
      → p.is_admin ≡ false
      → p.id ≡ some i
      → contains ownership_mutations ctx.alias ≡ true
      → (ctx.alias == "create") ≡ false
      → ctx.payload ≡ some entries
      → to_int parse_int (get_value entries "id") ≡ ok (some n)
      → rows n ≡ some row
      → row.owner_principal_id ≡ some o
      → o ≡ i
  unfolding enforce_ownership principal_id
  pre_handler-own ctx out p entries n i o row h caller plain id mutates update payload named stored
        owned =
      let owner = (pre_handler_all ctx out h).2 in
      let reached = rw (mutates, payload, caller, id, update, enforce_ownership) at owner in
      let (u, checked, rest) = >>=-eq-ok (check_target parse_int rows (some i) ctx) _ reached in
      check_target-own ctx p entries n i o row caller plain payload named stored owned checked

  -- Where a caller that is no administrator gets a write to a routing host or location past the hooks,
  -- every value that stands under the key of the advanced configuration in its payload, at any depth
  -- of mappings and sequences, is a text of white space only.
  pub pre_handler-plain :
      (ctx out : Context) (p : Principal) (entries : Entries) (v : Value)
      → pre_handler parse_int rows ctx ≡ ok out
      → ctx.principal ≡ some p
      → p.is_admin ≡ false
      → ctx.payload ≡ some entries
      → contains ("create" ∷ "update" ∷ "replace" ∷ "validate" ∷ []) ctx.alias ≡ true
      → contains ("routing_hosts" ∷ "routing_locations" ∷ []) ctx.table ≡ true
      → IsUnder "advanced_config" v (mapping entries)
      → IsWhite v
  unfolding enforce_raw_nginx_policy
  pre_handler-plain ctx out p entries v h caller plain payload writes table under =
      let policy = (pre_handler_all ctx out h).1 in
      let asked = rw (writes, table, caller, payload, plain, enforce_raw_nginx_policy) at policy in
      let fine =
        require-ok (not (contains_advanced_config (mapping entries))) advanced_config asked in
      IsWhite-under v (mapping entries) (ground arith) under

  -- The hooks authorise a caller for an action on a section, and for nothing else if it lacks the grant.
  pub decided :
      (ctx : Context) (p : Principal) (action section : String)
      → ctx.principal ≡ some p
      → p.is_admin ≡ false
      → action_by_alias ctx.alias ≡ some action
      → contains ("principals" ∷ "settings" ∷ []) ctx.table ≡ false
      → section_by_table ctx.table ≡ some section
      → (ctx.table == "personal_access_tokens") ≡ false
      → (ctx.table == "routing_hosts") ≡ false
      → enforce_authorization parse_int rows ctx ≡ authorize_section parse_int rows p action section
  unfolding enforce_authorization authorize_action
  decided ctx p action section caller plain acts open_table found no_token no_host = rw (
    caller, plain, acts, open_table, found, no_token, no_host, enforce_authorization,
    authorize_action,
  )
