-- ===== src/Lifecycle/Context.antt =====
-- What the hooks of src/portwyrm/tables/lifecycle.py are given, and the reads that they share.
use portwyrm.Prelude.{
  ℕ, Bool, false, ◌||◌, Option, none, some, String, string_eq, ◌==◌, if◌then◌else◌,
}
use portwyrm.Prelude.Result.{Result, ok, err}
use portwyrm.Prelude.Dict.{Dict}
use portwyrm.Prelude.Text.{Text}
use portwyrm.Tokens.Permissions.{Grant}
use portwyrm.Ownership.{Meta}

-- A value of a payload or a result: None, a truth value, a number, a text, a mapping or a sequence.
mutual
  pub data Value : Type 0 where
    null : Value
    truth : Bool → Value
    number : ℕ → Value
    text : Text → Value
    mapping : Entries → Value
    sequence : Values → Value

  pub data Entries : Type 0 where
    no_entry : Entries
    entry : String → Value → Entries → Entries

  pub data Values : Type 0 where
    no_value : Values
    value : Value → Values → Values

-- `AuthorizationError` by its messages, `OwnershipError` by its messages, `LookupError`, an invalid
-- ownership, and what `int` raises.
pub data Issue : Type 0 where
  administrator_required permission_denied foreign_owner foreign_npmctl advanced_config : Issue
  not_found invalid_ownership not_a_number : Issue

-- The caller: its id, whether it is an administrator, what it sees, the npmctl owner it stands for,
-- its permissions by section, and its method `may` for access tokens by action.
pub record Principal : Type 0 where
  pub id : Option ℕ
  pub is_admin : Bool
  pub visibility : String
  pub owner : Option Text
  pub permissions : Option (Dict String Grant)
  pub may_access_tokens : String → Bool

-- A stored row: its kind, its owner, and the `meta` object of its extensions if it is a mapping.
pub record Row : Type 0 where
  pub kind : Option Text
  pub owner_principal_id : Option ℕ
  pub meta : Option Meta

-- `alias` is what `_alias` gives, `table` the name of the model's table; `has_owner` says whether the
-- model has a column `owner_principal_id`.
pub record Context : Type 0 where
  pub alias : String
  pub table : String
  pub has_owner : Bool
  pub principal : Option Principal
  pub payload : Option Entries
  pub target_principal_id : Option ℕ

-- The rows of the table by id.
abbrev pub Rows : Type 0
Rows = ℕ → Option Row

-- `mapping.get(key)`, with None for a key that is missing.
unfoldable pub get_value : Entries → String → Value
get_value no_entry key = null
get_value (entry k v rest) key = if k == key then v else get_value rest key

unfoldable pub has_key : Entries → String → Bool
has_key no_entry key = false
has_key (entry k v rest) key = k == key || has_key rest key

-- `payload.get(key)` where the payload is a mapping, and None elsewhere.
abbrev pub payload_value : Context → String → Value
payload_value ctx key = elim ctx.payload [ none ↦ null | some entries ↦ get_value entries key ]

abbrev pub is_admin : Context → Bool
is_admin ctx = elim ctx.principal [ none ↦ false | some p ↦ p.is_admin ]

-- `int(value)` unless the value is None. Parsing a text is a parameter.
module _ (parse_int : Text → Option ℕ) where
  unfoldable pub to_int : Value → Result Issue (Option ℕ)
  to_int null = ok none
  to_int (truth b) = ok (some (if b then 1 else 0))
  to_int (number n) = ok (some n)
  to_int (text t) = elim (parse_int t) [ none ↦ err not_a_number | some n ↦ ok (some n) ]
  to_int (mapping _) = err not_a_number
  to_int (sequence _) = err not_a_number

  -- `_principal_id` before the operation, when there is no result. The keys of the nested mapping
  -- `principal` come second.
  unfoldable pub principal_id : Context → Result Issue (Option ℕ)
  unfolding to_int
  principal_id ctx =
      let given : Option ℕ = elim ctx.principal [ none ↦ none | some p ↦ p.id ] in
      let nested : Value = elim (payload_value ctx "principal") [
        | mapping entries ↦
            if has_key entries "principal_id"
            then get_value entries "principal_id"
            else get_value entries "id"
        | _ ↦ null
      ] in
      let found : Value = elim (payload_value ctx "principal_id") [ null ↦ nested | v ↦ v ] in
      elim given [ some n ↦ ok (some n) | none ↦ to_int found ]
