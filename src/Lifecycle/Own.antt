-- ===== src/Lifecycle/Own.antt =====
-- `enforce_ownership` of src/portwyrm/tables/lifecycle.py, and the hooks before a handler as a whole.
use portwyrm.Prelude.{
  ℕ, Bool, false, ◌&&◌, not, List, [], ◌∷◌, Option, none, some, String, string_eq, ◌==◌, nat_eq,
  if◌then◌else◌, contains,
}
use portwyrm.Prelude.Result.{Result, ok, err, ◌>>=◌, ◌>>◌}
use portwyrm.Prelude.Text.{Text, text_eq}
use portwyrm.Ownership.{Ownership, from_meta}
use portwyrm.Lifecycle.Context.{
  null, number, entry, Issue, foreign_owner, foreign_npmctl, invalid_ownership, Row, Context, Rows,
  payload_value, to_int, principal_id,
}
use portwyrm.Lifecycle.Authorize.{enforce_authorization, enforce_raw_nginx_policy, require}

abbrev pub mutations : List String
mutations =
    "create" ∷ "update" ∷ "replace" ∷ "delete" ∷ "enable" ∷ "disable" ∷ "register"
    ∷ "update_identity" ∷ "set_authorization" ∷ "authenticate" ∷ "change_password" ∷ "set_password"
    ∷ "issue" ∷ "refresh" ∷ "revoke" ∷ "rotate" ∷ "verify" ∷ "begin" ∷ "enroll" ∷ "confirm"
    ∷ "remove" ∷ "recover" ∷ "regenerate_backup_codes" ∷ "record_failure" ∷ "record" ∷ "apply"
    ∷ "stage" ∷ "upload" ∷ "request" ∷ "renew" ∷ "activate" ∷ "clear_active" ∷ "reconcile"
    ∷ "reload" ∷ "acquire" ∷ "release" ∷ []

abbrev pub ownership_mutations : List String
ownership_mutations = "probe" ∷ mutations

-- `_ownership_from_row`
unfoldable pub ownership_from_row : Row → Result Issue (Option Ownership)
ownership_from_row row = elim row.meta [
  | none ↦ ok none
  | some meta ↦ elim (from_meta meta) [ err _ ↦ err invalid_ownership | ok found ↦ ok found ]
]

-- The two checks of a caller that is no administrator.
unfoldable pub check_row : Option ℕ → Option Text → Row → Result Issue Unit
unfolding ownership_from_row require
check_row caller actor_owner row =
    let foreign : Bool = elim row.owner_principal_id [
      | none ↦ false
      | some o ↦ elim caller [ none ↦ false | some i ↦ not (o == i) ]
    ] in
    require (not foreign) foreign_owner
    >> (ownership_from_row row >>= λ ownership.
        let foreign_npm : Bool = elim ownership [
          | none ↦ false
          | some found ↦ elim actor_owner [ none ↦ false | some a ↦ not (found.owner == a) ]
        ] in
        require (not foreign_npm) foreign_npmctl)

module _ (parse_int : Text → Option ℕ) (rows : Rows) where
  -- The row that the payload names, and who may change it.
  unfoldable pub check_target : Option ℕ → Context → Result Issue Unit
  unfolding check_row
  check_target caller ctx = to_int parse_int (payload_value ctx "id") >>= λ id. elim id [
    | none ↦ ok tt
    | some n ↦ elim (rows n) [
      | none ↦ ok tt
      | some row ↦ elim ctx.principal [
        | none ↦ check_row caller none row
        | some p ↦ if p.is_admin then ok tt else check_row caller p.owner row
      ]
    ]
  ]

  -- A new row belongs to the caller unless the payload says whose it is. The payload comes back.
  unfoldable pub enforce_ownership : Context → Result Issue Context
  unfolding check_target
  enforce_ownership ctx =
      if contains ownership_mutations ctx.alias
      then elim ctx.payload [
        | none ↦ ok ctx
        | some entries ↦ principal_id parse_int ctx >>= λ caller.
            let checked : Result Issue Context = check_target caller ctx >> ok ctx in
            elim caller [
              | none ↦ checked
              | some i ↦
                  if ctx.alias == "create" && ctx.has_owner
                  then elim (payload_value ctx "owner_principal_id") [
                    | null ↦ ok (record ctx {
                      payload = some (entry "owner_principal_id" (number i) entries);
                    })
                    | _ ↦ ok ctx
                  ]
                  else checked
            ]
      ]
      else ok ctx

  -- The hooks before the handler, in their order.
  unfoldable pub pre_handler : Context → Result Issue Context
  unfolding enforce_ownership
  pre_handler ctx =
      enforce_authorization parse_int rows ctx
      >> (enforce_raw_nginx_policy ctx >> enforce_ownership ctx)
