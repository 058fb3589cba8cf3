-- ===== src/Pats/Operations.antt =====
-- The operations of `PATStore` in src/portwyrm/tables/tokens.py.
use portwyrm.Prelude.{
  ℕ, ◌-◌, Bool, true, false, ◌||◌, not, List, ◌∷◌, ◌++◌, Option, none, some, if◌then◌else◌, ◌==◌,
  nat_eq, leb, is_empty, is_some,
}
use portwyrm.Prelude.Result.{Result, ok, err, ◌>>=◌, ◌>>◌}
use portwyrm.Prelude.Text.{Text, text_eq, codes, strip, partition}
use portwyrm.Tokens.Scopes.{collection, normalize_token_scopes, sort_texts}
use portwyrm.Pats.Rows.{
  PatRow, PatError, empty_name, past_expiry, bad_scopes, not_found, invalid_token, Actor,
  authorize_owner, by_prefix, update_row, add_row,
}

-- What `secrets` gives for one new token.
pub record Fresh : Type 0 where
  pub prefix : Text
  pub secret : Text
  pub id : ℕ

pub record IssueRequest : Type 0 where
  pub principal_id : ℕ
  pub name : Text
  pub scopes : List Text
  pub expires_at : Option ℕ

-- The owner of a token as `verify` reads it.
pub record Owner : Type 0 where
  pub email : Text
  pub display_name : Text
  pub is_admin : Bool
  pub is_disabled : Bool
  pub is_deleted : Bool

-- What `verify` returns of the owner and the token.
pub record Verification : Type 0 where
  pub principal_id : ℕ
  pub email : Text
  pub display_name : Text
  pub is_admin : Bool
  pub scopes : List Text

-- The case folding, `hash_api_key`, `verify_api_key`, and the table of principals.
pub record World : Type 0 where
  pub casefold : Text → Text
  pub hash_api_key : Text → Text
  pub verify_api_key : Text → Text → Bool
  pub principals : ℕ → Option Owner

unfoldable pub plaintext : Fresh → Text
plaintext fresh = codes "pwyrm" ++ (b'_' ∷ (fresh.prefix ++ (b'_' ∷ fresh.secret)))

unfoldable pub is_past : ℕ → Option ℕ → Bool
is_past now none = false
is_past now (some expires) = leb expires now

-- `token.split("_", 2)` of three parts that begins with `pwyrm`: the second part.
unfoldable pub prefix_of : Text → Option Text
prefix_of token =
    let first = partition b'_' token in
    elim first.1 [
      | none ↦ none
      | some rest ↦
          let second = partition b'_' rest in
          elim second.1 [
            | none ↦ none
            | some _ ↦ if first.0 == codes "pwyrm" then some second.0 else none
          ]
    ]

unfoldable pub set_revoked : ℕ → Option ℕ → PatRow → PatRow
set_revoked now replacement row = record row { revoked_at = some now; replaced_by = replacement }

unfoldable pub set_expiry : ℕ → PatRow → PatRow
set_expiry expires row = record row { expires_at = some expires }

unfoldable pub set_used : ℕ → PatRow → PatRow
set_used now row = record row { last_used_at = some now }

module _ (w : World) where
  -- `_new_token`
  unfoldable pub new_token : ℕ → Fresh → IssueRequest → Result PatError PatRow
  unfolding is_past plaintext
  new_token now fresh request =
      let name = strip request.name in
      if is_empty name
      then err empty_name
      else if is_past now request.expires_at
      then err past_expiry
      else elim (normalize_token_scopes w.casefold (collection request.scopes)) [
        | err _ ↦ err bad_scopes
        | ok scopes ↦ ok (record {
          id = fresh.id;
          principal_id = request.principal_id;
          name = name;
          token_prefix = fresh.prefix;
          token_digest = w.hash_api_key (plaintext fresh);
          scopes = sort_texts scopes;
          expires_at = request.expires_at;
          last_used_at = none;
          revoked_at = none;
          replaced_by = none;
        })
      ]

  -- The table afterwards; the token that is returned is the plaintext.
  unfoldable pub issue :
      Option Actor → ℕ → Fresh → IssueRequest → List PatRow → Result PatError (List PatRow)
  unfolding new_token add_row
  issue actor now fresh request table =
      authorize_owner actor request.principal_id "create"
      >> (new_token now fresh request >>= λ row. add_row row table)

  -- A prefix that is not there is no error: the result says whether it was.
  unfoldable pub revoke :
      Option Actor → ℕ → Text → List PatRow → Result PatError (Bool × List PatRow)
  unfolding set_revoked
  revoke actor now prefix table = elim (by_prefix table prefix) [
    | none ↦ ok (false, table)
    | some row ↦
        authorize_owner actor row.principal_id "delete"
        >> ok (
          true,
          (if is_some row.revoked_at
              then table
              else update_row prefix (set_revoked now row.replaced_by) table),
        )
  ]

  unfoldable pub refresh : Option Actor → ℕ → Text → ℕ → List PatRow → Result PatError (List PatRow)
  unfolding set_expiry
  refresh actor now prefix expires table = elim (by_prefix table prefix) [
    | none ↦ err not_found
    | some row ↦
        if is_some row.revoked_at
        then err not_found
        else (authorize_owner actor row.principal_id "update"
            >> (if leb expires now
                then err past_expiry
                else ok (update_row prefix (set_expiry expires) table)))
  ]

  unfoldable pub rotate :
      Option Actor → ℕ → Fresh → Text → List PatRow → Result PatError (List PatRow)
  unfolding set_revoked new_token add_row
  rotate actor now fresh prefix table = elim (by_prefix table prefix) [
    | none ↦ err not_found
    | some row ↦
        if is_some row.revoked_at
        then err not_found
        else (authorize_owner actor row.principal_id "update"
            >> (new_token now fresh (record {
              principal_id = row.principal_id;
              name = row.name;
              scopes = row.scopes;
              expires_at = row.expires_at;
            })
                >>= λ replacement. add_row replacement table >>= λ grown.
                    ok (update_row prefix (set_revoked now (some replacement.id)) grown)))
  ]

  -- The last use is written at most every five minutes.
  unfoldable pub touch : ℕ → PatRow → List PatRow → List PatRow
  unfolding set_used
  touch now row table =
      let stale : Bool = elim row.last_used_at [ none ↦ true | some last ↦ leb 300 (now - last) ] in
      if stale then update_row row.token_prefix (set_used now) table else table

  unfoldable pub verify : ℕ → Text → List PatRow → Result PatError (Verification × List PatRow)
  unfolding prefix_of touch is_past
  verify now token table = elim (prefix_of token) [
    | none ↦ err invalid_token
    | some prefix ↦ elim (by_prefix table prefix) [
      | none ↦ err invalid_token
      | some row ↦
          if not (w.verify_api_key row.token_digest token)
            || is_some row.revoked_at
            || is_past now row.expires_at
          then err invalid_token
          else elim (w.principals row.principal_id) [
            | none ↦ err invalid_token
            | some owner ↦
                if owner.is_disabled || owner.is_deleted
                then err invalid_token
                else ok (
                  record {
                    principal_id = row.principal_id;
                    email = owner.email;
                    display_name = owner.display_name;
                    is_admin = owner.is_admin;
                    scopes = row.scopes;
                  },
                  touch now row table,
                )
          ]
    ]
  ]
