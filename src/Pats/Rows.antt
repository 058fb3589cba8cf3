-- ===== src/Pats/Rows.antt =====
-- The rows of `PATStore` in src/portwyrm/tables/tokens.py, and who may change them.
use portwyrm.Prelude.{
  ℕ, ◌≡◌, Bool, ◌&&◌, ◌||◌, not, List, [], ◌∷◌, ◌++◌, Option, none, some, String, if◌then◌else◌,
  ◌==◌, nat_eq, arith, is_some,
}
use portwyrm.Prelude.Result.{Result, ok, err}
use portwyrm.Prelude.Text.{Text, text_eq}

-- Times are seconds. `replaced_by` is the id of the row that a rotation put in its place.
pub record PatRow : Type 0 where
  pub id : ℕ
  pub principal_id : ℕ
  pub name : Text
  pub token_prefix : Text
  pub token_digest : Text
  pub scopes : List Text
  pub expires_at : Option ℕ
  pub last_used_at : Option ℕ
  pub revoked_at : Option ℕ
  pub replaced_by : Option ℕ

-- The `ValueError`s and `PermissionError`s, and the violated constraint on prefixes.
pub data PatError : Type 0 where
  empty_name past_expiry bad_scopes not_found invalid_token : PatError
  principal_required permission_required duplicate_prefix : PatError

pub record Actor : Type 0 where
  pub id : Option ℕ
  pub is_admin : Bool
  pub may_access_tokens : String → Bool

-- `may_manage_foreign_tokens` of src/portwyrm/identity/token_policy.py.
unfoldable pub may_manage_foreign_tokens : Actor → String → Bool
may_manage_foreign_tokens actor action = actor.is_admin || actor.may_access_tokens action

unfoldable pub authorize_owner : Option Actor → ℕ → String → Result PatError Unit
unfolding may_manage_foreign_tokens
authorize_owner none owner action = ok tt
authorize_owner (some actor) owner action = elim actor.id [
  | none ↦ err principal_required
  | some i ↦
      if not (i == owner) && not (may_manage_foreign_tokens actor action)
      then err permission_required
      else ok tt
]

-- `_by_prefix`: the prefixes of the rows are all different.
unfoldable pub by_prefix : List PatRow → Text → Option PatRow
by_prefix [] prefix = none
by_prefix (row ∷ table) prefix =
    if row.token_prefix == prefix then some row else by_prefix table prefix

-- An assignment to the columns of the row with the prefix.
unfoldable pub update_row : Text → (PatRow → PatRow) → List PatRow → List PatRow
update_row prefix f [] = []
update_row prefix f (row ∷ table) =
    if row.token_prefix == prefix then f row ∷ table else row ∷ update_row prefix f table

-- A new row at the end, unless its prefix is taken; its id is new.
unfoldable pub add_row : PatRow → List PatRow → Result PatError (List PatRow)
add_row row table =
    if is_some (by_prefix table row.token_prefix)
    then err duplicate_prefix
    else ok (table ++ row ∷ [])

pub by_prefix-update_row :
    (prefix q : Text) (f : PatRow → PatRow) (table : List PatRow) (row : PatRow)
    → ((r : PatRow) → (f r).token_prefix ≡ r.token_prefix)
    → by_prefix table q ≡ some row
    → by_prefix (update_row prefix f table) q ≡ (if prefix == q then some (f row) else some row)
unfolding by_prefix update_row
by_prefix-update_row prefix q f [] row keeps h = cc
by_prefix-update_row prefix q f (r ∷ table) row keeps h = ground (
  arith,
  by_prefix-update_row prefix q f table row keeps,
  keeps r,
  text_eq.beq_iff prefix q,
  text_eq.beq_iff r.token_prefix q,
  text_eq.beq_iff r.token_prefix prefix,
)

pub by_prefix-append :
    (table : List PatRow) (new row : PatRow) (q : Text)
    → by_prefix table q ≡ some row
    → by_prefix (table ++ new ∷ []) q ≡ some row
unfolding by_prefix
by_prefix-append [] new row q h = cc
by_prefix-append (r ∷ table) new row q h = ground (arith, by_prefix-append table new row q)

pub by_prefix-append_new :
    (table : List PatRow) (new : PatRow)
    → by_prefix table new.token_prefix ≡ none
    → by_prefix (table ++ new ∷ []) new.token_prefix ≡ some new
unfolding by_prefix
by_prefix-append_new [] new h = ground (arith, text_eq.beq_iff new.token_prefix new.token_prefix)
by_prefix-append_new (r ∷ table) new h = ground (arith, by_prefix-append_new table new)
