-- ===== src/Tokens/Scopes.antt =====
-- src/portwyrm/identity/token_policy.py. The case folding of Unicode is a parameter: its tables are
-- data of the Python build.
use portwyrm.Prelude.{
  Bool, true, false, ◌&&◌, ◌||◌, List, [], ◌∷◌, ◌++◌, map, none, some, ◌==◌, list_eq, Bool, true,
  false, ◌&&◌, ◌||◌, List, [], ◌∷◌, ◌++◌, map, none, some, ◌==◌, list_eq, if◌then◌else◌, is_empty,
  any, get_or_else, contains,
}
use portwyrm.Prelude.Result.{Result, ok, err, ◌>>=◌, ◌>>◌}
use portwyrm.Prelude.Dict
use portwyrm.Prelude.Dict.{Dict}
use portwyrm.Prelude.Text.{Text, text_eq, codes, strip, replace_char, partition, text_leb}
use portwyrm.Tokens.Permissions.{Grant, actions, permission_allows, grant_of}

-- The messages of the `ValueError`s.
pub data ScopeError : Type 0 where
  invalid_scopes select_scope unsupported_mode : ScopeError
  exceeds : Text → ScopeError

abbrev pub Scoped : Type 0 → Type 0
Scoped A = Result ScopeError A

-- The argument `scopes`: a list, tuple or set, whose elements count as their texts, or anything else.
pub data ScopeValue : Type 0 where
  collection : List Text → ScopeValue
  single : ScopeValue

abbrev pub sections : List Text
sections =
    codes "proxy_hosts"
    ∷ codes "redirection_hosts"
    ∷ codes "dead_hosts"
    ∷ codes "streams"
    ∷ codes "access_lists"
    ∷ codes "certificates"
    ∷ []

abbrev pub scope_actions : List Text
scope_actions = codes "create" ∷ codes "read" ∷ codes "update" ∷ codes "delete" ∷ []

abbrev pub full_account : Text
full_account = codes "user"

-- `PortwyrmScopeMatcher.match`, and its result.
pub record MatchResult : Type 0 where
  pub allowed : Bool
  pub granted : List Text
  pub required : List Text
  pub missing : List Text

-- `tuple(dict.fromkeys(xs))`, and a set that is built from the elements of a list.
unfoldable pub distinct_from : List Text → List Text → List Text
distinct_from seen [] = seen
distinct_from seen (x ∷ xs) = distinct_from (Dict.add seen x) xs

unfoldable pub absent_from : List Text → List Text → List Text
absent_from granted [] = []
absent_from granted (x ∷ xs) =
    let rest = absent_from granted xs in if Dict.member granted x then rest else x ∷ rest

unfoldable pub match_scopes : Text → List Text → List Text → Scoped MatchResult
unfolding distinct_from absent_from
match_scopes mode granted required =
    let given = distinct_from [] granted in
    let wanted = distinct_from [] required in
    let missing = absent_from given wanted in
    let allowed =
      if mode == codes "all" then is_empty missing else any (λ x. Dict.member given x) wanted in
    if mode == codes "all" || mode == codes "any"
    then ok (record {
      allowed = if is_empty wanted then true else allowed;
      granted = given;
      required = wanted;
      missing = missing;
    })
    else err unsupported_mode

-- `sorted` of texts.
unfoldable pub insert_text : Text → List Text → List Text
insert_text x [] = x ∷ []
insert_text x (y ∷ ys) = if text_leb x y then x ∷ y ∷ ys else y ∷ insert_text x ys

unfoldable pub sort_texts : List Text → List Text
unfolding insert_text
sort_texts [] = []
sort_texts (x ∷ xs) = insert_text x (sort_texts xs)

-- `match.missing[0]` of a match that is not allowed.
unfoldable pub first_of : List Text → Text
first_of [] = []
first_of (x ∷ _) = x

-- `effective.setdefault(section, {})[action] = True`
unfoldable pub allow : Dict Text (Dict Text Bool) → Text → Text → Dict Text (Dict Text Bool)
allow effective section action =
    Dict.put effective section (Dict.put (get_or_else (Dict.get effective section) []) action true)

module _ (casefold : Text → Text) where
  -- `str(scope).strip().casefold().replace("-", "_")`
  unfoldable pub tidy : Text → Text
  tidy scope = replace_char b'-' b'_' (casefold (strip scope))

  unfoldable pub parse_scope : Text → Scoped (Text × Text)
  parse_scope scope =
      let parts = partition b':' (tidy scope) in
      elim parts.1 [
        | none ↦ err invalid_scopes
        | some action ↦
            if contains sections parts.0 && contains scope_actions action
            then ok (parts.0, action)
            else err invalid_scopes
      ]

  -- The loop of `normalize_token_scopes` that only looks for errors.
  unfoldable pub check_scopes : List Text → Scoped Unit
  check_scopes [] = ok tt
  check_scopes (scope ∷ scopes) = parse_scope scope >>= λ _. check_scopes scopes

  unfoldable pub normalize_token_scopes : ScopeValue → Scoped (List Text)
  unfolding check_scopes
  normalize_token_scopes single = err invalid_scopes
  normalize_token_scopes (collection scopes) =
      let normalized = distinct_from [] (map tidy scopes) in
      let resource = Dict.discard normalized full_account in
      if is_empty normalized || Dict.member normalized []
      then err select_scope
      else if normalized == full_account ∷ []
      then ok normalized
      else if is_empty resource
      then err select_scope
      else check_scopes resource >> ok (Dict.add resource full_account)

  -- The loop of `validate_requested_scopes`, with what was granted so far.
  unfoldable pub grant_scopes : Dict Text Grant → Bool → List Text → List Text → Scoped (List Text)
  grant_scopes permissions is_admin granted [] = ok granted
  grant_scopes permissions is_admin granted (scope ∷ scopes) = parse_scope scope >>= λ parsed.
      grant_scopes permissions is_admin
        (if is_admin || permission_allows (grant_of permissions parsed.0) parsed.1
          then granted ++ scope ∷ []
          else granted)
        scopes

  unfoldable pub validate_requested_scopes :
      ScopeValue → Dict Text Grant → Bool → Scoped (List Text)
  unfolding grant_scopes
  validate_requested_scopes scopes permissions is_admin =
      normalize_token_scopes scopes >>= λ normalized.
      if normalized == full_account ∷ []
      then ok normalized
      else (let required = sort_texts (Dict.discard normalized full_account) in
          grant_scopes permissions is_admin [] required >>= λ granted.
          match_scopes (codes "all") granted required >>= λ matched.
          if matched.allowed then ok normalized else err (exceeds (first_of matched.missing)))

  -- The loop of `permissions_from_scopes`.
  unfoldable pub scope_permissions :
      Dict Text (Dict Text Bool) → List Text → Scoped (Dict Text (Dict Text Bool))
  unfolding allow
  scope_permissions found [] = ok found
  scope_permissions found (scope ∷ scopes) =
      parse_scope scope >>= λ parsed. scope_permissions (allow found parsed.0 parsed.1) scopes

  unfoldable pub permissions_from_scopes : ScopeValue → Scoped (Dict Text (Dict Text Bool))
  unfolding scope_permissions
  permissions_from_scopes scopes = normalize_token_scopes scopes >>= λ normalized.
      scope_permissions [] (Dict.discard normalized full_account)

  -- The loop of `effective_token_authority`.
  unfoldable pub intersect :
      Dict Text Grant
      → Bool
      → Dict Text (Dict Text Bool)
      → List Text
      → Scoped (Dict Text (Dict Text Bool))
  unfolding allow
  intersect permissions is_admin effective [] = ok effective
  intersect permissions is_admin effective (scope ∷ scopes) = parse_scope scope >>= λ parsed.
      let granted = is_admin || permission_allows (grant_of permissions parsed.0) parsed.1 in
      match_scopes (codes "all") (if granted then scope ∷ [] else []) (scope ∷ []) >>= λ matched.
      intersect permissions is_admin
        (if matched.allowed then allow effective parsed.0 parsed.1 else effective) scopes

  -- The effective permissions, whether they are an administrator's, and the scopes.
  unfoldable pub effective_token_authority :
      ScopeValue → Dict Text Grant → Bool → Scoped (Dict Text Grant × Bool × List Text)
  unfolding intersect
  effective_token_authority scopes permissions is_admin =
      normalize_token_scopes scopes >>= λ normalized.
      if normalized == full_account ∷ []
      then ok (permissions, is_admin, normalized)
      else (intersect permissions is_admin [] (Dict.discard normalized full_account)
          >>= λ effective.
              ok (map (λ entry. (entry.0, actions entry.1)) effective, false, normalized))
