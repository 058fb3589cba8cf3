-- ===== src/Tokens/Issue.antt =====
-- Which scopes a token can be issued with: `validate_requested_scopes` of
-- src/portwyrm/identity/token_policy.py.
use portwyrm.Prelude.{
  ◌≡◌, ◌∙◌, refl, arith, Bool, true, false, not, ◌&&◌, ◌||◌, List, [], ◌∷◌, ◌++◌, ◌==◌, list_eq,
  Bool-cases, ◌⊎◌, inl, inr,
}
use portwyrm.Prelude.Result.{ok, err, >>=-eq-ok}
use portwyrm.Prelude.Dict
use portwyrm.Prelude.Dict.{Dict}
use portwyrm.Prelude.Text.{Text, text_eq, codes}
use portwyrm.Tokens.Permissions.{Grant}
use portwyrm.Tokens.Scopes.{
  ScopeValue, full_account, MatchResult, match_scopes, distinct_from, absent_from, sort_texts,
  ScopeValue, full_account, MatchResult, match_scopes, distinct_from, absent_from, sort_texts,
  insert_text, parse_scope, grant_scopes, normalize_token_scopes, validate_requested_scopes,
}
use portwyrm.Tokens.Authority.{principal_may}

member-distinct_from :
    (seen xs : List Text) (x : Text)
    → Dict.member (distinct_from seen xs) x ≡ (Dict.member seen x || Dict.member xs x)
unfolding distinct_from Dict.member
member-distinct_from seen [] x = ground arith
member-distinct_from seen (y ∷ xs) x =
    ground (arith, member-distinct_from (Dict.add seen y) xs x, Dict.member-add seen y x)

member-insert_text :
    (y : Text) (xs : List Text) (x : Text)
    → Dict.member (insert_text y xs) x ≡ (y == x || Dict.member xs x)
unfolding insert_text Dict.member
member-insert_text y [] x = refl
member-insert_text y (z ∷ xs) x = ground (arith, member-insert_text y xs x)

member-sort_texts : (xs : List Text) (x : Text) → Dict.member (sort_texts xs) x ≡ Dict.member xs x
unfolding sort_texts Dict.member
member-sort_texts [] x = refl
member-sort_texts (y ∷ xs) x =
    ground (arith, member-sort_texts xs x, member-insert_text y (sort_texts xs) x)

member-absent_from :
    (granted xs : List Text) (x : Text)
    → Dict.member (absent_from granted xs) x ≡ (Dict.member xs x && not (Dict.member granted x))
unfolding absent_from Dict.member
member-absent_from granted [] x = refl
member-absent_from granted (y ∷ xs) x =
    ground (arith, member-absent_from granted xs x, text_eq.beq_iff y x)

-- What is allowed in mode `all` asks for granted scopes only.
match_all_allowed :
    (granted required : List Text) (m : MatchResult) (x : Text)
    → match_scopes (codes "all") granted required ≡ ok m
    → m.allowed ≡ true
    → Dict.member required x ≡ true
    → Dict.member granted x ≡ true
unfolding match_scopes text_eq
match_all_allowed granted required m x h fine wanted =
    let given = distinct_from [] granted in
    let asked = distinct_from [] required in
    ground (
      arith,
      Dict.member_of_is_empty asked x,
      Dict.member_of_is_empty (absent_from given asked) x,
      member-absent_from given asked x,
      member-distinct_from [] granted x,
      member-distinct_from [] required x,
      Dict.member-nil x,
    )

module _ (casefold : Text → Text) (permissions : Dict Text Grant) (is_admin : Bool) where
  -- The owner may do what the scope names.
  abbrev pub owner_may : Text → Bool
  owner_may scope = elim (parse_scope casefold scope) [
    | err _ ↦ false
    | ok parsed ↦ principal_may casefold permissions is_admin parsed.0 parsed.1
  ]

  grant_scopes-owner_may :
      (granted scopes out : List Text) (x : Text)
      → grant_scopes casefold permissions is_admin granted scopes ≡ ok out
      → Dict.member out x ≡ true
      → (Dict.member granted x ≡ true) ⊎ (owner_may x ≡ true)
  unfolding grant_scopes Dict.member
  grant_scopes-owner_may granted [] out x h there = inl (ground arith)
  grant_scopes-owner_may granted (scope ∷ scopes) out x h there =
      let (parsed, good, looped) = >>=-eq-ok (parse_scope casefold scope) _ h in
      elim (Bool-cases (principal_may casefold permissions is_admin parsed.0 parsed.1)) [
        | inr never ↦ grant_scopes-owner_may granted scopes out x (rw never at looped) there
        | inl may ↦
            let before =
              grant_scopes-owner_may (granted ++ scope ∷ []) scopes out x (rw may at looped)
                there in
            ground (arith, before, Dict.member-append granted scope x, text_eq.beq_iff scope x)
      ]

  -- A token that is not for the whole account is issued only with scopes of which each names a section
  -- and an action that the owner may do there.
  pub validate_requested_scopes-owner_may :
      (scopes : ScopeValue) (normalized : List Text) (scope : Text)
      → validate_requested_scopes casefold scopes permissions is_admin ≡ ok normalized
      → (normalized == full_account ∷ []) ≡ false
      → Dict.member (Dict.discard normalized full_account) scope ≡ true
      → owner_may scope ≡ true
  unfolding validate_requested_scopes
  validate_requested_scopes-owner_may scopes normalized scope h partial there =
      let (fine, good, rest) = >>=-eq-ok (normalize_token_scopes casefold scopes) _ h in
      elim (Bool-cases (fine == full_account ∷ [])) [
        | inl full ↦ cc (rw full at rest)
        | inr part ↦
            let required = sort_texts (Dict.discard fine full_account) in
            let (granted, ran, later) =
              >>=-eq-ok (grant_scopes casefold permissions is_admin [] required) _
                (rw part at rest) in
            let (m, matched, made) =
              >>=-eq-ok (match_scopes (codes "all") granted required) _ later in
            elim (Bool-cases m.allowed) [
              | inr missed ↦ cc (rw missed at made)
              | inl fits ↦
                  let same : fine ≡ normalized = ground arith in
                  let given =
                    match_all_allowed granted required m scope matched fits
                      (member-sort_texts (Dict.discard fine full_account) scope ∙ rw same there) in
                  elim (grant_scopes-owner_may [] required granted scope ran given) [
                    | inl nothing ↦ cc (nothing, Dict.member-nil scope)
                    | inr may ↦ may
                  ]
            ]
      ]
