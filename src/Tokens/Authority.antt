-- ===== src/Tokens/Authority.antt =====
-- What a token may do: its scopes cut with its owner's permissions, in
-- src/portwyrm/identity/token_policy.py.
use portwyrm.Prelude.{
  ◌≡◌, refl, arith, Bool, true, false, ◌&&◌, ◌||◌, List, [], ◌∷◌, map, none, some, ◌==◌, list_eq,
  if◌then◌else◌, any, get_or_else, Bool-cases, inl, inr,
}
use portwyrm.Prelude.Result.{ok, err, >>=-eq-ok}
use portwyrm.Prelude.Dict
use portwyrm.Prelude.Dict.{Dict}
use portwyrm.Prelude.Text.{Text, text_eq, codes}
use portwyrm.Tokens.Permissions.{Grant, actions, permission_allows, grant_of}
use portwyrm.Tokens.Scopes.{
  ScopeValue, full_account, MatchResult, match_scopes, distinct_from, absent_from, parse_scope,
  ScopeValue, full_account, MatchResult, match_scopes, distinct_from, absent_from, parse_scope,
  normalize_token_scopes, allow, intersect, normalize_token_scopes, allow, intersect,
  effective_token_authority,
}

-- The map of actions allows the action on the section.
abbrev pub has_action : Dict Text (Dict Text Bool) → Text → Text → Bool
has_action effective section action = elim (Dict.get effective section) [
  | none ↦ false
  | some granted ↦ get_or_else (Dict.get granted action) false
]

allow-has_action :
    (d : Dict Text (Dict Text Bool)) (s a s' a' : Text)
    → has_action (allow d s a) s' a' ≡ (s == s' && a == a' || has_action d s' a')
unfolding allow Dict.get
allow-has_action d s a s' a' =
    let inner = get_or_else (Dict.get d s) [] in
    ground (
      arith,
      Dict.get-put d s s' (Dict.put inner a true),
      Dict.get-put inner a a' true,
      text_eq.beq_iff s s',
      text_eq.beq_iff a a',
    )

-- A match of one scope with itself or nothing.
match_one :
    (scope : Text) (b : Bool)
    → (m : MatchResult) × (match_scopes (codes "all") (if b then scope ∷ [] else []) (scope ∷ [])
        ≡ ok m)
      × (m.allowed ≡ b)
unfolding match_scopes distinct_from absent_from Dict.add Dict.member text_eq
match_one scope true = (_, refl, ground (arith, text_eq.beq_iff scope scope))
match_one scope false = (_, refl, refl)

module _ (casefold : Text → Text) where
  -- The scope names the section and the action.
  abbrev pub names : Text → Text → Text → Bool
  names section action scope = elim (parse_scope casefold scope) [
    | err _ ↦ false
    | ok parsed ↦ parsed.0 == section && parsed.1 == action
  ]

  -- One of the scopes besides `user` names the section and the action.
  abbrev pub in_scopes : List Text → Text → Text → Bool
  in_scopes scopes section action = any (names section action) scopes

  module _ (permissions : Dict Text Grant) (is_admin : Bool) where
    abbrev pub principal_may : Text → Text → Bool
    principal_may section action =
        is_admin || permission_allows (grant_of permissions section) action

    intersect-has_action :
        (scopes : List Text) (d out : Dict Text (Dict Text Bool)) (s a : Text)
        → intersect casefold permissions is_admin d scopes ≡ ok out
        → has_action out s a ≡ (has_action d s a || in_scopes scopes s a && principal_may s a)
    unfolding intersect
    intersect-has_action [] d out s a h = ground arith
    intersect-has_action (scope ∷ scopes) d out s a h =
        let (parsed, good, looped) = >>=-eq-ok (parse_scope casefold scope) _ h in
        let may = principal_may parsed.0 parsed.1 in
        let (m, matched, same) = match_one scope may in
        let after = if may then allow d parsed.0 parsed.1 else d in
        let ran : intersect casefold permissions is_admin after scopes ≡ ok out =
          rw (matched, same) at looped in
        ground (
          arith,
          intersect-has_action scopes after out s a ran,
          allow-has_action d parsed.0 parsed.1 s a,
          text_eq.beq_iff parsed.0 s,
          text_eq.beq_iff parsed.1 a,
        )

  module _ (permissions : Dict Text Grant) (is_admin : Bool) where
    get-actions :
        (d : Dict Text (Dict Text Bool)) (s a : Text)
        → permission_allows (grant_of (map (λ entry. (entry.0, actions entry.1)) d) s) a
          ≡ has_action d s a
    unfolding Dict.get permission_allows
    get-actions [] s a = refl
    get-actions ((t, granted) ∷ d) s a = ground (arith, get-actions d s a)

    -- A token whose scopes are not the whole account is no administrator's, whoever owns it, and may
    -- do an action on a section exactly when one of its scopes names both and the owner may do it,
    -- as an administrator or by the owner's own permissions.
    pub effective_token_authority-exact :
        (scopes : ScopeValue) (effective : Dict Text Grant) (admin : Bool) (normalized : List Text)
        (section action : Text)
        → effective_token_authority casefold scopes permissions is_admin
          ≡ ok (effective, admin, normalized)
        → (normalized == full_account ∷ []) ≡ false
        → (admin ≡ false)
          × (permission_allows (grant_of effective section) action ≡ (
              in_scopes (Dict.discard normalized full_account) section action
              && principal_may permissions is_admin section action))
    unfolding effective_token_authority Dict.get
    effective_token_authority-exact scopes effective admin normalized section action h partial =
        let (fine, good, rest) = >>=-eq-ok (normalize_token_scopes casefold scopes) _ h in
        elim (Bool-cases (fine == full_account ∷ [])) [
          | inl full ↦ cc (rw full at rest)
          | inr part ↦
              let (out, ran, made) =
                >>=-eq-ok
                  (intersect casefold permissions is_admin [] (Dict.discard fine full_account)) _
                  (rw part at rest) in
              ground (
                arith,
                get-actions out section action,
                intersect-has_action permissions is_admin (Dict.discard fine full_account) [] out
                    section action ran,
              )
        ]
