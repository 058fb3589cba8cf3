-- ===== src/Lifecycle/Grants.antt =====
-- What the grants of a caller allow, in `enforce_authorization` of src/portwyrm/tables/lifecycle.py.
use portwyrm.Prelude.{
  ◌≡◌, ◌↔◌, ◌⊎◌, ◌∙◌, refl, sym, ap, Bool, true, false, Option, none, some, String, string_eq,
  nat_eq, get_or_else, Option-cases, inl, inr,
}
use portwyrm.Prelude.Dict
use portwyrm.Prelude.Dict.{Dict}
use portwyrm.Prelude.Text.{Text, text_eq, codes}
use portwyrm.Tokens.Permissions.{
  Grant, manage, view, hidden, missing, other, actions, permission_allows,
}
use portwyrm.Lifecycle.Context.{Principal}
use portwyrm.Lifecycle.Authorize.{caller_grant}

-- The caller's permissions hold a grant for the section, which is the one to manage, the one to view
-- where the action is to read, or a map that allows the action.
abbrev pub Grants : Principal → String → String → Type 0
Grants p section action =
    (permissions : Dict String Grant) × (grant : Grant) × (p.permissions ≡ some permissions)
    × (Dict.get permissions section ≡ some grant)
    × ((grant ≡ manage)
        ⊎ (((grant ≡ view) × (codes action ≡ codes "read"))
            ⊎ ((allowed : Dict Text Bool) × (grant ≡ actions allowed)
                × (Dict.get allowed (codes action) ≡ some true))))

allowed_by :
    (grant : Grant) (action : String)
    → permission_allows grant (codes action) ≡ true
    → (grant ≡ manage)
      ⊎ (((grant ≡ view) × (codes action ≡ codes "read"))
          ⊎ ((allowed : Dict Text Bool) × (grant ≡ actions allowed)
              × (Dict.get allowed (codes action) ≡ some true)))
unfolding permission_allows
allowed_by manage action h = inl refl
allowed_by view action h = inr (inl (refl, (text_eq.beq_iff (codes action) (codes "read")).0 h))
allowed_by hidden action h = cc h
allowed_by missing action h = cc h
allowed_by other action h = cc h
allowed_by (actions allowed) action h =
    inr (inr (allowed, refl, found (Dict.get allowed (codes action)) h))
  where
    found : (o : Option Bool) → get_or_else o false ≡ true → o ≡ some true
    found none h = cc h
    found (some b) h = ap some h

permission_allows_manage : (action : Text) → permission_allows manage action ≡ true
unfolding permission_allows
permission_allows_manage action = refl

permission_allows_hidden : (action : Text) → permission_allows hidden action ≡ false
unfolding permission_allows
permission_allows_hidden action = refl

permission_allows_view :
    (action : Text) → action ≡ codes "read" → permission_allows view action ≡ true
unfolding permission_allows
permission_allows_view action e = (text_eq.beq_iff action (codes "read")).1 e

permission_allows_actions :
    (allowed : Dict Text Bool) (action : Text)
    → Dict.get allowed action ≡ some true
    → permission_allows (actions allowed) action ≡ true
unfolding permission_allows
permission_allows_actions allowed action e = rw e refl

pub caller_grant-Grants :
    (p : Principal) (section action : String)
    → (permission_allows (caller_grant p section) (codes action) ≡ true) ↔ Grants p section action
caller_grant-Grants p section action = (there, back)
  where
    there :
        permission_allows (caller_grant p section) (codes action) ≡ true → Grants p section action
    there h = elim (Option-cases p.permissions) [
      | inl nothing ↦ cc (sym (permission_allows_hidden (codes action)) ∙ rw nothing at h)
      | inr (permissions, some_of) ↦ elim (Option-cases (Dict.get permissions section)) [
        | inl absent ↦
            cc (sym (permission_allows_hidden (codes action)) ∙ rw (some_of, absent) at h)
        | inr (grant, found) ↦
            (permissions, grant, some_of, found, allowed_by grant action (rw (some_of, found) at h))
      ]
    ]

    back :
        Grants p section action → permission_allows (caller_grant p section) (codes action) ≡ true
    back (permissions, grant, some_of, found, inl all) =
        rw (some_of, found, all) (permission_allows_manage (codes action))
    back (permissions, grant, some_of, found, inr (inl (views, reads))) =
        rw (some_of, found, views) (permission_allows_view (codes action) reads)
    back (permissions, grant, some_of, found, inr (inr (allowed, e, listed))) =
        rw (some_of, found, e) (permission_allows_actions allowed (codes action) listed)
