-- ===== src/Tests/Policies.antt =====
-- src/portwyrm/identity/token_policy.py, src/portwyrm/runtime/reconcile.py and
-- src/portwyrm/domain/ownership.py at concrete inputs.
use portwyrm.Prelude.{
  ◌≡◌, ◌↔◌, ◌&&◌, refl, arith, true, false, List, [], ◌∷◌, map, none, some, ◌≡◌, ◌↔◌, ◌&&◌, refl,
  arith, true, false, List, [], ◌∷◌, map, none, some, All, All,
}
use mathlib.Core.Path.{subst}
use portwyrm.Prelude.Result.{ok}
use portwyrm.Prelude.Dict
use portwyrm.Prelude.Dict.{Dict}
use portwyrm.Prelude.Text.{Text, text_eq, codes, strip, is_space, replace_char, partition}
use portwyrm.Quic.Hello.{casefold_char}
use portwyrm.Tokens.Permissions.{Grant, view, manage, actions, permission_allows, grant_of}
use portwyrm.Tokens.Scopes.{
  ScopeValue, collection, full_account, parse_scope, normalize_token_scopes,
  validate_requested_scopes, effective_token_authority, tidy, distinct_from, match_scopes,
  sort_texts,
}
use portwyrm.Tokens.Authority.{in_scopes, principal_may, effective_token_authority-exact}
use portwyrm.Tokens.Issue.{owner_may, validate_requested_scopes-owner_may}
use portwyrm.Reconcile.Store.{active_id, generation_id, stage, activate, safe_relative}
use portwyrm.Reconcile.Run.{Callbacks, World, ReconcileResult, reconcile}
use portwyrm.Reconcile.Safety.{IsSound, IsDigest, Settles, reconcile-Settles}
use portwyrm.Reconcile.Repeat.{reconcile-again}
use portwyrm.Ownership.{
  other, Meta, Ownership, owner_key, other, Meta, Ownership, owner_key, assert_owner_scoped_prune,
}
use portwyrm.Ownership.Laws.{IsNamed, IsOwnedBy, assert_owner_scoped_prune_iff}

-- Case folding of ASCII.
abbrev fold : Text → Text
fold s = map casefold_char s

abbrev asked : ScopeValue
asked = collection (codes " Streams:Read" ∷ [])

abbrev granted_scopes : List Text
granted_scopes = codes "streams:read" ∷ full_account ∷ []

abbrev permissions : Dict Text Grant
permissions = (codes "streams", view) ∷ (codes "certificates", manage) ∷ []

abbrev effective : Dict Text Grant
effective = (codes "streams", actions ((codes "read", true) ∷ [])) ∷ []

effective_token_authority-exact_example :
    (false ≡ false)
    × (permission_allows (grant_of effective (codes "streams")) (codes "read") ≡ (
        in_scopes fold (Dict.discard granted_scopes full_account) (codes "streams") (codes "read")
        && principal_may fold permissions false (codes "streams") (codes "read")))
unfolding effective_token_authority normalize_token_scopes tidy parse_scope distinct_from
    match_scopes casefold_char text_eq Dict.get Dict.put Dict.member Dict.add Dict.discard
    permission_allows replace_char strip is_space partition
effective_token_authority-exact_example =
    effective_token_authority-exact fold permissions false asked effective false granted_scopes
      (codes "streams") (codes "read") refl refl

validate_requested_scopes-owner_may_example :
    owner_may fold permissions false (codes "streams:read") ≡ true
unfolding validate_requested_scopes normalize_token_scopes tidy parse_scope distinct_from
    match_scopes casefold_char text_eq Dict.get Dict.put Dict.member Dict.add Dict.discard
    permission_allows replace_char strip is_space partition sort_texts
validate_requested_scopes-owner_may_example =
    validate_requested_scopes-owner_may fold permissions false asked granted_scopes
      (codes "streams:read") refl refl refl

abbrev pub digest : Text
digest = codes "0123456789abcdef0123456789abcdef0123456789abcdef0123456789abcdef"

-- Every reload fails.
abbrev pub callbacks : Callbacks
callbacks = record {
  hexdigest = λ message. digest;
  validator = λ id. none;
  reloader = λ history id. some (codes "exit 1");
}

abbrev working : Callbacks
working = record callbacks { reloader = λ history id. none }

pub callbacks-IsDigest : IsDigest callbacks
callbacks-IsDigest message = (ground arith, refl)

abbrev pub files : Dict Text Text
files = (codes "http/1.conf", codes "server {}") ∷ []

-- The generation `old` is active.
abbrev pub world : World
world = record {
  store = record {
    generations = (codes "old", []) ∷ [];
    active = some (codes "old\n");
    failed = [];
  };
  reloads = codes "old" ∷ [];
}

pub old_is_active : active_id world.store ≡ some (codes "old")
unfolding active_id strip is_space
old_is_active = refl

old_is_there : Dict.has world.store.generations (codes "old") ≡ true
unfolding Dict.get text_eq
old_is_there = refl

pub world-IsSound : IsSound world.store
world-IsSound id h =
    let e : codes "old" ≡ id = cc (old_is_active, h) in
    subst (λ (k : Text). Dict.has world.store.generations k ≡ true) e old_is_there

reconcile-Settles_example : Settles world (reconcile callbacks files world)
reconcile-Settles_example = reconcile-Settles callbacks files world callbacks-IsDigest world-IsSound

abbrev applied : ReconcileResult
applied = record {
  generation = codes "0123456789abcdef0123";
  previous_generation = some (codes "old");
  changed = true;
  applied = true;
}

reconcile-again_example :
    let after = (reconcile working files world).1 in
    reconcile working files after ≡ (
      ok (record {
        generation = codes "0123456789abcdef0123";
        previous_generation = some (codes "0123456789abcdef0123");
        changed = false;
        applied = true;
      }),
      after,
    )
unfolding reconcile generation_id stage activate active_id strip Dict.get Dict.put text_eq
    safe_relative is_space
reconcile-again_example =
    reconcile-again working files world applied callbacks-IsDigest world-IsSound refl

abbrev team : Ownership
team = record { managed_by = codes "npmctl"; owner = codes "web"; resource_id = codes "r1" }

team-IsNamed : IsNamed team
unfolding strip is_space
team-IsNamed = record { managed_by_lem = refl; owner_lem = refl; resource_id_lem = refl }

abbrev meta : Meta
meta = (owner_key, other) ∷ (codes "note", other) ∷ []

assert_owner_scoped_prune_iff_example :
    (assert_owner_scoped_prune (some team ∷ none ∷ []) (codes "npmctl") (codes "web") ≡ ok tt)
    ↔ All (IsOwnedBy (codes "npmctl") (codes "web")) (some team ∷ none ∷ [])
assert_owner_scoped_prune_iff_example =
    assert_owner_scoped_prune_iff (some team ∷ none ∷ []) (codes "npmctl") (codes "web")
