-- ===== src/Tests/Pats.antt =====
-- src/portwyrm/tables/tokens.py at concrete inputs.
use portwyrm.Prelude.{◌≡◌, refl, true, false, List, [], ◌∷◌, none, some, ◌==◌}
use portwyrm.Prelude.Dict
use portwyrm.Prelude.Result.{ok, err}
use portwyrm.Prelude.Text.{text_eq, codes, strip, is_space, replace_char, partition}
use portwyrm.Tokens.Scopes.{normalize_token_scopes, distinct_from, tidy, sort_texts}
use portwyrm.Pats.Rows.{PatRow, invalid_token, authorize_owner, by_prefix, update_row, add_row}
use portwyrm.Pats.Operations.{
  Fresh, IssueRequest, Owner, Verification, World, plaintext, prefix_of, issue, revoke, verify,
}
use portwyrm.Pats.Calls.{Call, refreshing, calls}
use portwyrm.Pats.Revoked.{revoke-final}
use portwyrm.Pats.Issued.{issue-verify}

abbrev owner : Owner
owner = record {
  email = codes "a@b";
  display_name = codes "Ann";
  is_admin = true;
  is_disabled = false;
  is_deleted = false;
}

-- A text is its own hash, and case folding does nothing.
abbrev world : World
world = record {
  casefold = λ t. t;
  hash_api_key = λ t. t;
  verify_api_key = λ digest t. digest == t;
  principals = λ id. some owner;
}

abbrev fresh : Fresh
fresh = record { prefix = codes "0a"; secret = codes "xyz"; id = 7 }

abbrev request : IssueRequest
request = record {
  principal_id = 1;
  name = codes "ci";
  scopes = codes "user" ∷ [];
  expires_at = some 500;
}

abbrev row : PatRow
row = record {
  id = 7;
  principal_id = 1;
  name = codes "ci";
  token_prefix = codes "0a";
  token_digest = codes "pwyrm_0a_xyz";
  scopes = codes "user" ∷ [];
  expires_at = some 500;
  last_used_at = none;
  revoked_at = none;
  replaced_by = none;
}

issue-verify_example :
    (v : Verification) × (used : List PatRow) × (verify world 200 (plaintext fresh) (row ∷ [])
      ≡ ok (v, used))
    × (v.principal_id ≡ 1)
    × (v.is_admin ≡ true)
unfolding issue normalize_token_scopes tidy distinct_from sort_texts add_row by_prefix strip
    is_space replace_char text_eq Dict.add Dict.member Dict.discard authorize_owner
issue-verify_example =
    issue-verify world none 100 200 fresh request [] (row ∷ []) owner
      (λ t. (text_eq.beq_iff t t).1 refl) (refl, (refl, tt)) refl refl refl refl

abbrev extension : List Call
extension = refreshing none 150 (codes "0a") 900 ∷ []

revoke-final_example :
    verify world 160
      (codes "pwyrm_0a_xyz")
      (calls world extension (record row { revoked_at = some 120 } ∷ []))
    ≡ err invalid_token
unfolding revoke by_prefix update_row text_eq prefix_of partition authorize_owner
revoke-final_example =
    revoke-final world (codes "0a") none 120 160 (codes "pwyrm_0a_xyz") (row ∷ [])
      (record row { revoked_at = some 120 } ∷ []) extension refl refl
