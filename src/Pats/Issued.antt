-- ===== src/Pats/Issued.antt =====
-- A token that is issued verifies, in src/portwyrm/tables/tokens.py.
use portwyrm.Prelude.{
  ℕ, ◌≡◌, refl, arith, true, false, ◌||◌, List, [], ◌∷◌, ◌++◌, Option, none, some, All,
  Option-cases, inl, inr, nat_eq, nat_beq,
}
use portwyrm.Prelude.Result.{ok, >>=-eq-ok}
use portwyrm.Prelude.Text.{Text, text_eq, codes, partition}
use portwyrm.Pats.Rows.{PatRow, Actor, authorize_owner, by_prefix, add_row, by_prefix-append_new}
use portwyrm.Pats.Operations.{
  Fresh, IssueRequest, Owner, Verification, World, plaintext, is_past, prefix_of, new_token, issue,
  touch, verify,
}

-- No character is an underscore, as in the hexadecimal digits that the program draws.
abbrev pub IsPlain : Text → Type 0
IsPlain s = All (λ c. nat_beq c b'_' ≡ false) s

partition-append :
    (s rest : Text) → IsPlain s → partition b'_' (s ++ (b'_' ∷ rest)) ≡ (s, some rest)
unfolding partition
partition-append [] rest h = refl
partition-append (c ∷ s) rest h = rw (h.0, partition-append s rest h.1)

partition-plaintext :
    (fresh : Fresh)
    → partition b'_' (plaintext fresh)
      ≡ (codes "pwyrm", some (fresh.prefix ++ (b'_' ∷ fresh.secret)))
unfolding plaintext
partition-plaintext fresh =
    partition-append (codes "pwyrm") (fresh.prefix ++ (b'_' ∷ fresh.secret))
      (refl, (refl, (refl, (refl, (refl, tt)))))

prefix_of-plaintext :
    (fresh : Fresh) → IsPlain fresh.prefix → prefix_of (plaintext fresh) ≡ some fresh.prefix
unfolding prefix_of
prefix_of-plaintext fresh plain = ground (
  arith,
  partition-plaintext fresh,
  partition-append fresh.prefix fresh.secret plain,
  text_eq.beq_iff (codes "pwyrm") (codes "pwyrm"),
)

module _ (w : World) where
  -- What a new row holds.
  new_token_lem :
      (now : ℕ) (fresh : Fresh) (request : IssueRequest) (row : PatRow)
      → new_token w now fresh request ≡ ok row
      → (row.principal_id ≡ request.principal_id)
        × (row.token_prefix ≡ fresh.prefix)
        × (row.token_digest ≡ w.hash_api_key (plaintext fresh))
        × (row.expires_at ≡ request.expires_at)
        × (row.revoked_at ≡ none)
  unfolding new_token
  new_token_lem now fresh request row h = ground arith

  add_row_lem :
      (row : PatRow) (table after : List PatRow)
      → add_row row table ≡ ok after
      → by_prefix after row.token_prefix ≡ some row
  unfolding add_row
  add_row_lem row table after h = elim (Option-cases (by_prefix table row.token_prefix)) [
    | inr (other, taken) ↦ cc (rw (taken, add_row) at h)
    | inl free ↦
        let e : table ++ row ∷ [] ≡ after = cc (rw (free, add_row) at h) in
        rw (← e) (by_prefix-append_new table row free)
  ]

  -- The plaintext of a token that was issued verifies as its owner until the token expires, if the
  -- hash of a text verifies that text, the prefix has no underscore, and the owner is there,
  -- neither disabled nor deleted.
  pub issue-verify :
      (actor : Option Actor) (now later : ℕ) (fresh : Fresh) (request : IssueRequest)
      (table after : List PatRow) (owner : Owner)
      → ((t : Text) → w.verify_api_key (w.hash_api_key t) t ≡ true)
      → IsPlain fresh.prefix
      → issue w actor now fresh request table ≡ ok after
      → w.principals request.principal_id ≡ some owner
      → (owner.is_disabled || owner.is_deleted) ≡ false
      → is_past later request.expires_at ≡ false
      → (v : Verification) × (used : List PatRow) × (verify w later (plaintext fresh) after
          ≡ ok (v, used))
        × (v.principal_id ≡ request.principal_id)
        × (v.is_admin ≡ owner.is_admin)
  unfolding issue verify
  issue-verify actor now later fresh request table after owner hashes plain h there active
        open_lem =
      let (u, allowed, rest) =
        >>=-eq-ok (authorize_owner actor request.principal_id "create") _ h in
      let (row, made, added) = >>=-eq-ok (new_token w now fresh request) _ rest in
      let (id, prefix, digest, expiry, live) = new_token_lem now fresh request row made in
      let found : by_prefix after fresh.prefix ≡ some row =
        rw (← prefix) (add_row_lem row table after added) in
      let checks : w.verify_api_key row.token_digest (plaintext fresh) ≡ true =
        rw digest (hashes (plaintext fresh)) in
      let known : w.principals row.principal_id ≡ some owner = rw id there in
      (
        record {
          principal_id = row.principal_id;
          email = owner.email;
          display_name = owner.display_name;
          is_admin = owner.is_admin;
          scopes = row.scopes;
        },
        touch w later row after,
        rw (
          prefix_of-plaintext fresh plain,
          found,
          checks,
          live,
          expiry,
          open_lem,
          known,
          active,
          verify,
        ),
        id,
        refl,
      )
