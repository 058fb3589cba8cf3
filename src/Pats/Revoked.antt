-- ===== src/Pats/Revoked.antt =====
-- A revoked token stays revoked, in src/portwyrm/tables/tokens.py.
use portwyrm.Prelude.{
  ℕ, ◌≡◌, refl, arith, Bool, true, false, ◌||◌, not, List, [], ◌∷◌, Option, some, if◌then◌else◌,
  ◌==◌, ◌-◌, is_some, leb, Option-cases, Bool-cases, inl, inr,
}
use portwyrm.Prelude.Result.{Result, ok, err, ◌>>=◌, >>=-eq-ok}
use portwyrm.Prelude.Text.{Text, text_eq}
use portwyrm.Pats.Rows.{
  PatRow, PatError, invalid_token, Actor, authorize_owner, by_prefix, update_row, add_row,
  by_prefix-update_row,
}
use portwyrm.Pats.Operations.{
  Fresh, IssueRequest, Verification, World, is_past, prefix_of, set_revoked, set_expiry, set_used,
  new_token, issue, revoke, refresh, rotate, touch, verify,
}
use portwyrm.Pats.Calls.{
  Call, issuing, revoking, refreshing, rotating, verifying, call, calls, IsRevoked,
  update_row-IsRevoked, add_row-IsRevoked, settle_cases,
}

refused :
    {A : Type 0} (matches gone past : Bool) (r : Result PatError A)
    → gone ≡ true
    → (if not matches || gone || past then err invalid_token else r) ≡ err invalid_token
refused true true past r h = refl
refused false gone past r h = refl
refused true false past r h = cc

module _ (w : World) (q : Text) where
  issue-IsRevoked :
      (actor : Option Actor) (now : ℕ) (fresh : Fresh) (request : IssueRequest)
      (table after : List PatRow)
      → issue w actor now fresh request table ≡ ok after
      → IsRevoked table q
      → IsRevoked after q
  unfolding issue
  issue-IsRevoked actor now fresh request table after h gone =
      let (u, allowed, rest) =
        >>=-eq-ok (authorize_owner actor request.principal_id "create") _ h in
      let (row, made, added) = >>=-eq-ok (new_token w now fresh request) _ rest in
      add_row-IsRevoked row table after q added gone

  revoke-IsRevoked :
      (actor : Option Actor) (now : ℕ) (prefix : Text) (table after : List PatRow) (b : Bool)
      → revoke w actor now prefix table ≡ ok (b, after)
      → IsRevoked table q
      → IsRevoked after q
  unfolding revoke set_revoked
  revoke-IsRevoked actor now prefix table after b h gone =
      elim (Option-cases (by_prefix table prefix)) [
        | inl absent ↦ let e : table ≡ after = cc (rw (absent, revoke) at h) in rw (← e) gone
        | inr (row, there) ↦
            let (u, allowed, rest) =
              >>=-eq-ok (authorize_owner actor row.principal_id "delete") _
                (rw (there, revoke) at h) in
            elim (Bool-cases (is_some row.revoked_at)) [
              | inl already ↦ let e : table ≡ after = cc (rw already at rest) in rw (← e) gone
              | inr live ↦
                  let e : update_row prefix (set_revoked now row.replaced_by) table ≡ after =
                    cc (rw live at rest) in
                  rw (← e) (
                    update_row-IsRevoked prefix q (set_revoked now row.replaced_by) table
                      (λ r. refl) (λ r k. refl) gone)
            ]
      ]

  refresh-IsRevoked :
      (actor : Option Actor) (now : ℕ) (prefix : Text) (expires : ℕ) (table after : List PatRow)
      → refresh w actor now prefix expires table ≡ ok after
      → IsRevoked table q
      → IsRevoked after q
  unfolding refresh set_expiry
  refresh-IsRevoked actor now prefix expires table after h gone =
      elim (Option-cases (by_prefix table prefix)) [
        | inl absent ↦ cc (rw (absent, refresh) at h)
        | inr (row, there) ↦ elim (Bool-cases (is_some row.revoked_at)) [
          | inl already ↦ cc (rw (there, already, refresh) at h)
          | inr live ↦
              let (u, allowed, rest) =
                >>=-eq-ok (authorize_owner actor row.principal_id "update") _
                  (rw (there, live, refresh) at h) in
              elim (Bool-cases (leb expires now)) [
                | inl past ↦ cc (rw past at rest)
                | inr later ↦
                    let e : update_row prefix (set_expiry expires) table ≡ after =
                      cc (rw later at rest) in
                    rw (← e) (
                      update_row-IsRevoked prefix q (set_expiry expires) table (λ r. refl)
                        (λ r k. k) gone)
              ]
        ]
      ]

  rotate-IsRevoked :
      (actor : Option Actor) (now : ℕ) (fresh : Fresh) (prefix : Text) (table after : List PatRow)
      → rotate w actor now fresh prefix table ≡ ok after
      → IsRevoked table q
      → IsRevoked after q
  unfolding rotate set_revoked
  rotate-IsRevoked actor now fresh prefix table after h gone =
      elim (Option-cases (by_prefix table prefix)) [
        | inl absent ↦ cc (rw (absent, rotate) at h)
        | inr (row, there) ↦ elim (Bool-cases (is_some row.revoked_at)) [
          | inl already ↦ cc (rw (there, already, rotate) at h)
          | inr live ↦
              let (u, allowed, rest) =
                >>=-eq-ok (authorize_owner actor row.principal_id "update") _
                  (rw (there, live, rotate) at h) in
              let (new, made, more) = >>=-eq-ok (new_token w now fresh _) _ rest in
              let (grown, added, last) = >>=-eq-ok (add_row new table) _ more in
              let e : update_row prefix (set_revoked now (some new.id)) grown ≡ after = cc last in
              rw (← e) (
                update_row-IsRevoked prefix q (set_revoked now (some new.id)) grown (λ r. refl)
                  (λ r k. refl) (add_row-IsRevoked new table grown q added gone))
        ]
      ]

  revoke-IsRevoked_self :
      (actor : Option Actor) (now : ℕ) (table after : List PatRow)
      → revoke w actor now q table ≡ ok (true, after)
      → IsRevoked after q
  unfolding revoke set_revoked
  revoke-IsRevoked_self actor now table after h = elim (Option-cases (by_prefix table q)) [
    | inl absent ↦ cc (rw (absent, revoke) at h)
    | inr (row, there) ↦
        let (u, allowed, rest) =
          >>=-eq-ok (authorize_owner actor row.principal_id "delete") _ (rw (there, revoke) at h) in
        elim (Bool-cases (is_some row.revoked_at)) [
          | inl already ↦
              let e : table ≡ after = cc (rw already at rest) in rw (← e) (row, there, already)
          | inr live ↦
              let e : update_row q (set_revoked now row.replaced_by) table ≡ after =
                cc (rw live at rest) in
              let found =
                by_prefix-update_row q q (set_revoked now row.replaced_by) table row (λ r. refl)
                  there in
              let same : (q == q) ≡ true = ground (arith, text_eq.beq_iff q q) in
              rw (← e) (set_revoked now row.replaced_by row, rw same at found, refl)
        ]
  ]

  touch-IsRevoked :
      (now : ℕ) (row : PatRow) (table : List PatRow)
      → IsRevoked table q
      → IsRevoked (touch w now row table) q
  unfolding touch set_used
  touch-IsRevoked now row table gone =
      let used =
        update_row-IsRevoked row.token_prefix q (set_used now) table (λ r. refl) (λ r k. k) gone in
      elim (Option-cases row.last_used_at) [
        | inl never ↦ rw (never, touch) used
        | inr (last, before) ↦ elim (Bool-cases (leb 300 (now - last))) [
          | inl stale ↦ rw (before, stale, touch) used
          | inr recent ↦ rw (before, recent, touch) gone
        ]
      ]

  -- A token that verifies changes at most the last use of a row.
  verify_touches :
      (now : ℕ) (token : Text) (table after : List PatRow) (v : Verification)
      → verify w now token table ≡ ok (v, after)
      → (row : PatRow) × (touch w now row table ≡ after)
  unfolding verify
  verify_touches now token table after v h = elim (Option-cases (prefix_of token)) [
    | inl bad ↦ cc (rw (bad, verify) at h)
    | inr (prefix, good) ↦ elim (Option-cases (by_prefix table prefix)) [
      | inl absent ↦ cc (rw (good, absent, verify) at h)
      | inr (row, there) ↦
          elim (Bool-cases (
            not (w.verify_api_key row.token_digest token)
            || is_some row.revoked_at
            || is_past now row.expires_at)) [
              | inl refused ↦ cc (rw (good, there, refused, verify) at h)
              | inr fine ↦ elim (Option-cases (w.principals row.principal_id)) [
                | inl nobody ↦ cc (rw (good, there, fine, nobody, verify) at h)
                | inr (owner, known) ↦ elim (Bool-cases (owner.is_disabled || owner.is_deleted)) [
                  | inl inactive ↦ cc (rw (good, there, fine, known, inactive, verify) at h)
                  | inr active ↦ (row, cc (rw (good, there, fine, known, active, verify) at h))
                ]
              ]
            ]
    ]
  ]

  -- The row of a revoked token stays there and revoked through any call.
  call-IsRevoked :
      (c : Call) (table : List PatRow) → IsRevoked table q → IsRevoked (call w c table) q
  unfolding call
  call-IsRevoked (issuing actor now fresh request) table gone =
      settle_cases (λ t. IsRevoked t q) table _ gone
        (λ after h. issue-IsRevoked actor now fresh request table after h gone)
  call-IsRevoked (revoking actor now prefix) table gone =
      settle_cases (λ t. IsRevoked t q) table (revoke w actor now prefix table >>= λ r. ok r.1) gone
        (λ after h.
          let (r, done, same) = >>=-eq-ok (revoke w actor now prefix table) (λ x. ok x.1) h in
          let e : r.1 ≡ after = cc same in
          rw (← e) (revoke-IsRevoked actor now prefix table r.1 r.0 done gone))
  call-IsRevoked (refreshing actor now prefix expires) table gone =
      settle_cases (λ t. IsRevoked t q) table _ gone
        (λ after h. refresh-IsRevoked actor now prefix expires table after h gone)
  call-IsRevoked (rotating actor now fresh prefix) table gone =
      settle_cases (λ t. IsRevoked t q) table _ gone
        (λ after h. rotate-IsRevoked actor now fresh prefix table after h gone)
  call-IsRevoked (verifying now token) table gone =
      settle_cases (λ t. IsRevoked t q) table (verify w now token table >>= λ r. ok r.1) gone
        (λ after h.
          let (r, done, same) = >>=-eq-ok (verify w now token table) (λ x. ok x.1) h in
          let e : r.1 ≡ after = cc same in
          let (row, touched) = verify_touches now token table r.1 r.0 done in
          rw (← e, ← touched) (touch-IsRevoked now row table gone))

  calls-IsRevoked :
      (cs : List Call) (table : List PatRow) → IsRevoked table q → IsRevoked (calls w cs table) q
  unfolding calls
  calls-IsRevoked [] table gone = gone
  calls-IsRevoked (c ∷ cs) table gone =
      calls-IsRevoked cs (call w c table) (call-IsRevoked c table gone)

  -- Once a revocation has said that it revoked a prefix, no token with that prefix verifies any more,
  -- at any time and after any further calls of the operations, failed ones included.
  pub revoke-final :
      (actor : Option Actor) (now later : ℕ) (token : Text) (table after : List PatRow)
      (cs : List Call)
      → revoke w actor now q table ≡ ok (true, after)
      → prefix_of token ≡ some q
      → verify w later token (calls w cs after) ≡ err invalid_token
  unfolding verify
  revoke-final actor now later token table after cs h named =
      let (row, there, gone) =
        calls-IsRevoked cs after (revoke-IsRevoked_self actor now table after h) in
      rw (named, there, verify)
        (refused (w.verify_api_key row.token_digest token) (is_some row.revoked_at) _ _ gone)
