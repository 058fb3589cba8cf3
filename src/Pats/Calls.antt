-- ===== src/Pats/Calls.antt =====
-- Calls of the operations of src/portwyrm/tables/tokens.py one after the other, and revoked rows.
use portwyrm.Prelude.{
  ℕ, ◌≡◌, refl, true, List, [], ◌∷◌, ◌++◌, Option, some, ◌==◌, is_some, Bool-cases, inl, inr,
}
use portwyrm.Prelude.Result.{Result, ok, err, ◌>>=◌}
use portwyrm.Prelude.Text.{Text, text_eq}
use portwyrm.Pats.Rows.{
  PatRow, PatError, Actor, by_prefix, update_row, add_row, by_prefix-update_row, by_prefix-append,
}
use portwyrm.Pats.Operations.{Fresh, IssueRequest, World, issue, revoke, refresh, rotate, verify}

-- A call of an operation; what fails leaves the table alone.
pub data Call : Type 0 where
  issuing : Option Actor → ℕ → Fresh → IssueRequest → Call
  revoking : Option Actor → ℕ → Text → Call
  refreshing : Option Actor → ℕ → Text → ℕ → Call
  rotating : Option Actor → ℕ → Fresh → Text → Call
  verifying : ℕ → Text → Call

-- The table after a call that may fail.
abbrev pub settle : List PatRow → Result PatError (List PatRow) → List PatRow
settle table (err _) = table
settle table (ok after) = after

unfoldable pub call : World → Call → List PatRow → List PatRow
call w (issuing actor now fresh request) table =
    settle table (issue w actor now fresh request table)
call w (revoking actor now prefix) table =
    settle table (revoke w actor now prefix table >>= λ r. ok r.1)
call w (refreshing actor now prefix expires) table =
    settle table (refresh w actor now prefix expires table)
call w (rotating actor now fresh prefix) table =
    settle table (rotate w actor now fresh prefix table)
call w (verifying now token) table = settle table (verify w now token table >>= λ r. ok r.1)

unfoldable pub calls : World → List Call → List PatRow → List PatRow
unfolding call
calls w [] table = table
calls w (c ∷ rest) table = calls w rest (call w c table)

-- The row with the prefix is there and revoked.
abbrev pub IsRevoked : List PatRow → Text → Type 0
IsRevoked table prefix =
    (row : PatRow) × (by_prefix table prefix ≡ some row) × (is_some row.revoked_at ≡ true)

pub update_row-IsRevoked :
    (prefix q : Text) (f : PatRow → PatRow) (table : List PatRow)
    → ((r : PatRow) → (f r).token_prefix ≡ r.token_prefix)
    → ((r : PatRow) → is_some r.revoked_at ≡ true → is_some (f r).revoked_at ≡ true)
    → IsRevoked table q
    → IsRevoked (update_row prefix f table) q
update_row-IsRevoked prefix q f table keeps stays (row, there, gone) =
    let found = by_prefix-update_row prefix q f table row keeps there in
    elim (Bool-cases (prefix == q)) [
      | inl same ↦ (f row, rw same at found, stays row gone)
      | inr other ↦ (row, rw other at found, gone)
    ]

pub add_row-IsRevoked :
    (new : PatRow) (table after : List PatRow) (q : Text)
    → add_row new table ≡ ok after
    → IsRevoked table q
    → IsRevoked after q
unfolding add_row
add_row-IsRevoked new table after q h (row, there, gone) =
    elim (Bool-cases (is_some (by_prefix table new.token_prefix))) [
      | inl taken ↦ cc (rw taken at h)
      | inr free ↦
          let e : table ++ new ∷ [] ≡ after = cc (rw free at h) in
          rw (← e) (row, by_prefix-append table new row q there, gone)
    ]

-- What holds before and after success holds after the call.
pub settle_cases :
    (P : List PatRow → Type 0) (table : List PatRow) (r : Result PatError (List PatRow))
    → P table
    → ((after : List PatRow) → r ≡ ok after → P after)
    → P (settle table r)
settle_cases P table (err _) before success = before
settle_cases P table (ok after) before success = success after refl
