-- ===== src/Leases.antt =====
-- `LeaseStore` of src/portwyrm/tables/runtime.py: named leases with a holder and an end.
use portwyrm.Prelude.{
  ℕ, ◌+◌, Bool, true, false, not, ◌&&◌, Option, none, some, if◌then◌else◌, ◌==◌, nat_eq, leb, ltb,
}
use portwyrm.Prelude.Dict
use portwyrm.Prelude.Dict.{Dict}
use portwyrm.Prelude.Text.{Text, text_eq}
pub mod Abstract
pub mod Exclusion

pub record LeaseRow : Type 0 where
  pub holder : Text
  pub expires_at : ℕ

-- The rows by their names, which are unique.
abbrev pub Leases : Type 0
Leases = Dict Text LeaseRow

-- `ttl_seconds` of a payload.
pub data Ttl : Type 0 where
  absent negative : Ttl
  seconds : ℕ → Ttl

-- `max(1, int(payload.get("ttl_seconds") or 60))`
unfoldable pub lifetime : Ttl → ℕ
lifetime absent = 60
lifetime negative = 1
lifetime (seconds n) = if n == 0 then 60 else n

-- What an operation returns.
pub data Reply : Type 0 where
  acquired refused : Text → ℕ → Reply
  renewed : ℕ → Reply
  not_renewed : Reply
  released : Bool → Reply

unfoldable pub acquire : ℕ → Text → Text → Ttl → Leases → Reply × Leases
unfolding lifetime
acquire now name holder ttl table =
    let expires_at = now + lifetime ttl in
    let granted : Reply × Leases = (
      acquired holder expires_at,
      Dict.put table name (record { holder = holder; expires_at = expires_at }),
    ) in
    elim (Dict.get table name) [
      | none ↦ granted
      | some row ↦
          if ltb now row.expires_at && not (row.holder == holder)
          then (refused row.holder row.expires_at, table)
          else granted
    ]

-- The clock is read twice: for the test, and for the new end.
unfoldable pub renew : ℕ → ℕ → Text → Text → Ttl → Leases → Reply × Leases
unfolding lifetime
renew now later name holder ttl table = elim (Dict.get table name) [
  | none ↦ (not_renewed, table)
  | some row ↦
      if not (row.holder == holder)
      then (not_renewed, table)
      else if leb row.expires_at now
      then (not_renewed, table)
      else (
        renewed (later + lifetime ttl),
        Dict.put table name (record row { expires_at = later + lifetime ttl }),
      )
]

unfoldable pub release : Text → Text → Leases → Reply × Leases
release name holder table = elim (Dict.get table name) [
  | none ↦ (released false, table)
  | some row ↦
      if row.holder == holder then (released true, Dict.pop table name) else (released false, table)
]

-- A call of an operation, with the clock that it reads.
pub data Call : Type 0 where
  acquiring : ℕ → Text → Text → Ttl → Call
  renewing : ℕ → ℕ → Text → Text → Ttl → Call
  releasing : ℕ → Text → Text → Call

unfoldable pub call : Call → Leases → Reply × Leases
call (acquiring now name holder ttl) table = acquire now name holder ttl table
call (renewing now later name holder ttl) table = renew now later name holder ttl table
call (releasing now name holder) table = release name holder table
