-- ===== src/Leases/Exclusion.antt =====
-- A lease that is held keeps others out, in src/portwyrm/tables/runtime.py.
use portwyrm.Prelude.{
  ℕ, ◌+◌, ◌<◌, ◌≡◌, ◌≢◌, arith, ◌⊎◌, List, [], ◌∷◌, some, ◌==◌, All, Bool-cases, inl, inr,
  Option-cases,
}
use portwyrm.Prelude.Dict
use portwyrm.Prelude.Text.{Text, text_eq}
use portwyrm.Leases.{
  LeaseRow, Leases, Ttl, acquired, refused, lifetime, acquire, renew, release, Call, acquiring,
  renewing, releasing, call,
}

-- The table after calls one after the other.
unfoldable pub calls : List Call → Leases → Leases
unfolding call
calls [] table = table
calls (c ∷ cs) table = calls cs (call c table).1

-- The call is about another lease, or by someone else and before the time.
abbrev pub IsForeign : Text → Text → ℕ → Call → Type 0
IsForeign name holder end (acquiring now n h ttl) = (n ≢ name) ⊎ ((h ≢ holder) × (now < end))
IsForeign name holder end (renewing now later n h ttl) = (n ≢ name) ⊎ (h ≢ holder)
IsForeign name holder end (releasing now n h) = (n ≢ name) ⊎ (h ≢ holder)

call_foreign :
    (c : Call) (name : Text) (row : LeaseRow) (table : Leases)
    → IsForeign name row.holder row.expires_at c
    → Dict.get table name ≡ some row
    → Dict.get (call c table).1 name ≡ some row
unfolding call acquire renew release
call_foreign (acquiring now n h ttl) name row table foreign held = ground (
  arith,
  Dict.get-put table n name (record { holder = h; expires_at = now + lifetime ttl }),
  text_eq.beq_iff n name,
  text_eq.beq_iff row.holder h,
)
call_foreign (renewing now later n h ttl) name row table foreign held =
    elim (Bool-cases (n == name)) [
      | inl same ↦ ground (arith, text_eq.beq_iff n name, text_eq.beq_iff row.holder h)
      | inr other ↦ elim (Option-cases (Dict.get table n)) [
        | inl nothing ↦ ground arith
        | inr (own, there) ↦
            ground
              (arith, Dict.get-put table n name (record own { expires_at = later + lifetime ttl }))
      ]
    ]
call_foreign (releasing now n h) name row table foreign held =
    ground (arith, Dict.get-pop table n name, text_eq.beq_iff n name, text_eq.beq_iff row.holder h)

calls_foreign :
    (cs : List Call) (name : Text) (row : LeaseRow) (table : Leases)
    → All (IsForeign name row.holder row.expires_at) cs
    → Dict.get table name ≡ some row
    → Dict.get (calls cs table) name ≡ some row
unfolding calls
calls_foreign [] name row table foreign held = held
calls_foreign (c ∷ cs) name row table foreign held =
    calls_foreign cs name row (call c table).1 foreign.1
      (call_foreign c name row table foreign.0 held)

-- Once a holder is told that it acquired a lease up to a time, then whatever calls others make, and
-- whatever calls are made about other leases, another holder that tries to acquire the lease before
-- that time is told that the first one holds it, and until when.
pub acquire-exclusive :
    (now later end : ℕ) (name holder other : Text) (ttl wanted : Ttl) (table : Leases)
    (cs : List Call)
    → (acquire now name holder ttl table).0 ≡ acquired holder end
    → All (IsForeign name holder end) cs
    → other ≢ holder
    → later < end
    → let after = calls cs (acquire now name holder ttl table).1 in
      acquire later name other wanted after ≡ (refused holder end, after)
unfolding acquire
acquire-exclusive now later end name holder other ttl wanted table cs done foreign apart early =
    let row : LeaseRow = record { holder = holder; expires_at = end } in
    let taken : Dict.get (acquire now name holder ttl table).1 name ≡ some row = ground (
      arith,
      Dict.get-put table name name (record { holder = holder; expires_at = now + lifetime ttl }),
      text_eq.beq_iff name name,
    ) in
    let held = calls_foreign cs name row _ foreign taken in
    ground (arith, held, text_eq.beq_iff holder other)
