-- ===== src/Leases/Abstract.antt =====
-- The leases of src/portwyrm/tables/runtime.py against what they promise: a lock that forgets its
-- holder when its time is over.
use portwyrm.Prelude.{
  ℕ, ◌+◌, ◌≤◌, ◌≡◌, refl, arith, true, false, List, [], ◌∷◌, Option, none, some, if◌then◌else◌,
  ◌==◌, ltb, ap, Option-cases, inl, inr,
}
use portwyrm.Prelude.Dict
use portwyrm.Prelude.Text.{Text, text_eq}
use portwyrm.Leases.{
  LeaseRow, Leases, Reply, acquired, refused, renewed, not_renewed, released, lifetime, acquire,
  renew, release, Call, acquiring, renewing, releasing, call,
}

-- Who holds each name, and until when.
abbrev pub Locks : Type 0
Locks = Text → Option LeaseRow

-- What is not over at a time.
unfoldable pub live : ℕ → Option LeaseRow → Option LeaseRow
live now none = none
live now (some lease) = if ltb now lease.expires_at then some lease else none

unfoldable pub assign : Text → Option LeaseRow → Locks → Locks
assign name lease locks = λ n. if name == n then lease else locks n

-- A call at a lock that has forgotten what is over.
unfoldable pub lock_call : Call → Locks → Reply × Locks
unfolding assign lifetime
lock_call (acquiring now name holder ttl) locks =
    let lease : LeaseRow = record { holder = holder; expires_at = now + lifetime ttl } in
    let granted : Reply × Locks =
      (acquired holder lease.expires_at, assign name (some lease) locks) in
    elim (locks name) [
      | none ↦ granted
      | some own ↦
          if own.holder == holder then granted else (refused own.holder own.expires_at, locks)
    ]
lock_call (renewing now later name holder ttl) locks = elim (locks name) [
  | none ↦ (not_renewed, locks)
  | some own ↦
      if own.holder == holder
      then (
        renewed (later + lifetime ttl),
        assign name (some (record { holder = holder; expires_at = later + lifetime ttl })) locks,
      )
      else (not_renewed, locks)
]
lock_call (releasing now name holder) locks = elim (locks name) [
  | none ↦ (released false, locks)
  | some own ↦
      if own.holder == holder
      then (released true, assign name none locks)
      else (released false, locks)
]

-- The clock when a call begins and when it ends.
abbrev pub begins : Call → ℕ
begins (acquiring now _ _ _) = now
begins (renewing now _ _ _ _) = now
begins (releasing now _ _) = now

abbrev pub ends : Call → ℕ
ends (acquiring now _ _ _) = now
ends (renewing _ later _ _ _) = later
ends (releasing now _ _) = now

-- The clock never goes back.
abbrev pub IsTimed : ℕ → List Call → Type 0
IsTimed time [] = Unit
IsTimed time (c ∷ cs) = (time ≤ begins c) × (begins c ≤ ends c) × IsTimed (ends c) cs

-- A release says only that the caller does not hold the lease any more.
abbrev pub observed : Reply → Option Reply
observed (released _) = none
observed reply = some reply

unfoldable pub table_replies : List Call → Leases → List (Option Reply)
table_replies [] table = []
table_replies (c ∷ cs) table = observed (call c table).0 ∷ table_replies cs (call c table).1

-- Before each call the lock forgets what is over.
unfoldable pub lock_replies : List Call → Locks → List (Option Reply)
unfolding live
lock_replies [] locks = []
lock_replies (c ∷ cs) locks =
    let now : Locks = λ n. live (begins c) (locks n) in
    observed (lock_call c now).0 ∷ lock_replies cs (lock_call c now).1

-- From a time on, the table shows the same leases as the locks.
abbrev Shows : ℕ → Leases → Locks → Type 0
Shows time table locks =
    (t : ℕ) (name : Text) → time ≤ t → live t (Dict.get table name) ≡ live t (locks name)

live-live : (b t : ℕ) (lease : Option LeaseRow) → b ≤ t → live t (live b lease) ≡ live t lease
unfolding live
live-live b t none h = refl
live-live b t (some lease) h = ground arith

observed-call :
    (c : Call) (table : Leases) (locks : Locks)
    → ((n : Text) → live (begins c) (Dict.get table n) ≡ locks n)
    → observed (call c table).0 ≡ observed (lock_call c locks).0
unfolding call acquire renew release lock_call live
observed-call (acquiring now name holder ttl) table locks same = ground (arith, same name)
observed-call (renewing now later name holder ttl) table locks same = ground (arith, same name)
observed-call (releasing now name holder) table locks same = ground (arith, same name)

call-shows :
    (c : Call) (table : Leases) (locks : Locks) (t : ℕ) (n : Text)
    → ((n : Text) → live (begins c) (Dict.get table n) ≡ locks n)
    → begins c ≤ ends c
    → ends c ≤ t
    → live t (Dict.get (call c table).1 n) ≡ live t ((lock_call c locks).1 n)
unfolding call acquire renew release lock_call assign live
call-shows (acquiring now name holder ttl) table locks t n same h k = ground (
  arith,
  same name,
  same n,
  live-live now t (Dict.get table n) k,
  Dict.get-put table name n (record { holder = holder; expires_at = now + lifetime ttl }),
  text_eq.beq_iff name n,
)
call-shows (renewing now later name holder ttl) table locks t n same h k =
    elim (Option-cases (Dict.get table name)) [
      | inl nothing ↦
          ground
            (arith, same name, same n, live-live now t (Dict.get table n), text_eq.beq_iff name n)
      | inr (own, there) ↦ ground (
        arith,
        same name,
        same n,
        live-live now t (Dict.get table n),
        Dict.get-put table name n (record own { expires_at = later + lifetime ttl }),
        text_eq.beq_iff name n,
        text_eq.beq_iff own.holder holder,
      )
    ]
call-shows (releasing now name holder) table locks t n same h k = ground (
  arith,
  same name,
  same n,
  live-live now t (Dict.get table n) k,
  Dict.get-pop table name n,
  text_eq.beq_iff name n,
)

replies_agree :
    (cs : List Call) (time : ℕ) (table : Leases) (locks : Locks)
    → IsTimed time cs
    → Shows time table locks
    → table_replies cs table ≡ lock_replies cs locks
unfolding table_replies lock_replies
replies_agree [] time table locks timed shows = refl
replies_agree (c ∷ cs) time table locks timed shows =
    let now : Locks = λ n. live (begins c) (locks n) in
    let same = λ (n : Text). shows (begins c) n timed.0 in
    rw (observed-call c table now same) (
      ap (λ l. observed (lock_call c now).0 ∷ l)
        (replies_agree cs (ends c) (call c table).1 (lock_call c now).1 timed.2
          (λ t n k. call-shows c table now t n same timed.1 k)))

-- Whatever calls are made while the clock does not go back, the table of leases replies as a lock
-- would that forgets each holder as soon as its time is over, a release apart, whose reply also says
-- whether there was a row to delete.
pub table_replies-refine :
    (time : ℕ) (cs : List Call) (table : Leases)
    → IsTimed time cs
    → table_replies cs table ≡ lock_replies cs (λ n. Dict.get table n)
table_replies-refine time cs table timed =
    replies_agree cs time table (λ n. Dict.get table n) timed (λ t n k. refl)
