-- ===== src/Revisions/Recorded.antt =====
-- The table of revisions after any calls of `HostConfigRevisionStore.record` of
-- src/portwyrm/tables/routing.py.
use portwyrm.Prelude.{
  ℕ, ◌≡◌, ◌∙◌, refl, sym, ap, arith, Bool, true, false, not, ◌&&◌, ◌||◌, List, [], ◌∷◌, ◌++◌,
  Option, none, some, if◌then◌else◌, ◌==◌, nat_eq, is_some, any, All-append, All-map, Bool-cases,
  inl, inr,
}
use portwyrm.Prelude.Text.{Text, text_eq}
use portwyrm.Revisions.{Revision, Revisions, find_revision, record_revision, latest_revision, is_of}
use portwyrm.Revisions.State.{IsBelow, latest_revision-append}

-- A call of `record`.
pub record Recorded : Type 0 where
  pub host : ℕ
  pub generation : Text
  pub config_text : Text
  pub config_digest : Text
  pub is_applied : Bool
  pub applied_at : Option ℕ

-- The table after calls, the last one first.
unfoldable pub history : List Recorded → Revisions
unfolding record_revision
history [] = record { rows = []; next_id = 0 }
history (c ∷ earlier) =
    record_revision c.host c.generation c.config_text c.config_digest c.is_applied c.applied_at
      (history earlier)

abbrev pub is_same : ℕ → Text → Recorded → Bool
is_same host generation c = c.host == host && c.generation == generation

-- Of the calls that were the first for their generation and the host, the last one.
unfoldable pub newest : ℕ → List Recorded → Option Recorded
newest host [] = none
newest host (c ∷ earlier) =
    let before = newest host earlier in
    if c.host == host && not (any (is_same host c.generation) earlier) then some c else before

-- A row holds what a call recorded.
abbrev pub IsRowOf : Option Recorded → Option Revision → Type 0
IsRowOf none none = Unit
IsRowOf none (some r) = ⊥
IsRowOf (some c) none = ⊥
IsRowOf (some c) (some r) = (r.generation ≡ c.generation) × (r.is_applied ≡ c.is_applied)

find_revision-append :
    (host : ℕ) (generation : Text) (rows : List Revision) (new : Revision)
    → is_some (find_revision host generation (rows ++ new ∷ []))
      ≡ (is_some (find_revision host generation rows) || is_of host generation new)
unfolding find_revision
find_revision-append host generation [] new = ground arith
find_revision-append host generation (r ∷ rows) new =
    ground (arith, find_revision-append host generation rows new)

latest_revision-append_other :
    (host : ℕ) (rows : List Revision) (new : Revision)
    → (new.routing_host_id == host) ≡ false
    → latest_revision host (rows ++ new ∷ []) ≡ latest_revision host rows
unfolding latest_revision
latest_revision-append_other host [] new other = rw other refl
latest_revision-append_other host (r ∷ rows) new other =
    rw (latest_revision-append_other host rows new other) refl

history-IsBelow : (cs : List Recorded) → IsBelow (history cs)
unfolding history record_revision
history-IsBelow [] = tt
history-IsBelow (c ∷ cs) =
    elim (Bool-cases (is_some (find_revision c.host c.generation (history cs).rows))) [
      | inl there ↦ rw there (history-IsBelow cs)
      | inr absent ↦ rw absent (
          All-append _ (history cs).rows (_ ∷ [])
            (All-map (λ r below. omega (arith, below)) (history cs).rows (history-IsBelow cs))
            (omega arith, tt))
    ]

-- The row of a call.
abbrev row_of : Recorded → ℕ → Revision
row_of c id = record {
  id = id;
  routing_host_id = c.host;
  generation = c.generation;
  config_text = c.config_text;
  config_digest = c.config_digest;
  is_applied = c.is_applied;
  applied_at = c.applied_at;
}

is_same_eq :
    (host : ℕ) (generation : Text) (c : Recorded) (cs : List Recorded)
    → is_same host generation c ≡ true
    → any (is_same host generation) cs ≡ any (is_same c.host c.generation) cs
is_same_eq host generation c cs h =
    let of_host : (c.host == host) ≡ true = ground (arith, h) in
    let of_generation : (c.generation == generation) ≡ true = ground (arith, h) in
    let e : c.host ≡ host = (nat_eq.beq_iff c.host host).0 of_host in
    let e' : c.generation ≡ generation =
      (text_eq.beq_iff c.generation generation).0 of_generation in
    ap (λ i. any (is_same i generation) cs) (sym e) ∙ ap (λ g. any (is_same c.host g) cs) (sym e')

found-history :
    (host : ℕ) (generation : Text) (cs : List Recorded)
    → is_some (find_revision host generation (history cs).rows) ≡ any (is_same host generation) cs
unfolding history record_revision
found-history host generation [] = unfold find_revision in refl
found-history host generation (c ∷ cs) =
    let before = found-history host generation cs in
    elim (Bool-cases (is_some (find_revision c.host c.generation (history cs).rows))) [
      | inr absent ↦
          let added =
            find_revision-append host generation (history cs).rows
              (row_of c (history cs).next_id) in
          rw (absent, record_revision) (ground (arith, added, before))
      | inl there ↦ elim (Bool-cases (is_same host generation c)) [
        | inr other ↦ rw (there, record_revision) (ground (arith, before, other))
        | inl same ↦
            let again =
              is_same_eq host generation c cs same
              ∙ (sym (found-history c.host c.generation cs) ∙ there) in
            rw (there, record_revision) (ground (arith, before, again, same))
      ]
    ]

pub latest-history :
    (host : ℕ) (cs : List Recorded)
    → IsRowOf (newest host cs) (latest_revision host (history cs).rows)
unfolding history record_revision newest
latest-history host [] = unfold latest_revision in tt
latest-history host (c ∷ cs) = elim (Bool-cases (c.host == host)) [
  | inr other ↦ elim (Bool-cases (is_some (find_revision c.host c.generation (history cs).rows))) [
    | inl there ↦ rw (other, there, record_revision) (latest-history host cs)
    | inr absent ↦
        rw
          (
            other,
            absent,
            record_revision,
            latest_revision-append_other host (history cs).rows (row_of c (history cs).next_id)
                other,
          )
          (latest-history host cs)
  ]
  | inl own ↦
      let e : c.host ≡ host = (nat_eq.beq_iff c.host host).0 own in
      let known : is_some (find_revision c.host c.generation (history cs).rows)
          ≡ any (is_same host c.generation) cs =
        found-history c.host c.generation cs ∙ ap (λ i. any (is_same i c.generation) cs) e in
      elim (Bool-cases (any (is_same host c.generation) cs)) [
        | inl before ↦ rw (own, before, known ∙ before, record_revision) (latest-history host cs)
        | inr first ↦
            rw
              (
                own,
                first,
                known ∙ first,
                record_revision,
                latest_revision-append host (row_of c (history cs).next_id) (history cs).rows e
                    (history-IsBelow cs),
              )
              (refl, refl)
      ]
]
