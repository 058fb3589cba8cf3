-- ===== src/Generations/Active.antt =====
-- The operations on the generations in src/portwyrm/tables/runtime.py keep the rows distinct, and say
-- which of them are active.
use portwyrm.Prelude.{
  ℕ, ◌≡◌, refl, subst, arith, Bool, true, false, List, [], ◌∷◌, ◌++◌, Option, none, some,
  if◌then◌else◌, ◌==◌, map, is_some, inl, inr, Option-cases, All-append, All, ◌≢◌, suc, ◌==◌,
  nat_eq,
}
use portwyrm.Prelude.Result.{ok}
use portwyrm.Prelude.Text.{Text, text_eq}
use portwyrm.Generations.{
  GenerationRow, Table, find, update, Values, set_values, record_generation, active_name,
  set_active, deactivate, activate,
}
use portwyrm.Generations.Rows.{
  IsValid, KeepsKeys, change_named, update_found, find-map, map-IsValid, append-IsValid, Marks,
  Marks-map, find-none,
}

abbrev pub Has : Text → List GenerationRow → Type 0
Has generation rows = is_some (find generation rows) ≡ true

Has-map :
    (k : Text) (f : GenerationRow → GenerationRow) (rows : List GenerationRow)
    → KeepsKeys f
    → Has k rows
    → Has k (map f rows)
Has-map k f rows keeps h = ground (arith, find-map k f rows keeps)

Has-append :
    (k : Text) (rows : List GenerationRow) (new : GenerationRow)
    → Has k rows
    → Has k (rows ++ new ∷ [])
unfolding find
Has-append k [] new h = cc
Has-append k (r ∷ rows) new h = ground (arith, Has-append k rows new)

Has-append_new :
    (rows : List GenerationRow) (new : GenerationRow) → Has new.generation (rows ++ new ∷ [])
unfolding find
Has-append_new [] new = ground (arith, text_eq.beq_iff new.generation new.generation)
Has-append_new (r ∷ rows) new = ground (arith, Has-append_new rows new)

-- The table is valid, the active rows are those that pass the test, and rows that were there are.
pub record Leaves (before after : Table) (p : Text → Bool) : Type 0 where
  pub valid : IsValid after
  pub marks : Marks p after.rows
  pub kept : (k : Text) → Has k before.rows → Has k after.rows

-- A change of the row of one generation.
change-Leaves :
    (p q : Text → Bool) (generation : Text) (f : GenerationRow → GenerationRow) (t : Table)
    (row : GenerationRow)
    → KeepsKeys f
    → ((r : GenerationRow)
        → r.is_active ≡ p r.generation
        → (change_named generation f r).is_active ≡ q (change_named generation f r).generation)
    → IsValid t
    → Marks p t.rows
    → find generation t.rows ≡ some row
    → Leaves t (record t { rows = update row.id f t.rows }) q
change-Leaves p q generation f t row keeps step valid marks there =
    rw (update_found generation f t.rows row valid.distinct there) (record {
      valid = map-IsValid g t same valid;
      marks = Marks-map p q g t.rows step marks;
      kept = λ k h. Has-map k g t.rows same h;
    })
  where
    g : GenerationRow → GenerationRow
    g = change_named generation f

    same : KeepsKeys g
    same r = ground (arith, (keeps r).0, (keeps r).1)

-- The test that a record of values leaves.
abbrev pub marked_as : Values → (Text → Bool) → Text → Bool
marked_as values p g = if g == values.generation then values.is_active else p g

Marks-away :
    (p : Text → Bool) (values : Values) (rows : List GenerationRow)
    → All (λ r. r.generation ≢ values.generation) rows
    → Marks p rows
    → Marks (marked_as values p) rows
Marks-away p values [] away h = tt
Marks-away p values (r ∷ rows) away h = (
  ground (arith, h.0, away.0, text_eq.beq_iff r.generation values.generation),
  Marks-away p values rows away.1 h.1,
)

append-Leaves :
    (p : Text → Bool) (values : Values) (new : GenerationRow) (t : Table)
    → new.id ≡ t.next_id
    → new.generation ≡ values.generation
    → new.is_active ≡ values.is_active
    → find new.generation t.rows ≡ none
    → IsValid t
    → Marks p t.rows
    → Leaves t (record { rows = t.rows ++ new ∷ []; next_id = suc t.next_id }) (marked_as values p)
append-Leaves p values new t numbered named flagged absent valid marks = record {
  valid = append-IsValid t new valid numbered absent;
  marks =
      All-append (λ r. r.is_active ≡ marked_as values p r.generation) t.rows (new ∷ [])
        (Marks-away p values t.rows
          (subst (λ g. All (λ r. r.generation ≢ g) t.rows) named
            (find-none new.generation t.rows absent))
          marks)
        (ground (arith, text_eq.beq_iff new.generation values.generation), tt);
  kept = λ k h. Has-append k t.rows new h;
}

-- Recording a generation changes what is said of it, and nothing else.
pub record_generation-Leaves :
    (p : Text → Bool) (values : Values) (t : Table)
    → IsValid t
    → Marks p t.rows
    → Leaves t (record_generation values t).1 (marked_as values p)
unfolding record_generation set_values
record_generation-Leaves p values t valid marks =
    elim (Option-cases (find values.generation t.rows)) [
      | inl absent ↦
          rw (absent, record_generation)
            (append-Leaves p values _ t refl refl refl absent valid marks)
      | inr (row, there) ↦
          rw (there, record_generation)
            (change-Leaves p (marked_as values p) values.generation (set_values values) t row
              (λ r. (refl, refl))
              (λ r h. ground (arith, text_eq.beq_iff r.generation values.generation)) valid marks
              there)
    ]

pub record_generation-Has :
    (values : Values) (t : Table) → Has values.generation (record_generation values t).1.rows
unfolding record_generation set_values update
record_generation-Has values t = elim (Option-cases (find values.generation t.rows)) [
  | inl absent ↦ rw (absent, record_generation) (Has-append_new t.rows _)
  | inr (row, there) ↦
      rw (there, record_generation)
        (Has-map values.generation (λ r. if r.id == row.id then set_values values r else r) t.rows
          (λ r. ground arith) (rw there refl))
]

deactivated : (rows : List GenerationRow) → Marks (λ g. false) (map deactivate rows)
unfolding deactivate
deactivated [] = tt
deactivated (r ∷ rows) = (refl, deactivated rows)

module _ (now : ℕ) (generation : Text) (t : Table) (valid : IsValid t) where
  activated-Leaves :
      (row : GenerationRow)
      → find generation t.rows ≡ some row
      → Leaves t
          (record t {
            rows = update row.id (set_active now (active_name t.rows)) (map deactivate t.rows);
          })
          (λ g. generation == g)
  unfolding set_active deactivate
  activated-Leaves row there =
      let idle : Table = record t { rows = map deactivate t.rows } in
      let found : find generation idle.rows ≡ some (deactivate row) =
        ground (arith, find-map generation deactivate t.rows (λ r. (refl, refl))) in
      let changed =
        change-Leaves (λ g. false) (λ g. generation == g) generation
          (set_active now (active_name t.rows)) idle (deactivate row) (λ r. (refl, refl))
          (λ r k. ground (
            arith,
            text_eq.beq_iff r.generation generation,
            text_eq.beq_iff generation r.generation,
          ))
          (map-IsValid deactivate t (λ r. (refl, refl)) valid) (deactivated t.rows) found in
      record {
        valid = changed.valid;
        marks = changed.marks;
        kept = λ k h. changed.kept k (Has-map k deactivate t.rows (λ r. (refl, refl)) h);
      }

  -- After an activation the generation is the only active one.
  pub activate-Leaves :
      (previous : Option Text) (after : Table)
      → activate now generation t ≡ ok (previous, after)
      → Leaves t after (λ g. generation == g)
  unfolding activate
  activate-Leaves previous after h = elim (Option-cases (find generation t.rows)) [
    | inl absent ↦ cc (rw (absent, activate) at h)
    | inr (row, there) ↦
        let e : record t {
          rows = update row.id (set_active now (active_name t.rows)) (map deactivate t.rows);
        }
            ≡ after =
          cc (rw (there, activate) at h) in
        subst (λ a. Leaves t a (λ g. generation == g)) e (activated-Leaves row there)
  ]

  pub activate_total :
      Has generation t.rows
      → (previous : Option Text) × (after : Table) × (activate now generation t
          ≡ ok (previous, after))
  unfolding activate
  activate_total h = elim (Option-cases (find generation t.rows)) [
    | inl absent ↦ cc (rw absent at h)
    | inr (row, there) ↦ (
      active_name t.rows,
      record t {
        rows = update row.id (set_active now (active_name t.rows)) (map deactivate t.rows);
      },
      rw (there, activate),
    )
  ]
