-- ===== src/Generations/Rows.antt =====
-- The rows of the generations in src/portwyrm/tables/runtime.py: their keys, and which are active.
use portwyrm.Prelude.{
  ℕ, ◌<◌, ◌≡◌, ◌≢◌, ◌∙◌, refl, sym, ap, subst, arith, Bool, List, [], ◌∷◌, ◌++◌, none, some,
  if◌then◌else◌, ◌==◌, nat_eq, suc, map, Bool-cases, inl, inr, All, All-append,
}
use portwyrm.Prelude.Text.{Text, text_eq}
use portwyrm.Generations.{GenerationRow, Table, find, update}

-- Neither the id nor the generation of the row is one of the others'.
abbrev pub IsNew : ℕ → Text → List GenerationRow → Type 0
IsNew id generation rows = All (λ r. (r.id ≢ id) × (r.generation ≢ generation)) rows

abbrev pub AreDistinct : List GenerationRow → Type 0
AreDistinct [] = Unit
AreDistinct (row ∷ rows) = IsNew row.id row.generation rows × AreDistinct rows

-- The ids and the generations of the rows are all different, and the next id is new.
pub record IsValid (t : Table) : Type 0 where
  pub distinct : AreDistinct t.rows
  pub below : All (λ r. r.id < t.next_id) t.rows

-- An assignment that keeps the id and the generation.
abbrev pub KeepsKeys : (GenerationRow → GenerationRow) → Type 0
KeepsKeys f = (r : GenerationRow) → ((f r).id ≡ r.id) × ((f r).generation ≡ r.generation)

abbrev pub change_named : Text → (GenerationRow → GenerationRow) → GenerationRow → GenerationRow
change_named generation f row = if row.generation == generation then f row else row

-- None of new keys' rows changes.
update_new :
    (id : ℕ) (generation : Text) (f : GenerationRow → GenerationRow) (rows : List GenerationRow)
    → IsNew id generation rows
    → update id f rows ≡ map (change_named generation f) rows
unfolding update
update_new id generation f [] h = refl
update_new id generation f (r ∷ rows) h =
    ground (arith, update_new id generation f rows h.1, text_eq.beq_iff r.generation generation)

found_apart :
    (id : ℕ) (named generation : Text) (rows : List GenerationRow) (row : GenerationRow)
    → IsNew id named rows
    → find generation rows ≡ some row
    → row.id ≢ id
unfolding find
found_apart id named generation [] row h k = cc
found_apart id named generation (r ∷ rows) row h k =
    elim (Bool-cases (r.generation == generation)) [
      | inl here ↦ let e : r ≡ row = ground arith in rw (← e) (h.0.0)
      | inr other ↦ found_apart id named generation rows row h.1 (ground arith)
    ]

-- Where the rows are distinct, the id of a row that was found by its generation means just that row.
pub update_found :
    (generation : Text) (f : GenerationRow → GenerationRow) (rows : List GenerationRow)
    (row : GenerationRow)
    → AreDistinct rows
    → find generation rows ≡ some row
    → update row.id f rows ≡ map (change_named generation f) rows
unfolding find update
update_found generation f [] row d h = cc
update_found generation f (r ∷ rows) row d h = elim (Bool-cases (r.generation == generation)) [
  | inl here ↦
      let e : r ≡ row = ground arith in
      let named : r.generation ≡ generation = (text_eq.beq_iff r.generation generation).0 here in
      let new : IsNew r.id generation rows = subst (λ g. IsNew r.id g rows) named (d.0) in
      let rest = update_new r.id generation f rows new in
      let own : (if r.id == r.id then f r else r) ≡ change_named generation f r = ground arith in
      subst (λ q. update q.id f (r ∷ rows) ≡ map (change_named generation f) (r ∷ rows)) e
        (ap (λ x. x ∷ map (λ x. if x.id == r.id then f x else x) rows) own
          ∙ ap (λ l. change_named generation f r ∷ l) rest)
  | inr other ↦
      let apart = found_apart r.id r.generation generation rows row d.0 (ground arith) in
      ground (arith, update_found generation f rows row d.1, apart)
]

pub find-map :
    (generation : Text) (f : GenerationRow → GenerationRow) (rows : List GenerationRow)
    → KeepsKeys f
    → find generation (map f rows)
      ≡ (elim (find generation rows) [ none ↦ none | some r ↦ some (f r) ])
unfolding find
find-map generation f [] keeps = refl
find-map generation f (r ∷ rows) keeps =
    ground (arith, find-map generation f rows keeps, (keeps r).1)

IsNew-map :
    (id : ℕ) (generation : Text) (f : GenerationRow → GenerationRow) (rows : List GenerationRow)
    → KeepsKeys f
    → IsNew id generation rows
    → IsNew id generation (map f rows)
IsNew-map id generation f [] keeps h = tt
IsNew-map id generation f (r ∷ rows) keeps h =
    ((rw (keeps r).0 (h.0.0), rw (keeps r).1 (h.0.1)), IsNew-map id generation f rows keeps h.1)

AreDistinct-map :
    (f : GenerationRow → GenerationRow) (rows : List GenerationRow)
    → KeepsKeys f
    → AreDistinct rows
    → AreDistinct (map f rows)
AreDistinct-map f [] keeps d = tt
AreDistinct-map f (r ∷ rows) keeps d = (
  rw ((keeps r).0, (keeps r).1) (IsNew-map r.id r.generation f rows keeps d.0),
  AreDistinct-map f rows keeps d.1,
)

below-map :
    (f : GenerationRow → GenerationRow) (n : ℕ) (rows : List GenerationRow)
    → KeepsKeys f
    → All (λ r. r.id < n) rows
    → All (λ r. r.id < n) (map f rows)
below-map f n [] keeps h = tt
below-map f n (r ∷ rows) keeps h = (rw (keeps r).0 (h.0), below-map f n rows keeps h.1)

-- The change of one row by its generation.
pub map-IsValid :
    (f : GenerationRow → GenerationRow) (t : Table)
    → KeepsKeys f
    → IsValid t
    → IsValid (record t { rows = map f t.rows })
map-IsValid f t keeps valid = record {
  distinct = AreDistinct-map f t.rows keeps valid.distinct;
  below = below-map f t.next_id t.rows keeps valid.below;
}

pub find-none :
    (generation : Text) (rows : List GenerationRow)
    → find generation rows ≡ none
    → All (λ r. r.generation ≢ generation) rows
unfolding find
find-none generation [] h = tt
find-none generation (r ∷ rows) h = (
  ground (arith, text_eq.beq_iff r.generation generation),
  find-none generation rows (ground arith),
)

AreDistinct-append :
    (rows : List GenerationRow) (new : GenerationRow)
    → AreDistinct rows
    → All (λ r. r.id < new.id) rows
    → All (λ r. r.generation ≢ new.generation) rows
    → AreDistinct (rows ++ new ∷ [])
AreDistinct-append [] new d b n = (tt, tt)
AreDistinct-append (r ∷ rows) new d b n = (
  All-append (λ q. (q.id ≢ r.id) × (q.generation ≢ r.generation)) rows (new ∷ []) d.0
      ((λ e. absurd (omega (arith, b.0)), λ e. n.0 (sym e)), tt),
  AreDistinct-append rows new d.1 b.1 n.1,
)

below_suc :
    (n : ℕ) (rows : List GenerationRow) → All (λ r. r.id < n) rows → All (λ r. r.id < suc n) rows
below_suc n [] h = tt
below_suc n (r ∷ rows) h = (omega (arith, h.0), below_suc n rows h.1)

-- A row with the next id and a generation that is not there.
pub append-IsValid :
    (t : Table) (new : GenerationRow)
    → IsValid t
    → new.id ≡ t.next_id
    → find new.generation t.rows ≡ none
    → IsValid (record { rows = t.rows ++ new ∷ []; next_id = suc t.next_id })
append-IsValid t new valid numbered h = record {
  distinct =
      AreDistinct-append t.rows new valid.distinct
        (subst (λ n. All (λ r. r.id < n) t.rows) (sym numbered) (valid.below))
        (find-none new.generation t.rows h);
  below =
      All-append (λ r. r.id < suc t.next_id) t.rows (new ∷ [])
        (below_suc t.next_id t.rows valid.below) (omega arith, tt);
}

-- The active rows are those whose generation passes a test.
abbrev pub Marks : (Text → Bool) → List GenerationRow → Type 0
Marks p rows = All (λ r. r.is_active ≡ p r.generation) rows

pub Marks-map :
    (p q : Text → Bool) (f : GenerationRow → GenerationRow) (rows : List GenerationRow)
    → ((r : GenerationRow) → r.is_active ≡ p r.generation → (f r).is_active ≡ q (f r).generation)
    → Marks p rows
    → Marks q (map f rows)
Marks-map p q f [] step h = tt
Marks-map p q f (r ∷ rows) step h = (step r h.0, Marks-map p q f rows step h.1)
