-- ===== src/Generations.antt =====
-- `GenerationStore` of src/portwyrm/tables/runtime.py: the table of rendered generations.
use portwyrm.Prelude.{
  ℕ, ◌+◌, Bool, true, false, not, List, [], ◌∷◌, ◌++◌, Option, none, some, if◌then◌else◌, ◌==◌,
  nat_eq, map, get_or_else, is_empty, suc,
}
use portwyrm.Prelude.Result.{Result, ok, err, ◌>>=◌}
use portwyrm.Prelude.Dict
use portwyrm.Prelude.Dict.{Dict}
use portwyrm.Prelude.Text.{Text, text_eq, codes}
use portwyrm.Tokens.Scopes.{sort_texts}
pub mod Rows
pub mod Active
pub mod Changes

pub record GenerationRow : Type 0 where
  pub id : ℕ
  pub generation : Text
  pub previous_generation : Option Text
  pub files : Dict Text Text
  pub state : Text
  pub is_active : Bool
  pub diagnostic : Option Text
  pub activated_at : Option ℕ

-- The rows, and the id of the next one.
pub record Table : Type 0 where
  pub rows : List GenerationRow
  pub next_id : ℕ

-- The row of a generation; the generations of the rows are all different.
unfoldable pub find : Text → List GenerationRow → Option GenerationRow
find generation [] = none
find generation (row ∷ rows) =
    if row.generation == generation then some row else find generation rows

-- An assignment to the columns of the row with an id.
unfoldable pub update :
    ℕ → (GenerationRow → GenerationRow) → List GenerationRow → List GenerationRow
update id f rows = map (λ row. if row.id == id then f row else row) rows

unfoldable pub first_active : List GenerationRow → Option GenerationRow
first_active [] = none
first_active (row ∷ rows) = if row.is_active then some row else first_active rows

-- What a render gives: the name of the generation, and the files.
pub record Rendered : Type 0 where
  pub generation : Text
  pub files : Dict Text Text

unfoldable pub set_staged : Rendered → GenerationRow → GenerationRow
set_staged rendered row = record row { files = rendered.files; state = codes "staged" }

-- The state that is returned, and the table.
unfoldable pub stage : Rendered → Table → Text × Table
unfolding set_staged
stage rendered t = elim (find rendered.generation t.rows) [
  | none ↦ (
    codes "staged",
    record {
      rows =
          t.rows
          ++ record {
            id = t.next_id;
            generation = rendered.generation;
            previous_generation = none;
            files = rendered.files;
            state = codes "staged";
            is_active = false;
            diagnostic = none;
            activated_at = none;
          }
            ∷ [];
      next_id = suc t.next_id;
    },
  )
  | some row ↦
      if row.is_active
      then (codes "active", t)
      else (codes "staged", record t { rows = update row.id (set_staged rendered) t.rows })
]

-- The payload of `record`, with its defaults.
pub record Values : Type 0 where
  pub generation : Text
  pub previous_generation : Option Text
  pub files : Dict Text Text
  pub state : Text
  pub is_active : Bool
  pub diagnostic : Option Text

unfoldable pub set_values : Values → GenerationRow → GenerationRow
set_values values row = record row {
  previous_generation = values.previous_generation;
  files = values.files;
  state = values.state;
  is_active = values.is_active;
  diagnostic = values.diagnostic;
}

-- The id of the row, and the table.
unfoldable pub record_generation : Values → Table → ℕ × Table
unfolding set_values
record_generation values t = elim (find values.generation t.rows) [
  | none ↦ (
    t.next_id,
    record {
      rows =
          t.rows
          ++ record {
            id = t.next_id;
            generation = values.generation;
            previous_generation = values.previous_generation;
            files = values.files;
            state = values.state;
            is_active = values.is_active;
            diagnostic = values.diagnostic;
            activated_at = none;
          }
            ∷ [];
      next_id = suc t.next_id;
    },
  )
  | some row ↦ (row.id, record t { rows = update row.id (set_values values) t.rows })
]

-- A `ValueError` that names the generation.
pub data GenerationError : Type 0 where
  does_not_exist : Text → GenerationError

unfoldable pub active_name : List GenerationRow → Option Text
unfolding first_active
active_name rows = elim (first_active rows) [ none ↦ none | some row ↦ some row.generation ]

unfoldable pub set_active : ℕ → Option Text → GenerationRow → GenerationRow
set_active now previous row = record row {
  is_active = true;
  state = codes "active";
  previous_generation = previous;
  activated_at = some now;
}

unfoldable pub deactivate : GenerationRow → GenerationRow
deactivate row = record row { is_active = false }

-- The generation that was active before, and the table.
unfoldable pub activate : ℕ → Text → Table → Result GenerationError (Option Text × Table)
unfolding update set_active deactivate
activate now generation t = elim (find generation t.rows) [
  | none ↦ err (does_not_exist generation)
  | some row ↦
      let previous = active_name t.rows in
      ok (
        previous,
        record t { rows = update row.id (set_active now previous) (map deactivate t.rows) },
      )
]

unfoldable pub set_superseded : GenerationRow → GenerationRow
set_superseded row = record row { is_active = false; state = codes "superseded" }

unfoldable pub clear_active : Table → Option Text × Table
unfolding set_superseded
clear_active t = elim (first_active t.rows) [
  | none ↦ (none, t)
  | some row ↦ (some row.generation, record t { rows = update row.id set_superseded t.rows })
]

-- One changed file.
pub record Change : Type 0 where
  pub path : Text
  pub before : Text
  pub after : Text

-- `dict.get(path)` of both, compared.
abbrev pub same_file : Option Text → Option Text → Bool
same_file none none = true
same_file (some a) (some b) = a == b
same_file _ _ = false

unfoldable pub changes_at : Dict Text Text → Dict Text Text → List Text → List Change
changes_at base target [] = []
changes_at base target (path ∷ paths) =
    let rest = changes_at base target paths in
    if same_file (Dict.get base path) (Dict.get target path)
    then rest
    else record {
      path = path;
      before = get_or_else (Dict.get base path) [];
      after = get_or_else (Dict.get target path) [];
    }
      ∷ rest

-- `set(base) | set(target)`
unfoldable pub add_keys : Dict Text Text → List Text → List Text
add_keys [] paths = paths
add_keys ((path, _) ∷ files) paths = add_keys files (Dict.add paths path)

unfoldable pub changed_files : Dict Text Text → Dict Text Text → List Change
unfolding add_keys changes_at
changed_files base target = changes_at base target (sort_texts (add_keys target (add_keys base [])))

-- `_generation_files`
unfoldable pub generation_files :
    Text → List GenerationRow → Result GenerationError (Dict Text Text)
generation_files generation rows = elim (find generation rows) [
  | none ↦ err (does_not_exist generation)
  | some row ↦ ok row.files
]

-- A generation that is given, or what stands for none.
unfoldable pub files_or :
    Text
    → List GenerationRow
    → Text × Dict Text Text
    → Result GenerationError (Text × Dict Text Text)
files_or name rows fallback =
    if is_empty name
    then ok fallback
    else (generation_files name rows >>= λ files. ok (name, files))

-- The names that were compared, and what differs.
unfoldable pub diff :
    Rendered → Text → Text → Table → Result GenerationError (Option Text × Text × List Change)
unfolding files_or first_active changed_files generation_files
diff rendered base_name target_name t =
    files_or target_name t.rows (rendered.generation, rendered.files) >>= λ target.
    files_or base_name t.rows
      (elim (first_active t.rows) [ none ↦ ([], []) | some row ↦ (row.generation, row.files) ])
    >>= λ base.
        ok
          ((if is_empty base.0 then none else some base.0), target.0, changed_files base.1 target.1)
