-- ===== src/Generations/Changes.antt =====
-- The difference of two generations in `GenerationStore.diff` of src/portwyrm/tables/runtime.py.
use portwyrm.Prelude.{
  ℕ, ◌+◌, ◌≡◌, ◌∙◌, refl, arith, Bool, not, ◌&&◌, ◌||◌, List, [], ◌∷◌, ◌++◌, if◌then◌else◌, ◌==◌,
  nat_eq, get_or_else, Bool-cases, inl, inr,
}
use portwyrm.Prelude.Dict
use portwyrm.Prelude.Dict.{Dict}
use portwyrm.Prelude.Text.{Text, text_eq}
use portwyrm.Tokens.Scopes.{insert_text, sort_texts}
use portwyrm.Generations.{Change, same_file, changes_at, add_keys, changed_files}

-- How often a path stands in a list.
times : Text → List Text → ℕ
times p [] = 0
times p (x ∷ xs) = (if x == p then 1 else 0) + times p xs

times-sort_texts : (p : Text) (xs : List Text) → times p (sort_texts xs) ≡ times p xs
unfolding times sort_texts
times-sort_texts p [] = refl
times-sort_texts p (x ∷ xs) = inserted x (sort_texts xs) ∙ omega (arith, times-sort_texts p xs)
  where
    inserted : (x : Text) (ys : List Text) → times p (insert_text x ys) ≡ times p (x ∷ ys)
    inserted x [] = refl
    inserted x (y ∷ ys) = ground (arith, inserted x ys)

times-append :
    (p k : Text) (s : List Text) → times p (s ++ k ∷ []) ≡ times p s + (if k == p then 1 else 0)
unfolding times
times-append p k [] = omega arith
times-append p k (x ∷ s) = omega (arith, times-append p k s)

member_iff_times : (s : List Text) (k : Text) → Dict.member s k ≡ not (times k s == 0)
unfolding times Dict.member
member_iff_times [] k = refl
member_iff_times (x ∷ s) k = ground (arith, member_iff_times s k)

times-add :
    (p k : Text) (s : List Text)
    → times p (Dict.add s k) ≡ (if k == p && times p s == 0 then 1 else times p s)
unfolding Dict.add
times-add p k s = ground (arith, times-append p k s, member_iff_times s k, text_eq.beq_iff k p)

times-add_keys :
    (p : Text) (files : Dict Text Text) (s : List Text)
    → times p (add_keys files s) ≡ (if Dict.has files p && times p s == 0 then 1 else times p s)
unfolding add_keys Dict.get
times-add_keys p [] s = refl
times-add_keys p ((k, v) ∷ files) s =
    ground (arith, times-add_keys p files (Dict.add s k), times-add p k s)

-- The changes of one path.
abbrev pub changes_of : Text → List Change → List Change
changes_of p [] = []
changes_of p (c ∷ cs) = if c.path == p then c ∷ changes_of p cs else changes_of p cs

module _ (base target : Dict Text Text) (p : Text) where
  differs : Bool
  differs = not (same_file (Dict.get base p) (Dict.get target p))

  change : Change
  change = record {
    path = p;
    before = get_or_else (Dict.get base p) [];
    after = get_or_else (Dict.get target p) [];
  }

  changes_of_none :
      (paths : List Text) → times p paths ≡ 0 → changes_of p (changes_at base target paths) ≡ []
  unfolding times changes_at
  changes_of_none [] h = refl
  changes_of_none (x ∷ paths) h = ground (arith, changes_of_none paths)

  changes_of_one :
      (paths : List Text)
      → times p paths ≡ 1
      → changes_of p (changes_at base target paths) ≡ (if differs then change ∷ [] else [])
  unfolding times changes_at differs change
  changes_of_one [] h = absurd (omega arith)
  changes_of_one (x ∷ paths) h = elim (Bool-cases (x == p)) [
    | inl here ↦
        let e : x ≡ p = (text_eq.beq_iff x p).0 here in
        rw e (ground (arith, changes_of_none paths, here, e, text_eq.beq_iff p p))
    | inr other ↦ ground (arith, changes_of_one paths)
  ]

-- The files that are reported are those that differ, each once and no other: the changes of a path
-- are none if both generations have the same file there or neither has one, and else one change with
-- what each of them holds there, which is the empty text where it has no file.
pub changes_of-changed_files :
    (base target : Dict Text Text) (p : Text)
    → changes_of p (changed_files base target) ≡ (
        if same_file (Dict.get base p) (Dict.get target p)
        then []
        else record {
          path = p;
          before = get_or_else (Dict.get base p) [];
          after = get_or_else (Dict.get target p) [];
        }
          ∷ [])
unfolding changed_files differs change times
changes_of-changed_files base target p =
    let paths = sort_texts (add_keys target (add_keys base [])) in
    let count : times p paths ≡ (if Dict.has target p || Dict.has base p then 1 else 0) =
      times-sort_texts p (add_keys target (add_keys base []))
      ∙ both (Dict.has target p) (Dict.has base p) _ _ (times-add_keys p target (add_keys base []))
          (times-add_keys p base []) in
    elim (Bool-cases (Dict.has target p || Dict.has base p)) [
      | inl there ↦ ground (arith, changes_of_one base target p paths, count)
      | inr nowhere ↦ ground (arith, changes_of_none base target p paths, count)
    ]
  where
    both :
        (a b : Bool) (m n : ℕ)
        → m ≡ (if a && n == 0 then 1 else n)
        → n ≡ (if b && times p [] == 0 then 1 else times p [])
        → m ≡ (if a || b then 1 else 0)
    both a b m n h k = ground arith
