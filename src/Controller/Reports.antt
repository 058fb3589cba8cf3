-- ===== src/Controller/Reports.antt =====
-- What `_persist` of src/portwyrm/runtime/controller.py leaves in the table of generations.
use portwyrm.Prelude.{◌≡◌, refl, Bool, true, false, Option, none, if◌then◌else◌, ◌==◌}
use portwyrm.Prelude.Dict.{Dict}
use portwyrm.Prelude.Text.{Text, text_eq}
use portwyrm.Generations.{GenerationError, record_generation}
use portwyrm.Generations.Rows.{IsValid, Marks}
use portwyrm.Generations.Active.{
  Has, Leaves, record_generation-Leaves, record_generation-Has, activate-Leaves, activate_total,
}
use portwyrm.Controller.Persist.{
  State, Environment, Clock, Report, persist, values_of, persist_attempt,
}

-- A report that was not applied leaves its generation inactive, and the others as they were.
pub record Refuses (s : State) (generation : Text) (p : Text → Bool)
    (out : Option GenerationError × State) : Type 0 where
  pub leaves : Leaves s.generations out.1.generations (λ g. if g == generation then false else p g)
  pub same : out.1.disk ≡ s.disk

-- An applied report leaves its generation the only active one.
pub record Applies (s : State) (generation : Text) (out : Option GenerationError × State)
    : Type 0 where
  pub returned : out.0 ≡ none
  pub leaves : Leaves s.generations out.1.generations (λ g. generation == g)
  pub has : Has generation out.1.generations.rows
  pub same : out.1.disk ≡ s.disk

-- A report by its parts.
abbrev pub reported : Text → Option Text → Bool → Option Text → Bool → Report
reported generation previous changed diagnostic applied = record {
  generation = generation;
  previous_generation = previous;
  changed = changed;
  applied = applied;
  diagnostic = diagnostic;
}

module _ (env : Environment) (clock : Clock) (files : Dict Text Text) (generation : Text)
    (previous : Option Text) (changed : Bool) (diagnostic : Option Text) (s : State)
    (p : Text → Bool) (valid : IsValid s.generations) (marks : Marks p s.generations.rows) where
  pub persist_applied :
      Applies s generation
        (persist env clock files (reported generation previous changed diagnostic true) s)
  unfolding persist persist_attempt values_of
  persist_applied =
      let values = values_of files (reported generation previous changed diagnostic true) in
      let recorded = (record_generation values s.generations).1 in
      let first = record_generation-Leaves p values s.generations valid marks in
      let named = record_generation-Has values s.generations in
      let (before, after, activated) =
        activate_total clock.activated_at generation recorded first.valid named in
      let second =
        activate-Leaves clock.activated_at generation recorded first.valid before after activated in
      rw activated (record {
        returned = refl;
        leaves = record {
          valid = second.valid;
          marks = second.marks;
          kept = λ k h. second.kept k (first.kept k h);
        };
        has = second.kept generation named;
        same = refl;
      })

  pub persist_refused :
      Refuses s generation p
        (persist env clock files (reported generation previous changed diagnostic false) s)
  unfolding persist persist_attempt values_of
  persist_refused = record {
    leaves =
        record_generation-Leaves p
          (values_of files (reported generation previous changed diagnostic false)) s.generations
          valid marks;
    same = refl;
  }
