-- ===== src/Tests/Runtime.antt =====
-- src/portwyrm/tables/runtime.py, src/portwyrm/runtime/controller.py and the revisions of
-- src/portwyrm/tables/routing.py at concrete inputs.
use portwyrm.Prelude.{
  ℕ, ◌≡◌, ◌↔◌, ◌≢◌, refl, arith, Bool, true, false, List, [], ◌∷◌, none, some, if◌then◌else◌, ltb,
  ◌-◌, sym, ◌∙◌, subst, is_some, ◌++◌, nat_eq, inr,
}
use portwyrm.Prelude.Dict
use portwyrm.Prelude.Dict.{Dict}
use portwyrm.Prelude.Decimal.{Digits, IsDecimal}
use portwyrm.Prelude.Text.{Text, text_eq, codes}
use portwyrm.Tests.Policies.{
  callbacks, callbacks-IsDigest, files, world, world-IsSound, old_is_active,
}
use portwyrm.Generations.{GenerationRow, find, changed_files}
use portwyrm.Generations.Changes.{changes_of, changes_of-changed_files}
use portwyrm.Health.{rolled_back}
use portwyrm.Revisions.{
  Revision, find_revision, record_revision, latest_revision, Runtime, deployment_state,
  revision_state,
}
use portwyrm.Revisions.Recorded.{Recorded, history, newest}
use portwyrm.Revisions.History.{IsServed, deployment_state-history}
use portwyrm.Controller.Names.{redirection, host_id, file_name, host_id-file_name}
use portwyrm.Controller.Persist.{State, Environment, Clock}
use portwyrm.Controller.{active_generation, reconcile_files}
use portwyrm.Controller.Agreement.{Agrees, Reconciles, reconcile_files-Reconciles}
use portwyrm.Leases.{seconds, acquire, refused, Call, acquiring, renewing, releasing}
use portwyrm.Leases.Abstract.{table_replies, lock_replies, table_replies-refine}
use portwyrm.Leases.Exclusion.{calls, acquire-exclusive}

abbrev lease : Text
lease = codes "nginx-reconcile"

abbrev visits : List Call
visits =
    acquiring 10 lease (codes "a") (seconds 5)
    ∷ acquiring 12 lease (codes "b") (seconds 5)
    ∷ acquiring 20 lease (codes "b") (seconds 5)
    ∷ renewing 21 22 lease (codes "a") (seconds 5)
    ∷ []

table_replies-refine_example : table_replies visits [] ≡ lock_replies visits (λ n. Dict.get [] n)
table_replies-refine_example = table_replies-refine 0 visits [] (omega arith)

abbrev others : List Call
others = renewing 11 11 lease (codes "b") (seconds 5) ∷ releasing 11 lease (codes "b") ∷ []

apart : codes "b" ≢ codes "a"
apart e = ground (arith, e)

acquire-exclusive_example :
    let after = calls others (acquire 10 lease (codes "a") (seconds 60) []).1 in
    acquire 12 lease (codes "b") (seconds 5) after ≡ (refused (codes "a") 70, after)
unfolding acquire Dict.get
acquire-exclusive_example =
    acquire-exclusive 10 12 70 lease (codes "a") (codes "b") (seconds 60) (seconds 5) [] others refl
      (inr apart, (inr apart, tt)) apart (omega arith)

abbrev before : Dict Text Text
before = (codes "a", codes "1") ∷ (codes "b", codes "2") ∷ []

abbrev now : Dict Text Text
now = (codes "b", codes "3") ∷ (codes "a", codes "1") ∷ []

changes_of-changed_files_example :
    changes_of (codes "b") (changed_files before now)
    ≡ record { path = codes "b"; before = codes "2"; after = codes "3" } ∷ []
unfolding Dict.get text_eq
changes_of-changed_files_example = changes_of-changed_files before now (codes "b")

abbrev digits : Digits
digits = record {
  decimal = λ c. if ltb c 48 then none else if ltb c 58 then some (c - 48) else none;
}

digits-IsDecimal : IsDecimal digits
digits-IsDecimal = record { ascii = λ n h. ground arith; stop = refl }

host_id-file_name_example : host_id digits (codes "http/" ++ file_name redirection 107) ≡ some 107
host_id-file_name_example = host_id-file_name digits redirection 107 digits-IsDecimal

abbrev environment : Environment
environment = record {
  callbacks = callbacks;
  digits = digits;
  repr = λ t. t;
  os_message = codes "disk full";
}

abbrev clock : Clock
clock = record { acquired_at = 100; activated_at = 101; applied_at = 102 }

abbrev old_row : GenerationRow
old_row = record {
  id = 1;
  generation = codes "old";
  previous_generation = none;
  files = [];
  state = codes "active";
  is_active = true;
  diagnostic = none;
  activated_at = some 50;
}

abbrev state : State
state = record {
  disk = world;
  generations = record { rows = old_row ∷ []; next_id = 2 };
  attempts = [];
  revisions = record { rows = []; next_id = 1 };
  leases = [];
  applying_host_ids = [];
}

state-Agrees : Agrees state
unfolding active_generation find text_eq
state-Agrees = record {
  valid = record { distinct = (tt, tt); below = (omega arith, tt) };
  marks = (rw old_is_active refl, tt);
  listed = λ g h.
      let e : codes "old" ≡ g = cc (sym old_is_active ∙ h) in
      subst (λ k. is_some (find k (old_row ∷ [])) ≡ true) e refl;
  sound = world-IsSound;
}

reconcile_files-Reconciles_example :
    Reconciles environment clock callbacks-IsDigest
      (reconcile_files environment clock (codes "me") files state)
reconcile_files-Reconciles_example =
    reconcile_files-Reconciles environment clock callbacks-IsDigest (codes "me") files state
      state-Agrees

abbrev runtime : Runtime
runtime = record {
  applying_hosts = [];
  active_generation = some (codes "g2");
  has_drifted = λ r. false;
}

abbrev revision : ℕ → Text → Bool → Revision
revision id generation is_applied = record {
  id = id;
  routing_host_id = 7;
  generation = generation;
  config_text = codes "server {}";
  config_digest = codes "00";
  is_applied = is_applied;
  applied_at = none;
}

abbrev recorded : Text → Bool → Recorded
recorded generation is_applied = record {
  host = 7;
  generation = generation;
  config_text = codes "server {}";
  config_digest = codes "00";
  is_applied = is_applied;
  applied_at = none;
}

-- The second generation failed, and was applied later.
abbrev retried : List Recorded
retried = recorded (codes "g2") true ∷ recorded (codes "g2") false ∷ recorded (codes "g1") true ∷ []

deployment_state-history_example :
    IsServed runtime 7
      (codes "g2")
      refl
      refl
      refl
      (deployment_state (some runtime) 7 (history retried).rows)
    ↔ ((c : Recorded) × (newest 7 retried ≡ some c)
        × (c.generation ≡ codes "g2")
        × (c.is_applied ≡ true))
deployment_state-history_example =
    deployment_state-history runtime 7 (codes "g2") refl refl refl retried

test_retried : deployment_state (some runtime) 7 (history retried).rows ≡ rolled_back
unfolding deployment_state history record_revision find_revision latest_revision revision_state
    text_eq
test_retried = refl
