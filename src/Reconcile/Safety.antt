-- ===== src/Reconcile/Safety.antt =====
-- The active generation across `reconcile` of src/portwyrm/runtime/reconcile.py.
use portwyrm.Prelude.{
  ℕ, ◌≡◌, ◌∙◌, refl, sym, arith, Bool, true, false, List, [], ◌∷◌, ◌++◌, Option, none, some,
  is_empty, length, All, take, Bool-cases, Option-cases, inl, inr,
}
use portwyrm.Prelude.Result.{Result, ok, err, Result-cases, >>=-eq-ok}
use portwyrm.Prelude.Dict
use portwyrm.Prelude.Dict.{Dict}
use portwyrm.Prelude.Text.{Text, text_eq, codes, strip}
use portwyrm.Reconcile.Store.{
  ReconcileError, Store, Tree, generation_id, stage, active_id, activate, clear_active,
  record_failure, write_files, sort_files, digest_input,
}
use portwyrm.Reconcile.Strip.{strip-newline, strip-take_hex, IsHex}
use portwyrm.Reconcile.Run.{
  Callbacks, ReconcileResult, World, Outcome, same_id, fail_with, roll_back, switch,
  apply_candidate, reconcile,
}

-- The active generation is there.
abbrev pub IsSound : Store → Type 0
IsSound store = (id : Text) → active_id store ≡ some id → Dict.has store.generations id ≡ true

-- Every generation of the first store is in the second as it was.
abbrev pub Keeps : Store → Store → Type 0
Keeps before after =
    (id : Text) (tree : Tree)
    → Dict.get before.generations id ≡ some tree
    → Dict.get after.generations id ≡ some tree

-- What SHA-256 gives.
abbrev pub IsDigest : Callbacks → Type 0
IsDigest c =
    (message : List ℕ) → All IsHex (c.hexdigest message) × (length (c.hexdigest message) ≡ 64)

-- A name that `activate` writes is read back.
abbrev Reads : Text → Type 0
Reads id = (strip (id ++ codes "\n") ≡ id) × (is_empty id ≡ false)

active_id-Reads : (store : Store) (id : Text) → active_id store ≡ some id → Reads id
unfolding active_id
active_id-Reads store id h = elim (Option-cases store.active) [
  | inl absent ↦ cc (rw absent at h)
  | inr (contents, there) ↦ ground (arith, strip-newline contents)
]

generation_id-Reads :
    (c : Callbacks) (files : Dict Text Text) (id : Text)
    → IsDigest c
    → generation_id c.hexdigest files ≡ ok id
    → Reads id
unfolding generation_id
generation_id-Reads c files id digests h =
    let (message, fed, same) = >>=-eq-ok (digest_input (sort_files files)) _ h in
    let (hex, size) = digests message in
    let e : take 20 (c.hexdigest message) ≡ id = ground arith in
    rw (← e) (strip-take_hex (c.hexdigest message) hex size)

activate_lem :
    (id : Text) (store : Store)
    → Reads id
    → Dict.has store.generations id ≡ true
    → (after : Store) × (activate id store ≡ ok after)
      × (active_id after ≡ some id)
      × (after.generations ≡ store.generations)
unfolding activate active_id
activate_lem id store (reads, given) there = (
  record store { active = some (id ++ codes "\n") },
  rw (there, activate),
  rw (reads, given),
  refl,
)

stage_lem :
    (id : Text) (files : Dict Text Text) (store : Store) (staged : Store × Bool)
    → stage id files store ≡ ok staged
    → (Dict.has staged.0.generations id ≡ true)
      × (staged.0.active ≡ store.active)
      × Keeps store staged.0
unfolding stage
stage_lem id files store staged h = elim (Bool-cases (Dict.has store.generations id)) [
  | inl there ↦ ground (arith, rw there at h)
  | inr new ↦
      let (tree, written, same) = >>=-eq-ok (write_files [] (sort_files files)) _ (rw new at h) in
      let e : record store { generations = Dict.put store.generations id tree } ≡ staged.0 =
        ground arith in
      rw (← e) (
        ground (arith, Dict.get-put store.generations id id tree, text_eq.beq_iff id id),
        refl,
        λ k t there. ground (arith, Dict.get-put store.generations id k tree, text_eq.beq_iff id k),
      )
]

-- The last call of the reloader.
abbrev pub last_reload : List Text → Option Text
last_reload [] = none
last_reload (id ∷ []) = some id
last_reload (_ ∷ id ∷ ids) = last_reload (id ∷ ids)

last_reload-append : (ids : List Text) (id : Text) → last_reload (ids ++ id ∷ []) ≡ some id
last_reload-append [] id = refl
last_reload-append (_ ∷ []) id = refl
last_reload-append (_ ∷ j ∷ ids) id = last_reload-append (j ∷ ids) id

-- The active generation is the one that the reloader was called with last.
abbrev pub IsServed : World → Type 0
IsServed w = (id : Text) → active_id w.store ≡ some id → last_reload w.reloads ≡ some id

-- The new generation if the call returned, and the one from before if it raised.
abbrev pub active_after : Option Text → Result ReconcileError ReconcileResult → Option Text
active_after before (err _) = before
active_after before (ok result) = some result.generation

-- What a call leaves: the active generation is there, no generation was lost or changed, the active
-- one is the new one if the call returned, and the one from before if it raised.
pub record Settles (w : World) (out : Outcome) : Type 0 where
  pub sound : IsSound out.1.store
  pub keeps : Keeps w.store out.1.store
  pub served : IsServed w → IsServed out.1
  pub active_lem : active_id out.1.store ≡ active_after (active_id w.store) out.0

-- A failure that is recorded changes neither the generations nor the active one.
fail_with-Settles :
    (id diagnostic : Text) (w w' : World)
    → IsSound w.store
    → Keeps w.store w'.store
    → active_id w'.store ≡ active_id w.store
    → (IsServed w → IsServed w')
    → Settles w (fail_with id diagnostic w')
unfolding fail_with record_failure active_id
fail_with-Settles id diagnostic w w' sound keeps same served = record {
  sound = λ k h. still_there k (sound k (sym same ∙ h));
  keeps = keeps;
  served = served;
  active_lem = same;
}
  where
    still_there :
        (k : Text) → Dict.has w.store.generations k ≡ true → Dict.has w'.store.generations k ≡ true
    still_there k there = elim (Option-cases (Dict.get w.store.generations k)) [
      | inl lost ↦ cc (rw lost at there)
      | inr (tree, e) ↦ rw (keeps k tree e)
    ]

active_id_of_active : (s t : Store) → s.active ≡ t.active → active_id s ≡ active_id t
unfolding active_id
active_id_of_active s t h = rw h

same_id_lem : (previous : Option Text) (id : Text) → same_id previous id ≡ true → previous ≡ some id
same_id_lem none id h = cc
same_id_lem (some p) id h = ground (arith, text_eq.beq_iff p id)

clear_active_lem : (s : Store) → active_id (clear_active s) ≡ none
unfolding active_id clear_active
clear_active_lem s = refl

module _ (c : Callbacks) where
  roll_back-Settles :
      (id : Text) (previous : Option Text) (diagnostic : Text) (w w' : World)
      → IsSound w.store
      → Keeps w.store w'.store
      → active_id w.store ≡ previous
      → Settles w (roll_back c id previous diagnostic w')
  unfolding roll_back clear_active
  roll_back-Settles id none diagnostic w w' sound keeps before =
      fail_with-Settles id diagnostic w (record w' { store = clear_active w'.store }) sound keeps
        (clear_active_lem w'.store ∙ sym before) (λ h k e. cc (e, clear_active_lem w'.store))
  roll_back-Settles id (some previous) diagnostic w w' sound keeps before =
      elim (Option-cases (Dict.get w.store.generations previous)) [
        | inl lost ↦ cc (rw lost at (sound previous before))
        | inr (tree, there) ↦
            let (restored, done, now, same) =
              activate_lem previous w'.store (active_id-Reads w.store previous before)
                (rw (keeps previous tree there)) in
            rw (done, roll_back)
              (fail_with-Settles id _ w _ sound (λ k t h. rw same (keeps k t h)) (now ∙ sym before)
                (λ h k e. last_reload-append w'.reloads previous ∙ (sym now ∙ e)))
      ]

  switch-Settles :
      (id : Text) (previous : Option Text) (w w' : World)
      → Reads id
      → Dict.has w'.store.generations id ≡ true
      → IsSound w.store
      → Keeps w.store w'.store
      → active_id w.store ≡ previous
      → Settles w (switch c id previous w')
  unfolding switch
  switch-Settles id previous w w' reads there sound keeps before =
      let (active, done, now, same) = activate_lem id w'.store reads there in
      elim (Option-cases (c.reloader w'.reloads id)) [
        | inl fine ↦
            rw (done, fine, switch)
              (record {
                sound = λ k h. rw same (ground (arith, text_eq.beq_iff id k));
                keeps = λ k t h. rw same (keeps k t h);
                served = λ h k e. last_reload-append w'.reloads id ∙ (sym now ∙ e);
                active_lem = now;
              })
        | inr (message, bad) ↦
            rw (done, bad, switch)
              (roll_back-Settles id previous _ w _ sound (λ k t h. rw same (keeps k t h)) before)
      ]

  apply_candidate-Settles :
      (id : Text) (files : Dict Text Text) (w : World)
      → Reads id
      → IsSound w.store
      → Settles w (apply_candidate c id (active_id w.store) files w)
  unfolding apply_candidate
  apply_candidate-Settles id files w reads sound = elim (Result-cases (stage id files w.store)) [
    | inl (x, bad) ↦
        rw (bad, apply_candidate)
          (record { sound = sound; keeps = λ k t h. h; served = λ h. h; active_lem = refl })
    | inr (staged, good) ↦
        let (there, same, keeps) = stage_lem id files w.store staged good in
        elim (Option-cases (c.validator id)) [
          | inr (message, invalid) ↦
              rw (good, invalid, apply_candidate)
                (fail_with-Settles id _ w _ sound keeps (active_id_of_active staged.0 w.store same)
                  (λ h k e. h k (sym (active_id_of_active staged.0 w.store same) ∙ e)))
          | inl valid ↦
              rw (good, valid, apply_candidate)
                (switch-Settles id (active_id w.store) w (record w { store = staged.0 }) reads there
                  sound keeps refl)
        ]
  ]

  -- With a SHA-256 that gives 64 hexadecimal digits and an active generation that is there, a call
  -- leaves an active generation that is there, and no generation lost or changed; the active one is
  -- the new one if the call returns, and the one from before if it raises, whatever raised; and if the
  -- active generation was the one that the reloader was called with last, it is so again.
  pub reconcile-Settles :
      (files : Dict Text Text) (w : World)
      → IsDigest c
      → IsSound w.store
      → Settles w (reconcile c files w)
  unfolding reconcile
  reconcile-Settles files w digests sound = elim (Result-cases (generation_id c.hexdigest files)) [
    | inl (x, bad) ↦
        rw (bad, reconcile)
          (record { sound = sound; keeps = λ k t h. h; served = λ h. h; active_lem = refl })
    | inr (id, good) ↦ elim (Bool-cases (same_id (active_id w.store) id)) [
      | inl current ↦
          rw (good, current, reconcile)
            (record {
              sound = sound;
              keeps = λ k t h. h;
              served = λ h. h;
              active_lem = same_id_lem (active_id w.store) id current;
            })
      | inr new ↦
          rw (good, new, reconcile)
            (apply_candidate-Settles id files w (generation_id-Reads c files id digests good) sound)
    ]
  ]
