-- ===== src/Reconcile/Repeat.antt =====
-- Repeated and failed calls of `reconcile` of src/portwyrm/runtime/reconcile.py.
use portwyrm.Prelude.{
  ◌≡◌, ◌↔◌, refl, arith, true, false, List, Option, none, some, ◌==◌, ◌≡◌, ◌↔◌, refl, arith, true,
  false, List, Option, none, some, ◌==◌, Bool-cases, Option-cases, inl, inr,
}
use portwyrm.Prelude.Result.{ok, Result-cases}
use portwyrm.Prelude.Text.{Text, text_eq}
use portwyrm.Reconcile.Store.{generation_id, stage, active_id}
use portwyrm.Reconcile.Run.{
  Callbacks, ReconcileResult, World, same_id, fail_with, roll_back, switch, apply_candidate,
  reconcile,
}
use portwyrm.Reconcile.Safety.{IsSound, IsDigest, reconcile-Settles}

module _ (c : Callbacks) where
  switch-generation :
      (id : Text) (previous : Option Text) (w : World) (r : ReconcileResult)
      → (switch c id previous w).0 ≡ ok r
      → r.generation ≡ id
  unfolding switch roll_back fail_with
  switch-generation id none w r h = ground arith
  switch-generation id (some previous) w r h = ground arith

  apply_candidate-generation :
      (id : Text) (previous : Option Text) (files : List (Text × Text)) (w : World)
      (r : ReconcileResult)
      → (apply_candidate c id previous files w).0 ≡ ok r
      → r.generation ≡ id
  unfolding apply_candidate fail_with
  apply_candidate-generation id previous files w r h =
      elim (Result-cases (stage id files w.store)) [
        | inl (x, bad) ↦ cc (rw (bad, apply_candidate) at h)
        | inr (staged, good) ↦ elim (Option-cases (c.validator id)) [
          | inr (message, invalid) ↦ cc (rw (good, invalid, apply_candidate) at h)
          | inl valid ↦
              switch-generation id previous (record w { store = staged.0 }) r
                (rw (good, valid, apply_candidate) at h)
        ]
      ]

  reconcile-generation :
      (files : List (Text × Text)) (w : World) (r : ReconcileResult)
      → (reconcile c files w).0 ≡ ok r
      → generation_id c.hexdigest files ≡ ok r.generation
  unfolding reconcile
  reconcile-generation files w r h = elim (Result-cases (generation_id c.hexdigest files)) [
    | inl (x, bad) ↦ cc (rw (bad, reconcile) at h)
    | inr (id, good) ↦ elim (Bool-cases (same_id (active_id w.store) id)) [
      | inl current ↦ let same = rw (good, current, reconcile) at h in ground arith
      | inr new ↦
          let same =
            apply_candidate-generation id (active_id w.store) files w r
              (rw (good, new, reconcile) at h) in
          rw same good
    ]
  ]

  -- With a SHA-256 that gives 64 hexadecimal digits and an active generation that is there: after a call
  -- that returned, a call with the same files returns that nothing changed, and leaves the store and
  -- the reloader alone.
  pub reconcile-again :
      (files : List (Text × Text)) (w : World) (r : ReconcileResult)
      → IsDigest c
      → IsSound w.store
      → (reconcile c files w).0 ≡ ok r
      → let after = (reconcile c files w).1 in
        reconcile c files after ≡ (
          ok (record {
            generation = r.generation;
            previous_generation = some r.generation;
            changed = false;
            applied = true;
          }),
          after,
        )
  unfolding reconcile
  reconcile-again files w r digests sound h =
      let settled = (reconcile-Settles c files w digests sound).active_lem in
      let now : active_id (reconcile c files w).1.store ≡ some r.generation = rw h at settled in
      let named = reconcile-generation files w r h in
      again (reconcile c files w).1 now named (text_eq.beq_iff r.generation r.generation)
    where
      again :
          (after : World)
          → active_id after.store ≡ some r.generation
          → generation_id c.hexdigest files ≡ ok r.generation
          → ((r.generation == r.generation) ≡ true) ↔ (r.generation ≡ r.generation)
          → reconcile c files after ≡ (
            ok (record {
              generation = r.generation;
              previous_generation = some r.generation;
              changed = false;
              applied = true;
            }),
            after,
          )
      again after now named same = rw (named, now, same.1 refl, reconcile)
