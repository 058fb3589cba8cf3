-- ===== src/Quic/Router/Run/Safety.antt =====
-- What holds of the router of src/portwyrm/runtime/quic_router.py after any events.
use portwyrm.Prelude.{
  refl, arith, List, [], ◌∷◌, refl, arith, List, [], ◌∷◌, Option-cases, Bool-cases, inl, inr,
  Option-cases, Bool-cases, inl, inr,
}
use portwyrm.Prelude.Dict
use portwyrm.Quic.Header.{Primitives}
use portwyrm.Quic.Router.State.{addr_eq, cid_eq, key_eq, Router, addr_eq, cid_eq, key_eq, Router}
use portwyrm.Quic.Router.Opening.{begin_open, connected}
use portwyrm.Quic.Router.Invariant.Consistent.{IsConsistent, release-IsConsistent}
use portwyrm.Quic.Router.Invariant.Events.{datagram_received-IsConsistent}
use portwyrm.Quic.Router.Invariant.Tasks.{
  begin_open-IsConsistent, connected-IsConsistent, open_failed-IsConsistent,
  upstream_datagram_received-IsConsistent, reap-IsConsistent, reload-IsConsistent,
}
use portwyrm.Quic.Router.Run.{
  Event, datagram, task_begins, task_connected, task_failed, upstream, timer, reaper, reloader,
  started, step, run,
}

pub started-IsConsistent : IsConsistent started
unfolding Dict.get Dict.member
started-IsConsistent = record {
  tables = record {
    client = λ k s h. cc;
    indexed = λ k c h. cc;
    owned = λ k c h. cc;
    at_addr = λ k a. refl;
  };
  waiting = record {
    queued = λ k h. cc;
    fresh = λ k h. cc;
    unseen = λ k h. cc;
    task_opening = λ k h. cc;
    task_addr = λ k t h. cc;
    few = omega arith;
    short = λ k q h. cc;
  };
  pause = record { attached_lem = refl; reading = λ h. cc; timed = λ k. refl; awaited = λ k h. cc };
}

module _ (p : Primitives) where
  pub step-IsConsistent :
      (event : Event) (r : Router) → IsConsistent r → IsConsistent (step p event r)
  unfolding step begin_open connected
  step-IsConsistent (datagram now bytes addr) r fit =
      datagram_received-IsConsistent p now bytes addr r fit
  step-IsConsistent (task_begins key) r fit = elim (Option-cases (Dict.get r.tasks key)) [
    | inl idle ↦ rw (idle, step) fit
    | inr (task, runs) ↦ elim (Bool-cases task.connecting) [
      | inl later ↦ rw (runs, later, step) fit
      | inr new ↦ rw (runs, new, step) (begin_open-IsConsistent key task r fit runs)
    ]
  ]
  step-IsConsistent (task_connected now socket key) r fit =
      elim (Option-cases (Dict.get r.tasks key)) [
        | inl idle ↦ rw (idle, step) fit
        | inr (task, runs) ↦ elim (Bool-cases task.connecting) [
          | inl waits ↦
              rw (runs, waits, step) (connected-IsConsistent now socket key task r fit runs)
          | inr new ↦ rw (runs, new, step) fit
        ]
      ]
  step-IsConsistent (task_failed key) r fit = elim (Option-cases (Dict.get r.tasks key)) [
    | inl idle ↦ rw (idle, step) fit
    | inr (task, runs) ↦ elim (Bool-cases task.connecting) [
      | inl waits ↦ rw (runs, waits, step) (open_failed-IsConsistent key r fit)
      | inr new ↦ rw (runs, new, step) fit
    ]
  ]
  step-IsConsistent (upstream now key bytes) r fit =
      upstream_datagram_received-IsConsistent now key bytes r fit
  step-IsConsistent (timer key) r fit = release-IsConsistent key r fit
  step-IsConsistent (reaper now) r fit = reap-IsConsistent now r fit
  step-IsConsistent (reloader config) r fit = reload-IsConsistent config r fit

  -- After any sequence of events the session table and its two indexes say the same, a session that
  -- is being opened is not open yet and has its datagrams waiting, and reading is paused only while
  -- an open session with a running timer is waited for.
  pub run-IsConsistent :
      (events : List Event) (r : Router) → IsConsistent r → IsConsistent (run p events r)
  unfolding run
  run-IsConsistent [] r fit = fit
  run-IsConsistent (event ∷ events) r fit =
      run-IsConsistent events (step p event r) (step-IsConsistent event r fit)
