-- ===== src/Quic/Router/Invariant/Tasks.antt =====
-- The tasks that open routes, upstream datagrams, the reaper and reloads of
-- src/portwyrm/runtime/quic_router.py keep the router's invariant.
use portwyrm.Prelude.{
  ℕ, ◌+◌, ◌*◌, ◌-◌, ◌≡◌, Bool, true, false, refl, arith, [], ◌∷◌, ◌++◌, none, some, if◌then◌else◌,
  ◌==◌, nat_eq, Option-cases, Bool-cases, inl, inr, get_or_else, ltb, All,
}
use portwyrm.Prelude.Dict
use portwyrm.Prelude.Dict.{Dict}
use portwyrm.Quic.Bytes.{Bytes}
use portwyrm.Quic.Router.State.{
  Key, addr_eq, cid_eq, key_eq, Session, OpenTask, Router, to_client, Key, addr_eq, cid_eq, key_eq,
  Session, OpenTask, Router, to_client,
}
use portwyrm.Quic.Router.Sessions.{
  add_session, release_ingress_pause, register_server_connection_id, remove_session,
}
use portwyrm.Quic.Router.Ingress.{drop_pending}
use portwyrm.Quic.Router.Opening.{
  finish_open, begin_open, connected, open_failed, upstream_datagram_received, reap_pending,
  reap_sessions, reap, Config, unreadable, unfit, document, reload,
}
use portwyrm.Quic.Router.Invariant.Tables.{TablesFit-touch, TablesFit-new}
use portwyrm.Quic.Router.Invariant.Waiting.{
  WaitingFit, WaitingFit-drop, WaitingFit-task, WaitingFit-finish, WaitingFit-session,
}
use portwyrm.Quic.Router.Invariant.Pause.{
  PauseFit-session, pause_ingress_lem, release_ingress_pause_lem,
}
use portwyrm.Quic.Router.Invariant.Consistent.{
  IsConsistent, release-IsConsistent, remove_session-IsConsistent, register-IsConsistent,
}

finish_open-IsConsistent :
    (key : Key) (r : Router) → IsConsistent r → IsConsistent (finish_open key r)
unfolding finish_open
finish_open-IsConsistent key r fit = record {
  tables = fit.tables;
  waiting = WaitingFit-finish fit.waiting key;
  pause = fit.pause;
}

pub begin_open-IsConsistent :
    (key : Key) (task : OpenTask) (r : Router)
    → IsConsistent r
    → Dict.get r.tasks key ≡ some task
    → IsConsistent (begin_open key task r)
unfolding begin_open
begin_open-IsConsistent key task r fit runs = elim (Bool-cases (Dict.has r.sessions key)) [
  | inl there ↦ rw (there, begin_open) (finish_open-IsConsistent key r fit)
  | inr new ↦
      rw (new, begin_open)
        (record {
          tables = fit.tables;
          waiting = WaitingFit-task fit.waiting key task _ runs refl;
          pause = fit.pause;
        })
]

-- The waiting datagrams are taken away together with the end of the opening.
take_pending :
    (key : Key) (r : Router)
    → IsConsistent r
    → WaitingFit r.sessions
        (Dict.pop r.pending key)
        (Dict.pop r.pending_seen key)
        (Dict.discard r.opening key)
        (Dict.pop r.tasks key)
take_pending key r fit =
    WaitingFit-drop (WaitingFit-finish fit.waiting key) key
      (ground (arith, Dict.member-discard r.opening key key, key_eq.beq_iff key key))

pub open_failed-IsConsistent :
    (key : Key) (r : Router) → IsConsistent r → IsConsistent (open_failed key r)
unfolding open_failed
open_failed-IsConsistent key r fit =
    let (p, w, t, same, pause, idle) =
      release_ingress_pause_lem key (drop_pending key r) r.sessions fit.pause in
    rw same (record { tables = fit.tables; waiting = take_pending key r fit; pause = pause })

pub connected-IsConsistent :
    (now socket : ℕ) (key : Key) (task : OpenTask) (r : Router)
    → IsConsistent r
    → Dict.get r.tasks key ≡ some task
    → IsConsistent (connected now socket key task r)
unfolding connected add_session
connected-IsConsistent now socket key task r fit runs =
    let opens = fit.waiting.task_opening key (rw runs) in
    let session : Session = record {
      upstream = socket;
      timeout = task.route.idle_timeout_seconds;
      client = task.addr;
      client_scid = task.client_scid;
      server_cids = [];
      last_seen = now;
      opened_at = now;
      upstream_datagrams_received = 0;
    } in
    let keys = get_or_else (Dict.get r.sessions_by_addr task.addr) [] in
    let known : Router = record r {
      sessions = Dict.put r.sessions key session;
      sessions_by_addr = Dict.put r.sessions_by_addr task.addr (Dict.add keys key);
      pending_crypto = Dict.pop r.pending_crypto key;
      pending_seen = Dict.pop r.pending_seen key;
      pending_started = Dict.pop r.pending_started key;
    } in
    let (p, w, t, same, pause) =
      pause_ingress_lem now key known (PauseFit-session fit.pause key session)
        (ground (arith, Dict.get-put r.sessions key key session, key_eq.beq_iff key key)) in
    let closed : Dict.member (Dict.discard r.opening key) key ≡ false =
      ground (arith, Dict.member-discard r.opening key key, key_eq.beq_iff key key) in
    rw same (record {
      tables =
          TablesFit-new fit.tables key session (fit.waiting.fresh key opens)
            (fit.waiting.task_addr key task runs) refl;
      waiting = WaitingFit-session (take_pending key r fit) key session (inl closed);
      pause = pause;
    })

touch-IsConsistent :
    (key : Key) (s s' : Session) (r : Router)
    → IsConsistent r
    → Dict.get r.sessions key ≡ some s
    → s'.client ≡ s.client
    → s'.server_cids ≡ s.server_cids
    → IsConsistent (record r { sessions = Dict.put r.sessions key s' })
touch-IsConsistent key s s' r fit there client cids = record {
  tables = TablesFit-touch fit.tables key s s' there client cids;
  waiting = WaitingFit-session fit.waiting key s' (inr (rw there));
  pause = PauseFit-session fit.pause key s';
}

see-IsConsistent :
    (now : ℕ) (key : Key) (r : Router)
    → IsConsistent r
    → IsConsistent (elim (Dict.get r.sessions key) [
      | none ↦ r
      | some latest ↦ record r {
        sessions = Dict.put r.sessions key (record latest { last_seen = now });
      }
    ])
see-IsConsistent now key r fit = elim (Option-cases (Dict.get r.sessions key)) [
  | inl closed ↦ rw closed fit
  | inr (s, there) ↦ rw there (touch-IsConsistent key s _ r fit there refl refl)
]

release_if-IsConsistent :
    (b : Bool) (key : Key) (r : Router)
    → IsConsistent r
    → IsConsistent (if b then release_ingress_pause key r else r)
release_if-IsConsistent true key r fit = release-IsConsistent key r fit
release_if-IsConsistent false key r fit = fit

pub upstream_datagram_received-IsConsistent :
    (now : ℕ) (key : Key) (datagram : Bytes) (r : Router)
    → IsConsistent r
    → IsConsistent (upstream_datagram_received now key datagram r)
unfolding upstream_datagram_received
upstream_datagram_received-IsConsistent now key datagram r fit =
    elim (Option-cases (Dict.get r.sessions key)) [
      | inl closed ↦ rw (closed, upstream_datagram_received) fit
      | inr (s, there) ↦
          let received = s.upstream_datagrams_received + 1 in
          let counted = record r {
            sessions =
                Dict.put r.sessions key (record s { upstream_datagrams_received = received });
          } in
          let registered = register_server_connection_id key datagram counted in
          let sent =
            if registered.attached
            then registered.sent ++ to_client s.client datagram ∷ []
            else registered.sent in
          let kept =
            register-IsConsistent key datagram counted
              (touch-IsConsistent key s _ r fit there refl refl) in
          let passed : IsConsistent (record registered { sent = sent }) = record {
            tables = kept.tables;
            waiting = kept.waiting;
            pause = kept.pause;
          } in
          rw (there, upstream_datagram_received)
            (see-IsConsistent now key _ (
              release_if-IsConsistent (received == 1) key (record registered { sent = sent })
                passed))
    ]

pub reload-IsConsistent :
    (config : Config) (r : Router) → IsConsistent r → IsConsistent (reload config r)
unfolding reload
reload-IsConsistent unreadable r fit = fit
reload-IsConsistent (unfit modified) r fit = fit
reload-IsConsistent (document modified listeners) r fit = elim (Option-cases r.config_mtime) [
  | inl first ↦
      rw (first, reload) (record { tables = fit.tables; waiting = fit.waiting; pause = fit.pause })
  | inr (last, before) ↦ elim (Bool-cases (modified == last)) [
    | inl same ↦ rw (before, same, reload) fit
    | inr newer ↦
        rw (before, newer, reload)
          (record { tables = fit.tables; waiting = fit.waiting; pause = fit.pause })
  ]
]

reap_pending-IsConsistent :
    (now : ℕ) (seen : Dict Key ℕ) (r : Router)
    → IsConsistent r
    → All (λ entry. Dict.member r.opening entry.0 ≡ false) seen
    → IsConsistent (reap_pending now seen r)
unfolding reap_pending
reap_pending-IsConsistent now [] r fit idle = fit
reap_pending-IsConsistent now ((key, last) ∷ seen) r fit idle =
    elim (Bool-cases (ltb 10000 (now - last))) [
      | inr recent ↦ rw recent (reap_pending-IsConsistent now seen r fit idle.1)
      | inl stale ↦ rw stale (
          reap_pending-IsConsistent now seen (drop_pending key r)
            (record {
              tables = fit.tables;
              waiting = WaitingFit-drop fit.waiting key idle.0;
              pause = fit.pause;
            })
            idle.1)
    ]

reap_sessions-IsConsistent :
    (now : ℕ) (sessions : Dict Key Session) (r : Router)
    → IsConsistent r
    → IsConsistent (reap_sessions now sessions r)
unfolding reap_sessions
reap_sessions-IsConsistent now [] r fit = fit
reap_sessions-IsConsistent now ((key, s) ∷ sessions) r fit =
    elim (Bool-cases (ltb (s.timeout * 1000) (now - s.last_seen))) [
      | inr used ↦ rw used (reap_sessions-IsConsistent now sessions r fit)
      | inl unused ↦ rw unused (
          reap_sessions-IsConsistent now sessions (remove_session key r)
            (remove_session-IsConsistent key r fit))
    ]

pub reap-IsConsistent : (now : ℕ) (r : Router) → IsConsistent r → IsConsistent (reap now r)
unfolding reap
reap-IsConsistent now r fit =
    let idle =
      Dict.All-of_has (λ k. Dict.member r.opening k ≡ false) r.pending_seen
        (λ k there.
          not_opening (Dict.member r.opening k) (λ h. ground (arith, fit.waiting.unseen k h))) in
    reap_sessions-IsConsistent now (reap_pending now r.pending_seen r).sessions
      (reap_pending now r.pending_seen r) (reap_pending-IsConsistent now r.pending_seen r fit idle)
  where
    not_opening : (b : Bool) → (b ≡ true → ⊥) → b ≡ false
    not_opening true h = absurd (h refl)
    not_opening false h = refl
