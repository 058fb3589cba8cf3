-- ===== src/Quic/Router/Invariant/Consistent.antt =====
-- The invariant of the whole router of src/portwyrm/runtime/quic_router.py, and the parts that
-- several events share.
use portwyrm.Prelude.{Option-cases, Bool-cases, inl, inr, is_empty, get_elem?}
use portwyrm.Prelude.Result.{Result-cases}
use portwyrm.Prelude.Dict
use portwyrm.Prelude.Dict.{Dict}
use portwyrm.Quic.Bytes.{Bytes, is_long}
use portwyrm.Quic.Header.{initial_connection_ids}
use portwyrm.Quic.Router.State.{Key, addr_eq, cid_eq, key_eq, Router}
use portwyrm.Quic.Router.Sessions.{
  index_server_connection_id, insert_server_cid, register_server_connection_id,
  release_ingress_pause, remove_session,
}
use portwyrm.Quic.Router.Invariant.Tables.{HasTables, index_server_connection_id-HasTables}
use portwyrm.Quic.Router.Invariant.Removal.{unindex_all_lem, forget_addr_lem, TablesFit-remove}
use portwyrm.Quic.Router.Invariant.Waiting.{HasWaiting, WaitingFit-session, WaitingFit-unsession}
use portwyrm.Quic.Router.Invariant.Pause.{
  HasPause, release_ingress_pause_lem, PauseFit-session, PauseFit-unsession,
}

pub record IsConsistent (r : Router) : Type 0 where
  pub tables : HasTables r
  pub waiting : HasWaiting r
  pub pause : HasPause r

pub release-IsConsistent :
    (key : Key) (r : Router) → IsConsistent r → IsConsistent (release_ingress_pause key r)
release-IsConsistent key r fit =
    let (p, w, t, same, pause, idle) = release_ingress_pause_lem key r r.sessions fit.pause in
    rw same (record { tables = fit.tables; waiting = fit.waiting; pause = pause })

pub remove_session-IsConsistent :
    (key : Key) (r : Router) → IsConsistent r → IsConsistent (remove_session key r)
unfolding remove_session
remove_session-IsConsistent key r fit = elim (Option-cases (Dict.get r.sessions key)) [
  | inl absent ↦ rw (absent, remove_session) fit
  | inr (s, there) ↦
      let popped = record r { sessions = Dict.pop r.sessions key } in
      let (p, w, t, released, pause, idle) =
        release_ingress_pause_lem key popped r.sessions fit.pause in
      let waiting = record popped {
        paused = p;
        awaiting_first_upstream = w;
        ingress_pause_timers = t;
      } in
      let (by_addr, forgotten, addrs) = forget_addr_lem key s.client waiting in
      let (by_cid, counts, lengths, unindexed, cids) =
        unindex_all_lem key s.server_cids (record waiting { sessions_by_addr = by_addr }) in
      rw (there, remove_session, released, forgotten, unindexed)
        (record {
          tables = TablesFit-remove fit.tables key s there addrs cids;
          waiting = WaitingFit-unsession fit.waiting key;
          pause = PauseFit-unsession pause key idle;
        })
]

pub index_server_connection_id-IsConsistent :
    (key : Key) (cid : Bytes) (r : Router)
    → IsConsistent r
    → IsConsistent (index_server_connection_id key cid r)
unfolding index_server_connection_id insert_server_cid
index_server_connection_id-IsConsistent key cid r fit =
    elim (Option-cases (Dict.get r.sessions key)) [
      | inl absent ↦ rw (absent, index_server_connection_id) fit
      | inr (s, there) ↦
          let tables = index_server_connection_id-HasTables key cid r fit.tables in
          elim (Option-cases (Dict.get r.sessions_by_server_cid cid)) [
            | inr (owner, known) ↦ rw (there, known, index_server_connection_id) fit
            | inl free ↦
                rw (there, free, index_server_connection_id)
                  (record {
                    tables = rw (there, free, index_server_connection_id) at tables;
                    waiting = WaitingFit-session fit.waiting key _ (inr (rw there));
                    pause = PauseFit-session fit.pause key _;
                  })
          ]
    ]

-- What holds of the router, and of it with any connection ID indexed, holds after the scan.
pub register_cases :
    (P : Router → Type 0) (key : Key) (datagram : Bytes) (r : Router)
    → P r
    → ((cid : Bytes) → P (index_server_connection_id key cid r))
    → P (register_server_connection_id key datagram r)
unfolding register_server_connection_id
register_cases P key datagram r p q = elim (Option-cases (get_elem? datagram 0)) [
  | inl nothing ↦ rw (nothing, register_server_connection_id) p
  | inr (first, found) ↦ elim (Bool-cases (is_long first)) [
    | inr small ↦ rw (found, small, register_server_connection_id) p
    | inl long ↦ elim (Result-cases (initial_connection_ids datagram)) [
      | inl (x, bad) ↦ rw (found, long, bad, register_server_connection_id) p
      | inr (ids, good) ↦ elim (Bool-cases (is_empty ids.1)) [
        | inl blank ↦ rw (found, long, good, blank, register_server_connection_id) p
        | inr given ↦ rw (found, long, good, given, register_server_connection_id) (q ids.1)
      ]
    ]
  ]
]

pub register-IsConsistent :
    (key : Key) (datagram : Bytes) (r : Router)
    → IsConsistent r
    → IsConsistent (register_server_connection_id key datagram r)
register-IsConsistent key datagram r fit =
    register_cases IsConsistent key datagram r fit
      (λ cid. index_server_connection_id-IsConsistent key cid r fit)
