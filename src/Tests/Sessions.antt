-- ===== src/Tests/Sessions.antt =====
-- src/portwyrm/runtime/quic_router.py: one session that is opened and used.
use portwyrm.Prelude.{
  ◌≡◌, ◌⊎◌, true, false, refl, arith, List, [], ◌∷◌, ◌++◌, map, some, ◌≡◌, ◌⊎◌, true, false, refl,
  arith, List, [], ◌∷◌, ◌++◌, map, some, get_or_else, get_or_else,
}
use portwyrm.Prelude.Dict
use portwyrm.Quic.Bytes.{Bytes}
use portwyrm.Quic.Router.State.{
  Addr, Key, addr_eq, cid_eq, key_eq, Route, Session, OpenTask, to_upstream, to_client, Router,
}
use portwyrm.Quic.Router.Sessions.{
  session_for_datagram, add_session, index_all, pause_ingress_for_first_upstream,
}
use portwyrm.Quic.Router.Ingress.{datagram_received}
use portwyrm.Quic.Router.Opening.{connected, finish_open, upstream_datagram_received, reap}
use portwyrm.Quic.Router.Isolation.{session_for_datagram_own}
use portwyrm.Quic.Router.Invariant.Consistent.{IsConsistent}
use portwyrm.Quic.Router.Invariant.Tasks.{connected-IsConsistent}
use portwyrm.Quic.Router.Run.{
  Event, datagram, task_begins, task_connected, upstream, timer, reaper, started, run,
}
use portwyrm.Quic.Router.Run.Safety.{started-IsConsistent, run-IsConsistent}
use portwyrm.Quic.Router.Run.Outputs.{
  datagram_received-sent, upstream_datagram_received-sent, connected-sent,
}
use portwyrm.Quic.Router.Run.Resume.{firings, timers-resume}
use portwyrm.Quic.Router.Run.Reaping.{is_idle, reap-idle}
use portwyrm.Tests.Packets.{toy, client_initial}

abbrev client : Addr
client = ("192.0.2.7", 50000)

abbrev key : Key
key = (client, 1 ∷ 2 ∷ 3 ∷ 4 ∷ 5 ∷ 6 ∷ 7 ∷ 8 ∷ [])

abbrev route : Route
route = record {
  server_name = 97 ∷ 46 ∷ 98 ∷ [];
  target = "10.0.0.2";
  target_port = 443;
  alpn = 104 ∷ 51 ∷ [];
  idle_timeout_seconds = 30;
}

abbrev task : OpenTask
task = record {
  addr = client;
  route = route;
  client_scid = [];
  initial_dcid = key.1;
  connecting = true;
}

-- An Initial waits for the socket of its session.
abbrev waiting_router : Router
waiting_router = record started {
  pending = (key, client_initial ∷ []) ∷ [];
  opening = key ∷ [];
  tasks = (key, task) ∷ [];
}

waiting_router-IsConsistent : IsConsistent waiting_router
unfolding Dict.get Dict.member
waiting_router-IsConsistent = record {
  tables = started-IsConsistent.tables;
  waiting = record {
    queued = λ k h. ground arith;
    fresh = λ k h. refl;
    unseen = λ k h. refl;
    task_opening = λ k h. ground arith;
    task_addr = λ k t h. ground (arith, key_eq.beq_iff key k);
    few = omega arith;
    short = λ k q h. ground arith;
  };
  pause = started-IsConsistent.pause;
}

-- The socket 7 is ready at the time 1000.
abbrev opened : Router
opened = connected 1000 7 key task waiting_router

opened-IsConsistent : IsConsistent opened
unfolding Dict.get
opened-IsConsistent =
    connected-IsConsistent 1000 7 key task waiting_router waiting_router-IsConsistent
      (ground (arith, key_eq.beq_iff key key))

-- A datagram with a short header.
abbrev short : Bytes
short = 64 ∷ 9 ∷ 9 ∷ 9 ∷ []

abbrev events : List Event
events =
    datagram 0 client_initial client
    ∷ task_begins key
    ∷ task_connected 20 7 key
    ∷ upstream 25 key short
    ∷ datagram 30 short client
    ∷ timer key
    ∷ reaper 60000
    ∷ []

run-IsConsistent_example : IsConsistent (run toy events started)
run-IsConsistent_example = run-IsConsistent toy events started started-IsConsistent

session_for_datagram_own_example : (key.0 ≡ client) × (Dict.has opened.sessions key ≡ true)
unfolding connected add_session index_all pause_ingress_for_first_upstream finish_open
    session_for_datagram Dict.get Dict.put Dict.member addr_eq Dict.add
session_for_datagram_own_example =
    session_for_datagram_own opened opened-IsConsistent.tables client short key refl

datagram_received-sent_example :
    ((datagram_received toy 1100 short client opened).sent ≡ opened.sent)
    ⊎ ((k : Key) × (s : Session) × (Dict.get opened.sessions k ≡ some s)
        × (s.client ≡ client)
        × ((datagram_received toy 1100 short client opened).sent
            ≡ opened.sent ++ to_upstream s.upstream short ∷ []))
datagram_received-sent_example =
    datagram_received-sent toy 1100 short client opened opened-IsConsistent

timers-resume_example : (run toy (firings opened.ingress_pause_timers) opened).paused ≡ false
timers-resume_example = timers-resume toy opened opened-IsConsistent

upstream_datagram_received-sent_example :
    (upstream_datagram_received 1200 key short opened).sent
    ≡ opened.sent ++ to_client client short ∷ []
unfolding connected add_session index_all pause_ingress_for_first_upstream finish_open Dict.get
    Dict.put Dict.member key_eq Dict.add addr_eq cid_eq
upstream_datagram_received-sent_example =
    upstream_datagram_received-sent 1200 key short opened opened-IsConsistent refl

connected-sent_example :
    let after = connected 1000 7 key task waiting_router in
    (after.sent
      ≡ waiting_router.sent
        ++ map (to_upstream 7) (get_or_else (Dict.get waiting_router.pending key) []))
    × (Dict.has after.pending key ≡ false)
    × ((s : Session) × (Dict.get after.sessions key ≡ some s)
        × (s.upstream ≡ 7)
        × (s.client ≡ client))
    × (Dict.member after.opening key ≡ false)
connected-sent_example = connected-sent 1000 7 key task waiting_router

abbrev fresh_session : Session
fresh_session = record {
  upstream = 7;
  timeout = 30;
  client = client;
  client_scid = [];
  server_cids = [];
  last_seen = 1000;
  opened_at = 1000;
  upstream_datagrams_received = 0;
}

reap-idle_example :
    (Dict.get opened.sessions key ≡ some fresh_session) × (is_idle 20000 fresh_session ≡ false)
unfolding connected add_session index_all pause_ingress_for_first_upstream finish_open reap Dict.get
    Dict.put Dict.pop Dict.member key_eq Dict.add addr_eq cid_eq
reap-idle_example = reap-idle 20000 opened key fresh_session refl
