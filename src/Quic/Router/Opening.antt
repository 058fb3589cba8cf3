-- ===== src/Quic/Router/Opening.antt =====
-- The other events of `QuicRouter` in src/portwyrm/runtime/quic_router.py: the tasks that open a
-- route, upstream datagrams, timers, the reaper, reloads and the end of the listener.
use portwyrm.Prelude.{
  ℕ, ◌+◌, ◌-◌, ◌*◌, true, List, [], ◌∷◌, ◌++◌, none, some, map, ltb, if◌then◌else◌, ◌==◌, nat_eq,
  get_or_else,
}
use portwyrm.Prelude.Dict
use portwyrm.Prelude.Dict.{Dict}
use portwyrm.Quic.Bytes.{Bytes, Text}
use portwyrm.Quic.Hello.{fold_name}
use portwyrm.Quic.Router.State.{
  Key, addr_eq, cid_eq, key_eq, Route, Session, OpenTask, to_upstream, to_client, close_upstream,
  Key, addr_eq, cid_eq, key_eq, Route, Session, OpenTask, to_upstream, to_client, close_upstream,
  Router,
}
use portwyrm.Quic.Router.Sessions.{
  add_session, remove_session, release_ingress_pause, pause_ingress_for_first_upstream,
  register_server_connection_id,
}
use portwyrm.Quic.Router.Ingress.{drop_pending}

-- The `finally` of `_open`.
unfoldable pub finish_open : Key → Router → Router
finish_open key r = record r { opening = Dict.discard r.opening key; tasks = Dict.pop r.tasks key }

-- `_open` up to its `await`: it ends at once if the session is there, and else asks for a socket.
unfoldable pub begin_open : Key → OpenTask → Router → Router
unfolding finish_open
begin_open key task r =
    if Dict.has r.sessions key
    then finish_open key r
    else record r { tasks = Dict.put r.tasks key (record task { connecting = true }) }

-- `_open` behind its `await`: the session stands in the tables, reading is paused, and the waiting
-- datagrams go to the new socket in the order in which they came.
unfoldable pub connected : ℕ → ℕ → Key → OpenTask → Router → Router
unfolding finish_open
connected now socket key task r =
    let session : Session = record {
      upstream = socket;
      timeout = task.route.idle_timeout_seconds;
      client = task.addr;
      client_scid = task.client_scid;
      server_cids = [];
      last_seen = now;
      opened_at = now;
      upstream_datagrams_received = 0;
    } in
    let added = add_session key session r in
    let known = record added {
      pending_crypto = Dict.pop added.pending_crypto key;
      pending_seen = Dict.pop added.pending_seen key;
      pending_started = Dict.pop added.pending_started key;
    } in
    let waiting = pause_ingress_for_first_upstream now key known in
    let queue = get_or_else (Dict.get waiting.pending key) [] in
    finish_open key (record waiting {
      pending = Dict.pop waiting.pending key;
      sent = waiting.sent ++ map (to_upstream socket) queue;
    })

-- The `except` of `_open`.
unfoldable pub open_failed : Key → Router → Router
unfolding drop_pending finish_open
open_failed key r = finish_open key (release_ingress_pause key (drop_pending key r))

-- `UpstreamProtocol.datagram_received`: the datagram goes to the client. The first one ends the
-- pause.
unfoldable pub upstream_datagram_received : ℕ → Key → Bytes → Router → Router
upstream_datagram_received now key datagram r = elim (Dict.get r.sessions key) [
  | none ↦ r
  | some session ↦
      let received = session.upstream_datagrams_received + 1 in
      let counted = record r {
        sessions =
            Dict.put r.sessions key (record session { upstream_datagrams_received = received });
      } in
      let registered = register_server_connection_id key datagram counted in
      let passed = record registered {
        sent =
            if registered.attached
            then registered.sent ++ to_client session.client datagram ∷ []
            else registered.sent;
      } in
      let released = if received == 1 then release_ingress_pause key passed else passed in
      elim (Dict.get released.sessions key) [
        | none ↦ released
        | some latest ↦ record released {
          sessions = Dict.put released.sessions key (record latest { last_seen = now });
        }
      ]
]

-- A round of `_reaper`: first the Initials that were not completed in ten seconds.
unfoldable pub reap_pending : ℕ → Dict Key ℕ → Router → Router
unfolding drop_pending
reap_pending now [] r = r
reap_pending now ((key, seen) ∷ rest) r =
    reap_pending now rest (if ltb 10000 (now - seen) then drop_pending key r else r)

-- Then the sessions that were idle longer than their route allows, in seconds.
unfoldable pub reap_sessions : ℕ → Dict Key Session → Router → Router
reap_sessions now [] r = r
reap_sessions now ((key, session) ∷ rest) r =
    reap_sessions now rest
      (if ltb (session.timeout * 1000) (now - session.last_seen) then remove_session key r else r)

unfoldable pub reap : ℕ → Router → Router
unfolding reap_pending reap_sessions
reap now r =
    let cleaned = reap_pending now r.pending_seen r in reap_sessions now cleaned.sessions cleaned

-- The file of the routes: it cannot be read or does not fit, or it has a time and a list of routes
-- for each listener.
pub data Config : Type 0 where
  unreadable : Config
  unfit : ℕ → Config
  document : ℕ → List (List Route) → Config

unfoldable pub route_table : Dict Text Route → List Route → Dict Text Route
route_table table [] = table
route_table table (route ∷ routes) =
    route_table (Dict.put table (fold_name route.server_name) route) routes

unfoldable pub listener_table : Dict Text Route → List (List Route) → Dict Text Route
unfolding route_table
listener_table table [] = table
listener_table table (routes ∷ listeners) = listener_table (route_table table routes) listeners

-- A file that fails keeps the routes that were loaded before.
unfoldable pub reload : Config → Router → Router
reload unreadable r = r
reload (unfit modified) r = r
reload (document modified listeners) r =
    let loaded = record r { routes = listener_table [] listeners; config_mtime = some modified } in
    elim r.config_mtime [ none ↦ loaded | some last ↦ if modified == last then r else loaded ]

-- A task that waits for its socket runs its `finally` when it is cancelled; one that has not begun
-- never runs at all.
unfoldable pub cancel_tasks : Dict Key OpenTask → List Key → List Key
cancel_tasks [] opening = opening
cancel_tasks ((key, task) ∷ rest) opening =
    cancel_tasks rest (if task.connecting then Dict.discard opening key else opening)

-- The listener is closed: timers and tasks end, and every upstream socket is closed.
unfoldable pub connection_lost : Router → Router
unfolding cancel_tasks
connection_lost r = record r {
  tasks = [];
  opening = cancel_tasks r.tasks r.opening;
  ingress_pause_timers = [];
  awaiting_first_upstream = [];
  sent = r.sent ++ map (λ entry. close_upstream entry.1.upstream) r.sessions;
}
