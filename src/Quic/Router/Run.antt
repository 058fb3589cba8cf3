-- ===== src/Quic/Router/Run.antt =====
-- Runs of the router of src/portwyrm/runtime/quic_router.py: the event loop calls one handler after
-- the other, in an order that the network, the timers and the files decide.
pub mod Safety
pub mod Outputs
pub mod Resume
pub mod Reaping
use portwyrm.Prelude.{ℕ, Bool, true, false, List, [], ◌∷◌, Option, none, some, if◌then◌else◌}
use portwyrm.Prelude.Dict
use portwyrm.Quic.Bytes.{Bytes}
use portwyrm.Quic.Header.{Primitives}
use portwyrm.Quic.Router.State.{Addr, Key, key_eq, Router}
use portwyrm.Quic.Router.Sessions.{release_ingress_pause}
use portwyrm.Quic.Router.Ingress.{datagram_received}
use portwyrm.Quic.Router.Opening.{
  begin_open, connected, open_failed, upstream_datagram_received, reap, reload, Config,
}

-- A datagram from a client, the three ways on of a task of `_open`, a datagram from an upstream, the
-- timer of a pause, a round of the reaper, and a round of the reloader.
pub data Event : Type 0 where
  datagram : ℕ → Bytes → Addr → Event
  task_begins : Key → Event
  task_connected : ℕ → ℕ → Key → Event
  task_failed : Key → Event
  upstream : ℕ → Key → Bytes → Event
  timer : Key → Event
  reaper : ℕ → Event
  reloader : Config → Event

-- The listener with its transport set, before the first event.
abbrev pub started : Router
started = record {
  attached = true;
  paused = false;
  sessions = [];
  sessions_by_addr = [];
  sessions_by_server_cid = [];
  server_cid_length_counts = [];
  server_cid_lengths = [];
  pending = [];
  pending_crypto = [];
  pending_seen = [];
  pending_started = [];
  opening = [];
  routes = [];
  config_mtime = none;
  tasks = [];
  awaiting_first_upstream = [];
  ingress_pause_timers = [];
  sent = [];
}

-- An event of a task that does not run, or has not come so far, does nothing.
unfoldable pub step : Primitives → Event → Router → Router
step p (datagram now bytes addr) r = datagram_received p now bytes addr r
step p (task_begins key) r = elim (Dict.get r.tasks key) [
  | none ↦ r
  | some task ↦ if task.connecting then r else begin_open key task r
]
step p (task_connected now socket key) r = elim (Dict.get r.tasks key) [
  | none ↦ r
  | some task ↦ if task.connecting then connected now socket key task r else r
]
step p (task_failed key) r = elim (Dict.get r.tasks key) [
  | none ↦ r
  | some task ↦ if task.connecting then open_failed key r else r
]
step p (upstream now key bytes) r = upstream_datagram_received now key bytes r
step p (timer key) r = release_ingress_pause key r
step p (reaper now) r = reap now r
step p (reloader config) r = reload config r

unfoldable pub run : Primitives → List Event → Router → Router
unfolding step
run p [] r = r
run p (event ∷ events) r = run p events (step p event r)
