-- ===== src/Quic/Router/State.antt =====
-- The state of `QuicRouter` in src/portwyrm/runtime/quic_router.py.
use portwyrm.Prelude.{ℕ, Bool, List, Option, String, Eq, nat_eq, string_eq, pair_eq, list_eq}
use portwyrm.Prelude.Dict.{Dict}
use portwyrm.Quic.Bytes.{Bytes, Text}
use portwyrm.Quic.Frames.{Fragments}

-- The address of a UDP peer: host and port.
abbrev pub Addr : Type 0
Addr = String × ℕ

-- The key of an opening or open session: the client's address and the destination connection ID
-- that it chose first.
abbrev pub Key : Type 0
Key = Addr × Bytes

instance unfoldable pub addr_eq : Eq Addr
addr_eq = pair_eq ⦃e = string_eq⦄ ⦃f = nat_eq⦄

instance unfoldable pub cid_eq : Eq Bytes
cid_eq = list_eq ⦃e = nat_eq⦄

instance unfoldable pub key_eq : Eq Key
key_eq = pair_eq ⦃e = addr_eq⦄ ⦃f = cid_eq⦄

pub record Route : Type 0 where
  pub server_name : Text
  pub target : String
  pub target_port : ℕ
  pub alpn : Text
  pub idle_timeout_seconds : ℕ

-- Times are milliseconds of the monotonic clock; `upstream` names the socket.
pub record Session : Type 0 where
  pub upstream : ℕ
  pub timeout : ℕ
  pub client : Addr
  pub client_scid : Bytes
  pub server_cids : List Bytes
  pub last_seen : ℕ
  pub opened_at : ℕ
  pub upstream_datagrams_received : ℕ

-- A task of `_open`: its arguments, and whether it waits for its socket.
pub record OpenTask : Type 0 where
  pub addr : Addr
  pub route : Route
  pub client_scid : Bytes
  pub initial_dcid : Bytes
  pub connecting : Bool

-- What the router does to the outside.
pub data Output : Type 0 where
  to_upstream : ℕ → Bytes → Output
  to_client : Addr → Bytes → Output
  close_upstream : ℕ → Output

-- `attached` says that the listener's transport is set, `paused` that its reading is paused.
-- `config_mtime` is `none` before the first load. `tasks` holds the running tasks of `_open` by session key, `sent` what was done so far.
pub record Router : Type 0 where
  pub attached : Bool
  pub paused : Bool
  pub sessions : Dict Key Session
  pub sessions_by_addr : Dict Addr (List Key)
  pub sessions_by_server_cid : Dict Bytes Key
  pub server_cid_length_counts : Dict ℕ ℕ
  pub server_cid_lengths : List ℕ
  pub pending : Dict Key (List Bytes)
  pub pending_crypto : Dict Key Fragments
  pub pending_seen : Dict Key ℕ
  pub pending_started : Dict Key ℕ
  pub opening : List Key
  pub routes : Dict Text Route
  pub config_mtime : Option ℕ
  pub tasks : Dict Key OpenTask
  pub awaiting_first_upstream : List Key
  pub ingress_pause_timers : Dict Key ℕ
  pub sent : List Output
