-- ===== src/Quic/Router/Sessions.antt =====
-- The session table and its indexes in src/portwyrm/runtime/quic_router.py.
use portwyrm.Prelude.{
  ℕ, ◌+◌, ◌-◌, ◌&&◌, Bool, true, false, List, [], ◌∷◌, ◌++◌, Option, none, some, length, leb,
  if◌then◌else◌, ◌==◌, nat_eq, is_empty, get_or_else, slice, get_elem?,
}
use portwyrm.Prelude.Result.{ok, err}
use portwyrm.Prelude.Dict
use portwyrm.Prelude.Dict.{Dict}
use portwyrm.Quic.Bytes.{Bytes, is_long}
use portwyrm.Quic.Header.{initial_connection_ids}
use portwyrm.Quic.Router.State.{Addr, Key, addr_eq, cid_eq, key_eq, Session, close_upstream, Router}

-- `tuple(sorted(counts, reverse=True))`
unfoldable pub insert_down : ℕ → List ℕ → List ℕ
insert_down n [] = n ∷ []
insert_down n (m ∷ rest) = if leb m n then n ∷ m ∷ rest else m ∷ insert_down n rest

unfoldable pub sorted_lengths : Dict ℕ ℕ → List ℕ
unfolding insert_down
sorted_lengths [] = []
sorted_lengths ((n, _) ∷ rest) = insert_down n (sorted_lengths rest)

unfoldable pub remove_server_cid_length : ℕ → Router → Router
remove_server_cid_length size r =
    let count = get_or_else (Dict.get r.server_cid_length_counts size) 0 in
    let counts =
      if leb count 1
      then Dict.pop r.server_cid_length_counts size
      else Dict.put r.server_cid_length_counts size (count - 1) in
    record r { server_cid_length_counts = counts; server_cid_lengths = sorted_lengths counts }

-- The part of `_index_server_connection_id` behind its returns.
unfoldable pub insert_server_cid : Key → Bytes → Session → Router → Router
insert_server_cid key cid session r =
    let size = length cid in
    let counts =
      Dict.put r.server_cid_length_counts size
        (get_or_else (Dict.get r.server_cid_length_counts size) 0 + 1) in
    record r {
      sessions =
          Dict.put r.sessions key
            (record session { server_cids = Dict.add session.server_cids cid });
      sessions_by_server_cid = Dict.put r.sessions_by_server_cid cid key;
      server_cid_length_counts = counts;
      server_cid_lengths = sorted_lengths counts;
    }

-- A connection ID that another session owns is left alone, one that this session owns is known.
unfoldable pub index_server_connection_id : Key → Bytes → Router → Router
index_server_connection_id key cid r = elim (Dict.get r.sessions key) [
  | none ↦ r
  | some session ↦ elim (Dict.get r.sessions_by_server_cid cid) [
    | some owner ↦ r
    | none ↦ insert_server_cid key cid session r
  ]
]

unfoldable pub register_server_connection_id : Key → Bytes → Router → Router
register_server_connection_id key datagram r = elim (get_elem? datagram 0) [
  | none ↦ r
  | some first ↦
      if is_long first
      then elim (initial_connection_ids datagram) [
        | err _ ↦ r
        | ok ids ↦ if is_empty ids.1 then r else index_server_connection_id key ids.1 r
      ]
      else r
]

unfoldable pub index_all : Key → List Bytes → Router → Router
index_all key [] r = r
index_all key (cid ∷ cids) r = index_all key cids (index_server_connection_id key cid r)

unfoldable pub add_session : Key → Session → Router → Router
unfolding index_all
add_session key session r =
    let keys = get_or_else (Dict.get r.sessions_by_addr session.client) [] in
    index_all key session.server_cids (record r {
      sessions = Dict.put r.sessions key session;
      sessions_by_addr = Dict.put r.sessions_by_addr session.client (Dict.add keys key);
    })

-- `_release_ingress_pause`: the timer is cancelled, and reading goes on when nobody is waited for.
unfoldable pub release_ingress_pause : Key → Router → Router
release_ingress_pause key r =
    if Dict.member r.awaiting_first_upstream key
    then (let awaiting = Dict.discard r.awaiting_first_upstream key in
        record r {
          awaiting_first_upstream = awaiting;
          ingress_pause_timers = Dict.pop r.ingress_pause_timers key;
          paused = if is_empty awaiting && r.attached then false else r.paused;
        })
    else r

-- The timer of `call_later` is due 250 ms from now.
unfoldable pub pause_ingress_for_first_upstream : ℕ → Key → Router → Router
pause_ingress_for_first_upstream now key r =
    if Dict.member r.awaiting_first_upstream key
    then r
    else (let awaiting = Dict.add r.awaiting_first_upstream key in
        record r {
          awaiting_first_upstream = awaiting;
          paused = if length awaiting == 1 && r.attached then true else r.paused;
          ingress_pause_timers = Dict.put r.ingress_pause_timers key (now + 250);
        })

-- The loop of `_remove_session` over the session's connection IDs.
unfoldable pub unindex_all : Key → List Bytes → Router → Router
unindex_all key [] r = r
unindex_all key (cid ∷ cids) r =
    let owned : Bool = elim (Dict.get r.sessions_by_server_cid cid) [
      | none ↦ false
      | some k ↦ k == key
    ] in
    let popped =
      remove_server_cid_length (length cid)
        (record r { sessions_by_server_cid = Dict.pop r.sessions_by_server_cid cid }) in
    unindex_all key cids (if owned then popped else r)

unfoldable pub forget_addr : Key → Addr → Router → Router
forget_addr key client r = elim (Dict.get r.sessions_by_addr client) [
  | none ↦ r
  | some keys ↦
      let rest = Dict.discard keys key in
      if is_empty rest
      then record r { sessions_by_addr = Dict.pop r.sessions_by_addr client }
      else record r { sessions_by_addr = Dict.put r.sessions_by_addr client rest }
]

unfoldable pub remove_session : Key → Router → Router
unfolding unindex_all forget_addr
remove_session key r = elim (Dict.get r.sessions key) [
  | none ↦ r
  | some session ↦
      let popped = record r { sessions = Dict.pop r.sessions key } in
      let released = release_ingress_pause key popped in
      let unindexed =
        unindex_all key session.server_cids (forget_addr key session.client released) in
      record unindexed { sent = unindexed.sent ++ close_upstream session.upstream ∷ [] }
]

-- The first length at which the bytes behind the first byte are a connection ID of one of `keys`.
unfoldable pub match_lengths : Dict Bytes Key → List Key → Bytes → List ℕ → Option Key
match_lengths by_cid keys datagram [] = none
match_lengths by_cid keys datagram (size ∷ sizes) =
    let later = match_lengths by_cid keys datagram sizes in
    elim (Dict.get by_cid (slice datagram 1 (1 + size))) [
      | none ↦ later
      | some key ↦ if Dict.member keys key then some key else later
    ]

unfoldable pub the_only : List Key → Option Key
the_only (key ∷ []) = some key
the_only _ = none

-- A long header names its session by a connection ID that the server chose, if the session is of
-- this address, or by the one that the client chose first.
unfoldable pub session_for_long : Bytes → Addr → Router → Option Key
session_for_long dcid addr r =
    let own = if Dict.has r.sessions (addr, dcid) then some (addr, dcid) else none in
    elim (Dict.get r.sessions_by_server_cid dcid) [
      | none ↦ own
      | some key ↦ elim (Dict.get r.sessions key) [
        | none ↦ own
        | some session ↦ if session.client == addr then some key else own
      ]
    ]

unfoldable pub session_for_datagram : Bytes → Addr → Router → Option Key
unfolding session_for_long match_lengths the_only
session_for_datagram datagram addr r = elim (get_elem? datagram 0) [
  | none ↦ none
  | some first ↦
      let keys = get_or_else (Dict.get r.sessions_by_addr addr) [] in
      if is_long first
      then elim (initial_connection_ids datagram) [
        | err _ ↦ none
        | ok ids ↦ session_for_long ids.0 addr r
      ]
      else elim (match_lengths r.sessions_by_server_cid keys datagram r.server_cid_lengths) [
        | some key ↦ some key
        | none ↦ the_only keys
      ]
]
