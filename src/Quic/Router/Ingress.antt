-- ===== src/Quic/Router/Ingress.antt =====
-- `datagram_received` of `QuicRouter` in src/portwyrm/runtime/quic_router.py.
use portwyrm.Prelude.{
  ℕ, ◌&&◌, false, not, List, [], ◌∷◌, ◌++◌, none, some, length, leb, ltb, if◌then◌else◌, nat_eq,
  get_or_else, get_elem?, contains,
}
use portwyrm.Prelude.Result.{ok, err, ◌>>=◌}
use portwyrm.Prelude.Dict
use portwyrm.Prelude.Dict.{Dict}
use portwyrm.Quic.Bytes.{Bytes, Text, Parsed, is_long}
use portwyrm.Quic.Header.{Primitives, initial_connection_ids, decrypt_initial}
use portwyrm.Quic.Frames.{Fragments, crypto_fragments, assemble_crypto}
use portwyrm.Quic.Hello.{parse_client_hello}
use portwyrm.Quic.Router.State.{Addr, Key, addr_eq, cid_eq, key_eq, to_upstream, Router}
use portwyrm.Quic.Router.Sessions.{session_for_datagram}

-- The datagram goes to the upstream of its session.
unfoldable pub forward : ℕ → Key → Bytes → Router → Router
forward now key datagram r = elim (Dict.get r.sessions key) [
  | none ↦ r
  | some session ↦ record r {
    sessions = Dict.put r.sessions key (record session { last_seen = now });
    sent = r.sent ++ to_upstream session.upstream datagram ∷ [];
  }
]

unfoldable pub drop_pending : Key → Router → Router
drop_pending key r = record r {
  pending = Dict.pop r.pending key;
  pending_crypto = Dict.pop r.pending_crypto key;
  pending_seen = Dict.pop r.pending_seen key;
  pending_started = Dict.pop r.pending_started key;
}

-- While the socket is being opened a datagram waits, if fewer than eight do.
unfoldable pub queue_for_opening : Key → Bytes → Router → Router
queue_for_opening key datagram r =
    let queue = get_or_else (Dict.get r.pending key) [] in
    let longer = if ltb (length queue) 8 then queue ++ datagram ∷ [] else queue in
    record r { pending = Dict.put r.pending key longer }

-- `pending_crypto.update(fragments)`
unfoldable pub update_fragments : Fragments → Fragments → Fragments
update_fragments known [] = known
update_fragments known ((o, f) ∷ rest) = update_fragments (Dict.put known o f) rest

-- The server name is known: a task opens the route, or the datagrams are dropped.
unfoldable pub select_route : Key → Bytes → Text → List Text → Router → Router
select_route key scid name alpns r =
    let known = record r {
      pending_crypto = Dict.pop r.pending_crypto key;
      pending_seen = Dict.pop r.pending_seen key;
    } in
    let dropped = record known {
      pending = Dict.pop known.pending key;
      pending_started = Dict.pop known.pending_started key;
    } in
    elim (Dict.get r.routes name) [
      | none ↦ dropped
      | some route ↦
          if contains alpns route.alpn
          then record known {
            opening = Dict.add known.opening key;
            tasks = Dict.put known.tasks key (record {
              addr = key.0;
              route = route;
              client_scid = scid;
              initial_dcid = key.1;
              connecting = false;
            });
          }
          else dropped
    ]

module _ (p : Primitives) where
  -- The `try` of `datagram_received`: what was collected before an exception stays.
  unfoldable pub inspect : Key → Bytes → Bytes → Router → Router
  inspect key scid datagram r =
      let fragments : Parsed Fragments = (do
        plaintext ← decrypt_initial p datagram
        crypto_fragments plaintext) in
      elim fragments [
        | err _ ↦ r
        | ok found ↦
            let crypto = update_fragments (get_or_else (Dict.get r.pending_crypto key) []) found in
            let collected = record r { pending_crypto = Dict.put r.pending_crypto key crypto } in
            elim (parse_client_hello (assemble_crypto crypto)) [
              | err _ ↦ collected
              | ok hello ↦ select_route key scid hello.0 hello.1 collected
            ]
      ]

  -- A long header of no known session, behind the parse of its connection IDs.
  unfoldable pub accept_initial : ℕ → Key → Bytes → Bytes → Router → Router
  accept_initial now key scid datagram r =
      let queue = get_or_else (Dict.get r.pending key) [] in
      let seen = record r {
        pending = Dict.put r.pending key queue;
        pending_started = Dict.set_default r.pending_started key now;
        pending_seen = Dict.put r.pending_seen key now;
      } in
      let queued = record seen { pending = Dict.put r.pending key (queue ++ datagram ∷ []) } in
      if Dict.member r.opening key
      then queue_for_opening key datagram r
      else if not (Dict.has r.pending key) && leb 2048 (length r.pending)
      then r
      else if leb 8 (length queue)
      then drop_pending key seen
      else inspect key scid datagram queued

  unfoldable pub datagram_received : ℕ → Bytes → Addr → Router → Router
  datagram_received now datagram addr r = elim (session_for_datagram datagram addr r) [
    | some key ↦ forward now key datagram r
    | none ↦ elim (get_elem? datagram 0) [
      | none ↦ r
      | some first ↦
          if is_long first
          then elim (initial_connection_ids datagram) [
            | err _ ↦ r
            | ok ids ↦ accept_initial now (addr, ids.0) ids.1 datagram r
          ]
          else r
    ]
  ]
