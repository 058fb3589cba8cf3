-- ===== src/Quic/Router/Run/Outputs.antt =====
-- What the router of src/portwyrm/runtime/quic_router.py sends, and to whom.
use portwyrm.Prelude.{
  ℕ, ◌+◌, ◌≡◌, ◌⊎◌, ◌∙◌, true, false, refl, arith, List, [], ◌∷◌, ◌++◌, map, some, Option-cases,
  inl, inr, get_or_else, Option-cases, inl, inr, get_or_else,
}
use portwyrm.Prelude.Result.{Result-cases, ◌>>=◌}
use portwyrm.Prelude.Dict
use portwyrm.Quic.Bytes.{Bytes, Text}
use portwyrm.Quic.Header.{Primitives, decrypt_initial}
use portwyrm.Quic.Frames.{crypto_fragments}
use portwyrm.Quic.Router.State.{
  Addr, Key, addr_eq, cid_eq, key_eq, Session, OpenTask, to_upstream, to_client, Router,
}
use portwyrm.Quic.Router.Sessions.{
  session_for_datagram, release_ingress_pause, register_server_connection_id,
  index_server_connection_id, index_all, add_session, pause_ingress_for_first_upstream,
  insert_server_cid,
}
use portwyrm.Quic.Router.Ingress.{
  forward, drop_pending, queue_for_opening, select_route, inspect, accept_initial,
  datagram_received,
}
use portwyrm.Quic.Router.Opening.{upstream_datagram_received, connected}
use portwyrm.Quic.Router.Isolation.{session_for_datagram_own}
use portwyrm.Quic.Router.Invariant.Consistent.{IsConsistent, register_cases}

select_route-sent :
    (key : Key) (scid : Bytes) (name : Text) (alpns : List Text) (r : Router)
    → (select_route key scid name alpns r).sent ≡ r.sent
unfolding select_route
select_route-sent key scid name alpns r = ground arith

module _ (p : Primitives) where
  inspect-sent :
      (key : Key) (scid datagram : Bytes) (r : Router)
      → (inspect p key scid datagram r).sent ≡ r.sent
  unfolding inspect
  inspect-sent key scid datagram r =
      elim (Result-cases (decrypt_initial p datagram >>= crypto_fragments)) [
        | inl (x, bad) ↦ rw (bad, inspect)
        | inr (found, good) ↦ grind (arith, select_route-sent)
      ]

  accept_initial-sent :
      (now : ℕ) (key : Key) (scid datagram : Bytes) (r : Router)
      → (accept_initial p now key scid datagram r).sent ≡ r.sent
  unfolding accept_initial queue_for_opening drop_pending
  accept_initial-sent now key scid datagram r = grind (arith, inspect-sent)

  -- In a consistent state a client's datagram makes the router send nothing at all, or that same
  -- datagram to the upstream of one open session, whose client has the address that the datagram came
  -- from.
  pub datagram_received-sent :
      (now : ℕ) (datagram : Bytes) (addr : Addr) (r : Router)
      → IsConsistent r
      → ((datagram_received p now datagram addr r).sent ≡ r.sent)
        ⊎ ((k : Key) × (s : Session) × (Dict.get r.sessions k ≡ some s)
            × (s.client ≡ addr)
            × ((datagram_received p now datagram addr r).sent
                ≡ r.sent ++ to_upstream s.upstream datagram ∷ []))
  unfolding datagram_received forward
  datagram_received-sent now datagram addr r fit =
      elim (Option-cases (session_for_datagram datagram addr r)) [
        | inl new ↦ inl (grind (arith, accept_initial-sent))
        | inr (k, found) ↦
            let (home, open_lem) = session_for_datagram_own r fit.tables addr datagram k found in
            elim (Option-cases (Dict.get r.sessions k)) [
              | inl closed ↦ cc (rw closed at open_lem)
              | inr (s, there) ↦ inr (
                k,
                s,
                there,
                fit.tables.client k s there ∙ home,
                rw (found, datagram_received, there, forward),
              )
            ]
      ]

register-sent :
    (key : Key) (datagram : Bytes) (r : Router)
    → ((register_server_connection_id key datagram r).sent ≡ r.sent)
      × ((register_server_connection_id key datagram r).attached ≡ r.attached)
unfolding index_server_connection_id insert_server_cid
register-sent key datagram r =
    register_cases (λ x. (x.sent ≡ r.sent) × (x.attached ≡ r.attached)) key datagram r (refl, refl)
      (λ cid. ground arith)

release-sent : (key : Key) (r : Router) → (release_ingress_pause key r).sent ≡ r.sent
unfolding release_ingress_pause
release-sent key r = ground arith

-- In a consistent state a datagram from the upstream of an open session makes the router send exactly
-- that datagram, to the client address of the session's key.
pub upstream_datagram_received-sent :
    (now : ℕ) (key : Key) (datagram : Bytes) (r : Router)
    → IsConsistent r
    → Dict.has r.sessions key ≡ true
    → (upstream_datagram_received now key datagram r).sent ≡ r.sent ++ to_client key.0 datagram ∷ []
unfolding upstream_datagram_received
upstream_datagram_received-sent now key datagram r fit there =
    elim (Option-cases (Dict.get r.sessions key)) [
      | inl closed ↦ cc (rw closed at there)
      | inr (s, e) ↦
          let received = s.upstream_datagrams_received + 1 in
          let counted = record r {
            sessions =
                Dict.put r.sessions key (record s { upstream_datagrams_received = received });
          } in
          let registered = register_server_connection_id key datagram counted in
          let passed = record registered {
            sent = registered.sent ++ to_client s.client datagram ∷ [];
          } in
          ground (
            arith,
            register-sent key datagram counted,
            release-sent key passed,
            fit.tables.client key s e,
            fit.pause.attached_lem,
          )
    ]

index_all_nil : (key : Key) (r : Router) → index_all key [] r ≡ r
unfolding index_all
index_all_nil key r = refl

-- When the socket of an opening is ready, all datagrams that wait for it are sent to it in the order
-- in which they came, none waits for it any longer, the session uses the socket for the task's client
-- address, and the opening is over.
pub connected-sent :
    (now socket : ℕ) (key : Key) (task : OpenTask) (r : Router)
    → let after = connected now socket key task r in
      (after.sent ≡ r.sent ++ map (to_upstream socket) (get_or_else (Dict.get r.pending key) []))
      × (Dict.has after.pending key ≡ false)
      × ((s : Session) × (Dict.get after.sessions key ≡ some s)
          × (s.upstream ≡ socket)
          × (s.client ≡ task.addr))
      × (Dict.member after.opening key ≡ false)
unfolding connected add_session pause_ingress_for_first_upstream
connected-sent now socket key task r =
    let same = key_eq.beq_iff key key in
    let session : Session = record {
      upstream = socket;
      timeout = task.route.idle_timeout_seconds;
      client = task.addr;
      client_scid = task.client_scid;
      server_cids = [];
      last_seen = now;
      opened_at = now;
      upstream_datagrams_received = 0;
    } in
    (
      ground arith,
      ground (arith, Dict.get-pop r.pending key key, same),
      (session, ground (arith, Dict.get-put r.sessions key key session, same), refl, refl),
      ground (arith, Dict.member-discard r.opening key key, same),
    )
