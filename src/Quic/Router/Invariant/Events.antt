-- ===== src/Quic/Router/Invariant/Events.antt =====
-- Every event of the router of src/portwyrm/runtime/quic_router.py keeps its invariant.
use portwyrm.Prelude.{
  ℕ, ◌≡◌, ◌≤◌, ◌<◌, ◌⊎◌, ◌&&◌, Bool, true, false, not, refl, arith, List, [], ◌∷◌, ◌++◌,
  Option-cases, Bool-cases, inl, inr, get_elem?, get_or_else, length, length-append, leb,
  Option-cases, Bool-cases, inl, inr, get_elem?, get_or_else, length, length-append, leb, contains,
}
use portwyrm.Prelude.Result.{Result-cases, ◌>>=◌}
use portwyrm.Prelude.Dict
use portwyrm.Prelude.Dict.{Dict}
use portwyrm.Quic.Bytes.{Bytes, Text, Parsed, is_long}
use portwyrm.Quic.Header.{Primitives, initial_connection_ids, decrypt_initial}
use portwyrm.Quic.Frames.{Fragments, crypto_fragments, assemble_crypto}
use portwyrm.Quic.Hello.{parse_client_hello}
use portwyrm.Quic.Router.State.{Addr, Key, addr_eq, cid_eq, key_eq, Router}
use portwyrm.Quic.Router.Sessions.{session_for_datagram}
use portwyrm.Quic.Router.Ingress.{
  forward, drop_pending, queue_for_opening, select_route, inspect, accept_initial,
  datagram_received, update_fragments,
}
use portwyrm.Quic.Router.Isolation.{session_for_datagram_new}
use portwyrm.Quic.Router.Invariant.Tables.{TablesFit-touch}
use portwyrm.Quic.Router.Invariant.Waiting.{
  WaitingFit-put, WaitingFit-drop, WaitingFit-see, WaitingFit-unsee, WaitingFit-spawn,
  WaitingFit-session, WaitingFit-session,
}
use portwyrm.Quic.Router.Invariant.Pause.{PauseFit-session}
use portwyrm.Quic.Router.Invariant.Consistent.{IsConsistent}

forward-IsConsistent :
    (now : ℕ) (key : Key) (datagram : Bytes) (r : Router)
    → IsConsistent r
    → IsConsistent (forward now key datagram r)
unfolding forward
forward-IsConsistent now key datagram r fit = elim (Option-cases (Dict.get r.sessions key)) [
  | inl closed ↦ rw (closed, forward) fit
  | inr (s, there) ↦
      rw (there, forward)
        (record {
          tables = TablesFit-touch fit.tables key s _ there refl refl;
          waiting = WaitingFit-session fit.waiting key _ (inr (rw there));
          pause = PauseFit-session fit.pause key _;
        })
]

drop_pending-IsConsistent :
    (key : Key) (r : Router)
    → IsConsistent r
    → Dict.member r.opening key ≡ false
    → IsConsistent (drop_pending key r)
unfolding drop_pending
drop_pending-IsConsistent key r fit idle = record {
  tables = fit.tables;
  waiting = WaitingFit-drop fit.waiting key idle;
  pause = fit.pause;
}

queue_for_opening-IsConsistent :
    (key : Key) (datagram : Bytes) (r : Router)
    → IsConsistent r
    → Dict.member r.opening key ≡ true
    → IsConsistent (queue_for_opening key datagram r)
unfolding queue_for_opening
queue_for_opening-IsConsistent key datagram r fit opens =
    let queue = get_or_else (Dict.get r.pending key) [] in
    let waits = fit.waiting.queued key opens in
    record {
      tables = fit.tables;
      waiting =
          WaitingFit-put fit.waiting key _
            (ground (arith, fit.waiting.short key queue, length-append queue (datagram ∷ [])))
            (inl waits);
      pause = fit.pause;
    }

select_route-IsConsistent :
    (key : Key) (scid : Bytes) (name : Text) (alpns : List Text) (r : Router)
    → IsConsistent r
    → Dict.member r.opening key ≡ false
    → Dict.has r.sessions key ≡ false
    → Dict.has r.pending key ≡ true
    → IsConsistent (select_route key scid name alpns r)
unfolding select_route
select_route-IsConsistent key scid name alpns r fit idle new waits =
    let dropped = WaitingFit-drop fit.waiting key idle in
    elim (Option-cases (Dict.get r.routes name)) [
      | inl unknown ↦
          rw (unknown, select_route)
            (record { tables = fit.tables; waiting = dropped; pause = fit.pause })
      | inr (route, found) ↦ elim (Bool-cases (contains alpns route.alpn)) [
        | inr other ↦
            rw (found, other, select_route)
              (record { tables = fit.tables; waiting = dropped; pause = fit.pause })
        | inl spoken ↦
            rw (found, spoken, select_route)
              (record {
                tables = fit.tables;
                waiting =
                    WaitingFit-spawn (WaitingFit-unsee fit.waiting key) key _ waits new
                      (ground (arith, Dict.get-pop r.pending_seen key key, key_eq.beq_iff key key))
                      refl;
                pause = fit.pause;
              })
      ]
    ]

place_of : (waits : Bool) (n : ℕ) → (not waits && leb 2048 n) ≡ false → (waits ≡ true) ⊎ (n < 2048)
place_of true n h = inl refl
place_of false n h = inr (ground arith)

module _ (p : Primitives) where
  inspect-IsConsistent :
      (key : Key) (scid datagram : Bytes) (r : Router)
      → IsConsistent r
      → Dict.member r.opening key ≡ false
      → Dict.has r.sessions key ≡ false
      → Dict.has r.pending key ≡ true
      → IsConsistent (inspect p key scid datagram r)
  unfolding inspect
  inspect-IsConsistent key scid datagram r fit idle new waits =
      let fragments : Parsed Fragments = decrypt_initial p datagram >>= crypto_fragments in
      elim (Result-cases fragments) [
        | inl (x, bad) ↦ rw (bad, inspect) fit
        | inr (found, good) ↦
            let crypto = update_fragments (get_or_else (Dict.get r.pending_crypto key) []) found in
            let collected = record r { pending_crypto = Dict.put r.pending_crypto key crypto } in
            let kept : IsConsistent collected = record {
              tables = fit.tables;
              waiting = fit.waiting;
              pause = fit.pause;
            } in
            elim (Result-cases (parse_client_hello (assemble_crypto crypto))) [
              | inl (x, early) ↦ rw (good, early, inspect) kept
              | inr (hello, complete) ↦
                  rw (good, complete, inspect)
                    (select_route-IsConsistent key scid hello.0 hello.1 collected kept idle new
                      waits)
            ]
      ]

  accept_initial-IsConsistent :
      (now : ℕ) (key : Key) (scid datagram : Bytes) (r : Router)
      → IsConsistent r
      → Dict.has r.sessions key ≡ false
      → IsConsistent (accept_initial p now key scid datagram r)
  unfolding accept_initial
  accept_initial-IsConsistent now key scid datagram r fit new =
      let queue = get_or_else (Dict.get r.pending key) [] in
      let longer = length-append queue (datagram ∷ []) in
      elim (Bool-cases (Dict.member r.opening key)) [
        | inl opens ↦
            rw (opens, accept_initial) (queue_for_opening-IsConsistent key datagram r fit opens)
        | inr idle ↦
            elim (Bool-cases (not (Dict.has r.pending key) && leb 2048 (length r.pending))) [
              | inl full ↦ rw (idle, full, accept_initial) fit
              | inr room ↦
                  let place : (Dict.has r.pending key ≡ true) ⊎ (length r.pending < 2048) =
                    place_of (Dict.has r.pending key) (length r.pending) room in
                  let small : length queue ≤ 8 = ground (arith, fit.waiting.short key queue) in
                  let seen : IsConsistent _ = record {
                    tables = fit.tables;
                    waiting =
                        WaitingFit-see (WaitingFit-put fit.waiting key queue small place) key now
                          idle;
                    pause = fit.pause;
                  } in
                  elim (Bool-cases (leb 8 (length queue))) [
                    | inl many ↦
                        rw (idle, room, many, accept_initial)
                          (drop_pending-IsConsistent key _ seen idle)
                    | inr few ↦
                        rw (idle, room, few, accept_initial)
                          (inspect-IsConsistent key scid datagram _
                            (record {
                              tables = fit.tables;
                              waiting =
                                  WaitingFit-see
                                    (WaitingFit-put fit.waiting key (queue ++ datagram ∷ [])
                                      (ground arith) place)
                                    key now idle;
                              pause = fit.pause;
                            })
                            idle new
                            (ground (
                              arith,
                              Dict.get-put r.pending key key (queue ++ datagram ∷ []),
                              key_eq.beq_iff key key,
                            )))
                  ]
            ]
      ]

  -- Whatever datagram arrives from whatever address, the router stays consistent.
  pub datagram_received-IsConsistent :
      (now : ℕ) (datagram : Bytes) (addr : Addr) (r : Router)
      → IsConsistent r
      → IsConsistent (datagram_received p now datagram addr r)
  unfolding datagram_received
  datagram_received-IsConsistent now datagram addr r fit =
      elim (Option-cases (session_for_datagram datagram addr r)) [
        | inr (key, known) ↦
            rw (known, datagram_received) (forward-IsConsistent now key datagram r fit)
        | inl stranger ↦ elim (Option-cases (get_elem? datagram 0)) [
          | inl nothing ↦ rw (stranger, nothing, datagram_received) fit
          | inr (first, e) ↦ elim (Bool-cases (is_long first)) [
            | inr small ↦ rw (stranger, e, small, datagram_received) fit
            | inl long ↦ elim (Result-cases (initial_connection_ids datagram)) [
              | inl (x, bad) ↦ rw (stranger, e, long, bad, datagram_received) fit
              | inr (ids, good) ↦
                  rw (stranger, e, long, good, datagram_received)
                    (accept_initial-IsConsistent now (addr, ids.0) ids.1 datagram r fit
                      (session_for_datagram_new r fit.tables addr datagram first ids e long good
                        stranger))
            ]
          ]
        ]
      ]
