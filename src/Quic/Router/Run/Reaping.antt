-- ===== src/Quic/Router/Run/Reaping.antt =====
-- A round of `_reaper` of src/portwyrm/runtime/quic_router.py closes the idle sessions.
use portwyrm.Prelude.{
  ℕ, ◌-◌, ◌*◌, ◌≡◌, Bool, false, refl, ◌∙◌, arith, List, [], ◌∷◌, none, some, if◌then◌else◌, ltb,
  ◌==◌, Option-cases, Bool-cases, inl, inr,
}
use portwyrm.Prelude.Dict
use portwyrm.Prelude.Dict.{Dict}
use portwyrm.Quic.Bytes.{Bytes}
use portwyrm.Quic.Router.State.{Addr, Key, addr_eq, cid_eq, key_eq, Session, Router}
use portwyrm.Quic.Router.Sessions.{
  remove_session, release_ingress_pause, forget_addr, unindex_all, remove_server_cid_length,
}
use portwyrm.Quic.Router.Ingress.{drop_pending}
use portwyrm.Quic.Router.Opening.{reap, reap_pending, reap_sessions}

-- The session was idle for longer than its route allows.
abbrev pub is_idle : ℕ → Session → Bool
is_idle now session = ltb (session.timeout * 1000) (now - session.last_seen)

release-sessions : (key : Key) (r : Router) → (release_ingress_pause key r).sessions ≡ r.sessions
unfolding release_ingress_pause
release-sessions key r = ground arith

forget_addr-sessions :
    (key : Key) (client : Addr) (r : Router) → (forget_addr key client r).sessions ≡ r.sessions
unfolding forget_addr
forget_addr-sessions key client r = ground arith

unindex_all-sessions :
    (key : Key) (cids : List Bytes) (r : Router) → (unindex_all key cids r).sessions ≡ r.sessions
unfolding unindex_all remove_server_cid_length
unindex_all-sessions key [] r = refl
unindex_all-sessions key (cid ∷ cids) r = unindex_all-sessions key cids _ ∙ ground arith

remove_session-get :
    (key k : Key) (r : Router)
    → Dict.get (remove_session key r).sessions k
      ≡ (if key == k then none else Dict.get r.sessions k)
unfolding remove_session
remove_session-get key k r = elim (Option-cases (Dict.get r.sessions key)) [
  | inl absent ↦ rw (absent, remove_session) (ground (arith, key_eq.beq_iff key k))
  | inr (s, there) ↦
      let popped = record r { sessions = Dict.pop r.sessions key } in
      let released = release_ingress_pause key popped in
      let forgotten = forget_addr key s.client released in
      rw
        (
          there,
          remove_session,
          unindex_all-sessions key s.server_cids forgotten,
          forget_addr-sessions key s.client released,
          release-sessions key popped,
        )
        (Dict.get-pop r.sessions key k)
]

reap_sessions-keeps :
    (now : ℕ) (sessions : Dict Key Session) (r : Router) (k : Key) (s : Session)
    → Dict.get (reap_sessions now sessions r).sessions k ≡ some s
    → Dict.get r.sessions k ≡ some s
unfolding reap_sessions
reap_sessions-keeps now [] r k s h = h
reap_sessions-keeps now ((key, t) ∷ sessions) r k s h =
    let rest = reap_sessions-keeps now sessions _ k s h in
    ground (arith, remove_session-get key k r, rest)

reap_sessions-idle :
    (now : ℕ) (sessions : Dict Key Session) (r : Router) (k : Key) (s : Session)
    → Dict.get sessions k ≡ some s
    → Dict.get (reap_sessions now sessions r).sessions k ≡ some s
    → is_idle now s ≡ false
unfolding reap_sessions Dict.get
reap_sessions-idle now [] r k s listed h = cc
reap_sessions-idle now ((key, t) ∷ sessions) r k s listed h = elim (Bool-cases (key == k)) [
  | inr other ↦ reap_sessions-idle now sessions _ k s (rw other at listed) h
  | inl same ↦
      let rest = reap_sessions-keeps now sessions _ k s h in
      ground (arith, remove_session-get key k r, rest)
]

reap_pending-sessions :
    (now : ℕ) (seen : Dict Key ℕ) (r : Router) → (reap_pending now seen r).sessions ≡ r.sessions
unfolding reap_pending drop_pending
reap_pending-sessions now [] r = refl
reap_pending-sessions now ((key, last) ∷ seen) r = reap_pending-sessions now seen _ ∙ ground arith

-- A session that a round of the reaper leaves stood in the table before as it is, and was not idle
-- for longer than its route allows.
pub reap-idle :
    (now : ℕ) (r : Router) (k : Key) (s : Session)
    → Dict.get (reap now r).sessions k ≡ some s
    → (Dict.get r.sessions k ≡ some s) × (is_idle now s ≡ false)
unfolding reap
reap-idle now r k s h =
    let cleaned = reap_pending now r.pending_seen r in
    let before = reap_sessions-keeps now cleaned.sessions cleaned k s h in
    (
      rw (← reap_pending-sessions now r.pending_seen r) before,
      reap_sessions-idle now cleaned.sessions cleaned k s before h,
    )
