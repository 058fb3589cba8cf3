-- ===== src/Quic/Router/Isolation.antt =====
-- Which session a datagram belongs to: `_session_for_datagram` of
-- src/portwyrm/runtime/quic_router.py.
use portwyrm.Prelude.{
  ℕ, ◌≡◌, true, false, ◌∙◌, arith, List, [], ◌∷◌, none, some, if◌then◌else◌, ◌==◌, Option-cases,
  Bool-cases, inl, inr, get_elem?,
}
use portwyrm.Prelude.Result.{ok, Result-cases}
use portwyrm.Prelude.Dict
use portwyrm.Prelude.Dict.{Dict}
use portwyrm.Quic.Bytes.{Bytes, is_long}
use portwyrm.Quic.Header.{initial_connection_ids}
use portwyrm.Quic.Router.State.{Addr, Key, addr_eq, cid_eq, key_eq, Router}
use portwyrm.Quic.Router.Sessions.{session_for_datagram, session_for_long, match_lengths, the_only}
use portwyrm.Quic.Router.Invariant.Tables.{HasTables, keys_at}

match_lengths-member :
    (by_cid : Dict Bytes Key) (keys : List Key) (datagram : Bytes) (sizes : List ℕ) (k : Key)
    → match_lengths by_cid keys datagram sizes ≡ some k
    → Dict.member keys k ≡ true
unfolding match_lengths
match_lengths-member by_cid keys datagram [] k h = cc
match_lengths-member by_cid keys datagram (size ∷ sizes) k h =
    ground (arith, match_lengths-member by_cid keys datagram sizes k)

the_only-member : (keys : List Key) (k : Key) → the_only keys ≡ some k → Dict.member keys k ≡ true
unfolding the_only Dict.member
the_only-member [] k h = cc
the_only-member (j ∷ []) k h = ground (arith, key_eq.beq_iff j k)
the_only-member (j ∷ i ∷ keys) k h = cc

module _ (r : Router) (fit : HasTables r) (addr : Addr) where
  member_is_own :
      (k : Key)
      → Dict.member (keys_at r.sessions_by_addr addr) k ≡ true
      → (k.0 ≡ addr) × (Dict.has r.sessions k ≡ true)
  member_is_own k h = ground (arith, fit.at_addr k addr, addr_eq.beq_iff k.0 addr)

  own_key :
      (dcid : Bytes) (k : Key)
      → (if Dict.has r.sessions (addr, dcid) then some (addr, dcid) else none) ≡ some k
      → (k.0 ≡ addr) × (Dict.has r.sessions k ≡ true)
  own_key dcid k h = ground arith

  session_for_long_own :
      (dcid : Bytes) (k : Key)
      → session_for_long dcid addr r ≡ some k
      → (k.0 ≡ addr) × (Dict.has r.sessions k ≡ true)
  unfolding session_for_long
  session_for_long_own dcid k h = elim (Option-cases (Dict.get r.sessions_by_server_cid dcid)) [
    | inl free ↦ own_key dcid k (rw (free, session_for_long) at h)
    | inr (owner, known) ↦ elim (Option-cases (Dict.get r.sessions owner)) [
      | inl closed ↦ own_key dcid k (rw (known, closed, session_for_long) at h)
      | inr (s, there) ↦ elim (Bool-cases (s.client == addr)) [
        | inr foreign ↦ own_key dcid k (rw (known, there, foreign, session_for_long) at h)
        | inl same ↦
            let found = rw (known, there, same, session_for_long) at h in
            ground (arith, fit.client owner s there, addr_eq.beq_iff s.client addr)
      ]
    ]
  ]

  none_own :
      (dcid : Bytes)
      → session_for_long dcid addr r ≡ none
      → Dict.has r.sessions (addr, dcid) ≡ false
  unfolding session_for_long
  none_own dcid h = ground arith

  -- In a state whose tables are consistent, a datagram is taken for a session only if the session is open and belongs to the address that
  -- the datagram came from, whichever connection ID it carries.
  pub session_for_datagram_own :
      (datagram : Bytes) (k : Key)
      → session_for_datagram datagram addr r ≡ some k
      → (k.0 ≡ addr) × (Dict.has r.sessions k ≡ true)
  unfolding session_for_datagram
  session_for_datagram_own datagram k h = elim (Option-cases (get_elem? datagram 0)) [
    | inl nothing ↦ cc (rw (nothing, session_for_datagram) at h)
    | inr (first, e) ↦ elim (Bool-cases (is_long first)) [
      | inl long ↦ elim (Result-cases (initial_connection_ids datagram)) [
        | inl (x, bad) ↦ cc (rw (e, long, bad, session_for_datagram) at h)
        | inr (ids, good) ↦
            session_for_long_own ids.0 k (rw (e, long, good, session_for_datagram) at h)
      ]
      | inr small ↦
          let keys = keys_at r.sessions_by_addr addr in
          let matched = match_lengths r.sessions_by_server_cid keys datagram r.server_cid_lengths in
          elim (Option-cases matched) [
            | inr (j, hit) ↦
                let same = rw (e, small, hit, session_for_datagram) at h in
                member_is_own k (
                  match_lengths-member r.sessions_by_server_cid keys datagram r.server_cid_lengths k
                    (hit ∙ same))
            | inl miss ↦
                member_is_own k
                  (the_only-member keys k (rw (e, small, miss, session_for_datagram) at h))
          ]
    ]
  ]

  -- A long header that is taken for no session names no open one.
  pub session_for_datagram_new :
      (datagram : Bytes) (first : ℕ) (ids : Bytes × Bytes)
      → get_elem? datagram 0 ≡ some first
      → is_long first ≡ true
      → initial_connection_ids datagram ≡ ok ids
      → session_for_datagram datagram addr r ≡ none
      → Dict.has r.sessions (addr, ids.0) ≡ false
  unfolding session_for_datagram
  session_for_datagram_new datagram first ids e long good h =
      let searched = rw (e, long, good, session_for_datagram) at h in none_own ids.0 searched
