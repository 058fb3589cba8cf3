-- ===== src/Quic/Router/Invariant/Removal.antt =====
-- `_remove_session` of src/portwyrm/runtime/quic_router.py and its parts.
use portwyrm.Prelude.{
  ℕ, ◌≡◌, ◌&&◌, Bool, false, refl, arith, List, [], ◌∷◌, Option, none, some, if◌then◌else◌, ◌==◌,
  Option-cases, Bool-cases, inl, inr, is_empty, length,
}
use portwyrm.Prelude.Dict
use portwyrm.Prelude.Dict.{Dict}
use portwyrm.Quic.Bytes.{Bytes}
use portwyrm.Quic.Router.State.{Addr, Key, addr_eq, cid_eq, key_eq, Session, Router}
use portwyrm.Quic.Router.Sessions.{remove_server_cid_length, unindex_all, forget_addr}
use portwyrm.Quic.Router.Invariant.Tables.{TablesFit, keys_at}

abbrev pub is_owner : Option Key → Key → Bool
is_owner none key = false
is_owner (some k) key = k == key

-- The loop takes away exactly the listed connection IDs of the key, and touches nothing but the
-- index of connection IDs and their lengths.
pub unindex_all_lem :
    (key : Key) (cids : List Bytes) (r : Router)
    → (d : Dict Bytes Key) × (n : Dict ℕ ℕ) × (l : List ℕ) × (unindex_all key cids r ≡ record r {
      sessions_by_server_cid = d;
      server_cid_length_counts = n;
      server_cid_lengths = l;
    })
      × ((c : Bytes)
          → Dict.get d c ≡ (
              if Dict.member cids c && is_owner (Dict.get r.sessions_by_server_cid c) key
              then none
              else Dict.get r.sessions_by_server_cid c))
unfolding unindex_all Dict.member remove_server_cid_length
unindex_all_lem key [] r =
    (r.sessions_by_server_cid, r.server_cid_length_counts, r.server_cid_lengths, refl, λ c. refl)
unindex_all_lem key (cid ∷ cids) r = elim (Option-cases (Dict.get r.sessions_by_server_cid cid)) [
  | inl free ↦
      let (d, n, l, same, gets) = unindex_all_lem key cids r in
      (d, n, l, rw free same, λ c. ground (arith, gets c, cid_eq.beq_iff cid c))
  | inr (k, known) ↦ elim (Bool-cases (k == key)) [
    | inr foreign ↦
        let (d, n, l, same, gets) = unindex_all_lem key cids r in
        (d, n, l, rw (known, foreign) same, λ c. ground (arith, gets c, cid_eq.beq_iff cid c))
    | inl own ↦
        let popped =
          remove_server_cid_length (length cid)
            (record r { sessions_by_server_cid = Dict.pop r.sessions_by_server_cid cid }) in
        let (d, n, l, same, gets) = unindex_all_lem key cids popped in
        (
          d,
          n,
          l,
          rw (known, own) same,
          λ c.
              ground
                (arith, gets c, Dict.get-pop r.sessions_by_server_cid cid c, cid_eq.beq_iff cid c),
        )
  ]
]

-- The key is taken from its address, and nothing but the index of addresses changes.
pub forget_addr_lem :
    (key : Key) (client : Addr) (r : Router)
    → (d : Dict Addr (List Key)) × (forget_addr key client r ≡ record r { sessions_by_addr = d })
      × ((a : Addr) (k : Key)
          → Dict.member (keys_at d a) k ≡ (
              if client == a && key == k
              then false
              else Dict.member (keys_at r.sessions_by_addr a) k))
unfolding forget_addr
forget_addr_lem key client r = elim (Option-cases (Dict.get r.sessions_by_addr client)) [
  | inl absent ↦ (
    r.sessions_by_addr,
    rw (absent, forget_addr),
    λ a k. ground (arith, addr_eq.beq_iff client a, Dict.member-nil k),
  )
  | inr (keys, there) ↦ elim (Bool-cases (is_empty (Dict.discard keys key))) [
    | inl last ↦ (
      Dict.pop r.sessions_by_addr client,
      rw (there, last, forget_addr),
      λ a k. ground (
        arith,
        Dict.get-pop r.sessions_by_addr client a,
        addr_eq.beq_iff client a,
        Dict.member-nil k,
        Dict.member-discard keys key k,
        Dict.member_of_is_empty (Dict.discard keys key) k,
      ),
    )
    | inr more ↦ (
      Dict.put r.sessions_by_addr client (Dict.discard keys key),
      rw (there, more, forget_addr),
      λ a k. ground (
        arith,
        Dict.get-put r.sessions_by_addr client a (Dict.discard keys key),
        addr_eq.beq_iff client a,
        Dict.member-discard keys key k,
      ),
    )
  ]
]

module _ {sessions : Dict Key Session} {by_addr by_addr' : Dict Addr (List Key)}
    {by_cid by_cid' : Dict Bytes Key} (fit : TablesFit sessions by_addr by_cid) (key : Key)
    (s : Session) (there : Dict.get sessions key ≡ some s)
    (addrs : (a : Addr) (k : Key)
      → Dict.member (keys_at by_addr' a) k
        ≡ (if s.client == a && key == k then false else Dict.member (keys_at by_addr a) k))
    (cids : (c : Bytes)
      → Dict.get by_cid' c ≡ (
          if Dict.member s.server_cids c && is_owner (Dict.get by_cid c) key
          then none
          else Dict.get by_cid c)) where
  pub TablesFit-remove : TablesFit (Dict.pop sessions key) by_addr' by_cid'
  TablesFit-remove = record {
    client = λ k t h. ground (arith, Dict.get-pop sessions key k, fit.client k t);
    indexed = λ k c h. ground (
      arith,
      Dict.get-pop sessions key k,
      cids c,
      key_eq.beq_iff key k,
      key_eq.beq_iff k key,
      fit.indexed k c,
    );
    owned = λ k c h. ground (
      arith,
      Dict.get-pop sessions key k,
      cids c,
      key_eq.beq_iff key k,
      key_eq.beq_iff k key,
      fit.owned k c,
    );
    at_addr = λ k a. ground (
      arith,
      Dict.get-pop sessions key k,
      addrs a k,
      key_eq.beq_iff key k,
      addr_eq.beq_iff s.client a,
      addr_eq.beq_iff k.0 a,
      fit.at_addr k a,
      fit.client key s,
    );
  }
