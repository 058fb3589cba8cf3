-- ===== src/Quic/Router/Invariant/Tables.antt =====
-- The session table and its two indexes say the same, in src/portwyrm/runtime/quic_router.py.
use portwyrm.Prelude.{
  ◌≡◌, ◌&&◌, Bool, true, false, refl, arith, List, [], none, some, ◌==◌, ◌≡◌, ◌&&◌, Bool, true,
  false, refl, arith, List, [], none, some, ◌==◌, get_or_else, Option-cases, inl, inr,
}
use portwyrm.Prelude.Dict
use portwyrm.Prelude.Dict.{Dict}
use portwyrm.Quic.Bytes.{Bytes}
use portwyrm.Quic.Router.State.{Addr, Key, addr_eq, cid_eq, key_eq, Session, Router}
use portwyrm.Quic.Router.Sessions.{insert_server_cid, index_server_connection_id}

-- The session of the key has been told this connection ID by its server.
abbrev pub owns : Dict Key Session → Key → Bytes → Bool
owns sessions key cid = elim (Dict.get sessions key) [
  | none ↦ false
  | some session ↦ Dict.member session.server_cids cid
]

abbrev pub keys_at : Dict Addr (List Key) → Addr → List Key
keys_at by_addr addr = get_or_else (Dict.get by_addr addr) []

pub record TablesFit (sessions : Dict Key Session) (by_addr : Dict Addr (List Key))
    (by_cid : Dict Bytes Key) : Type 0 where
  pub client : (k : Key) (s : Session) → Dict.get sessions k ≡ some s → s.client ≡ k.0
  pub indexed : (k : Key) (c : Bytes) → owns sessions k c ≡ true → Dict.get by_cid c ≡ some k
  pub owned : (k : Key) (c : Bytes) → Dict.get by_cid c ≡ some k → owns sessions k c ≡ true
  pub at_addr :
      (k : Key) (a : Addr) → Dict.member (keys_at by_addr a) k ≡ (Dict.has sessions k && (k.0 == a))

abbrev pub HasTables : Router → Type 0
HasTables r = TablesFit r.sessions r.sessions_by_addr r.sessions_by_server_cid

module _ {sessions : Dict Key Session} {by_addr : Dict Addr (List Key)} {by_cid : Dict Bytes Key}
    (fit : TablesFit sessions by_addr by_cid) where
  -- A session is written back with the same client and connection IDs.
  pub TablesFit-touch :
      (key : Key) (s s' : Session)
      → Dict.get sessions key ≡ some s
      → s'.client ≡ s.client
      → s'.server_cids ≡ s.server_cids
      → TablesFit (Dict.put sessions key s') by_addr by_cid
  TablesFit-touch key s s' there same_client same_cids = record {
    client = λ k t h. ground (
      arith,
      Dict.get-put sessions key k s',
      key_eq.beq_iff key k,
      fit.client k t,
      fit.client key s,
    );
    indexed = λ k c h.
        ground (arith, Dict.get-put sessions key k s', key_eq.beq_iff key k, fit.indexed k c);
    owned = λ k c h.
        ground (arith, Dict.get-put sessions key k s', key_eq.beq_iff key k, fit.owned k c);
    at_addr = λ k a.
        ground (arith, Dict.get-put sessions key k s', key_eq.beq_iff key k, fit.at_addr k a);
  }

  -- A connection ID that nobody owns is given to a session.
  pub TablesFit-give :
      (key : Key) (s s' : Session) (cid : Bytes)
      → Dict.get sessions key ≡ some s
      → Dict.get by_cid cid ≡ none
      → s'.client ≡ s.client
      → s'.server_cids ≡ Dict.add s.server_cids cid
      → TablesFit (Dict.put sessions key s') by_addr (Dict.put by_cid cid key)
  TablesFit-give key s s' cid there free same_client grown = record {
    client = λ k t h. ground (
      arith,
      Dict.get-put sessions key k s',
      key_eq.beq_iff key k,
      fit.client k t,
      fit.client key s,
    );
    indexed = λ k c h. ground (
      arith,
      Dict.get-put sessions key k s',
      Dict.get-put by_cid cid c key,
      Dict.member-add s.server_cids cid c,
      key_eq.beq_iff key k,
      cid_eq.beq_iff cid c,
      fit.indexed k c,
    );
    owned = λ k c h. ground (
      arith,
      Dict.get-put sessions key k s',
      Dict.get-put by_cid cid c key,
      Dict.member-add s.server_cids cid c,
      key_eq.beq_iff key k,
      cid_eq.beq_iff cid c,
      fit.owned k c,
    );
    at_addr = λ k a.
        ground (arith, Dict.get-put sessions key k s', key_eq.beq_iff key k, fit.at_addr k a);
  }

  -- A new session without connection IDs of its server stands under its client's address.
  pub TablesFit-new :
      (key : Key) (s : Session)
      → Dict.has sessions key ≡ false
      → s.client ≡ key.0
      → s.server_cids ≡ []
      → TablesFit
          (Dict.put sessions key s)
          (Dict.put by_addr s.client (Dict.add (keys_at by_addr s.client) key))
          by_cid
  TablesFit-new key s absent its_client no_cids = record {
    client = λ k t h.
        ground (arith, Dict.get-put sessions key k s, key_eq.beq_iff key k, fit.client k t);
    indexed = λ k c h. ground (
      arith,
      Dict.get-put sessions key k s,
      Dict.member-nil c,
      key_eq.beq_iff key k,
      fit.indexed k c,
    );
    owned =
        λ k c h. ground (arith, Dict.get-put sessions key k s, key_eq.beq_iff key k, fit.owned k c);
    at_addr = λ k a. ground (
      arith,
      Dict.get-put sessions key k s,
      Dict.get-put by_addr s.client a (Dict.add (keys_at by_addr s.client) key),
      Dict.member-add (keys_at by_addr s.client) key k,
      key_eq.beq_iff key k,
      addr_eq.beq_iff s.client a,
      addr_eq.beq_iff k.0 a,
      fit.at_addr k a,
    );
  }

pub index_server_connection_id-HasTables :
    (key : Key) (cid : Bytes) (r : Router)
    → HasTables r
    → HasTables (index_server_connection_id key cid r)
unfolding index_server_connection_id insert_server_cid
index_server_connection_id-HasTables key cid r fit = elim (Option-cases (Dict.get r.sessions key)) [
  | inl absent ↦ rw (absent, index_server_connection_id) fit
  | inr (s, there) ↦
      rw (there, index_server_connection_id)
        (elim (Option-cases (Dict.get r.sessions_by_server_cid cid)) [
          | inr (owner, known) ↦ rw known fit
          | inl free ↦ rw free (TablesFit-give fit key s _ cid there free refl refl)
        ])
]
