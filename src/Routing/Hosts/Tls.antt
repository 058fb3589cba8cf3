-- ===== src/Routing/Hosts/Tls.antt =====
-- TLS settings of hosts in src/portwyrm/tables/routing.py and the constraints of the table of hosts.
use portwyrm.Prelude.{◌≡◌, arith, true, false, ◌==◌}
use portwyrm.Prelude.Result.{ok, is_ok}
use portwyrm.Prelude.Int.{pos, is_negative, int_eq}
use portwyrm.Routing.Hosts.{TlsSettings, normalized}

-- The constraints of the columns, and that nothing is set without a certificate: what is forced needs
-- one, HSTS and a trusted header need what is forced, and its subdomains need HSTS.
pub record IsConsistent (ssl : TlsSettings) : Type 0 where
  pub certificate : is_negative ssl.certificate_id ≡ false
  pub forced_lem : ssl.forced ≡ true → ssl.certificate_id == pos 0 ≡ false
  pub http2_lem : ssl.http2 ≡ true → ssl.certificate_id == pos 0 ≡ false
  pub hsts_lem : ssl.hsts ≡ true → ssl.forced ≡ true
  pub subdomains_lem : ssl.hsts_subdomains ≡ true → ssl.hsts ≡ true
  pub trust_lem : ssl.trust_forwarded_proto ≡ true → ssl.forced ≡ true

consistent : (ssl t : TlsSettings) → normalized ssl ≡ ok t → IsConsistent t
unfolding normalized int_eq
consistent ssl t h = ground arith

normalized_same : (ssl : TlsSettings) → IsConsistent ssl → normalized ssl ≡ ok ssl
unfolding normalized int_eq
normalized_same ssl c = ground arith

normalized_total :
    (ssl : TlsSettings) → is_negative ssl.certificate_id ≡ false → is_ok (normalized ssl) ≡ true
unfolding normalized int_eq
normalized_total ssl h = ground arith

-- What `normalized` returns meets the constraints of the table of hosts, and settings that meet them
-- are returned as they are; it raises only for a negative certificate.
pub normalized-IsConsistent :
    (ssl : TlsSettings)
    → ((t : TlsSettings) → normalized ssl ≡ ok t → IsConsistent t)
      × (IsConsistent ssl → normalized ssl ≡ ok ssl)
      × (is_negative ssl.certificate_id ≡ false → is_ok (normalized ssl) ≡ true)
normalized-IsConsistent ssl = (consistent ssl, normalized_same ssl, normalized_total ssl)
