-- ===== src/Routing/Hosts.antt =====
-- The schemas of hosts and streams in src/portwyrm/tables/routing.py, with what they validate.
use portwyrm.Prelude.{
  ℕ, ◌+◌, Bool, true, false, not, ◌&&◌, ◌||◌, List, [], ◌∷◌, ◌++◌, Option, none, some,
  if◌then◌else◌, ◌==◌, nat_eq, leb, ltb, length, map, is_empty, contains, any, get_or_else, Eq,
}
use portwyrm.Prelude.Result.{Result, ok, err, ◌>>=◌, ◌>>◌, guard}
use portwyrm.Prelude.Int.{ℤ, pos, negsuc, is_between, is_positive, is_negative, int_eq}
use portwyrm.Prelude.Text.{Text, text_eq, codes, strip}
use portwyrm.Routing.Domains.{
  NameError, canonical_domains, domain_matches, fold_domain, TargetKind, target,
}
pub mod Tls

-- A `DomainValidationError` by its cause.
pub data HostError : Type 0 where
  bad_name : NameError → HostError
  bad_port bad_path no_forward_host bad_forward_path bad_ids bad_access_list : HostError
  access_lists_repeated bad_redirect bad_code paths_repeated bad_certificate tls_needs_tcp :
      HostError

abbrev pub named : {A : Type 0} → Result NameError A → Result HostError A
named (err problem) = err (bad_name problem)
named (ok value) = ok value

-- `_port`
unfoldable pub check_port : ℤ → Result HostError Unit
check_port n = guard (is_between 1 65535 n) bad_port

pub record TlsSettings : Type 0 where
  pub certificate_id : ℤ
  pub forced : Bool
  pub http2 : Bool
  pub hsts : Bool
  pub hsts_subdomains : Bool
  pub trust_forwarded_proto : Bool

abbrev pub no_tls : TlsSettings
no_tls = record {
  certificate_id = pos 0;
  forced = false;
  http2 = false;
  hsts = false;
  hsts_subdomains = false;
  trust_forwarded_proto = false;
}

unfoldable pub normalized : TlsSettings → Result HostError TlsSettings
normalized ssl =
    if is_negative ssl.certificate_id
    then err bad_certificate
    else if ssl.certificate_id == pos 0
    then ok no_tls
    else ok (record {
      certificate_id = ssl.certificate_id;
      forced = ssl.forced;
      http2 = ssl.http2;
      hsts = ssl.forced && ssl.hsts;
      hsts_subdomains = ssl.forced && ssl.hsts && ssl.hsts_subdomains;
      trust_forwarded_proto = ssl.forced && ssl.trust_forwarded_proto;
    })

-- The values of `ForwardScheme` and `RedirectScheme`.
pub data Scheme : Type 0 where
  auto http https : Scheme

pub record Location : Type 0 where
  pub path : Text
  pub forward_scheme : Scheme
  pub target_kind : TargetKind
  pub forward_host : Text
  pub forward_port : ℤ
  pub forward_path : Text
  pub advanced_config : Text

pub data HostKind : Type 0 where
  proxy redirect dead : HostKind

-- The extensions under `meta` are left out.
pub record Host : Type 0 where
  pub id : ℤ
  pub kind : HostKind
  pub domain_names : List Text
  pub forward_scheme : Scheme
  pub forward_host : Option Text
  pub forward_port : Option ℤ
  pub forward_domain_name : Option Text
  pub forward_http_code : ℕ
  pub preserve_path : Bool
  pub owner_user_id : ℤ
  pub access_list_id : ℤ
  pub access_list_ids : List ℤ
  pub ssl : TlsSettings
  pub caching_enabled : Bool
  pub block_exploits : Bool
  pub allow_websocket_upgrade : Bool
  pub advanced_config : Text
  pub locations : List Location
  pub enabled : Bool

pub data StreamProtocol : Type 0 where
  tcp udp tcp_udp : StreamProtocol

pub record Stream : Type 0 where
  pub id : ℤ
  pub incoming_port : ℤ
  pub forwarding_host : Text
  pub forwarding_port : ℤ
  pub protocol : StreamProtocol
  pub target_kind : TargetKind
  pub owner_user_id : ℤ
  pub certificate_id : ℤ
  pub enabled : Bool

-- `t.startswith("/")`
abbrev pub starts_with_slash : Text → Bool
starts_with_slash [] = false
starts_with_slash (c ∷ _) = c == b'/'

-- `len(values) != len(set(values))`, the other way round.
module _ {A : Type 0} ⦃e : Eq A⦄ where
  abbrev pub all_different : List A → Bool
  all_different [] = true
  all_different (x ∷ xs) = not (contains xs x) && all_different xs

-- The case folding and the parser of addresses come from outside.
module _ (casefold : Text → Text) (ip_address : Text → Option Text) where
  unfoldable pub validate_location : Location → Result HostError Location
  unfolding check_port
  validate_location l =
      guard (starts_with_slash l.path) bad_path
      >> guard (not (is_empty (strip l.forward_host))) no_forward_host
      >> (named (target casefold ip_address l.forward_host l.target_kind) >>= λ forward_host.
          check_port l.forward_port
          >> guard (is_empty l.forward_path || starts_with_slash l.forward_path) bad_forward_path
          >> ok (record l { forward_host = forward_host }))

  -- The branches on the kind; the result is `forward_domain_name`.
  unfoldable pub validate_kind : Host → Result HostError (Option Text)
  unfolding check_port
  validate_kind h = elim h.kind [
    | proxy ↦
        guard (not (is_empty (strip (get_or_else h.forward_host [])))) no_forward_host
        >> check_port (get_or_else h.forward_port (pos 0))
        >> ok h.forward_domain_name
    | redirect ↦
        let domain = fold_domain casefold (get_or_else h.forward_domain_name []) in
        guard (domain_matches domain) bad_redirect
        >> guard (contains (301 ∷ 302 ∷ 307 ∷ 308 ∷ []) h.forward_http_code) bad_code
        >> ok (some domain)
    | dead ↦ ok h.forward_domain_name
  ]

  unfoldable pub validate_host : Host → Result HostError Host
  unfolding validate_kind normalized
  validate_host h =
      guard (is_positive h.id && is_positive h.owner_user_id) bad_ids
      >> guard (not (any (λ i. not (is_positive i)) h.access_list_ids)) bad_access_list
      >> guard (all_different h.access_list_ids) access_lists_repeated
      >> (validate_kind h >>= λ forward_domain_name.
          guard (all_different (map (λ (l : Location). l.path) h.locations)) paths_repeated
          >> (normalized h.ssl >>= λ ssl.
              ok (record h { forward_domain_name = forward_domain_name; ssl = ssl })))

  unfoldable pub validate_stream : Stream → Result HostError Stream
  unfolding check_port
  validate_stream s =
      let is_udp : Bool = elim s.protocol [ udp ↦ true | _ ↦ false ] in
      check_port s.incoming_port
      >> check_port s.forwarding_port
      >> guard (not (is_empty (strip s.forwarding_host))) no_forward_host
      >> (named (target casefold ip_address s.forwarding_host s.target_kind) >>= λ forwarding_host.
          guard (not (is_negative s.certificate_id)) bad_certificate
          >> guard (s.certificate_id == pos 0 || not is_udp) tls_needs_tcp
          >> ok (record s { forwarding_host = forwarding_host }))
