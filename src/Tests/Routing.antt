-- ===== src/Tests/Routing.antt =====
-- src/portwyrm/tables/routing.py at concrete inputs.
use portwyrm.Prelude.{
  ℕ, ◌≤◌, ◌≡◌, ◌↔◌, refl, true, false, ◌&&◌, List, [], ◌∷◌, ◌++◌, Option, none, some, map, length,
  pair_eq,
}
use portwyrm.Prelude.Result.{ok, is_ok}
use portwyrm.Prelude.Int.{pos, int_eq}
use portwyrm.Prelude.Text.{Text, text_eq, codes, strip, is_space}
use portwyrm.Quic.Hello.{rstrip_dots}
use portwyrm.Routing.Domains.{
  fold_domain, canonical_domains, dns, docker, target, is_dns_label, split_on, is_hyphenated,
  last_is,
}
use portwyrm.Routing.Domains.Canonical.{AllMatch, IsNodup, canonical_domains-exact}
use portwyrm.Routing.Domains.Plain.{IsPlain, target-IsPlain}
use portwyrm.Routing.Hosts.{Host, Stream, tcp_udp, dead, auto, no_tls, all_different}
use portwyrm.Routing.Inventory.{Inventory, validate}
use portwyrm.Routing.Inventory.Collisions.{domains_of, claims_of, validate-accepts}

-- Case folding of texts that are folded.
abbrev same : Text → Text
same t = t

abbrev values : List (Option Text)
values = some (codes " a.example. ") ∷ some (codes "*.b.example") ∷ []

abbrev names : List Text
names = codes "a.example" ∷ codes "*.b.example" ∷ []

canonical_domains-exact_example : (canonical_domains same values ≡ ok names) ↔ (
    (raws : List Text) × (values ≡ map some raws)
    × (names ≡ map (fold_domain same) raws)
    × AllMatch names
    × IsNodup names
    × (1 ≤ length names)
    × (length names ≤ 100))
canonical_domains-exact_example = canonical_domains-exact same values names

target-IsPlain_example : IsPlain (codes "app-1.internal")
unfolding target strip is_space rstrip_dots is_dns_label split_on is_hyphenated last_is
target-IsPlain_example =
    target-IsPlain same (λ t. none) (codes "app-1.internal. ") dns (codes "app-1.internal") refl
      (λ e. cc e)

abbrev host : ℕ → List Text → Host
host id domains = record {
  id = pos id;
  kind = dead;
  domain_names = domains;
  forward_scheme = auto;
  forward_host = none;
  forward_port = none;
  forward_domain_name = none;
  forward_http_code = 301;
  preserve_path = false;
  owner_user_id = pos 1;
  access_list_id = pos 0;
  access_list_ids = [];
  ssl = no_tls;
  caching_enabled = false;
  block_exploits = false;
  allow_websocket_upgrade = false;
  advanced_config = [];
  locations = [];
  enabled = true;
}

abbrev stream : ℕ → Stream
stream id = record {
  id = pos id;
  incoming_port = pos 53;
  forwarding_host = codes "dns";
  forwarding_port = pos 53;
  protocol = tcp_udp;
  target_kind = docker;
  owner_user_id = pos 1;
  certificate_id = pos 0;
  enabled = true;
}

-- One domain is claimed twice.
abbrev inventory : Inventory
inventory = record {
  proxy_hosts = [];
  redirection_hosts = host 1 (codes "a.example" ∷ []) ∷ [];
  dead_hosts = host 2 (codes "b.example" ∷ codes "a.example" ∷ []) ∷ [];
  streams = stream 1 ∷ [];
}

validate-accepts_example : is_ok (validate inventory) ≡ (
    all_different (
      domains_of inventory.proxy_hosts
      ++ (domains_of inventory.redirection_hosts ++ domains_of inventory.dead_hosts))
    && all_different (claims_of inventory.streams))
validate-accepts_example = validate-accepts inventory
