-- ===== src/Tests/Nginx.antt =====
-- src/portwyrm/runtime/nginx_http.py and src/portwyrm/runtime/nginx.py at concrete inputs.
use portwyrm.Prelude.{◌≡◌, refl, true, false, [], ◌∷◌, map, none, some, All, string_eq}
use portwyrm.Prelude.Dict
use portwyrm.Prelude.Int.{pos, int_eq}
use portwyrm.Prelude.Result.{Result, ok, err, is_ok}
use portwyrm.Prelude.Text.{text_eq, codes}
use portwyrm.Access.Lists.{AccessList, merge_access_lists, allow}
use portwyrm.Routing.Domains.{dns}
use portwyrm.Routing.Hosts.{Host, Location, proxy, http, no_tls}
use portwyrm.Nginx.Lines.{starts_with, indented}
use portwyrm.Nginx.Primitives.{
  has_root_location, asset_cache_lines, access_lines, listen, ssl_lines, force_ssl_lines,
  acme_challenge_location,
}
use portwyrm.Nginx.Http.{render_proxy, inner_access_lines, proxy_lines}
use portwyrm.Nginx.Blocks.{bodies, is_head, is_end}
use portwyrm.Nginx.Segments.{IsProtected, forwards}
use portwyrm.Nginx.Protection.{proxy_lines-IsProtected}
use portwyrm.Nginx.Platform.{PlatformConfig}
use portwyrm.Nginx.Render.{int_leb, RenderError, Files, Resources, render, access_by_id}
use portwyrm.Nginx.Served.{IsServed, render-IsServed}

abbrev location : Location
location = record {
  path = codes "/api";
  forward_scheme = http;
  target_kind = dns;
  forward_host = codes "api";
  forward_port = pos 8080;
  forward_path = [];
  advanced_config = [];
}

abbrev host : Host
host = record {
  id = pos 7;
  kind = proxy;
  domain_names = codes "a.example" ∷ [];
  forward_scheme = http;
  forward_host = some (codes "app");
  forward_port = some (pos 80);
  forward_domain_name = none;
  forward_http_code = 301;
  preserve_path = true;
  owner_user_id = pos 1;
  access_list_id = pos 0;
  access_list_ids = [];
  ssl = no_tls;
  caching_enabled = false;
  block_exploits = true;
  allow_websocket_upgrade = true;
  advanced_config = [];
  locations = location ∷ [];
  enabled = true;
}

abbrev access : AccessList
access = record {
  id = 3;
  name = codes "team";
  credentials = record { username = codes "ann"; password_hash = codes "x" } ∷ [];
  clients = record { address = codes "10.0.0.0/8"; directive = allow } ∷ [];
  satisfy_any = false;
  pass_auth = false;
}

proxy_lines-IsProtected_example :
    All
      (IsProtected (inner_access_lines (some access) none))
      (bodies (proxy_lines true host no_tls (some access) none))
proxy_lines-IsProtected_example =
    proxy_lines-IsProtected host (some access) none true no_tls refl refl (refl, tt)

-- The challenge, the location and the root; the last two forward.
test_bodies :
    map forwards (bodies (proxy_lines true host no_tls (some access) none))
    ≡ false ∷ true ∷ true ∷ []
unfolding proxy_lines bodies is_head is_end starts_with text_eq forwards listen int_eq ssl_lines
    force_ssl_lines acme_challenge_location asset_cache_lines indented access_lines
    has_root_location
test_bodies = refl

-- With cached assets, their block forwards and holds no line of the access list.
test_assets :
    map forwards
      (bodies (proxy_lines true (record host { caching_enabled = true }) no_tls (some access) none))
    ≡ false ∷ true ∷ true ∷ true ∷ []
unfolding proxy_lines bodies is_head is_end starts_with text_eq forwards listen int_eq ssl_lines
    force_ssl_lines acme_challenge_location asset_cache_lines indented access_lines
    has_root_location
test_assets = refl

abbrev other : AccessList
other = record access {
  id = 4;
  name = codes "guests";
  credentials = record { username = codes "bob"; password_hash = codes "y" } ∷ [];
}

abbrev resources : Resources
resources = record {
  proxy_hosts =
      record host { access_list_ids = pos 3 ∷ pos 4 ∷ [] }
      ∷ record host { id = pos 8; access_list_id = pos 4 }
      ∷ [];
  redirection_hosts = [];
  dead_hosts = [];
  streams = [];
  access_lists = other ∷ access ∷ [];
  quic_routes = [];
}

abbrev platform : PlatformConfig
platform = record {
  ipv6 = true;
  resolver_enabled = false;
  resolver_addresses = [];
  trusted_proxy_ranges = [];
  default_site = codes "444";
  default_redirect = [];
  default_html = [];
  custom_includes = [];
}

-- Files of a generation, nothing for one that is not rendered.
abbrev files_of : Result RenderError Files → Files
files_of (err _) = []
files_of (ok files) = files

ok-files_of : (m : Result RenderError Files) → is_ok m ≡ true → m ≡ ok (files_of m)
ok-files_of (err _) h = cc h
ok-files_of (ok files) h = refl

test_render : is_ok (render platform resources) ≡ true
unfolding render int_leb merge_access_lists access_by_id int_eq Dict.get Dict.put text_eq
    render_proxy
test_render = refl

render-IsServed_example :
    All
      (IsServed platform resources.access_lists resources.proxy_hosts
        (files_of (render platform resources)))
      resources.proxy_hosts
render-IsServed_example =
    render-IsServed platform resources (files_of (render platform resources))
      (ok-files_of (render platform resources) test_render)
