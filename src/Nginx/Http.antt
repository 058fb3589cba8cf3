-- ===== src/Nginx/Http.antt =====
-- Proxy, redirection and dead hosts: src/portwyrm/runtime/nginx_http.py. The lines of a host come before they are
-- joined.
use portwyrm.Prelude.{
  Bool, false, not, ◌&&◌, List, [], ◌∷◌, ◌++◌, map, any, Option, none, some, if◌then◌else◌, ◌==◌,
  is_empty, string_eq,
}
use portwyrm.Prelude.Decimal.{str, str_int}
use portwyrm.Prelude.Int.{ℤ}
use portwyrm.Prelude.Result.{Result, ok, ◌>>=◌}
use portwyrm.Prelude.Text.{Text, text_eq, codes, rstrip, text_leb}
use portwyrm.Access.Lists.{AccessList}
use portwyrm.Routing.Hosts.{
  Host, Location, Scheme, auto, http, https, TlsSettings, HostError, normalized,
}
use portwyrm.Nginx.Lines.{join, indented}
use portwyrm.Nginx.Primitives.{
  when, listen, ssl_lines, force_ssl_lines, access_lines, asset_cache_lines,
  acme_challenge_location, has_root_location,
}

-- Texts of values in formatted strings.
unfoldable pub scheme_name : Scheme → Text
scheme_name auto = codes "auto"
scheme_name http = codes "http"
scheme_name https = codes "https"

abbrev pub text_or_none : Option Text → Text
text_or_none none = codes "None"
text_or_none (some t) = t

abbrev pub port_or_none : Option ℤ → Text
port_or_none none = codes "None"
port_or_none (some n) = str_int n

unfoldable pub websocket_lines : Bool → List Text
websocket_lines allowed = when allowed (
    codes "    proxy_set_header Upgrade $http_upgrade;"
    ∷ codes "    proxy_set_header Connection $http_connection;"
    ∷ codes "    proxy_http_version 1.1;"
    ∷ [])

-- Each access line, four spaces in.
unfoldable pub inner_access_lines : Option AccessList → Option Text → List Text
inner_access_lines access password_file =
    map (λ line. codes "    " ++ line) (access_lines access password_file)

unfoldable pub render_default_proxy_location : Host → Option AccessList → Option Text → List Text
unfolding inner_access_lines websocket_lines
render_default_proxy_location host access password_file =
    codes "  location / {" ∷ inner_access_lines access password_file
    ++ websocket_lines host.allow_websocket_upgrade
    ++ codes "    include conf.d/include/proxy.conf;" ∷ codes "  }" ∷ []

unfoldable pub proxy_pass_line : Location → Text
unfolding scheme_name
proxy_pass_line l =
    codes "    proxy_pass "
    ++ scheme_name l.forward_scheme
    ++ codes "://"
    ++ l.forward_host
    ++ codes ":"
    ++ str_int l.forward_port
    ++ l.forward_path
    ++ codes ";"

unfoldable pub render_location : Location → Host → Option AccessList → Option Text → List Text
unfolding proxy_pass_line inner_access_lines websocket_lines
render_location l host access password_file =
    (codes "  location " ++ l.path ++ codes " {")
      ∷ when (not (is_empty l.advanced_config)) (indented 4 (rstrip l.advanced_config) ∷ [])
    ++ codes "    proxy_set_header Host $host;"
      ∷ codes "    proxy_set_header X-Forwarded-Scheme $scheme;"
      ∷ codes "    proxy_set_header X-Forwarded-Proto $scheme;"
      ∷ codes "    proxy_set_header X-Forwarded-For $remote_addr;"
      ∷ codes "    proxy_set_header X-Real-IP $remote_addr;"
      ∷ proxy_pass_line l
      ∷ inner_access_lines access password_file
    ++ websocket_lines host.allow_websocket_upgrade
    ++ codes "  }" ∷ []

-- The lines of the two logs of a host of a family.
unfoldable pub log_lines : Text → ℤ → List Text
unfolding str_int
log_lines family id =
    (codes "  access_log /data/logs/"
      ++ family
      ++ codes "-"
      ++ str_int id
      ++ codes "_access.log proxy;")
    ∷ (codes "  error_log /data/logs/"
        ++ family
        ++ codes "-"
        ++ str_int id
        ++ codes "_error.log warn;")
    ∷ []

-- `"\n".join(lines) + "\n"`
unfoldable pub as_file : List Text → Text
unfolding join
as_file lines = join (10 ∷ []) lines ++ 10 ∷ []

unfoldable pub disabled_host_lines : Bool → Host → Text → TlsSettings → List Text
unfolding log_lines
disabled_host_lines ipv6 host family ssl =
    codes "server {" ∷ listen host.domain_names ssl ipv6
    ++ ssl_lines ssl false
    ++ log_lines family host.id
    ++ codes "  return 503;" ∷ codes "}" ∷ []

-- `sorted(host.locations, key=lambda item: item.path)`
unfoldable pub insert_location : Location → List Location → List Location
insert_location l [] = l ∷ []
insert_location l (m ∷ ls) = if text_leb l.path m.path then l ∷ m ∷ ls else m ∷ insert_location l ls

unfoldable pub sort_locations : List Location → List Location
unfolding insert_location
sort_locations [] = []
sort_locations (l ∷ ls) = insert_location l (sort_locations ls)

unfoldable pub locations_lines : List Location → Host → Option AccessList → Option Text → List Text
unfolding render_location
locations_lines [] host access password_file = []
locations_lines (l ∷ ls) host access password_file =
    render_location l host access password_file ++ locations_lines ls host access password_file

-- What the three kinds of hosts begin with.
unfoldable pub server_lines : Bool → Host → TlsSettings → List Text
server_lines ipv6 host ssl =
    codes "server {" ∷ listen host.domain_names ssl ipv6
    ++ ssl_lines ssl false
    ++ force_ssl_lines ssl
    ++ acme_challenge_location

-- The lines for the exploits and the configuration by hand.
unfoldable pub policy_lines : Host → List Text
policy_lines host =
    when host.block_exploits (codes "  include conf.d/include/block-exploits.conf;" ∷ [])
    ++ when (not (is_empty host.advanced_config)) (indented 2 (rstrip host.advanced_config) ∷ [])

unfoldable pub upstream_lines : Host → List Text
unfolding scheme_name str_int
upstream_lines host =
    (codes "  set $forward_scheme " ++ scheme_name host.forward_scheme ++ codes ";")
    ∷ (codes "  set $server \"" ++ text_or_none host.forward_host ++ codes "\";")
    ∷ (codes "  set $port " ++ port_or_none host.forward_port ++ codes ";")
    ∷ []

unfoldable pub proxy_lines : Bool → Host → TlsSettings → Option AccessList → Option Text → List Text
unfolding server_lines upstream_lines log_lines policy_lines locations_lines sort_locations
    render_default_proxy_location
proxy_lines ipv6 host ssl access password_file =
    server_lines ipv6 host ssl
    ++ upstream_lines host
    ++ log_lines (codes "proxy-host") host.id
    ++ policy_lines host
    ++ when host.caching_enabled (map (indented 2) asset_cache_lines)
    ++ locations_lines (sort_locations host.locations) host access password_file
    ++ when
        (not (any (λ (l : Location). l.path == codes "/") host.locations)
          && not (has_root_location host.advanced_config))
        (render_default_proxy_location host access password_file)
    ++ codes "  include custom/server_proxy.conf;" ∷ codes "}" ∷ []

unfoldable pub render_proxy : Bool → Host → Option AccessList → Option Text → Result HostError Text
unfolding proxy_lines disabled_host_lines as_file normalized
render_proxy ipv6 host access password_file = normalized host.ssl >>= λ ssl.
    if not host.enabled
    then ok (as_file (disabled_host_lines ipv6 host (codes "proxy-host") ssl))
    else ok (as_file (proxy_lines ipv6 host ssl access password_file))

unfoldable pub redirection_lines : Bool → Host → TlsSettings → List Text
unfolding server_lines policy_lines scheme_name
redirection_lines ipv6 host ssl =
    let scheme : Text = elim host.forward_scheme [ auto ↦ codes "$scheme" | s ↦ scheme_name s ] in
    let suffix = if host.preserve_path then codes "$request_uri" else [] in
    server_lines ipv6 host ssl
    ++ policy_lines host
    ++ when (not (has_root_location host.advanced_config)) (
        codes "  location / {"
        ∷ (codes "    return "
            ++ str host.forward_http_code
            ++ codes " "
            ++ scheme
            ++ codes "://"
            ++ text_or_none host.forward_domain_name
            ++ suffix
            ++ codes ";")
        ∷ codes "  }"
        ∷ [])
    ++ codes "  include custom/server_redirect.conf;" ∷ codes "}" ∷ []

unfoldable pub render_redirection : Bool → Host → Result HostError Text
unfolding redirection_lines disabled_host_lines as_file normalized
render_redirection ipv6 host = normalized host.ssl >>= λ ssl.
    if not host.enabled
    then ok (as_file (disabled_host_lines ipv6 host (codes "redirection-host") ssl))
    else ok (as_file (redirection_lines ipv6 host ssl))

unfoldable pub dead_lines : Bool → Host → TlsSettings → List Text
unfolding server_lines policy_lines
dead_lines ipv6 host ssl =
    server_lines ipv6 host ssl
    ++ policy_lines host
    ++ when (not (has_root_location host.advanced_config))
        (codes "  location / { return 404; }" ∷ [])
    ++ codes "  include custom/server_dead.conf;" ∷ codes "}" ∷ []

unfoldable pub render_dead : Bool → Host → Result HostError Text
unfolding dead_lines disabled_host_lines as_file normalized
render_dead ipv6 host = normalized host.ssl >>= λ ssl.
    if not host.enabled
    then ok (as_file (disabled_host_lines ipv6 host (codes "dead-host") ssl))
    else ok (as_file (dead_lines ipv6 host ssl))
