-- ===== src/Nginx/Primitives.antt =====
-- The fragments of src/portwyrm/runtime/nginx_primitives.py.
use portwyrm.Prelude.{
  Bool, true, false, not, ◌&&◌, ◌||◌, List, [], ◌∷◌, ◌++◌, map, Option, none, some, if◌then◌else◌,
  ◌==◌, is_empty, string_eq,
}
use portwyrm.Prelude.Decimal.{str, str_int}
use portwyrm.Prelude.Int.{pos, int_eq}
use portwyrm.Prelude.Text.{Text, codes}
use portwyrm.Access.Lists.{AccessList, AccessClient, directive_name}
use portwyrm.Routing.Hosts.{TlsSettings}
use portwyrm.Nginx.Lines.{join, words_from, is_in}

-- `if ssl.certificate_id`
abbrev pub has_certificate : TlsSettings → Bool
has_certificate ssl = not (ssl.certificate_id == pos 0)

abbrev pub when : Bool → List Text → List Text
when true lines = lines
when false lines = []

unfoldable pub listen : List Text → TlsSettings → Bool → List Text
unfolding join
listen domain_names ssl ipv6 =
    let http2 = if ssl.http2 then codes " http2" else [] in
    codes "  listen 80;" ∷ when ipv6 (codes "  listen [::]:80;" ∷ [])
    ++ when (has_certificate ssl) (
        (codes "  listen 443 ssl" ++ http2 ++ codes ";")
        ∷ when ipv6 ((codes "  listen [::]:443 ssl" ++ http2 ++ codes ";") ∷ []))
    ++ (codes "  server_name " ++ join (codes " ") domain_names ++ codes ";") ∷ []

unfoldable pub ssl_lines : TlsSettings → Bool → List Text
unfolding str_int
ssl_lines ssl stream =
    let cert_dir = codes "/etc/letsencrypt/live/npm-" ++ str_int ssl.certificate_id in
    when (has_certificate ssl) (
      (codes "  ssl_certificate " ++ cert_dir ++ codes "/fullchain.pem;")
      ∷ (codes "  ssl_certificate_key " ++ cert_dir ++ codes "/privkey.pem;")
      ∷ (if stream
          then codes "  ssl_session_cache shared:SSL_stream:50m;"
          else codes "  ssl_session_cache shared:SSL:50m;")
      ∷ when (not stream && ssl.hsts) (
          (codes "  add_header Strict-Transport-Security \"max-age=63072000"
            ++ (if ssl.hsts_subdomains then codes "; includeSubDomains" else [])
            ++ codes "\" always;")
          ∷ []))

unfoldable pub force_ssl_lines : TlsSettings → List Text
force_ssl_lines ssl = when (has_certificate ssl && ssl.forced) (
    (codes "  if ("
      ++ (if ssl.trust_forwarded_proto
          then codes "$http_x_forwarded_proto != https"
          else codes "$scheme != https")
      ++ codes ") {")
    ∷ codes "    return 301 https://$host$request_uri;"
    ∷ codes "  }"
    ∷ [])

-- `password_file or access_list.id`
unfoldable pub password_path : Option Text → AccessList → Text
unfolding str
password_path none l = str l.id
password_path (some file) l = if is_empty file then str l.id else file

unfoldable pub client_line : AccessClient → Text
unfolding directive_name
client_line c = directive_name c.directive ++ codes " " ++ c.address ++ codes ";"

unfoldable pub access_lines : Option AccessList → Option Text → List Text
unfolding password_path client_line
access_lines none password_file = []
access_lines (some l) password_file =
    let has_credentials = not (is_empty l.credentials) in
    let has_clients = not (is_empty l.clients) in
    when has_credentials (
      codes "auth_basic \"Authorization required\";"
      ∷ (codes "auth_basic_user_file /data/access/" ++ password_path password_file l ++ codes ";")
      ∷ when (not l.pass_auth) (codes "proxy_set_header Authorization \"\";" ∷ []))
    ++ when has_clients (map client_line l.clients ++ codes "deny all;" ∷ [])
    ++ when (has_credentials || has_clients)
        ((if l.satisfy_any then codes "satisfy any;" else codes "satisfy all;") ∷ [])

unfoldable pub asset_cache_lines : List Text
asset_cache_lines =
    codes
      "location ~* ^.*\\.(css|js|jpe?g|gif|png|webp|woff|woff2|eot|ttf|svg|ico|css\\.map|js\\.map)$ {"
    ∷ codes "  if_modified_since off;"
    ∷ codes "  proxy_cache public-cache;"
    ∷ codes "  proxy_cache_key $host$request_uri;"
    ∷ codes "  proxy_ignore_headers Set-Cookie Cache-Control Expires X-Accel-Expires;"
    ∷ codes "  proxy_cache_valid any 30m;"
    ∷ codes "  proxy_cache_valid 404 1m;"
    ∷ codes "  proxy_hide_header Last-Modified;"
    ∷ codes "  proxy_hide_header Cache-Control;"
    ∷ codes "  proxy_hide_header Vary;"
    ∷ codes "  proxy_cache_bypass 0;"
    ∷ codes "  proxy_no_cache 0;"
    ∷ codes
        "  proxy_cache_use_stale error timeout updating http_500 http_502 http_503 http_504 http_404;"
    ∷ codes "  proxy_connect_timeout 5s;"
    ∷ codes "  proxy_read_timeout 45s;"
    ∷ codes "  expires 30m;"
    ∷ codes "  access_log off;"
    ∷ codes "  include conf.d/include/proxy.conf;"
    ∷ codes "}"
    ∷ []

unfoldable pub acme_challenge_location : List Text
acme_challenge_location =
    codes "  location ^~ /.well-known/acme-challenge/ {"
    ∷ codes "    root /data/acme-challenge;"
    ∷ codes "    try_files $uri =404;"
    ∷ codes "  }"
    ∷ []

-- The replacement of newlines by spaces changes nothing that `split` sees.
unfoldable pub has_root_location : Text → Bool
unfolding join words_from is_in
has_root_location config = is_in (codes "location / {") (join (codes " ") (words_from [] config))
