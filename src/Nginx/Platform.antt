-- ===== src/Nginx/Platform.antt =====
-- The shared files of src/portwyrm/runtime/nginx_platform.py, and `PlatformConfig` of
-- src/portwyrm/runtime/nginx_models.py.
use portwyrm.Prelude.{
  Bool, not, ◌&&◌, List, [], ◌∷◌, ◌++◌, map, if◌then◌else◌, ◌==◌, all, is_empty, contains,
  string_eq,
}
use portwyrm.Prelude.Dict.{Dict}
use portwyrm.Prelude.Result.{Result, ◌>>◌, guard}
use portwyrm.Prelude.Text.{Text, text_eq, codes}
use portwyrm.Tokens.Scopes.{sort_texts}
use portwyrm.Nginx.Lines.{join}
use portwyrm.Nginx.Primitives.{when}
use portwyrm.Nginx.Http.{as_file}

pub record PlatformConfig : Type 0 where
  pub ipv6 : Bool
  pub resolver_enabled : Bool
  pub resolver_addresses : List Text
  pub trusted_proxy_ranges : List Text
  pub default_site : Text
  pub default_redirect : Text
  pub default_html : Text
  pub custom_includes : Dict Text Text

-- The `ValueError`s.
pub data PlatformError : Type 0 where
  bad_site no_redirect no_html bad_range : PlatformError

-- `__post_init__`, where `is_network` is what `ip_network` accepts.
unfoldable pub check_platform : (Text → Bool) → PlatformConfig → Result PlatformError Unit
check_platform is_network p =
    guard
      (contains
        (codes "congratulations" ∷ codes "404" ∷ codes "444" ∷ codes "redirect" ∷ codes "html" ∷ [])
        p.default_site)
      bad_site
    >> guard (not (p.default_site == codes "redirect" && is_empty p.default_redirect)) no_redirect
    >> guard (not (p.default_site == codes "html" && is_empty p.default_html)) no_html
    >> guard (all is_network p.trusted_proxy_ranges) bad_range

unfoldable pub render_main : PlatformConfig → Text
unfolding as_file join
render_main p = as_file (
    codes "# Generated by Portwyrm"
      ∷ codes "load_module /usr/lib/nginx/modules/ngx_stream_module.so;"
      ∷ codes "worker_processes auto;"
      ∷ codes "pid /tmp/nginx.pid;"
      ∷ codes "error_log /dev/stderr info;"
      ∷ codes "include custom/root_top.conf;"
      ∷ codes "events { worker_connections 1024; include custom/events.conf; }"
      ∷ codes "http {"
      ∷ codes "  include /etc/nginx/mime.types;"
      ∷ codes "  default_type application/octet-stream;"
      ∷ codes
          "  log_format proxy '$remote_addr - $host [$time_local] $request $status $body_bytes_sent';"
      ∷ codes "  include custom/http_top.conf;"
      ∷ codes
          "  proxy_cache_path /var/lib/nginx/cache/public levels=1:2 keys_zone=public-cache:30m max_size=192m;"
      ∷ when p.resolver_enabled (
          (codes "  resolver " ++ join (codes " ") p.resolver_addresses ++ codes " valid=30s;")
          ∷ [])
    ++ codes "  include include/trusted-proxies.conf;"
      ∷ codes "  include http/*.conf;"
      ∷ codes "  include custom/http.conf;"
      ∷ codes "}"
      ∷ codes
          "stream { log_format stream '$remote_addr [$time_local] $protocol $status'; include stream/*.conf; include custom/stream.conf; }"
      ∷ codes "include custom/root.conf;"
      ∷ [])

unfoldable pub render_status_site : Text
unfolding as_file
render_status_site = as_file (
    codes "# Loopback-only operational telemetry for the Portwyrm control plane"
    ∷ codes "server {"
    ∷ codes "  listen 127.0.0.1:8081;"
    ∷ codes "  server_name _;"
    ∷ codes "  access_log off;"
    ∷ codes "  location = /nginx-status {"
    ∷ codes "    stub_status;"
    ∷ codes "    allow 127.0.0.1;"
    ∷ codes "    deny all;"
    ∷ codes "  }"
    ∷ codes "}"
    ∷ [])

unfoldable pub render_proxy_include : Text
unfolding as_file
render_proxy_include = as_file (
    codes "proxy_set_header Host $host;"
    ∷ codes "proxy_set_header X-Real-IP $remote_addr;"
    ∷ codes "proxy_set_header X-Forwarded-For $proxy_add_x_forwarded_for;"
    ∷ codes "proxy_set_header X-Forwarded-Proto $scheme;"
    ∷ codes "proxy_pass $forward_scheme://$server:$port;"
    ∷ [])

unfoldable pub render_block_exploits : Text
unfolding as_file
render_block_exploits =
    as_file (codes "location ~* /(?:\\.git|\\.env|wp-config\\.php) { deny all; }" ∷ [])

unfoldable pub render_trusted_proxies : PlatformConfig → Text
unfolding as_file
render_trusted_proxies p = as_file (
    codes "# Trusted reverse-proxy ranges"
      ∷ map (λ address. codes "set_real_ip_from " ++ address ++ codes ";")
          (sort_texts p.trusted_proxy_ranges)
    ++ when (not (is_empty p.trusted_proxy_ranges))
        (codes "real_ip_header X-Forwarded-For;" ∷ codes "real_ip_recursive on;" ∷ []))

-- What the default site does with a request.
unfoldable pub default_body : PlatformConfig → Text
default_body p =
    let mode = p.default_site in
    if mode == codes "congratulations"
    then codes "default_type text/plain;"
      ++ 10 ∷ codes "    return 200 \"Congratulations! Portwyrm is running.\\n\";"
    else if contains (codes "404" ∷ codes "444" ∷ []) mode
    then codes "return " ++ mode ++ codes ";"
    else if mode == codes "redirect"
    then codes "return 301 " ++ p.default_redirect ++ codes ";"
    else codes "root /data/nginx/default_www;" ++ 10 ∷ codes "    try_files $uri /index.html;"

unfoldable pub render_default_site : PlatformConfig → Text
unfolding as_file default_body
render_default_site p = as_file (
    codes "server {"
      ∷ codes "  listen 80 default_server;"
      ∷ codes "  listen 443 ssl default_server;"
      ∷ when p.ipv6 (
          codes "  listen [::]:80 default_server;"
          ∷ codes "  listen [::]:443 ssl default_server;"
          ∷ [])
    ++ codes "  server_name _;"
      ∷ codes "  ssl_reject_handshake on;"
      ∷ codes "  location ^~ /.well-known/acme-challenge/ {"
      ∷ codes "    root /data/acme-challenge;"
      ∷ codes "    try_files $uri =404;"
      ∷ codes "  }"
      ∷ codes "  location / {"
      ∷ (codes "    " ++ default_body p)
      ∷ codes "  }"
      ∷ codes "}"
      ∷ [])
