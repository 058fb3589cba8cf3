-- ===== src/Nginx/Render.antt =====
-- The assembly of a generation: `NginxRenderer.render` of src/portwyrm/runtime/nginx.py.
use portwyrm.Prelude.{
  Bool, true, false, not, List, [], ◌∷◌, ◌++◌, map, Option, none, some, if◌then◌else◌, ◌==◌, nat_eq,
  ltb, leb, length, is_empty, contains, string_eq,
}
use portwyrm.Prelude.Decimal.{str, str_int}
use portwyrm.Prelude.Dict
use portwyrm.Prelude.Dict.{Dict}
use portwyrm.Prelude.Int.{ℤ, pos, negsuc, int_eq}
use portwyrm.Prelude.Result.{Result, ok, err, ◌>>=◌}
use portwyrm.Prelude.Text.{Text, text_eq, codes, rstrip, text_leb}
use portwyrm.Access.Lists.{
  AccessList, MergeError, merge_access_lists, render_htpasswd, sort_lists, sort_entries,
}
use portwyrm.Routing.Hosts.{Host, Stream, HostError}
use portwyrm.Nginx.Http.{render_proxy, render_redirection, render_dead}
use portwyrm.Nginx.Streams.{render_stream}
use portwyrm.Nginx.Platform.{
  PlatformConfig, render_main, render_status_site, render_proxy_include, render_block_exploits,
  render_trusted_proxies, render_default_site,
}

-- What is raised: by the settings of a host, by a merge, or for the name of an include.
pub data RenderError : Type 0 where
  bad_host : HostError → RenderError
  bad_merge : MergeError → RenderError
  unsupported : Text → RenderError

abbrev pub of_host : {A : Type 0} → Result HostError A → Result RenderError A
of_host (err e) = err (bad_host e)
of_host (ok a) = ok a

abbrev pub of_merge : {A : Type 0} → Result MergeError A → Result RenderError A
of_merge (err e) = err (bad_merge e)
of_merge (ok a) = ok a

abbrev pub Files : Type 0
Files = Dict Text Text

abbrev pub custom_include_names : List Text
custom_include_names =
    codes "root_top"
    ∷ codes "root"
    ∷ codes "http_top"
    ∷ codes "http"
    ∷ codes "events"
    ∷ codes "stream"
    ∷ codes "server_proxy"
    ∷ codes "server_redirect"
    ∷ codes "server_stream"
    ∷ codes "server_stream_tcp"
    ∷ codes "server_stream_udp"
    ∷ codes "server_dead"
    ∷ []

-- The order of `int`.
unfoldable pub int_leb : ℤ → ℤ → Bool
int_leb (pos a) (pos b) = leb a b
int_leb (pos a) (negsuc b) = false
int_leb (negsuc a) (pos b) = true
int_leb (negsuc a) (negsuc b) = leb b a

-- `sorted(items, key=lambda item: item.id)`
module _ {A : Type 0} (key : A → ℤ) where
  unfoldable pub insert_by : A → List A → List A
  insert_by a [] = a ∷ []
  insert_by a (b ∷ bs) = if int_leb (key a) (key b) then a ∷ b ∷ bs else b ∷ insert_by a bs

  unfoldable pub sort_by : List A → List A
  unfolding insert_by
  sort_by [] = []
  sort_by (a ∷ rest) = insert_by a (sort_by rest)

-- `access_by_id.get(i)`: of several lists with the id, the last.
unfoldable pub access_by_id : List AccessList → ℤ → Option AccessList
access_by_id [] i = none
access_by_id (l ∷ lists) i =
    let later = access_by_id lists i in
    elim later [ some m ↦ some m | none ↦ if pos l.id == i then some l else none ]

-- `host.access_list_ids or ((host.access_list_id,) if host.access_list_id else ())`
unfoldable pub selected_ids : Host → List ℤ
selected_ids host =
    if not (is_empty host.access_list_ids)
    then host.access_list_ids
    else if host.access_list_id == pos 0
    then []
    else host.access_list_id ∷ []

unfoldable pub selected : List AccessList → List ℤ → List AccessList
selected lists [] = []
selected lists (i ∷ ids) =
    let rest = selected lists ids in elim (access_by_id lists i) [ none ↦ rest | some l ↦ l ∷ rest ]

-- The file name for the passwords of a host that several lists protect.
unfoldable pub password_file_of : Host → List AccessList → Option Text
unfolding str_int
password_file_of host lists =
    if ltb 1 (length lists) then some (codes "proxy-host-" ++ str_int host.id) else none

unfoldable pub access_path : Text → Text
access_path name = codes "access/" ++ name

-- `f"http/{family}-{host.id}.conf"`
unfoldable pub http_path : Text → ℤ → Text
unfolding str_int
http_path family id = codes "http/" ++ family ++ codes "-" ++ str_int id ++ codes ".conf"

-- The password file of merged lists, where there is one.
unfoldable pub add_passwords : Option Text → Option AccessList → Files → Files
unfolding access_path
add_passwords none effective files = files
add_passwords (some name) none files = files
add_passwords (some name) (some l) files =
    Dict.put files (access_path name) (render_htpasswd l.credentials)

module _ (platform : PlatformConfig) (lists : List AccessList) where
  unfoldable pub add_proxy : Host → Files → Result RenderError Files
  unfolding add_passwords password_file_of selected selected_ids http_path
  add_proxy host files =
      let chosen = selected lists (selected_ids host) in
      of_merge (merge_access_lists chosen) >>= λ effective.
      let name = password_file_of host chosen in
      of_host (render_proxy platform.ipv6 host effective name) >>= λ text.
      ok (Dict.put (add_passwords name effective files) (http_path (codes "proxy") host.id) text)

  unfoldable pub add_proxies : List Host → Files → Result RenderError Files
  unfolding add_proxy
  add_proxies [] files = ok files
  add_proxies (h ∷ hosts) files = add_proxy h files >>= λ more. add_proxies hosts more

-- Hosts of another family, with their renderer.
unfoldable pub add_hosts :
    (Host → Result HostError Text) → Text → List Host → Files → Result RenderError Files
unfolding http_path
add_hosts render family [] files = ok files
add_hosts render family (h ∷ hosts) files = of_host (render h) >>= λ text.
    add_hosts render family hosts (Dict.put files (http_path family h.id) text)

unfoldable pub add_streams : Bool → List Stream → Files → Files
unfolding str_int
add_streams ipv6 [] files = files
add_streams ipv6 (s ∷ streams) files = add_streams ipv6 streams (
    Dict.put files (codes "stream/stream-" ++ str_int s.id ++ codes ".conf") (render_stream ipv6 s))

unfoldable pub add_access : List AccessList → Files → Files
unfolding access_path
add_access [] files = files
add_access (l ∷ lists) files =
    add_access lists (Dict.put files (access_path (str l.id)) (render_htpasswd l.credentials))

unfoldable pub custom_path : Text → Text
custom_path name = codes "custom/" ++ name ++ codes ".conf"

unfoldable pub add_customs : Dict Text Text → Files → Result RenderError Files
unfolding custom_path
add_customs [] files = ok files
add_customs ((name, contents) ∷ customs) files =
    let rest =
      add_customs customs (Dict.put files (custom_path name) (rstrip contents ++ 10 ∷ [])) in
    if not (contains custom_include_names name) then err (unsupported name) else rest

-- The files that every generation has; `quic_routes` is the JSON of the QUIC routes.
unfoldable pub base_files : PlatformConfig → Text → Files
unfolding render_main render_default_site render_trusted_proxies custom_path
base_files platform quic_routes =
    (codes "nginx.conf", render_main platform)
    ∷ (codes "http/default.conf", render_default_site platform)
    ∷ (codes "http/status.conf", render_status_site)
    ∷ (codes "include/trusted-proxies.conf", render_trusted_proxies platform)
    ∷ (codes "conf.d/include/proxy.conf", render_proxy_include)
    ∷ (codes "conf.d/include/block-exploits.conf", render_block_exploits)
    ∷ (codes "quic/routes.json", quic_routes)
    ∷ map (λ name. (custom_path name, [])) custom_include_names

-- What is rendered.
pub record Resources : Type 0 where
  pub proxy_hosts : List Host
  pub redirection_hosts : List Host
  pub dead_hosts : List Host
  pub streams : List Stream
  pub access_lists : List AccessList
  pub quic_routes : Text

unfoldable pub render : PlatformConfig → Resources → Result RenderError Files
unfolding base_files add_access add_proxies add_hosts add_streams add_customs sort_by
render platform r =
    let base = base_files platform r.quic_routes in
    let base =
      if platform.default_site == codes "html"
      then Dict.put base (codes "default_www/index.html") platform.default_html
      else base in
    let files = add_access (sort_lists r.access_lists) base in
    add_proxies platform r.access_lists (sort_by (λ (h : Host). h.id) r.proxy_hosts) files
    >>= λ files.
        add_hosts (render_redirection platform.ipv6) (codes "redirection")
          (sort_by (λ (h : Host). h.id) r.redirection_hosts) files
        >>= λ files.
            add_hosts (render_dead platform.ipv6) (codes "dead")
              (sort_by (λ (h : Host). h.id) r.dead_hosts) files
            >>= λ files.
                add_customs (sort_entries text_leb platform.custom_includes)
                  (add_streams platform.ipv6 (sort_by (λ (s : Stream). s.id) r.streams) files)
