-- ===== src/Nginx/Served.antt =====
-- The configurations of proxy hosts and the password files that they name, in `NginxRenderer.render` of
-- src/portwyrm/runtime/nginx.py.
use portwyrm.Prelude.{
  ◌≡◌, refl, List, some, if◌then◌else◌, ◌==◌, All, All-map, Bool-cases, Option-cases, inl, inr,
  string_eq,
}
use portwyrm.Prelude.Dict
use portwyrm.Prelude.Dict.{Dict}
use portwyrm.Prelude.Int.{int_eq}
use portwyrm.Prelude.Result.{ok, >>=-eq-ok}
use portwyrm.Prelude.Text.{Text, text_eq, codes}
use portwyrm.Access.Lists.{AccessList, sort_lists}
use portwyrm.Routing.Hosts.{Host, Stream}
use portwyrm.Nginx.Lines.{starts_with}
use portwyrm.Nginx.Http.{render_redirection, render_dead}
use portwyrm.Nginx.Platform.{PlatformConfig}
use portwyrm.Nginx.Render.{
  Files, sort_by, http_path, add_proxies, add_hosts, add_access, custom_path, base_files, Resources,
  render,
}
use portwyrm.Nginx.Files.{
  Has, Has-add_streams, Has-add_hosts, Has-add_customs, All-sort_by, All-to_sort_by, All-sort_lists,
}
use portwyrm.Nginx.Passwords.{HasOwn, All-add_access}
use portwyrm.Nginx.Generation.{
  IsOneOf, All-IsOneOf, IsNaming, AllNaming, AllNaming-put, AllNaming-of_keys, AllNaming-add_access,
  AllNaming-add_hosts, AllNaming-add_streams, AllNaming-add_customs,
}
use portwyrm.Nginx.Proxies.{AllNaming-add_proxies}

module _ (platform : PlatformConfig) (lists : List AccessList) (hosts : List Host) where
  -- The host has a configuration, and it is such a text.
  abbrev pub IsServed : Files → Host → Type 0
  IsServed files host =
      let path = http_path (codes "proxy") host.id in
      (text : Text) × (Dict.get files path ≡ some text)
      × IsNaming platform lists hosts files path text

  IsServed-of :
      (host : Host) (files : Files)
      → AllNaming platform lists hosts files
      → Has (http_path (codes "proxy") host.id) files
      → IsServed files host
  unfolding http_path starts_with
  IsServed-of host files all there =
      let path = http_path (codes "proxy") host.id in
      elim (Option-cases (Dict.get files path)) [
        | inl absent ↦ cc (rw absent at there)
        | inr (text, found) ↦ (text, found, all path text found refl)
      ]

  AllNaming-base :
      (quic_routes : Text)
      → AllNaming platform lists hosts (
          if platform.default_site == codes "html"
          then Dict.put
              (base_files platform quic_routes)
              (codes "default_www/index.html")
              platform.default_html
          else base_files platform quic_routes)
  unfolding base_files custom_path starts_with
  AllNaming-base quic_routes =
      let start = base_files platform quic_routes in
      let old = AllNaming-of_keys platform lists hosts start (
        (
          refl,
          (
            refl,
            (
              refl,
              (
                refl,
                (
                  refl,
                  (
                    refl,
                    (
                      refl,
                      (
                        refl,
                        (
                          refl,
                          (
                            refl,
                            (
                              refl,
                              (refl, (refl, (refl, (refl, (refl, (refl, (refl, (refl, tt)))))))),
                            ),
                          ),
                        ),
                      ),
                    ),
                  ),
                ),
              ),
            ),
          ),
        )) in
      elim (Bool-cases (platform.default_site == codes "html")) [
        | inl html ↦
            rw html (AllNaming-put platform lists hosts start _ platform.default_html refl old)
        | inr other ↦ rw other old
      ]

-- In a generation that is rendered, every proxy host has its configuration file. That file holds the
-- rendering of one of the proxy hosts, which has that path, with its access lists merged, and each password file that the
-- access lines of this rendering name is among the files.
pub render-IsServed :
    (platform : PlatformConfig) (r : Resources) (files : Files)
    → render platform r ≡ ok files
    → All (IsServed platform r.access_lists r.proxy_hosts files) r.proxy_hosts
unfolding render base_files custom_path http_path starts_with
render-IsServed platform r files h =
    let lists = r.access_lists in
    let hosts = r.proxy_hosts in
    let start = base_files platform r.quic_routes in
    let base =
      if platform.default_site == codes "html"
      then Dict.put start (codes "default_www/index.html") platform.default_html
      else start in
    let by_id = λ (h : Host). h.id in
    let opened = add_access (sort_lists lists) base in
    let proxies = sort_by by_id r.proxy_hosts in
    let redirections = sort_by by_id r.redirection_hosts in
    let deads = sort_by by_id r.dead_hosts in
    let streams = sort_by (λ (s : Stream). s.id) r.streams in
    let redirect = render_redirection platform.ipv6 in
    let dead = render_dead platform.ipv6 in
    let (f1, one, rest1) = >>=-eq-ok (add_proxies platform lists proxies opened) _ h in
    let (f2, two, rest2) =
      >>=-eq-ok (add_hosts redirect (codes "redirection") redirections f1) _ rest1 in
    let (f3, three, rest3) = >>=-eq-ok (add_hosts dead (codes "dead") deads f2) _ rest2 in
    let own = All-sort_lists (HasOwn opened) lists (All-add_access (sort_lists lists) base) in
    let (all1, _, there) =
      AllNaming-add_proxies platform lists hosts proxies opened f1 one
        (All-to_sort_by by_id (λ h. IsOneOf h hosts) hosts (All-IsOneOf hosts)) own
        (AllNaming-add_access platform lists hosts (sort_lists lists) base
          (AllNaming-base platform lists hosts r.quic_routes)) in
    let all2 =
      AllNaming-add_hosts platform lists hosts redirect (codes "redirection") (λ id. refl)
        redirections f1 f2 two all1 in
    let all3 =
      AllNaming-add_hosts platform lists hosts dead (codes "dead") (λ id. refl) deads f2 f3 three
        all2 in
    let all =
      AllNaming-add_customs platform lists hosts _ _ files rest3
        (AllNaming-add_streams platform lists hosts streams f3 all3) in
    let keeps = λ (name : Text) (there : Has name f1). Has-add_customs name _ _ files rest3 (
      Has-add_streams name platform.ipv6 streams f3 (
        Has-add_hosts name dead (codes "dead") deads f2 f3 three
          (Has-add_hosts name redirect (codes "redirection") redirections f1 f2 two there))) in
    All-sort_by by_id (IsServed platform lists hosts files) r.proxy_hosts (
      All-map (λ host has. IsServed-of platform lists hosts host files all (keeps _ has)) proxies
        there)
