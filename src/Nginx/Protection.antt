-- ===== src/Nginx/Protection.antt =====
-- The access lines in the blocks of proxy hosts that src/portwyrm/runtime/nginx_http.py writes.
use portwyrm.Prelude.{
  ◌≡◌, refl, subst, Bool, true, false, not, ◌&&◌, List, [], ◌∷◌, ◌++◌, map, any, Option, ◌==◌, All,
  All-append, Bool-cases, inl, inr, string_eq,
}
use mathlib.Core.List.{append_assoc}
use portwyrm.Prelude.Text.{Text, text_eq, codes, text_leb}
use portwyrm.Access.Lists.{AccessList}
use portwyrm.Routing.Hosts.{Host, Location, TlsSettings}
use portwyrm.Nginx.Lines.{starts_with, indented}
use portwyrm.Nginx.Primitives.{when, access_lines, asset_cache_lines, has_root_location}
use portwyrm.Nginx.Http.{
  inner_access_lines, websocket_lines, render_default_proxy_location, render_location,
  proxy_pass_line, log_lines, insert_location, sort_locations, locations_lines, server_lines,
  policy_lines, upstream_lines, proxy_lines,
}
use portwyrm.Nginx.Blocks.{is_head, is_end, bodies, IsOutside, IsInside}
use portwyrm.Nginx.Segments.{
  IsProtected, IsSafe, IsSafe-append, IsSafe-block, IsSafe-append_outside, IsSafe-server_lines,
  IsOutside-indented, IsInside-indented,
}

module _ (host : Host) (access : Option AccessList) (password_file : Option Text) where
  abbrev inner : List Text
  inner = inner_access_lines access password_file

  IsOutside-inner : IsOutside inner
  unfolding inner_access_lines
  IsOutside-inner = IsOutside-indented (access_lines access password_file)

  IsInside-inner : IsInside inner
  unfolding inner_access_lines
  IsInside-inner = IsInside-indented (access_lines access password_file)

  IsOutside-websocket_lines : (allowed : Bool) → IsOutside (websocket_lines allowed)
  unfolding websocket_lines is_head starts_with
  IsOutside-websocket_lines true = (refl, (refl, (refl, tt)))
  IsOutside-websocket_lines false = tt

  IsInside-websocket_lines : (allowed : Bool) → IsInside (websocket_lines allowed)
  unfolding websocket_lines is_end text_eq
  IsInside-websocket_lines true = (refl, (refl, (refl, tt)))
  IsInside-websocket_lines false = tt

  -- The block for the root.
  IsSafe-render_default_proxy_location :
      IsSafe inner (render_default_proxy_location host access password_file)
  unfolding render_default_proxy_location is_head is_end starts_with text_eq
  IsSafe-render_default_proxy_location =
      let ws = websocket_lines host.allow_websocket_upgrade in
      let last = codes "    include conf.d/include/proxy.conf;" ∷ [] in
      subst (λ rest. IsSafe inner (codes "  location / {" ∷ rest))
        (append_assoc (inner ++ ws) last (codes "  }" ∷ []))
        (IsSafe-block inner (codes "  location / {") (inner ++ ws ++ last) refl
          (All-append _ (inner ++ ws) last
            (All-append _ inner ws IsOutside-inner
              (IsOutside-websocket_lines host.allow_websocket_upgrade))
            (refl, tt))
          (All-append _ (inner ++ ws) last
            (All-append _ inner ws IsInside-inner
              (IsInside-websocket_lines host.allow_websocket_upgrade))
            (refl, tt))
          (λ _. ([], ws ++ last, append_assoc inner ws last)))

  -- The block of a location.
  IsSafe-render_location :
      (l : Location)
      → l.advanced_config ≡ []
      → IsSafe inner (render_location l host access password_file)
  unfolding render_location is_head is_end starts_with text_eq proxy_pass_line
  IsSafe-render_location l plain =
      let ws = websocket_lines host.allow_websocket_upgrade in
      let before =
        codes "    proxy_set_header Host $host;"
        ∷ codes "    proxy_set_header X-Forwarded-Scheme $scheme;"
        ∷ codes "    proxy_set_header X-Forwarded-Proto $scheme;"
        ∷ codes "    proxy_set_header X-Forwarded-For $remote_addr;"
        ∷ codes "    proxy_set_header X-Real-IP $remote_addr;"
        ∷ proxy_pass_line l
        ∷ [] in
      rw plain (
        IsSafe-block inner (codes "  location " ++ l.path ++ codes " {") (before ++ inner ++ ws)
          refl
          (
            refl,
            (
              refl,
              (
                refl,
                (
                  refl,
                  (
                    refl,
                    (
                      refl,
                      All-append _ inner ws IsOutside-inner
                          (IsOutside-websocket_lines host.allow_websocket_upgrade),
                    ),
                  ),
                ),
              ),
            ),
          )
          (
            refl,
            (
              refl,
              (
                refl,
                (
                  refl,
                  (
                    refl,
                    (
                      refl,
                      All-append _ inner ws IsInside-inner
                          (IsInside-websocket_lines host.allow_websocket_upgrade),
                    ),
                  ),
                ),
              ),
            ),
          )
          (λ _. (before, ws, refl)))

  abbrev pub IsPlainLocation : Location → Type 0
  IsPlainLocation l = l.advanced_config ≡ []

  IsPlainLocation-insert_location :
      (l : Location) (ls : List Location)
      → IsPlainLocation l
      → All IsPlainLocation ls
      → All IsPlainLocation (insert_location l ls)
  unfolding insert_location
  IsPlainLocation-insert_location l [] first rest = (first, tt)
  IsPlainLocation-insert_location l (m ∷ ls) first rest =
      elim (Bool-cases (text_leb l.path m.path)) [
        | inl before ↦ rw before (first, rest)
        | inr behind ↦ rw behind (rest.0, IsPlainLocation-insert_location l ls first rest.1)
      ]

  IsPlainLocation-sort_locations :
      (ls : List Location) → All IsPlainLocation ls → All IsPlainLocation (sort_locations ls)
  unfolding sort_locations
  IsPlainLocation-sort_locations [] tt = tt
  IsPlainLocation-sort_locations (l ∷ ls) (first, rest) =
      IsPlainLocation-insert_location l (sort_locations ls) first
        (IsPlainLocation-sort_locations ls rest)

  IsSafe-locations_lines :
      (ls : List Location)
      → All IsPlainLocation ls
      → IsSafe inner (locations_lines ls host access password_file)
  unfolding locations_lines
  IsSafe-locations_lines [] tt = λ ys rest. rest
  IsSafe-locations_lines (l ∷ ls) (first, rest) =
      IsSafe-append inner (render_location l host access password_file)
        (locations_lines ls host access password_file) (IsSafe-render_location l first)
        (IsSafe-locations_lines ls rest)

  IsSafe-when : (b : Bool) (xs : List Text) → IsSafe inner xs → IsSafe inner (when b xs)
  IsSafe-when true xs safe = safe
  IsSafe-when false xs safe = λ ys rest. rest

  IsOutside-upstream_lines : IsOutside (upstream_lines host)
  unfolding upstream_lines is_head starts_with
  IsOutside-upstream_lines = (refl, (refl, (refl, tt)))

  IsOutside-log_lines : (family : Text) → IsOutside (log_lines family host.id)
  unfolding log_lines is_head starts_with
  IsOutside-log_lines family = (refl, (refl, tt))

  IsOutside-policy_lines : host.advanced_config ≡ [] → IsOutside (policy_lines host)
  unfolding policy_lines is_head starts_with
  IsOutside-policy_lines plain = elim (Bool-cases host.block_exploits) [
    | inl blocked ↦ rw (plain, blocked) (refl, tt)
    | inr free ↦ rw (plain, free) tt
  ]

  closing :
      All
        (IsProtected inner)
        (bodies (codes "  include custom/server_proxy.conf;" ∷ codes "}" ∷ []))
  unfolding bodies is_head starts_with
  closing = tt

  -- Where nothing is configured by hand and assets are not cached, each block of a proxy host that
  -- forwards requests to the upstream holds the lines of the access list.
  pub proxy_lines-IsProtected :
      (ipv6 : Bool) (ssl : TlsSettings)
      → host.caching_enabled ≡ false
      → host.advanced_config ≡ []
      → All IsPlainLocation host.locations
      → All (IsProtected inner) (bodies (proxy_lines ipv6 host ssl access password_file))
  unfolding proxy_lines is_head starts_with
  proxy_lines-IsProtected ipv6 ssl uncached plain locations_plain =
      let server = server_lines ipv6 host ssl in
      let logs = log_lines (codes "proxy-host") host.id in
      let upstream = server ++ upstream_lines host in
      let logged = upstream ++ logs in
      let located = locations_lines (sort_locations host.locations) host access password_file in
      let needs_root =
        not (any (λ (l : Location). l.path == codes "/") host.locations)
        && not (has_root_location host.advanced_config) in
      let root = when needs_root (render_default_proxy_location host access password_file) in
      let policed = logged ++ policy_lines host in
      let first =
        IsSafe-append_outside inner server (upstream_lines host)
          (IsSafe-server_lines inner ipv6 host ssl) IsOutside-upstream_lines in
      let second =
        IsSafe-append_outside inner upstream logs first
          (IsOutside-log_lines (codes "proxy-host")) in
      let third =
        IsSafe-append_outside inner logged (policy_lines host) second
          (IsOutside-policy_lines plain) in
      let cached = policed ++ when host.caching_enabled (map (indented 2) asset_cache_lines) in
      let fourth : IsSafe inner cached =
        IsSafe-append_outside inner policed _ third (rw uncached tt) in
      let fifth = IsSafe-append inner cached located fourth (
        IsSafe-locations_lines (sort_locations host.locations)
          (IsPlainLocation-sort_locations host.locations locations_plain)) in
      let sixth = IsSafe-append inner (cached ++ located) root fifth (
        IsSafe-when needs_root (render_default_proxy_location host access password_file)
          IsSafe-render_default_proxy_location) in
      sixth (codes "  include custom/server_proxy.conf;" ∷ codes "}" ∷ []) closing
