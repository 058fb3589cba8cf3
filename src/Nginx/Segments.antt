-- ===== src/Nginx/Segments.antt =====
-- Lines of src/portwyrm/runtime/nginx_http.py that add protected blocks only.
use portwyrm.Prelude.{
  ◌≡◌, refl, sym, subst, Bool, true, false, ◌&&◌, ◌||◌, List, [], ◌∷◌, ◌++◌, map, any, ◌==◌, All,
  Bool-cases, inl, inr, string_eq,
}
use mathlib.Core.List.{append_assoc}
use portwyrm.Prelude.Text.{Text, text_eq, codes}
use portwyrm.Routing.Hosts.{Host, TlsSettings}
use portwyrm.Nginx.Lines.{starts_with}
use portwyrm.Nginx.Primitives.{
  has_certificate, when, listen, ssl_lines, force_ssl_lines, acme_challenge_location,
}
use portwyrm.Nginx.Http.{server_lines}
use portwyrm.Nginx.Blocks.{
  is_head, is_end, bodies, IsOutside, IsInside, bodies-outside, bodies-block,
}

-- Whether a block forwards requests.
unfoldable pub forwards : List Text → Bool
unfolding starts_with
forwards lines =
    any
      (λ line.
        starts_with (codes "    proxy_pass ") line
        || line == codes "    include conf.d/include/proxy.conf;")
      lines

-- A block that forwards requests holds these lines, one after the other.
abbrev pub IsProtected : List Text → List Text → Type 0
IsProtected inner block =
    forwards block ≡ true
    → (before : List Text) × (after : List Text) × (block ≡ before ++ inner ++ after)

pub IsOutside-when : (b : Bool) (xs : List Text) → IsOutside xs → IsOutside (when b xs)
IsOutside-when true xs out = out
IsOutside-when false xs out = tt

module _ (inner : List Text) where
  -- Lines that add blocks that are protected only.
  abbrev pub IsSafe : List Text → Type 0
  IsSafe xs =
      (ys : List Text)
      → All (IsProtected inner) (bodies ys)
      → All (IsProtected inner) (bodies (xs ++ ys))

  pub IsSafe-append : (xs zs : List Text) → IsSafe xs → IsSafe zs → IsSafe (xs ++ zs)
  IsSafe-append xs zs first second ys rest =
      subst (λ l. All (IsProtected inner) (bodies l)) (sym (append_assoc xs zs ys))
        (first (zs ++ ys) (second ys rest))

  pub IsSafe-outside : (xs : List Text) → IsOutside xs → IsSafe xs
  IsSafe-outside xs out ys rest =
      subst (All (IsProtected inner)) (sym (bodies-outside xs ys out)) rest

  pub IsSafe-block :
      (head : Text) (xs : List Text)
      → is_head head ≡ true
      → IsOutside xs
      → IsInside xs
      → IsProtected inner xs
      → IsSafe (head ∷ xs ++ codes "  }" ∷ [])
  IsSafe-block head xs opens out inside protected ys rest =
      subst (λ l. All (IsProtected inner) (bodies (head ∷ l)))
        (sym (append_assoc xs (codes "  }" ∷ []) ys))
        (subst (All (IsProtected inner)) (sym (bodies-block head xs ys opens out inside))
          (protected, rest))

pub IsOutside-indented : (ls : List Text) → IsOutside (map (λ l. codes "    " ++ l) ls)
unfolding is_head starts_with
IsOutside-indented [] = tt
IsOutside-indented (l ∷ ls) = (refl, IsOutside-indented ls)

pub IsInside-indented : (ls : List Text) → IsInside (map (λ l. codes "    " ++ l) ls)
unfolding is_end text_eq
IsInside-indented [] = tt
IsInside-indented (l ∷ ls) = (refl, IsInside-indented ls)

pub IsOutside-listen :
    (names : List Text) (ssl : TlsSettings) (ipv6 : Bool) → IsOutside (listen names ssl ipv6)
unfolding listen is_head starts_with
IsOutside-listen names ssl true = elim (Bool-cases (has_certificate ssl)) [
  | inl secure ↦ rw secure (refl, (refl, (refl, (refl, (refl, tt)))))
  | inr plain ↦ rw plain (refl, (refl, (refl, tt)))
]
IsOutside-listen names ssl false = elim (Bool-cases (has_certificate ssl)) [
  | inl secure ↦ rw secure (refl, (refl, (refl, tt)))
  | inr plain ↦ rw plain (refl, (refl, tt))
]

pub IsOutside-ssl_lines : (ssl : TlsSettings) → IsOutside (ssl_lines ssl false)
unfolding ssl_lines is_head starts_with
IsOutside-ssl_lines ssl = elim (Bool-cases (has_certificate ssl)) [
  | inr plain ↦ rw plain tt
  | inl secure ↦ elim (Bool-cases ssl.hsts) [
    | inl strict ↦ rw (secure, strict) (refl, (refl, (refl, (refl, tt))))
    | inr lax ↦ rw (secure, lax) (refl, (refl, (refl, tt)))
  ]
]

pub IsOutside-force_ssl_lines : (ssl : TlsSettings) → IsOutside (force_ssl_lines ssl)
unfolding force_ssl_lines is_head starts_with
IsOutside-force_ssl_lines ssl = elim (Bool-cases (has_certificate ssl && ssl.forced)) [
  | inl forced ↦ rw forced (refl, (refl, (refl, tt)))
  | inr free ↦ rw free tt
]

module _ (inner : List Text) where
  pub IsSafe-acme_challenge_location : IsSafe inner acme_challenge_location
  unfolding acme_challenge_location is_head is_end starts_with text_eq forwards
  IsSafe-acme_challenge_location =
      IsSafe-block inner (codes "  location ^~ /.well-known/acme-challenge/ {")
        (codes "    root /data/acme-challenge;" ∷ codes "    try_files $uri =404;" ∷ []) refl
        (refl, (refl, tt)) (refl, (refl, tt)) (λ h. cc)

  -- Lines behind safe ones that open no block.
  pub IsSafe-append_outside :
      (xs zs : List Text) → IsSafe inner xs → IsOutside zs → IsSafe inner (xs ++ zs)
  IsSafe-append_outside xs zs safe out =
      IsSafe-append inner xs zs safe (IsSafe-outside inner zs out)

  pub IsSafe-server_lines :
      (ipv6 : Bool) (host : Host) (ssl : TlsSettings) → IsSafe inner (server_lines ipv6 host ssl)
  unfolding server_lines is_head starts_with
  IsSafe-server_lines ipv6 host ssl =
      let start = codes "server {" ∷ listen host.domain_names ssl ipv6 in
      let certified = start ++ ssl_lines ssl false in
      let first = IsSafe-outside inner start (refl, IsOutside-listen host.domain_names ssl ipv6) in
      let second =
        IsSafe-append_outside start (ssl_lines ssl false) first (IsOutside-ssl_lines ssl) in
      let third =
        IsSafe-append_outside certified (force_ssl_lines ssl) second
          (IsOutside-force_ssl_lines ssl) in
      IsSafe-append inner (certified ++ force_ssl_lines ssl) acme_challenge_location third
        IsSafe-acme_challenge_location
