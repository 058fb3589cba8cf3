-- ===== src/Routing/Domains.antt =====
-- `canonical_domains` and `_target` of src/portwyrm/tables/routing.py: the names of hosts and of their
-- targets.
use portwyrm.Prelude.{
  ℕ, ◌+◌, ◌-◌, Bool, true, false, not, ◌&&◌, ◌||◌, List, [], ◌∷◌, ◌++◌, Option, none, some,
  if◌then◌else◌, ◌==◌, nat_eq, leb, ltb, length, all, is_empty, contains, drop,
}
use portwyrm.Prelude.Result.{Result, ok, err, ◌>>=◌}
use portwyrm.Prelude.Text.{Text, text_eq, codes, strip}
use portwyrm.Quic.Hello.{rstrip_dots}
pub mod Canonical
pub mod Plain

-- A `DomainValidationError` by its cause.
pub data NameError : Type 0 where
  not_text not_between_1_and_100 : NameError
  invalid_name duplicate_name : Text → NameError
  is_required not_an_address not_a_hostname not_a_container : NameError

-- `t.split(sep)` for a single character.
unfoldable pub split_on : ℕ → Text → List Text
split_on sep [] = [] ∷ []
split_on sep (c ∷ t) =
    let rest = split_on sep t in
    if c == sep
    then [] ∷ rest
    else elim rest [ [] ↦ (c ∷ []) ∷ [] | part ∷ parts ↦ (c ∷ part) ∷ parts ]

unfoldable pub is_digit : ℕ → Bool
is_digit c = leb b'0' c && leb c b'9'

unfoldable pub is_lower : ℕ → Bool
is_lower c = leb b'a' c && leb c b'z'

unfoldable pub is_upper : ℕ → Bool
is_upper c = leb b'A' c && leb c b'Z'

-- What `[a-z0-9]` matches under `re.I`: also the capitals, and the four letters of Unicode whose cases
-- meet those of ASCII.
unfoldable pub is_name_char : ℕ → Bool
unfolding is_digit is_lower is_upper
is_name_char c =
    is_digit c || is_lower c || is_upper c || c == 304 || c == 305 || c == 383 || c == 8490

unfoldable pub last_is : (ℕ → Bool) → Text → Bool
last_is p [] = false
last_is p (c ∷ []) = p c
last_is p (_ ∷ c ∷ t) = last_is p (c ∷ t)

-- `c(?:[c-]*c)?` for a class `c`.
unfoldable pub is_hyphenated : (ℕ → Bool) → Text → Bool
unfolding last_is
is_hyphenated p [] = false
is_hyphenated p (c ∷ t) = p c && last_is p (c ∷ t) && all (λ d. p d || d == b'-') t

-- `[a-z0-9](?:[a-z0-9-]{0,61}[a-z0-9])?` under `re.I`.
unfoldable pub is_label : Text → Bool
unfolding is_hyphenated is_name_char
is_label t = is_hyphenated is_name_char t && leb (length t) 63

-- A text without one full stop at its end.
unfoldable pub without_stop : Text → Text
without_stop [] = []
without_stop (c ∷ []) = if c == b'.' then [] else c ∷ []
without_stop (c ∷ d ∷ t) = c ∷ without_stop (d ∷ t)

-- A text behind `*.`, where it begins so.
unfoldable pub without_star : Text → Text
without_star (c ∷ d ∷ t) = if c == b'*' && d == b'.' then t else c ∷ d ∷ t
without_star t = t

-- `_DOMAIN_RE.fullmatch`
unfoldable pub domain_matches : Text → Bool
unfolding split_on is_label without_stop without_star
domain_matches t =
    let name = without_stop (without_star t) in
    let labels = split_on b'.' name in
    leb (length name) 253 && leb 2 (length labels) && all is_label labels

pub data TargetKind : Type 0 where
  ip dns docker : TargetKind

unfoldable pub is_dns_label : Text → Bool
unfolding is_hyphenated is_digit is_lower
is_dns_label t = leb (length t) 63 && is_hyphenated (λ c. is_lower c || is_digit c) t

unfoldable pub is_container_char : ℕ → Bool
unfolding is_digit is_lower is_upper
is_container_char c = is_digit c || is_lower c || is_upper c || c == b'_' || c == b'.' || c == b'-'

-- `[A-Za-z0-9][A-Za-z0-9_.-]{0,254}`
unfoldable pub is_container : Text → Bool
unfolding is_container_char
is_container [] = false
is_container (c ∷ t) =
    (is_digit c || is_lower c || is_upper c) && all is_container_char t && leb (length t) 254

-- Case folding comes from outside.
module _ (casefold : Text → Text) where
  unfoldable pub fold_domain : Text → Text
  fold_domain raw = casefold (rstrip_dots (strip raw))

  -- The loop; what is no string is none.
  unfoldable pub collect_domains : List Text → List (Option Text) → Result NameError (List Text)
  unfolding fold_domain
  collect_domains domains [] = ok domains
  collect_domains domains (none ∷ values) = err not_text
  collect_domains domains (some raw ∷ values) =
      let domain = fold_domain raw in
      let rest = collect_domains (domains ++ domain ∷ []) values in
      if not (domain_matches domain)
      then err (invalid_name raw)
      else if contains domains domain
      then err (duplicate_name domain)
      else rest

  unfoldable pub canonical_domains : List (Option Text) → Result NameError (List Text)
  unfolding collect_domains
  canonical_domains values = collect_domains [] values >>= λ domains.
      if leb 1 (length domains) && leb (length domains) 100
      then ok domains
      else err not_between_1_and_100

  -- `str(ipaddress.ip_address(target))` comes from outside.
  unfoldable pub target : (Text → Option Text) → Text → TargetKind → Result NameError Text
  unfolding is_dns_label is_container split_on
  target ip_address value kind =
      let stripped = strip value in
      if is_empty stripped then err is_required else elim kind [
        | ip ↦ elim (ip_address stripped) [ none ↦ err not_an_address | some t ↦ ok t ]
        | dns ↦
            let normalized = casefold (rstrip_dots stripped) in
            if leb (length normalized) 253 && all is_dns_label (split_on b'.' normalized)
            then ok normalized
            else err not_a_hostname
        | docker ↦ if is_container stripped then ok stripped else err not_a_container
      ]
