-- ===== src/Nginx/Generation.antt =====
-- What the configurations of proxy hosts name in a generation, in `NginxRenderer.render` of
-- src/portwyrm/runtime/nginx.py.
use portwyrm.Prelude.{
  ◌≡◌, ◌⊎◌, refl, sym, ◌∙◌, subst, true, false, List, [], ◌∷◌, Option, some, ◌==◌, All, All-map,
  Bool-cases, inl, inr, string_eq, contains,
}
use portwyrm.Prelude.Decimal.{str}
use portwyrm.Prelude.Dict
use portwyrm.Prelude.Dict.{Dict}
use portwyrm.Prelude.Int.{ℤ, int_eq}
use portwyrm.Prelude.Result.{Result, ok, >>=-eq-ok}
use portwyrm.Prelude.Text.{Text, text_eq, codes}
use portwyrm.Access.Lists.{AccessList, merge_access_lists}
use portwyrm.Routing.Hosts.{Host, Stream, HostError}
use portwyrm.Nginx.Lines.{starts_with}
use portwyrm.Nginx.Primitives.{access_lines}
use portwyrm.Nginx.Http.{render_proxy}
use portwyrm.Nginx.Platform.{PlatformConfig}
use portwyrm.Nginx.Render.{
  Files, of_host, selected_ids, selected, access_path, http_path, add_hosts, add_streams,
  add_access, add_customs, custom_path, custom_include_names,
}
use portwyrm.Nginx.Files.{Has, Has-put}
use portwyrm.Nginx.Naming.{password_files}

abbrev pub proxy_prefix : Text
proxy_prefix = codes "http/proxy-"

get-of_keys :
    (files : Files)
    → All (λ entry. starts_with proxy_prefix entry.0 ≡ false) files
    → (path text : Text) → Dict.get files path ≡ some text
    → starts_with proxy_prefix path ≡ false
unfolding Dict.get
get-of_keys [] others path text found = cc found
get-of_keys ((key, value) ∷ files) (other, others) path text found =
    elim (Bool-cases (key == path)) [
      | inl same ↦
          subst (λ k. starts_with proxy_prefix k ≡ false) ((text_eq.beq_iff key path).0 same) other
      | inr apart ↦ get-of_keys files others path text (rw apart at found)
    ]

-- The host is one of these.
unfoldable pub IsOneOf : Host → List Host → Type 0
IsOneOf h [] = ⊥
IsOneOf h (x ∷ hosts) = (h ≡ x) ⊎ IsOneOf h hosts

pub All-IsOneOf : (hosts : List Host) → All (λ h. IsOneOf h hosts) hosts
unfolding IsOneOf
All-IsOneOf [] = tt
All-IsOneOf (x ∷ hosts) = (inl refl, All-map (λ h one. inr one) hosts (All-IsOneOf hosts))

module _ (platform : PlatformConfig) (lists : List AccessList) (hosts : List Host) where
  -- The text is the configuration of one of the hosts, which has this path, rendered with its access
  -- lists, and each password file that their lines name is among the files.
  abbrev pub IsNaming : Files → Text → Text → Type 0
  IsNaming files path text =
      (h : Host) × (access : Option AccessList) × (file : Option Text) × IsOneOf h hosts
      × (http_path (codes "proxy") h.id ≡ path)
      × (merge_access_lists (selected lists (selected_ids h)) ≡ ok access)
      × (render_proxy platform.ipv6 h access file ≡ ok text)
      × All (λ name. Has (access_path name) files) (password_files (access_lines access file))

  -- Every configuration of a proxy host is such a text.
  abbrev pub AllNaming : Files → Type 0
  AllNaming files =
      (path text : Text)
      → Dict.get files path ≡ some text
      → starts_with proxy_prefix path ≡ true
      → IsNaming files path text

  pub IsNaming-put :
      (files : Files) (key value path text : Text)
      → IsNaming files path text
      → IsNaming (Dict.put files key value) path text
  IsNaming-put files key value path text (h, access, file, one, at, merged, rendered, there) = (
    h,
    access,
    file,
    one,
    at,
    merged,
    rendered,
    All-map (λ name. Has-put (access_path name) key value files) _ there,
  )

  pub AllNaming-put_by :
      (files : Files) (key value : Text)
      → (starts_with proxy_prefix key ≡ true → IsNaming (Dict.put files key value) key value)
      → AllNaming files
      → AllNaming (Dict.put files key value)
  AllNaming-put_by files key value new old path text found is_proxy =
      elim (Bool-cases (key == path)) [
        | inl same ↦
            let e : key ≡ path = (text_eq.beq_iff key path).0 same in
            let v : value ≡ text = cc (rw (Dict.get-put files key path value, same) at found) in
            subst (λ t. IsNaming (Dict.put files key value) path t) v
              (subst (λ k. IsNaming (Dict.put files key value) k value) e
                (new (subst (λ k. starts_with proxy_prefix k ≡ true) (sym e) is_proxy)))
        | inr other ↦
            IsNaming-put files key value path text
              (old path text (rw (Dict.get-put files key path value, other) at found) is_proxy)
      ]

  pub AllNaming-put :
      (files : Files) (key value : Text)
      → starts_with proxy_prefix key ≡ false
      → AllNaming files
      → AllNaming (Dict.put files key value)
  AllNaming-put files key value other = AllNaming-put_by files key value (λ h. cc (sym other ∙ h))

  pub AllNaming-of_keys :
      (files : Files)
      → All (λ entry. starts_with proxy_prefix entry.0 ≡ false) files
      → AllNaming files
  AllNaming-of_keys files others path text found is_proxy =
      cc (sym (get-of_keys files others path text found) ∙ is_proxy)

  pub AllNaming-add_access :
      (ls : List AccessList) (files : Files) → AllNaming files → AllNaming (add_access ls files)
  unfolding add_access access_path starts_with
  AllNaming-add_access [] files old = old
  AllNaming-add_access (l ∷ ls) files old =
      AllNaming-add_access ls _ (AllNaming-put files (access_path (str l.id)) _ refl old)

  pub AllNaming-add_hosts :
      (render_one : Host → Result HostError Text) (family : Text)
      → ((id : ℤ) → starts_with proxy_prefix (http_path family id) ≡ false)
      → (others : List Host) (files after : Files)
      → add_hosts render_one family others files ≡ ok after
      → AllNaming files
      → AllNaming after
  unfolding add_hosts
  AllNaming-add_hosts render_one family other [] files after h old =
      let e : files ≡ after = cc h in subst AllNaming e old
  AllNaming-add_hosts render_one family other (x ∷ others) files after h old =
      let (text, _, rest) = >>=-eq-ok (of_host (render_one x)) _ h in
      AllNaming-add_hosts render_one family other others _ after rest
        (AllNaming-put files (http_path family x.id) text (other x.id) old)

  pub AllNaming-add_streams :
      (streams : List Stream) (files : Files)
      → AllNaming files
      → AllNaming (add_streams platform.ipv6 streams files)
  unfolding add_streams starts_with
  AllNaming-add_streams [] files old = old
  AllNaming-add_streams (s ∷ streams) files old =
      AllNaming-add_streams streams _ (AllNaming-put files _ _ refl old)

  pub AllNaming-add_customs :
      (customs : Dict Text Text) (files after : Files)
      → add_customs customs files ≡ ok after
      → AllNaming files
      → AllNaming after
  unfolding add_customs custom_path starts_with
  AllNaming-add_customs [] files after h old = let e : files ≡ after = cc h in subst AllNaming e old
  AllNaming-add_customs ((key, contents) ∷ customs) files after h old =
      elim (Bool-cases (contains custom_include_names key)) [
        | inr unknown ↦ cc (rw unknown at h)
        | inl known ↦
            AllNaming-add_customs customs _ after (rw known at h)
              (AllNaming-put files (custom_path key) _ refl old)
      ]
