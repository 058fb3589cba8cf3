-- ===== src/Nginx/Proxies.antt =====
-- What `add_proxy` and the loop over the proxy hosts leave, in `NginxRenderer.render` of
-- src/portwyrm/runtime/nginx.py.
use portwyrm.Prelude.{◌≡◌, refl, subst, List, [], ◌∷◌, Option, none, some, All, All-map, string_eq}
use portwyrm.Prelude.Decimal.{str}
use portwyrm.Prelude.Dict
use portwyrm.Prelude.Dict.{Dict}
use portwyrm.Prelude.Int.{int_eq}
use portwyrm.Prelude.Result.{Result, ok, err, >>=-eq-ok}
use portwyrm.Prelude.Text.{Text, text_eq, codes}
use portwyrm.Access.Lists.{AccessList, merge_access_lists}
use portwyrm.Routing.Hosts.{Host, HostError}
use portwyrm.Nginx.Lines.{starts_with}
use portwyrm.Nginx.Primitives.{access_lines}
use portwyrm.Nginx.Http.{render_proxy}
use portwyrm.Nginx.Platform.{PlatformConfig}
use portwyrm.Nginx.Render.{
  Files, of_host, of_merge, selected_ids, selected, password_file_of, access_path, http_path,
  add_passwords, add_proxy, add_proxies,
}
use portwyrm.Nginx.Files.{Has, Has-put, Has-put_self, Has-add_passwords, All-selected}
use portwyrm.Nginx.Passwords.{HasOwn, of_merge-eq-ok, named_written}
use portwyrm.Nginx.Naming.{password_files, All-access_lines}
use portwyrm.Nginx.Generation.{
  IsOneOf, IsNaming, AllNaming, IsNaming-put, AllNaming-put_by, AllNaming-put,
}

of_host-eq-ok : {A : Type 0} (m : Result HostError A) (a : A) → of_host m ≡ ok a → m ≡ ok a
of_host-eq-ok (err x) a h = cc h
of_host-eq-ok (ok b) a h = cc h

module _ (platform : PlatformConfig) (lists : List AccessList) (hosts : List Host) where
  -- Putting a configuration after the passwords of its merged lists.
  All-named :
      (host : Host) (effective : Option AccessList) (files : Files)
      → merge_access_lists (selected lists (selected_ids host)) ≡ ok effective
      → All (HasOwn files) lists
      → let file = password_file_of host (selected lists (selected_ids host)) in
        All
          (λ name. Has (access_path name) (add_passwords file effective files))
          (password_files (access_lines effective file))
  unfolding password_files access_lines
  All-named host none files merged own = tt
  All-named host (some e) files merged own =
      let chosen = selected lists (selected_ids host) in
      let file = password_file_of host chosen in
      All-access_lines (λ name. Has (access_path name) (add_passwords file (some e) files)) e file
        (named_written host chosen e files merged
          (All-selected (HasOwn files) lists (selected_ids host) own))

  AllNaming-add_passwords :
      (file : Option Text) (effective : Option AccessList) (files : Files)
      → AllNaming platform lists hosts files
      → AllNaming platform lists hosts (add_passwords file effective files)
  unfolding add_passwords access_path starts_with
  AllNaming-add_passwords none effective files old = old
  AllNaming-add_passwords (some name) none files old = old
  AllNaming-add_passwords (some name) (some l) files old =
      AllNaming-put platform lists hosts files (access_path name) _ refl old

  -- What the configuration of a host leaves.
  abbrev IsKept : Files → Files → Host → Type 0
  IsKept files after host =
      AllNaming platform lists hosts after
      × ((name : Text) → Has name files → Has name after)
      × Has (http_path (codes "proxy") host.id) after

  IsKept-add_proxy :
      (host : Host) (files after : Files)
      → add_proxy platform lists host files ≡ ok after
      → IsOneOf host hosts
      → All (HasOwn files) lists
      → AllNaming platform lists hosts files
      → IsKept files after host
  unfolding add_proxy
  IsKept-add_proxy host files after h known own old =
      let chosen = selected lists (selected_ids host) in
      let (effective, made, rest) = >>=-eq-ok (of_merge (merge_access_lists chosen)) _ h in
      let file = password_file_of host chosen in
      let (text, shown, last) =
        >>=-eq-ok (of_host (render_proxy platform.ipv6 host effective file)) _ rest in
      let merged = of_merge-eq-ok (merge_access_lists chosen) effective made in
      let path = http_path (codes "proxy") host.id in
      let opened = add_passwords file effective files in
      let e : Dict.put opened path text ≡ after = cc last in
      let new : IsNaming platform lists hosts (Dict.put opened path text) path text =
        IsNaming-put platform lists hosts opened path text path text (
          host,
          effective,
          file,
          known,
          refl,
          merged,
          of_host-eq-ok (render_proxy platform.ipv6 host effective file) text shown,
          All-named host effective files merged own,
        ) in
      subst (λ f. IsKept files f host) e
        (
          AllNaming-put_by platform lists hosts opened path text (λ _. new)
              (AllNaming-add_passwords file effective files old),
          (λ name there.
              Has-put name path text opened (Has-add_passwords name file effective files there)),
          Has-put_self path text opened,
        )

  pub AllNaming-add_proxies :
      (chosen : List Host) (files after : Files)
      → add_proxies platform lists chosen files ≡ ok after
      → All (λ h. IsOneOf h hosts) chosen
      → All (HasOwn files) lists
      → AllNaming platform lists hosts files
      → AllNaming platform lists hosts after
        × ((name : Text) → Has name files → Has name after)
        × All (λ h. Has (http_path (codes "proxy") h.id) after) chosen
  unfolding add_proxies
  AllNaming-add_proxies [] files after h known own old =
      let e : files ≡ after = cc h in
      (subst (AllNaming platform lists hosts) e old, (λ name there. rw⁻¹ e there), tt)
  AllNaming-add_proxies (x ∷ chosen) files after h (known, others_known) own old =
      let (more, one, rest) = >>=-eq-ok (add_proxy platform lists x files) _ h in
      let (new, keeps, there) = IsKept-add_proxy x files more one known own old in
      let (all, later, others) =
        AllNaming-add_proxies chosen more after rest others_known
          (All-map (λ l. keeps (access_path (str l.id))) lists own) new in
      (all, (λ name h. later name (keeps name h)), (later _ there, others))
