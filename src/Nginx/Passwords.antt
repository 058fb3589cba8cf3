-- ===== src/Nginx/Passwords.antt =====
-- The password files that the configuration of a proxy host names, in `NginxRenderer.render` of
-- src/portwyrm/runtime/nginx.py.
use portwyrm.Prelude.{
  ◌≡◌, refl, sym, ap, ◌∙◌, subst, arith, true, List, [], ◌∷◌, ◌++◌, none, some, All, ltb, length,
  string_eq,
}
use portwyrm.Prelude.Decimal.{str, str_int}
use portwyrm.Prelude.Dict
use portwyrm.Prelude.Dict.{Dict}
use portwyrm.Prelude.Int.{int_eq}
use portwyrm.Prelude.Result.{Result, ok, err, >>=-eq-ok}
use portwyrm.Prelude.Text.{Text, text_eq, codes}
use portwyrm.Access.Lists.{
  AccessList, MergeError, merge_access_lists, merge_ordered, sort_lists, insert_list, collect_lists,
  render_htpasswd,
}
use portwyrm.Routing.Hosts.{Host}
use portwyrm.Nginx.Primitives.{password_path}
use portwyrm.Nginx.Render.{
  Files, of_merge, password_file_of, access_path, add_passwords, add_access,
}
use portwyrm.Nginx.Files.{Has, Has-put_self, Has-add_access}

-- The password file of a list is written.
abbrev pub HasOwn : Files → AccessList → Type 0
HasOwn files l = Has (access_path (str l.id)) files

pub All-add_access :
    (lists : List AccessList) (files : Files) → All (HasOwn (add_access lists files)) lists
unfolding add_access
All-add_access [] files = tt
All-add_access (l ∷ lists) files =
    let key = access_path (str l.id) in
    (
      Has-add_access key lists _ (Has-put_self key _ files),
      All-add_access lists (Dict.put files key (render_htpasswd l.credentials)),
    )

-- A list alone keeps its number.
id-merge_access_lists : (l e : AccessList) → merge_access_lists (l ∷ []) ≡ ok (some e) → e.id ≡ l.id
unfolding merge_access_lists sort_lists insert_list merge_ordered
id-merge_access_lists l e h =
    let (found, _, same) = >>=-eq-ok (collect_lists [] [] (l ∷ [])) _ h in cc (ap (λ r. r) same)

pub of_merge-eq-ok : {A : Type 0} (m : Result MergeError A) (a : A) → of_merge m ≡ ok a → m ≡ ok a
of_merge-eq-ok (err x) a h = cc h
of_merge-eq-ok (ok b) a h = cc h

merge_access_lists-nil : merge_access_lists [] ≡ ok none
unfolding merge_access_lists sort_lists merge_ordered
merge_access_lists-nil = refl

-- The file that the access lines of a host name, for the lists that it chooses and their merge.
abbrev pub named_file : Host → List AccessList → AccessList → Text
named_file host chosen e = access_path (password_path (password_file_of host chosen) e)

pub named_written :
    (host : Host) (chosen : List AccessList) (e : AccessList) (files : Files)
    → merge_access_lists chosen ≡ ok (some e)
    → All (HasOwn files) chosen
    → Has (named_file host chosen e) (add_passwords (password_file_of host chosen) (some e) files)
unfolding password_file_of add_passwords password_path
named_written host [] e files merged own = cc (sym merge_access_lists-nil ∙ merged)
named_written host (l ∷ []) e files merged (own, _) =
    let same = id-merge_access_lists l e merged in
    subst (λ i. Has (access_path (str i)) files) (sym same) own
named_written host (l ∷ m ∷ lists) e files merged own =
    let long : ltb 1 (length (l ∷ m ∷ lists)) ≡ true = ground arith in
    let file = codes "proxy-host-" ++ str_int host.id in
    rw long (Has-put_self (access_path file) (render_htpasswd e.credentials) files)
