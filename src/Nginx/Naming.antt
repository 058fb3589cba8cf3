-- ===== src/Nginx/Naming.antt =====
-- The password files that the lines of an access list name, in `access_lines` of
-- src/portwyrm/runtime/nginx_primitives.py.
use portwyrm.Prelude.{
  ℕ, ◌≡◌, refl, sym, ap, subst, Bool, true, false, not, ◌||◌, List, [], ◌∷◌, ◌++◌, Option, some,
  map, if◌then◌else◌, All, All-append, Bool-cases, inl, inr, is_empty, string_eq, drop,
}
use portwyrm.Prelude.Int.{int_eq}
use portwyrm.Prelude.Text.{Text, text_eq, codes}
use portwyrm.Access.Lists.{AccessList, AccessClient, allow, deny, directive_name}
use portwyrm.Nginx.Lines.{starts_with}
use portwyrm.Nginx.Primitives.{password_path, access_lines, client_line, when}

-- A text without its last character.
unfoldable pub but_last : Text → Text
but_last [] = []
but_last (c ∷ []) = []
but_last (c ∷ d ∷ t) = c ∷ but_last (d ∷ t)

abbrev pub file_directive : Text
file_directive = codes "auth_basic_user_file /data/access/"

-- The names of the password files in lines: what stands between the directive and the last semicolon.
unfoldable pub password_files : List Text → List Text
unfolding starts_with but_last
password_files [] = []
password_files (line ∷ lines) =
    let rest = password_files lines in
    if starts_with file_directive line then but_last (drop 34 line) ∷ rest else rest

but_last-append : (t : Text) (c : ℕ) → but_last (t ++ c ∷ []) ≡ t
unfolding but_last
but_last-append [] c = refl
but_last-append (d ∷ []) c = refl
but_last-append (d ∷ e ∷ t) c = ap (d ∷◌) (but_last-append (e ∷ t) c)

password_files-append :
    (xs ys : List Text) → password_files (xs ++ ys) ≡ password_files xs ++ password_files ys
unfolding password_files
password_files-append [] ys = refl
password_files-append (x ∷ xs) ys =
    let rest = password_files-append xs ys in
    elim (Bool-cases (starts_with file_directive x)) [
      | inl names ↦ rw names (ap (but_last (drop 34 x) ∷◌) rest)
      | inr other ↦ rw other rest
    ]

client_line_other : (c : AccessClient) → starts_with file_directive (client_line c) ≡ false
unfolding client_line directive_name starts_with
client_line_other c =
    elim c.directive
      as (λ d.
        starts_with file_directive (directive_name d ++ codes " " ++ c.address ++ codes ";")
        ≡ false) [ allow ↦ refl | deny ↦ refl ]

module _ (P : Text → Type 0) where
  All-append_files :
      (xs ys : List Text)
      → All P (password_files xs)
      → All P (password_files ys)
      → All P (password_files (xs ++ ys))
  All-append_files xs ys of_xs of_ys =
      rw (password_files-append xs ys)
        (All-append P (password_files xs) (password_files ys) of_xs of_ys)

  All-clients : (clients : List AccessClient) → All P (password_files (map client_line clients))
  unfolding password_files
  All-clients [] = tt
  All-clients (c ∷ clients) = rw (client_line_other c) (All-clients clients)

  All-deny :
      (has_clients : Bool) (clients : List AccessClient)
      → All P
          (password_files (when has_clients (map client_line clients ++ codes "deny all;" ∷ [])))
  unfolding password_files starts_with
  All-deny false clients = tt
  All-deny true clients =
      All-append_files (map client_line clients) (codes "deny all;" ∷ []) (All-clients clients) tt

  All-satisfy :
      (limited every : Bool)
      → All P (
          password_files
            (when limited ((if every then codes "satisfy any;" else codes "satisfy all;") ∷ [])))
  unfolding password_files starts_with
  All-satisfy false every = tt
  All-satisfy true false = tt
  All-satisfy true true = tt

  All-credentials :
      (has_credentials resets : Bool) (name : Text)
      → P name
      → All P (
          password_files (
            when has_credentials (
              codes "auth_basic \"Authorization required\";"
              ∷ (codes "auth_basic_user_file /data/access/" ++ name ++ codes ";")
              ∷ when resets (codes "proxy_set_header Authorization \"\";" ∷ []))))
  unfolding password_files starts_with
  All-credentials false resets name own = tt
  All-credentials true true name own = (subst P (sym (but_last-append name 59)) own, tt)
  All-credentials true false name own = (subst P (sym (but_last-append name 59)) own, tt)

  -- The lines of an access list name its password file, or none.
  pub All-access_lines :
      (l : AccessList) (file : Option Text)
      → P (password_path file l)
      → All P (password_files (access_lines (some l) file))
  unfolding access_lines
  All-access_lines l file own =
      let has_credentials = not (is_empty l.credentials) in
      let has_clients = not (is_empty l.clients) in
      All-append_files _ _
        (All-append_files _ _
          (All-credentials has_credentials (not l.pass_auth) (password_path file l) own)
          (All-deny has_clients l.clients))
        (All-satisfy (has_credentials || has_clients) l.satisfy_any)
