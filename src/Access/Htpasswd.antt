-- ===== src/Access/Htpasswd.antt =====
-- The password file of `render_htpasswd` of src/portwyrm/runtime/nginx_primitives.py, and the credentials that
-- src/portwyrm/tables/access.py accepts. The reader goes by the lines of the file, as Nginx does: it skips
-- a line that begins with `#` or a carriage return, takes the name up to the first colon and the hash up to the
-- next colon, carriage return or end of the line.
use portwyrm.Prelude.{
  ℕ, ◌≡◌, ◌∙◌, refl, sym, ap, arith, Bool, true, false, not, ◌&&◌, ◌||◌, List, [], ◌∷◌, ◌++◌,
  Option, none, some, All, if◌then◌else◌, ◌==◌, nat_eq, is_empty, contains,
}
use mathlib.Core.List.{append_assoc}
use portwyrm.Prelude.Text.{Text}
use portwyrm.Access.Lists.{AccessCredential, render_htpasswd}

-- `RuntimeCredential.validate_credential`
unfoldable pub validate_credential : AccessCredential → Bool
validate_credential c =
    not (is_empty c.username || contains c.username b':' || contains c.username b'\n')
    && not (is_empty c.password_hash || contains c.password_hash b'\n')

-- A character before the first of the lines.
abbrev prepend : ℕ → List Text → List Text
prepend c [] = (c ∷ []) ∷ []
prepend c (line ∷ lines) = (c ∷ line) ∷ lines

-- The lines of a file.
unfoldable pub file_lines : Text → List Text
file_lines [] = []
file_lines (c ∷ t) = let rest = file_lines t in if c == b'\n' then [] ∷ rest else prepend c rest

-- The text before the first of the given characters, and what stands behind it if there is one.
unfoldable pub cut : List ℕ → Text → Text × Option Text
cut stops [] = ([], none)
cut stops (c ∷ t) =
    let rest = cut stops t in if contains stops c then ([], some t) else (c ∷ rest.0, rest.1)

abbrev pub is_comment : Text → Bool
is_comment [] = false
is_comment (c ∷ t) = c == b'#' || c == b'\r'

unfoldable pub read_line : Text → List AccessCredential
unfolding cut
read_line line =
    if is_comment line
    then []
    else (let found = cut (b':' ∷ []) line in
        elim found.1 [
          | none ↦ []
          | some rest ↦
              record { username = found.0; password_hash = (cut (b':' ∷ b'\r' ∷ []) rest).0 } ∷ []
        ])

unfoldable pub read_lines : List Text → List AccessCredential
unfolding read_line
read_lines [] = []
read_lines (line ∷ lines) = read_line line ++ read_lines lines

unfoldable pub read_htpasswd : Text → List AccessCredential
unfolding file_lines read_lines
read_htpasswd file = read_lines (file_lines file)

-- No character is one of these.
abbrev pub IsWithout : List ℕ → Text → Type 0
IsWithout stops t = All (λ c. contains stops c ≡ false) t

-- Beyond what is validated: the name does not look like a comment, and the hash goes on to the end of its line.
abbrev pub IsReadable : AccessCredential → Type 0
IsReadable c = (is_comment c.username ≡ false) × IsWithout (b':' ∷ b'\r' ∷ []) c.password_hash

contains_cons :
    (c : ℕ) (t : Text) (bad : ℕ)
    → contains (c ∷ t) bad ≡ false
    → ((c == bad) ≡ false) × (contains t bad ≡ false)
contains_cons c t bad h = (ground arith, ground arith)

contains-append :
    (s t : Text) (bad : ℕ)
    → contains s bad ≡ false
    → contains t bad ≡ false
    → contains (s ++ t) bad ≡ false
contains-append [] t bad h k = k
contains-append (c ∷ s) t bad h k =
    let (other, later) = contains_cons c s bad h in rw (other, contains-append s t bad later k) refl

lines-append :
    (t rest : Text)
    → contains t b'\n' ≡ false
    → file_lines (t ++ (b'\n' ∷ rest)) ≡ t ∷ file_lines rest
unfolding file_lines
lines-append [] rest h = refl
lines-append (c ∷ t) rest h =
    let (other, later) = contains_cons c t b'\n' h in rw (other, lines-append t rest later) refl

cut-without : (stops : List ℕ) (t : Text) → IsWithout stops t → cut stops t ≡ (t, none)
unfolding cut
cut-without stops [] h = refl
cut-without stops (c ∷ t) h = rw (h.0, cut-without stops t h.1) refl

cut-colon :
    (t rest : Text)
    → contains t b':' ≡ false
    → cut (b':' ∷ []) (t ++ (b':' ∷ rest)) ≡ (t, some rest)
unfolding cut
cut-colon [] rest h = refl
cut-colon (c ∷ t) rest h =
    let (other, later) = contains_cons c t b':' h in ground (arith, cut-colon t rest later)

-- What is validated of a credential.
validated :
    (c : AccessCredential)
    → validate_credential c ≡ true
    → (is_empty c.username ≡ false)
      × (contains c.username b':' ≡ false)
      × (contains c.username b'\n' ≡ false)
      × (contains c.password_hash b'\n' ≡ false)
unfolding validate_credential
validated c h =
    parts (is_empty c.username) (contains c.username b':') (contains c.username b'\n')
      (is_empty c.password_hash) (contains c.password_hash b'\n') h
  where
    parts :
        (a b d e f : Bool)
        → (not (a || b || d) && not (e || f)) ≡ true
        → (a ≡ false) × (b ≡ false) × (d ≡ false) × (f ≡ false)
    parts a b d e f h = (ground arith, ground arith, ground arith, ground arith)

comment-append :
    (t rest : Text) → is_empty t ≡ false → is_comment t ≡ false → is_comment (t ++ rest) ≡ false
comment-append [] rest h k = cc h
comment-append (c ∷ t) rest h k = k

read_line-credential :
    (c : AccessCredential)
    → validate_credential c ≡ true
    → IsReadable c
    → read_line (c.username ++ (b':' ∷ c.password_hash)) ≡ c ∷ []
unfolding read_line
read_line-credential c valid readable =
    let (some_name, no_colon, _, _) = validated c valid in
    let no_comment = comment-append c.username (b':' ∷ c.password_hash) some_name readable.0 in
    rw
      (
        no_comment,
        cut-colon c.username c.password_hash no_colon,
        cut-without (b':' ∷ b'\r' ∷ []) c.password_hash readable.1,
        read_line,
      )
      (ap named (cut-colon c.username c.password_hash no_colon))
  where
    named : Text × Option Text → List AccessCredential
    named found = record { username = found.0; password_hash = c.password_hash } ∷ []

-- Nginx reads from a rendered password file the users and their hashes, each once and in their order, if
-- each credential is one that the table validates, no name begins with `#` or a carriage return, and
-- no hash has a colon or a carriage return.
pub read_htpasswd-render_htpasswd :
    (credentials : List AccessCredential)
    → All (λ c. validate_credential c ≡ true) credentials
    → All IsReadable credentials
    → read_htpasswd (render_htpasswd credentials) ≡ credentials
unfolding read_htpasswd render_htpasswd file_lines
read_htpasswd-render_htpasswd [] valid readable = refl
read_htpasswd-render_htpasswd (c ∷ credentials) valid readable =
    let (_, _, no_break, no_break_in_hash) = validated c valid.0 in
    let rest = render_htpasswd credentials in
    let line = c.username ++ (b':' ∷ c.password_hash) in
    let one_line : contains line b'\n' ≡ false =
      contains-append c.username (b':' ∷ c.password_hash) b'\n' no_break no_break_in_hash in
    let split : file_lines (render_htpasswd (c ∷ credentials)) ≡ line ∷ file_lines rest =
      ap file_lines (sym (append_assoc c.username (b':' ∷ c.password_hash) (b'\n' ∷ rest)))
      ∙ lines-append line rest one_line in
    rw split (
      rw (read_line-credential c valid.0 readable.0)
        (ap (c ∷◌) (read_htpasswd-render_htpasswd credentials valid.1 readable.1)))
