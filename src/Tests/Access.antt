-- ===== src/Tests/Access.antt =====
-- src/portwyrm/runtime/nginx_primitives.py at concrete inputs.
use portwyrm.Prelude.{◌≡◌, refl, true, false, [], ◌∷◌, any, arith}
use portwyrm.Prelude.Dict
use portwyrm.Prelude.Text.{text_eq, text_pair_eq, codes}
use portwyrm.Access.Lists.{
  AccessCredential, AccessClient, allow, AccessList, merge_access_lists, render_htpasswd,
}
use portwyrm.Access.Merge.{
  has_credential, has_client, any_credential, any_client, merge_access_lists_exact,
}
use portwyrm.Access.Htpasswd.{validate_credential, read_htpasswd, read_htpasswd-render_htpasswd}

abbrev ann : AccessCredential
ann = record { username = codes "ann"; password_hash = codes "$2b$x" }

abbrev office : AccessClient
office = record { address = codes "10.0.0.0/8"; directive = allow }

abbrev first_list : AccessList
first_list = record {
  id = 1;
  name = codes "A";
  credentials = ann ∷ [];
  clients = [];
  satisfy_any = true;
  pass_auth = false;
}

abbrev second_list : AccessList
second_list = record {
  id = 2;
  name = codes "B";
  credentials = ann ∷ [];
  clients = office ∷ [];
  satisfy_any = false;
  pass_auth = false;
}

abbrev merged_list : AccessList
merged_list = record {
  id = 1;
  name = codes "A + B";
  credentials = ann ∷ [];
  clients = office ∷ [];
  satisfy_any = false;
  pass_auth = false;
}

merge_access_lists_exact_example :
    (any (has_credential (codes "ann") (codes "$2b$x")) merged_list.credentials
      ≡ any_credential (second_list ∷ first_list ∷ []) (codes "ann") (codes "$2b$x"))
    × (any (has_client (codes "allow", codes "10.0.0.0/8")) merged_list.clients
        ≡ any_client (second_list ∷ first_list ∷ []) (codes "allow", codes "10.0.0.0/8"))
    × (false ≡ false)
    × (false ≡ false)
unfolding merge_access_lists Dict.get Dict.put text_eq
merge_access_lists_exact_example =
    merge_access_lists_exact (second_list ∷ first_list ∷ []) merged_list (codes "ann")
      (codes "$2b$x") (codes "allow", codes "10.0.0.0/8") refl

abbrev bob : AccessCredential
bob = record { username = codes "bob"; password_hash = codes "$2b$y" }

read_htpasswd-render_htpasswd_example :
    read_htpasswd (render_htpasswd (ann ∷ bob ∷ [])) ≡ ann ∷ bob ∷ []
unfolding validate_credential
read_htpasswd-render_htpasswd_example =
    read_htpasswd-render_htpasswd (ann ∷ bob ∷ []) (refl, (refl, tt))
      (ground arith, (ground arith, tt))

-- A name that is validated, and that is read as a comment.
test_comment :
    (validate_credential (record { username = codes "#ann"; password_hash = codes "x" }) ≡ true)
    × (read_htpasswd (codes "#ann:x\nbob:y\n")
        ≡ record { username = codes "bob"; password_hash = codes "y" } ∷ [])
unfolding validate_credential read_htpasswd
test_comment = (refl, refl)

test_line_break :
    validate_credential (record { username = codes "#ann\nbob"; password_hash = codes "x" }) ≡ false
unfolding validate_credential
test_line_break = refl
