-- ===== src/Access/Lists.antt =====
-- `merge_access_lists` and `render_htpasswd` of src/portwyrm/runtime/nginx_primitives.py, and the
-- access lists of src/portwyrm/tables/access.py that they take.
use portwyrm.Prelude.{
  ℕ, Bool, false, not, List, [], ◌∷◌, ◌++◌, map, Option, none, some, if◌then◌else◌, ◌==◌, all, leb,
}
use portwyrm.Prelude.Result.{Result, ok, err, ◌>>=◌}
use portwyrm.Prelude.Dict
use portwyrm.Prelude.Dict.{Dict}
use portwyrm.Prelude.Text.{Text, text_eq, text_pair_eq, codes, text_leb}

pub data Directive : Type 0 where
  allow deny : Directive

unfoldable pub directive_name : Directive → Text
directive_name allow = codes "allow"
directive_name deny = codes "deny"

pub record AccessCredential : Type 0 where
  pub username : Text
  pub password_hash : Text

pub record AccessClient : Type 0 where
  pub address : Text
  pub directive : Directive

-- `meta` is the empty dict in what is merged, and is not read.
pub record AccessList : Type 0 where
  pub id : ℕ
  pub name : Text
  pub credentials : List AccessCredential
  pub clients : List AccessClient
  pub satisfy_any : Bool
  pub pass_auth : Bool

-- The `ValueError` names the user.
pub data MergeError : Type 0 where
  conflicting : Text → MergeError

-- `sorted(access_lists, key=lambda item: item.id)`
unfoldable pub insert_list : AccessList → List AccessList → List AccessList
insert_list l [] = l ∷ []
insert_list l (m ∷ lists) = if leb l.id m.id then l ∷ m ∷ lists else m ∷ insert_list l lists

unfoldable pub sort_lists : List AccessList → List AccessList
unfolding insert_list
sort_lists [] = []
sort_lists (l ∷ lists) = insert_list l (sort_lists lists)

-- The values of a dict in the order of its keys.
module _ {K V : Type 0} (before : K → K → Bool) where
  unfoldable pub insert_entry : K × V → Dict K V → Dict K V
  insert_entry e [] = e ∷ []
  insert_entry e (f ∷ d) = if before e.0 f.0 then e ∷ f ∷ d else f ∷ insert_entry e d

  unfoldable pub sort_entries : Dict K V → Dict K V
  unfolding insert_entry
  sort_entries [] = []
  sort_entries (e ∷ d) = insert_entry e (sort_entries d)

-- The order of pairs of texts.
unfoldable pub pair_leb : Text × Text → Text × Text → Bool
pair_leb (a, b) (c, d) = if a == c then text_leb b d else text_leb a c

unfoldable pub add_credentials :
    Dict Text AccessCredential
    → List AccessCredential
    → Result MergeError (Dict Text AccessCredential)
add_credentials known [] = ok known
add_credentials known (c ∷ credentials) =
    let conflict : Bool = elim (Dict.get known c.username) [
      | none ↦ false
      | some existing ↦ not (existing.password_hash == c.password_hash)
    ] in
    let rest = add_credentials (Dict.put known c.username c) credentials in
    if conflict then err (conflicting c.username) else rest

unfoldable pub client_key : AccessClient → Text × Text
unfolding directive_name
client_key c = (directive_name c.directive, c.address)

unfoldable pub add_clients :
    Dict (Text × Text) AccessClient → List AccessClient → Dict (Text × Text) AccessClient
unfolding client_key
add_clients known [] = known
add_clients known (c ∷ clients) = add_clients (Dict.put known (client_key c) c) clients

-- The loop over the lists.
unfoldable pub collect_lists :
    Dict Text AccessCredential
    → Dict (Text × Text) AccessClient
    → List AccessList
    → Result MergeError (Dict Text AccessCredential × Dict (Text × Text) AccessClient)
unfolding add_credentials add_clients
collect_lists credentials clients [] = ok (credentials, clients)
collect_lists credentials clients (l ∷ lists) =
    add_credentials credentials l.credentials >>= λ known.
    collect_lists known (add_clients clients l.clients) lists

-- `" + ".join(names)`
unfoldable pub join_names : List AccessList → Text
join_names [] = []
join_names (l ∷ []) = l.name
join_names (l ∷ m ∷ lists) = l.name ++ (codes " + " ++ join_names (m ∷ lists))

unfoldable pub merge_ordered : List AccessList → Result MergeError (Option AccessList)
unfolding sort_entries collect_lists join_names pair_leb
merge_ordered [] = ok none
merge_ordered (first ∷ lists) = collect_lists [] [] (first ∷ lists) >>= λ found. ok (
    some (record {
      id = first.id;
      name = join_names (first ∷ lists);
      credentials = map (λ e. e.1) (sort_entries text_leb found.0);
      clients = map (λ e. e.1) (sort_entries pair_leb found.1);
      satisfy_any = all (λ l. l.satisfy_any) (first ∷ lists);
      pass_auth = all (λ l. l.pass_auth) (first ∷ lists);
    }))

unfoldable pub merge_access_lists : List AccessList → Result MergeError (Option AccessList)
unfolding sort_lists merge_ordered
merge_access_lists lists = merge_ordered (sort_lists lists)

unfoldable pub render_htpasswd : List AccessCredential → Text
render_htpasswd [] = []
render_htpasswd (c ∷ credentials) =
    c.username ++ (b':' ∷ (c.password_hash ++ (b'\n' ∷ render_htpasswd credentials)))
