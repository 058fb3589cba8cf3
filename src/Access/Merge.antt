-- ===== src/Access/Merge.antt =====
-- What `merge_access_lists` of src/portwyrm/runtime/nginx_primitives.py keeps.
use portwyrm.Prelude.{
  ◌≡◌, ◌∙◌, refl, arith, Bool, true, ◌&&◌, ◌||◌, List, [], ◌∷◌, map, none, some, Eq, ◌==◌, all, any,
  Option-cases, Bool-cases, inl, inr,
}
use portwyrm.Prelude.Result.{ok, >>=-eq-ok}
use portwyrm.Prelude.Dict
use portwyrm.Prelude.Dict.{Dict}
use portwyrm.Prelude.Text.{Text, text_eq, text_pair_eq, text_leb}
use portwyrm.Access.Lists.{
  AccessCredential, AccessClient, AccessList, insert_list, sort_lists, insert_entry, sort_entries,
  pair_leb, add_credentials, client_key, add_clients, collect_lists, merge_ordered,
  merge_access_lists,
}

-- An update that changes no value that the test sees, or adds a value.
module _ {K V : Type 0} ⦃e : Eq K⦄ (test : V → Bool) where
  holds : Dict K V → Bool
  holds d = any (λ entry. test entry.1) d

  holds-get :
      (d : Dict K V) (k : K) (w : V) → Dict.get d k ≡ some w → test w ≡ true → holds d ≡ true
  unfolding Dict.get holds
  holds-get [] k w h t = cc
  holds-get ((j, v) ∷ d) k w h t = ground (arith, holds-get d k w)

  holds-put_new :
      (d : Dict K V) (k : K) (v : V)
      → Dict.get d k ≡ none
      → holds (Dict.put d k v) ≡ (holds d || test v)
  unfolding Dict.get Dict.put holds
  holds-put_new [] k v h = ground arith
  holds-put_new ((j, w) ∷ d) k v h = ground (arith, holds-put_new d k v)

  holds-put_same :
      (d : Dict K V) (k : K) (v w : V)
      → Dict.get d k ≡ some w
      → test w ≡ test v
      → holds (Dict.put d k v) ≡ holds d
  unfolding Dict.get Dict.put holds
  holds-put_same [] k v w h same = cc
  holds-put_same ((j, x) ∷ d) k v w h same = ground (arith, holds-put_same d k v w)

  holds-put :
      (d : Dict K V) (k : K) (v : V)
      → ((w : V) → Dict.get d k ≡ some w → test w ≡ test v)
      → holds (Dict.put d k v) ≡ (holds d || test v)
  holds-put d k v same = elim (Option-cases (Dict.get d k)) [
    | inl new ↦ holds-put_new d k v new
    | inr (w, there) ↦
        let kept = holds-put_same d k v w there (same w there) in
        ground (arith, holds-get d k w, same w there)
  ]

  holds-insert_entry :
      (before : K → K → Bool) (entry : K × V) (d : Dict K V)
      → holds (insert_entry before entry d) ≡ (test entry.1 || holds d)
  unfolding insert_entry holds
  holds-insert_entry before entry [] = refl
  holds-insert_entry before entry (f ∷ d) = ground (arith, holds-insert_entry before entry d)

  holds-sort_entries :
      (before : K → K → Bool) (d : Dict K V) → holds (sort_entries before d) ≡ holds d
  unfolding sort_entries holds
  holds-sort_entries before [] = refl
  holds-sort_entries before (entry ∷ d) =
      ground (
        arith,
        holds-sort_entries before d,
        holds-insert_entry before entry (sort_entries before d),
      )

  any-map_value : (d : Dict K V) → any test (map (λ entry. entry.1) d) ≡ holds d
  unfolding holds
  any-map_value [] = refl
  any-map_value (entry ∷ d) = ground (arith, any-map_value d)

-- The list has the user with this hash, and the rule.
abbrev pub has_credential : Text → Text → AccessCredential → Bool
has_credential username hash c = c.username == username && c.password_hash == hash

abbrev pub has_client : Text × Text → AccessClient → Bool
has_client key c = client_key c == key

-- Every entry stands at its own user.
abbrev Keyed : Dict Text AccessCredential → Type 0
Keyed known = (u : Text) (c : AccessCredential) → Dict.get known u ≡ some c → c.username ≡ u

add_credentials_lem :
    (known out : Dict Text AccessCredential) (credentials : List AccessCredential) (u h : Text)
    → Keyed known
    → add_credentials known credentials ≡ ok out
    → Keyed out
      × (holds (has_credential u h) out
          ≡ (holds (has_credential u h) known || any (has_credential u h) credentials))
unfolding add_credentials
add_credentials_lem known out [] u h keyed e = ground arith
add_credentials_lem known out (c ∷ credentials) u h keyed e =
    elim (Option-cases (Dict.get known c.username)) [
      | inl new ↦
          let later =
            add_credentials_lem (Dict.put known c.username c) out credentials u h
              (put_keyed known c keyed) (rw new at e) in
          ground (arith, later, holds-put_new (has_credential u h) known c.username c new)
      | inr (existing, there) ↦ elim (Bool-cases (existing.password_hash == c.password_hash)) [
        | inr conflict ↦ cc (rw (there, conflict) at e)
        | inl same ↦
            let later =
              add_credentials_lem (Dict.put known c.username c) out credentials u h
                (put_keyed known c keyed) (rw (there, same) at e) in
            let put = holds-put (has_credential u h) known c.username c (λ w found. ground (
              arith,
              keyed c.username w found,
              text_eq.beq_iff existing.password_hash c.password_hash,
            )) in
            ground (arith, later, put)
      ]
    ]
  where
    put_keyed :
        (known : Dict Text AccessCredential) (c : AccessCredential)
        → Keyed known
        → Keyed (Dict.put known c.username c)
    put_keyed known c keyed u d found =
        ground (arith, Dict.get-put known c.username u c, keyed u d, text_eq.beq_iff c.username u)

add_clients_lem :
    (known : Dict (Text × Text) AccessClient) (clients : List AccessClient) (key : Text × Text)
    → ((k : Text × Text) (c : AccessClient) → Dict.get known k ≡ some c → client_key c ≡ k)
    → ((k : Text × Text) (c : AccessClient)
        → Dict.get (add_clients known clients) k ≡ some c
        → client_key c ≡ k)
      × (holds (has_client key) (add_clients known clients)
          ≡ (holds (has_client key) known || any (has_client key) clients))
unfolding add_clients
add_clients_lem known [] key keyed = (keyed, ground arith)
add_clients_lem known (c ∷ clients) key keyed =
    let put =
      holds-put (has_client key) known (client_key c) c
        (λ w found. rw (keyed (client_key c) w found)) in
    let later = add_clients_lem (Dict.put known (client_key c) c) clients key (λ k d found. ground (
      arith,
      Dict.get-put known (client_key c) k c,
      keyed k d,
      text_pair_eq.beq_iff (client_key c) k,
    )) in
    (later.0, ground (arith, later.1, put))

-- Some list has the user with this hash, or the rule.
abbrev pub any_credential : List AccessList → Text → Text → Bool
any_credential lists username hash =
    any (λ l. any (has_credential username hash) l.credentials) lists

abbrev pub any_client : List AccessList → Text × Text → Bool
any_client lists key = any (λ l. any (has_client key) l.clients) lists

collect_lists_lem :
    (credentials : Dict Text AccessCredential) (clients : Dict (Text × Text) AccessClient)
    (lists : List AccessList) (out : Dict Text AccessCredential × Dict (Text × Text) AccessClient)
    (u h : Text) (key : Text × Text)
    → Keyed credentials
    → ((k : Text × Text) (c : AccessClient) → Dict.get clients k ≡ some c → client_key c ≡ k)
    → collect_lists credentials clients lists ≡ ok out
    → (holds (has_credential u h) out.0
        ≡ (holds (has_credential u h) credentials || any_credential lists u h))
      × (holds (has_client key) out.1 ≡ (holds (has_client key) clients || any_client lists key))
unfolding collect_lists
collect_lists_lem credentials clients [] out u h key keyed ordered e = ground arith
collect_lists_lem credentials clients (l ∷ lists) out u h key keyed ordered e =
    let (known, added, rest) = >>=-eq-ok (add_credentials credentials l.credentials) _ e in
    let (keyed', have) = add_credentials_lem credentials known l.credentials u h keyed added in
    let (ordered', rules) = add_clients_lem clients l.clients key ordered in
    let later =
      collect_lists_lem known (add_clients clients l.clients) lists out u h key keyed' ordered'
        rest in
    ground (arith, later, have, rules)

-- Sorting the lists changes no test over them.
module _ (test : AccessList → Bool) where
  any-insert_list :
      (l : AccessList) (lists : List AccessList)
      → any test (insert_list l lists) ≡ (test l || any test lists)
  unfolding insert_list
  any-insert_list l [] = refl
  any-insert_list l (m ∷ lists) = ground (arith, any-insert_list l lists)

  any-sort_lists : (lists : List AccessList) → any test (sort_lists lists) ≡ any test lists
  unfolding sort_lists
  any-sort_lists [] = refl
  any-sort_lists (l ∷ lists) =
      ground (arith, any-sort_lists lists, any-insert_list l (sort_lists lists))

  all-insert_list :
      (l : AccessList) (lists : List AccessList)
      → all test (insert_list l lists) ≡ (test l && all test lists)
  unfolding insert_list
  all-insert_list l [] = refl
  all-insert_list l (m ∷ lists) = ground (arith, all-insert_list l lists)

  all-sort_lists : (lists : List AccessList) → all test (sort_lists lists) ≡ all test lists
  unfolding sort_lists
  all-sort_lists [] = refl
  all-sort_lists (l ∷ lists) =
      ground (arith, all-sort_lists lists, all-insert_list l (sort_lists lists))

merge_ordered_lem :
    (lists : List AccessList) (m : AccessList) (u h : Text) (key : Text × Text)
    → merge_ordered lists ≡ ok (some m)
    → (any (has_credential u h) m.credentials ≡ any_credential lists u h)
      × (any (has_client key) m.clients ≡ any_client lists key)
      × (m.satisfy_any ≡ all (λ l. l.satisfy_any) lists)
      × (m.pass_auth ≡ all (λ l. l.pass_auth) lists)
unfolding merge_ordered Dict.get holds
merge_ordered_lem [] m u h key e = cc
merge_ordered_lem (first ∷ lists) m u h key e =
    let (found, collected, made) = >>=-eq-ok (collect_lists [] [] (first ∷ lists)) _ e in
    let (have, rules) =
      collect_lists_lem [] [] (first ∷ lists) found u h key (λ k c absent. cc) (λ k c absent. cc)
        collected in
    let users = sort_entries text_leb found.0 in
    let addresses = sort_entries pair_leb found.1 in
    ground (
      arith,
      have,
      rules,
      any-map_value (has_credential u h) users,
      holds-sort_entries (has_credential u h) text_leb found.0,
      any-map_value (has_client key) addresses,
      holds-sort_entries (has_client key) pair_leb found.1,
    )

-- If lists are merged, the result has exactly the users with their hashes and exactly the rules that
-- the lists have, it lets an address or a password suffice only if every list does, and passes
-- the password on only if every list does.
pub merge_access_lists_exact :
    (lists : List AccessList) (merged : AccessList) (username hash : Text) (key : Text × Text)
    → merge_access_lists lists ≡ ok (some merged)
    → (any (has_credential username hash) merged.credentials ≡ any_credential lists username hash)
      × (any (has_client key) merged.clients ≡ any_client lists key)
      × (merged.satisfy_any ≡ all (λ l. l.satisfy_any) lists)
      × (merged.pass_auth ≡ all (λ l. l.pass_auth) lists)
unfolding merge_access_lists
merge_access_lists_exact lists merged username hash key e =
    let (have, rules, any_lem, auth) =
      merge_ordered_lem (sort_lists lists) merged username hash key e in
    (
      have ∙ any-sort_lists (λ l. any (has_credential username hash) l.credentials) lists,
      rules ∙ any-sort_lists (λ l. any (has_client key) l.clients) lists,
      any_lem ∙ all-sort_lists (λ l. l.satisfy_any) lists,
      auth ∙ all-sort_lists (λ l. l.pass_auth) lists,
    )
