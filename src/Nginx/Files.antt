-- ===== src/Nginx/Files.antt =====
-- What each step of `NginxRenderer.render` of src/portwyrm/runtime/nginx.py keeps among the files, and what holds of
-- sorted and selected items.
use portwyrm.Prelude.{
  ◌≡◌, subst, arith, Bool, true, List, [], ◌∷◌, Option, none, some, ◌==◌, All, Bool-cases,
  Option-cases, inl, inr, leb, string_eq, contains,
}
use portwyrm.Prelude.Decimal.{str}
use portwyrm.Prelude.Dict
use portwyrm.Prelude.Dict.{Dict}
use portwyrm.Prelude.Int.{ℤ, pos, int_eq}
use portwyrm.Prelude.Result.{Result, ok, >>=-eq-ok}
use portwyrm.Prelude.Text.{Text, text_eq}
use portwyrm.Access.Lists.{AccessList, sort_lists, insert_list}
use portwyrm.Routing.Hosts.{Host, Stream, HostError}
use portwyrm.Nginx.Render.{
  Files, of_host, int_leb, insert_by, sort_by, access_by_id, selected, access_path, add_passwords,
  add_hosts, add_streams, add_access, add_customs, custom_include_names,
}

-- The file is there.
abbrev pub Has : Text → Files → Type 0
Has name files = Dict.has files name ≡ true

pub Has-put :
    (name key : Text) (value : Text) (files : Files)
    → Has name files
    → Has name (Dict.put files key value)
Has-put name key value files there = rw Dict.get-put (ground (arith, text_eq.beq_iff key name))

pub Has-put_self : (key : Text) (value : Text) (files : Files) → Has key (Dict.put files key value)
Has-put_self key value files = rw Dict.get-put (ground (arith, text_eq.beq_iff key key))

module _ (name : Text) where
  pub Has-add_access :
      (lists : List AccessList) (files : Files) → Has name files → Has name (add_access lists files)
  unfolding add_access
  Has-add_access [] files there = there
  Has-add_access (l ∷ lists) files there =
      Has-add_access lists _ (Has-put name (access_path (str l.id)) _ files there)

  pub Has-add_streams :
      (ipv6 : Bool) (streams : List Stream) (files : Files)
      → Has name files
      → Has name (add_streams ipv6 streams files)
  unfolding add_streams
  Has-add_streams ipv6 [] files there = there
  Has-add_streams ipv6 (s ∷ streams) files there =
      Has-add_streams ipv6 streams _ (Has-put name _ _ files there)

  pub Has-add_hosts :
      (render_one : Host → Result HostError Text) (family : Text) (hosts : List Host)
      (files after : Files)
      → add_hosts render_one family hosts files ≡ ok after
      → Has name files
      → Has name after
  unfolding add_hosts
  Has-add_hosts render_one family [] files after h there =
      let e : files ≡ after = cc h in rw⁻¹ e there
  Has-add_hosts render_one family (x ∷ hosts) files after h there =
      let (text, _, rest) = >>=-eq-ok (of_host (render_one x)) _ h in
      Has-add_hosts render_one family hosts _ after rest (Has-put name _ _ files there)

  pub Has-add_customs :
      (customs : Dict Text Text) (files after : Files)
      → add_customs customs files ≡ ok after
      → Has name files
      → Has name after
  unfolding add_customs
  Has-add_customs [] files after h there = let e : files ≡ after = cc h in rw⁻¹ e there
  Has-add_customs ((key, contents) ∷ customs) files after h there =
      elim (Bool-cases (contains custom_include_names key)) [
        | inr unknown ↦ cc (rw unknown at h)
        | inl known ↦ Has-add_customs customs _ after (rw known at h) (Has-put name _ _ files there)
      ]

  pub Has-add_passwords :
      (file : Option Text) (effective : Option AccessList) (files : Files)
      → Has name files
      → Has name (add_passwords file effective files)
  unfolding add_passwords
  Has-add_passwords none effective files there = there
  Has-add_passwords (some f) none files there = there
  Has-add_passwords (some f) (some l) files there = Has-put name (access_path f) _ files there

pub All-insert_by :
    {A : Type 0} (key : A → ℤ) (P : A → Type 0) (a : A) (xs : List A)
    → All P (insert_by key a xs)
    → P a × All P xs
unfolding insert_by
All-insert_by key P a [] h = h
All-insert_by key P a (x ∷ xs) h = elim (Bool-cases (int_leb (key a) (key x))) [
  | inl before ↦ rw before at h
  | inr behind ↦
      let (first, rest) = rw behind at h in
      let (of_a, others) = All-insert_by key P a xs rest in (of_a, (first, others))
]

pub All-sort_by :
    {A : Type 0} (key : A → ℤ) (P : A → Type 0) (xs : List A) → All P (sort_by key xs) → All P xs
unfolding sort_by
All-sort_by key P [] h = tt
All-sort_by key P (x ∷ xs) h =
    let (first, rest) = All-insert_by key P x (sort_by key xs) h in
    (first, All-sort_by key P xs rest)

All-to_insert_by :
    {A : Type 0} (key : A → ℤ) (P : A → Type 0) (a : A) (xs : List A)
    → P a
    → All P xs
    → All P (insert_by key a xs)
unfolding insert_by
All-to_insert_by key P a [] of_a h = (of_a, tt)
All-to_insert_by key P a (x ∷ xs) of_a (first, rest) = elim (Bool-cases (int_leb (key a) (key x))) [
  | inl before ↦ rw before (of_a, (first, rest))
  | inr behind ↦ rw behind (first, All-to_insert_by key P a xs of_a rest)
]

pub All-to_sort_by :
    {A : Type 0} (key : A → ℤ) (P : A → Type 0) (xs : List A) → All P xs → All P (sort_by key xs)
unfolding sort_by
All-to_sort_by key P [] h = tt
All-to_sort_by key P (x ∷ xs) (first, rest) =
    All-to_insert_by key P x (sort_by key xs) first (All-to_sort_by key P xs rest)

pub All-insert_list :
    (P : AccessList → Type 0) (l : AccessList) (lists : List AccessList)
    → All P (insert_list l lists)
    → P l × All P lists
unfolding insert_list
All-insert_list P l [] h = h
All-insert_list P l (m ∷ lists) h = elim (Bool-cases (leb l.id m.id)) [
  | inl before ↦ rw before at h
  | inr behind ↦
      let (first, rest) = rw behind at h in
      let (of_l, others) = All-insert_list P l lists rest in (of_l, (first, others))
]

pub All-sort_lists :
    (P : AccessList → Type 0) (lists : List AccessList) → All P (sort_lists lists) → All P lists
unfolding sort_lists
All-sort_lists P [] h = tt
All-sort_lists P (l ∷ lists) h =
    let (first, rest) = All-insert_list P l (sort_lists lists) h in
    (first, All-sort_lists P lists rest)

pub All-access_by_id :
    (P : AccessList → Type 0) (lists : List AccessList) (i : ℤ) (l : AccessList)
    → All P lists
    → access_by_id lists i ≡ some l
    → P l
unfolding access_by_id
All-access_by_id P [] i l h found = cc found
All-access_by_id P (m ∷ lists) i l (first, rest) found =
    elim (Option-cases (access_by_id lists i)) [
      | inr (k, later) ↦
          let e : k ≡ l = cc (rw later at found) in
          subst P e (All-access_by_id P lists i k rest later)
      | inl last ↦ elim (Bool-cases (pos m.id == i)) [
        | inl same ↦ let e : m ≡ l = cc (rw (last, same) at found) in subst P e first
        | inr other ↦ cc (rw (last, other) at found)
      ]
    ]

pub All-selected :
    (P : AccessList → Type 0) (lists : List AccessList) (ids : List ℤ)
    → All P lists
    → All P (selected lists ids)
unfolding selected
All-selected P lists [] h = tt
All-selected P lists (i ∷ ids) h = elim (Option-cases (access_by_id lists i)) [
  | inl absent ↦ rw (absent, selected) (All-selected P lists ids h)
  | inr (l, there) ↦
      rw (there, selected) (All-access_by_id P lists i l h there, All-selected P lists ids h)
]
