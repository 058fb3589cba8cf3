-- ===== src/Routing/Domains/Canonical.antt =====
-- What `canonical_domains` of src/portwyrm/tables/routing.py accepts and returns.
use portwyrm.Prelude.{
  ◌≤◌, ◌≡◌, ◌∙◌, ◌↔◌, refl, sym, ap, subst, arith, true, false, ◌&&◌, ◌||◌, List, [], ◌∷◌, ◌++◌,
  Option, none, some, if◌then◌else◌, nat_eq, leb, length, contains, map, All, Bool-cases, inl, inr,
}
use mathlib.Core.List.{append-nil, append_assoc}
use portwyrm.Prelude.Result.{ok, err, >>=-eq-ok}
use portwyrm.Prelude.Text.{Text, text_eq}
use portwyrm.Routing.Domains.{
  not_between_1_and_100, domain_matches, fold_domain, collect_domains, canonical_domains,
}

-- No text stands in the list twice.
abbrev pub IsNodup : List Text → Type 0
IsNodup [] = Unit
IsNodup (d ∷ ds) = (contains ds d ≡ false) × IsNodup ds

contains-append :
    (xs ys : List Text) (d : Text) → contains (xs ++ ys) d ≡ (contains xs d || contains ys d)
contains-append [] ys d = refl
contains-append (x ∷ xs) ys d = ground (arith, contains-append xs ys d)

-- The element between two parts is in neither of them.
IsNodup-middle :
    (xs : List Text) (d : Text) (ys : List Text) → IsNodup (xs ++ d ∷ ys) → contains xs d ≡ false
IsNodup-middle [] d ys h = refl
IsNodup-middle (x ∷ xs) d ys h = ground (
  arith,
  IsNodup-middle xs d ys h.1,
  h.0,
  contains-append xs (d ∷ ys) x,
  text_eq.beq_iff x d,
  text_eq.beq_iff d x,
)

IsNodup-snoc :
    (xs : List Text) (d : Text) → IsNodup xs → contains xs d ≡ false → IsNodup (xs ++ d ∷ [])
IsNodup-snoc [] d n h = (refl, tt)
IsNodup-snoc (x ∷ xs) d n h = (
  ground (arith, n.0, contains-append xs (d ∷ []) x, text_eq.beq_iff x d, text_eq.beq_iff d x),
  IsNodup-snoc xs d n.1 (ground arith),
)

abbrev pub AllMatch : List Text → Type 0
AllMatch ds = All (λ d. domain_matches d ≡ true) ds

module _ (casefold : Text → Text) where
  collect_domains-ok :
      (found : List Text) (values : List (Option Text)) (ds : List Text)
      → IsNodup found
      → collect_domains casefold found values ≡ ok ds
      → (raws : List Text) × (values ≡ map some raws)
        × (ds ≡ found ++ map (fold_domain casefold) raws)
        × AllMatch (map (fold_domain casefold) raws)
        × IsNodup ds
  unfolding collect_domains
  collect_domains-ok found [] ds nodup h =
      let e : found ≡ ds = cc h in
      ([], refl, sym e ∙ sym (append-nil found), tt, subst IsNodup e nodup)
  collect_domains-ok found (none ∷ values) ds nodup h = cc
  collect_domains-ok found (some raw ∷ values) ds nodup h =
      let domain = fold_domain casefold raw in
      elim (Bool-cases (domain_matches domain)) [
        | inr bad ↦ cc (rw (bad, collect_domains) at h)
        | inl good ↦ elim (Bool-cases (contains found domain)) [
          | inl taken ↦ cc (rw (good, taken, collect_domains) at h)
          | inr new ↦
              let (raws, all_texts, same, matches, distinct) =
                collect_domains-ok (found ++ domain ∷ []) values ds
                  (IsNodup-snoc found domain nodup new) (rw (good, new, collect_domains) at h) in
              (
                raw ∷ raws,
                ap (λ l. some raw ∷ l) all_texts,
                same ∙ append_assoc found (domain ∷ []) (map (fold_domain casefold) raws),
                (good, matches),
                distinct,
              )
        ]
      ]

  collect_domains_of :
      (found raws : List Text)
      → AllMatch (map (fold_domain casefold) raws)
      → IsNodup (found ++ map (fold_domain casefold) raws)
      → collect_domains casefold found (map some raws)
        ≡ ok (found ++ map (fold_domain casefold) raws)
  unfolding collect_domains
  collect_domains_of found [] matches nodup = rw append-nil
  collect_domains_of found (raw ∷ raws) matches nodup =
      let domain = fold_domain casefold raw in
      let new = IsNodup-middle found domain _ nodup in
      let e = append_assoc found (domain ∷ []) (map (fold_domain casefold) raws) in
      rw (matches.0, new)
        (collect_domains_of (found ++ domain ∷ []) raws matches.1 (subst IsNodup (sym e) nodup)
          ∙ ap ok e)

  canonical_domains-accepts :
      (values : List (Option Text)) (ds : List Text)
      → canonical_domains casefold values ≡ ok ds
      → (collect_domains casefold [] values ≡ ok ds) × (1 ≤ length ds) × (length ds ≤ 100)
  unfolding canonical_domains
  canonical_domains-accepts values ds h =
      let (found, collected, same) = >>=-eq-ok (collect_domains casefold [] values) _ h in
      let few = sized found same in
      let e : found ≡ ds = few.0 in
      (subst (λ l. collect_domains casefold [] values ≡ ok l) e collected, few.1, few.2)
    where
      sized :
          (found : List Text)
          → (if leb 1 (length found) && leb (length found) 100
              then ok found
              else err not_between_1_and_100)
            ≡ ok ds
          → (found ≡ ds) × (1 ≤ length ds) × (length ds ≤ 100)
      sized found h =
          let e : found ≡ ds = ground (arith, h) in
          (
            e,
            subst (λ l. 1 ≤ length l) e (ground (arith, h)),
            subst (λ l. length l ≤ 100) e (ground (arith, h)),
          )

  -- `canonical_domains` returns a list exactly when every value is a text, and the texts, stripped,
  -- without their trailing full stops and folded, are that list, which then holds between 1 and 100
  -- names, all of which match the pattern of domains, and no name twice.
  pub canonical_domains-exact :
      (values : List (Option Text)) (ds : List Text)
      → (canonical_domains casefold values ≡ ok ds) ↔ (
          (raws : List Text) × (values ≡ map some raws)
          × (ds ≡ map (fold_domain casefold) raws)
          × AllMatch ds
          × IsNodup ds
          × (1 ≤ length ds)
          × (length ds ≤ 100))
  unfolding canonical_domains
  canonical_domains-exact values ds = (
    (λ h.
        let (collected, low, high) = canonical_domains-accepts values ds h in
        let (raws, all_texts, same, matches, distinct) =
          collect_domains-ok [] values ds tt collected in
        (raws, all_texts, same, subst AllMatch (sym same) matches, distinct, low, high)),
    (λ given.
        let (raws, all_texts, same, matches, distinct, low, high) = given in
        let collected =
          collect_domains_of [] raws (subst AllMatch same matches) (subst IsNodup same distinct) in
        let found : collect_domains casefold [] values ≡ ok ds = rw (all_texts, same) collected in
        let fits : (leb 1 (length ds) && leb (length ds) 100) ≡ true = ground arith in
        rw (found, fits) refl),
  )
