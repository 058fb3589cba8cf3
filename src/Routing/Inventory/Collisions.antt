-- ===== src/Routing/Inventory/Collisions.antt =====
-- What `HostInventory.validate` of src/portwyrm/tables/routing.py accepts.
use mathlib.Core.Path.{fun_ext}
use portwyrm.Prelude.{
  Eq, pair_eq, ◌≡◌, ◌∙◌, refl, sym, ap, subst, arith, Bool, true, false, not, ◌&&◌, ◌||◌, List, [],
  ◌∷◌, ◌++◌, ◌==◌, contains, any, Bool-cases, inl, inr, Option-cases,
}
use portwyrm.Prelude.Result.{Result, ok, err, ◌>>=◌, ◌>>◌, is_ok}
use portwyrm.Prelude.Int.{ℤ, int_eq}
use portwyrm.Prelude.Dict
use portwyrm.Prelude.Dict.{Dict}
use portwyrm.Prelude.Text.{Text, text_eq, codes}
use portwyrm.Routing.Hosts.{Host, Stream, all_different}
use portwyrm.Routing.Inventory.{
  Owner, Claim, Collision, claim_domains, claim_hosts, protocols, claim_ports, claim_streams,
  Inventory, validate,
}

or_assoc : (a b c : Bool) → (a || (b || c)) ≡ ((b || a) || c)
or_assoc a b c = ground arith

and_assoc : (a b c d : Bool) → b ≡ (c && d) → (a && b) ≡ ((a && c) && d)
and_assoc a b c d h = ground arith

-- Each claim is none of those before it, and none that was taken.
module _ {A : Type 0} ⦃e : Eq A⦄ where
  fits : (A → Bool) → List A → Bool
  fits taken [] = true
  fits taken (x ∷ xs) = not (taken x) && fits (λ y. x == y || taken y) xs

  after : List A → (A → Bool) → A → Bool
  after xs taken y = contains xs y || taken y

  fits-append :
      (taken : A → Bool) (xs ys : List A)
      → fits taken (xs ++ ys) ≡ (fits taken xs && fits (after xs taken) ys)
  unfolding fits after
  fits-append taken [] ys = refl
  fits-append taken (x ∷ xs) ys =
      let moved = fun_ext (λ (y : A). or_assoc (contains xs y) (x == y) (taken y)) in
      let rest =
        fits-append (λ y. x == y || taken y) xs ys
        ∙ ap (λ t. fits (λ y. x == y || taken y) xs && fits t ys) moved in
      and_assoc (not (taken x)) _ _ _ rest

  contains-append :
      (xs ys : List A) (x : A) → contains (xs ++ ys) x ≡ (contains xs x || contains ys x)
  contains-append [] ys x = refl
  contains-append (y ∷ xs) ys x = ground (arith, contains-append xs ys x)

  after-append :
      (taken : A → Bool) (xs ys : List A) → after (xs ++ ys) taken ≡ after ys (after xs taken)
  unfolding after
  after-append taken xs ys = fun_ext (λ y. swapped y (contains-append xs ys y))
    where
      swapped :
          (y : A)
          → contains (xs ++ ys) y ≡ (contains xs y || contains ys y)
          → (contains (xs ++ ys) y || taken y) ≡ (contains ys y || (contains xs y || taken y))
      swapped y h = ground (arith, h)

  any_or :
      (x : A) (taken : A → Bool) (xs : List A)
      → any (λ y. x == y || taken y) xs ≡ (contains xs x || any taken xs)
  any_or x taken [] = refl
  any_or x taken (y ∷ xs) = ground (arith, any_or x taken xs, e.beq_iff x y, e.beq_iff y x)

  fits-all_different :
      (taken : A → Bool) (xs : List A) → fits taken xs ≡ (all_different xs && not (any taken xs))
  unfolding fits
  fits-all_different taken [] = refl
  fits-all_different taken (x ∷ xs) =
      ground (arith, fits-all_different (λ y. x == y || taken y) xs, any_or x taken xs)

  any_nothing :
      (taken : A → Bool) (xs : List A) → ((x : A) → taken x ≡ false) → any taken xs ≡ false
  any_nothing taken [] h = refl
  any_nothing taken (x ∷ xs) h = ground (arith, h x, any_nothing taken xs h)

  all_new :
      (taken : A → Bool) (xs : List A)
      → ((x : A) → taken x ≡ false)
      → fits taken xs ≡ all_different xs
  all_new taken xs h = ground (arith, fits-all_different taken xs, any_nothing taken xs h)

  -- A loop that claims names: it ends well just if the names fit, and then they are taken too.
  abbrev Claims : {S : Type 0} → (S → A → Bool) → (A → Bool) → List A → Result Collision S → Type 0
  Claims view taken xs (ok s) = (fits taken xs ≡ true) × (view s ≡ after xs taken)
  Claims view taken xs (err problem) = fits taken xs ≡ false

  Claims-cons :
      {S : Type 0} (view : S → A → Bool) (taken : A → Bool) (x : A) (xs : List A)
      (r : Result Collision S)
      → taken x ≡ false
      → Claims view (λ y. x == y || taken y) xs r
      → Claims view taken (x ∷ xs) r
  unfolding fits after
  Claims-cons view taken x xs (err problem) new h = ground arith
  Claims-cons view taken x xs (ok s) new h =
      (ground (arith, h.0), h.1 ∙ fun_ext (λ (y : A). or_assoc (contains xs y) (x == y) (taken y)))

  Claims-taken :
      (taken : A → Bool) (x : A) (xs : List A) → taken x ≡ true → fits taken (x ∷ xs) ≡ false
  unfolding fits
  Claims-taken taken x xs h = ground arith

  Claims-is_ok :
      {S : Type 0} (view : S → A → Bool) (taken : A → Bool) (xs : List A) (r : Result Collision S)
      → ((x : A) → taken x ≡ false)
      → Claims view taken xs r
      → is_ok r ≡ all_different xs
  Claims-is_ok view taken xs (err problem) empty h = sym h ∙ all_new taken xs empty
  Claims-is_ok view taken xs (ok s) empty h = sym h.0 ∙ all_new taken xs empty

  Claims->>= :
      {S : Type 0} (view : S → A → Bool) (taken : A → Bool) (xs ys : List A)
      (m : Result Collision S) (next : S → Result Collision S)
      → Claims view taken xs m
      → ((s : S) → Claims view (view s) ys (next s))
      → Claims view taken (xs ++ ys) (m >>= next)
  Claims->>= view taken xs ys (err problem) next h k = ground (arith, fits-append taken xs ys)
  Claims->>= view taken xs ys (ok s) next h k = by_next (next s) (k s)
    where
      by_next :
          (r : Result Collision _) → Claims view (view s) ys r → Claims view taken (xs ++ ys) r
      by_next (err problem) j = fits-append taken xs ys ∙ rw (h.0, ← h.1) j
      by_next (ok t) j = (
        fits-append taken xs ys ∙ rw (h.0, ← h.1) (j.0),
        j.1 ∙ ap (after ys) h.1 ∙ sym (after-append taken xs ys),
      )

has-put :
    (claimed : Dict Text Owner) (domain y : Text) (owner : Owner)
    → Dict.has (Dict.put claimed domain owner) y ≡ (domain == y || Dict.has claimed y)
has-put claimed domain y owner = ground (arith, Dict.get-put claimed domain y owner)

-- What the code claims, as a list.
abbrev pub domains_of : List Host → List Text
domains_of [] = []
domains_of (host ∷ hosts) = host.domain_names ++ domains_of hosts

abbrev pub claims_for : ℤ → List Text → List Claim
claims_for port [] = []
claims_for port (protocol ∷ rest) = (port, protocol) ∷ claims_for port rest

abbrev pub claims_of : List Stream → List Claim
claims_of [] = []
claims_of (stream ∷ streams) =
    claims_for stream.incoming_port (protocols stream.protocol) ++ claims_of streams

abbrev has_domain : Dict Text Owner → Text → Bool
has_domain claimed domain = Dict.has claimed domain

claim_domains-Claims :
    (owner : Owner) (domains : List Text) (claimed : Dict Text Owner)
    → Claims has_domain (has_domain claimed) domains (claim_domains owner domains claimed)
unfolding claim_domains fits after
claim_domains-Claims owner [] claimed = (refl, refl)
claim_domains-Claims owner (domain ∷ domains) claimed =
    let put_has = fun_ext (λ (y : Text). has-put claimed domain y owner) in
    let rest =
      subst
        (λ t.
          Claims has_domain t domains (claim_domains owner domains (Dict.put claimed domain owner)))
        put_has (claim_domains-Claims owner domains (Dict.put claimed domain owner)) in
    elim (Option-cases (Dict.get claimed domain)) [
      | inl free ↦
          rw (free, claim_domains)
            (Claims-cons has_domain (has_domain claimed) domain domains _ (rw free refl) rest)
      | inr (previous, there) ↦
          rw (there, claim_domains)
            (Claims-taken (has_domain claimed) domain domains (rw there refl))
    ]

claim_hosts-Claims :
    (family : Text) (hosts : List Host) (claimed : Dict Text Owner)
    → Claims has_domain (has_domain claimed) (domains_of hosts) (claim_hosts family hosts claimed)
unfolding claim_hosts fits after
claim_hosts-Claims family [] claimed = (refl, refl)
claim_hosts-Claims family (host ∷ hosts) claimed =
    Claims->>= has_domain (has_domain claimed) host.domain_names (domains_of hosts) _ _
      (claim_domains-Claims (family, host.id) host.domain_names claimed)
      (claim_hosts-Claims family hosts)

claim_ports-Claims :
    (port : ℤ) (names : List Text) (claims : List Claim)
    → Claims contains (contains claims) (claims_for port names) (claim_ports port names claims)
unfolding claim_ports fits after
claim_ports-Claims port [] claims = (refl, refl)
claim_ports-Claims port (name ∷ names) claims = elim (Bool-cases (contains claims (port, name))) [
  | inl there ↦ rw there (Claims-taken (contains claims) (port, name) (claims_for port names) there)
  | inr free ↦ rw free (
      Claims-cons contains (contains claims) (port, name) (claims_for port names) _ free
        (claim_ports-Claims port names ((port, name) ∷ claims)))
]

claim_streams-Claims :
    (streams : List Stream) (claims : List Claim)
    → Claims contains (contains claims) (claims_of streams) (claim_streams streams claims)
unfolding claim_streams fits after
claim_streams-Claims [] claims = (refl, refl)
claim_streams-Claims (stream ∷ streams) claims =
    Claims->>= contains (contains claims)
      (claims_for stream.incoming_port (protocols stream.protocol)) (claims_of streams) _ _
      (claim_ports-Claims stream.incoming_port (protocols stream.protocol) claims)
      (claim_streams-Claims streams)

both-is_ok :
    {S T : Type 0} (m : Result Collision S) (n : Result Collision T) {a b : Bool}
    → is_ok m ≡ a
    → is_ok n ≡ b
    → is_ok (m >> (n >> ok tt)) ≡ (a && b)
both-is_ok (err p) n h k = ground (arith, h)
both-is_ok (ok s) (err p) h k = ground (arith, h, k)
both-is_ok (ok s) (ok t) h k = ground (arith, h, k)

-- The inventory is accepted exactly when no domain stands twice in the names of all its hosts,
-- whatever their families, and no port stands twice with one protocol in what all its streams listen
-- on, of which a stream of both protocols listens on two.
pub validate-accepts :
    (i : Inventory)
    → is_ok (validate i) ≡ (
        all_different
          (domains_of i.proxy_hosts ++ (domains_of i.redirection_hosts ++ domains_of i.dead_hosts))
        && all_different (claims_of i.streams))
unfolding validate Dict.get
validate-accepts i =
    let hosts =
      Claims->>= has_domain (has_domain []) (domains_of i.proxy_hosts)
        (domains_of i.redirection_hosts ++ domains_of i.dead_hosts) _ _
        (claim_hosts-Claims (codes "proxy") i.proxy_hosts [])
        (λ claimed.
          Claims->>= has_domain (has_domain claimed) (domains_of i.redirection_hosts)
            (domains_of i.dead_hosts) _ _
            (claim_hosts-Claims (codes "redirection") i.redirection_hosts claimed)
            (claim_hosts-Claims (codes "dead") i.dead_hosts)) in
    let streams = claim_streams-Claims i.streams [] in
    both-is_ok _ (claim_streams i.streams [])
      (Claims-is_ok has_domain (has_domain []) _ _ (λ x. refl) hosts)
      (Claims-is_ok contains (contains []) (claims_of i.streams) _ (λ x. refl) streams)
