-- ===== src/Routing/Domains/Plain.antt =====
-- The names that src/portwyrm/tables/routing.py accepts hold no character that means something to Nginx.
use portwyrm.Prelude.{
  ℕ, ◌≡◌, ◌≢◌, refl, subst, arith, Bool, true, false, ◌&&◌, ◌||◌, List, [], ◌∷◌, Option, ◌==◌,
  nat_eq, leb, length, contains, all, All, is_empty, Bool-cases, inl, inr,
}
use portwyrm.Prelude.Result.{ok}
use portwyrm.Prelude.Text.{Text, text_eq, codes, strip}
use portwyrm.Quic.Hello.{rstrip_dots}
use portwyrm.Routing.Domains.{
  split_on, is_digit, is_lower, is_upper, is_name_char, is_hyphenated, is_label, without_stop,
  without_star, domain_matches, TargetKind, ip, dns, docker, is_dns_label, is_container_char,
  is_container, target,
}

-- The characters that end a word, a directive or a block, quote, or begin a variable or a comment.
abbrev pub special : Text
special = codes " \t\n\r;{}\"'$#\\"

abbrev pub IsPlain : Text → Type 0
IsPlain t = All (λ c. contains special c ≡ false) t

IsPlain-all :
    (p : ℕ → Bool) (t : Text)
    → ((c : ℕ) → p c ≡ true → contains special c ≡ false)
    → all p t ≡ true
    → IsPlain t
IsPlain-all p [] plain h = tt
IsPlain-all p (c ∷ t) plain h = (plain c (ground arith), IsPlain-all p t plain (ground arith))

-- The parts of a text hold its characters, apart from the separators.
all-split_on :
    (p : ℕ → Bool) (sep : ℕ) (t : Text)
    → all (λ part. all p part) (split_on sep t) ≡ true
    → all (λ c. p c || c == sep) t ≡ true
unfolding split_on
all-split_on p sep [] h = refl
all-split_on p sep (c ∷ t) h = ground (arith, all-split_on p sep t)

container_plain : (c : ℕ) → is_container_char c ≡ true → contains special c ≡ false
unfolding is_container_char is_digit is_lower is_upper
container_plain c h = ground arith

name_plain :
    (c : ℕ) → (is_name_char c || c == b'-' || c == b'.') ≡ true → contains special c ≡ false
unfolding is_name_char is_digit is_lower is_upper
name_plain c h = ground arith

all_mono :
    {A : Type 0} (p q : A → Bool) (xs : List A)
    → ((x : A) → p x ≡ true → q x ≡ true)
    → all p xs ≡ true
    → all q xs ≡ true
all_mono p q [] step h = refl
all_mono p q (x ∷ xs) step h = ground (arith, step x, all_mono p q xs step)

hyphenated_all :
    (p : ℕ → Bool) (t : Text) → is_hyphenated p t ≡ true → all (λ d. p d || d == b'-') t ≡ true
unfolding is_hyphenated
hyphenated_all p [] h = refl
hyphenated_all p (c ∷ t) h = ground arith

dns-IsPlain : (t : Text) → all is_dns_label (split_on b'.' t) ≡ true → IsPlain t
unfolding is_dns_label is_container_char
dns-IsPlain t h =
    let labels =
      all_mono is_dns_label (λ part. all (λ d. (is_lower d || is_digit d) || d == b'-') part)
        (split_on b'.' t)
        (λ part k. hyphenated_all (λ c. is_lower c || is_digit c) part (ground arith)) h in
    IsPlain-all (λ c. ((is_lower c || is_digit c) || c == b'-') || c == b'.') t
      (λ c k. container_plain c (widen c k)) (all-split_on _ b'.' t labels)
  where
    widen :
        (c : ℕ)
        → (((is_lower c || is_digit c) || c == b'-') || c == b'.') ≡ true
        → is_container_char c ≡ true
    widen c k = ground arith

container_all : (t : Text) → is_container t ≡ true → all is_container_char t ≡ true
unfolding is_container is_container_char
container_all [] h = refl
container_all (c ∷ t) h = ground arith

module _ (casefold : Text → Text) (ip_address : Text → Option Text) where
  -- A target that is accepted as a host name or as a container holds none of the characters that end a
  -- word, a directive or a block of Nginx, quote, or begin a variable or a comment.
  pub target-IsPlain :
      (value : Text) (kind : TargetKind) (t : Text)
      → target casefold ip_address value kind ≡ ok t
      → kind ≢ ip
      → IsPlain t
  unfolding target
  target-IsPlain value ip t h k = absurd (k refl)
  target-IsPlain value dns t h k =
      let normalized = casefold (rstrip_dots (strip value)) in
      let labels = all is_dns_label (split_on b'.' normalized) in
      elim (Bool-cases (is_empty (strip value))) [
        | inl nothing ↦ cc (rw (nothing, target) at h)
        | inr there ↦ elim (Bool-cases (leb (length normalized) 253 && labels)) [
          | inl fits ↦
              let e : normalized ≡ t = cc (rw (there, fits, target) at h) in
              subst IsPlain e (dns-IsPlain normalized (right _ labels fits))
          | inr bad ↦ cc (rw (there, bad, target) at h)
        ]
      ]
    where
      right : (a b : Bool) → (a && b) ≡ true → b ≡ true
      right a b h = ground arith
  target-IsPlain value docker t h k = elim (Bool-cases (is_empty (strip value))) [
    | inl nothing ↦ cc (rw (nothing, target) at h)
    | inr there ↦ elim (Bool-cases (is_container (strip value))) [
      | inl fits ↦
          let e : strip value ≡ t = cc (rw (there, fits, target) at h) in
          subst IsPlain e (
            IsPlain-all is_container_char (strip value) container_plain
              (container_all (strip value) fits))
      | inr bad ↦ cc (rw (there, bad, target) at h)
    ]
  ]

plain_stop : (c : ℕ) → (c == b'.' || c == b'*') ≡ true → contains special c ≡ false
plain_stop c h = ground arith

IsPlain-without_stop : (t : Text) → IsPlain (without_stop t) → IsPlain t
unfolding without_stop
IsPlain-without_stop [] h = tt
IsPlain-without_stop (c ∷ []) h = elim (Bool-cases (c == b'.')) [
  | inl stop ↦ (plain_stop c (ground arith), tt)
  | inr other ↦ let e : without_stop (c ∷ []) ≡ c ∷ [] = rw other refl in subst IsPlain e h
]
IsPlain-without_stop (c ∷ d ∷ t) h = (h.0, IsPlain-without_stop (d ∷ t) h.1)

IsPlain-without_star : (t : Text) → IsPlain (without_star t) → IsPlain t
unfolding without_star
IsPlain-without_star [] h = tt
IsPlain-without_star (c ∷ []) h = h
IsPlain-without_star (c ∷ d ∷ t) h = elim (Bool-cases (c == b'*' && d == b'.')) [
  | inl star ↦
      let e : without_star (c ∷ d ∷ t) ≡ t = rw star refl in
      (plain_stop c (ground arith), (plain_stop d (ground arith), subst IsPlain e h))
  | inr other ↦ let e : without_star (c ∷ d ∷ t) ≡ c ∷ d ∷ t = rw other refl in subst IsPlain e h
]

-- So it is with every name that matches the pattern of domains.
pub domain_matches-IsPlain : (t : Text) → domain_matches t ≡ true → IsPlain t
unfolding domain_matches is_label
domain_matches-IsPlain t h =
    let name = without_stop (without_star t) in
    let labels =
      all_mono is_label (λ part. all (λ d. is_name_char d || d == b'-') part) (split_on b'.' name)
        (λ part k. hyphenated_all is_name_char part (ground arith)) (ground arith) in
    IsPlain-without_star t (
      IsPlain-without_stop (without_star t) (
        IsPlain-all (λ c. (is_name_char c || c == b'-') || c == b'.') name
          (λ c k. name_plain c (ground arith)) (all-split_on _ b'.' name labels)))
