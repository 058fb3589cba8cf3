-- ===== src/Lifecycle/Nested.antt =====
-- Where `_contains_advanced_config` of src/portwyrm/tables/lifecycle.py looks: the values under a key at any
-- depth of mappings and sequences.
use portwyrm.Prelude.{
  ◌≡◌, ◌⊎◌, refl, arith, Bool, true, false, not, ◌&&◌, ◌||◌, [], ◌∷◌, String, string_eq, ◌==◌,
  nat_eq, is_empty, All, Bool-cases, inl, inr, subst,
}
use portwyrm.Prelude.Text.{Text, text_eq, is_space, lstrip, rstrip, strip}
use portwyrm.Lifecycle.Context.{
  Value, null, truth, number, text, mapping, sequence, Entries, no_entry, entry, Values, no_value,
  value,
}
use portwyrm.Lifecycle.Authorize.{
  is_blank, contains_advanced_config, entries_contain, values_contain,
}

-- A value stands under a key in a mapping that is the value, or lies somewhere within it.
unfoldable mutual
  pub IsUnder : String → Value → Value → Type 0
  IsUnder key v (mapping entries) = IsAmong key v entries
  IsUnder key v (sequence values) = IsWithin key v values
  IsUnder key v _ = ⊥

  pub IsAmong : String → Value → Entries → Type 0
  IsAmong key v no_entry = ⊥
  IsAmong key v (entry k u rest) = ((k ≡ key) × (u ≡ v)) ⊎ (IsUnder key v u ⊎ IsAmong key v rest)

  pub IsWithin : String → Value → Values → Type 0
  IsWithin key v no_value = ⊥
  IsWithin key v (value u rest) = IsUnder key v u ⊎ IsWithin key v rest

-- A text of white space only.
abbrev pub IsWhite : Value → Type 0
IsWhite v = (t : Text) × (v ≡ text t) × All (λ c. is_space c ≡ true) t

white_rstrip : (t : Text) → rstrip t ≡ [] → All (λ c. is_space c ≡ true) t
unfolding rstrip
white_rstrip [] h = tt
white_rstrip (c ∷ t) h = elim (Bool-cases (is_space c && is_empty (rstrip t))) [
  | inr kept ↦ cc (rw kept at h)
  | inl gone ↦ (ground (arith, gone), white_rstrip t (empty (rstrip t) (ground (arith, gone))))
]
  where
    empty : (s : Text) → is_empty s ≡ true → s ≡ []
    empty [] h = refl
    empty (c ∷ s) h = cc h

white_lstrip : (t : Text) → All (λ c. is_space c ≡ true) (lstrip t) → All (λ c. is_space c ≡ true) t
unfolding lstrip
white_lstrip [] h = tt
white_lstrip (c ∷ t) h = elim (Bool-cases (is_space c)) [
  | inl space ↦ (space, white_lstrip t (rw space at h))
  | inr other ↦ rw other at h
]

IsWhite-is_blank : (v : Value) → is_blank v ≡ true → IsWhite v
unfolding strip
IsWhite-is_blank (text t) h = (t, refl, white_lstrip t (white_rstrip (lstrip t) (empty _ h)))
  where
    empty : (s : Text) → is_empty s ≡ true → s ≡ []
    empty [] h = refl
    empty (c ∷ s) h = cc h
IsWhite-is_blank null h = cc h
IsWhite-is_blank (truth b) h = cc h
IsWhite-is_blank (number n) h = cc h
IsWhite-is_blank (mapping entries) h = cc h
IsWhite-is_blank (sequence values) h = cc h

left_false : (a b : Bool) → (a || b) ≡ false → a ≡ false
left_false a b h = ground arith

right_false : (a b : Bool) → (a || b) ≡ false → b ≡ false
right_false a b h = ground arith

second : (a b d : Bool) → (a || b || d) ≡ false → b ≡ false
second a b d h = ground arith

third : (a b d : Bool) → (a || b || d) ≡ false → d ≡ false
third a b d h = ground arith

blank :
    (u : Value) (key a b : Bool)
    → key ≡ true
    → (key && not (is_blank u) || a || b) ≡ false
    → is_blank u ≡ true
blank u key a b named h = ground arith

mutual
  unfolding IsUnder contains_advanced_config

  pub IsWhite-under :
      (v u : Value) → contains_advanced_config u ≡ false → IsUnder "advanced_config" v u → IsWhite v
  IsWhite-under v (mapping entries) h under = IsWhite-among v entries h under
  IsWhite-under v (sequence values) h under = IsWhite-within v values h under
  IsWhite-under v _ h under = absurd under

  IsWhite-among :
      (v : Value) (entries : Entries)
      → entries_contain entries ≡ false
      → IsAmong "advanced_config" v entries
      → IsWhite v
  IsWhite-among v no_entry h among = absurd among
  IsWhite-among v (entry k u rest) h (inl (same, e)) = subst IsWhite e (
      IsWhite-is_blank u (
        blank u (k == "advanced_config") (contains_advanced_config u) (entries_contain rest)
          ((string_eq.beq_iff k "advanced_config").1 same) h))
  IsWhite-among v (entry k u rest) h (inr (inl deeper)) =
      IsWhite-under v u
        (second (k == "advanced_config" && not (is_blank u)) (contains_advanced_config u)
          (entries_contain rest) h)
        deeper
  IsWhite-among v (entry k u rest) h (inr (inr later)) =
      IsWhite-among v rest
        (third (k == "advanced_config" && not (is_blank u)) (contains_advanced_config u)
          (entries_contain rest) h)
        later

  IsWhite-within :
      (v : Value) (values : Values)
      → values_contain values ≡ false
      → IsWithin "advanced_config" v values
      → IsWhite v
  IsWhite-within v no_value h within = absurd within
  IsWhite-within v (value u rest) h (inl deeper) = IsWhite-under v u (left_false _ _ h) deeper
  IsWhite-within v (value u rest) h (inr later) = IsWhite-within v rest (right_false _ _ h) later
