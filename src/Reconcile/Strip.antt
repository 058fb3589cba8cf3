-- ===== src/Reconcile/Strip.antt =====
-- The name that `activate` of src/portwyrm/runtime/reconcile.py writes is the one `active_id` reads.
use portwyrm.Prelude.{
  ℕ, ◌≡◌, ◌≤◌, ◌⊎◌, ◌∙◌, refl, arith, Bool, true, false, [], ◌∷◌, ◌++◌, if◌then◌else◌, is_empty,
  All, take, zero, suc, length,
}
use portwyrm.Prelude.Text.{Text, codes, is_space, lstrip, rstrip, strip}

abbrev newline : Text
newline = codes "\n"

-- The text begins with no space.
abbrev begins_solid : Text → Bool
begins_solid [] = true
begins_solid (c ∷ s) = if is_space c then false else true

lstrip-begins : (s : Text) → begins_solid (lstrip s) ≡ true
unfolding lstrip
lstrip-begins [] = refl
lstrip-begins (c ∷ s) = ground (arith, lstrip-begins s)

rstrip-begins : (s : Text) → begins_solid s ≡ true → begins_solid (rstrip s) ≡ true
unfolding rstrip
rstrip-begins [] h = refl
rstrip-begins (c ∷ s) h = ground arith

rstrip-rstrip : (s : Text) → rstrip (rstrip s) ≡ rstrip s
unfolding rstrip
rstrip-rstrip [] = refl
rstrip-rstrip (c ∷ s) = ground (arith, rstrip-rstrip s)

rstrip-newline : (s : Text) → rstrip (s ++ newline) ≡ rstrip s
unfolding rstrip is_space
rstrip-newline [] = refl
rstrip-newline (c ∷ s) = ground (arith, rstrip-newline s)

lstrip-newline : (s : Text) → begins_solid s ≡ true → rstrip (lstrip (s ++ newline)) ≡ rstrip s
unfolding lstrip rstrip is_space
lstrip-newline [] h = refl
lstrip-newline (c ∷ s) h = ground (arith, rstrip-newline s)

-- A stripped name is read back.
pub strip-newline : (s : Text) → strip (strip s ++ newline) ≡ strip s
unfolding strip
strip-newline s =
    lstrip-newline (rstrip (lstrip s)) (rstrip-begins (lstrip s) (lstrip-begins s))
    ∙ rstrip-rstrip (lstrip s)

-- A digit of `hexdigest`.
abbrev pub IsHex : ℕ → Type 0
IsHex c = ((b'0' ≤ c) × (c ≤ b'9')) ⊎ ((b'a' ≤ c) × (c ≤ b'f'))

hex_solid : (s : Text) → All IsHex s → (begins_solid s ≡ true) × (rstrip s ≡ s)
unfolding rstrip is_space
hex_solid [] h = (refl, refl)
hex_solid (c ∷ s) (h, hs) = let (begins, solid) = hex_solid s hs in ground arith

All-take : (n : ℕ) (s : Text) → All IsHex s → All IsHex (take n s)
All-take zero s h = tt
All-take (suc n) [] h = tt
All-take (suc n) (c ∷ s) (h, hs) = (h, All-take n s hs)

-- So is the front of a digest.
pub strip-take_hex :
    (s : Text)
    → All IsHex s
    → length s ≡ 64
    → (strip (take 20 s ++ newline) ≡ take 20 s) × (is_empty (take 20 s) ≡ false)
unfolding strip
strip-take_hex [] h size = absurd (omega arith)
strip-take_hex (c ∷ s) h size =
    let (begins, solid) = hex_solid (take 20 (c ∷ s)) (All-take 20 (c ∷ s) h) in
    (lstrip-newline (take 20 (c ∷ s)) begins ∙ solid, refl)
