-- ===== src/Nginx/Blocks.antt =====
-- The `location` blocks in the lines that src/portwyrm/runtime/nginx_http.py writes.
use portwyrm.Prelude.{
  ◌≡◌, refl, ap, arith, Bool, true, false, List, [], ◌∷◌, ◌++◌, if◌then◌else◌, ◌==◌, All, string_eq,
}
use portwyrm.Prelude.Text.{Text, text_eq, codes}
use portwyrm.Nginx.Lines.{starts_with}

-- A line that opens a block, and the line that ends it.
unfoldable pub is_head : Text → Bool
is_head line = starts_with (codes "  location ") line

unfoldable pub is_end : Text → Bool
is_end line = line == codes "  }"

-- The lines up to the next end, and what stands behind it.
unfoldable pub body : List Text → List Text
body [] = []
body (line ∷ lines) = let rest = body lines in if is_end line then [] else line ∷ rest

-- What stands between the head of each block and the end after it.
unfoldable pub bodies : List Text → List (List Text)
unfolding is_head body
bodies [] = []
bodies (line ∷ lines) = let rest = bodies lines in if is_head line then body lines ∷ rest else rest

-- Lines that open no block.
abbrev pub IsOutside : List Text → Type 0
IsOutside lines = All (λ line. is_head line ≡ false) lines

-- Lines that end no block.
abbrev pub IsInside : List Text → Type 0
IsInside lines = All (λ line. is_end line ≡ false) lines

pub bodies-outside : (xs ys : List Text) → IsOutside xs → bodies (xs ++ ys) ≡ bodies ys
unfolding bodies
bodies-outside [] ys tt = refl
bodies-outside (x ∷ xs) ys (out, rest) = ground (arith, bodies-outside xs ys rest)

pub body-inside : (xs ys : List Text) → IsInside xs → body (xs ++ codes "  }" ∷ ys) ≡ xs
unfolding body is_end text_eq
body-inside [] ys tt = refl
body-inside (x ∷ xs) ys (inside, rest) = rw inside (ap (x ∷◌) (body-inside xs ys rest))

pub bodies-block :
    (head : Text) (xs ys : List Text)
    → is_head head ≡ true
    → IsOutside xs
    → IsInside xs
    → bodies (head ∷ xs ++ codes "  }" ∷ ys) ≡ xs ∷ bodies ys
unfolding bodies is_head starts_with
bodies-block head xs ys opens out inside =
    let after : bodies (xs ++ codes "  }" ∷ ys) ≡ bodies ys =
      bodies-outside xs (codes "  }" ∷ ys) out in
    rw (opens, body-inside xs ys inside, after) refl
