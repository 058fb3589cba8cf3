-- ===== src/Nginx/Lines.antt =====
-- Python's operations on lines of text that src/portwyrm/runtime/nginx_primitives.py calls.
use portwyrm.Prelude.{
  ℕ, zero, suc, Bool, true, false, ◌&&◌, ◌||◌, List, [], ◌∷◌, ◌++◌, map, if◌then◌else◌, ◌==◌,
  nat_eq, leb, is_empty,
}
use portwyrm.Prelude.Text.{Text, is_space}

-- `sep.join(parts)`
unfoldable pub join : Text → List Text → Text
join sep [] = []
join sep (part ∷ []) = part
join sep (part ∷ next ∷ parts) = part ++ sep ++ join sep (next ∷ parts)

unfoldable pub starts_with : Text → Text → Bool
starts_with [] t = true
starts_with (c ∷ s) [] = false
starts_with (c ∷ s) (d ∷ t) = c == d && starts_with s t

-- `s in t`
unfoldable pub is_in : Text → Text → Bool
unfolding starts_with
is_in s [] = is_empty s
is_in s (c ∷ t) = starts_with s (c ∷ t) || is_in s t

-- The characters at which `str.splitlines` breaks.
unfoldable pub is_break : ℕ → Bool
is_break c = leb 10 c && leb c 13 || leb 28 c && leb c 30 || c == 133 || c == 8232 || c == 8233

abbrev pub begins_with_newline : Text → Bool
begins_with_newline [] = false
begins_with_newline (c ∷ t) = c == 10

-- A character before the first line.
abbrev pub put_first : ℕ → List Text → List Text
put_first c [] = (c ∷ []) ∷ []
put_first c (line ∷ lines) = (c ∷ line) ∷ lines

-- `t.splitlines()`: a carriage return and a newline behind it are one break.
unfoldable pub split_lines : Text → List Text
unfolding is_break
split_lines [] = []
split_lines (c ∷ t) =
    let rest = split_lines t in
    if is_break c
    then (if c == 13 && begins_with_newline t then rest else [] ∷ rest)
    else put_first c rest

-- The words of `t.split()`, where `word` is the one that is being read.
unfoldable pub words_from : Text → Text → List Text
words_from word [] = if is_empty word then [] else word ∷ []
words_from word (c ∷ t) = elim (is_space c) [
  | true ↦ let rest = words_from [] t in if is_empty word then rest else word ∷ rest
  | false ↦ words_from (word ++ c ∷ []) t
]

unfoldable pub spaces : ℕ → Text
spaces zero = []
spaces (suc n) = b' ' ∷ spaces n

unfoldable pub indented : ℕ → Text → Text
unfolding split_lines join spaces
indented n value =
    join (10 ∷ [])
      (map (λ line. if is_empty line then [] else spaces n ++ line) (split_lines value))
