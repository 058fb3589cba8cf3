-- ===== src/Prelude/Text.antt =====
-- Python's `str` as a list of code points, with the methods the program calls.
use Prim.Native.Nat.{ℕ, ◌+◌, ◌/◌, ◌%◌}
use Prim.Native.Char.{code}
use Prim.Native.String.{String}
use mathlib.Core.Bool.{Bool, true, false, ◌&&◌, ◌||◌}
use mathlib.Core.Option.{Option, none, some}
use mathlib.Core.List.{List, [], ◌∷◌, ◌++◌, map}
use portwyrm.Prelude.Tests.{if◌then◌else◌, leb, ltb, nat_beq}
use portwyrm.Prelude.Lists.{is_empty}
use portwyrm.Prelude.Classes.{Eq, nat_eq, list_eq, pair_eq}

abbrev pub Text : Type 0
Text = List ℕ

instance unfoldable pub text_eq : Eq Text
text_eq = list_eq ⦃e = nat_eq⦄

instance unfoldable pub texts_eq : Eq (List Text)
texts_eq = list_eq ⦃e = text_eq⦄

instance unfoldable pub text_pair_eq : Eq (Text × Text)
text_pair_eq = pair_eq ⦃e = text_eq⦄ ⦃f = text_eq⦄

-- The code points of a literal.
abbrev pub codes : String → Text
codes String.[] = []
codes (String.◌∷◌ c s) = code c ∷ codes s

-- The code points that `str.isspace` accepts.
unfoldable pub is_space : ℕ → Bool
is_space c =
    leb 9 c && leb c 13
    || leb 28 c && leb c 32
    || nat_beq c 133
    || nat_beq c 160
    || nat_beq c 5760
    || leb 8192 c && leb c 8202
    || nat_beq c 8232
    || nat_beq c 8233
    || nat_beq c 8239
    || nat_beq c 8287
    || nat_beq c 12288

unfoldable pub lstrip : Text → Text
lstrip [] = []
lstrip (c ∷ s) = let rest = lstrip s in if is_space c then rest else c ∷ s

-- The rest is kept up to its last character that is no space.
unfoldable pub rstrip : Text → Text
rstrip [] = []
rstrip (c ∷ s) = let rest = rstrip s in if is_space c && is_empty rest then [] else c ∷ rest

unfoldable pub strip : Text → Text
unfolding lstrip rstrip
strip s = rstrip (lstrip s)

-- `s.replace(a, b)` for single characters.
unfoldable pub replace_char : ℕ → ℕ → Text → Text
replace_char a b s = map (λ c. if nat_beq c a then b else c) s

-- `s.partition(sep)` for a single character: the text before it, the text behind it if it is there.
unfoldable pub partition : ℕ → Text → Text × Option Text
partition sep [] = ([], none)
partition sep (c ∷ s) =
    let rest = partition sep s in if nat_beq c sep then ([], some s) else (c ∷ rest.0, rest.1)

-- The order of `str`: by code points.
unfoldable pub text_leb : Text → Text → Bool
text_leb [] t = true
text_leb (c ∷ s) [] = false
text_leb (c ∷ s) (d ∷ t) = ltb c d || nat_beq c d && text_leb s t

-- `s.encode()`, UTF-8.
utf8_char : ℕ → List ℕ
utf8_char c =
    if ltb c 128
    then c ∷ []
    else if ltb c 2048
    then (192 + c / 64) ∷ (128 + c % 64) ∷ []
    else if ltb c 65536
    then (224 + c / 4096) ∷ (128 + c / 64 % 64) ∷ (128 + c % 64) ∷ []
    else (240 + c / 262144) ∷ (128 + c / 4096 % 64) ∷ (128 + c / 64 % 64) ∷ (128 + c % 64) ∷ []

unfoldable pub encode : Text → List ℕ
unfolding utf8_char
encode [] = []
encode (c ∷ s) = utf8_char c ++ encode s
