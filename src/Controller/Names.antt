-- ===== src/Controller/Names.antt =====
-- The names of the files of hosts in src/portwyrm/runtime/controller.py: `_host_ids` and the paths that
-- `host_revision_drifted` looks at.
use portwyrm.Prelude.{
  ℕ, ◌≡◌, refl, arith, false, List, [], ◌∷◌, ◌++◌, Option, none, some, if◌then◌else◌, ◌==◌, nat_eq,
}
use portwyrm.Prelude.Dict
use portwyrm.Prelude.Dict.{Dict}
use portwyrm.Prelude.Text.{Text, text_eq, codes}
use portwyrm.Prelude.Decimal.{Digits, IsDecimal, read_digits, str, read_digits-str}

-- The text behind a literal beginning.
unfoldable pub behind : Text → Text → Option Text
behind [] t = some t
behind (c ∷ s) [] = none
behind (c ∷ s) (e ∷ t) = if c == e then behind s t else none

pub behind-append : (s t : Text) → behind s (s ++ t) ≡ some t
unfolding behind
behind-append [] t = refl
behind-append (c ∷ s) t = ground (arith, behind-append s t)

pub data Family : Type 0 where
  proxy redirection dead : Family

unfoldable pub family_name : Family → Text
family_name proxy = codes "proxy"
family_name redirection = codes "redirection"
family_name dead = codes "dead"

-- The group of the alternatives of the pattern that fits.
unfoldable pub behind_family : Text → Option Text
unfolding behind family_name
behind_family t = elim (behind (family_name proxy) t) [
  | some rest ↦ some rest
  | none ↦ elim (behind (family_name redirection) t) [
    | some rest ↦ some rest
    | none ↦ behind (family_name dead) t
  ]
]

-- `(\d+)\.conf`
unfoldable pub conf_number : Digits → Text → Option ℕ
conf_number d t =
    let (found, n, rest) = read_digits d false 0 t in
    if found then (if rest == codes ".conf" then some n else none) else none

-- The group of `http/(?:proxy|redirection|dead)-(\d+)\.conf`, where it matches the path.
unfoldable pub host_id : Digits → Text → Option ℕ
unfolding behind_family conf_number behind
host_id d path = elim (behind (codes "http/") path) [
  | none ↦ none
  | some name ↦ elim (behind_family name) [
    | none ↦ none
    | some number ↦ elim (behind (codes "-") number) [
      | none ↦ none
      | some rest ↦ conf_number d rest
    ]
  ]
]

unfoldable pub host_ids : Digits → Dict Text Text → List ℕ
host_ids d [] = []
host_ids d ((path, _) ∷ files) =
    let ids = host_ids d files in elim (host_id d path) [ none ↦ ids | some id ↦ Dict.add ids id ]

-- `f"{family}-{id}.conf"`
unfoldable pub file_name : Family → ℕ → Text
file_name family id = family_name family ++ (codes "-" ++ (str id ++ codes ".conf"))

conf_number-str :
    (d : Digits) (id : ℕ) → IsDecimal d → conf_number d (str id ++ codes ".conf") ≡ some id
unfolding conf_number read_digits text_eq
conf_number-str d id decimal =
    rw (read_digits-str d decimal id (codes ".conf"), conf_number, decimal.stop) refl

-- The id of a host is read back from the path of its file, whichever family the host belongs to.
pub host_id-file_name :
    (d : Digits) (family : Family) (id : ℕ)
    → IsDecimal d
    → host_id d (codes "http/" ++ file_name family id) ≡ some id
unfolding host_id file_name
host_id-file_name d proxy id decimal = conf_number-str d id decimal
host_id-file_name d redirection id decimal = conf_number-str d id decimal
host_id-file_name d dead id decimal = conf_number-str d id decimal
