-- ===== src/Tokens/Permissions.antt =====
-- `permission_allows` of src/portwyrm/identity/permissions.py.
use portwyrm.Prelude.{Bool, true, false, ◌==◌, get_or_else, Bool, true, false, ◌==◌, get_or_else}
use portwyrm.Prelude.Dict
use portwyrm.Prelude.Dict.{Dict}
use portwyrm.Prelude.Text.{Text, text_eq, codes}

-- What a permission map holds for a section: one of the three levels, a map of actions, nothing, or
-- any other value.
pub data Grant : Type 0 where
  manage view hidden missing other : Grant
  actions : Dict Text Bool → Grant

unfoldable pub permission_allows : Grant → Text → Bool
permission_allows manage action = true
permission_allows view action = action == codes "read"
permission_allows hidden action = false
permission_allows missing action = false
permission_allows other action = false
permission_allows (actions granted) action = get_or_else (Dict.get granted action) false

-- `permissions.get(section)`
abbrev pub grant_of : Dict Text Grant → Text → Grant
grant_of permissions section = get_or_else (Dict.get permissions section) missing
