-- ===== src/Tests/Small.antt =====
-- Backup codes of src/portwyrm/identity/mfa.py at concrete inputs.
use portwyrm.Prelude.{refl, ◌≡◌, string_eq, Bool, true, List, [], ◌∷◌, ◌==◌}
use portwyrm.Prelude.Text.{Text, text_eq, codes}
use portwyrm.Backup.{consume_backup_code}

abbrev same : Text → Text → Bool
same stored code = stored == code

abbrev hashes : List Text
hashes = codes "aa" ∷ codes "bb" ∷ []

test_consume_backup_code : consume_backup_code same (codes "bb") hashes ≡ (true, codes "aa" ∷ [])
unfolding consume_backup_code text_eq
test_consume_backup_code = refl
