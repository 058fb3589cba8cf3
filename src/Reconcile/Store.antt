-- ===== src/Reconcile/Store.antt =====
-- `GenerationStore` of src/portwyrm/runtime/reconcile.py. The directory `generations` is a map from
-- names to trees of files, the file `ACTIVE` a text or absent, the directory `failed` a map.
use portwyrm.Prelude.{
  ℕ, Bool, true, false, ◌&&◌, ◌||◌, List, [], ◌∷◌, ◌++◌, Option, none, some, ◌==◌, nat_eq,
  if◌then◌else◌, is_empty, any, take, contains,
}
use portwyrm.Prelude.Result.{Result, ok, err, ◌>>=◌}
use portwyrm.Prelude.Dict
use portwyrm.Prelude.Dict.{Dict}
use portwyrm.Prelude.Text.{Text, text_eq, texts_eq, codes, strip, rstrip, text_leb, encode}

-- `ReconcileError` by its causes, and an `OSError` of a file that is written over a directory or
-- below a file.
pub data ReconcileError : Type 0 where
  unsafe_path no_generation failure : Text → ReconcileError
  os_error : ReconcileError

-- The files of a generation by the parts of their paths.
abbrev pub Tree : Type 0
Tree = Dict (List Text) Text

pub record Store : Type 0 where
  pub generations : Dict Text Tree
  pub active : Option Text
  pub failed : Dict Text Text

-- `PurePosixPath(name).parts` of a relative path: the pieces between slashes but "" and ".".
unfoldable pub close_part : Text → List Text → List Text
close_part part rest = if is_empty part || part == codes "." then rest else part ∷ rest

unfoldable pub split_parts : Text → Text → List Text
unfolding close_part
split_parts part [] = close_part part []
split_parts part (c ∷ name) =
    let ended = close_part part (split_parts [] name) in
    let longer = split_parts (part ++ c ∷ []) name in if c == b'/' then ended else longer

unfoldable pub is_absolute : Text → Bool
is_absolute [] = false
is_absolute (c ∷ _) = c == b'/'

unfoldable pub safe_relative : Text → Result ReconcileError (List Text)
unfolding split_parts is_absolute
safe_relative name =
    let parts = split_parts [] name in
    if is_absolute name || contains parts (codes "..") || is_empty parts
    then err (unsafe_path name)
    else ok parts

-- `sorted(files.items())`: the names are all different.
unfoldable pub insert_file : Text × Text → Dict Text Text → Dict Text Text
insert_file f [] = f ∷ []
insert_file f (g ∷ files) = if text_leb f.0 g.0 then f ∷ g ∷ files else g ∷ insert_file f files

unfoldable pub sort_files : Dict Text Text → Dict Text Text
unfolding insert_file
sort_files [] = []
sort_files (f ∷ files) = insert_file f (sort_files files)

-- What `generation_id` feeds the digest with.
unfoldable pub digest_input : Dict Text Text → Result ReconcileError (List ℕ)
digest_input [] = ok []
digest_input ((name, contents) ∷ files) = safe_relative name >>= λ _.
    digest_input files >>= λ rest. ok (encode name ++ (0 ∷ encode contents ++ (0 ∷ rest)))

-- `target.write_text` below a new directory: a file is in the way of a directory, or the reverse.
unfoldable pub is_below : List Text → List Text → Bool
is_below [] [] = false
is_below [] (y ∷ ys) = true
is_below (x ∷ xs) [] = false
is_below (x ∷ xs) (y ∷ ys) = x == y && is_below xs ys

unfoldable pub write_file : List Text → Text → Tree → Result ReconcileError Tree
unfolding is_below
write_file parts contents tree =
    if any (λ entry. is_below entry.0 parts || is_below parts entry.0) tree
    then err os_error
    else ok (Dict.put tree parts contents)

-- The loop of `stage`.
unfoldable pub write_files : Tree → Dict Text Text → Result ReconcileError Tree
unfolding write_file
write_files tree [] = ok tree
write_files tree ((name, contents) ∷ files) = safe_relative name >>= λ parts.
    write_file parts contents tree >>= λ written. write_files written files

-- A generation that is there is not written again; one that cannot be written leaves nothing.
unfoldable pub stage : Text → Dict Text Text → Store → Result ReconcileError (Store × Bool)
unfolding write_files
stage id files store =
    if Dict.has store.generations id
    then ok (store, false)
    else (write_files [] (sort_files files) >>= λ tree.
        ok (record store { generations = Dict.put store.generations id tree }, true))

unfoldable pub active_id : Store → Option Text
active_id store = elim store.active [
  | none ↦ none
  | some contents ↦ let value = strip contents in if is_empty value then none else some value
]

unfoldable pub activate : Text → Store → Result ReconcileError Store
activate id store =
    if Dict.has store.generations id
    then ok (record store { active = some (id ++ codes "\n") })
    else err (no_generation id)

unfoldable pub clear_active : Store → Store
clear_active store = record store { active = none }

unfoldable pub record_failure : Text → Text → Store → Store
record_failure id diagnostic store = record store {
  failed = Dict.put store.failed id (rstrip diagnostic ++ codes "\n");
}

-- `hexdigest` of SHA-256 comes from outside.
module _ (hexdigest : List ℕ → Text) where
  unfoldable pub generation_id : Dict Text Text → Result ReconcileError Text
  unfolding digest_input sort_files
  generation_id files =
      digest_input (sort_files files) >>= λ message. ok (take 20 (hexdigest message))
