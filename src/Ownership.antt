-- ===== src/Ownership.antt =====
-- src/portwyrm/domain/ownership.py: who may change a resource.
pub mod Laws
use portwyrm.Prelude.{
  ◌≡◌, Bool, true, false, not, ◌&&◌, ◌||◌, List, [], ◌∷◌, Option, none, some, if◌then◌else◌, ◌==◌,
  is_empty,
}
use portwyrm.Prelude.Result.{Result, ok, err, ◌>>=◌, ◌>>◌, guard}
use portwyrm.Prelude.Dict
use portwyrm.Prelude.Dict.{Dict}
use portwyrm.Prelude.Text.{Text, text_eq, codes, strip}

-- A value of the `meta` object: a text, or anything else.
pub data MetaValue : Type 0 where
  text : Text → MetaValue
  other : MetaValue

abbrev pub Meta : Type 0
Meta = Dict Text MetaValue

pub record Ownership : Type 0 where
  pub managed_by : Text
  pub owner : Text
  pub resource_id : Text

-- The two messages of `DomainValidationError`, and those of `OwnershipError`.
pub data OwnershipIssue : Type 0 where
  not_a_text : Text → OwnershipIssue
  partial_keys unmanaged : OwnershipIssue
  owned_by : Text → Text → OwnershipIssue

abbrev pub managed_by_key : Text
managed_by_key = codes "managed_by"

abbrev pub owner_key : Text
owner_key = codes "owner"

abbrev pub resource_id_key : Text
resource_id_key = codes "resource_id"

-- One round of `__post_init__`.
unfoldable pub check_field : Text → Option MetaValue → Result OwnershipIssue Text
check_field name none = err (not_a_text name)
check_field name (some other) = err (not_a_text name)
check_field name (some (text value)) =
    if is_empty (strip value) then err (not_a_text name) else ok value

unfoldable pub create :
    Option MetaValue → Option MetaValue → Option MetaValue → Result OwnershipIssue Ownership
unfolding check_field
create managed_by owner resource_id = check_field managed_by_key managed_by >>= λ m.
    check_field owner_key owner >>= λ o. check_field resource_id_key resource_id >>= λ r.
    ok (record { managed_by = m; owner = o; resource_id = r })

unfoldable pub from_meta : Meta → Result OwnershipIssue (Option Ownership)
unfolding create
from_meta meta =
    let m = Dict.has meta managed_by_key in
    let o = Dict.has meta owner_key in
    let r = Dict.has meta resource_id_key in
    if not (m || o || r)
    then ok none
    else if not (m && o && r)
    then err partial_keys
    else (create (Dict.get meta managed_by_key) (Dict.get meta owner_key)
          (Dict.get meta resource_id_key)
        >>= λ ownership. ok (some ownership))

-- The argument that is left out is the empty `meta`.
unfoldable pub apply_to : Ownership → Meta → Meta
apply_to ownership meta =
    Dict.put
      (Dict.put (Dict.put meta managed_by_key (text ownership.managed_by)) owner_key
        (text ownership.owner))
      resource_id_key (text ownership.resource_id)

unfoldable pub assert_mutable_by : Ownership → Text → Text → Bool → Result OwnershipIssue Unit
assert_mutable_by ownership managed_by owner adopt =
    if ownership.managed_by == managed_by && ownership.owner == owner
    then ok tt
    else if adopt
    then ok tt
    else err (owned_by ownership.managed_by ownership.owner)

unfoldable pub assert_owner_scoped_prune :
    List (Option Ownership) → Text → Text → Result OwnershipIssue Unit
unfolding assert_mutable_by
assert_owner_scoped_prune [] managed_by owner = ok tt
assert_owner_scoped_prune (none ∷ resources) managed_by owner = err unmanaged
assert_owner_scoped_prune (some ownership ∷ resources) managed_by owner =
    assert_mutable_by ownership managed_by owner false
    >> assert_owner_scoped_prune resources managed_by owner
