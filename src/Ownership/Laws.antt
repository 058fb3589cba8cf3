-- ===== src/Ownership/Laws.antt =====
-- Ownership written and read, and the guard of a prune, in src/portwyrm/domain/ownership.py.
use portwyrm.Prelude.{
  ◌≡◌, ◌↔◌, refl, arith, false, List, [], ◌∷◌, Option, none, some, is_empty, All, Empty, is_empty,
  All, Empty,
}
use portwyrm.Prelude.Result.{ok}
use portwyrm.Prelude.Dict
use portwyrm.Prelude.Dict.{Dict}
use portwyrm.Prelude.Text.{Text, text_eq, strip}
use portwyrm.Ownership.{
  text, Meta, Ownership, managed_by_key, owner_key, resource_id_key, check_field, text, Meta,
  Ownership, managed_by_key, owner_key, resource_id_key, check_field, create, from_meta, apply_to,
  assert_mutable_by, assert_owner_scoped_prune,
}

-- No field is blank.
pub record IsNamed (o : Ownership) : Type 0 where
  pub managed_by_lem : is_empty (strip o.managed_by) ≡ false
  pub owner_lem : is_empty (strip o.owner) ≡ false
  pub resource_id_lem : is_empty (strip o.resource_id) ≡ false

create-IsNamed :
    (o : Ownership)
    → IsNamed o
    → create (some (text o.managed_by)) (some (text o.owner)) (some (text o.resource_id)) ≡ ok o
unfolding create check_field
create-IsNamed o named =
    let m = named.managed_by_lem in
    let w = named.owner_lem in let r = named.resource_id_lem in rw (m, w, r)

module _ (o : Ownership) (meta : Meta) where
  get-apply_to_managed_by : Dict.get (apply_to o meta) managed_by_key ≡ some (text o.managed_by)
  unfolding apply_to text_eq
  get-apply_to_managed_by = simp (Dict.get-put)

  get-apply_to_owner : Dict.get (apply_to o meta) owner_key ≡ some (text o.owner)
  unfolding apply_to text_eq
  get-apply_to_owner = simp (Dict.get-put)

  get-apply_to_resource_id : Dict.get (apply_to o meta) resource_id_key ≡ some (text o.resource_id)
  unfolding apply_to text_eq
  get-apply_to_resource_id = simp (Dict.get-put)

  -- An ownership with no blank field that is written into any `meta` object, over whatever stood
  -- there, is read back, and every other key of the object keeps its value.
  pub from_meta-apply_to :
      IsNamed o
      → (from_meta (apply_to o meta) ≡ ok (some o))
        × ((key : Text)
            → Dict.member (managed_by_key ∷ owner_key ∷ resource_id_key ∷ []) key ≡ false
            → Dict.get (apply_to o meta) key ≡ Dict.get meta key)
  unfolding from_meta apply_to Dict.member
  from_meta-apply_to named = (
    rw (
      get-apply_to_managed_by,
      get-apply_to_owner,
      get-apply_to_resource_id,
      create-IsNamed o named,
    ),
    λ key apart. grind (arith, Dict.get-put),
  )

-- A resource that the caller owns.
abbrev pub IsOwnedBy : Text → Text → Option Ownership → Type 0
IsOwnedBy managed_by owner none = Empty
IsOwnedBy managed_by owner (some o) = (o.managed_by ≡ managed_by) × (o.owner ≡ owner)

-- A prune goes ahead exactly when every selected resource is managed and owned by the caller.
pub assert_owner_scoped_prune_iff :
    (resources : List (Option Ownership)) (managed_by owner : Text)
    → (assert_owner_scoped_prune resources managed_by owner ≡ ok tt)
      ↔ All (IsOwnedBy managed_by owner) resources
unfolding assert_owner_scoped_prune assert_mutable_by
assert_owner_scoped_prune_iff [] managed_by owner = (λ h. tt, λ h. refl)
assert_owner_scoped_prune_iff (none ∷ resources) managed_by owner = (λ h. cc, λ h. elim h.0 [ ])
assert_owner_scoped_prune_iff (some o ∷ resources) managed_by owner =
    let rest = assert_owner_scoped_prune_iff resources managed_by owner in
    let m = text_eq.beq_iff o.managed_by managed_by in
    let w = text_eq.beq_iff o.owner owner in ground arith
