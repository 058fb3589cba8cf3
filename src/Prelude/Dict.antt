-- ===== src/Prelude/Dict.antt =====
-- Python's dict, as an association list in insertion order (an update keeps the place of its key),
-- and Python's set of keys, as a list with no repetition.
use Prim.Native.Nat.{◌≤◌, ◌+◌}
use mathlib.Core.Path.{◌≡◌, refl}
use mathlib.Core.Bool.{Bool, true, false, ◌||◌}
use mathlib.Core.Option.{Option, none, some}
use mathlib.Core.List.{List, [], ◌∷◌, ◌++◌}
use native.Mathlib.Omega.{arith}
use portwyrm.Prelude.Tests.{if◌then◌else◌, is_some}
use portwyrm.Prelude.Lists.{length, is_empty, All}
use portwyrm.Prelude.Classes.{Eq, ◌==◌}

abbrev pub Dict {ℓ κ} : Type ℓ → Type κ → Type (ℓ ⊔ κ)
Dict K V = List (K × V)

module _ {ℓ κ} {K : Type ℓ} {V : Type κ} ⦃e : Eq K⦄ where
  unfoldable pub get : Dict K V → K → Option V
  get [] k = none
  get ((j, v) ∷ d) k = if j == k then some v else get d k

  -- `d[k] = v`
  unfoldable pub put : Dict K V → K → V → Dict K V
  put [] k v = (k, v) ∷ []
  put ((j, w) ∷ d) k v = if j == k then (j, v) ∷ d else (j, w) ∷ put d k v

  -- `d.pop(k, None)` without its result
  unfoldable pub pop : Dict K V → K → Dict K V
  pop [] k = []
  pop ((j, v) ∷ d) k = let rest = pop d k in if j == k then rest else (j, v) ∷ rest

  -- `k in d`
  abbrev pub has : Dict K V → K → Bool
  has d k = is_some (get d k)

  -- `d.setdefault(k, v)` without its result
  abbrev pub set_default : Dict K V → K → V → Dict K V
  set_default d k v = if has d k then d else put d k v

  pub get-put :
      (d : Dict K V) (k j : K) (v : V) → get (put d k v) j ≡ (if k == j then some v else get d j)
  unfolding get put
  get-put [] k j v = refl
  get-put ((i, w) ∷ d) k j v =
      ground (arith, get-put d k j v, e.beq_iff k j, e.beq_iff i k, e.beq_iff i j)

  pub get-pop : (d : Dict K V) (k j : K) → get (pop d k) j ≡ (if k == j then none else get d j)
  unfolding get pop
  get-pop [] k j = ground arith
  get-pop ((i, w) ∷ d) k j =
      ground (arith, get-pop d k j, e.beq_iff k j, e.beq_iff i k, e.beq_iff i j)

  pub length-put-le : (d : Dict K V) (k : K) (v : V) → length (put d k v) ≤ length d + 1
  unfolding put
  length-put-le [] k v = omega arith
  length-put-le ((i, w) ∷ d) k v = ground (arith, length-put-le d k v)

  -- An update of a key that is there adds no entry.
  pub length-put_of_has :
      (d : Dict K V) (k : K) (v : V) → has d k ≡ true → length (put d k v) ≡ length d
  unfolding get put
  length-put_of_has [] k v h = cc
  length-put_of_has ((i, w) ∷ d) k v h = ground (arith, length-put_of_has d k v)

  pub length-pop-le : (d : Dict K V) (k : K) → length (pop d k) ≤ length d
  unfolding pop
  length-pop-le [] k = omega arith
  length-pop-le ((i, w) ∷ d) k = ground (arith, length-pop-le d k)

module _ {ℓ} {K : Type ℓ} ⦃e : Eq K⦄ where
  -- `k in s`
  unfoldable pub member : List K → K → Bool
  member [] k = false
  member (j ∷ s) k = j == k || member s k

  -- `s.add(k)`
  unfoldable pub add : List K → K → List K
  unfolding member
  add s k = if member s k then s else s ++ k ∷ []

  -- `s.discard(k)`
  unfoldable pub discard : List K → K → List K
  discard [] k = []
  discard (j ∷ s) k = let rest = discard s k in if j == k then rest else j ∷ rest

  pub member-append : (s : List K) (k j : K) → member (s ++ k ∷ []) j ≡ (member s j || k == j)
  unfolding member
  member-append [] k j = ground arith
  member-append (i ∷ s) k j = ground (arith, member-append s k j)

  pub member-add : (s : List K) (k j : K) → member (add s k) j ≡ (k == j || member s j)
  unfolding add
  member-add s k j = ground (arith, member-append s k j, e.beq_iff k j)

  pub member-discard :
      (s : List K) (k j : K) → member (discard s k) j ≡ (if k == j then false else member s j)
  unfolding member discard
  member-discard [] k j = ground arith
  member-discard (i ∷ s) k j =
      ground (arith, member-discard s k j, e.beq_iff k j, e.beq_iff i k, e.beq_iff i j)

  pub member-nil : (k : K) → member [] k ≡ false
  unfolding member
  member-nil k = refl

  pub member_of_is_empty : (s : List K) (k : K) → is_empty s ≡ true → member s k ≡ false
  unfolding member
  member_of_is_empty [] k h = refl
  member_of_is_empty (j ∷ s) k h = cc

  pub is_empty-add : (s : List K) (k : K) → is_empty (add s k) ≡ false
  unfolding add member
  is_empty-add [] k = refl
  is_empty-add (j ∷ s) k = ground arith

module _ {ℓ κ} {K : Type ℓ} {V : Type κ} ⦃e : Eq K⦄ where
  -- What holds of every key of a dict holds of every entry.
  pub All-of_has {ι} :
      (P : K → Type ι) (d : Dict K V)
      → ((k : K) → has d k ≡ true → P k)
      → All (λ entry. P entry.0) d
  unfolding get
  All-of_has P [] h = tt
  All-of_has P ((j, v) ∷ d) h = (
    h j (ground (arith, e.beq_iff j j)),
    All-of_has P d (λ k there. h k (ground (arith, e.beq_iff j k))),
  )
