-- ===== src/Lifecycle/Show.antt =====
-- `enforce_visibility` of src/portwyrm/tables/lifecycle.py: the hook behind a handler.
use portwyrm.Prelude.{
  ℕ, ◌≡◌, arith, Bool, true, false, ◌||◌, List, [], ◌∷◌, Option, none, some, String, string_eq,
  ◌==◌, nat_eq, if◌then◌else◌, contains, All, Bool-cases, inl, inr,
}
use portwyrm.Prelude.Result.{Result, ok, err}
use portwyrm.Lifecycle.Context.{Issue, not_found, Principal}

-- A result that is shown: the id of its owner, where it has one. The rest does not matter.
pub record Shown : Type 0 where
  pub key : ℕ
  pub owner_id : Option ℕ

-- A page, a list, one resource, or None.
pub data Reply : Type 0 where
  page : List Shown → Reply
  rows : List Shown → Reply
  single : Shown → Reply
  nothing : Reply

unfoldable pub visible_to : Option Principal → Option ℕ → Shown → Bool
visible_to principal caller shown =
    let all_seen : Bool = elim principal [
      | none ↦ false
      | some p ↦ p.is_admin || p.visibility == "all"
    ] in
    let own : Bool = elim shown.owner_id [
      | none ↦ true
      | some o ↦ elim caller [ none ↦ true | some i ↦ o == i ]
    ] in
    all_seen || own

unfoldable pub keep_visible : Option Principal → Option ℕ → List Shown → List Shown
keep_visible principal caller [] = []
keep_visible principal caller (shown ∷ rest) =
    let kept = keep_visible principal caller rest in
    if visible_to principal caller shown then shown ∷ kept else kept

unfoldable pub enforce_visibility :
    String → Option Principal → Option ℕ → Reply → Result Issue Reply
unfolding keep_visible
enforce_visibility alias none caller reply = ok reply
enforce_visibility alias (some p) caller reply =
    let filtered : Result Issue Reply = elim reply [
      | page items ↦ ok (page (keep_visible (some p) caller items))
      | rows items ↦ ok (rows (keep_visible (some p) caller items))
      | single shown ↦ if visible_to (some p) caller shown then ok (single shown) else err not_found
      | nothing ↦ ok nothing
    ] in
    if contains ("read" ∷ "list" ∷ "health_read" ∷ "health_list" ∷ []) alias
    then filtered
    else ok reply

-- The resources of a reply.
abbrev pub shown_of : Reply → List Shown
shown_of (page items) = items
shown_of (rows items) = items
shown_of (single shown) = shown ∷ []
shown_of nothing = []

-- The resource is nobody's or the caller's.
abbrev pub IsOpenTo : ℕ → Shown → Type 0
IsOpenTo i shown = (o : ℕ) → shown.owner_id ≡ some o → o ≡ i

keep_visible-IsOpenTo :
    (p : Principal) (i : ℕ) (items : List Shown)
    → p.is_admin ≡ false
    → (p.visibility == "all") ≡ false
    → All (IsOpenTo i) (keep_visible (some p) (some i) items)
unfolding keep_visible visible_to
keep_visible-IsOpenTo p i [] plain own = tt
keep_visible-IsOpenTo p i (shown ∷ items) plain own =
    elim (Bool-cases (visible_to (some p) (some i) shown)) [
      | inr hid ↦ rw hid (keep_visible-IsOpenTo p i items plain own)
      | inl seen ↦ rw seen ((λ o owned. ground arith), keep_visible-IsOpenTo p i items plain own)
    ]

-- A caller with an id that is no administrator and does not see all is shown, by any read or list,
-- only resources that are nobody's or its own.
pub enforce_visibility-IsOpenTo :
    (alias : String) (p : Principal) (i : ℕ) (reply out : Reply)
    → contains ("read" ∷ "list" ∷ "health_read" ∷ "health_list" ∷ []) alias ≡ true
    → p.is_admin ≡ false
    → (p.visibility == "all") ≡ false
    → enforce_visibility alias (some p) (some i) reply ≡ ok out
    → All (IsOpenTo i) (shown_of out)
unfolding enforce_visibility
enforce_visibility-IsOpenTo alias p i (page items) out reads plain own h =
    let e : page (keep_visible (some p) (some i) items) ≡ out = cc (rw reads at h) in
    rw (← e) (keep_visible-IsOpenTo p i items plain own)
enforce_visibility-IsOpenTo alias p i (rows items) out reads plain own h =
    let e : rows (keep_visible (some p) (some i) items) ≡ out = cc (rw reads at h) in
    rw (← e) (keep_visible-IsOpenTo p i items plain own)
enforce_visibility-IsOpenTo alias p i (single shown) out reads plain own h =
    elim (Bool-cases (visible_to (some p) (some i) shown)) [
      | inr hid ↦ cc (rw (reads, hid) at h)
      | inl seen ↦
          let e : single shown ≡ out = cc (rw (reads, seen) at h) in
          rw (← e) ((λ o owned. unfold visible_to in ground arith), tt)
    ]
enforce_visibility-IsOpenTo alias p i nothing out reads plain own h =
    let e : nothing ≡ out = cc (rw reads at h) in rw (← e) tt
