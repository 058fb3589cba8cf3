-- ===== src/Quic/Frames/Assembly.antt =====
-- `assemble_crypto` of src/portwyrm/runtime/quic_router.py against the stream that the CRYPTO
-- frames are pieces of.
use portwyrm.Prelude.{
  ℕ, ◌+◌, ◌-◌, ◌<◌, ◌≤◌, ◌≡◌, ◌⊎◌, inl, inr, refl, ap, ◌∙◌, [], ◌∷◌, ◌++◌, take, drop, length, leb,
  ltb, arith, All, Any, length-append, length-drop, drop-take, drop-drop, take-append-slice,
  take-length_self, take_of_length_le, Bool-cases, true, false,
}
use portwyrm.Quic.Bytes.{Bytes}
use portwyrm.Quic.Frames.{Fragments, insert_item, sorted_items, assemble_from, assemble_crypto}

-- The fragment stands in the stream at its offset.
abbrev pub IsPiece : Bytes → ℕ × Bytes → Type 0
IsPiece stream item = item.1 ≡ take (length item.1) (drop item.0 stream)

-- The fragment holds the byte at a position.
abbrev pub Covers : ℕ → ℕ × Bytes → Type 0
Covers i item = (item.0 ≤ i) × (i < item.0 + length item.1)

abbrev From : ℕ → ℕ × Bytes → Type 0
From n item = n ≤ item.0

abbrev IsSorted : Fragments → Type 0
IsSorted [] = Unit
IsSorted (item ∷ rest) = All (From item.0) rest × IsSorted rest

module _ (P : ℕ × Bytes → Type 0) where
  All-insert_item :
      (item : ℕ × Bytes) (l : Fragments) → P item → All P l → All P (insert_item item l)
  unfolding insert_item
  All-insert_item item [] p h = (p, tt)
  All-insert_item (o, f) ((o', f') ∷ l) p h = elim (Bool-cases (leb o o')) [
    | inl before ↦ rw before (p, h)
    | inr after ↦ rw after (h.0, All-insert_item (o, f) l p h.1)
  ]

  All-sorted_items : (l : Fragments) → All P l → All P (sorted_items l)
  unfolding sorted_items
  All-sorted_items [] h = tt
  All-sorted_items (item ∷ l) h = All-insert_item item (sorted_items l) h.0 (All-sorted_items l h.1)

  Any-insert_item :
      (item : ℕ × Bytes) (l : Fragments) → P item ⊎ Any P l → Any P (insert_item item l)
  unfolding insert_item
  Any-insert_item item [] h = h
  Any-insert_item (o, f) ((o', f') ∷ l) h = elim (Bool-cases (leb o o')) [
    | inl before ↦ rw before h
    | inr after ↦ rw after (elim h [
      | inl p ↦ inr (Any-insert_item (o, f) l (inl p))
      | inr (inl q) ↦ inl q
      | inr (inr r) ↦ inr (Any-insert_item (o, f) l (inr r))
    ])
  ]

  Any-sorted_items : (l : Fragments) → Any P l → Any P (sorted_items l)
  unfolding sorted_items
  Any-sorted_items [] h = h
  Any-sorted_items (item ∷ l) (inl p) = Any-insert_item item (sorted_items l) (inl p)
  Any-sorted_items (item ∷ l) (inr r) =
      Any-insert_item item (sorted_items l) (inr (Any-sorted_items l r))

From-le : (m n : ℕ) (l : Fragments) → m ≤ n → All (From n) l → All (From m) l
From-le m n [] h k = tt
From-le m n (item ∷ l) h k = (omega arith, From-le m n l h k.1)

insert_item-IsSorted :
    (item : ℕ × Bytes) (l : Fragments) → IsSorted l → IsSorted (insert_item item l)
unfolding insert_item
insert_item-IsSorted item [] h = (tt, tt)
insert_item-IsSorted (o, f) ((o', f') ∷ l) h = elim (Bool-cases (leb o o')) [
  | inl before ↦ let le : o ≤ o' = ground arith in rw before ((le, From-le o o' l le h.0), h)
  | inr after ↦
      rw after
        (All-insert_item (From o') (o, f) l (ground arith) h.0, insert_item-IsSorted (o, f) l h.1)
]

sorted_items-IsSorted : (l : Fragments) → IsSorted (sorted_items l)
unfolding sorted_items
sorted_items-IsSorted [] = tt
sorted_items-IsSorted (item ∷ l) =
    insert_item-IsSorted item (sorted_items l) (sorted_items-IsSorted l)

-- One more piece that begins within what is there.
extend_prefix :
    (stream assembled fragment : Bytes) (o : ℕ)
    → assembled ≡ take (length assembled) stream
    → IsPiece stream (o, fragment)
    → o ≤ length assembled
    → (assembled ++ drop (length assembled - o) fragment)
      ≡ take (length (assembled ++ drop (length assembled - o) fragment)) stream
extend_prefix stream assembled fragment o h k le =
    let n = length assembled in
    let m = length fragment - (n - o) in
    let tail : drop (n - o) fragment ≡ take m (drop n stream) =
      ap (drop (n - o)) k
      ∙ drop-take (n - o) (length fragment) (drop o stream)
      ∙ ap (take m) (drop-drop (n - o) o stream ∙ ap (λ i. drop i stream) (omega arith)) in
    take-length_self (n + m) stream (assembled ++ drop (n - o) fragment) (
      ap (λ l. l ++ drop (n - o) fragment) h
      ∙ ap (λ l. take n stream ++ l) tail
      ∙ take-append-slice n m stream)

module _ (stream : Bytes) where
  assemble_from-IsPrefix :
      (assembled : Bytes) (l : Fragments)
      → assembled ≡ take (length assembled) stream
      → All (IsPiece stream) l
      → assemble_from assembled l ≡ take (length (assemble_from assembled l)) stream
  unfolding assemble_from
  assemble_from-IsPrefix assembled [] h k = h
  assemble_from-IsPrefix assembled ((o, f) ∷ l) h k = elim (Bool-cases (ltb (length assembled) o)) [
    | inl gap ↦ rw gap h
    | inr near ↦ rw near (elim (Bool-cases (ltb (length assembled - o) (length f))) [
      | inl more ↦ rw more (
          assemble_from-IsPrefix (assembled ++ drop (length assembled - o) f) l
            (extend_prefix stream assembled f o h k.0 (ground arith)) k.1)
      | inr known ↦ rw known (assemble_from-IsPrefix assembled l h k.1)
    ])
  ]

  -- Nothing in a sorted rest holds a byte before its first offset.
  not_covered : (i n : ℕ) (l : Fragments) → i < n → All (From n) l → ¬ (Any (Covers i) l)
  not_covered i n [] h k c = elim c [ ]
  not_covered i n (item ∷ l) h k (inl c) = omega arith
  not_covered i n (item ∷ l) h k (inr c) = not_covered i n l h k.1 c

  assemble_from-length :
      (assembled : Bytes) (l : Fragments)
      → IsSorted l
      → ((i : ℕ) → i < length stream → (i < length assembled) ⊎ Any (Covers i) l)
      → length stream ≤ length (assemble_from assembled l)
  unfolding assemble_from
  assemble_from-length assembled [] sorted cover =
      elim (Bool-cases (leb (length stream) (length assembled))) [
        | inl done ↦ ground arith
        | inr open_end ↦ elim (cover (length assembled) (ground arith)) [
          | inl known ↦ absurd (omega arith)
          | inr none_left ↦ elim none_left [ ]
        ]
      ]
  assemble_from-length assembled ((o, f) ∷ l) sorted cover =
      elim (Bool-cases (ltb (length assembled) o)) [
        | inl gap ↦ rw gap (elim (Bool-cases (leb (length stream) (length assembled))) [
          | inl done ↦ ground arith
          | inr open_end ↦ elim (cover (length assembled) (ground arith)) [
            | inl known ↦ absurd (omega arith)
            | inr (inl here) ↦ absurd (ground (arith, here.0))
            | inr (inr later) ↦
                absurd (not_covered (length assembled) o l (ground arith) sorted.0 later)
          ]
        ])
        | inr near ↦ rw near (elim (Bool-cases (ltb (length assembled - o) (length f))) [
          | inl more ↦ rw more (
              assemble_from-length (assembled ++ drop (length assembled - o) f) l sorted.1 (λ i lt.
                elim (cover i lt) [
                  | inl known ↦
                      inl (omega (arith, length-append assembled (drop (length assembled - o) f)))
                  | inr (inl here) ↦ inl (grows o f i more near here)
                  | inr (inr later) ↦ inr later
                ]))
          | inr known ↦ rw known (
              assemble_from-length assembled l sorted.1 (λ i lt. elim (cover i lt) [
                | inl old ↦ inl old
                | inr (inl here) ↦ inl (ground (arith, here.0, here.1))
                | inr (inr later) ↦ inr later
              ]))
        ])
      ]
    where
      grows :
          (o : ℕ) (f : Bytes) (i : ℕ)
          → ltb (length assembled - o) (length f) ≡ true
          → ltb (length assembled) o ≡ false
          → Covers i (o, f)
          → i < length (assembled ++ drop (length assembled - o) f)
      grows o f i more near here =
          let long = length-append assembled (drop (length assembled - o) f) in
          let rest = length-drop (length assembled - o) f in ground arith

-- When every fragment is a piece of one stream and every byte of the stream is in some fragment,
-- the fragments assemble to the stream, in whatever order they came and however they overlap.
pub assemble_crypto_complete :
    (stream : Bytes) (fragments : Fragments)
    → All (IsPiece stream) fragments
    → ((i : ℕ) → i < length stream → Any (Covers i) fragments)
    → assemble_crypto fragments ≡ stream
unfolding assemble_crypto
assemble_crypto_complete stream fragments pieces cover =
    let sorted = sorted_items fragments in
    let result = assemble_from [] sorted in
    let enough =
      assemble_from-length stream [] sorted (sorted_items-IsSorted fragments)
        (λ i lt. inr (Any-sorted_items (Covers i) fragments (cover i lt))) in
    assemble_from-IsPrefix stream [] sorted refl
      (All-sorted_items (IsPiece stream) fragments pieces)
    ∙ take_of_length_le (length result) stream enough

-- From pieces of one stream only the beginning of that stream is assembled, whatever is missing.
pub assemble_crypto-IsPrefix :
    (stream : Bytes) (fragments : Fragments)
    → All (IsPiece stream) fragments
    → assemble_crypto fragments ≡ take (length (assemble_crypto fragments)) stream
unfolding assemble_crypto
assemble_crypto-IsPrefix stream fragments pieces =
    assemble_from-IsPrefix stream [] (sorted_items fragments) refl
      (All-sorted_items (IsPiece stream) fragments pieces)
