-- ===== src/Quic/Varint/RoundTrip.antt =====
-- The variable-length integers of RFC 9000, section 16, and `_varint` as their decoder.
use portwyrm.Prelude.{
  ℕ, ◌+◌, ◌/◌, ◌%◌, ◌^◌, ◌<◌, ◌≡◌, arith, [], ◌∷◌, ◌++◌, some, get_elem?, length, ltb,
  if◌then◌else◌, length-append, get_elem?-append, slice-append, Bool-cases, inl, inr,
}
use native.Mathlib.Nat.{add-zero}
use portwyrm.Prelude.Result.{ok}
use portwyrm.Quic.Bytes.{Bytes, from_bytes_acc}
use portwyrm.Quic.Varint.{varint}

-- The shortest encoding: one, two, four or eight bytes, the length in the two high bits.
unfoldable pub encode_varint : ℕ → Bytes
encode_varint v =
    if ltb v (2 ^ 6)
    then v ∷ []
    else if ltb v (2 ^ 14)
    then (64 + v / 256) ∷ (v % 256) ∷ []
    else if ltb v (2 ^ 30)
    then (128 + v / 2 ^ 24) ∷ (v / 2 ^ 16 % 256) ∷ (v / 2 ^ 8 % 256) ∷ (v % 256) ∷ []
    else (192 + v / 2 ^ 56)
      ∷ (v / 2 ^ 48 % 256)
      ∷ (v / 2 ^ 40 % 256)
      ∷ (v / 2 ^ 32 % 256)
      ∷ (v / 2 ^ 24 % 256)
      ∷ (v / 2 ^ 16 % 256)
      ∷ (v / 2 ^ 8 % 256)
      ∷ (v % 256)
      ∷ []

-- `_varint` at the start of a list is `_varint` behind any prefix.
varint-append :
    (pre xs : Bytes) (v next : ℕ)
    → varint xs 0 ≡ ok (v, next)
    → varint (pre ++ xs) (length pre) ≡ ok (v, length pre + next)
unfolding varint
varint-append pre [] v next h = cc
varint-append pre (x ∷ xs) v next h =
    let size = 2 ^ (x / 64) in
    let first : get_elem? (pre ++ x ∷ xs) (length pre) ≡ some x =
      rw (← add-zero (length pre)) (get_elem?-append pre (x ∷ xs) 0) in
    rw (first, varint)
      (rw (slice-append pre (x ∷ xs) 1 size)
        (ground (arith, length-append pre (x ∷ xs), slice-append pre (x ∷ xs) 1 size)))

one_byte : (v : ℕ) (rest : Bytes) → v < 2 ^ 6 → varint (v ∷ rest) 0 ≡ ok (v, 1)
unfolding varint from_bytes_acc
one_byte v rest h = let e : v / 64 ≡ 0 = omega arith in rw e (ground arith)

two_bytes :
    (v : ℕ) (rest : Bytes) → v < 2 ^ 14 → varint ((64 + v / 256) ∷ (v % 256) ∷ rest) 0 ≡ ok (v, 2)
unfolding varint from_bytes_acc
two_bytes v rest h = let e : (64 + v / 256) / 64 ≡ 1 = omega arith in rw e (ground arith)

four_bytes :
    (v : ℕ) (rest : Bytes)
    → v < 2 ^ 30
    → varint ((128 + v / 2 ^ 24) ∷ (v / 2 ^ 16 % 256) ∷ (v / 2 ^ 8 % 256) ∷ (v % 256) ∷ rest) 0
      ≡ ok (v, 4)
unfolding varint from_bytes_acc
four_bytes v rest h = let e : (128 + v / 2 ^ 24) / 64 ≡ 2 = omega arith in rw e (ground arith)

eight_bytes :
    (v : ℕ) (rest : Bytes)
    → v < 2 ^ 62
    → varint
        ((192 + v / 2 ^ 56)
          ∷ (v / 2 ^ 48 % 256)
          ∷ (v / 2 ^ 40 % 256)
          ∷ (v / 2 ^ 32 % 256)
          ∷ (v / 2 ^ 24 % 256)
          ∷ (v / 2 ^ 16 % 256)
          ∷ (v / 2 ^ 8 % 256)
          ∷ (v % 256)
          ∷ rest)
        0
      ≡ ok (v, 8)
unfolding varint from_bytes_acc
eight_bytes v rest h = let e : (192 + v / 2 ^ 56) / 64 ≡ 3 = omega arith in rw e (ground arith)

at_start :
    (v : ℕ) (rest : Bytes)
    → v < 2 ^ 62
    → varint (encode_varint v ++ rest) 0 ≡ ok (v, length (encode_varint v))
unfolding encode_varint
at_start v rest h = elim (Bool-cases (ltb v (2 ^ 6))) [
  | inl a ↦ rw a (one_byte v rest (ground arith))
  | inr a ↦ rw a (elim (Bool-cases (ltb v (2 ^ 14))) [
    | inl b ↦ rw b (two_bytes v rest (ground arith))
    | inr b ↦ rw b (elim (Bool-cases (ltb v (2 ^ 30))) [
      | inl c ↦ rw c (four_bytes v rest (ground arith))
      | inr c ↦ rw c (eight_bytes v rest h)
    ])
  ])
]

-- Decoding after encoding, at any place in a packet: a value below 2 ^ 62 comes back, and the
-- offset moves by the length of the encoding.
pub varint-encode_varint :
    (pre rest : Bytes) (v : ℕ)
    → v < 2 ^ 62
    → varint (pre ++ (encode_varint v ++ rest)) (length pre)
      ≡ ok (v, length pre + length (encode_varint v))
varint-encode_varint pre rest v h =
    varint-append pre (encode_varint v ++ rest) v (length (encode_varint v)) (at_start v rest h)
