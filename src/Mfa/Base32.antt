-- ===== src/Mfa/Base32.antt =====
-- `_decode_base32` of src/portwyrm/identity/mfa.py, with Python's `b32decode`.
use portwyrm.Prelude.{
  ℕ, zero, suc, ◌+◌, ◌-◌, ◌*◌, ◌/◌, ◌%◌, ◌^◌, true, false, not, ◌&&◌, ◌||◌, [], ◌∷◌, ◌++◌, Option,
  none, some, if◌then◌else◌, ◌==◌, nat_eq, leb, length, contains, is_empty, take,
}
use portwyrm.Prelude.Text.{Text, is_space}
use portwyrm.Quic.Bytes.{Bytes, to_bytes}

-- `"".join(t.split())`
unfoldable pub without_spaces : Text → Text
without_spaces [] = []
without_spaces (c ∷ t) = let rest = without_spaces t in if is_space c then rest else c ∷ rest

-- `"=" * n`
unfoldable pub equals_signs : ℕ → Text
equals_signs zero = []
equals_signs (suc n) = b'=' ∷ equals_signs n

-- `t.rstrip("=")`
unfoldable pub without_padding : Text → Text
without_padding [] = []
without_padding (c ∷ t) =
    let rest = without_padding t in if c == b'=' && is_empty rest then [] else c ∷ rest

-- The value of a digit.
unfoldable pub digit_value : ℕ → Option ℕ
digit_value c =
    if leb b'A' c && leb c b'Z'
    then some (c - b'A')
    else if leb b'2' c && leb c b'7'
    then some (c - b'2' + 26)
    else none

-- The bytes of the digits from a quantum on, eight digits to five bytes, where `count` digits with the
-- value `acc` have been read; a last quantum is filled up with zeros.
unfoldable pub quanta : ℕ → ℕ → Text → Option Bytes
unfolding digit_value to_bytes
quanta count acc [] = if count == 0 then some [] else some (to_bytes 5 (acc * 32 ^ (8 - count)))
quanta count acc (c ∷ t) = elim (digit_value c) [
  | none ↦ none
  | some d ↦
      let value = acc * 32 + d in
      elim (count == 7) [
        | true ↦ elim (quanta 0 0 t) [ none ↦ none | some bytes ↦ some (to_bytes 5 value ++ bytes) ]
        | false ↦ quanta (count + 1) value t
      ]
]

-- `b32decode`: the padding says how many bytes of the last quantum count.
unfoldable pub b32decode : Text → Option Bytes
unfolding without_padding quanta
b32decode t =
    let digits = without_padding t in
    let padding = length t - length digits in
    if not (length t % 8 == 0) || not (contains (0 ∷ 1 ∷ 3 ∷ 4 ∷ 6 ∷ []) padding)
    then none
    else elim (quanta 0 0 digits) [
      | none ↦ none
      | some bytes ↦
          if padding == 0
          then some bytes
          else some (take (length bytes - (5 - (43 - 5 * padding) / 8)) bytes)
    ]

-- `upper` is `str.upper`.
unfoldable pub decode_base32 : (Text → Text) → Text → Option Bytes
unfolding without_spaces equals_signs b32decode
decode_base32 upper secret =
    let normalized = without_spaces (upper secret) in
    b32decode (normalized ++ equals_signs ((8 - length normalized % 8) % 8))
