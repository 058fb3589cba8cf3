-- ===== src/Quic/Varint.antt =====
-- `_varint` of src/portwyrm/runtime/quic_router.py.
pub mod RoundTrip
use portwyrm.Prelude.{
  ℕ, ◌+◌, ◌*◌, ◌/◌, ◌%◌, ◌^◌, ◌<◌, ◌≤◌, ◌≡◌, arith, some, none, get_elem?, slice, length, ltb,
  if◌then◌else◌, Option-cases, inl, inr, get_elem?-lt,
}
use native.Mathlib.Nat.{one-le-pow}
use portwyrm.Prelude.Result.{ok, err}
use portwyrm.Quic.Bytes.{Bytes, Parsed, QuicError, from_bytes_acc, parse}

-- The length in the two high bits, the value in the other bits. Bytes are below 256, so that
-- `>> 6`, `& 0x3F` and `(value << 8) | byte` are a quotient, a remainder and a sum.
unfoldable pub varint : Bytes → ℕ → Parsed (ℕ × ℕ)
varint input offset = elim (get_elem? input offset) [
  | none ↦ err parse
  | some first ↦
      let size = 2 ^ (first / 64) in
      if ltb (length input) (offset + size)
      then err parse
      else ok
          (from_bytes_acc (first % 64) (slice input (offset + 1) (offset + size)), offset + size)
]

-- A read moves the offset forward, and not past the end.
pub varint_bounds :
    (input : Bytes) (offset : ℕ) {value next : ℕ}
    → varint input offset ≡ ok (value, next)
    → (offset < next) × (next ≤ length input)
unfolding varint
varint_bounds input offset h = elim (Option-cases (get_elem? input offset)) [
  | inl missing ↦ cc (rw (missing, varint) at h)
  | inr (first, found) ↦
      let read = rw (found, varint) at h in
      let pos = one-le-pow (first / 64) 2 (omega arith) in ground arith
]
