-- ===== src/Quic/Bytes.antt =====
-- src/portwyrm/runtime/quic_router.py: bytes, texts and exceptions of the parser.
use portwyrm.Prelude.{
  ℕ, zero, suc, ◌+◌, ◌*◌, ◌<◌, ◌/◌, ◌%◌, List, [], ◌∷◌, ◌++◌, Bool, leb, ltb, if◌then◌else◌, all,
}
use portwyrm.Prelude.Result.{Result, ok, err}

-- A `bytes` value: numbers below 256. A text: its code points.
abbrev pub Bytes : Type 0
Bytes = List ℕ

abbrev pub Text : Type 0
Text = List ℕ

abbrev pub IsByte : ℕ → Type 0
IsByte b = b < 256

-- What the parser raises: `QuicParseError`, `IndexError`, `UnicodeDecodeError`. `fuel` is no
-- exception of the program: it marks a loop of the model that ran out of fuel.
pub data QuicError : Type 0 where
  parse index unicode fuel : QuicError

abbrev pub Parsed : Type 0 → Type 0
Parsed A = Result QuicError A

-- `int.from_bytes(data, "big")` after the digits read so far.
unfoldable pub from_bytes_acc : ℕ → Bytes → ℕ
from_bytes_acc value [] = value
from_bytes_acc value (b ∷ bs) = from_bytes_acc (value * 256 + b) bs

abbrev pub from_bytes : Bytes → ℕ
from_bytes bs = from_bytes_acc 0 bs

-- `value.to_bytes(size, "big")` of a value that fits.
unfoldable pub to_bytes : ℕ → ℕ → Bytes
to_bytes zero value = []
to_bytes (suc size) value = to_bytes size (value / 256) ++ (value % 256) ∷ []

-- `byte & 0x80`, as a test: the form bit of a long header.
abbrev pub is_long : ℕ → Bool
is_long b = leb 128 b

-- `data.decode("ascii")`
abbrev pub decode_ascii : Bytes → Parsed Text
decode_ascii bs = if all (λ b. ltb b 128) bs then ok bs else err unicode
