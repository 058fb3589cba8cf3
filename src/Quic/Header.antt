-- ===== src/Quic/Header.antt =====
-- src/portwyrm/runtime/quic_router.py: key derivation, `decrypt_initial` and
-- `initial_connection_ids`.
pub mod Safety
use Prim.Native.Nat.{bit_xor}
use Prim.Native.Char.{code}
use Prim.Native.String
use Prim.Native.String.{String}
use portwyrm.Prelude.{
  ℕ, zero, suc, ◌+◌, ◌-◌, ◌/◌, ◌%◌, ◌<◌, ◌≤◌, ◌≡◌, ◌||◌, ◌&&◌, not, refl, Bool, true, false, List,
  [], ◌∷◌, ◌++◌, map, arith, Option, none, some, get_elem?, slice, take, drop, length, leb, ltb,
  if◌then◌else◌, ◌==◌, nat_eq,
}
use portwyrm.Prelude.Result.{Result, ok, err, ◌>>=◌, ◌>>◌, guard, or_raise}
use portwyrm.Quic.Bytes.{
  Bytes, Parsed, QuicError, parse, index, fuel, from_bytes, to_bytes, is_long,
}
use portwyrm.Quic.Varint.{varint}

-- The primitives of `hmac`, `hashlib` and `cryptography`: HMAC-SHA256 gives 32 bytes, one block of
-- AES-ECB gives as many bytes as it takes, and AES-GCM gives the plaintext or refuses.
pub record Primitives : Type 0 where
  pub hmac_sha256 : Bytes → Bytes → Bytes
  pub aes_ecb : Bytes → Bytes → Bytes
  pub aes_gcm_decrypt : Bytes → Bytes → Bytes → Bytes → Option Bytes
  pub length-hmac_sha256 : (key message : Bytes) → length (hmac_sha256 key message) ≡ 32
  pub length-aes_ecb : (key block : Bytes) → length (aes_ecb key block) ≡ length block

abbrev pub version_1 : ℕ
version_1 = 0x00000001

abbrev pub version_2 : ℕ
version_2 = 0x6B3343CF

-- `_SALTS.get(version)`
pub salt : ℕ → Option Bytes
salt version =
    if version == version_1
    then some (
        0x38 ∷ 0x76 ∷ 0x2c ∷ 0xf7 ∷ 0xf5 ∷ 0x59 ∷ 0x34 ∷ 0xb3 ∷ 0x4d ∷ 0x17 ∷ 0x9a ∷ 0xe6 ∷ 0xa4
        ∷ 0xc8 ∷ 0x0c ∷ 0xad ∷ 0xcc ∷ 0xbb ∷ 0x7f ∷ 0x0a ∷ [])
    else if version == version_2
    then some (
        0x0d ∷ 0xed ∷ 0xe3 ∷ 0xde ∷ 0xf7 ∷ 0x00 ∷ 0xa6 ∷ 0xdb ∷ 0x81 ∷ 0x93 ∷ 0x81 ∷ 0xbe ∷ 0x6e
        ∷ 0x26 ∷ 0x9d ∷ 0xcb ∷ 0xf9 ∷ 0xbd ∷ 0x2e ∷ 0xd9 ∷ [])
    else none

-- `label.encode()` of the labels that the program derives keys with.
abbrev pub codes : String → Bytes
codes String.[] = []
codes (String.◌∷◌ c s) = code c ∷ codes s

-- The byte-wise `^` of two strings, as long as the first.
pub xor_bytes : Bytes → Bytes → Bytes
xor_bytes [] ys = []
xor_bytes (x ∷ xs) [] = x ∷ xs
xor_bytes (x ∷ xs) (y ∷ ys) = bit_xor x y ∷ xor_bytes xs ys

module _ (p : Primitives) where
  -- The loop of `_hkdf_expand`: the output so far, the last block and the counter.
  pub hkdf_loop : ℕ → Bytes → Bytes → ℕ → Bytes → Bytes → ℕ → Bytes
  hkdf_loop zero secret info size output block counter = output
  hkdf_loop (suc rounds) secret info size output block counter =
      let next = p.hmac_sha256 secret (block ++ (info ++ counter ∷ [])) in
      let rest = hkdf_loop rounds secret info size (output ++ next) next (counter + 1) in
      if ltb (length output) size then rest else output

  -- Each round adds 32 bytes, so `size` rounds are enough.
  pub hkdf_expand : Bytes → Bytes → ℕ → Bytes
  hkdf_expand secret info size = take size (hkdf_loop size secret info size [] [] 1)

  pub label : Bytes → String → ℕ → Bytes
  label secret name size =
      let encoded = codes "tls13 " ++ codes name in
      hkdf_expand secret (to_bytes 2 size ++ (length encoded ∷ (encoded ++ 0 ∷ []))) size

  -- The key, the nonce and the header-protection key of a client's Initial packets.
  pub initial_keys : ℕ → Bytes → Parsed (Bytes × Bytes × Bytes)
  initial_keys version dcid = elim (salt version) [
    | none ↦ err parse
    | some s ↦
        let client = label (p.hmac_sha256 s dcid) "client in" 32 in
        if version == version_2
        then ok
            (label client "quicv2 key" 16, label client "quicv2 iv" 12, label client "quicv2 hp" 16)
        else ok (label client "quic key" 16, label client "quic iv" 12, label client "quic hp" 16)
  ]

  -- `bytes(datagram[start + i] ^ mask[i + 1] for i in range(count))`, from `i` on.
  pub unmask : Bytes → Bytes → ℕ → ℕ → ℕ → Parsed Bytes
  unmask datagram mask start i zero = ok []
  unmask datagram mask start i (suc count) = do
    b ← or_raise (get_elem? datagram (start + i)) index
    m ← or_raise (get_elem? mask (i + 1)) index
    rest ← unmask datagram mask start (i + 1) count
    ok (bit_xor b m ∷ rest)

  -- The part of `decrypt_initial` behind the header: the packet number begins at `start`, the
  -- packet ends at `end`.
  pub open_packet : Bytes → ℕ → Bytes → ℕ → ℕ → Parsed Bytes
  open_packet datagram version dcid start end = do
    keys ← initial_keys version dcid
    let mask = p.aes_ecb keys.2 (slice datagram (start + 4) (start + 20))
    b ← or_raise (get_elem? datagram 0) index
    m ← or_raise (get_elem? mask 0) index
    let first = bit_xor b (m % 16)
    let size = first % 4 + 1
    number ← unmask datagram mask start 0 size
    let header = first ∷ (slice datagram 1 start ++ number)
    let nonce = xor_bytes keys.1 (to_bytes (length keys.1) (from_bytes number))
    or_raise (p.aes_gcm_decrypt keys.0 nonce (slice datagram (start + size) end) header) parse

  pub decrypt_initial : Bytes → Parsed Bytes
  decrypt_initial datagram = do
    first ← or_raise (get_elem? datagram 0) parse
    guard (leb 40 (length datagram) && is_long first) parse
    let version = from_bytes (slice datagram 1 5)
    dcid_len ← or_raise (get_elem? datagram 5) index
    let dcid = slice datagram 6 (6 + dcid_len)
    guard (ltb (6 + dcid_len) (length datagram)) parse
    scid_len ← or_raise (get_elem? datagram (6 + dcid_len)) index
    token ← varint datagram (6 + dcid_len + (1 + scid_len))
    payload ← varint datagram (token.1 + token.0)
    let end = payload.1 + payload.0
    guard (leb end (length datagram) && leb (payload.1 + 20) end) parse
    open_packet datagram version dcid payload.1 end

-- The destination and the source connection ID of a long header.
unfoldable pub initial_connection_ids : Bytes → Parsed (Bytes × Bytes)
initial_connection_ids datagram = do
  first ← or_raise (get_elem? datagram 0) parse
  guard (leb 7 (length datagram) && is_long first) parse
  dcid_length ← or_raise (get_elem? datagram 5) index
  let dcid = slice datagram 6 (6 + dcid_length)
  guard (ltb (6 + dcid_length) (length datagram)) parse
  scid_length ← or_raise (get_elem? datagram (6 + dcid_length)) index
  let scid = slice datagram (6 + dcid_length + 1) (6 + dcid_length + 1 + scid_length)
  guard (length dcid == dcid_length && length scid == scid_length) parse
  ok (dcid, scid)
