-- ===== src/Quic/Header/Safety.antt =====
-- Key lengths and the errors of `decrypt_initial` in src/portwyrm/runtime/quic_router.py.
use Prim.Native.Nat.{bit_xor}
use portwyrm.Prelude.{
  ℕ, zero, suc, ◌+◌, ◌%◌, ◌<◌, ◌≤◌, ◌≡◌, ◌&&◌, [], ◌∷◌, ◌++◌, arith, get_elem?, slice, length, leb,
  ltb, nat_eq, length-take, length-append, length-slice_of_le, Option-cases, inl, inr, String,
  Option-cases, inl, inr, String,
}
use portwyrm.Prelude.Result.{ok}
use portwyrm.Quic.Raises.{
  OnlyParse, OnlyParse-bind, OnlyParse-guard, OnlyParse-read, OnlyParse-or_raise, OnlyParse-varint,
}
use portwyrm.Quic.Bytes.{Bytes, is_long}
use portwyrm.Quic.Header.{
  Primitives, salt, hkdf_loop, hkdf_expand, label, initial_keys, unmask, open_packet,
  decrypt_initial,
}

module _ (p : Primitives) where
  open p use {length-hmac_sha256, length-aes_ecb}

  length-hkdf_loop :
      (rounds : ℕ) (secret info : Bytes) (size : ℕ) (output block : Bytes) (counter : ℕ)
      → size ≤ length output + rounds
      → size ≤ length (hkdf_loop p rounds secret info size output block counter)
  unfolding hkdf_loop
  length-hkdf_loop zero secret info size output block counter h = omega arith
  length-hkdf_loop (suc rounds) secret info size output block counter h =
      let next = p.hmac_sha256 secret (block ++ (info ++ counter ∷ [])) in
      let grown = length-append output next in
      let full = length-hmac_sha256 secret (block ++ (info ++ counter ∷ [])) in
      let later =
        length-hkdf_loop rounds secret info size (output ++ next) next (counter + 1)
          (omega arith) in
      ground arith

  -- The derived secret has exactly the length that was asked for.
  pub length-hkdf_expand :
      (secret info : Bytes) (size : ℕ) → length (hkdf_expand p secret info size) ≡ size
  unfolding hkdf_expand
  length-hkdf_expand secret info size = omega (
    arith,
    length-take size (hkdf_loop p size secret info size [] [] 1),
    length-hkdf_loop size secret info size [] [] 1 (omega arith),
  )

  length-label :
      (secret : Bytes) (name : String) (size : ℕ) → length (label p secret name size) ≡ size
  unfolding label
  length-label secret name size = length-hkdf_expand secret _ size

  -- The derived keys have the lengths that AES-128-GCM and its header protection take.
  pub initial_keys_lengths :
      (version : ℕ) (dcid : Bytes) {keys : Bytes × Bytes × Bytes}
      → initial_keys p version dcid ≡ ok keys
      → (length keys.0 ≡ 16) × (length keys.1 ≡ 12) × (length keys.2 ≡ 16)
  unfolding initial_keys
  initial_keys_lengths version dcid {keys} h = elim (Option-cases (salt version)) [
    | inl missing ↦ cc (rw (missing, initial_keys) at h)
    | inr (s, found) ↦
        let derived = rw (found, initial_keys) at h in
        let client = label p (p.hmac_sha256 s dcid) "client in" 32 in
        ground (
          arith,
          length-label client "quicv2 key" 16,
          length-label client "quicv2 iv" 12,
          length-label client "quicv2 hp" 16,
          length-label client "quic key" 16,
          length-label client "quic iv" 12,
          length-label client "quic hp" 16,
        )
  ]

  OnlyParse-initial_keys : (version : ℕ) (dcid : Bytes) → OnlyParse (initial_keys p version dcid)
  unfolding initial_keys
  OnlyParse-initial_keys version dcid = ground arith

  OnlyParse-unmask :
      (datagram mask : Bytes) (start i count : ℕ)
      → start + (i + count) ≤ length datagram
      → i + count < length mask
      → OnlyParse (unmask p datagram mask start i count)
  unfolding unmask
  OnlyParse-unmask datagram mask start i zero h k = tt
  OnlyParse-unmask datagram mask start i (suc count) h k =
      OnlyParse-read datagram (start + i) _ (omega arith) λ b.
        OnlyParse-read mask (i + 1) _ (omega arith) λ m.
          OnlyParse-bind (unmask p datagram mask start (i + 1) count) _
            (OnlyParse-unmask datagram mask start (i + 1) count (omega arith) (omega arith))
            (λ _ _. tt)

  OnlyParse-open_packet :
      (datagram : Bytes) (version : ℕ) (dcid : Bytes) (start end : ℕ)
      → start + 20 ≤ end
      → end ≤ length datagram
      → OnlyParse (open_packet p datagram version dcid start end)
  unfolding open_packet
  OnlyParse-open_packet datagram version dcid start end h k =
      OnlyParse-bind (initial_keys p version dcid) _ (OnlyParse-initial_keys version dcid) λ keys _.
        let sample = slice datagram (start + 4) (start + 20) in
        let masked : length (p.aes_ecb keys.2 sample) ≡ 16 = omega (
          arith,
          length-aes_ecb keys.2 sample,
          length-slice_of_le datagram (start + 4) (start + 20) (omega arith) (omega arith),
        ) in
        OnlyParse-read datagram 0 _ (omega arith) λ b.
          OnlyParse-read (p.aes_ecb keys.2 sample) 0 _ (omega arith) λ m.
            OnlyParse-bind _ _
              (OnlyParse-unmask datagram _ start 0 (bit_xor b (m % 16) % 4 + 1) (omega arith)
                (omega arith))
              (λ number _. OnlyParse-or_raise _)

  -- Whatever the datagram, the only exception of `decrypt_initial` is `QuicParseError`: no read of
  -- a byte of the datagram or of the mask is out of range.
  pub OnlyParse-decrypt_initial : (datagram : Bytes) → OnlyParse (decrypt_initial p datagram)
  unfolding decrypt_initial
  OnlyParse-decrypt_initial datagram =
      OnlyParse-bind _ _ (OnlyParse-or_raise (get_elem? datagram 0)) λ first _.
        OnlyParse-guard (leb 40 (length datagram) && is_long first) _ λ long.
          OnlyParse-read datagram 5 _ (ground arith) λ dcid_len.
            OnlyParse-guard (ltb (6 + dcid_len) (length datagram)) _ λ inside.
              OnlyParse-read datagram (6 + dcid_len) _ (ground arith) λ scid_len.
                OnlyParse-bind _ _ (OnlyParse-varint datagram (6 + dcid_len + (1 + scid_len)))
                  λ token _.
                    OnlyParse-bind _ _ (OnlyParse-varint datagram (token.1 + token.0)) λ payload _.
                      OnlyParse-guard
                        (leb (payload.1 + payload.0) (length datagram)
                          && leb (payload.1 + 20) (payload.1 + payload.0))
                        _
                        λ fits.
                          OnlyParse-open_packet datagram _ _ payload.1 (payload.1 + payload.0)
                            (ground arith) (ground arith)
