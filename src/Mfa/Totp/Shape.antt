-- ===== src/Mfa/Totp/Shape.antt =====
-- Codes of src/portwyrm/identity/mfa.py have the width that was asked for, and digits only.
use portwyrm.Prelude.{
  ℕ, zero, suc, ◌+◌, ◌-◌, ◌/◌, ◌%◌, ◌^◌, ◌≤◌, ◌<◌, ◌≡◌, refl, arith, not, ◌||◌, [], ◌∷◌, ◌==◌,
  nat_eq, length, length-append, slice, subst, contains, All, All-append, Bool-cases, inl, inr,
}
use native.Mathlib.Nat.{mod-lt}
use portwyrm.Prelude.Result.{ok, or_raise, >>=-eq-ok}
use portwyrm.Prelude.Decimal.{str, length-str, str-digits}
use portwyrm.Prelude.Text.{Text}
use portwyrm.Mfa.Base32.{decode_base32}
use portwyrm.Quic.Bytes.{Bytes, from_bytes, to_bytes}
use portwyrm.Mfa.Totp.{Crypto, zeros, zfill, truncated, totp_code, last_byte, bad_secret}

abbrev pub IsDigit : ℕ → Type 0
IsDigit ch = (b'0' ≤ ch) × (ch ≤ b'9')

length-zeros : (n : ℕ) → length (zeros n) ≡ n
unfolding zeros
length-zeros zero = refl
length-zeros (suc n) = omega (arith, length-zeros n)

zeros-digits : (n : ℕ) → All IsDigit (zeros n)
unfolding zeros
zeros-digits zero = tt
zeros-digits (suc n) = (omega arith, zeros-digits n)

pow_pos : (d : ℕ) → 0 < 10 ^ d
pow_pos zero = omega arith
pow_pos (suc d) = omega (arith, pow_pos d)

-- Of the code of a digest.
truncated-shape :
    (digits : ℕ) (digest : Bytes)
    → 1 ≤ digits
    → (length (truncated digits digest) ≡ digits) × All IsDigit (truncated digits digest)
unfolding truncated zfill
truncated-shape zero digest h = absurd (omega arith)
truncated-shape (suc k) digest h = filled (from_bytes (slice digest offset (offset + 4)) % 2 ^ 31)
  where
    offset : ℕ
    offset = last_byte digest % 16

    filled :
        (m : ℕ)
        → (length (zfill (suc k) (str (m % 10 ^ suc k))) ≡ suc k)
          × All IsDigit (zfill (suc k) (str (m % 10 ^ suc k)))
    filled m =
        let n = m % 10 ^ suc k in
        let written = str n in
        let short = length-str n k (mod-lt m (pow_pos (suc k))) in
        (
          omega (
            arith,
            length-append (zeros (suc k - length written)) written,
            length-zeros (suc k - length written),
            short,
          ),
          All-append IsDigit (zeros (suc k - length written)) written
              (zeros-digits (suc k - length written)) (str-digits n),
        )

-- A code that is made has as many characters as were asked for, and they are digits.
pub totp_code-shape :
    (c : Crypto) (secret : Text) (at period digits : ℕ) (code : Text)
    → totp_code c secret at period digits ≡ ok code
    → (length code ≡ digits) × All IsDigit code
unfolding totp_code
totp_code-shape c secret at period digits code h =
    elim (Bool-cases (period == 0 || not (contains (6 ∷ 7 ∷ 8 ∷ []) digits))) [
      | inl bad ↦ cc (rw (bad, totp_code) at h)
      | inr good ↦
          let (key, decoded, same) =
            >>=-eq-ok (or_raise (decode_base32 c.upper secret) bad_secret) _
              (rw (good, totp_code) at h) in
          let digest = c.hmac key (to_bytes 8 (at / period)) in
          let e : truncated digits digest ≡ code = cc same in
          let some_digits : 1 ≤ digits = ground arith in
          subst (λ t. (length t ≡ digits) × All IsDigit t) e
            (truncated-shape digits digest some_digits)
    ]
