-- ===== src/Mfa/Totp.antt =====
-- Time-based codes: `totp_code` and `verify_totp` of src/portwyrm/identity/mfa.py. Times are whole
-- seconds, and not within the window of the epoch.
use portwyrm.Prelude.{
  ℕ, zero, suc, ◌+◌, ◌-◌, ◌*◌, ◌/◌, ◌%◌, ◌^◌, Bool, true, false, not, ◌&&◌, ◌||◌, List, [], ◌∷◌,
  ◌++◌, Option, none, some, if◌then◌else◌, ◌==◌, nat_eq, ltb, length, all, contains, is_empty,
  slice,
}
use portwyrm.Prelude.Result.{Result, ok, err, ◌>>=◌, or_raise}
use portwyrm.Prelude.Decimal.{str}
use portwyrm.Prelude.Text.{Text, text_eq}
use portwyrm.Mfa.Base32.{decode_base32}
use portwyrm.Quic.Bytes.{Bytes, from_bytes, to_bytes}
pub mod Shape
pub mod Window

-- HMAC with SHA-1, `str.upper`, and `str.isdigit` of one character.
pub record Crypto : Type 0 where
  pub hmac : Bytes → Bytes → Bytes
  pub upper : Text → Text
  pub is_digit : ℕ → Bool

-- The `ValueError`s, and the `TypeError` of `compare_digest` for text beyond ASCII.
pub data TotpError : Type 0 where
  bad_parameters bad_secret not_ascii : TotpError

unfoldable pub last_byte : Bytes → ℕ
last_byte [] = 0
last_byte (b ∷ []) = b
last_byte (_ ∷ b ∷ bs) = last_byte (b ∷ bs)

-- `"0" * n`
unfoldable pub zeros : ℕ → Text
zeros zero = []
zeros (suc n) = b'0' ∷ zeros n

-- `t.zfill(width)` of a text with no sign.
unfoldable pub zfill : ℕ → Text → Text
unfolding zeros
zfill width t = zeros (width - length t) ++ t

-- The code of a digest.
unfoldable pub truncated : ℕ → Bytes → Text
unfolding last_byte
truncated digits digest =
    let offset = last_byte digest % 16 in
    let binary = from_bytes (slice digest offset (offset + 4)) % 2 ^ 31 in
    zfill digits (str (binary % 10 ^ digits))

module _ (c : Crypto) where
  unfoldable pub totp_code : Text → ℕ → ℕ → ℕ → Result TotpError Text
  unfolding truncated to_bytes
  totp_code secret at period digits =
      if period == 0 || not (contains (6 ∷ 7 ∷ 8 ∷ []) digits)
      then err bad_parameters
      else (or_raise (decode_base32 c.upper secret) bad_secret >>= λ key.
          ok (truncated digits (c.hmac key (to_bytes 8 (at / period)))))

  -- The codes of `n` periods from a time on, until one is the code.
  unfoldable pub any_code : ℕ → Text → Text → ℕ → ℕ → ℕ → Result TotpError Bool
  any_code zero secret code at period digits = ok false
  any_code (suc n) secret code at period digits = totp_code secret at period digits >>= λ expected.
      let later = any_code n secret code (at + period) period digits in
      if not (all (λ ch. ltb ch 128) code)
      then err not_ascii
      else if expected == code
      then ok true
      else later

  unfoldable pub verify_totp : Text → Text → ℕ → ℕ → ℕ → ℕ → Result TotpError Bool
  unfolding any_code
  verify_totp secret code now window period digits =
      if is_empty code || not (all c.is_digit code) || not (length code == digits)
      then ok false
      else any_code (2 * window + 1) secret code (now - window * period) period digits
