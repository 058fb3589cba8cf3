-- ===== src/Mfa/Totp/Window.antt =====
-- Which codes `verify_totp` of src/portwyrm/identity/mfa.py accepts, with the window, the period and the
-- width that the tables use.
use portwyrm.Prelude.{
  ℕ, ◌+◌, ◌-◌, ◌/◌, ◌≤◌, ◌≡◌, ◌↔◌, ◌∙◌, refl, sym, ap, arith, Bool, true, false, not, ◌||◌, ◌==◌,
  nat_eq, ltb, length, all, is_empty, Bool-cases, inl, inr, some,
}
use portwyrm.Prelude.Result.{ok}
use portwyrm.Prelude.Text.{Text, text_eq}
use portwyrm.Mfa.Base32.{decode_base32}
use portwyrm.Quic.Bytes.{Bytes, to_bytes}
use portwyrm.Mfa.Totp.{Crypto, truncated, totp_code, any_code, verify_totp}

third : {a b d : Bool} → a ≡ false → b ≡ false → (a || b || d) ≡ true → d ≡ true
third f g h = ground arith

module _ (c : Crypto) (secret : Text) where
  -- The code of a time depends on its period only.
  totp_code_same :
      (t u : ℕ) → t / 30 ≡ u / 30 → totp_code c secret t 30 6 ≡ totp_code c secret u 30 6
  unfolding totp_code
  totp_code_same t u h = rw h refl

  module _ (key : Bytes) (decoded : decode_base32 c.upper secret ≡ some key) where
    made : ℕ → Text
    made t = truncated 6 (c.hmac key (to_bytes 8 (t / 30)))

    totp_code-made : (t : ℕ) → totp_code c secret t 30 6 ≡ ok (made t)
    unfolding totp_code made
    totp_code-made t = rw decoded refl

    verify_totp-made :
        (code : Text) (now : ℕ)
        → (is_empty code || not (all c.is_digit code) || not (length code == 6)) ≡ false
        → all (λ ch. ltb ch 128) code ≡ true
        → 30 ≤ now
        → verify_totp c secret code now 1 30 6
          ≡ ok (made (now - 30) == code || made now == code || made (now + 30) == code)
    unfolding verify_totp any_code
    verify_totp-made code now well ascii late =
        let e : now - 30 + 30 ≡ now = omega arith in
        let e' : now - 30 + 30 + 30 ≡ now + 30 = omega arith in
        ground (
          arith,
          totp_code-made (now - 30),
          totp_code-made (now - 30 + 30),
          totp_code-made (now - 30 + 30 + 30),
          ap made e,
          ap made e',
        )

    made_same : (t u : ℕ) → t / 30 ≡ u / 30 → made t ≡ made u
    unfolding made
    made_same t u h = rw h refl

    is_made : (t : ℕ) (code : Text) → totp_code c secret t 30 6 ≡ ok code → made t ≡ code
    is_made t code h = cc (sym (totp_code-made t) ∙ h)

    found :
        (code : Text) (t now : ℕ)
        → (made t == code) ≡ true
        → (t / 30 ≤ now / 30 + 1) × (now / 30 ≤ t / 30 + 1)
        → (t : ℕ) × (totp_code c secret t 30 6 ≡ ok code)
          × (t / 30 ≤ now / 30 + 1)
          × (now / 30 ≤ t / 30 + 1)
    found code t now same near =
        let e : made t ≡ code = (text_eq.beq_iff (made t) code).0 same in
        (t, totp_code-made t ∙ ap ok e, near.0, near.1)

    accepts :
        (code : Text) (t now : ℕ)
        → made t ≡ code
        → t / 30 ≤ now / 30 + 1
        → now / 30 ≤ t / 30 + 1
        → 30 ≤ now
        → (made (now - 30) == code || made now == code || made (now + 30) == code) ≡ true
    accepts code t now e low high late =
        let hit = λ (u : ℕ) (h : t / 30 ≡ u / 30).
          (text_eq.beq_iff (made u) code).1 (sym (made_same t u h) ∙ e) in
        elim (Bool-cases (t / 30 == now / 30)) [
          | inl here ↦ ground (arith, hit now (ground arith))
          | inr away ↦ elim (Bool-cases (ltb (t / 30) (now / 30))) [
            | inl before ↦
                let h : t / 30 ≡ (now - 30) / 30 = ground arith in ground (arith, hit (now - 30) h)
            | inr behind ↦
                let h : t / 30 ≡ (now + 30) / 30 = ground arith in ground (arith, hit (now + 30) h)
          ]
        ]

    matched :
        (code : Text) (now : ℕ)
        → 30 ≤ now
        → (made (now - 30) == code || made now == code || made (now + 30) == code) ≡ true
        → (t : ℕ) × (totp_code c secret t 30 6 ≡ ok code)
          × (t / 30 ≤ now / 30 + 1)
          × (now / 30 ≤ t / 30 + 1)
    matched code now late h = elim (Bool-cases (made (now - 30) == code)) [
      | inl before ↦ found code (now - 30) now before (omega arith)
      | inr f ↦ elim (Bool-cases (made now == code)) [
        | inl here ↦ found code now now here (omega arith)
        | inr g ↦
            let last : (made (now + 30) == code) ≡ true = third f g h in
            found code (now + 30) now last (omega arith)
      ]
    ]

    -- For a secret that decodes and a code of six digits of ASCII, and a time that is not within the
    -- first thirty seconds of the epoch: the code is accepted, with a window of one
    -- period of thirty seconds to each side, exactly when it is the code of some time in the period
    -- of the clock or in one beside it.
    pub verify_totp_iff :
        (code : Text) (now : ℕ)
        → (is_empty code || not (all c.is_digit code) || not (length code == 6)) ≡ false
        → all (λ ch. ltb ch 128) code ≡ true
        → 30 ≤ now
        → (verify_totp c secret code now 1 30 6 ≡ ok true) ↔ (
            (t : ℕ) × (totp_code c secret t 30 6 ≡ ok code)
            × (t / 30 ≤ now / 30 + 1)
            × (now / 30 ≤ t / 30 + 1))
    verify_totp_iff code now well ascii late =
        let is = verify_totp-made code now well ascii late in
        (
          (λ h. matched code now late (cc (sym is ∙ h))),
          (λ given.
              is
              ∙ ap ok
                  (accepts code given.0 now (is_made given.0 code given.1) given.2 given.3 late)),
        )
