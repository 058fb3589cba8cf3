-- ===== src/Quic/Cursor.antt =====
-- Reading at an offset of a datagram, a plaintext or a message.
use portwyrm.Prelude.{
  ℕ, zero, suc, ◌+◌, ◌-◌, ◌<◌, ◌≤◌, ◌^◌, ◌≡◌, ◌∙◌, refl, sym, ap, arith, [], ◌∷◌, ◌++◌, some,
  get_elem?, slice, take, drop, length, length-append, length-take, length-drop, drop-append,
  drop-drop, take-append, get_elem?-append,
}
use mathlib.Core.Path.{subst₂}
use native.Mathlib.Nat.{add-zero}
use portwyrm.Prelude.Result.{ok}
use portwyrm.Quic.Bytes.{Bytes}
use portwyrm.Quic.Varint.{varint}
use portwyrm.Quic.Varint.RoundTrip.{encode_varint, varint-encode_varint}

-- Behind the offset stand exactly these bytes.
pub record At (input : Bytes) (offset : ℕ) (bytes : Bytes) : Type 0 where
  pub behind : drop offset input ≡ bytes
  pub within : offset ≤ length input

take-append-drop : (n : ℕ) (xs : Bytes) → take n xs ++ drop n xs ≡ xs
take-append-drop zero xs = refl
take-append-drop (suc n) [] = refl
take-append-drop (suc n) (x ∷ xs) = rw (take-append-drop n xs)

pub At-start : (input : Bytes) → At input 0 input
At-start input = record { behind = refl; within = omega arith }

pub At-length :
    (input : Bytes) (offset : ℕ) (bytes : Bytes)
    → At input offset bytes
    → length input ≡ offset + length bytes
At-length input offset bytes h =
    let e = ap length h.behind in let w = h.within in omega (arith, length-drop offset input)

pub At-advance :
    (input : Bytes) (offset : ℕ) (xs ys : Bytes)
    → At input offset (xs ++ ys)
    → At input (offset + length xs) ys
At-advance input offset xs ys h = record {
  behind =
      sym (drop-drop (length xs) offset input)
      ∙ ap (drop (length xs)) h.behind
      ∙ ap (λ n. drop n (xs ++ ys)) (sym (add-zero (length xs)))
      ∙ drop-append xs ys 0;
  within = let e = At-length input offset (xs ++ ys) h in omega (arith, length-append xs ys);
}

pub At-slice :
    (input : Bytes) (offset : ℕ) (xs ys : Bytes)
    → At input offset (xs ++ ys)
    → slice input offset (offset + length xs) ≡ xs
At-slice input offset xs ys h =
    let e : offset + length xs - offset ≡ length xs = omega arith in
    rw e (ap (take (length xs)) h.behind ∙ take-append xs ys)

-- A statement about a list behind a prefix holds at the offset.
At-split :
    (P : Bytes → ℕ → Type 0) (input : Bytes) (offset : ℕ) (bytes : Bytes)
    → At input offset bytes
    → ((pre : Bytes) → P (pre ++ bytes) (length pre))
    → P input offset
At-split P input offset bytes h p =
    let pre = take offset input in
    let whole : pre ++ bytes ≡ input =
      ap (λ l. pre ++ l) (sym h.behind) ∙ take-append-drop offset input in
    let w = h.within in
    let size : length pre ≡ offset = omega (arith, length-take offset input) in
    subst₂ P whole size (p pre)

pub At-read :
    (input : Bytes) (offset x : ℕ) (ys : Bytes)
    → At input offset (x ∷ ys)
    → get_elem? input offset ≡ some x
At-read input offset x ys h =
    At-split (λ l n. get_elem? l n ≡ some x) input offset (x ∷ ys) h
      λ pre. rw (← add-zero (length pre)) (get_elem?-append pre (x ∷ ys) 0)

pub At-varint :
    (input : Bytes) (offset v : ℕ) (ys : Bytes)
    → v < 2 ^ 62
    → At input offset (encode_varint v ++ ys)
    → varint input offset ≡ ok (v, offset + length (encode_varint v))
At-varint input offset v ys lt h =
    At-split (λ l n. varint l n ≡ ok (v, n + length (encode_varint v))) input offset
      (encode_varint v ++ ys) h λ pre. varint-encode_varint pre ys v lt
