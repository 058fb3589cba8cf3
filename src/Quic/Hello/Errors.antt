-- ===== src/Quic/Hello/Errors.antt =====
-- What `parse_client_hello` and `inspect_sni` of src/portwyrm/runtime/quic_router.py can raise, and
-- that their loops end.
use portwyrm.Prelude.{
  ℕ, zero, suc, ◌+◌, ◌<◌, ◌≡◌, ◌≢◌, ◌&&◌, inl, inr, not, refl, arith, Bool, true, false, List, [],
  ◌∷◌, ◌++◌, get_elem?, slice, length, leb, ltb, if◌then◌else◌, ◌==◌, nat_eq, is_empty, Bool-cases,
  Option, none, some, all,
}
use portwyrm.Prelude.Result.{ok, err, ◌>>=◌, ◌>>◌, guard, or_raise}
use portwyrm.Quic.Bytes.{
  Bytes, Text, Parsed, QuicError, parse, index, fuel, from_bytes, decode_ascii,
}
use portwyrm.Quic.Raises.{OnlyParse}
use portwyrm.Quic.Header.{Primitives, decrypt_initial}
use portwyrm.Quic.Header.Safety.{OnlyParse-decrypt_initial}
use portwyrm.Quic.Frames.{crypto_fragments, assemble_crypto}
use portwyrm.Quic.Frames.Reading.{OnlyParse-crypto_fragments}
use portwyrm.Quic.Hello.{
  alpn_loop, extensions_loop, parse_body, parse_client_hello, inspect_sni, fold_name,
}

-- The computation ends: it gives a value or raises what the handler of a datagram catches.
abbrev pub Ends : {A : Type 0} → Parsed A → Type 0
Ends (ok _) = Unit
Ends (err x) = x ≢ fuel

Ends-bind :
    {A B : Type 0} (m : Parsed A) (f : A → Parsed B)
    → Ends m
    → ((a : A) → Ends (f a))
    → Ends (m >>= f)
Ends-bind (ok a) f h k = k a
Ends-bind (err x) f h k = h

Ends-guard : {A : Type 0} (b : Bool) (m : Parsed A) → Ends m → Ends (guard b parse >> m)
Ends-guard true m h = h
Ends-guard false m h = λ e. cc

Ends-or_raise : {A : Type 0} (o : Option A) (x : QuicError) → x ≢ fuel → Ends (or_raise o x)
Ends-or_raise none x h = h
Ends-or_raise (some a) x h = tt

Ends-decode_ascii : (bytes : Bytes) → Ends (decode_ascii bytes)
Ends-decode_ascii bytes = elim (Bool-cases (all (λ b. ltb b 128) bytes)) [
  | inl h ↦ rw h tt
  | inr h ↦ rw h (λ e. cc)
]

Ends-if :
    {A : Type 0} (b : Bool) (m n : Parsed A)
    → (b ≡ true → Ends m)
    → (b ≡ false → Ends n)
    → Ends (if b then m else n)
Ends-if true m n h k = h refl
Ends-if false m n h k = k refl

index_ne : ◌≢◌ {A = QuicError} index fuel
index_ne e = cc

parse_ne : ◌≢◌ {A = QuicError} parse fuel
parse_ne e = cc

Ends-alpn_loop :
    (rounds : ℕ) (value : Bytes) (cursor : ℕ) (alpns : List Text)
    → 0 < rounds
    → length value < rounds + cursor
    → Ends (alpn_loop rounds value cursor alpns)
unfolding alpn_loop
Ends-alpn_loop zero value cursor alpns pos room = absurd (omega arith)
Ends-alpn_loop (suc rounds) value cursor alpns pos room =
    Ends-if (ltb cursor (length value)) _ _
      (λ more. Ends-bind _ _ (Ends-or_raise (get_elem? value cursor) index index_ne) λ n.
        Ends-bind _ _ (Ends-decode_ascii (slice value (cursor + 1) (cursor + 1 + n))) λ item.
          Ends-alpn_loop rounds value (cursor + 1 + n) (alpns ++ item ∷ []) (ground arith)
            (omega arith))
      (λ _. tt)

Ends-extensions_loop :
    (rounds : ℕ) (body : Bytes) (offset end : ℕ) (name : Text) (alpns : List Text)
    → 0 < rounds
    → end < rounds + offset
    → Ends (extensions_loop rounds body offset end name alpns)
unfolding extensions_loop
Ends-extensions_loop zero body offset end name alpns pos room = absurd (omega arith)
Ends-extensions_loop (suc rounds) body offset end name alpns pos room =
    let size = from_bytes (slice body (offset + 2) (offset + 4)) in
    let value = slice body (offset + 4) (offset + 4 + size) in
    Ends-if (leb (offset + 4) end) _ _
      (λ more.
        let left : 0 < rounds = ground arith in
        let next = λ (n : Text) (l : List Text).
          Ends-extensions_loop rounds body (offset + (4 + size)) end n l left (omega arith) in
        Ends-if (from_bytes (slice body offset (offset + 2)) == 0 && leb 5 (length value)) _ _
          (λ _.
            Ends-bind _ _ (Ends-decode_ascii (slice value 5 (5 + from_bytes (slice value 3 5))))
              λ text. next (fold_name text) alpns)
          (λ _.
            Ends-if (from_bytes (slice body offset (offset + 2)) == 16 && leb 2 (length value)) _ _
              (λ long.
                Ends-bind _ _
                  (Ends-alpn_loop (suc (length value)) value 2 alpns (omega arith) (omega arith))
                  λ found. next name found)
              (λ _. next name alpns)))
      (λ _. tt)

Ends-parse_body : (body : Bytes) → Ends (parse_body body)
unfolding parse_body
Ends-parse_body body = Ends-bind _ _ (Ends-or_raise (get_elem? body 34) index index_ne) λ session.
    Ends-bind _ _ (Ends-or_raise _ index index_ne) λ compression.
      Ends-bind _ _ (Ends-extensions_loop _ body _ _ [] [] (omega arith) (omega arith))
        λ found. Ends-guard (not (is_empty found.0)) _ tt

-- Reading a ClientHello ends on every input: the rounds given to its two loops are enough.
pub Ends-parse_client_hello : (crypto : Bytes) → Ends (parse_client_hello crypto)
unfolding parse_client_hello
Ends-parse_client_hello crypto =
    let size = from_bytes (slice crypto 1 4) in
    let body = slice crypto 4 (4 + size) in
    Ends-bind _ _ (Ends-or_raise (get_elem? crypto 0) parse parse_ne) λ kind.
      Ends-guard (leb 4 (length crypto) && kind == 1)
        (guard (length body == size) parse >> parse_body body)
        (Ends-guard (length body == size) (parse_body body) (Ends-parse_body body))

Ends-of_OnlyParse : {A : Type 0} (m : Parsed A) → OnlyParse m → Ends m
Ends-of_OnlyParse (ok a) h = tt
Ends-of_OnlyParse (err x) h = λ e. cc

-- Inspecting any datagram ends, with a server name and protocols or with one of the exceptions that
-- `datagram_received` catches.
pub Ends-inspect_sni : (p : Primitives) (datagram : Bytes) → Ends (inspect_sni p datagram)
unfolding inspect_sni
Ends-inspect_sni p datagram =
    Ends-bind _ _
      (Ends-of_OnlyParse (decrypt_initial p datagram) (OnlyParse-decrypt_initial p datagram))
      λ plaintext.
        Ends-bind _ _
          (Ends-of_OnlyParse (crypto_fragments plaintext) (OnlyParse-crypto_fragments plaintext))
          λ fragments. Ends-parse_client_hello (assemble_crypto fragments)
