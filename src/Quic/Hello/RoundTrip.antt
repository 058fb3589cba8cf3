-- ===== src/Quic/Hello/RoundTrip.antt =====
-- The ClientHello of RFC 8446, section 4.1.2, and `parse_client_hello` of
-- src/portwyrm/runtime/quic_router.py as its reader.
use portwyrm.Prelude.{
  ℕ, zero, suc, ◌+◌, ◌-◌, ◌/◌, ◌%◌, ◌<◌, ◌≤◌, ◌≡◌, ◌∙◌, ◌≢◌, ◌&&◌, refl, ap, arith, List, [], ◌∷◌,
  ◌++◌, true, false, slice, length, leb, ltb, if◌then◌else◌, ◌==◌, nat_eq, is_empty, true, false,
  slice, length, leb, ltb, if◌then◌else◌, ◌==◌, nat_eq, is_empty, length-append, All, all,
  take_of_length_le, take, length-append, All, all, take_of_length_le, take,
}
use mathlib.Core.Path.{subst}
use mathlib.Core.List.{append_assoc, append-nil}
use portwyrm.Prelude.Result.{ok, ◌>>=◌}
use portwyrm.Quic.Bytes.{Bytes, Text, Parsed, from_bytes, from_bytes_acc, decode_ascii}
use portwyrm.Quic.Cursor.{At, At-start, At-length, At-advance, At-slice, At-read}
use portwyrm.Quic.Hello.{alpn_loop, extensions_loop, parse_body, parse_client_hello, fold_name}

-- A number in two bytes.
abbrev pub u16 : ℕ → Bytes
u16 v = (v / 256) ∷ (v % 256) ∷ []

from_bytes-u16 : (v : ℕ) → from_bytes (u16 v) ≡ v
unfolding from_bytes_acc
from_bytes-u16 v = omega arith

abbrev IsAscii : Bytes → Type 0
IsAscii bytes = All (λ b. b < 128) bytes

decode_of_IsAscii : (bytes : Bytes) → IsAscii bytes → decode_ascii bytes ≡ ok bytes
decode_of_IsAscii bytes h = rw (go bytes h)
  where
    go : (l : Bytes) → IsAscii l → all (λ b. ltb b 128) l ≡ true
    go [] k = refl
    go (b ∷ l) k = let small : ltb b 128 ≡ true = ground (arith, k.0) in rw (small, go l k.1)

-- The items of an ALPN extension, each behind its length.
unfoldable pub encode_alpns : List Text → Bytes
encode_alpns [] = []
encode_alpns (item ∷ items) = length item ∷ (item ++ encode_alpns items)

alpn_loop-encode_alpns :
    (items : List Text) (rounds : ℕ) (value : Bytes) (cursor : ℕ) (alpns : List Text)
    → All IsAscii items
    → length items < rounds
    → At value cursor (encode_alpns items)
    → alpn_loop rounds value cursor alpns ≡ ok (alpns ++ items)
unfolding alpn_loop encode_alpns
alpn_loop-encode_alpns items zero value cursor alpns ascii room here = absurd (omega arith)
alpn_loop-encode_alpns [] (suc rounds) value cursor alpns ascii room here =
    let size = At-length value cursor [] here in
    let end : ltb cursor (length value) ≡ false = ground arith in rw end (rw (append-nil alpns))
alpn_loop-encode_alpns (item ∷ items) (suc rounds) value cursor alpns ascii room here =
    let at_item = At-advance value cursor (length item ∷ []) (item ++ encode_alpns items) here in
    let at_rest = At-advance value (cursor + 1) item (encode_alpns items) at_item in
    let size = At-length value cursor (length item ∷ (item ++ encode_alpns items)) here in
    let more : ltb cursor (length value) ≡ true = ground arith in
    rw
      (
        more,
        At-read value cursor (length item) (item ++ encode_alpns items) here,
        At-slice value (cursor + 1) item (encode_alpns items) at_item,
        decode_of_IsAscii item ascii.0,
      )
      (alpn_loop-encode_alpns items rounds value (cursor + 1 + length item) (alpns ++ item ∷ [])
          ascii.1 (omega arith) at_rest
        ∙ ap (λ (l : List Text). ok l) (append_assoc alpns (item ∷ []) items))

-- An extension: the server name, the protocols, or any other.
pub data Extension : Type 0 where
  server : Text → Extension
  protocols : List Text → Extension
  other : ℕ → Bytes → Extension

abbrev pub kind_of : Extension → ℕ
kind_of (server _) = 0
kind_of (protocols _) = 16
kind_of (other kind _) = kind

unfoldable pub content : Extension → Bytes
unfolding encode_alpns
content (server name) = u16 (length name + 3) ++ (0 ∷ (u16 (length name) ++ name))
content (protocols items) = u16 (length (encode_alpns items)) ++ encode_alpns items
content (other kind bytes) = bytes

unfoldable pub encode_extension : Extension → Bytes
encode_extension e = u16 (kind_of e) ++ (u16 (length (content e)) ++ content e)

unfoldable pub encode_extensions : List Extension → Bytes
encode_extensions [] = []
encode_extensions (e ∷ es) = encode_extension e ++ encode_extensions es

abbrev pub IsWellFormed : Extension → Type 0
IsWellFormed (server name) = IsAscii name
IsWellFormed (protocols items) = All IsAscii items
IsWellFormed (other kind bytes) = (kind ≢ 0) × (kind ≢ 16)

-- What the extensions say: the last server name, folded, and all protocols.
unfoldable pub summary : List Extension → Text → List Text → Text × List Text
summary [] name alpns = (name, alpns)
summary (server host ∷ es) name alpns = summary es (fold_name host) alpns
summary (protocols items ∷ es) name alpns = summary es name (alpns ++ items)
summary (other _ _ ∷ es) name alpns = summary es name alpns

length-encode_alpns : (items : List Text) → length items ≤ length (encode_alpns items)
unfolding encode_alpns
length-encode_alpns [] = omega arith
length-encode_alpns (item ∷ items) =
    omega (arith, length-encode_alpns items, length-append item (encode_alpns items))

-- What the loop does with the content of one extension, whatever follows.
content_branch :
    (e : Extension) (name : Text) (alpns : List Text)
    (next : Text → List Text → Parsed (Text × List Text))
    → IsWellFormed e
    → (if kind_of e == 0 && leb 5 (length (content e))
        then (do
          text ← decode_ascii (slice (content e) 5 (5 + from_bytes (slice (content e) 3 5)))
          next (fold_name text) alpns)
        else if kind_of e == 16 && leb 2 (length (content e))
        then (do found ← alpn_loop (suc (length (content e))) (content e) 2 alpns; next name found)
        else next name alpns)
      ≡ next (summary (e ∷ []) name alpns).0 (summary (e ∷ []) name alpns).1
unfolding content summary
content_branch (server host) name alpns next fits =
    let n = length host in
    let long : leb 5 (length (content (server host))) ≡ true = ground arith in
    let whole : take (5 + n - 5) host ≡ host = take_of_length_le (5 + n - 5) host (omega arith) in
    rw (long, from_bytes-u16 n, whole, decode_of_IsAscii host fits)
content_branch (protocols items) name alpns next fits =
    let bytes = content (protocols items) in
    let long : leb 2 (length bytes) ≡ true = ground arith in
    let here : At bytes 2 (encode_alpns items) = record { behind = refl; within = omega arith } in
    rw (
      long,
      alpn_loop-encode_alpns items (suc (length bytes)) bytes 2 alpns fits
          (omega (arith, length-encode_alpns items)) here,
    )
content_branch (other kind bytes) name alpns next fits =
    let not_server : (kind == 0) ≡ false = ground (arith, fits.0) in
    let not_protocols : (kind == 16) ≡ false = ground (arith, fits.1) in
    rw (not_server, not_protocols)

module _ (rounds : ℕ) (body : Bytes) (offset end : ℕ) (name : Text) (alpns : List Text) where
  -- One extension is read, and the loop goes on behind it.
  extension_round :
      (e : Extension) (rest : Bytes)
      → IsWellFormed e
      → At body offset (encode_extension e ++ rest)
      → offset + (4 + length (content e)) ≤ end
      → (extensions_loop (suc rounds) body offset end name alpns
          ≡ extensions_loop rounds body
              (offset + (4 + length (content e)))
              end
              (summary (e ∷ []) name alpns).0
              (summary (e ∷ []) name alpns).1)
        × At body (offset + (4 + length (content e))) rest
  unfolding extensions_loop encode_extension summary
  extension_round e rest fits here fit_end =
      let n = length (content e) in
      let at_size : At body (offset + 2) (u16 n ++ (content e ++ rest)) =
        At-advance body offset (u16 (kind_of e)) (u16 n ++ (content e ++ rest)) here in
      let at_value : At body (offset + 4) (content e ++ rest) =
        subst (λ o. At body o (content e ++ rest)) (omega arith)
          (At-advance body (offset + 2) (u16 n) (content e ++ rest) at_size) in
      let at_rest : At body (offset + (4 + n)) rest =
        subst (λ o. At body o rest) (omega arith)
          (At-advance body (offset + 4) (content e) rest at_value) in
      let kind : slice body offset (offset + 2) ≡ u16 (kind_of e) =
        At-slice body offset (u16 (kind_of e)) (u16 n ++ (content e ++ rest)) here in
      let size : slice body (offset + 2) (offset + 4) ≡ u16 n =
        subst (λ o. slice body (offset + 2) o ≡ u16 n) (omega arith)
          (At-slice body (offset + 2) (u16 n) (content e ++ rest) at_size) in
      let value = At-slice body (offset + 4) (content e) rest at_value in
      let more : leb (offset + 4) end ≡ true = ground arith in
      (
        rw (more, kind, size, from_bytes-u16 (kind_of e), from_bytes-u16 n, value)
            (content_branch e name alpns
              (λ n' l. extensions_loop rounds body (offset + (4 + n)) end n' l) fits),
        at_rest,
      )

length-encode_extension : (e : Extension) → length (encode_extension e) ≡ 4 + length (content e)
unfolding encode_extension
length-encode_extension e = omega arith

summary_step :
    (e : Extension) (es : List Extension) (name : Text) (alpns : List Text)
    → summary es (summary (e ∷ []) name alpns).0 (summary (e ∷ []) name alpns).1
      ≡ summary (e ∷ es) name alpns
unfolding summary
summary_step (server host) es name alpns = refl
summary_step (protocols items) es name alpns = refl
summary_step (other kind bytes) es name alpns = refl

extensions_loop-encode_extensions :
    (es : List Extension) (rounds : ℕ) (body : Bytes) (offset end : ℕ) (name : Text)
    (alpns : List Text)
    → All IsWellFormed es
    → length es < rounds
    → At body offset (encode_extensions es)
    → end ≡ offset + length (encode_extensions es)
    → extensions_loop rounds body offset end name alpns ≡ ok (summary es name alpns)
unfolding encode_extensions
extensions_loop-encode_extensions es zero body offset end name alpns fits room here stop =
    absurd (omega arith)
extensions_loop-encode_extensions [] (suc rounds) body offset end name alpns fits room here stop =
    unfold extensions_loop summary in
    let past : leb (offset + 4) end ≡ false = ground arith in rw past
extensions_loop-encode_extensions (e ∷ es) (suc rounds) body offset end name alpns fits room here
      stop =
    let size = length-encode_extension e in
    let joined = length-append (encode_extension e) (encode_extensions es) in
    let (step, after) =
      extension_round rounds body offset end name alpns e (encode_extensions es) fits.0 here
        (omega arith) in
    step
    ∙ extensions_loop-encode_extensions es rounds body (offset + (4 + length (content e))) end _ _
        fits.1 (omega arith) after (omega arith)
    ∙ ap (λ (r : Text × List Text). ok r) (summary_step e es name alpns)

-- The fields of a ClientHello: version and random value, session ID, cipher suites, compression
-- methods and extensions.
pub record ClientHello : Type 0 where
  pub head : Bytes
  pub session : Bytes
  pub ciphers : Bytes
  pub compression : Bytes
  pub extensions : List Extension

unfoldable pub encode_body : ClientHello → Bytes
unfolding encode_extensions encode_extension content
encode_body h =
    h.head
    ++ (length h.session
        ∷ (h.session
            ++ (u16 (length h.ciphers)
                ++ (h.ciphers
                    ++ (length h.compression
                        ∷ (h.compression
                            ++ (u16 (length (encode_extensions h.extensions))
                                ++ encode_extensions h.extensions)))))))

abbrev u24 : ℕ → Bytes
u24 v = (v / 65536) ∷ (v / 256 % 256) ∷ (v % 256) ∷ []

-- The handshake message: its type, the length of its body, its body.
unfoldable pub encode_client_hello : ClientHello → Bytes
unfolding encode_body
encode_client_hello h = 1 ∷ (u24 (length (encode_body h)) ++ encode_body h)

from_bytes-u24 : (v : ℕ) → from_bytes (u24 v) ≡ v
unfolding from_bytes_acc
from_bytes-u24 v = omega arith

move : (body xs : Bytes) {p q : ℕ} → At body p xs → p ≡ q → At body q xs
move body xs here e = subst (λ o. At body o xs) e here

length-encode_extensions : (es : List Extension) → length es ≤ length (encode_extensions es)
unfolding encode_extensions
length-encode_extensions [] = omega arith
length-encode_extensions (e ∷ es) = omega (
  arith,
  length-encode_extensions es,
  length-encode_extension e,
  length-append (encode_extension e) (encode_extensions es),
)

module _ (h : ClientHello) (head : length h.head ≡ 34) (fits : All IsWellFormed h.extensions) where
  parse_body-encode_body :
      (body : Bytes) (named : is_empty (summary h.extensions [] []).0 ≡ false)
      → body ≡ encode_body h
      → parse_body body ≡ ok (summary h.extensions [] [])
  unfolding parse_body encode_body
  parse_body-encode_body body named same =
      let es = encode_extensions h.extensions in
      let n_session = length h.session in
      let n_ciphers = length h.ciphers in
      let n_compression = length h.compression in
      let p_ciphers = 34 + (1 + n_session) in
      let p_compression = p_ciphers + (2 + n_ciphers) in
      let p_extensions = p_compression + (1 + n_compression) in
      let tail_4 = u16 (length es) ++ es in
      let tail_3 = n_compression ∷ (h.compression ++ tail_4) in
      let tail_2 = u16 n_ciphers ++ (h.ciphers ++ tail_3) in
      let tail_1 = n_session ∷ (h.session ++ tail_2) in
      let at_session : At body 34 tail_1 =
        move body tail_1 (At-advance body 0 h.head tail_1 (subst (At body 0) same (At-start body)))
          (omega arith) in
      let at_ciphers : At body p_ciphers tail_2 =
        move body tail_2
          (At-advance body (34 + 1) h.session tail_2
            (At-advance body 34 (n_session ∷ []) (h.session ++ tail_2) at_session))
          (omega arith) in
      let at_compression : At body p_compression tail_3 =
        move body tail_3
          (At-advance body (p_ciphers + 2) h.ciphers tail_3
            (At-advance body p_ciphers (u16 n_ciphers) (h.ciphers ++ tail_3) at_ciphers))
          (omega arith) in
      let at_extensions : At body p_extensions tail_4 =
        move body tail_4
          (At-advance body (p_compression + 1) h.compression tail_4 (
            At-advance body p_compression (n_compression ∷ []) (h.compression ++ tail_4)
              at_compression))
          (omega arith) in
      let at_es : At body (p_extensions + 2) es =
        At-advance body p_extensions (u16 (length es)) es at_extensions in
      rw (
        At-read body 34 n_session (h.session ++ tail_2) at_session,
        At-slice body p_ciphers (u16 n_ciphers) (h.ciphers ++ tail_3) at_ciphers,
        from_bytes-u16 n_ciphers,
        At-read body p_compression n_compression (h.compression ++ tail_4) at_compression,
        At-slice body p_extensions (u16 (length es)) es at_extensions,
        from_bytes-u16 (length es),
        extensions_loop-encode_extensions h.extensions (suc (p_extensions + 2 + length es)) body
            (p_extensions + 2) (p_extensions + 2 + length es) [] [] fits
            (omega (arith, length-encode_extensions h.extensions)) at_es refl,
        named,
      )

  -- Reading back an encoded ClientHello gives the last server name of its extensions, folded to
  -- lower case and without trailing dots, and all of its protocols, when the texts are ASCII and
  -- that name is not empty.
  pub parse_client_hello-encode_client_hello :
      is_empty (summary h.extensions [] []).0 ≡ false
      → parse_client_hello (encode_client_hello h) ≡ ok (summary h.extensions [] [])
  unfolding parse_client_hello encode_client_hello
  parse_client_hello-encode_client_hello named =
      let body = encode_body h in
      let n = length body in
      let long : leb 4 (suc (suc (suc (suc n)))) ≡ true = ground arith in
      let size = from_bytes-u24 n in
      let whole : take (4 + n - 4) body ≡ body = take_of_length_le (4 + n - 4) body (omega arith) in
      let exact : (n == n) ≡ true = ground arith in
      rw (long, size, whole, exact, parse_body-encode_body body named refl)
