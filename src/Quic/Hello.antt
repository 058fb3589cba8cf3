-- ===== src/Quic/Hello.antt =====
-- `parse_client_hello` and `inspect_sni` of src/portwyrm/runtime/quic_router.py.
pub mod RoundTrip
pub mod Errors
use portwyrm.Prelude.{
  ℕ, zero, suc, ◌+◌, ◌&&◌, not, Bool, List, [], ◌∷◌, ◌++◌, get_elem?, slice, length, leb, ltb,
  if◌then◌else◌, ◌==◌, nat_eq, is_empty, map,
}
use portwyrm.Prelude.Result.{Result, ok, err, ◌>>=◌, ◌>>◌, guard, or_raise}
use portwyrm.Quic.Bytes.{Bytes, Text, Parsed, parse, index, fuel, from_bytes, decode_ascii}
use portwyrm.Quic.Header.{Primitives, decrypt_initial}
use portwyrm.Quic.Frames.{crypto_fragments, assemble_crypto}

-- `str.casefold` on an ASCII character: the text was decoded as ASCII.
unfoldable pub casefold_char : ℕ → ℕ
casefold_char c = if leb 65 c && leb c 90 then c + 32 else c

-- `text.rstrip(".")`
unfoldable pub rstrip_dots : Text → Text
rstrip_dots [] = []
rstrip_dots (c ∷ cs) =
    let rest = rstrip_dots cs in if is_empty rest && c == 46 then [] else c ∷ rest

unfoldable pub fold_name : Text → Text
unfolding casefold_char rstrip_dots
fold_name text = rstrip_dots (map casefold_char text)

-- The items of an ALPN extension from `cursor` on. A round reads at least one byte.
pub alpn_loop : ℕ → Bytes → ℕ → List Text → Parsed (List Text)
alpn_loop zero value cursor alpns = err fuel
alpn_loop (suc rounds) value cursor alpns =
    let body = do
      item_length ← or_raise (get_elem? value cursor) index
      item ← decode_ascii (slice value (cursor + 1) (cursor + 1 + item_length))
      alpn_loop rounds value (cursor + 1 + item_length) (alpns ++ item ∷ [])
    in if ltb cursor (length value) then body else ok alpns

-- The extensions from `offset` on: the server name and the protocols found so far.
pub extensions_loop : ℕ → Bytes → ℕ → ℕ → Text → List Text → Parsed (Text × List Text)
extensions_loop zero body offset end name alpns = err fuel
extensions_loop (suc rounds) body offset end name alpns =
    let kind = from_bytes (slice body offset (offset + 2)) in
    let size = from_bytes (slice body (offset + 2) (offset + 4)) in
    let value = slice body (offset + 4) (offset + 4 + size) in
    let server = do
      let name_length = from_bytes (slice value 3 5)
      text ← decode_ascii (slice value 5 (5 + name_length))
      extensions_loop rounds body (offset + (4 + size)) end (fold_name text) alpns
    in let protocols = do
      found ← alpn_loop (suc (length value)) value 2 alpns
      extensions_loop rounds body (offset + (4 + size)) end name found
      in let other = extensions_loop rounds body (offset + (4 + size)) end name alpns in
        if leb (offset + 4) end
        then (if kind == 0 && leb 5 (length value)
            then server
            else if kind == 16 && leb 2 (length value)
            then protocols
            else other)
        else ok (name, alpns)

-- The body of the ClientHello, from the session ID on.
pub parse_body : Bytes → Parsed (Text × List Text)
parse_body body = do
  session_length ← or_raise (get_elem? body 34) index
  let ciphers = 34 + (1 + session_length)
  let cipher_length = from_bytes (slice body ciphers (ciphers + 2))
  let compression = ciphers + (2 + cipher_length)
  compression_length ← or_raise (get_elem? body compression) index
  let extensions = compression + (1 + compression_length)
  let extensions_length = from_bytes (slice body extensions (extensions + 2))
  let end = extensions + 2 + extensions_length
  found ← extensions_loop (suc end) body (extensions + 2) end [] []
  guard (not (is_empty found.0)) parse
  ok found

pub parse_client_hello : Bytes → Parsed (Text × List Text)
parse_client_hello crypto = do
  kind ← or_raise (get_elem? crypto 0) parse
  guard (leb 4 (length crypto) && kind == 1) parse
  let size = from_bytes (slice crypto 1 4)
  let body = slice crypto 4 (4 + size)
  guard (length body == size) parse
  parse_body body

pub inspect_sni : Primitives → Bytes → Parsed (Text × List Text)
inspect_sni p datagram = do
  plaintext ← decrypt_initial p datagram
  fragments ← crypto_fragments plaintext
  parse_client_hello (assemble_crypto fragments)
