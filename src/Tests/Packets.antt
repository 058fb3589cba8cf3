-- ===== src/Tests/Packets.antt =====
-- src/portwyrm/runtime/quic_router.py: packets, under primitives that encrypt nothing.
use portwyrm.Prelude.{
  ◌+◌, ◌≡◌, refl, arith, List, [], ◌∷◌, ◌++◌, some, length, ◌+◌, ◌≡◌, refl, arith, List, [], ◌∷◌,
  ◌++◌, some, length,
}
use portwyrm.Quic.Bytes.{Bytes}
use portwyrm.Prelude.{All}
use portwyrm.Prelude.Result.{ok}
use portwyrm.Quic.Header.{Primitives}
use portwyrm.Quic.Hello.{fold_name, parse_client_hello, inspect_sni}
use portwyrm.Quic.Hello.Errors.{Ends, Ends-inspect_sni}
use portwyrm.Quic.Hello.RoundTrip.{
  ClientHello, IsWellFormed, server, protocols, other, summary, encode_client_hello,
  parse_client_hello-encode_client_hello,
}
use portwyrm.Quic.Frames.{Fragments, crypto_fragments, assemble_crypto}
use portwyrm.Quic.Frames.Reading.{
  Frame, padding, ping, crypto, encode_frames, IsEncodable, collect, crypto_fragments-encode_frames,
}
use portwyrm.Quic.Frames.Assembly.{IsPiece, assemble_crypto_complete}

abbrev zeros : Bytes
zeros =
    0 ∷ 0 ∷ 0 ∷ 0 ∷ 0 ∷ 0 ∷ 0 ∷ 0 ∷ 0 ∷ 0 ∷ 0 ∷ 0 ∷ 0 ∷ 0 ∷ 0 ∷ 0 ∷ 0 ∷ 0 ∷ 0 ∷ 0 ∷ 0 ∷ 0 ∷ 0 ∷ 0
    ∷ 0 ∷ 0 ∷ 0 ∷ 0 ∷ 0 ∷ 0 ∷ 0 ∷ 0 ∷ []

abbrev pub toy : Primitives
toy = record {
  hmac_sha256 = λ key message. zeros;
  aes_ecb = λ key block. block;
  aes_gcm_decrypt = λ key nonce text header. some text;
  length-hmac_sha256 = λ key message. refl;
  length-aes_ecb = λ key block. refl;
}

-- The extensions are padding, the server name A.b. and the protocol h3.
abbrev hello : ClientHello
hello = record {
  head = 3 ∷ 3 ∷ zeros;
  session = 9 ∷ 9 ∷ [];
  ciphers = 19 ∷ 1 ∷ [];
  compression = 0 ∷ [];
  extensions =
      other 21 (0 ∷ []) ∷ server (65 ∷ 46 ∷ 98 ∷ 46 ∷ []) ∷ protocols ((104 ∷ 51 ∷ []) ∷ []) ∷ [];
}

abbrev frames : List Frame
frames =
    padding
    ∷ padding
    ∷ padding
    ∷ padding
    ∷ padding
    ∷ padding
    ∷ padding
    ∷ padding
    ∷ padding
    ∷ padding
    ∷ padding
    ∷ padding
    ∷ padding
    ∷ padding
    ∷ padding
    ∷ padding
    ∷ ping
    ∷ crypto 0 (encode_client_hello hello)
    ∷ []

hello_fits : All IsWellFormed hello.extensions
hello_fits = ground arith

frames-IsEncodable : All IsEncodable frames
unfolding encode_client_hello
frames-IsEncodable = ground arith

-- Version 1, a destination ID of eight bytes, no source ID, no token, a payload length in two bytes.
abbrev pub client_initial : Bytes
client_initial =
    let payload = encode_frames frames in
    (0xC3
      ∷ 0
      ∷ 0
      ∷ 0
      ∷ 1
      ∷ 8
      ∷ 1
      ∷ 2
      ∷ 3
      ∷ 4
      ∷ 5
      ∷ 6
      ∷ 7
      ∷ 8
      ∷ 0
      ∷ 0
      ∷ 64
      ∷ (length payload + 4)
      ∷ 0
      ∷ 0
      ∷ 0
      ∷ 0
      ∷ [])
    ++ payload

crypto_fragments-encode_frames_example :
    crypto_fragments (encode_frames frames) ≡ ok (collect [] frames)
crypto_fragments-encode_frames_example = crypto_fragments-encode_frames frames frames-IsEncodable

Ends-inspect_sni_example : Ends (inspect_sni toy client_initial)
Ends-inspect_sni_example = Ends-inspect_sni toy client_initial

parse_client_hello-encode_client_hello_example :
    parse_client_hello (encode_client_hello hello) ≡ ok (summary hello.extensions [] [])
unfolding summary fold_name
parse_client_hello-encode_client_hello_example =
    parse_client_hello-encode_client_hello hello refl hello_fits refl

-- Two pieces that overlap, the later one first.
abbrev stream : Bytes
stream = 10 ∷ 11 ∷ 12 ∷ 13 ∷ 14 ∷ []

abbrev pieces : Fragments
pieces = (2, 12 ∷ 13 ∷ 14 ∷ []) ∷ (0, 10 ∷ 11 ∷ 12 ∷ []) ∷ []

pieces-IsPiece : All (IsPiece stream) pieces
pieces-IsPiece = (refl, (refl, tt))

assemble_crypto_complete_example : assemble_crypto pieces ≡ stream
assemble_crypto_complete_example =
    assemble_crypto_complete stream pieces pieces-IsPiece (λ i lt. ground arith)
