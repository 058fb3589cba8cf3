-- ===== src/Nginx/Streams.antt =====
-- Streams: src/portwyrm/runtime/nginx_stream.py.
use portwyrm.Prelude.{Bool, true, false, not, List, [], ◌∷◌, ◌++◌, if◌then◌else◌, ◌==◌, string_eq}
use portwyrm.Prelude.Decimal.{str_int}
use portwyrm.Prelude.Int.{pos, int_eq}
use portwyrm.Prelude.Text.{Text, codes}
use portwyrm.Routing.Hosts.{Stream, tcp, udp, TlsSettings, no_tls}
use portwyrm.Nginx.Lines.{join}
use portwyrm.Nginx.Primitives.{when, ssl_lines}

abbrev pub tcp_forwarding : Stream → Bool
tcp_forwarding s = elim s.protocol [ udp ↦ false | _ ↦ true ]

abbrev pub udp_forwarding : Stream → Bool
udp_forwarding s = elim s.protocol [ tcp ↦ false | _ ↦ true ]

-- From `proxy_pass` to the end of a block, for the transport of the last include.
unfoldable pub stream_target_lines : Stream → Text → List Text
unfolding str_int
stream_target_lines s transport =
    (codes "  proxy_pass "
      ++ s.forwarding_host
      ++ codes ":"
      ++ str_int s.forwarding_port
      ++ codes ";")
    ∷ (codes "  access_log /data/logs/stream-" ++ str_int s.id ++ codes "_access.log stream;")
    ∷ (codes "  error_log /data/logs/stream-" ++ str_int s.id ++ codes "_error.log warn;")
    ∷ codes "  include custom/server_stream.conf;"
    ∷ (codes "  include custom/server_stream_" ++ transport ++ codes ".conf;")
    ∷ codes "}"
    ∷ []

-- `listen` for a port, with what stands behind it.
unfoldable pub stream_listen_lines : Bool → Stream → Text → List Text
unfolding str_int
stream_listen_lines ipv6 s suffix =
    (codes "  listen " ++ str_int s.incoming_port ++ suffix ++ codes ";")
    ∷ when ipv6 ((codes "  listen [::]:" ++ str_int s.incoming_port ++ suffix ++ codes ";") ∷ [])

unfoldable pub tcp_lines : Bool → Stream → List Text
unfolding stream_listen_lines stream_target_lines
tcp_lines ipv6 s =
    let has_certificate = not (s.certificate_id == pos 0) in
    let ssl : TlsSettings = record no_tls { certificate_id = s.certificate_id } in
    codes "server {" ∷ stream_listen_lines ipv6 s (if has_certificate then codes " ssl" else [])
    ++ when has_certificate (ssl_lines ssl true)
    ++ stream_target_lines s (codes "tcp")

unfoldable pub udp_lines : Bool → Stream → List Text
unfolding stream_listen_lines stream_target_lines
udp_lines ipv6 s =
    codes "server {" ∷ stream_listen_lines ipv6 s (codes " udp")
    ++ stream_target_lines s (codes "udp")

unfoldable pub stream_blocks : Bool → Stream → List Text
unfolding tcp_lines udp_lines join
stream_blocks ipv6 s =
    when (tcp_forwarding s) (join (10 ∷ []) (tcp_lines ipv6 s) ∷ [])
    ++ when (udp_forwarding s) (join (10 ∷ []) (udp_lines ipv6 s) ∷ [])

unfoldable pub render_stream : Bool → Stream → Text
unfolding stream_blocks join str_int
render_stream ipv6 s =
    if not s.enabled
    then codes "# stream " ++ str_int s.id ++ codes " disabled" ++ 10 ∷ []
    else join (10 ∷ 10 ∷ []) (stream_blocks ipv6 s) ++ 10 ∷ []
