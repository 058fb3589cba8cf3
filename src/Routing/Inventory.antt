-- ===== src/Routing/Inventory.antt =====
-- `HostInventory` of src/portwyrm/tables/routing.py: no two hosts share a domain, and no two streams a
-- port.
use portwyrm.Prelude.{
  Eq, pair_eq, ℕ, Bool, true, false, ◌||◌, List, [], ◌∷◌, ◌++◌, Option, none, some, if◌then◌else◌,
  ◌==◌, contains,
}
use portwyrm.Prelude.Result.{Result, ok, err, ◌>>=◌, ◌>>◌}
use portwyrm.Prelude.Int.{ℤ, int_eq}
use portwyrm.Prelude.Dict
use portwyrm.Prelude.Dict.{Dict}
use portwyrm.Prelude.Text.{Text, text_eq, codes}
use portwyrm.Routing.Hosts.{Host, Stream, StreamProtocol, tcp, udp, tcp_udp}
pub mod Collisions

-- Who claims a domain: the family and the id.
abbrev pub Owner : Type 0
Owner = Text × ℤ

abbrev pub Claim : Type 0
Claim = ℤ × Text

-- A `CollisionError`: the domain and who has it, or the port and the protocol.
pub data Collision : Type 0 where
  domain_used : Text → Owner → Collision
  port_used : Claim → Collision

unfoldable pub claim_domains :
    Owner → List Text → Dict Text Owner → Result Collision (Dict Text Owner)
claim_domains owner [] claimed = ok claimed
claim_domains owner (domain ∷ domains) claimed =
    let rest = claim_domains owner domains (Dict.put claimed domain owner) in
    elim (Dict.get claimed domain) [
      | some previous ↦ err (domain_used domain previous)
      | none ↦ rest
    ]

unfoldable pub claim_hosts : Text → List Host → Dict Text Owner → Result Collision (Dict Text Owner)
unfolding claim_domains
claim_hosts family [] claimed = ok claimed
claim_hosts family (host ∷ hosts) claimed =
    claim_domains (family, host.id) host.domain_names claimed >>= claim_hosts family hosts

unfoldable pub protocols : StreamProtocol → List Text
protocols tcp = codes "tcp" ∷ []
protocols udp = codes "udp" ∷ []
protocols tcp_udp = codes "tcp" ∷ codes "udp" ∷ []

unfoldable pub claim_ports : ℤ → List Text → List Claim → Result Collision (List Claim)
claim_ports port [] claims = ok claims
claim_ports port (protocol ∷ rest) claims =
    let others = claim_ports port rest ((port, protocol) ∷ claims) in
    if contains claims (port, protocol) then err (port_used (port, protocol)) else others

unfoldable pub claim_streams : List Stream → List Claim → Result Collision (List Claim)
unfolding claim_ports protocols
claim_streams [] claims = ok claims
claim_streams (stream ∷ streams) claims =
    claim_ports stream.incoming_port (protocols stream.protocol) claims >>= claim_streams streams

pub record Inventory : Type 0 where
  pub proxy_hosts : List Host
  pub redirection_hosts : List Host
  pub dead_hosts : List Host
  pub streams : List Stream

-- `HostInventory.validate`
unfoldable pub validate : Inventory → Result Collision Unit
unfolding claim_hosts claim_streams
validate i =
    (claim_hosts (codes "proxy") i.proxy_hosts [] >>= λ claimed.
    claim_hosts (codes "redirection") i.redirection_hosts claimed >>= λ more.
    claim_hosts (codes "dead") i.dead_hosts more)
    >> (claim_streams i.streams [] >> ok tt)
