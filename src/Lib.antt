-- ===== src/Lib.antt =====
-- Portwyrm is a reverse proxy: it keeps routes, certificates, access lists and identities in
-- tables, renders them to an Nginx configuration, and runs a router for QUIC connections beside
-- Nginx. This library models the parts of it that decide: the QUIC router, the reconciler of
-- configurations, the policies of tokens, tables and ownership, multi-factor authentication, the
-- resources of the routing tables, and the rendering of the Nginx files.
--
-- The parts of the program, and the files that model them:
--
-- * src/portwyrm/runtime/quic_router.py takes the datagrams of QUIC clients, reads the server
--   name of a new connection from its Initial packets, and forwards each connection to the upstream
--   of its route. Quic/Bytes, Varint, Header, Frames and Hello model the functions that read
--   packets, one definition per function and one per loop: `varint`, `hkdf_expand`, `initial_keys`,
--   `decrypt_initial`, `initial_connection_ids`, `crypto_fragments`, `assemble_crypto`,
--   `parse_client_hello` and `inspect_sni`. Quic/Router models the class `QuicRouter`: State its
--   fields, Sessions the session table with its two indexes and the ingress pause, Ingress
--   `datagram_received`, Opening `_open` cut at its `await`, the datagrams of upstreams, the
--   reaper, the reload of routes and the end of the listener; Run is the event loop, any sequence
--   of events. Quic/Router/Invariant holds the invariant, Isolation and Run/* what follows.
-- * src/portwyrm/runtime/reconcile.py writes generated files as an immutable generation,
--   validates it, makes it active, reloads Nginx, and goes back to the last good generation when
--   that fails. Reconcile/Store is `GenerationStore`, Reconcile/Run is `Reconciler.reconcile`.
-- * src/portwyrm/identity/permissions.py and src/portwyrm/identity/token_policy.py decide what a
--   personal access token may do. Tokens/Permissions and Tokens/Scopes model them.
-- * src/portwyrm/domain/ownership.py says who may change or prune a resource: Ownership.
-- * src/portwyrm/tables/lifecycle.py holds the hooks around every operation on a table:
--   Lifecycle/Context is what they read, Authorize and Own the hooks before the handler, Show the
--   visibility of its results, Commit the audit and the reconciliation; Permits (with Grants),
--   Guarded (with Nested) and Audit hold what follows.
-- * src/portwyrm/runtime/nginx_primitives.py merges the access lists of a host and writes
--   password files: Access/Lists, with the records of src/portwyrm/tables/access.py.
-- * src/portwyrm/tables/tokens.py issues, revokes, refreshes, rotates and verifies personal
--   access tokens: Pats/Rows is the table and the check of its owner, Pats/Operations the
--   operations, Pats/Calls calls one after the other.
-- * src/portwyrm/health.py summarises the states of a host: Health. src/portwyrm/identity/mfa.py
--   makes and verifies time-based codes and consumes backup codes: Mfa/Base32, Mfa/Totp and Backup;
--   src/portwyrm/tables/mfa.py keeps enrollments and recovery codes in tables: Mfa/Table, with
--   Spend, Fresh and Others what calls of its operations do to the codes of a principal.
-- * src/portwyrm/tables/runtime.py keeps the generations and the leases in tables: Generations is
--   `GenerationStore`, with Rows and Active what its operations leave and Changes its `diff`;
--   Leases is `LeaseStore`, with Abstract the lock that it stands for.
-- * src/portwyrm/runtime/controller.py reconciles under a lease and records what came of it:
--   Controller/Names the paths of the hosts' files, Controller/Persist `_persist`, Controller the
--   class. It calls Leases, Reconcile/Run, Generations and Revisions, as the source does.
-- * src/portwyrm/tables/routing.py keeps a revision of each host's file and derives the states of
--   a host: Revisions, with Recorded any calls of `record` and History the states after them.
--   Routing/Domains is `canonical_domains` and `_target`, Routing/Hosts the schemas with their
--   validation, Routing/Inventory `HostInventory`.
-- * src/portwyrm/runtime/nginx_primitives.py, src/portwyrm/runtime/nginx_http.py and
--   src/portwyrm/runtime/nginx_stream.py write the files of Nginx: Nginx/Primitives, Http and
--   Streams, with the text operations in Lines. Blocks reads the blocks back from the lines;
--   Segments and Protection hold what follows for access lists. Hosts are those of Routing/Hosts.
-- * src/portwyrm/runtime/nginx_platform.py writes the shared files, and
--   src/portwyrm/runtime/nginx.py puts a generation together: Nginx/Platform and Nginx/Render, with
--   Files, Passwords, Generation and Proxies what is among its files, Naming the password files
--   that lines name, and Served the configurations of the proxy hosts. Render calls Http, Streams
--   and the merge of Access/Lists.
--
-- The parts meet where the program's do: the router's handlers call the packet readers, and the
-- token policy calls the permissions; the tables of multi-factor authentication call its codes; the
-- controller calls the leases, the reconciler and the tables of generations and revisions; and the
-- rendering calls the merge of access lists on the hosts of the routing tables. Prelude holds
-- Python's dict and set as lists (Dict), its str as a list of code points (Text), and code that may
-- raise as a result (Result).
--
-- Choices. Bytes are lists of numbers; code points are numbers. Times are milliseconds of a clock
-- that each event carries in the router, and seconds in the tables. An exception is a value; the
-- router's handlers catch what the source catches. The loops over packets run on rounds, and each
-- round takes at least one byte, or four, so the rounds given are one more than the bytes there
-- are; the rounds of the key derivation are the bytes asked for, of which each round gives 32. A
-- set that is only searched is a list in order of insertion. A task of `_open` is an entry of
-- `tasks`, and its three ways on are events. A call of `reconcile` is atomic, which its lock and
-- lease give.
--
-- Parameters. HMAC-SHA-256, AES-ECB and AES-GCM (record Primitives, with the lengths of their
-- results), SHA-256, the validator and the reloader (record Callbacks), and the case folding of
-- Unicode are not code of the repository. The server names of the routes are ASCII, which the table
-- of routes validates, so they are folded as ASCII. The multi-factor codes take HMAC-SHA-1 (record
-- Crypto), the cipher and the password hasher (record World of Mfa/Table), and generated values are
-- arguments. The JSON of the QUIC routes is an argument of the rendering.
--
-- Not modelled: logging, sockets and their errors while sending, the JSON of the routes file (it
-- enters as what was read), disk errors other than a file in the way of a directory, and the HTTP
-- API, the storage of the other tables, certificates, the command line and the user interface.
pub mod Prelude
pub mod Quic
pub mod Tokens
pub mod Reconcile
pub mod Ownership
pub mod Access
pub mod Lifecycle
pub mod Pats
pub mod Health
pub mod Backup
pub mod Leases
pub mod Generations
pub mod Revisions
pub mod Controller
pub mod Routing
pub mod Mfa
pub mod Nginx
mod Tests
