-- ===== src/Lib.antt =====
-- Encedo WG: a WireGuard client whose private key, and whose whole configuration, live in a
-- hardware security module. The configuration is stored in fixed-size records beside the keys,
-- and one MAC, computed and checked inside the device, authenticates all of them as a tree.
--
-- The parts, and how they interact:
-- - Common holds what every module shares: Go's Boolean tests, slices as lists over the native
--   numbers, and Go's (value, error) pair as `Result` with `wrap` for a wrapped error.
-- - Netip is the part of net/netip that the program uses, from its documentation.
-- - Descr is internal/descr, the record codec. Descr/Tag and Descr/Records have its constants and
--   types, Descr/Encode has `Interface.Encode`, `Peer.Encode` and `Normalize`, Descr/Decode has
--   `parse` and `DecodeInterface`, Descr/DecodePeer has `DecodePeer`, and Descr/ZeroMac has
--   `ZeroMAC`. Descr/Items and Descr/Layout say independently how a configuration is laid out as
--   a list of items; Descr/Framing, Descr/RoundTrip, Descr/Canonical, Descr/Normalize and their
--   companions compare the code with that.
-- - Mac is internal/mac. Mac/Message has `Canonical`, `matchRefs`, `Sign` and `Verify`, over the
--   decoder and `ZeroMAC` of Descr; Mac/Refs, Mac/Records, Mac/Injective, Mac/SignVerify,
--   Mac/AbsentTag and Mac/Length are about what the message promises.
-- - Tunnel is part of internal/tunnel. Tunnel/Failover has `WalkPeers` and the loop of `hold`
--   that asks it for another peer, with everything but that choice as parameters;
--   Tunnel/FirstAnswer is about where that loop ends. Tunnel/System has the fields of `Tunnel`
--   and the calls made of the system, and Tunnel/Life has `Run` with `openDevice`, `usePeer`,
--   `configureInterface`, `hold` and `teardown`, over the plan and the pins of Runtime and the tree
--   of Config; `SelectNext` is a parameter there, and `walking` puts `WalkPeers` in its place. The
--   pre-shared keys are buffers in memory, and the field `psk` points to one. Tunnel/Wiped,
--   Tunnel/Held and Tunnel/Cleared are about what a run leaves behind, Tunnel/Fuel about how long it
--   goes on.
-- - Daemon is part of internal/daemon and of internal/ipc. Daemon/Server has `Build.Matches`,
--   `Request.Validate`, and `start`, `stop`, `refresh` and `clear` of `Server` cut where they
--   release the lock, with a step relation in which those of all connections interleave;
--   Daemon/OneTunnel is about the worlds that it reaches. Opening a tunnel and running it are
--   steps that may come at any time.
-- - Hem is the interface of the device's client, and Effect has actions: functions that change a
--   state and return a value or an error.
-- - Config is internal/config, which loads a tree. Config/Keys has `keyring` and `resolve`,
--   Config/Search has `search`, Config/Identity has `LoadIdentity` with `pick`, and Config/Load has
--   `loadFrom`; Config/Authentic and Config/Provisioned are about the tree that it returns, and
--   Config/Paging is about the search.
-- - Provision is internal/provision. Provision/Spec has `PeerSpec` and `Validate`, Provision/Text
--   has `ParsePeerSpec`, Provision/Calls has the log of the calls made of the device,
--   Provision/Place has `PlacePeer` and `ReadPeerRecord`, and Provision/Run has `Run` with its
--   deferred function. Provision/Rollback and its companions are about the keys that a run deletes, Provision/Verified is about what a
--   success leaves, Provision/Accepted about the specifications that are accepted.
-- - Wgconf is internal/wgconf, which reads an ordinary client configuration. Wgconf/Lines reads a
--   line, Wgconf/Settings has `Conf` and `set`, and Wgconf/Parse has `Parse`; Wgconf/Secret is about
--   the private key in the file, and Wgconf/Accepted is about what is accepted.
-- - Runtime is part of internal/runtime. Runtime/Plan has `PlanRouting` and Runtime/Pins has `Pins`
--   of routing.go; Runtime/Endpoints and Runtime/Planned are about the plan, Runtime/Table
--   and Runtime/Restored about what is taken back; the log of the calls of the routing table, with
--   their answers, says which routes stand in it.
-- - Handoff is internal/handoff. Handoff/Block has `AllowedIPs`, `ConfBlock` and `SetCommand`, and
--   Handoff/Ranges is about the ranges.
-- - Tests runs the model on concrete records and applies each theorem once.
--
-- Bounds and fuel: the record size is a parameter of every function, since a build has 128 or 64
-- bytes. A byte is a native number; that it is below 256 is stated where it is needed. `parse`
-- has fuel for as many rounds as the record has bytes; a round reads two bytes at least. The loop
-- of `hold` has one round more than there are peers, since with `WalkPeers` each round tries another
-- one. The searches have fuel for a number of pages; a page that is not the last one holds an entry
-- at least.
--
-- Not under the repository, and so parameters: SHA-1, the HMAC of the device under one key, the
-- client of the device, the tokens of a session, Go's parsers of addresses, prefixes, URLs, numbers
-- and Base64, name resolution, the text of addresses, the platform's routing table, and the system
-- calls of a tunnel, the wait for a handshake among them. `SelectNext` is a parameter of the tunnel,
-- as it is in the program. While a tree is loaded the device answers the
-- same call in the same way; while one is written each answer may depend on every call before.
--
-- Not modelled: the text of error messages, of which a constructor with the numbers reported
-- stands here; the command line, the windows, the sockets, the platform's routing commands and
-- the patch of the WireGuard library, which are input and output. The sort of `Canonical` is an
-- insertion sort: Go's `sort.Slice` is not stable, but the keys that it sorts are distinct.
pub mod Common
pub mod Netip
pub mod Descr
pub mod Mac
pub mod Hem
pub mod Effect
pub mod Config
pub mod Tunnel
pub mod Daemon
pub mod Provision
pub mod Wgconf
pub mod Runtime
pub mod Handoff
mod Tests
