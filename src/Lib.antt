-- ===== src/Lib.antt =====
-- Chaperone, a gateway that spends credentials on behalf of software agents without showing them: an
-- agent signs an intent, the gateway verifies the signature and the freshness, evaluates an operator's
-- policy, asks a human where policy says so, resolves the credential late and uses it once, and
-- appends one audit record for each decision.
--
-- Prelude (and its folder): text as UTF-8 bytes, searches, association lists for hash maps, `str::trim`,
--   decimal numbers, ASCII case, `str::from_utf8`.
-- Policy/Matcher: crates/policy/src/matcher.rs. Policy/Engine: crates/policy/src/lib.rs, the rules and
--   `Policy::evaluate`; Policy/Engine/Load: `Policy::from_toml` behind the TOML reader.
-- Identity/Enrollment: crates/identity/src/enrollment.rs. Identity/Replay: crates/identity/src/replay.rs.
--   Identity/Attest: `Attestor::verify` of crates/identity/src/lib.rs, over the two.
-- Gateway/Operation: the operation bodies of crates/protocol/src/ops.rs and the allowlist of
--   crates/gateway-core/src/privilege.rs. Gateway/Sessions: crates/gateway-core/src/session.rs.
--   Gateway/Environment, Gateway/Opening, Gateway/Intent: `handle_intent`, `open_session`,
--   `audit_decision` and `audit_identity_failure` of crates/gateway-core/src/lib.rs. Gateway/Frames:
--   `handle_session_frame`. Gateway/Dispatch: `handle_message` and `halt`. Gateway/Guard: the watch over
--   the policy file, crates/gateway-core/src/policy_guard.rs; Gateway/Dispatch/Halted runs it together
--   with the messages, in any order.
-- Transport/Codec, Transport/Message, Transport/Server: the frames, the requests and the loop of one
--   connection, codec.rs, message.rs and server.rs of crates/transport/src.
-- Audit/Hex and Audit/Chain: the writer and the verifier of crates/audit/src (writer.rs, verify.rs). What the
--   file system does with a line is an argument of `append`; the journal is the list of its lines.
-- Helper: crates/privileged-helper/src. Pins: the pins of SSH hosts, known_hosts.rs, and the check of a
--   host's key in ssh.rs. Ca: the SSH CA, ssh_ca.rs and ssh_ca_provider.rs (these in crates/gateway-core/src).
-- Protocol/Endpoint: `parse_pg_uri` of crates/protocol/src/ops.rs. Policy/Engine/Save: `Policy::to_toml`;
--   Document and Meaning below it are TOML and the schema of a policy, which its reader is relied on for.
-- Import: `vault import`, crates/cli/src/import_core.rs.
-- Vault: the local store, the shared handle and the router, crates/vault/src/local.rs, shared.rs and
--   provider.rs.
-- Examples: the theorems at concrete inputs.
--
-- State is passed explicitly. An effect on the world (the human gate, the vault, a backend, the audit
-- file, the event feed) is an action in a list, and what the world answers is a parameter, so that a
-- theorem holds for any answers. Code from outside the repository is a parameter too: JSON, TOML,
-- base64, AES-GCM, RFC 3339, SHA-256, Ed25519 and the canonical serializer; nothing is assumed of them,
-- except where a `Laws` (in Audit and in Vault) or a theorem's hypothesis lists what is relied on. One
-- message is handled at a time: the interleaving of concurrent handlers is not modelled, nor are lock
-- poisoning, panics and allocation. Times are natural numbers from the earliest representable instant.
-- Fuel: the loops of `str::trim` and `trim_end_matches` have the length of the text, of which each step
-- removes a byte at least; `digits` has the number itself, and one round more, where each round divides
-- by ten; `drive_connection` takes its fuel as an argument, and its theorems say how much is enough.
pub mod Audit
pub mod Ca
pub mod Examples
pub mod Gateway
pub mod Helper
pub mod Identity
pub mod Import
pub mod Pins
pub mod Policy
pub mod Prelude
pub mod Protocol
pub mod Transport
pub mod Vault
