-- ===== src/Lib.antt =====
-- A model of the SDID bridge: an identity broker that turns a national identity authority (SDID) and
-- a citizen's enrolled phone into OpenID Connect logins for relying parties.
--
-- The parts and how they meet:
--   * Shared (packages/shared/src): assurance levels, error codes, and the text of a challenge that a
--     device signs.
--   * Attestation (packages/attestation/src): the strict readers of DER (der.ts) and CBOR (cbor.ts), and
--     the verifiers above them. A reader's position is the list of bytes that are left; `write` and
--     `Encodes` describe the encodings independently of the readers. Texts, Base64 and Points follow
--     common.ts, Verdict follows types.ts and assurance.ts, X509 follows x509.ts, ChainInput,
--     KeyDescription and KeyAttestation follow key-attestation.ts, AuthData and AppAttest follow
--     app-attest.ts, IntegrityPayload and PlayIntegrity follow play-integrity.ts. What they take from
--     node:crypto and JSON.parse is the record NodeCrypto of Node. The modules named Genuine say what an
--     accepted attestation proves.
--   * MatchEngine (packages/match-engine/src/index.ts): the comparison of a capture with SDID's
--     reference. Enrolment calls it, after the gate of Attestation.
--   * Adapter (packages/sdid-adapter/src/resilience.ts): the circuit breaker and the retries around
--     every call of SDID.
--   * Broker (apps/broker/src): the request handlers. World has the tables of db/schema.ts and the
--     key spaces of Redis; Store and Table are the commands and the SQL that the handlers use;
--     Handler is their monad. Challenge, RateLimit, Audit, Signature, Pairwise, Reverification and
--     Session follow trust/ and audit/; Attestation is trust/attestation.service.ts, which calls the
--     verifiers; Keys is keys/keys.service.ts, Custody is keys/adapter-custody.ts, Jose is the encoding
--     of signatures in keys/key-custody.ts, and Keys.Boundary composes them: what signs, probes, starts
--     and rotates. Anomaly is anomaly/anomaly.service.ts,
--     Admin is modules/rp/admin.controller.ts and admin.guard.ts; Devices, Enrolment, Consent, Ciba,
--     Token, Authorize and Userinfo follow modules/. A handler is named after its method, in lower case
--     with underscores: `bc_authorize` is `bcAuthorize`, `decide` is `decision`, `log_in` is `login`,
--     `ciba_grant` is `cibaGrant`. Lifecycle and Guards are about all the handlers together.
--   * Mobile (apps/mobile/src/core): how the app groups the requests that wait (pending.ts), how it
--     retries its calls (transport.ts), and what it enrols, signs and sends (client.ts; Wire has its
--     calls), the broker being any function of what it was asked so far and the platform's key store,
--     prompt, attestation and camera being parameters. `log_in_app`, `decide_app` and
--     `revoke_binding_app` are the client's `login`, `decide` and `revokeBinding`.
--
-- Conventions. A handler takes the clock in milliseconds, the random ids it would draw, and the
-- answers of SDID as arguments; one reading of the clock serves a whole request. What it wrote before
-- it threw stays written, since each statement commits by itself; an INSERT on a key that is taken
-- throws. Requests overlap: a handler that reads rows and then consumes one of them by a guarded
-- UPDATE is modelled in two parts, and the theorems on single use hold for rows read at any earlier
-- time. Texts are strings, JSON columns are records, and the context of an audit event is a list of
-- fields. ECDSA, SHA-256 and HMAC are parameters (Environment), and so is whether custody signs for the
-- handlers at a time; the chain of Audit is over any hash. The cap on devices is split in the same way
-- into its SELECT and the INSERT. Every other handler runs as one step: a theorem about one of them is
-- about a request that no other one interrupts.
--
-- Bounds. The readers of DER and CBOR recurse on the nesting that the caps allow, one more than the
-- cap, so the recursion never ends early; loops over bytes recurse on the bytes. The retries recurse
-- on the retries that are left, in the adapter and in the app.
--
-- Not modelled: the evidence and the details of a rejection, which no decision reads; the pinned roots
-- and the checks of the settings of attestation/src/index.ts; what Google's decoder does with a token,
-- and the parsing of development tokens, which are parameters; the SDID strategies and the push
-- transports, which are HTTP clients; the custody back ends behind the adapter and the development
-- custody; the timer and the shutdown of keys.service.ts; metrics and logging; the HTML of the authorize
-- page; the rest of the mobile application, its lists and screens, and the test programs. An outage
-- of the database or of Redis is not modelled, save that an append of keys.service.ts may fail. The keys
-- of anomaly.service.ts have a prefix of their own in Redis and are a state of their own, and so is the
-- memory of keys.service.ts; its operations over custody run one at a time, and only a flush is in two
-- parts.
pub mod Prelude
pub mod Shared
pub mod Attestation
pub mod MatchEngine
pub mod Adapter
pub mod Broker
pub mod Mobile
