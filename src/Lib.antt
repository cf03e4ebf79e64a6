-- ===== src/Lib.antt =====
-- The Rust client of the MetaFlux exchange, as a library of verified models.
--
-- The client (src/) turns user requests into signed actions and posts them to a node over REST or
-- over a WebSocket. A desired price and size are snapped onto a market's grid (src/grid.rs), which
-- the TWAP planner (src/twap_plan.rs) shares; orders are checked and coerced before they are signed
-- (src/types/order.rs, src/rest/exchange.rs), under a nonce that one atomic clock hands out; a
-- placement routes a list of orders to one batch or to separate spot actions (src/types/place.rs,
-- src/rest/place.rs); the answers come back in an envelope with typed error codes (src/rest/mod.rs,
-- src/error.rs). The WebSocket client (src/ws/client.rs) keeps a set of active subscriptions, a
-- connection that correlates posts with their responses, and a loop that reconnects. Every action is
-- signed as an EIP-712 struct (src/wallet/typed.rs, src/wallet/typed_orders.rs): a type string, one
-- word per member, a folded expiry, and a domain; src/rest/exchange_typed.rs posts the body, the nonce
-- and the signature together. The MIP-3 builders (src/mip3) validate a market's parameters and emit the sequence of deploy actions.
--
-- Where each part stands:
--   Base       the shared helpers: Boolean tests, lists, results, division, integers.
--   Json       the JSON values of serde and their accessors.
--   Decimal    `decimal_to_scaled` of src/grid.rs, over the code points of a text.
--   Grid       `round_order_to_grid` of src/grid.rs.
--   Twap       `twap_from_duration` and `usd_to_wire_size` of src/twap_plan.rs.
--   Order      the order types of src/types/order.rs, and `submit_order`, `batch_order` and
--              `check_trigger_limit` of src/rest/exchange.rs.
--   Nonce      `next_nonce` of src/rest/exchange.rs: a step of the relation is one atomic action of
--              one thread.
--   Place      the requests and reports of src/types/place.rs, and `place_order` of
--              src/rest/place.rs.
--   ErrorCode  the codes of src/error.rs.
--   Envelope   `decode_envelope` and `post_json` of src/rest/mod.rs.
--   Signing    the structured actions of src/wallet/typed.rs and src/wallet/typed_account.rs: Actions has
--              a record, a type string and the encoded fields of each, Digest what is hashed of them.
--              A field is kept as the call of its encoder, and `word` is what the encoder writes. Read
--              is a verifier's reading of a type string and fields; the client has no such code.
--   Requests   the calls of src/rest/exchange_typed.rs that sign and post a structured action, each
--              as a function of what posts: `post_signed_typed_raw` at a fresh nonce, or, for a multisig
--              bundle, `post_signed_typed_at_nonce` at the nonce that its roster signed. Carried says
--              what a body has to tell a verifier, by the tag and the member names of the type string.
--   Trading    the trading actions of src/wallet/typed_orders.rs: their words, type strings, owners
--              and digests.
--   Ws         Subscription and Active: the subscriptions and the active set; Connection: one
--              connection of `run_connection` with `dispatch`, as a step function on any sequence
--              of events; Post: the caller's side of a post; Reconnect: `run_background`,
--              the handshake and the wire mode.
--   Mip3       the oracle sources, actions, builders and presets of src/mip3.
-- The module below a part that is named for a property holds the proofs about it, and its Tests
-- hold runs of the code and inputs at which the theorems apply.
--
-- Numbers are natural numbers, and a machine width is written out where the code depends on it: the
-- checked 128-bit products of the decimal strings, the conversions to 64 and 32 bits, the saturating
-- additions. No definition needs fuel: the loops recurse on a text, a list, a number of digits, or
-- a list of events, so each of them ends. An endless loop, such as the one of the reconnect, takes
-- the list of what its rounds come to.
--
-- Parameters stand for what the client calls: the hash, the signature and the hexadecimal text, which
-- are code of other crates, the HTTP transport, the JSON parser and the typed decoders of serde, the
-- zstd decoder, the wall clock. The hash is assumed to answer 32 bytes and nothing else: a collision,
-- where one is spoken of, is two different texts with one hash. Strings are signed as their UTF-8
-- bytes. A one-shot reply channel is a number.
--
-- Not modelled: keys and the recovery of signers (src/wallet/key.rs, src/wallet/sign.rs beyond the
-- digest), which call a curve library; the bundle of a multisig action (src/wallet/multisig.rs); the
-- posting of trading actions in src/rest/exchange_typed.rs; the reads of src/rest/info, whose code is
-- derived; the faucet; the command line; the deprecated auction calls of src/mip3/auction.rs.
pub mod Base
pub mod Decimal
pub mod Grid
pub mod Twap
pub mod ErrorCode
pub mod Envelope
pub mod Json
pub mod Order
pub mod Place
pub mod Nonce
pub mod Mip3
pub mod Requests
pub mod Signing
pub mod Trading
pub mod Ws
