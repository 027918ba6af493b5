-- ===== src/Lib.antt =====
-- orb-relay-messages: the messages between the World app, the Orb and the relay server, the checks
-- that bind them to a pairing, and the client that sends them.
--
-- The program. The crate in rust/ holds the protobuf messages of proto/ and, in rust/src/lib.rs,
-- the code on top of them: how app data is hashed into a QR code and checked against it, how the app
-- checks the announcement of an Orb, how the Orb checks the announcement of an app, and what of an
-- announcement is printed. The crate in relay-client/ is the client: `Client` and `RecvMessage` of
-- relay-client/src/lib.rs put messages on the channel of an actor and await its answers; the actor of
-- relay-client/src/actor.rs connects to the server, answers each message and each response with
-- sends on channels and timers, and connects again after a failure.
--
-- Where it is modelled:
--   Messages.AppData        `AppAuthenticatedData` (rust/src/lib.rs, proto/common/v1/orb.proto):
--                           `hash`, `hash_v1`, `legacy_hash`, `verify`. Preimage writes the bytes of
--                           each format without a hasher; Reference has the hashes of the unit tests
--                           of rust/src/lib.rs; Injective, Digest and Verify are proofs.
--   Messages.OrbData        `OrbAuthenticatedData::verify`
--   Messages.Announce       `AnnounceAppId::verify`, `Display` and `Debug`
--   Messages.Blake3         the hasher, a parameter
--   Relay                   the messages of proto/relay.proto and the `From` conversions
--   Amount                  relay-client/src/amount.rs
--   Client                  the data of relay-client/src/lib.rs, its builders, `relay_payload`
--   Actor.Defs              `State`, `Msg`, the channels and the effects of relay-client/src/actor.rs
--   Actor.Monad             actions: state, ordered effects, and `Ok`, `Err` or a panic
--   Actor.Handler           `handle_msg`, `handle_payload`, `handle_ack`
--   Actor.Session           `connect` and `main_loop`, for one connection. Greeting is about how it
--                           opens
--   Actor.Run               `validate_endpoint` and `run`, over all connections
--   Actor.Keeps, Actor.Handler.Keeps, Actor.Run.Keeps   the rules for what every step keeps
--   Actor.Spec              what the actor does, described without tables: who waits for what, as
--                           functions, and how each message changes them; Whole describes the task
--                           with all its connections. Refines, Opens and Tells compare
--   Actor.Pending           tables of waiting senders, over any key
--   Api                     `Client::connect`, `send`, `ask`, `recv`, `stop`, `reconnect` and
--                           `RecvMessage::reply`
--   Forwarder               relay-client/src/flume_receiver_stream.rs: the task that moves requests
--                           from the flume channel of the client to the stream of a connection.
--                           Order is about one connection, Connections about several
--   Server                  test-utils/src/lib.rs: the relay server of the integration tests. Routing
--                           and Delivery are about who gets a payload, TlsMaterial about its
--                           certificates
--   Exchange                two clients, their forwarders and the server, one after the other: what one
--                           side puts on its stream, relayed to the other. Ask is a question with its
--                           reply, Send a message with its ack, Reopen what a new connection gives the
--                           server first
--   Tls                     relay-client/src/tls.rs: the certificates that the client trusts
--   System                  one client at work: its calls, the channel of its actor, the actor, its
--                           timers and its connections, as steps in any order. Measured, Exact,
--                           Upheld, Keeps and Meets are rules for what holds after every step,
--                           Replays brings the steps in the order of `run`, Described compares,
--                           Paced is about the attempts, Priority about what the
--                           actor takes first, Sent about requests on their way
--   Common                  names of the library, lists, bytes, outcomes, and `HashMap`
--   Tests                   examples. Unit has the unit tests of rust/src/lib.rs
--
-- How code corresponds to definitions. A `Result` is an `Outcome`, which may also be a panic. A
-- `String` is the list of its UTF-8 bytes (the model admits any bytes; where that matters a theorem
-- asks for ASCII), a byte is a number, an i32 its 32-bit pattern; where
-- u32 or u64 arithmetic wraps, it is written out (`conn_attempts` and the sequence numbers wrap as in
-- a release build). A duration is a number of milliseconds, a channel end the number of its channel.
-- The code of the actor is an action: it is given which channels have a receiver (`Up`), and returns
-- the state, what it sent and which timers it started, in order, and how it ended. What it did
-- before an error stays done, as in the code. A timer is an effect that carries the message that it
-- will send; that message comes back as an input.
--
-- The environment. `connect` is given the answers of tonic and of the server (`Answers`), with the
-- connection timeout as one of the ways in which an awaited call ends; `main_loop` is given the
-- list of what its `select!` receives, `run` the list of its rounds. System has the same code in
-- steps, with the calls, timers and messages under way in its state. All orders of acks, payloads,
-- timers, failures and calls are such lists, so that a statement over all lists covers all
-- interleavings. A run over a list that ends before the loop does still runs (`running`). The
-- recursion is on these lists; the only fuel is ten, for the at most ten decimal digits of a
-- 32-bit number in Server. A call that waits for ever has no value.
--
-- Parameters. BLAKE3 (`Hasher`, `update`, `finalize_xof`), with its documented streaming as the
-- hypothesis `IsStreaming`; the P-256 check and prost's `encode_to_vec` (`Signing`); the parser of
-- `http::Uri` (`ParseUri`); the printer of serde_json; tonic's TLS configuration, with what it is
-- documented to trust as the hypothesis `IsTrusting`, and the pinned certificates; the handler of
-- the test server, and rcgen (`Rcgen`) with what it and TLS are documented to do as `IsVerifying`. `IsSized` says that the numbers of app data are u32 and
-- its fields shorter than 2^32 bytes, beyond which the code panics.
--
-- Not modelled. The texts of wrapped errors of other crates, beyond the context that the code adds,
-- and the endpoint that one text of `validate_endpoint` names;
-- logging; rust/build.rs (calls of the protobuf compiler) and the types of the schemas without code
-- of the repository (generated); and of the test server its
-- socket, its start and its end, which are calls of tokio, tonic and flume.
pub mod Common
pub mod Messages
pub mod Relay
pub mod Amount
pub mod Client
pub mod Forwarder
pub mod Actor
pub mod Api
pub mod Server
pub mod Exchange
pub mod Tls
pub mod System
mod Tests
