-- ===== src/Lib.antt =====
-- rzmq: a model of the core crate, core/src, of a ZeroMQ messaging library in Rust.
--
-- The program turns application messages into ZMTP frames and back, over sessions that begin
-- with a greeting and a security handshake, and routes messages between sockets by patterns.
-- The parts and their files:
--   Base, Base/*: lists, bytes, Boolean tests and association lists over the native numbers.
--   Error: core/src/error.rs. Message: core/src/message/msg.rs and flags.rs.
--   Zmtp/Parser: core/src/protocol/zmtp/manual_parser.rs, the parser of the live receive path;
--     Zmtp/Codec: codec.rs, the encoder of every outgoing frame and a second decoder;
--     Zmtp/Flags: the flag bits of both; Zmtp/Greeting: greeting.rs; Zmtp/Command: command.rs.
--   Patterns/Trie, LoadBalancer, Framing, Router: the files of core/src/socket/patterns with
--     those names; Patterns/Orchestrator: incoming_orchestrator.rs there; Patterns/Coordinator:
--     pipe_coordinator.rs there.
--   Socket/Req, Rep, Push, Pull, Sub, Router, Dealer: core/src/socket/req_socket.rs and its
--     neighbours of those names; Socket/Core: the part of core/src/socket/core/state.rs that
--     they read; Socket/Publish: pub_socket.rs and patterns/distributor.rs; Socket/Options:
--     options.rs; Socket/Peers and Socket/Frames: the loops that several sockets share.
--   Runtime/WaitGroup: core/src/runtime/waitgroup.rs.
--   Security/Plain: core/src/security/plain.rs and mechanism.rs; Security/Framer: framer.rs and
--     cipher.rs; Security/Negotiate: mod.rs, null.rs and the security fields of
--     core/src/socket/options.rs.
--   Sessionx/Heartbeat: core/src/sessionx/protocol_handler/heartbeat.rs; Sessionx/V2:
--     v2_path.rs; Sessionx/Handshake: the greeting and the security handshake in handshake.rs
--     there.
--   Tests: runs on small inputs.
--
-- A method that changes its object is a function to the answer and the object after the call; a
-- buffer that it consumes is a list of bytes, returned as what is left. Functions keep the
-- names of the source; a helper that the source writes in line has a name of its own. The
-- framers write with the codec and read with the parser, the negotiation reads the greeting and
-- starts PLAIN, and the heartbeat reads and creates commands. A socket type keeps an
-- orchestrator of the frames that arrive, and a load balancer, a distributor or a trie of
-- subscriptions; the options of a socket give the configuration that the negotiation reads.
-- Where an asynchronous operation waits, it is cut: what other operations make of the socket
-- meanwhile is an argument. A send of a DEALER, and a round of its task, give besides their
-- answer the list of what connections took, which grows where a connection is called.
--
-- Bounds and fuel: a byte is a natural number, and casts to 8, 16, 32 and 64 bits are written
-- out as remainders. The loop of the security handshake takes three rounds at most, since each
-- changes the state of the mechanism or ends the loop. Three more loops are bounded: that over
-- the padding of a greeting by its 31 rounds, that over READY properties by the length of the
-- body, since each round takes a byte at least, and that of the encrypting framer by the length
-- of the network buffer and one, since each further round takes two bytes at least. The search
-- for a peer has one round more than its queue has entries, since each round drops one. The
-- digits of a pipe's number are bounded by the number and one. The rounds of a DEALER over its
-- peers are counted as the source counts them.
--
-- Parameters: whether a string is UTF-8, what the network delivers to a handshake and how its
-- writes end, the cipher of the encrypting framer, the clock readings and the write of a PING,
-- what the connections of a socket answer, what the bounded queue of the crate fibre gives or
-- how a push to it ends, the connections that end a wait for a peer, what the semaphore of a
-- pipe answers, whether the core's command channel is open, and what the core's maps of
-- endpoints hold. Left out: the texts of errors and log lines, locks and the interleavings that
-- they allow but for those at the places where an operation waits, message metadata, ZAP (which
-- the source stubs), and the mechanisms CURVE and NOISE_XX, which are optional features. Not
-- modelled: the session actor, the READY phases of the handshake and the frames of the data
-- phase, the rest of the socket core, endpoints, the rest of the runtime, the transports,
-- throttling (floating point) and the io_uring back end.
pub mod Base
pub mod Error
pub mod Message
pub mod Zmtp
pub mod Patterns
pub mod Security
pub mod Sessionx
pub mod Socket
pub mod Runtime
pub mod Tests
