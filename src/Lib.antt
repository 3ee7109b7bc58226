-- ===== src/Lib.antt =====
-- Verification library for rexa, an implementation of OCapN's capability transfer protocol CapTP.
--
-- A node talks to each peer in a session. A netlayer opens or accepts a stream to the peer
-- (lib/rexa-netlayer-datastream), a builder exchanges and checks the signed start messages on it, and a
-- manager keeps the session (src/captp/session/builder.rs, manager.rs). The session reads syrup values
-- from the stream (src/captp/io.rs), decodes them to operations (src/captp/msg.rs), and hands
-- deliveries to the objects that it has exported under the keys of a map (src/captp/session/keymap.rs,
-- internal.rs). Answers come back to resolvers, which are exported objects themselves
-- (src/captp/object.rs, src/captp/session/resolver.rs). Nodes are named by locators (src/locator.rs).
-- Macros make objects out of methods (lib/rexa-proc).
--
-- Files, and what they model:
--   Common            the libraries' names, tests on numbers and bytes, Rust's `Result`
--   Text              the functions of `str` that the crate calls
--   DashMap           the concurrent map of the dashmap crate: operations and laws, and one map that
--                     meets them
--   KeyMap            `KeyMap` and `Reservation`; Interleaving: tasks that share a map, as a step
--                     relation
--   Reader            `CapTpReadExt`; Frames: whole values; Bounds: what is consumed; Livelock: split
--                     and malformed values
--   Msg, Wire         the messages; the codecs and streams of other crates, with their laws
--   Session           `CapTpSessionInternal`, `ExportManager`; Receive: `recv_event`; Calls, Frame,
--                     Abort, Loop: what any sequence of calls keeps, aborts, and the loop; Handle,
--                     Stream: `CapTpSession` and its streams of events; Fifo: what one side sends and
--                     the other receives; Registry: `SwissRegistry`; Tasks: `send_msg` and `abort`
--                     called by several tasks, as a step relation, and Tasks/Lone by one; Readers:
--                     `recv_msg` called by several tasks
--   Objects           `RemoteObject`, `GenericResolver`, `FetchResolver`; Answers: the way back of an
--                     answer; Promises: `Resolver`; Bootstrap: `RemoteBootstrap`
--   Handshake         `CapTpSessionBuilder`, `CapTpSessionManager`; Signed: any peer; Honest: two
--                     sides of this crate; Conversation: these, and the messages that they send
--                     then; Registered: the manager's table
--   Locator           `NodeLocator`, `SturdyRefLocator`; Hints, RoundTrip, Sturdy: their URIs;
--                     Print: their text; Order: the map of their hints as a quotient, in which the
--                     order of its iteration does not count
--   Netlayer          `DataStreamNetlayer`; Contract: the trait `Netlayer` and what it promises;
--                     Sessions, DataStream: that promise kept; Cache: sessions that are found again;
--                     Tasks: its calls by several tasks, as a step relation; Locks: the calls at the
--                     two ends of streams between nodes, as another;
--                     Tcp: TCP and unix streams; Onion: `OnionNetlayer`; Mock: `MockNetlayer`;
--                     Mock/Pipes: two sides that start a session over its pipes, step by step
--   Proc              `DeliverAttr`, `DeliverFn`; Input: `DeliverInput`; Only: `DeliverOnlyAttr`;
--                     Args: how arguments are read; Resolution: who resolves a promise; Attr,
--                     Metadata: the properties of `impl_object`; Fns: `ObjectFn`, `ExportFn`;
--                     Objects: `ObjectDefParser` and `impl_object`
--   TestNode, */Examples   concrete nodes, codecs and runs
--
-- State that is shared behind locks, atomics or `Arc` is a record that each call takes and returns. An
-- `await` is a call that returns when its future is ready. An exported object is what it does to its
-- session and to the node's state when it gets a delivery (`Reaction`), and it may wait for ever: the
-- loop of `recv_event` waits with it. A HashMap is an association list, text is its bytes, and a
-- panic or a `todo!` that the code can reach is an outcome of its own. Logging is left out.
--
-- Numbers are naturals; the counter of `KeyMap` wraps at 2 ^ 64, and the theorems on fresh keys ask for
-- fewer reservations than that. Two loops run on fuel and answer `none` without enough of it:
-- `consume_syrup` by its rounds, where one round is enough if the buffer starts with a whole value, and
-- none if it holds a part of one; and `recv_event` by the messages that it handles, where one more than
-- the messages before an abort are enough if the deliveries to objects end.
--
-- Parameters with their laws: the syrup tokenizer and codecs, DashMap, buffered readers and writers,
-- the keys of ed25519_dalek, the URIs of fluent_uri, the parsers of syn, the sockets of tokio and the
-- clients of arti. Not modelled: the option sets of attr.rs, which nothing uses, the bodies in
-- `impl_object` that are commented out, `ExportManager::export_answer`, which is a `todo!`,
-- `Debug`, `Drop`, the `Display` of errors, and the tests.
pub mod Common
pub mod DashMap
pub mod KeyMap
pub mod Reader
pub mod Text
pub mod Locator
pub mod Msg
pub mod Wire
pub mod Session
pub mod Handshake
pub mod Objects
pub mod Proc
pub mod Netlayer
pub mod TestNode
