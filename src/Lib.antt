-- ===== src/Lib.antt =====
-- wisp: a message broker that routes published messages by topic to its clients, and links to other
-- brokers to form a mesh. The program's parts and the files that model them:
--
-- * Keys (common/messagekeys.h): the reserved keys, the origins that a subscription's scope is made
--   of, and the payload byte of a SUBSCRIBE. `Keys/Scope` has their laws.
-- * Registry (server/subscriptionregistry.h): the two maps between clients and topics.
--   `Registry/Subscribers` and `Registry/Topics` take one topic's vector and the topics' map apart,
--   `Consistent`, `Removal`, `Mesh` and `Count` are about the operations.
-- * Dedup (server/broker.h, `MessageIdSet`, and server/broker.cpp, `messageIdFrom` and
--   `isDuplicate`): the open-addressed set and the two windows. `Dedup/Probe`, `Write` and `Set` are
--   about the set, `Window` and `Recall` about the windows.
-- * Wire (common/wireframe.h): header, envelope, control messages and the header frame.
-- * Interest (server/broker.cpp, `noteTopicSubscribed`, `noteTopicUnsubscribed`,
--   `noteMeshInterestChange`, `sendInterestTo`, `addPeer`, `removePeer`): what the broker asks of its
--   peers. A link is the sequence of control messages written to it; `Interest/Asked` reads off what
--   is asked for, `Follows`, `Coverage` and `Wanted` relate it to the interest and to what is wanted,
--   `Race` is about two threads.
-- * Beacon (common/beacon.cpp and `parsePort`, `parsePeerList` of common/config.h): the discovery
--   datagram.
-- * Discovery (server/discovery.cpp): the roster of dialed peers; `Discovery/Roster` is about
--   its operations, `Threads` runs them over events of two threads, `Links` is about the
--   links that these leave open, `Race` about a beacon before the
--   drop calls of a cluster change, `Pair` about two brokers.
-- * Queue (common/safequeue.h): the bounded queue between threads; `Queue/Trace` runs it over calls.
-- * Recording (cli/recording.cpp): capture files; `Recording/Capture` is about a record in a file.
-- * Broker (server/broker.cpp): `Broker/State` has the state and `removeClient`, `Broker/Session` has
--   `handleClientMessage`, `Broker/Dialing` has the links that discovery makes and drops,
--   `Broker/Route` has `processMessage` and the delivery, `Broker/Intake` has
--   what `run` takes from sockets and links, `Broker/Upkeep` has the sweep and `broadcastStats`.
--   `Broker/Invariant`, `Recipients`, `Loops`, `Caps` and `Reach` are about them.
-- * Client (common/connectionmanager.cpp): a client of a broker. `Client/State` has its state and the
--   envelopes it makes, `Registration` the callbacks and the subscriptions they make, `Dispatch` what
--   a message triggers, `Requests` publishing and `sendRequest`, `Library` the one instance.
--   `Announced` and `Told` are about what the broker was last told, `Served` about a broker that
--   handles it, `Counted` and `Shortcut` about the callbacks that a message calls, `Replies` about
--   requests.
-- * Socket (common/zmqworker.cpp): the worker thread of a client or a peer link. `Socket/State` and
--   `Socket/Loop` have `runLoop`, cut into one step for each access to what other threads share,
--   `Socket/Run` the calls of other threads and every interleaving. `Order` is about the order of
--   what is sent, `Accounted` about what becomes of it, `Drained` about `sync`,
--   `Flush` about how soon control messages go out.
-- * AnyFrame (common/anyframe.h, and `encodePayload` of common/connectionmanager.h): the frame that
--   names the type of a payload. `AnyFrame/Varint` and `RoundTrip` are about it.
-- * Tool (cli/): the command-line client. `Tool/Options` (cli/options.cpp) has its arguments,
--   `Reasons`, `Checked` and `Parsed` are about what is accepted and refused; `Payload`
--   (cli/payloadformat.cpp) has how a payload is printed, `Shown` is about the bytes of that. `Replay` (cli/commands.cpp, `runReplay`)
--   goes from a capture file to the worker, `Replayed` is about what it sends.
-- * Prelude holds bytes, maps, lists and tests that the parts share; Tests holds the properties at
--   concrete inputs.
--
-- How they interact: the broker holds a registry, the links with the interest, the dedup windows and
-- the discovery. A change of the registry is reported to the interest, which writes to the links; a
-- routed message goes to the registry's subscribers and is flooded to the links; discovery's dial
-- and drop calls add and remove links. A client gives its messages to a worker, on the control lane or
-- the data lane; the worker sends them to the broker.
--
-- Conventions and bounds. A string is a list of byte values. Machine counters wrap as `% 2 ^ 64`.
-- `m_slots.size() - 1` as a mask is written as a remainder, the capacity being a power of two. A
-- probe of the dedup set has one unit of fuel for each slot, which is enough since a window is rotated
-- at 10000 of 32768 slots. A varint has one for each of its ten bytes, and the fields of a frame one
-- for each byte, since a field takes a byte at least. An unordered map is an association list,
-- walked in its order. Each operation under a mutex is one step; the interleaving of two threads is
-- written out where it matters (`Interest/Race`, `Queue/Trace`, `Discovery/Threads`). Time is a number
-- that the caller passes; fresh uuids are arguments. A client's user callbacks are numbers with a
-- function that says what a call does. The worker's messages are numbered as they are queued and it
-- notes when it last began to ask for empty queues, which the code does not; nothing reads either
-- number but the statements about them.
--
-- Parameters: what the ROUTER socket and a link's queue accept, reading a `double`
-- (`Doubles` in `Tool/Options`), protobuf's text format (`Printer` in `Tool/Payload`), and the header's protobuf encoding
-- (`Outside` in `Broker/State`, `Codec` in `Wire`); what a worker's queues and its socket take
-- (`Worker` in `Client/State`, `Moment` in `Socket/State`); the wait of a request (`Wait` in
-- `Client/Requests`), and what it answers a replay (`Session` in `Tool/Replay`); a theorem that needs it assumes that the codec
-- reads back what it wrote, or that the socket takes every group.
--
-- Not modelled: sockets, polling and threads (binding, the wake pipe, restarts); the generated
-- protobuf code; the logger and its throttles; the inspector; of the client library the payload
-- templates but for packed messages, and `waitForConnection`; the commands of the command line
-- but replay, and of replay the pacing, the interrupts and the failure to reach a broker; the packing
-- of the statistics report.
pub mod Prelude
pub mod Keys
pub mod Registry
pub mod Dedup
pub mod Wire
pub mod Interest
pub mod Beacon
pub mod Discovery
pub mod Queue
pub mod Recording
pub mod Broker
pub mod Client
pub mod Socket
pub mod AnyFrame
pub mod Tool
pub mod Tests
