-- ===== src/Lib.antt =====
-- A model of the parts of xbase that decide who is connected, which node serves a call, and of what
-- goes over its wires.
--
-- xbase is a cluster of gates and nodes. A gate keeps the connections of its clients in a session
-- (session/session.go) and exchanges packets with them (packet). Gates and nodes call each other
-- over connections of their own, with one frame for each request and reply
-- (internal/transporter/internal/protocol); the calling side keeps the calls that wait for a reply
-- and the state of the connection (internal/transporter/internal/client). Both protocols write into
-- the buffers of core/buffer. Which node a call goes to is up to the dispatcher
-- (internal/dispatcher), made anew from the service instances that a registry reports (registry).
-- The links (internal/link) know where a user is, and try a call once more where that was out of
-- date.
--
-- Files, and the code that each models:
--   Prelude        shared names: tests, lists, predicates, the results of a Go call, integers
--   Bytes          the words of encoding/binary that the code uses, in both byte orders
--   Buffer.Writer  core/buffer/writer.go: the array, its length and the offset; `grow`, `growSlice`
--                  and one function for each Write method
--   Buffer.Reader  core/buffer/reader.go: a read is a function on the reader, and stops at an error
--   Buffer.Nocopy  core/buffer/nocopy_buffer.go and nocopy_node.go: a chain of blocks
--   Buffer.Pool    core/buffer/writer_pool.go: which writer a pool gives
--   Protocol       internal/transporter/internal/protocol: reader.go, heartbeat.go and def.go; the
--                  child Fixed has the requests of a fixed layout, Targets those with a list of
--                  targets, Carriers those that carry a message, Replies the replies; Requests has
--                  every request and Replies.Answers the replies as one type each
--   Packet         packet/packer.go, packet/message.go and packet/options.go
--   Dict           Go maps and sets
--   Session        session/session.go: AddConn, Bind, Unbind, Close, Has and Stat; the child Channels
--                  has Subscribe, Unsubscribe and RemConn, Messages has Multicast, Broadcast and
--                  Publish, Traces the calls one after another
--   Registry       registry/registry.go and registry/service_status.go; the child Versions has
--                  registry/version.go
--   Dispatcher     internal/dispatcher: abstract.go and gameRoute.go; the child Services has
--                  dispatcher.go and event.go
--   Transporter    internal/transporter/internal/client: the children Pending (pending.go), Writing
--                  (writeAll and the visit of doWrite in conn.go), Messages (message.go, doWrite and
--                  delete of conn.go, release of client.go), Connection (the states of conn.go) and
--                  Loading (load of client.go)
--   Link           internal/link: the children Sources (the sources of node.go and the events that
--                  change them) and Calls (LocateGate, doBuildClient and doRPC of gate.go)
--   Tests          under each part: the theorems on concrete values
--
-- The correspondence. A function is named as in the source, in snake case: EncodeBindReq is
-- encode_bind_req. A Go call comes to a value, an error or a panic, which Outcome tells apart; a
-- slice out of range and a copy into a short slice are panics. Bytes are natural numbers; a word is
-- the value modulo its width, and signed words are their bit patterns. A stream is the list of the
-- bytes that it will give until its end. The writer that a pool gives is a parameter, of which it is
-- only known that it was released in good order: its bytes are whatever they were. A session has,
-- besides its three maps, the store of what it changes in the connection objects: their users and
-- their channel attributes. A method that holds the lock is one step. What Bind closes after the
-- lock is released is a part of its result. The tables of a dispatcher hold endpoints in place of
-- pointers to them; only the current weights change, and each stands in one balanced table of its
-- route. What url.Parse gives for the text of an endpoint is a parameter, as are random draws, the
-- answers of the network to a dial, a handshake and a write. The messages of a connection between
-- nodes stand in a heap by address, since the caller and the writing goroutine share them; each
-- atomic access to one is a function of its own, so that the orders of the two can be written out.
-- The retry and the close of such a connection change its state outside of the lock: each is a step
-- that marks the state and one that does the rest, and the child Overlaps of Connection puts the
-- steps of a retry and a close in an order where they overlap. A slice is its bytes up to its
-- length, but ParseBuffer is given those up to the capacity, beyond which its bounds panic. The
-- weights of endpoints are of type int: their sums wrap around at 64 bits. The pending calls are one
-- map there. Names of channels are coded by numbers, the empty name by 0, and ids by numbers.
--
-- Bounds. For weighted round robin the sum of the weights times the number of endpoints is below
-- 2 ^ 63, so that the current weights fit an int. The lengths are below 2 ^ 31 where the source casts
-- a length to a word of the size field; each theorem says its own bounds. On fuel run the search for
-- the grade of a capacity, which ends after the 32 grades that the pool has, and writeAll, which has
-- one round for each byte and one more: each round of it takes a byte at least, or ends it.
--
-- Not modelled: the reply with an IP address and the delivery request of the node protocol, whose
-- parts go through the packages for addresses and JSON; the reference counts of pooled blocks;
-- floats and runes; the peeking reader of packet/packer.go; of the transporter client the full
-- queue, the heartbeats and the wait for a connection; of the links what a client calls, the calls
-- of several gates at once and the calls of nodes; the transporter server, the containers and the
-- network layer.
pub mod Prelude
pub mod Bytes
pub mod Buffer
pub mod Protocol
pub mod Packet
pub mod Dict
pub mod Session
pub mod Registry
pub mod Transporter
pub mod Link
pub mod Dispatcher
