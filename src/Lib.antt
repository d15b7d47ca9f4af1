-- ===== src/Lib.antt =====
-- cronet-go: Go bindings of the Chromium network stack, with the two clients that are built on them, the
-- NaiveProxy client and the browser xhttp client.
--
-- Base has what the parts share: lists, tests and words over the native numbers, the errors as values,
-- and the byte streams of the standard library (an io.Reader is the list of arrivals that its reads
-- meet, an io.Writer the bytes that it took).
--
-- Padding (naive_conn.go) is the padding of a tunnel: paddingConn with readWithPadding,
-- writeWithPadding, writeBufferWithPadding and writeChunked. The random sizes are a function from the
-- number of a frame; rw.SkipN and buf.Buffer of the sing library are parameters (SkipN with Skips,
-- BufferApi). The loop of writeChunked has the number of bytes as fuel, and each round takes one byte
-- at least.
--
-- Batch (browser_xhttp.go, browserBatch and browserBatchReader) is the bounded buffer between an
-- application and an upload. Each function is one round under the lock; a run interleaves the rounds.
-- A channel that signalLocked replaces is the number of those made before it.
--
-- Conn (bidirectional_conn.go) is a connection over a native bidirectional stream. Conn.antt has what
-- is done under its lock, Conn/Threads.antt the Read, the Write and the callbacks in any order, with the
-- branch that each select takes as part of the event. Closing a closed channel is the value `broken`.
--
-- Duplex (browser_xhttp_duplex.go) is a request whose response is read while its upload is written.
-- Duplex.antt has the handlers, Duplex/Worker.antt the upload worker, the freeing of the buffers and the
-- events in any order. A call that the native stream forbids is recorded as misuse.
--
-- Client (naive_client.go) is the life of a NaiveClient. Wait groups are counters, a wait is a condition
-- under which an event is possible, and Start, dials, tracked connections, proxy goroutines and Close
-- come in any order. That Start stores the running state and closes `started` is one event.
--
-- Grpc (browser_xhttp_grpc.go) is the framing of a gRPC tunnel: the encoder of uploads and the reader
-- that goes on after a deadline where it was. The functions of protowire are a parameter, a record of
-- functions with what their documentation says of a tag and of a length-delimited field. The loop over
-- the fields of a message has its length as fuel, of which a field takes one byte at least; the loop of
-- readContext has a bound on the messages that it reads, and the number of the bytes is enough.
--
-- Request (streaming_request.go) is a URL request on a serial executor. The executor is a queue of
-- tasks; native callbacks, uploads that are over and the request's own work are tasks, which run one at
-- a time, and reads and cancels of other goroutines come between them. What a native call in a task
-- answers is part of the event that runs it.
--
-- Body (streaming_request.go, readerUploadProvider) is the body of an upload, with a stop that may come
-- between any two steps of a rewind.
--
-- Paths (browser_xhttp.go, browser_xhttp_grpc.go) has the paths of requests, as texts of bytes.
--
-- Codec (browser_xhttp.go, browserXHTTPCodec) is what a request of the xhttp client carries. Codec.antt
-- has the options, the defaults and the places of fields; Codec/Uplink.antt the uploads in headers and
-- cookies, Codec/Base64.antt their text, Codec/Padding.antt the padding and newRequest, and
-- Codec/Identifiers.antt the identifiers of sessions. An http.Header is a list of canonical names with
-- their values, and RawQuery is kept as the values that it stands for. The print of a URL and the length
-- of a text in HPACK's Huffman code are parameters, and random bytes are functions. The loop of
-- encodeUplink has the length of the text as fuel, of which a round takes one character at least, and
-- the loop of browserGeneratePadding twice the wanted length.
--
-- Options (browser_xhttp.go, validateBrowserOptions) is which options are accepted. Of an engine, a dialer
-- or a callback only its presence counts.
--
-- Packets (browser_xhttp.go, startPacketUp) is the worker that posts the pieces of the upload buffer as
-- numbered packets. It runs on rounds of Batch; writes, closes, the ends of posts and cancels come
-- between its steps, and what startPacket and a post give is part of the event.
--
-- Session (browser_xhttp.go, browserXHTTPConn and BrowserXHTTPClient) is a session's Write, whose deadline
-- may be replaced while it waits in Batch, and in Session/Clients.antt the parts of the Close of each
-- session and the Close of the client, in any order. A session calls the engine by its requests and by
-- the goroutine of a packet upload, each until it is over.
--
-- Dns (naive_dns.go) is what a NaiveClient's resolver does to names and records. Dns.antt has the names,
-- as texts of bytes, Dns/Messages.antt the messages and their records, Dns/Resolvers.antt the resolver
-- with ECH and the one of a redirected server. SetReply and Fqdn of the DNS library are parameters with
-- what their documentation says; a message is a value, so the copies that the code makes are the
-- messages themselves. EqualFold is that of ASCII names. Dns/Serving.antt has the loop that serves a
-- stream, whose fuel is above the number of its queries, and what is sent for a datagram; Pack and Unpack
-- are parameters too, of which nothing is assumed. The authority and additional sections of a message are
-- kept as they come, and a SVCB record is a kind of its own, since the code filters HTTPS records of the
-- answer section only.
--
-- NetError (net_error.go) is the search in the table of network errors, their texts, and the errors of Go
-- that they stand for. The generated table is a parameter; the fuel of the search is the table's length,
-- which bounds the halvings.
--
-- The native library and its bindings, the sockets, the loaders and the build tool are not modelled:
-- they are calls of other systems.
pub mod Base
pub mod Padding
pub mod Batch
pub mod Conn
pub mod Duplex
pub mod Client
pub mod Grpc
pub mod Request
pub mod Body
pub mod Paths
pub mod Codec
pub mod Options
pub mod Packets
pub mod Session
pub mod Dns
pub mod NetError
