-- ===== src/Lib.antt =====
-- gopher-cypher: a Go driver for databases that speak the Bolt protocol.
--
-- The program and its model. A query is a message (src/bolt/messaging/messages.go), whose
-- fields are packed as PackStream (src/bolt/packstream/packstream.go), cut into chunks and
-- sent over a connection (src/bolt/messaging/request.go). The simple interface reads all rows
-- at once; the streaming one (src/driver/streaming_connection.go) pulls batches of records
-- and serves them one by one to a cursor (src/driver/result.go), and gives the connection
-- back to a pool when it is closed. The records can flow through reactive operators
-- (src/driver/reactive_operators.go). A query is compiled from a tree of clauses to text and
-- parameters (src/cypher/compiler.go, src/cypher/query.go). Compiled queries are kept in caches
-- (src/cypher/cache.go, src/optimized/cache.go), and a call that fails can be repeated
-- (src/driver/retry.go).
--
-- Common: helpers on tests, lists, bytes and machine integers, that no source file is behind.
-- Packstream/Value, Pack, Unpack: the dynamic Go values, the Packer and the Unpacker, over a
-- byte buffer. A map is its entries in the order in which Go's range visits them. Encode is
-- the encoding as a function of the value alone; the other modules are proofs.
-- Messaging/Connection: the net.Conn as a state, with the bytes to come, the bytes written,
-- how many writes still succeed, and how reading ends. Message, Request and Exchange follow
-- messages.go and request.go.
-- Driver/Summary, Stream, Result: the statistics of a summary, the streamingConnectionWrapper,
-- and the StreamingResult over any StreamConnection.
-- Session/Handshake, Pooled: the version check and the logon, and the pooled connection with the
-- times that decide whether it is authenticated anew (src/internal/boltutil/boltutil.go,
-- src/driver/pooled_conn.go, src/driver/run.go). Session/Running is a query on a connection of the
-- pool, from Get to Put; the answers of Get are given, and the calls are recorded. Session/Streaming is
-- RunStream, whose stream keeps the connection until Close.
-- Cache/Table, Fifo, Bounded: a Go map as a list of pairs, the two caches of src/cypher, and
-- the cache of src/optimized. A call of Fetch that another call may overtake sees two states
-- of the cache, one at each look.
-- Reactive/Operators: operators as functions from the events that come in to the events that
-- go out; Reactive/Batch keeps the array that the batches share, and Reactive/ByTime takes the
-- expiries of the timer among its events. Reactive/Pipeline is the chain of
-- operators from a source to a subscriber (src/driver/reactive.go), and Reactive/Collect the blocking
-- operations on it (src/driver/reactive_terminal.go). Reactive/Backpressure is the BackpressureHandler
-- of one goroutine; which ready case a select picks is an argument.
-- Url/Text, Scheme, Resolver: the URL of a database, cut up and made a configuration
-- (src/connection_url_resolver/url_resolver.go).
-- Cypher/Parameters, Tree, Compile, Visit: the registration of parameters, the nodes of a query
-- (src/cypher/*_node.go, src/optimized), and the visitors, as steps on the state of a Compiler.
-- Cypher/Clause, Query: the order of clauses (in Cypher/Place once more, as places), and Query with
-- its lock, its clauses and the cache of their texts. Cypher/Template is what a tree writes with a slot for each value, as a function of
-- the tree alone; the other modules under Cypher are proofs.
-- Retry/Text, Errors, Loop: the search for words, the errors that are tried again, and Retry.
-- The modules Runs hold concrete runs.
--
-- Fuel. The unpacker runs on twice the length of its input and one, the chunk loop, the loop
-- after PULL and the loop of PullNext on the length of the input and one, since each round
-- takes a byte at least. The loops of Collect, Consume and Single take fuel as an argument,
-- since the connection under them is any.
--
-- Not modelled: the value of deadlines and clocks (a time is a number that the caller gives),
-- logging and tracing, the text of error messages beyond the values they report, the TLS and
-- pool libraries beyond their calls, the parser of queries, the language server, and
-- cancellation of contexts; and that the order of a range over a map changes while its entries do
-- not. How fmt prints a column name that is no string, the delay before a retry, what net/url
-- makes of a URI, the order in which a range visits a map, what an operator finds in a batch, the
-- connection under a cursor, and how == and fmt.Sprint treat the values of a query are
-- parameters.
pub mod Common
pub mod Packstream
pub mod Messaging
pub mod Driver
pub mod Cache
pub mod Reactive
pub mod Retry
pub mod Session
pub mod Cypher
pub mod Url
