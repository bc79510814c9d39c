-- ===== src/Lib.antt =====
-- ext-quiche: a PHP extension that serves QUIC (Rust, paths below are from the repository's root).
--
-- The program has two sides. On tokio's threads each connection has a driver (src/quiche/driver.rs),
-- which quiche calls: it reads streams into the server's event channel, and writes what PHP queued in
-- the connection's write channel. On the PHP thread the server (src/quiche/socket.rs) takes events
-- from the channel and calls PHP callbacks, which are kept in slots per stream; PHP holds stream
-- objects (src/stream.rs) with which it sets callbacks, queues writes and opens streams. The types in
-- between are in src/quiche/conn.rs.
--
-- Files.
--   Base and below: names of the libraries, lists and Boolean tests over the native numbers, HashMap
--     and HashSet as association lists (Map), loops on fuel (Loop), masks of one bit (Bits).
--   External and below: what the program calls of other crates, as records of operations, with the
--     documented behaviour in separate records of laws: a quiche connection (Quiche), the ends of a
--     tokio mpsc channel (Channel), the PHP engine (Php).
--   Connection: the types of src/quiche/conn.rs that both sides use.
--   Driver: StreamQuicDriver and its small callbacks. Driver.Reads is process_reads, a state that the
--     two loops hand on: announce is the block for new streams, read_chunk a round of the inner loop,
--     read_stream that loop, visit and read_next the body of the outer one. Driver.Writes is
--     process_writes: take_write is a round of the loop that empties the channel, flush_queue and
--     flush_streams are the closure and the pass of retain. The proofs stand in their children.
--     Driver.Life is a step relation: a driver's callbacks in any order, with the changes that other
--     threads and the network make between them; Driver.Outgoing is one for what goes out, which keeps
--     the messages that PHP sends.
--   Stream: the state that the server and the PHP objects share through Arc, as a store: callback
--     slots, the tables php_stream_callbacks and the write channels, each by a number that stands for
--     the Arc; the locks that the PHP thread holds, where taking a held one is a deadlock, since
--     parking_lot's mutexes are not reentrant; the calls of callbacks made so far, and the slots for
--     which fire_on_close was called, which the program does not keep.
--     Stream.Methods has the methods of the four stream classes.
--   Socket: QuicheServerSocketImpl with its handlers, dispatch_driver_event, the arms of tick for
--     new and closed connections, and close; Socket.Tick is the loop around them, over a list of what
--     the arms of select! find in each turn. The proofs stand in the children; Socket.Courtesy says
--     which callbacks wait for no lock that is held while they run, and Socket.Once where each slot
--     is over the whole life of a server. Socket.Uses are such lives: ticks,
--     closes, and methods that PHP code calls in between. Socket.Callbacks is a rule for what any
--     callback does, which Stable (what the store keeps) and Balance (locks) use.
--   System: both sides together, the driver's events at the server, in System.Queue with the event
--     channel between the two and their steps in any order, in System.Outbound what PHP writes at the
--     driver, in its child Whole over a whole life with the steps of both in any order, in
--     System.Ending the end of a connection.
--   Text: texts as bytes, and the functions of std that print and parse numbers. Printing has fuel for
--     32 hexadecimal digits, the most of a u128, or 20 decimal ones, the most of 64 bits.
--   Config: src/config.rs, the settings with an accessor each to read (Getters) and to set (Setters);
--     Table gives them one name each, for statements on all of them. External.Std is what the
--     accessors use of std that is not modelled.
--   Error: src/quiche/error.rs. External.Io has std's io errors, and tokio's builder of runtimes.
--   Runtime: src/quiche/runtime.rs, the number of worker threads and get_runtime, as a whole and as
--     steps that threads take in any order; Steps compares the two.
--   SocketAddress and ServerSocket: src/conn.rs, the address class, and the server class around Socket
--     with its event descriptor; bind of src/quiche/socket.rs, which only its constructor calls.
--     Eventfd: src/timer.rs. External.Os and External.Net are what they call of libc and tokio. A
--     Thread is all that a call on the PHP thread works on, the descriptors of the process with it,
--     among which tokio opens and closes its own; a law says that it leaves the others alone.
--   Tests and below: an instance of each external part that meets its laws, runs, and the theorems
--     at concrete inputs.
--
-- Conventions. Stream ids, connection ids and bytes are natural numbers; conn ids wrap at 2^64. The
-- order of an association list stands for the order in which a HashMap is iterated. A loop that the
-- source does not bound takes fuel, and gives none when it runs out; the theorems give the fuel that
-- is enough: one more than the messages in the write channel, or than the backlog of the connection,
-- a bound on the reports and chunks that quiche still has. A callback of PHP is the list of methods
-- that it calls on stream objects, chosen by the engine; what it computes in between is not seen,
-- and it does not call tick or close of the server. An exception ends a method and not the callback.
-- Peer addresses are opaque numbers. Logging is left out.
--
-- Not modelled: what tokio and tokio-quiche do with sockets and TLS, what makes the arms of select
-- ready, when tokio closes the descriptors of sockets that were dropped, callbacks that call methods
-- of the server, and the module's registration.
pub mod Base
pub mod Text
pub mod External
pub mod Error
pub mod Connection
pub mod Driver
pub mod Stream
pub mod Socket
pub mod System
pub mod Config
pub mod Runtime
pub mod SocketAddress
pub mod ServerSocket
pub mod Eventfd
pub mod Tests
