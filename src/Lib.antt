-- ===== src/Lib.antt =====
-- Verification of kdb-solace, the library by which kdb+/q talks to a Solace broker (include/, src/).
--
-- Two threads meet in the program. The Solace context thread decodes a message into a q object, frames
-- its serialized form and puts it into a circular byte buffer (`write_to_buffer`, `cb_write`); the q
-- main thread is woken through a socket pair, takes every frame out (`callback`, `cb_read`) and calls q
-- once.
--
-- Files and the code that they model:
-- - Memory: `memcpy` between byte arrays, with a fault where it would leave one of them.
-- - Ring (src/cb.c, include/cb.h): the circular buffer; a call that must wait is an outcome, and the
--   waiting thread calls again. Fifo is the queue that it promises to be. Ring/Invariant, Ring/Write,
--   Ring/Read and Ring/Refine prove that; Ring/Threads is about unlocked looks at the size.
--   Ring/Signals has the writer that sleeps on the condition `o` and the signal that wakes it, and
--   Ring/Signals/Wakes is about runs of it.
-- - Kdb (include/k.h): q objects, by type number and bits. Kdb/Objects says which of them q can have
--   made.
-- - CString (`strcmp` and arrays that end in a zero byte), Client (the globals and replies of the
--   functions called from q), Solclient (the part of solclient that they call, a parameter).
-- - Topics (`findTopicInList`, `subscribe`, `unsubscribe`, `gettopics` of src/solace_k.c;
--   `subscribeToTopic` and `unsubscribeFromTopic` of src/solace.c): the index of topics. Topics/Rows
--   says what the index stands for, Topics/Find and Topics/Arrays are about its search and its changes,
--   Topics/Subscribe and Topics/Unsubscribe about single calls, Topics/Runs about sequences of them.
-- - Kopts (include/solace_k.h) and Options (`setup_schema`, `config_opts`, `getopts`, `changeloglevel`
--   of src/solace_k.c): the options, as a record; ints are their 32 bits. Options/Fields follows one
--   assignment, Options/Config a whole dictionary.
-- - Field and Decode (`decodeFromSolaceContainer` and its callees in src/solace.c): from a message's
--   fields to q objects. Decode/Numbers, Decode/Nulls and Decode/Types are about its results.
-- - Container and Encode (`encodeToSolaceContainer` and its callees in src/solace.c): from q objects to
--   calls of solclient's containers, which are a parameter. Encode/Vectors and Encode/Codes are about
--   calls and codes, Encode/Faults about what it reads; the switches are in Encode/Items.
-- - Carried: what is published in one process and received in another. Carried/Sent tells, without the
--   code, what can be sent, as which fields, and as what it arrives; Carried/Store has the laws of
--   solclient's containers (names that suit their kind, memory of a bounded size) and Carried/Room the
--   calls that fill one, under which Carried/Fill, Carried/Columns, Carried/New, Carried/Flat and
--   Carried/Whole follow the encoding. Carried/Arrive decodes again (Carried/Streams one vector),
--   Carried/Publish has the laws of messages, and Carried/Delivered goes on to the call of q.
--   Carried/Payloads and Carried/Order are about many messages in runs of both processes. Carried/Cells
--   is a small client library to try them on, and Carried/Broker shows that it keeps the laws.
-- - Message and Publish (`publishToSolace` of src/solace.c, `publishtosolace` of src/solace_k.c): a
--   message from its allocation to its end; solclient's messages are a parameter. Publish/Sent says
--   what a success means (Publish/Filled of the calls between), Publish/Freed what becomes of a message
--   on every path.
-- - Text (`snprintf` with `%d`) and Props (`configure_session_properties` of src/solace.c): the array
--   of a session's settings, with the pointers to arrays of the function that are gone when it is read.
--   Props/Retries is about the number of retries.
-- - Api (all of solclient that is called, a parameter) and Connect (`connectToSolace`, `cleanup`,
--   `setSolaceCallback`, `disconnectFromSolace` of src/solace.c). Connect/Codes is about the codes.
-- - System (`init`, `feedreset`, `sessiondisconnect` of src/solace_k.c, and all calls from q with the
--   events of the Solace thread between them). System/Calls, System/Sound and System/Runs carry an
--   invariant through every run, System/Phases the phases of the connection; System/Start is about one
--   `init`.
-- - Display (`printargs`, `getstats`, `getcbstats`, `checkconnect`, `getsolacelib` of src/solace_k.c,
--   `logtofile` and `messageReceiveCallbackDump` of src/solace.c): what is shown.
-- - Wire (`write_to_buffer` of src/solace.c; `setup_socket`, `add_rec_time`, `callback` of
--   src/solace_k.c): frames, and the way of a message from one thread to the other. Wire/Frames,
--   Wire/Deliver, Wire/Receive and Wire/Delivery follow the two sides; Wire/Callback is one whole
--   callback, and Wire/Trace and its children are about runs in which the threads' steps interleave.
--   Wire/Idle has buffers to try them on.
-- - Events (`common_eventCallback`, `make_msg_dict`, `messageReceiveCallback` of src/solace.c): what
--   the Solace thread does before it writes. Events/Arrivals joins that to the queue; Events/Runs,
--   Events/Follows and Events/Told are about runs of events, messages and callbacks, and Events/Codec
--   is a serialization for tests.
--
-- Bounds and fuel: sizes are natural numbers and C's int differences are integers; counters wrap at 32
-- bits. The fields of `cb` are C ints: its sums stay below 2^31 for capacities up to 2^30, and the
-- program's is 1000000. A container inside a published object has 1024 bytes (`container_size`). The
-- loop of `callback` has one unit of fuel more than the bytes to read, and every round reads at least
-- nine, so the fuel is never used up. `d9` of kdb+ and the clock are parameters.
--
-- Not modelled: the thread `noop`, which only waits, the mutex's own implementation (its sections are
-- single steps), reference counts, the zero that is written behind the bytes of a topic, which lines
-- are logged, and the code of solclient and kdb+, which is not in this repository.
pub mod Base
pub mod CString
pub mod Text
pub mod Solclient
pub mod Client
pub mod Field
pub mod Decode
pub mod Container
pub mod Encode
pub mod Message
pub mod Publish
pub mod Kopts
pub mod Props
pub mod Api
pub mod Connect
pub mod Options
pub mod Topics
pub mod Memory
pub mod Fifo
pub mod Ring
pub mod Kdb
pub mod Wire
pub mod Events
pub mod Display
pub mod Carried
pub mod System
