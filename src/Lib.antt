-- ===== src/Lib.antt =====
-- A model of Boost.Redis, an asynchronous Redis client, and theorems about it.
--
-- The program. A user fills a `request` with commands, which are serialised at once into its payload
-- (include/boost/redis/request.hpp, resp3/serialization.hpp). `connection_base::async_exec` queues
-- it (detail/connection_base.hpp); a writer coalesces the requests that wait into one buffer and
-- writes it, and a reader appends to a buffer what arrives and calls `on_read`, which tells server
-- pushes from responses and runs the incremental RESP3 parser (resp3/parser.hpp) with the adapter of
-- the first request in the queue, or with that for pushes. A request leaves the queue with its last
-- response, or when it is cancelled. Around that, the runner resolves, connects and shakes hands,
-- greets the server with `HELLO` and checks with pings that it answers, and `basic_connection` starts
-- another run when one has ended.
--
-- The files, with what they model below include/boost/redis/:
--   Prelude, Prelude/*     native numbers, 64-bit words, lists, bytes; `Run`, a result or a fault: an
--                          access out of bounds or through a null pointer, an exception, an assertion
--   Error                  error.hpp, impl/error.ipp: `Error`, `Code`; `Failure`: why an adapter stops
--   Resp3/Types, Node      resp3/type.hpp, resp3/impl/type.ipp, resp3/node.hpp
--   Resp3/Parser           resp3/parser.hpp, resp3/impl/parser.ipp: `Parser` is the class, `reset`
--                          its first state, `consume` and `parse` the functions of that name; the
--                          cases of `consume_impl` are functions of their own
--   Resp3/Parser/*         Stack: the stack of sizes; Headers: which headers fault; Lines: the search
--                          for separators; Depths, Messages: the depths of a message's nodes; Safety,
--                          Loop, Resume, Trace: theorems
--   Resp3/Reply            replies as trees, with their bytes and their nodes; Reply/Walk: the rounds
--                          of the parser through one; Reply/Parsed, Chunks: a whole one, and a
--                          message of which a part has arrived; Reply/Growth: how much more the
--                          parser then asks for
--   Resp3/Serialization    resp3/serialization.hpp, resp3/impl/serialization.ipp
--   Resp3/Serialization/*  Wire: a command's bytes; RoundTrip, Command, Delivered: how the parser
--                          reads them
--   Request                request.hpp, impl/request.ipp; Request/Wire: one call; Request/Pipeline:
--                          many calls; Request/Tuples: ranges of tuples
--   Connection             the fields of `connection_base` and of `req_info`, usage.hpp, operation.hpp
--   Connection/Queue       `add_request_info`, `coalesce_requests`, `on_write`, `cancel`, `cancel_impl`,
--                          `cancel_on_conn_lost`, `cancel_unwritten_requests`, `cancel_push_requests`,
--                          `remove_request`, `reset` (here `reset_connection`)
--   Connection/Queue/Order the order in the queue
--   Connection/Read        `is_next_push`, `is_waiting_response`, `on_finish_parsing`, `on_read`;
--                          Read/Delivery, Read/Kept: theorems
--   Connection/Exec        `exec_op`; Connection/Cancelled, Removal: theorems about its cancellation
--                          and about what it removes
--   Connection/Steps       all calls as a step relation; Ownership, Writing, Resent:
--                          theorems
--   Connection/Writer      `writer_op`; Connection/Reader: `reader_op`
--   Connection/Answered    the replies to a pipeline of requests; Answered/Begun, Midway, Paused,
--                          Arrival, Chunks: in parts, with the reader's suspensions; Answered/Calls, Turn,
--                          Executed: the same from async_exec and a turn of the writer on
--   Connection/History     any sequence of steps; Connection/Bounds: how many responses are to come
--   Connection/Append      `append_some_op`, `receive` (here `receive_sync`)
--   Connection/Fifo        an abstract queue and what is asked of it; Fifo/Queues, Fifo/Refinement: the
--                          steps refine it
--   Adapter                adapter/detail/adapters.hpp, adapter/result.hpp; Adapter/Replies, Arrays:
--                          whole replies; Adapter/Raising: their exceptions as the parser
--                          sees them; Adapter/Containers: sets and maps, Containers/Lookup: theorems
--   Adapter/Traits         adapter/detail/response_traits.hpp, adapter/ignore.hpp; Adapter/Served: which
--                          adapter a connection calls
--   Adapter/Filled         the replies to all commands of a request, and a `static_adapter`
--   Adapter/Choice         adapter/detail/result_traits.hpp, adapter/detail/response_traits.hpp: the
--                          adapter by the type of a response and of its elements; Choice/Expected:
--                          the replies that a type expects; Choice/Simple, Aggregates, Sequences,
--                          Maps, Fixed, Decoded, Responses: theorems
--   Adapter/Tuple          adapter/detail/result_traits.hpp: `static_aggregate_adapter`; Tuple/Groups
--   Response               response.hpp, impl/response.ipp: `consume_one`; Response/Consume: theorems
--   Config                 config.hpp
--   Stages                 detail/resolver.hpp, detail/connector.hpp, detail/handshaker.hpp,
--                          detail/helper.hpp: `resolve_op`, `connect_op`, `handshake_op`
--   Hello                  impl/runner.ipp and the greeting of detail/runner.hpp; Hello/Greeting
--   Health                 detail/health_checker.hpp: `ping_op`, `check_timeout_op`; Health/Pongs
--   Runner                 detail/runner.hpp: `run_all_op`, `runner_op`; `run_op` of
--                          detail/connection_base.hpp; Runner/Outcome: theorems
--   Reconnection           connection.hpp: `reconnection_op`, `cancel`; Reconnection/Stopped: theorems
--   Logger                 logger.hpp, impl/logger.ipp
--   */Examples             tests, and the theorems at concrete inputs; Connection/Scenarios: lives of
--                          requests
--
-- Bounds and fuel. A std::size_t is a number below 2^64, and sums and differences that can wrap are
-- taken modulo 2^64. `parse` and `deserialize` are loops on fuel: `parse_fuel` gives two rounds for
-- each byte of the view and two more, which is enough since each round takes bytes from the view or
-- is the last of a bulk. The reader's loop has `reader_fuel`, a round for each byte that is buffered
-- and one more, since a message takes a byte at least. A request in the queue is known by a number
-- that stands for its address.
--
-- Parameters. The adapters, which turn nodes into the users' objects, are arguments: functions of
-- the index of a command, the object and a node, that return the object and, where they do not take
-- the node, an error code or the exception that they throw, which leaves `parse`, `on_read` and the
-- reader. The capacity of the read buffer, `max_read_size`, is an argument of `feed`.
--
-- An operation of Asio's (a read, a write, a timer, a parallel group) is the point where a coroutine
-- suspends: what it completes with, and the coroutine's cancellation state, are arguments of the
-- function that follows it.
--
-- Not modelled: the socket, the resolver and TLS themselves, which are Asio's; unordered and
-- multiple containers, and tuples, as elements of a whole response; the branch of
-- libc++ in the conversion to double; the members that only pass a call on.
pub mod Prelude
pub mod Error
pub mod Resp3
pub mod Request
pub mod Connection
pub mod Adapter
pub mod Response
pub mod Config
pub mod Stages
pub mod Hello
pub mod Health
pub mod Runner
pub mod Reconnection
pub mod Logger
