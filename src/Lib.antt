-- ===== src/Lib.antt =====
-- NetUtils: TCP servers with two threads for each client, and the helpers for their sockets.
--
-- The parts. `IOHelper` (src/NetUtils/IOHelper.cpp) sends and receives whole buffers and prints hex
-- dumps. A broker engine (src/NetUtils/services/tcp/ITcpBrokerServerEngine.cpp) makes a listening
-- socket. Its two classes, `ThreadsTcpBroServer` and `ThreadsTcp6BroServer`
-- (src/NetUtils/services/tcp/multi_threads/), accept clients in `run`: they put a `SocketContext`
-- (src/NetUtils/SocketContext.h) for each into a queue and hand it to `ThreadsTcpBroProcessor`, whose
-- detached thread runs `ThreadsTcpBroWorker::doWork`. That starts a thread that receives into the
-- context's request and one that sends the context's response by `IOHelper::send_bytes`. The plain
-- servers (src/NetUtils/services/tcp/TcpServer.cpp), which the broker replaces, run a client handle for
-- each client, an echo. Two programs start one server of each address family.
--
-- Base: booleans, lists over the native numbers, integers of fixed width.
-- Io: src/NetUtils/IOHelper.cpp. Io/Send is `send_bytes` with `size_t` positions modulo 2^64, Io/Recv
--   `recv_bytes` with its `int` results; each consumes a list of what the system answers, one entry
--   for each call, and waits when the list is used up (`Io/Run`), so no fuel is needed. Io/Hexdump is
--   `hexdump`, with `dumpHex` of services/tcp/multi_threads/ThreadsClientHandle.cpp.
-- Os: the system calls, a parameter. `OsLaws` says which descriptors they open and close; Os/Table is
--   a table of descriptors that keeps it.
-- Protocol: src/NetUtils/protocol.h.
-- Print: how `std::ostringstream` prints numbers; Print/Reader reads texts back.
-- Context: src/NetUtils/SocketContext.h, the contexts of a client, the cast to one of IPv4, the
--   destructor and `toString`, for which Context/Printed has a reader.
-- Engine: `ITcpBrokerServerEngine`, its members, setters, getters and `toString`, for
--   which Engine/Printed has a reader; Engine/Init has `initListeningSocket`, `initIPV4Socket` and
--   `initIPV6Socket`, with the state of the system passed on and each early return as `none`.
-- Server: the two server classes and their processor: `run`, `start`, `stop`, and `restart` of
--   src/NetUtils/services/IEngine.cpp. `run` takes the number of clients that the model serves as
--   fuel. Server/Operations has sequences of the public operations.
-- Worker: src/NetUtils/services/tcp/multi_threads/ThreadsTcpBroWorker.cpp as a step function. A turn
--   is one step of the thread in `doWork` (`main_at`), of the reading one (`read_at`), of the sending
--   one (`write_at`), or of another thread of the program; a theorem over all lists of turns covers
--   every order.
-- Handle: the client handles of src/NetUtils/services/tcp/multi_threads/IPV4ThreadsTcpServer.cpp and
--   IPV6ThreadsTcpServer.cpp, an echo over a queue of messages, in the same form as Worker.
--   Handle/Channel has an abstract channel, a step relation, for both to refine. Handle/Sends has
--   the loop over one message as two steps for each `send`.
-- TcpServer: src/NetUtils/services/tcp/TcpServer.cpp with `initSocket`, `run` and `handleClient` of
--   those two files; TcpServer/Options has the callbacks for socket options.
-- System: the parts together. System/Threads is a broker server while its threads run: the thread
--   of `start`, and the worker of each client, on one system and in any order, where a list of
--   events says who goes on; `stop` is called between two such lists. System/Ledger carries an
--   account of the open descriptors along its steps, System/Interleaved and System/Receiving draw
--   the conclusions; System/Sessions carries what each session has, System/Traces takes the workers
--   apart again, System/Alone compares the thread of `start` with `start` as one function.
--   System/Lifetimes adds what keeps each context alive, the queue of the server or a thread that
--   has not ended: in place of a count it has a list for each set of keepers. System/SetUp is the
--   set-up of the listening socket call by call, and System/Starting the server of System/Lifetimes
--   with this set-up. In System/Broker and System/Shutdown, `run` fixes the clients, and each has its
--   own list of turns;
--   System/Echo and System/Plain have a plain server with its handles in that form.
--   System/PlainThreads is a plain server while its threads run, in the form of System/Threads;
--   System/PlainAlone compares it with `start` as one function, System/PlainBounds,
--   System/PlainSteps and System/Unleaked are about what stays open, System/SecondClose about two
--   handles and one number, and System/PlainEcho about what the clients get back.
-- Program: `main` of src/NetUtils/services/tcp/multi_threads/ThreadsEcho.cpp, with `atoi`, and that of
--   multi_threads/utils/ThreadsEchoEngine.cpp. Program/Threads has two servers and the main thread that
--   joins them, in any order on one system, over an interface; Program/Servers fills it for the broker
--   servers and the plain servers. Program/Audit carries an account of the open descriptors from one
--   server to two, Program/Shared and Program/SharedPlain have it for the two programs, and
--   Program/Lifetimes for the broker servers of System/Starting.
-- AsyncClient: src/NetUtils/async_client/AsyncClient.cpp, callbacks and a `connect` without a body.
--
-- Conventions and bounds. The branch of the preprocessor is the one for Linux. An `int` result of a
-- system call is an integer; -1 becomes 2^64 - 1 where the code stores it in a `size_t`. `errno` is
-- passed on as a number, and `EAGAIN` and `EWOULDBLOCK` have the same one. A text is a list of
-- character codes. Buffers are shorter than 2^64 bytes for `send_bytes` and than 2^31 for
-- `recv_bytes`, whose results are `int`s; the theorems name the bound where they need it. In the
-- worker, what runs under a mutex is one step, and so is a whole `send_bytes`, but for the section under
-- `mMutex`, in which `close` and the assignment after it are two; a spurious wake-up of a condition
-- variable is a turn of its own. A context holds the descriptor that it names until a thread has
-- closed it (`held_fd`). The TRACE level of the log is off; Io/Send/Traced has `send_bytes` with the
-- level on, where a dump may read outside the buffer. An index of `hexdump` is below 2^31, and a
-- message of the IPv6 handle is what stands before a zero byte of its array of 2^20 bytes; what the
-- code does without these, which has no defined result, is not modelled.
--
-- Not modelled: what is logged, the branches under `#if 0` and for Windows, the system calls inside one
-- round of `run` in an order of their own (a round is one step, and so is `initSocket` of a plain
-- server), `atoi` of a number that no `int` holds, which has no defined result,
-- src/NetUtils/services/tcp/multi_threads/ThreadsTcpV6BroServer.h, whose classes nothing defines,
-- and the build.
pub mod Base
pub mod Io
pub mod Os
pub mod Protocol
pub mod Print
pub mod Context
pub mod Engine
pub mod Server
pub mod Worker
pub mod Handle
pub mod TcpServer
pub mod System
pub mod Program
pub mod AsyncClient
