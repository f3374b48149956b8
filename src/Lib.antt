-- ===== src/Lib.antt =====
-- simplechatserver: a chat server on epoll with a pool of worker threads and a pool of MySQL
-- connections, modelled from its C++ sources.
--
-- How the parts work together. `main` (main.cpp) makes a `SimpleChat` (simplechat.h,
-- simplechat.cpp), which starts the thread pool, sets up the pool of database connections, opens
-- the listening socket and runs the event loop. The loop accepts connections into the array
-- `users` of `tcp_conn` objects and hands each readable or writable descriptor as a pair (number,
-- object) to the `ThreadPool` (thread/threadpool.h). A worker pops the pair from a `SafeQueue`
-- (safequeue/safequeue.h) and calls the function with that number: `tcp_conn::read_once` or
-- `tcp_conn::sendData` (request/tcp_conn.h, request/tcp_conn.cpp). `read_once` holds an `sqlRAII`
-- guard over the `SqlConnectionPool` (sql/sqlconnectionpool.h, sql/sqlconnectionpool.cpp), which
-- keeps its handles in a second `SafeQueue`, then a blocking one.
--
-- The files, each with a folder of the same name for what is shown of it:
--   Prelude            numbers, lists, C++ integers, C byte arrays, and `Outcome`: how a call ends,
--                      by returning, throwing, waiting, or with undefined behaviour
--   SafeQueue          the queue; a mutex makes each call one step, except `push_b` and `pop_b`, whose
--                      semaphore operation lies outside it: SafeQueue/Protocol has the two parts of
--                      each as separate steps of any number of threads
--   SqlConnectionPool  `init`, `GetConnection`, `ReleaseConnection`, `DestroyPool`, and the guard as
--                      `raii_open` and `raii_close`
--   ThreadPool         the constructor, `append`, `addFunction`, `start`, `close`, the destructor;
--                      ThreadPool/Workers has `work`, `append` and `close` as interleaved steps of
--                      workers, submitters and one closing thread
--   TcpConn            `read_once` in both trigger modes, the calls of `epoll_ctl`,
--                      `parseData` and `sendData`; TcpConn/Conn has the object, TcpConn/Answering
--                      the last two
--   UserTable          `tcp_conn::initAllResult`, which fills the table `user` from the database
--   BlockQueue         `block_queue` (log/block_queue.h), the bounded queue of the logger; `pop_timed`
--                      is the `pop` with a time limit
--   FifoQueue          what SafeQueue and block_queue have in common, as an interface that both fill
--   SimpleChat         every member function with a body, and `main`; SimpleChat/Server has the object
--                      and its two pools, SimpleChat/Listen `eventListen`, SimpleChat/Loop `eventLoop`;
--                      SimpleChat/Turns has the event loop and the workers as interleaved steps, with
--                      what epoll is armed for and the calls of `epoll_ctl` that each task makes; SimpleChat/Working has clients from their acceptance
--                      to their answers, with `work` on the array `users`
--   LogText            what the two loggers share: the date as text, the parts of a file name, and
--                      `snprintf` into a C array
--   Log                class `Log` (log/log.h, log/log.cpp): `init`, `write_log` as its two critical
--                      sections and the hand-over to a BlockQueue, and the thread's `async_write_log`;
--                      Log/Threads has both as interleaved steps of any number of threads and one
--                      writing thread
--   ServerLog          class `ServerLog` (log/serverlog.h, log/serverlog.cpp): `init` and `write_log`,
--                      over a SafeQueue
--   CommunicateQt      communicate_qt.cpp, a server with a thread for each client: `handle_client`
--                      and `main`
--   EpollUse           learn/epoll_use.cpp, an earlier single-threaded server: `main`, `read_once`,
--                      `parsedata` and `writedata`
--   SocketUse          learn/socket_use.cpp, a server that sends back what it receives: its `main`
--
-- Names are those of the source in the spelling of this language (`GetConnection` is
-- `get_connection`, `SqlConnectionPool` stays); where one source function is several definitions,
-- the comment above each says which lines it stands for. A member function is a function from the
-- object to an `Outcome`. Native numbers stand for `size_t`, ℤ for `int`; a conversion from `int`
-- to `size_t` is `to_size`, modulo 2^64.
--
-- Parameters. What code outside the repository returns is an argument: the MySQL calls, the JSON
-- decoder behind `parseData`, the kernel's `read`, `write`, `accept`, `epoll_wait`, `epoll_ctl`,
-- `socket`, `bind`, `listen`, `pthread_create`, `sem_init`, and whether a signal interrupts
-- `sem_wait`; for the loggers the date, the text that a format prints, and which files `fopen`
-- opens; for communicate_qt.cpp whether `mbstowcs` accepts a text.
--
-- Bounds and fuel. The buffers have 1024 bytes (`MAXREADLEN`) and `sempbuf` 100; `MAX_FD` is
-- 65536. The read loop has fuel 1024 - alllen + 2, since every round but the last stores at least
-- one byte; the loop of `DestroyPool` has the size of the queue plus one, since every round takes
-- an entry out. `eventLoop` runs over a finite list of results of `epoll_wait` and then waits.
-- `async_write_log` of class `Log` has a round for each line of the queue and one in which it waits.
-- The read loop of epoll_use.cpp has the fuel of the other one. `m_count`, a `long long`, is taken
-- to stay below 2^63.
--
-- Not modelled. `ServerLog::async_write_log` calls `pop_b` with an argument, which `SafeQueue`
-- does not have, and `check_log_size` has no body; `flush` of the loggers and their destructors
-- pass on what `fputs` has been given. learn/servertest.cpp defines `main` twice, the second time
-- in a copy of communicate_qt.cpp. The test programs; json/json.hpp, a copy of a library; console
-- output; addresses, ports and socket options. `isClosePool`, `recvData`, `SimpleChat::parseData`
-- and `process` have a declaration and no body. The map `connections` of tcp_conn.cpp is never
-- read. Data races between threads on one `tcp_conn` or on a logger are outside the model: a call
-- of a method, or a critical section of one, is one step, except that SimpleChat/Turns and
-- TcpConn/Racing cut a task at its call of `update_events`. What a task of SimpleChat/Turns finds in
-- its buffers is not followed from one task to the next: it may be anything.
mod Prelude
pub mod SafeQueue
pub mod SqlConnectionPool
pub mod ThreadPool
pub mod TcpConn
pub mod UserTable
pub mod SimpleChat
pub mod SocketUse
pub mod BlockQueue
pub mod LogText
pub mod FifoQueue
pub mod Log
pub mod ServerLog
pub mod CommunicateQt
pub mod EpollUse
