-- ===== src/Lib.antt =====
-- Verification of network-core, a C++ library for network programs.
--
-- Parts and files. A message travels from `network/net/raw_msg.hpp` (header, body and batch:
-- Net/Header, Net/Message, Net/Batch) through a connection of `network/net/tcp_connect.hpp` (the
-- receive buffer `connection_reader`: Net/Reader; `tcp_connection`: Net/Connection) to the router.
-- The header of the messages between servers is `network/rpc/net/msg_header.hpp` with the protocol
-- numbers of `network/net/common.hpp` (Rpc/Protocol, Rpc/MsgHeader). The RPC layer of
-- `network/rpc/net` takes a header by the record RpcHeader (Rpc/Wire): a call or an answer is a
-- context of `async_rpc_context.hpp` (Rpc/Context), the containers of that file keep what is to be
-- sent and what waits (Rpc/Calls), `async_rpc_channel.hpp` sends and receives (Rpc/Channel, Recv
-- below it), and `router_impl.hpp` with `invoker_traits.hpp` finds the handler of a request and
-- makes the answer (Rpc/Router). `network/thread/thread_pool.hpp` and `executor_pool.hpp` are
-- Thread/ThreadPool and Thread/ExecutorPool, and `network/timer/timer_manager.hpp` is
-- Timer/TimerManager with its handle in Proxy below it. Beside these stand the reader of
-- `network/serialize/detail/csv_parser.hpp` (Serialize/Csv) and the byte stream of
-- `network/base/memory_stream.hpp` (Base/MemoryStream), and the blocks of
-- `network/base/memory_pool.hpp` (Base/MemoryPool). Common holds what they share: tests on
-- numbers, lists, options, and integers in memory. A function of the model has the name of the
-- member function that it models; a pointer into a buffer is an index, and a member function
-- returns the new state and its effects. What threads, clients and completions do in turn is a
-- list of moves or events, and a theorem on a component takes any such list. The server
-- `network/net/tcp_server.hpp` and its `ios_pool.hpp` are Net/TcpServer and Net/IosPool.
--
-- The tasks that a call or a connection returns, `rpc_task.hpp`, are Rpc/Task and Rpc/ConnectTask: a
-- program's tasks are a list, and what it does with them is a list of moves. The search, the
-- wildcards and the marks of `network/util/string.hpp` are Util/StringUtil, `network/base/date_time.hpp` is
-- Base/DateTime, and the factory and manager of `network/service` are Service.
--
-- Environment. The handlers of a router, with the codec around them, are functions. The socket,
-- the io_service, the clock, the byte-order functions of the platform and boost::asio are
-- arguments or records with the documented laws that are used; so are the pools of boost, without a
-- law, and the copy of a string that `matching_string` makes for matchcase, which is undefined.
-- The header of the RPC layer is a parameter too; its laws are the record HeaderLaws, and
-- Rpc/MsgHeader/Laws proves them of both headers of the program. Bytes are natural numbers; integers of
-- w bits are natural numbers with the wrap written out where it can happen. Strings of C are the lists of their characters. boost gives the fields of a time, and fmt writes
-- its numbers.
--
-- Bounds and fuel. The search of a string takes twice the length of what is searched for, and
-- twice that of the source plus two, as fuel; the match takes the length of the pattern. That
-- these are enough is part of their theorems. extend_any takes one turn more than the string has
-- characters; with an end mark that is not empty that is proved to be enough. The loop of
-- `connection_reader::parse` takes twice the number of bytes held plus two as fuel; that it never
-- runs out is proved for every reader.
--
-- Not modelled. The servers and clients that own the channels, the arithmetic of times,
-- the adapters to serialisation and database libraries, and the wide strings of the byte stream
-- are not part of it yet; the copies of other projects are left out.
pub mod Common
pub mod Net
pub mod Timer
pub mod Rpc
pub mod Base
pub mod Serialize
pub mod Service
pub mod Thread
pub mod Util
