-- ===== src/Lib.antt =====
-- wl-tmm: a server library around an event loop in C++. An EventLoop watches descriptors with epoll,
-- runs functions that other threads queue, and turns a TimingWheel; connections and sockets are
-- events of a loop, read into a MsgBuffer and hand it to callbacks such as TestContext.
--
-- The modules and what they model, by paths from the repository's root:
--   Prelude       lists, maps, integers and Boolean tests that the modules share;
--   Endian        the byte orders of src/network/base/MsgBuffer.h;
--   MsgBuffer     src/network/base/MsgBuffer.h and MsgBuffer.cpp: a vector of bytes with a reader and
--                 a writer index. Contents is its abstract view, the readable bytes, and Queue compares
--                 any operations with a queue of bytes; Append, Ints, NetworkOrder, ReadFd and Search
--                 are the operations of these names;
--   TestContext   src/network/TestContext.cc: messages behind a 32-bit length. Frames has whole
--                 messages, Stall partial ones;
--   TimingWheel   src/network/net/TimingWheel.cc: four wheels of slots. Turn has the ticks, and the
--                 other modules what becomes of an entry: Insert, Destroy, Conserve, Ticks, Fire and
--                 Due follow timers to their ticks, Schedule, Hours and Doomed draw the conclusions
--                 for RunAfter, Sound and Total are about ticks that end, Clock about the guard; Expire,
--                 Dropped, Idle and Alive follow an object that the wheels hold until it expires;
--   EventLoop     src/network/net/EventLoop.cc, Event.cc and PipeEvent.cc: the registered events, the
--                 calls of epoll_ctl and the queue. Interest compares them with the kernel, Registered
--                 is about single descriptors, Queue is RunInLoop, Dispatch is a turn of the loop, Timers hands timers to the wheels, Pipe is
--                 what wakes the loop;
--   Connection    src/network/net/Connection.cc: addresses, setting and clearing contexts, and
--                 Active, which runs in the loop (Activation);
--   TcpConnection src/network/net/TcpConnection.cc: sending, closing and the four events. Write and Read
--                 are OnWrite and OnRead, Idle the idle timeout and Life what extending it is worth; Handover is
--                 about calls from other threads, Closed about closed connections; Stream and Order
--                 follow what is sent, Stall is about writes that end and that do not;
--   Acceptor      src/network/net/Acceptor.cc: accepting, and opening the socket (Listen) and
--                 again (Reopen);
--   TcpServer     src/network/TcpServer.cc: the connections of a server, the life of one (Lifetime) and its
--                 idle timeout (Idle); Serve composes the server with its acceptor;
--   UdpSocket     src/network/net/UdpSocket.cc: Datagrams is about sending, Receive about OnRead, Idle
--                 the idle timeout;
--   UdpClient     src/network/UdpClient.cc: a client on its UdpSocket, and what closing leaves (Life);
--   UdpServer     src/network/UdpServer.cc: a server on its UdpSocket;
--   TcpClient     src/network/TcpClient.cc: the status of a client on top of its TcpConnection;
--   DnsService    src/network/DnsService.cc: the table of hosts and a round of refreshing it; Info makes
--                 addresses of what getaddrinfo finds;
--   EventLoopThread  src/network/net/EventLoopThread.cc: a step relation of the thread of a loop and of
--                 its owner, with the lock and the notification. Handover is about what both see, Return
--                 about that Run returns, Destroy about the destructor;
--   EventLoopThreadPool  src/network/net/EventLoopThreadPool.cc: the turns of the loops;
--   InetAddress   src/network/base/InetAddress.cc: hosts and ports as texts, and the classes of addresses;
--   SocketOpt     src/network/base/SocketOpt.cc: addresses of sockets (Addresses) and options;
--   StringUtils   src/base/StringUtils.cc: prefixes, suffixes, the parts of a path, and Split;
--   TTime         src/base/TTime.cc: the clock and the text of a time (Width); Stopped is about the
--                 timers of a loop on it;
--   TaksMgr       src/base/TaksMgr.cc and Task.cc: which tasks run and which stay;
--   FileMgr       src/base/FileLog.cc and FileMgr.cc: log files, their rotation, and the table of logs;
--   Logger        src/base/Logger.cc and LogStream.cc: what the log statements write (Lines);
--   Config        src/base/Config.cc: what a document (Documents) sets (Fields, Load), and the
--                 manager. Values is a small JSON library for examples;
--   Main          src/main/main.cc: the start of the program, from a document to its logger;
--   Packet        src/mmedia/base/Packet.h and Packet.cc: a packet with its type, size and capacity.
--
-- A function that changes an object takes its state and returns the new one. A failed assertion, an
-- access out of a container and an exception are `none` or a constructor of the result. Machine
-- integers wrap where the source's do (size_t, uint32_t); a tick counter that would wrap is excluded
-- by a hypothesis. Loops over data are structural; the loop of ParseMessage takes fuel, and two rounds
-- for a message and one more are enough. The destruction of wheel entries is structural in the entry.
-- The loop of SplitString takes fuel too, a round for each character and one more. The system calls,
-- the callbacks and the clock are arguments.
--
-- Not modelled: threads other than by the order of their steps and of what they queue, the endless
-- loop of main, construction idioms and setters of callbacks, what the system calls do beyond their
-- arguments and results, the binding of threads to processors, GetContext of Connection.h, which does
-- not compile, manual test programs, and the third-party library lib/jsoncpp, which is an argument of
-- Config with its documented behaviour.
pub mod Packet
pub mod Prelude
pub mod Endian
pub mod MsgBuffer
pub mod TestContext
pub mod TimingWheel
pub mod EventLoop
pub mod TcpConnection
pub mod Acceptor
pub mod Config
pub mod Connection
pub mod TcpServer
pub mod SocketOpt
pub mod StringUtils
pub mod InetAddress
pub mod Logger
pub mod Main
pub mod UdpClient
pub mod UdpServer
pub mod UdpSocket
pub mod TcpClient
pub mod DnsService
pub mod EventLoopThread
pub mod EventLoopThreadPool
pub mod TTime
pub mod TaksMgr
pub mod FileMgr
