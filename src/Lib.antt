-- ===== src/Lib.antt =====
-- dws is a network library in the manner of muduo: one event loop per thread, non-blocking
-- sockets, and the base of threads, queues, dates and logging that it stands on. This development
-- models the parts that carry its logic, in five parts.
--
-- Base holds what the others share: lists over the native numbers, `size_t` arithmetic that wraps
-- at 2 ^ 64 (Base/Size), signed integers with C's division and casts (Base/Int), and `Result`,
-- whose faults are a failed assertion, an exception of a container or of the code, an access out of
-- range or through a dangling pointer, and LOG_FATAL.
--
-- Net models src/net/include and src/net/src.
--   Net/Buffer: class Buffer (src/net/include/Buffer.h, src/net/src/Buffer.cc), its storage as
--     a list of bytes and its two indices; child modules for the operations' proofs, for the
--     integers in network byte order (Ints, with src/net/include/Endian.h), the searches (Search)
--     and readFd (ReadFd).
--   Net/Channel: class Channel, an event mask as a record of its bits, and the dispatch of
--     handleEvent.
--   Net/PollPoller, Net/EPollPoller: the two pollers over one heap of channels, which the
--     pollers share with the owners of the channels. poll(2) and epoll_wait(2) give their reports
--     as arguments; epoll_ctl(2) is a record of operations with its documented outcomes as laws.
--   Net/LoopPool: class EventLoopThreadPool. Net/LoopThread: class EventLoopThread, the hand-over
--     of its loop as steps under the mutex.
--   Net/TcpConnection: class TcpConnection over Buffer and Channel. A call returns the
--     connection and the effects it asked for: callbacks, functors queued in the loop, calls on
--     the socket.
--   Net/Connector: class Connector, in the same way.
--   Net/EventLoop: the functors queued in class EventLoop, and the eventfd that wakes the loop;
--     queueInLoop wakes the loop in a step after the one that holds the mutex.
--   Net/Timers: class TimerQueue (src/net/src/TimerQueue.cc) with class Timer, over a heap of
--     timer objects; the two std::sets are ascending lists (Base/OrderedSet). The callbacks of
--     expired timers are steps between the two halves of handleRead (Net/Timers/Run).
--   Net/Acceptor: class Acceptor and sockets::accept (src/net/src/SocketsOps.cc), with what is
--     done to descriptors as effects.
--   Net/TcpServer: the connections of class TcpServer (src/net/src/TcpServer.cc), over the pool
--     of loops in Net/LoopPool; their names are printed as in Log/Stream.
--   Net/TcpClient: class TcpClient (src/net/src/TcpClient.cc). The pointers that queued functors
--     refer to live in frames of the stack, which end with their call.
-- Time models src/base/src/Date.cc and src/base/src/TimeZone.cc: Time/Date has the day numbers,
--   Time/DateTime the broken-down times, Time/Zone the transitions of a time zone and the lookups
--   in them, Time/ZoneFile the reading of zone files: class File, readDataBlock and
--   readTimeZoneFile over the bytes of a file, and the format itself (Time/ZoneFile/Format).
-- Threads models the queues, the latch, the pool of threads and the start of a thread of
--   src/base/include and src/base/src. What a call does while it holds a mutex is one step, what it
--   does without is another, a wait is a step that is not enabled, and an interleaving is a history of
--   steps. Threads/BoundedQueue leaves out the call of queue_.reserve, which does not compile.
-- Log models src/base/src/LogStream.cc (Log/Stream) and src/base/src/AsyncLogging.cc
--   (Log/Async): the text of a number, the fixed buffers, and their way from the front ends to
--   the back end. Log/File has the rolling and flushing of src/base/src/LogFile.cc over
--   AppendFile of src/base/src/FileUtil.cc, Log/SmallFile the reading loop of ReadSmallFile in
--   the same file, and Log/Text class StringPiece (src/base/include/StringPiece.h). Log/Line puts
--   a line of the log together as class Logger does (src/base/src/Logging.cc), over the streams
--   of Log/Stream and the times of Time/Zone.
--
-- Fuel: `convert` has 20 turns and `convertHex` 16, which a 64-bit number never uses up
-- (Log/Stream/Decimal). The loop of AppendFile::append has two turns more than the line has
-- bytes, and ends in its second (Log/File/Kept); that of readToString takes its number of turns as
-- an argument, and one more than the limit is enough (Log/SmallFile/Whole). All other loops are
-- recursion on a list or a number.
--
-- Sums and products of C's signed integers are integers: they are those of the code where they fit,
-- which Time/Date/Range shows for the days of the theorems on dates.
--
-- Not modelled: system calls and sockets, files, floating point, other printing through snprintf,
-- exceptions of callbacks, and the classes that only pass calls on. What a system call returns is an
-- argument.
pub mod Base
pub mod Net
pub mod Time
pub mod Threads
pub mod Log
