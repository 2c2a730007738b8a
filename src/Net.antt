-- ===== src/Net.antt =====
-- src/net: the reactor, its connections and their buffers.
pub mod Timers
pub mod Buffer
pub mod Channel
pub mod PollPoller
pub mod EPollPoller
pub mod LoopPool
pub mod TcpConnection
pub mod Connector
pub mod EventLoop
pub mod Acceptor
pub mod TcpServer
pub mod TcpClient
pub mod LoopThread
