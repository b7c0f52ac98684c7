-- ===== src/Lib.antt =====
-- Verification library of sevent, a C++ library of event loops and TCP connections in the style of
-- muduo.
--
-- An `EventLoop` runs in one thread. It asks its `Poller` which descriptors are ready and calls the
-- handlers of their `Channel`s, then runs the tasks that other threads queued. A `TcpConnection` is a
-- channel: its read handler fills the input `Buffer` and calls the user, a send writes to the socket
-- or leaves bytes in the output `Buffer` for the write handler, and a close takes the channel out of
-- the poller and tells the owner to drop the connection.
--
-- Files and the code that they are about:
--   Base           helpers: Boolean tests, lists, faults, memory of a vector, bytes of an integer
--   Buffer         sevent/net/Buffer.h, sevent/net/Buffer.cpp, sevent/net/EndianOps.h
--   Channel        sevent/net/Channel.h, sevent/net/Channel.cpp
--   TcpConnection  sevent/net/TcpConnection.h, sevent/net/TcpConnection.cpp
--   EventLoop      sevent/net/EventLoop.cpp, sevent/net/WakeupChannel.cpp: steps of the owner thread
--                  and of other threads, in any interleaving
--   Poller         sevent/net/poller/EpollPoller.cpp, sevent/net/poller/PollPoller.cpp,
--                  sevent/net/poller/SelectPoller.cpp
--   Timers         sevent/net/Timer.cpp, sevent/net/TimerManager.cpp, sevent/base/Timestamp.cpp
--   Connector      sevent/net/Connector.cpp
--   Http           sevent/net/http/HttpParser.cpp; in Http/Codec sevent/net/http/HttpCodec.cpp,
--                  HttpRequestCodec.cpp and HttpResponseCodec.cpp; in Http/Text
--                  sevent/net/http/HttpRequest.cpp, HttpResponse.cpp and http.cpp
--   Ssl            sevent/net/ssl/SslContext.cpp, sevent/net/ssl/SslCodec.cpp, with OpenSSL as a
--                  parameter
--   Server         sevent/net/TcpServer.cpp, sevent/net/Acceptor.cpp, sevent/net/EventLoopWorkers.cpp
--   Client         sevent/net/TcpClient.cpp
--   Pipeline       sevent/net/TcpPipeline.cpp, with the handlers of the user as a parameter
--   Logging        sevent/base/LogStream.cpp, sevent/base/FixedBuffer.h,
--                  sevent/base/LogAsynAppender.cpp; in Logging/Logger sevent/base/Logger.cpp
--   Examples       examples/chat/LengthHeaderCodec.h; in Examples/Hub examples/hub/hub.cpp and
--                  examples/hub/hubCodec.cpp; in Examples/Socks examples/socks4a/socks4a.cpp;
--                  in Examples/Idle examples/connection/idleconnection.cpp
--
-- How the code is written down:
--   - numbers are natural numbers; a `size_t` wraps at 2 ^ 64 (`add_size`, `sub_size`), and
--     `max_size` is the largest size of a vector of bytes;
--   - a `char *` into a vector is an index, and an access outside of the vector, an exception or a
--     failed assert is a `Fault` of the `Result`;
--   - what an operation does outside of its object (system calls, calls of the user, tasks for the
--     loop, updates of the poller) is a list of effects in the order of the code, and what the
--     system answers is an argument;
--   - times stay below 2 ^ 63 microseconds and a text of the log below 2 ^ 31 bytes, where the code
--     has signed numbers; a poll reports all channels that are ready, and is not ended by a signal;
--   - loops are structural on the list they go through, with exceptions that take fuel:
--     `parse_from`, the loop over a query string, has the length of the string, which each turn
--     shortens; `convert_loop`, which prints an integer, has its magnitude, which each turn divides;
--     `parse_loop`, the loop over the input of the HTTP codec, has the length of the input. All have
--     one more than that, and so never run out (the last one if http-parser takes a byte with each
--     message that it completes). The loops of Ssl have fuel for the state in which
--     they start, more than the bytes that OpenSSL then has pending, and the length of the input. `message_loop` of the hub has the length of the input, and
--     never runs out.
--
-- Not modelled: the wrappers of the system calls (sevent/net/SocketsOps.cpp,
-- sevent/net/InetAddress.cpp), the setup of the TLS context, which only calls OpenSSL, the vendored
-- http-parser and wepoll, the other examples, and the tests.
pub mod Base
pub mod Buffer
pub mod Channel
pub mod TcpConnection
pub mod EventLoop
pub mod Poller
pub mod Timers
pub mod Connector
pub mod Server
pub mod Pipeline
pub mod Http
pub mod Logging
pub mod Client
pub mod Examples
pub mod Ssl
