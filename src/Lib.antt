-- ===== src/Lib.antt =====
-- mineNet, a TCP game server: packets, connections, the connection pool, the server, the router, the
-- scheduler, and how main puts them together.
--
-- A server (network/tcp_net.go) accepts sockets, makes a connection of each (network/conn.go) and
-- keeps it in a pool (network/conn_pool.go). A connection has a codec (network/packet.go) that
-- turns packets into frames and back, a heartbeat (network/heartbeat.go), and shares one rate
-- limiter (network/rate_limiter.go) with the others. Four goroutines work on it: readLoop,
-- writeLoop, pingLoop and checkLoop. A handler of the server can be a router (core/router.go),
-- which finds the message type of a packet in a registry (written by proto_generate.go), calls the
-- handler of the type and sends its answer back.
--
-- main (main.go, handler.go) reads the configuration (config/), makes the logger and the Redis
-- client (common/log.go, common/redis.go), installs the router, and gives the server, the metrics
-- server, the scheduler (common/scheduler.go) and the Redis client to the component manager
-- (common/manager.go), which starts each in a goroutine and stops them on a signal. The parts
-- register their metrics (metrics/) when the first of them is made.
--
-- Files, and the code that they model:
--   Base, Base/*                    helpers: lists, tests, integers of 64 bits, big-endian numbers,
--                                   maps as association lists, the three ways a Go call can end
--   Network/Errors                  the errors of package network
--   Network/Packet                  network/packet.go: Packet, Encode, Decode
--   Network/Packet/Transform        network/packet.go: compressData, encryptData and their inverses
--   Network/Packet/RoundTrip        what Decode makes of what Encode wrote
--   Network/Packet/Rejects, Progress, BadKeys         what Decode refuses and consumes
--   Network/Packet/Shared, Shared/Content             Encode of a packet that Broadcast has queued on
--                                   several connections, an access of it at a time
--   Network/RateLimiter             network/rate_limiter.go
--   Network/RateLimiter/Counters    what its counters count
--   Network/Heartbeat               network/heartbeat.go: the manager
--   Network/Connection/State        network/conn.go: Connection, Close, the accessors
--   Network/Connection/Send         network/conn.go: Send, and a round of writeLoop
--   Network/Connection/Receive      network/conn.go: handleHeartbeat, and a round of readLoop
--   Network/Connection/Loops        the two loops, and the ticks of pingLoop and checkLoop
--   Network/Connection/Wire, Drain, Took, Delivery    what one end queues and the other dispatches
--   Network/Connection/Invariant, ReadInvariant, Steps, Closed, Overtaken  histories of a connection
--   Network/Connection/Beats, Pings                   what the heartbeat comes to
--   Network/Connection/Fifo, Fifo/Rounds, Fifo/Order  the queue between Send and writeLoop
--   Network/Connection/Threads      Send and Close, an access of the connection at a time
--   Network/Connection/Threads/Alone, Invariant, Safety, Ends, Late        any interleaving of them
--   Network/ConnPool/Pool           network/conn_pool.go, over network/interface.go's IConnection
--   Network/ConnPool/Bounds, Cleanup, Removal         what the pool's operations keep and leave
--   Network/TcpServer/State, Server                   network/tcp_net.go
--   Network/TcpServer/Accept, Broadcast               what the server does to the pool
--   Network/TcpServer/Early         a packet that is read before the handlers are installed
--   Network/TcpServer/Instance      network/conn.go's Connection as the interface
--   Network/Tests, Network/Tests/*  concrete values and runs
--   Core/Errors                     the errors of core/router.go
--   Core/Registry                   proto_generate.go, the registry in its template
--   Core/Generator, GeneratorTests  proto_generate.go, the messages that it collects
--   Core/Router, Core/Dispatch      core/router.go: registration, and Handle
--   Core/Validation, Requests       which handlers are taken, and what becomes of a packet
--   Core/Tests                      concrete values and runs
--   Common/Lru, Common/Tests        common/lru.go: one cache for each module of the program
--   Common/Uuid, Common/Uuid/Unique common/uuid.go: the ids of connections
--   Common/TaskHeap                 common/scheduler.go: TaskHeap, with container/heap's loops
--   Common/TaskHeap/Order, Swap, Up, Down, Pop, Fuel  heap order, and what the loops do to it
--   Common/TaskHeap/Contents        the tasks of a heap as a bag: a quotient by permutation
--   Common/Scheduler                common/scheduler.go: Scheduler, a round of run, a task's end
--   Common/Scheduler/Steps          its histories
--   Common/Scheduler/Spec, Refines  what it promises over the bag, and that each step keeps to it
--   Common/Scheduler/Rounds, Tracking                 what rounds start; names and tasks
--   Common/Scheduler/Calendar       the daily and weekly tasks
--   Common/Manager                  common/manager.go: ComponentManager
--   Common/Manager/Shutdown, Verdict, Ends            Stop as steps of its goroutines
--   Common/Logger, Common/Logger/Level                common/log.go
--   Common/Redis                    common/redis.go
--   Config, Config/Calls            config/: the structs, LoadConfig and ReloadConfig
--   Metrics/Collectors              prometheus as it is used: options, and the registry
--   Metrics/Conn, Heartbeat, ConnPool, TcpServer, RateLimiter        the files of metrics/
--   Metrics/Once, Registration, Owners, Singletons    the singletons: none registers a name twice
--   Main, Main/Startup, Main/Shutdown
--                                   main.go and handler.go
--   Main/Exchange, Exchange/Rounds, Reply             a request from one end to the other and back
--
-- State is passed explicitly: a method takes the state and gives the new one with its result. A
-- result is `ok`, `err` (a non-nil error) or `panic`. What happens outside is an argument: the
-- time, the answer of a socket, which ready case a select takes, what a listener's Accept returns.
-- A round of a loop, a tick and a method are each one step that nothing interrupts; histories are
-- lists of such steps. Send and Close are also split into their accesses of what goroutines share
-- (Network/Connection/Threads), and so is Encode of a packet that several connections hold
-- (Network/Packet/Shared): there any number of calls take steps in any order. Wait of the limiter is
-- two steps, its beginning and its end. A round of readLoop is one step; Network/Connection/Overtaken
-- says what becomes of one that had looked at the channel before a Close.
--
-- AES on one block, gzip, encoding/json and the token bucket are parameters (`Transforms`, `Json`,
-- `LimiterLib`) with what the code relies on: a block has 16 bytes, gzip's reader gives back what
-- its writer took, JSON gives back the heart packet. Package reflect and protobuf are parameters of
-- the router (`Reflection`, `Protobuf`), the LRU cache one of its manager (`CacheLib`): a type is a
-- number, and a base message is read as it was written. CFB over the block cipher is written out.
-- The pool and the server are over interfaces (`ConnectionInterface`, `ServerInterface`), which
-- Network/TcpServer/Instance fills with the connection.
--
-- Bounds and fuel: sequence numbers wrap at 2 ^ 64, lengths on the wire at 2 ^ 32, a frame has 26
-- bytes to 10 MB, the queue 1024 places. `write_loop` and `read_loop` take fuel: a round for each
-- packet of the queue is enough for the first, and one more, for the end of the stream, for the
-- second, as the theorems on them show.
--
-- The scheduler's loops up and down take fuel too: one more than the number of tasks is enough for
-- both. Its operations hold a mutex, so each is one step; Execute is a nil function or a function
-- of which nothing more is known. container/heap's up, down, Push, Pop and Init are written out, as
-- package heap documents them, on the list of tasks. Packages time (`Calendar`), os and zapcore
-- (`LogWorld`), viper (`Viper`), go-redis (`RedisApi`) and prometheus' registry (`Registry`) are
-- parameters: a registry takes a collector whose full name it does not have.
--
-- Not modelled: log lines, the values of latencies and durations, of which only the number
-- observed is kept, the server's startup time and uptime, the generated messages (proto/), the
-- execution of the generator's template and the metrics server (metrics/server.go), which only
-- call libraries. Packets are values but in Network/Packet/Shared, and a logger's configuration is
-- one too, though the source shares it with its caller.
pub mod Base
pub mod Common
pub mod Config
pub mod Core
pub mod Main
pub mod Metrics
pub mod Network
