-- ===== src/Network/Connection.antt =====
-- network/conn.go: one connection. The goroutines are steps: a round of readLoop, a round of
-- writeLoop, and the ticks of the heartbeat's pingLoop and checkLoop. A step runs without being
-- interrupted. The rate limiter is one for all connections and stands beside the state.
pub mod State
pub mod Send
pub mod Receive
pub mod Loops
pub mod Wire
pub mod Drain
pub mod Took
pub mod Delivery
pub mod Invariant
pub mod ReadInvariant
pub mod Steps
pub mod Threads
pub mod Fifo
pub mod Closed
pub mod Overtaken
pub mod Beats
pub mod Pings
