-- ===== src/Bus.antt =====
-- src/engine/core/event_bus.c: the bus of a context, which merges event queues and timers. A heap
-- in the context orders the queues of each category by their first event, another the timers of
-- each clock. In the children `none` is a failed ASSERT, an access out of bounds, or a loop of the
-- model that ran out of fuel.
pub mod Heaps
pub mod Clocks
pub mod Attach
pub mod Dequeue
pub mod Init
pub mod Order
pub mod Pipe
pub mod Add
pub mod Pop
pub mod Time
pub mod Select
pub mod Pipes
pub mod Joins
pub mod Round
pub mod Fetch
pub mod Pending
pub mod Timer
pub mod Expire
pub mod AddTimer
pub mod Forward
pub mod Progress
pub mod Realtime
pub mod NextEvent
pub mod Types
pub mod SelectTypes
pub mod Busy
pub mod Attached
pub mod Removal
pub mod Detach
pub mod AttachOne
pub mod Handed
mod Tests
mod LoopTests
mod DetachTests
