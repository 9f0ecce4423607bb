-- ===== src/Lib.antt =====
-- A library about the engine of ats, an event-driven trading framework in C.
--
-- Parts. An event (src/engine/core/event.c) is a counted block of memory with a type, flags and a
-- time. A producer pushes events into an event queue (event_queue.c), a ring between one producer
-- and one consumer (src/engine/base/spscq.c). The consumer is the bus of a context (event_bus.c): it
-- keeps the queues that hold events in one heap per category, ordered by the time of their first
-- event, and the timers in one heap per clock, and hands out the next event. A push into an empty
-- queue tells the bus through a multiple-producer queue. The loop of the context (context.c) takes
-- events from the bus and gives each to its handler (event_dispatch.c). Times are microseconds since
-- 0001-01-01 (src/engine/base/datetime.c). Values of several types are variants
-- (src/engine/base/variant.c).
--
-- Files.
--   Base             Boolean tests on the native numbers, machine words, arrays as lists, memory as
--                    functions from pointers; the names that all modules share
--   Spscq            spscq.c; Spscq.Ring says which positions hold pointers, Spscq.Queue is the
--                    abstract FIFO and Spscq.Refine its refinement; Spscq.Interleave takes push and
--                    pop apart into loads and stores, and Spscq.Fifo is about their interleavings
--   World            the structs of src/engine/core and the memory that holds them
--   Event            event.c; Event.Lifetime is about counts
--   EventQueue       event_queue.c; EventQueue.Notify has a push against a pop by the bus in steps,
--                    EventQueue.Lost and EventQueue.Watched what follows; EventQueue.Destroy is about
--                    event_queue_destroy
--   Wakeup           bus_async_add_queue of event_bus.c and ctx_wakeup of context.c
--   Bus              event_bus.c: Bus.Heaps (orders, adding, removing, popping), Bus.Clocks,
--                    Bus.Attach (attached queues, clearing), Bus.Dequeue (the next event), Bus.Init;
--                    Bus.Order, Bus.Pipe, Bus.Add, Bus.Pop, Bus.Time and Bus.Select are about them.
--                    Bus.Pipes takes all heaps of queues together; Bus.Joins and Bus.Pending are about
--                    check_pending_queue, Bus.Round and Bus.Fetch about the loop for market data,
--                    Bus.Timer, Bus.Expire and Bus.AddTimer about timers, Bus.Forward and
--                    Bus.Progress about the event that a simulation hands out, Bus.Realtime about the
--                    other mode and Bus.NextEvent about both; Bus.Types and Bus.SelectTypes are about
--                    the types of events, Bus.Attached, Bus.Removal, Bus.Detach and Bus.AttachOne
--                    are about attached queues and Bus.Handed about what they get; Bus.Busy is a bus
--                    for tests
--   Dispatch         event_dispatch.c; Dispatch.Count, Dispatch.Repeat and Dispatch.Delayed are
--                    about it
--   Context          context.c; Context.Drain is about the callbacks and Context.Run about a round of
--                    ctx_run, from the callbacks over the bus to the dispatcher
--   Mem              src/engine/base/mem.c; Mem.Copies is about the copies of strings, Mem.IdArray is
--                    src/engine/base/idarray.h, and Mem.Bits and Mem.Storage are about that
--   Datetime         datetime.c: the calendar; Datetime.Cycle, Datetime.Shift and Datetime.Roundtrip
--                    are about it. Datetime.Format and Datetime.Parse (with Datetime.Ascii) have the
--                    texts; Datetime.Scan, Datetime.Iso, Datetime.Tail, Datetime.Zone, Datetime.Text,
--                    Datetime.TextRoundtrip and Datetime.Inside are about them
--   Variant          src/engine/base/variant.h and variant.c: the values and variant_equal;
--                    Variant.Text, Variant.Print and Variant.Buffer have the printing;
--                    Variant.Equal, Variant.Fits and Variant.Agree are about them
--   Currency         src/engine/base/currency.c and currency.h; Currency.Table is the table and
--                    Currency.Names is about the searches
--   Hash             src/engine/base/hash.c, the versions for numbers and for strings as one
--   Heap, Mpscq      what the engine relies on in heap-inl.h (of libuv) and mpscq.c (of gRPC)
--   Samples          a small state for the tests, which stand in the modules named Tests,
--                    in Bus.LoopTests and in Bus.DetachTests
--
-- How state corresponds. A pointer is a number and NULL is 0. A World has one function from pointers
-- per struct, and a C function that changes memory takes a World and returns one. A text that is
-- read is a function from offsets to bytes, so that reading past its end has a meaning. Words wrap
-- as in C; an intptr_t is kept as its bit pattern. A failed ASSERT and an access out of bounds are
-- `none`, and so are heap_remove of a node that is not in a heap with other nodes (bus_remove_queue,
-- bus_remove_timer) and a text or a string of 2 ^ 31 bytes, whose length does not fit the int, in
-- variant_print_buffer. The two ASSERTs of queue_less_than, that the first events are not NULL, are
-- no part of the order; the invariant of a heap (Bus.Pipe.IsQueued) says that its queues hold no
-- null pointer, so they hold. Function names are those of the source without the prefix spscq_ in
-- Spscq; `march_to_date`, `normalise`, `join_bus`, `requeue`, `rearm`, `take_market`,
-- `simulation_select` and the like are parts of one C function.
--
-- Loops. Those that walk an array recurse on what is left of it. Those that end when a queue is empty
-- take fuel and return `none` without it: event_queue_destroy takes the capacity, more than a ring
-- can hold, and queue_heap_clear and timer_heap_clear one round more than the heap has nodes. In
-- fetch_market, check_pending_queue, emit_delayed_events and ctx_run the fuel is an argument: one more
-- than the events in the market queues is enough for the first, one more than the waiting queues for the
-- second, and one more than the buffered events for the third, if handlers delay no more.
-- One more than the posted callbacks is enough for the first loop of ctx_run if a callback posts no
-- further ones, and one more than its length for the search for the end of a string.
--
-- Not modelled: the copies of other projects' code (the heap and the queue above as interfaces,
-- khash, rbtree, queue.h, vec), the platform layer and atomics (a step of an interleaving is one
-- load or store, in program order), and logging. The hash tables of khash are the interfaces
-- Currency.StringMap and Hash.Khash; of hash.c there are the definitions only. Functions behind
-- pointers, the wait of the loop, what malloc and realloc return and how the C library prints
-- numbers are parameters.
pub mod Base
pub mod Spscq
pub mod Currency
pub mod Datetime
pub mod Hash
pub mod Heap
pub mod Mpscq
pub mod World
pub mod Event
pub mod Wakeup
pub mod EventQueue
pub mod Bus
pub mod Dispatch
pub mod Context
pub mod Mem
pub mod Variant
pub mod Samples
