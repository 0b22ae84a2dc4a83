-- ===== src/Lib.antt =====
-- The C++ tracks of three katas: packet dispatch, an event pipeline, a work queue.
--
-- plugin-dispatch-kata/cpp. A packet is given to the handler that matches it. `Dispatch.Packet` and
-- `Dispatch.Handler` hold the data and the interface (src/packet.hpp, src/handler.hpp). A scan
-- (`Dispatch.Scan`, the scans of src/strategy.hpp) asks each handler in turn; a table
-- (`Dispatch.Table`, `TableDirect16` and `TableCompact` there) looks at the packet's key and then
-- asks the handlers of that key. `Dispatch.Generated` are the hundred handlers of src/generated.hpp.
-- `Dispatch.Mechanism` are the arms of src/mechanism.hpp, one selector and four ways to call. The
-- plugin boundary is `Dispatch.Abi` (src/plugin_abi.h), `Dispatch.Host` (src/host.hpp, the gates and
-- the adapter) and `Dispatch.Plugin` (plugin/plugin.cpp, over a heap of its objects). A handler is a
-- record of functions over a state `W`. The dynamic linker is the parameter `Linker`.
--
-- mpsc-event-pipeline-kata/cpp. Each producer has a ring (`Mpsc.Ring`, src/spsc_ring.hpp), and one
-- consumer drains them. `Mpsc.Ring` has each call as one step; `Mpsc.Ring.Race` has the two sides
-- at once, one access of shared memory at a time and in any order. `Mpsc.Pipeline` has the slots,
-- the bitmap and the producers' calls of src/event_pipeline.hpp, `Mpsc.Pipeline.Consumer` the
-- draining, clearing, reclaiming and parking, `Mpsc.Pipeline.Loop` a round of `consume`,
-- `Mpsc.Pipeline.Final` its final pass, whose loops have as many rounds as the rings hold events, and
-- one, and `Mpsc.Pipeline.Stop` the drain of `stop`, which ends at the latest with the list of what
-- it finds at its looks. Calls are whole steps there. `Mpsc.Pipeline.Handshake` has `push` with
-- `signal` against clearing, re-checking and parking once more, an access of the bitmap, of the flag
-- or of a ring at a time, for producers that stay. `Mpsc.Config` is src/config.hpp; the limits are a
-- parameter, with the source's values in `source_limits`. The loop of `drain_ring` runs for as
-- many rounds as a batch has events: a round that takes none ends it, so they are
-- enough. `Mpsc.Sink` is `CountingSink` of src/sink.hpp, whose sampling loop is given 63 rounds, as
-- many as it can take.
--
-- mpmc-work-queue-kata/cpp. `Mpmc.Turnstile` is the ring of sequence numbers of src/mpmc_queue.hpp:
-- a look of `try_push` or `try_pop` at a slot, the compare-and-swap after it, which may fail for no
-- reason, a ticket, a publication, a tombstone, a release and a close. `Mpmc.Turnstile.Threads` has
-- any number of threads that take these as steps in any order, on a tail word or a head that may be
-- out of date. Its positions stay below 2^62 (`InRange`). `Mpmc.Locked` is src/mutex_queue.hpp, each critical
-- section one step; a call that waits takes a list of what it finds whenever it has the lock again.
-- `Mpmc.EventCount` is src/eventcount.hpp, each call one step; `Mpmc.EventCount.Threads` has its
-- waiters and notifiers an access of shared memory at a time. `Mpmc.Turnstile.Calls` adds the event
-- counts to the ring, with the loops of `try_push` and `try_pop`, the wakes and the close;
-- `Mpmc.Turnstile.Producer` and `Mpmc.Turnstile.Consumer` are `push` and `pop`. `Mpmc.Sharded` is
-- src/sharded_queue.hpp: its rings, the calls over them (`Calls`), `push` and `pop` (`Blocking`),
-- and one ring with its producer, its consumer and a close at once, an access of the tail, of the
-- head or of a slot at a time (`Lane`). A call that waits is made of rounds
-- (`Mpmc.Rounds`): a list of rounds says what the other threads do at each place of a round, what the
-- clock says, and what the wait finds; the call returns no answer when the list ends first. The loop
-- of a try has a list in the same way, one entry for each look. `Mpmc.Brief` is src/brief_queue.hpp.
-- `Mpmc.Driver` is bench/driver.hpp: the counts of a run's threads on given answers and deliveries,
-- their merging, the checks of a run and the timeline. `Mpmc.Histogram` is src/histogram.hpp,
-- `Mpmc.Event` src/event.hpp, `Mpmc.Api` src/queue_api.hpp.
--
-- Machine integers are natural numbers with the wrap written out. Memory is sequentially consistent
-- throughout: weaker orders, and the fences against them, are not modelled. Nor are the
-- slow sink, the options of the queue that plant a bug, the platform
-- layers and the other benchmarks, and neither are the Go and Python tracks.
--
-- `Prelude` has the names that all parts share: tests, lists, words and circular arrays.
pub mod Prelude
pub mod Dispatch
pub mod Mpsc
pub mod Mpmc
