-- ===== src/Lib.antt =====
-- bingewatch, a library that streams data between machines: buffers, files, sockets and radios.
--
-- The parts and how they interact. A machine is registered by name and gives out handles; a handle
-- finds a descriptor with a read and a write side, and each side has a chain of filters, the last of
-- which moves the data. The ring buffer is such a machine, over a ring of blocks. A segment reads
-- from one machine and writes to others in its own thread; a stream owns segments, starts and joins
-- them, and is told by call-backs when one completes or fails.
--
-- The files, each with the code it models:
--   Prelude    shared names, tests on numbers, lists, `size_t` arithmetic, lists searched by handle
--   Status     the codes of include/machine.h and include/filter.h
--   Block      src/buf/block-list-buf.c: `block_list_alloc`, `block_data_fastalloc`, `forge_ring`
--   Ring       src/buf/ring-buf.c: `create_buffer`, `buf_write`, `buf_read`, `get_next_block` and the
--              settings (Ring.Control); Ring.Refine has the queue of bytes that a ring implements
--   Stream     src/stream.c: the list of streams; Stream.Step is `main_state_machine` with the
--              call-backs and `stop_stream`, which takes no lock, as a step relation
--   Metrics    src/machine-metrics.c: counters, totals and timers
--   Machine    src/machine.c and src/machine-mgmt.c: handles and descriptors; Machine.Moves has the
--              reads and writes through a descriptor
--   Filter     src/filter.c and src/filter/filters.c: chains, the byte limit and counter, the time
--              limit; Filter.Convert has the conversion of samples of src/filter/conversions.c, over casts
--              and products of floats that are parameters
--   Fixed      src/buf/fixed-block-buf.c: `create_buffer`, `buf_write`, `buf_read`; Fixed.Refine has the
--              queue of messages that such a buffer implements
--   HandleQueue  src/buf/handle-queue.c over the lists of memex; HandleQueue.Order has the fifo and
--              the stack of entries that it implements
--   FifoMachine  src/fifo-machine.c: `fifo_write` and `fifo_read` over the calls of the system
--   FileMachine  src/file-machine.c over the calls of the system: names, directories and rotation,
--              `open_file`, `file_write` and `file_read`; FileMachine.Disk says what is relied on
--   Socket     src/socket-machine.c over the calls of the system: the list of sockets and its locks;
--              Socket.Udp has the datagrams
--   SdrRx      src/sdr/sdr-rx-machine.c over the driver's calls: SdrRx.Devices has the lists of
--              devices and channels, SdrRx.Read `sdrrx_read`, and SdrRx.Buffer the ring that one
--              thread fills from the hardware while another reads it, as a step relation
--   Segment    src/segment.c: `segment_run` and `segment_run_source` over machines given by interfaces;
--              Segment.Watch says what a segment relies on, Segment.Stuck joins it with Machine, and
--              Segment.Source with Ring; Segment.Fifo has a pipe as such a machine
--
-- Conventions. Structures are records, addresses are numbers with 0 for NULL, and a heap gives each
-- block its link and its content. What the operating system answers to an allocation is a
-- parameter, and so are the water-mark formula in floating point and the rest of a filter chain.
-- `size_t` sums wrap modulo 2^64, handles modulo 2^32. An operation that locks throughout is one
-- atomic step. `stop_stream`, which does not lock, is two, and a call-back to a stream, whose lock
-- its thread does not take, may also write what rests on an earlier state. What would wait for ever
-- with nobody at the other end is `none`.
--
-- Fuel. The loop of `buf_write` gets one round more than there are bytes and that of `buf_read` one
-- more than it asks for, since each round but the last moves a byte; list walks get the number of
-- blocks ever made. A segment's writes get one more than its buffer has bytes, and the
-- searches of the file machine as many as there are names up to a free one. That this is
-- enough is part of the theorems: they state that the operation returns.
--
-- Not modelled: the byte counts of the conversion filter around the next filter; the drivers of
-- the radios, which call the libraries of their makers; the null machine and logging; pools,
-- strings, locks and printed text inside the parts that are modelled. Rates and times, which are
-- doubles, are left out of the metrics.
pub mod Prelude
pub mod Status
pub mod Block
pub mod Ring
pub mod Stream
pub mod Metrics
pub mod Machine
pub mod Filter
pub mod Segment
pub mod Fixed
pub mod HandleQueue
pub mod FifoMachine
pub mod FileMachine
pub mod Socket
pub mod SdrRx
