-- ===== src/Lib.antt =====
-- The kernel of cyros, a preemptive real-time kernel for one or more cores: its ready structures,
-- its scheduler, its mutexes with priority inheritance and priority ceilings, and the urgency fold
-- that joins them.
--
-- The parts and how they interact. Each core has a scheduler with two ready structures: a matrix of
-- queues keyed on a thread's base priority, and a list of the ready threads that hold a mutex,
-- whose urgency the pick computes by a fold over what they hold. A mutex keeps its waiting
-- threads in a queue ordered by base priority, with a cache of the first one's priority; the
-- release hands the mutex to the first waiter, files it in that thread's held slots, and readies
-- the thread, which its core's scheduler admits. A smaller priority is the more urgent one.
-- The kernel's data that cores share is under spinlocks, which mask interrupts. Each core records
-- events in a trace buffer, which one reader empties; the stream writer puts them into packets of
-- bytes, and a tool decodes those.
-- Beside the kernel stand the time drivers, which call scheduled callbacks from the timer
-- interrupt, and the channel, a bounded FIFO whose waits are the kernel's.
--
-- The files, by the part they model:
--   Common, Common/*          Boolean tests, stores as functions, and the bits of an unsigned word
--   Ready/Queue, Ready/Queue/*
--                             thread_ready_queue (src/kernel/threading_subsystem.hpp and .cpp): the
--                             intrusive links, push_back, push_front, pop_front and remove,
--                             and the list that they implement
--   Scheduler/Matrix, Scheduler/Matrix/Laws
--                             thread_ready_matrix, over the lists that the queues' links spell
--   Kernel/Thread, Kernel/Store
--                             thread_control_block, base_mutex's fields, and the store of both
--   Kernel/Urgency, Kernel/Urgency/*
--                             urgency, urgency_at and donated_floor, wait_queue::top
--                             (src/kernel/waitable.cpp and scheduler.hpp) and
--                             base_mutex::urgency_contribution (src/kernel/base_mutex.cpp)
--   Kernel/Registry, Kernel/Pinning
--                             pin_thread_to_core (src/kernel/kernel.cpp) and scheduler::pin_thread
--                             (src/kernel/scheduler.cpp)
--   Kernel/StackLayout, Kernel/Carving
--                             stack_layout (src/kernel/threading_subsystem.cpp) and
--                             src/kernel/align.hpp
--   WaitQueue, WaitQueue/Order
--                             wait_queue::link and unlink (src/kernel/waitable.cpp)
--   WaitQueue/Batch           wait_queue::wake_all_where
--   Mutex/Queue, Mutex/Cache  pi_wait_queue: arm, disarm and the taking of the first waiter, with the
--                             inheritance cache (src/kernel/public_headers/waitable.hpp)
--   Mutex, Mutex/Slots, Mutex/Ownership, Mutex/HandOver
--                             base_mutex: try_lock, the steps of lock, unlock and hand_over
--                             (src/kernel/base_mutex.cpp), request_repick (src/kernel/waitable.cpp)
--   Scheduler/Core            the scheduler's state; admit, make_ready, link_holder, unlink_holder,
--                             set_thread_running, set_thread_blocked (src/kernel/scheduler.hpp, .cpp)
--   Scheduler/Leaving         depart, departure_of, set_thread_terminated; global_ready_thread
--                             (src/kernel/kernel.cpp)
--   Scheduler/Picking         pick_next and pick_with_holders
--   Scheduler/Switch          run_next, drain_intake, decide, the three roads into a switch, yield, park
--   Scheduler/Filing, Pick, Sides, Choice, Departure, Wake, Running, Deciding
--                             the invariants of the ready structures and of a core, and what
--                             keeps them
--   Time/Timetable, Time/Tickless, Time/Periodic
--                             the two time drivers (src/time/tickless/time_driver_tickless.cpp and
--                             src/time/periodic/time_driver_periodic.cpp): the timetable of a core,
--                             scheduling, cancelling, the timer interrupt, start and stop
--   Time/Armed, Firing, Agreement, Handles, Conversion
--                             what the drivers keep true, and how they agree
--   Time/Simulation           the simulation driver (src/time/simulation/time_driver_simulation.cpp)
--   Time/Simulation/Pump, Cores, Cancelling
--                             what an advance of the time fires on a core and on all of them, and
--                             a callback that is taken back
--   Channel                   the bounded FIFO and its calls
--                             (src/userlib/channel/public_headers/channel.hpp)
--   Channel/Spec              the FIFO over a list that specifies it
--   Channel/Ring, Fifo, Refinement, Gates
--                             the ring's values, the refinement, and the wakes that are asked for
--   Wait/Engine               wait_engine::run, wake_one and the cancel signal
--                             (src/kernel/waitable.cpp), a step at a time
--   Wait/Semaphore            semaphore (src/userlib/sync/semaphore.cpp), and the steps that threads,
--                             releases and cancel signals make in any order
--   Wait/Count, Supply, Moves, Steps, NoLostWakeup, Tokens
--                             what those steps keep
--   EventFlags, EventFlags/*  event_flags (src/userlib/sync/event_flags.cpp): set, clear and attempt
--   Spinlock, Spinlock/*      lock, try_lock and unlock (src/kernel/spinlock.cpp and
--                             src/kernel/public_headers/spinlock.hpp)
--   Intake                    post_intake, push_intake, await_intake_link and drain_intake
--                             (src/kernel/scheduler.cpp), a step at a time
--   Intake/Links, Pushing, Draining, Arrival
--                             the chains that the links spell, what keeps them, and the order of service
--   Handoff, Handoff/OneToken an acquire of handoff_semaphore (src/userlib/sync/handoff_semaphore.cpp)
--                             through wait_engine::run
--   Suspend, Suspend/Kept     this_thread::suspend and thread::resume
--                             (src/kernel/threading_subsystem.cpp)
--   Trace/Buffer, Trace/History, Trace/Kept, Trace/InOrder
--                             append_on_this_core and read (src/kernel/trace.cpp)
--   Trace/Stream              stream_writer (src/userlib/trace_stream/public_headers/stream.hpp)
--   Trace/Decode, Trace/Bytes, Trace/RoundTrip
--                             decode (debug/cyros_trace.py), and that it reads what is written
--   */Tests                   concrete states
--
-- How the state corresponds. A thread and a mutex are known by numbers, which stand for their
-- addresses. A thread's self-pointer sentinels are the fields `enqueued` and `listed`; the holder
-- list, the intake stack and a wait queue are lists of threads. A result `none` is an assert or a
-- requirement that fires. The model of a function under a lock or an interrupt mask is one step.
-- What a function asks of the port (a switch, an owed switch, a doorbell, an armed one-shot) is
-- recorded in its result. A scheduled callback is known by a number; what it does to the driver is
-- an argument of the timer interrupt, as is the time that the port answers. A wake that a channel
-- asks of a gate is recorded in the channel; a wait is left at the end of a pass, and the loop
-- around it makes the next. A thread's wait is a phase, which says what it does next; what another
-- thread, an interrupt or another core does between two of its steps is a step of its own. A wake
-- takes a thread off the queue in one step and readies it in a later one. The spinlock, the intake,
-- the trace buffer, the event flags and suspension are step relations of the same kind, under sequential consistency.
-- A byte and a word of the stream are numbers; what the tool's decoding of UTF-8 makes of a name's
-- bytes is an argument, and so is the hint of the thread that a mutex's release readies. The counter
-- of a semaphore wraps at a limit that its state holds.
--
-- Bounds and fuel. The search of thread_ready_queue::remove runs on fuel, and the number of queued
-- threads plus one is enough. The fold over a held mask makes eight rounds, the width of the mask,
-- and its recursion is bounded by the source's own budget of eight hops. The ready bitmap is a
-- 32-bit word, and the number of priorities is at most 32, as the source asserts. The loop that
-- moves a recurring deadline past the present has fuel for each tick of the lag, and a positive
-- period is at least one tick a round; a period of 0 is a one-shot, which the loop never meets.
-- The trace counters are 32-bit words that wrap, and the capacity is a power of two, as
-- src/kernel/validate_config.cpp requires. The decoder has fuel for each byte,
-- and a packet is at least three. An address wraps at its width, which is an argument.
-- The pump of the simulation driver has fuel for each waiting event of a core, and a round more.
-- The batches of wake_all_where have fuel for each waiter, since a full batch takes eight of them.
--
-- Not modelled: reads that race a write of another core elsewhere, what fills a trace record, the
-- views of the tool, wake_all, the wake of event_flags::set, the registration of a thread but for its
-- core, the conversions of the periodic driver, the condition variable, the releases of the handoff semaphore, the start and the end
-- of the kernel, join, the real-time mode of the simulation driver, the other user libraries, and the ports,
-- which are hardware.
pub mod Common
pub mod Ready
pub mod Kernel
pub mod WaitQueue
pub mod Mutex
pub mod Scheduler
pub mod Time
pub mod Channel
pub mod Wait
pub mod Trace
pub mod Spinlock
pub mod EventFlags
pub mod Suspend
pub mod Intake
pub mod Handoff
