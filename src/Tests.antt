-- ===== src/Tests.antt =====
-- Small worlds, over lists as containers, in which the theorems are applied.
mod Worlds
mod Sched
mod Poller
mod Cond
mod System
mod Exclusive
mod Fifo
mod Heap
mod Socket
mod Opening
mod Pthread
mod Trace
mod Backend
