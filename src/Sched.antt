-- ===== src/Sched.antt =====
-- src/lthread.c: the schedulers. Each function below is one critical section, made whole under the
-- mutex of the source, or a run of such sections that its comment describes.
pub mod Ready
pub mod Sleep
pub mod Switch
pub mod Loop
pub mod Pool
pub mod System
pub mod Calls
pub mod Stack
