-- ===== src/Process.antt =====
-- src/kernel/process: the scheduler's ring, the locks, the semaphores and the message queues.
pub mod Counts
pub mod Locks
pub mod Scheduler
pub mod Mailbox
pub mod Pool
