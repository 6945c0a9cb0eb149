-- ===== src/Xv6.antt =====
-- 03-xv6-stcf-scheduler: the process table, its scheduler and the system calls that drive it.
pub mod Proc
pub mod Scheduler
pub mod Lifecycle
pub mod ForkExit
pub mod Syscalls
pub mod System
pub mod Pipe
pub mod Log
pub mod Buffers
mod Tests
