-- ===== src/Tests.antt =====
-- Examples: every theorem at a concrete input.
mod Errno
mod Syscall
mod Config
mod Instance
mod Interleave
mod Balance
mod Pthread
mod Socket
mod Module
mod Poll
mod Process
mod Waiters
mod Files
mod Interfaces
mod MiniApp
mod LoopThread
